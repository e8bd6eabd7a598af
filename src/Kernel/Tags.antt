-- ===== src/Kernel/Tags.antt =====
-- Source/Kernel/iSCSIVirtualHBA.h: BuildInitiatorTaskTag and the three functions that take a task tag
-- apart again.
use i_scsiinitiator.Base.{ℕ, ◌+◌, ◌*◌, ◌/◌, ◌%◌, ◌^◌, ◌<◌, bit_and, bit_or, ◌≡◌, refl, ◌↔◌, arith}
use i_scsiinitiator.Kernel.Bits.{bit_or-disjoint, bit_and-mask}

-- enum InitiatorTaskTypes
pub data InitiatorTaskType : Type 0 where
  scsi_task latency task_mgmt : InitiatorTaskType

abbrev pub task_type_code : InitiatorTaskType → ℕ
task_type_code scsi_task = 0
task_type_code latency = 1
task_type_code task_mgmt = 2

-- BuildInitiatorTaskTag, on 32 bits
unfoldable pub build_initiator_task_tag : InitiatorTaskType → ℕ → ℕ → ℕ
build_initiator_task_tag kind lun task_id =
    bit_or (bit_or (task_id % 2 ^ 32) ((lun % 2 ^ 32) * 2 ^ 16 % 2 ^ 32))
      (task_type_code kind * 2 ^ 24 % 2 ^ 32)

-- ParseInitiatorTaskTagForTaskType, as the number of the enumerator
unfoldable pub parse_task_type : ℕ → ℕ
parse_task_type tag = bit_and (tag / 2 ^ 24) 0xff

-- ParseInitiatorTaskTagForLUN
unfoldable pub parse_lun : ℕ → ℕ
parse_lun tag = bit_and (tag / 2 ^ 16) 0xff

-- ParseInitiatorTaskTagForTaskId
unfoldable pub parse_task_id : ℕ → ℕ
parse_task_id tag = bit_and tag 0xffff

kind_below : (kind : InitiatorTaskType) → task_type_code kind < 2 ^ 8
kind_below scsi_task = omega arith
kind_below latency = omega arith
kind_below task_mgmt = omega arith

-- The tag as a number in base 256, where each part fits its field.
pub build_initiator_task_tag-sum :
    (kind : InitiatorTaskType) (lun task_id : ℕ)
    → lun < 2 ^ 8
    → task_id < 2 ^ 16
    → build_initiator_task_tag kind lun task_id
      ≡ task_id + lun * 2 ^ 16 + task_type_code kind * 2 ^ 24
unfolding build_initiator_task_tag
build_initiator_task_tag-sum kind lun task_id lun_fits id_fits =
    rw
      (
        id_whole,
        lun_whole,
        kind_whole,
        bit_or-disjoint 16 task_id lun id_fits,
        bit_or-disjoint 24 (task_id + lun * 2 ^ 16) (task_type_code kind) (omega arith),
      )
      refl
  where
    id_whole : task_id % 2 ^ 32 ≡ task_id
    id_whole = omega arith

    lun_whole : (lun % 2 ^ 32) * 2 ^ 16 % 2 ^ 32 ≡ lun * 2 ^ 16
    lun_whole = omega arith

    kind_whole : task_type_code kind * 2 ^ 24 % 2 ^ 32 ≡ task_type_code kind * 2 ^ 24
    kind_whole = omega (arith, kind_below kind)

-- A tag that is built of a logical unit number below 256 and a task identifier below 65536 is taken
-- apart into the same type, logical unit number and task identifier.
pub parse-build_initiator_task_tag :
    (kind : InitiatorTaskType) (lun task_id : ℕ)
    → lun < 2 ^ 8
    → task_id < 2 ^ 16
    → let tag = build_initiator_task_tag kind lun task_id in
      (parse_task_type tag ≡ task_type_code kind)
      × (parse_lun tag ≡ lun)
      × (parse_task_id tag ≡ task_id)
unfolding parse_task_type parse_lun parse_task_id
parse-build_initiator_task_tag kind lun task_id lun_fits id_fits =
    rw (build_initiator_task_tag-sum kind lun task_id lun_fits id_fits) (
      rw (bit_and-mask 8 (tag / 2 ^ 24)) (omega (arith, kind_below kind)),
      rw (bit_and-mask 8 (tag / 2 ^ 16)) (omega (arith, kind_below kind)),
      rw (bit_and-mask 16 tag) (omega (arith, kind_below kind)),
    )
  where
    tag : ℕ
    tag = task_id + lun * 2 ^ 16 + task_type_code kind * 2 ^ 24

-- The tag of a SCSI task is 0, which the task queue also gives where it has no task, exactly if the
-- task's identifier and logical unit number are 0.
build_initiator_task_tag-zero :
    (lun task_id : ℕ)
    → lun < 2 ^ 8
    → task_id < 2 ^ 16
    → (build_initiator_task_tag scsi_task lun task_id ≡ 0) ↔ ((lun ≡ 0) × (task_id ≡ 0))
build_initiator_task_tag-zero lun task_id lun_fits id_fits =
    rw (build_initiator_task_tag-sum scsi_task lun task_id lun_fits id_fits)
      ((λ zero. (omega arith, omega arith)), (λ zeros. omega arith))
