-- ===== src/Kernel/Kept/Dispatches.antt =====
-- Source/Kernel/iSCSIVirtualHBA.cpp: ProcessTaskOnWorkloopThread keeps the session table well-formed,
-- whatever PDU arrives.
use i_scsiinitiator.Base.{ℕ, ◌==◌, ◌||◌, not, Option, none, some, List, refl, chosen, if◌then◌else◌}
use i_scsiinitiator.Kernel.State.{Env, Task, Incoming, Connection, Hba}
use i_scsiinitiator.Kernel.Wire.{
  recv_pdu_header, recv_pdu_data, Received, reserved_tag, op_data_in, op_r2t,
}
use i_scsiinitiator.Kernel.Commands.{process_data_out_for_task}
use i_scsiinitiator.Kernel.Dispatch.{
  without_head, process_task_mgmt_rsp, measured, nop_reply, nop_in_received, process_nop_in,
  async_action, process_async_msg, r2t_found, process_r2t, process_reject, process_pdu,
  process_task,
}
use i_scsiinitiator.Kernel.WellFormed.{IsConnection, IsWellFormed}
use i_scsiinitiator.Kernel.Kept.{relabelled, deactivate_connection-IsWellFormed}
use i_scsiinitiator.Kernel.Kept.Releases.{
  release_connection-IsWellFormed, release_session-IsWellFormed,
}
use i_scsiinitiator.Kernel.Kept.Receives.{recv_pdu_header-IsWellFormed, recv_pdu_data-IsWellFormed}
use i_scsiinitiator.Kernel.Kept.Sends.{
  send_pdu-IsWellFormed, change_connection-IsWellFormed, Ended, send_data-Ended,
}
use i_scsiinitiator.Kernel.Kept.Pdus.{
  segment-IsWellFormed, process_scsi_response-IsWellFormed, process_data_in-IsWellFormed,
}

module _ (env : Env) where
  pub without_head-IsConnection :
      (cid : ℕ) (c : Connection) → IsConnection cid c → IsConnection cid (without_head c)
  unfolding without_head
  without_head-IsConnection cid c is = record { same_cid = is.same_cid; bounded = is.bounded }

  measured-IsConnection :
      (now : ℕ × ℕ) (stamp : List ℕ) (cid : ℕ) (c : Connection)
      → IsConnection cid c
      → IsConnection cid (measured now stamp c)
  unfolding measured without_head
  measured-IsConnection now stamp cid c is = record { same_cid = is.same_cid; bounded = is.bounded }

  nop_in_received-IsWellFormed :
      (sid cid : ℕ) (b : Incoming) (r : Received (List ℕ))
      → IsWellFormed env r.hba
      → IsWellFormed env (nop_in_received env sid cid b r)
  unfolding nop_in_received
  nop_in_received-IsWellFormed sid cid b r w = chosen kept (not (r.error == 0)) _ _ w (
      chosen kept (not (b.target_transfer_tag == reserved_tag)) _ _
        (send_pdu-IsWellFormed env sid cid (nop_reply b) r.value r.hba w)
        (chosen kept (b.data_segment_length == 12) _ _
          (change_connection-IsWellFormed env (measured (env.clock r.hba.log) r.value) sid cid r.hba
            (measured-IsConnection (env.clock r.hba.log) r.value cid) w)
          w))
    where
      kept : Hba → Type 0
      kept g = IsWellFormed env g

  async_action-IsWellFormed :
      (sid cid event : ℕ) (h : Hba)
      → IsWellFormed env h
      → IsWellFormed env (async_action env sid cid event h)
  unfolding async_action
  async_action-IsWellFormed sid cid event h w =
      chosen kept (event == 3) _ _ (release_session-IsWellFormed env sid h w) (
        chosen kept (event == 2) _ _ (release_connection-IsWellFormed env sid cid h w) (
          chosen kept (event == 1 || event == 4) _ h
            (deactivate_connection-IsWellFormed env sid cid h w) w))
    where
      kept : Hba → Type 0
      kept g = IsWellFormed env g

  -- The adapter behind the data segment of a PDU, where it has one.
  flushed-IsWellFormed :
      (sid cid len : ℕ) (h : Hba)
      → IsWellFormed env h
      → IsWellFormed env (if len == 0 then h else (recv_pdu_data env sid cid len h).hba)
  flushed-IsWellFormed sid cid len h w =
      chosen (λ (g : Hba). IsWellFormed env g) (len == 0) h _ w
        (recv_pdu_data-IsWellFormed env sid cid len h w)

  process_async_msg-Ended :
      (sid cid : ℕ) (b : Incoming) (h : Hba)
      → IsWellFormed env h
      → Ended env (process_async_msg env sid cid b h)
  unfolding process_async_msg Ended
  process_async_msg-Ended sid cid b h w =
      chosen (Ended env) (b.async_event == 0x00 || b.async_event == 0xff) (some acted) _ acted_kept
        (chosen (Ended env) (env.has_client flushed.log) _ none
          (relabelled env acted _ refl acted_kept) tt)
    where
      flushed : Hba
      flushed =
          if b.data_segment_length == 0
          then h
          else (recv_pdu_data env sid cid b.data_segment_length h).hba

      acted : Hba
      acted = async_action env sid cid b.async_event flushed

      acted_kept : IsWellFormed env acted
      acted_kept =
          async_action-IsWellFormed sid cid b.async_event flushed
            (flushed-IsWellFormed sid cid b.data_segment_length h w)

  r2t_found-Ended :
      (sid cid : ℕ) (c : Connection) (b : Incoming) (o : Option Task) (h : Hba)
      → IsWellFormed env h
      → Ended env (r2t_found env sid cid c b o h)
  unfolding r2t_found process_data_out_for_task Ended
  r2t_found-Ended sid cid c b none h w = w
  r2t_found-Ended sid cid c b (some t) h w = send_data-Ended env _ _ _ _ 0 h w

  process_task_mgmt_rsp-IsWellFormed :
      (sid cid : ℕ) (b : Incoming) (h : Hba)
      → IsWellFormed env h
      → IsWellFormed env (process_task_mgmt_rsp sid cid b h)
  unfolding process_task_mgmt_rsp
  process_task_mgmt_rsp-IsWellFormed sid cid b h w =
      change_connection-IsWellFormed env without_head sid cid _ (without_head-IsConnection cid)
        (relabelled env h _ refl w)

  process_pdu-Ended :
      (sid cid : ℕ) (c : Connection) (b : Incoming) (h : Hba)
      → IsWellFormed env h
      → Ended env (process_pdu env sid cid c b h)
  unfolding process_pdu process_nop_in process_r2t process_reject Ended
  process_pdu-Ended sid cid c b h w =
      chosen (Ended env) (b.op_code == 0x21) _ _
        (process_scsi_response-IsWellFormed env sid cid b h w)
        (chosen (Ended env) (b.op_code == op_data_in) _ _
          (process_data_in-IsWellFormed env sid cid b h w)
          (chosen (Ended env) (b.op_code == 0x32) _ _ (process_async_msg-Ended sid cid b h w) (
            chosen (Ended env) (b.op_code == 0x20) _ _
              (nop_in_received-IsWellFormed sid cid b _
                (segment-IsWellFormed env sid cid b.data_segment_length h w))
              (chosen (Ended env) (b.op_code == op_r2t) _ _ (r2t_found-Ended sid cid c b _ h w) (
                chosen (Ended env) (b.op_code == 0x3f) _ _
                  (flushed-IsWellFormed sid cid b.data_segment_length h w)
                  (chosen (Ended env) (b.op_code == 0x22) _ _
                    (process_task_mgmt_rsp-IsWellFormed sid cid b h w) w))))))

  pub process_task-Ended :
      (sid cid : ℕ) (c : Connection) (b : Incoming) (h : Hba)
      → IsWellFormed env h
      → Ended env (process_task env sid cid c b h)
  unfolding process_task Ended
  process_task-Ended sid cid c b h w =
      chosen (Ended env) _ _ (some (recv_pdu_header env sid cid b h).hba)
        (process_pdu-Ended sid cid c _ _ (recv_pdu_header-IsWellFormed env sid cid b h w))
        (recv_pdu_header-IsWellFormed env sid cid b h w)
