-- ===== src/Kernel/DataOut/Chunks.antt =====
-- Source/Kernel/iSCSIVirtualHBA.cpp: what ProcessDataOutForTask sends where every PDU can be sent, and that
-- it comes to an end.
use i_scsiinitiator.Base.{
  ℕ, zero, suc, ◌-◌, ◌<◌, ◌==◌, false, Option, some, ◌≡◌, refl, arith, Bool-cases, inl, inr, chosen,
}
use i_scsiinitiator.Kernel.State.{Env, Hba}
use i_scsiinitiator.Kernel.DataOut.{Transfer, send_data, next_size, send_next}

module _ (env : Env) (x : Transfer) (segment_pos : 0 < x.segment) where
  next_size-smaller :
      (len fuel : ℕ) → (len == 0) ≡ false → len < suc fuel → len - next_size x len < fuel
  unfolding next_size
  next_size-smaller len fuel e enough = ground arith

  -- With fuel above the length, where the target's longest data segment is not 0, the loop comes to an
  -- end, whatever the sends answer and whether the connection is still there.
  pub send_data-terminates :
      (fuel offset len data_sn : ℕ) (h : Hba)
      → len < fuel
      → (r : Hba) × (send_data fuel env x offset len data_sn h ≡ some r)
  unfolding send_data
  send_data-terminates zero offset len data_sn h enough = absurd (omega arith)
  send_data-terminates (suc fuel) offset len data_sn h enough = elim (Bool-cases (len == 0)) [
    | inl e ↦ rw e (h, refl)
    | inr e ↦ rw e (
        chosen Ends (out.0 == 0) _ (some out.1)
          (send_data-terminates fuel _ (len - next_size x len) _ _ (smaller e)) (out.1, refl))
  ]
    where
      Ends : Option Hba → Type 0
      Ends o = (r : Hba) × (o ≡ some r)

      out : ℕ × Hba
      out = send_next env x offset len data_sn h

      smaller : (len == 0) ≡ false → len - next_size x len < fuel
      smaller e = next_size-smaller len fuel e enough
