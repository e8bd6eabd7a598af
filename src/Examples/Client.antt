-- ===== src/Examples/Client.antt =====
-- The theorems on the user client, at the adapter with a session at work.
use i_scsiinitiator.Base.{[], ◌∷◌, ◌≡◌, refl, ◌^◌, ◌+◌, arith}
use i_scsiinitiator.Hba.{first_burst_length}
use i_scsiinitiator.Kernel.Slots.{slot}
use i_scsiinitiator.Kernel.Parameters.{io_success, answer}
use i_scsiinitiator.Kernel.Client.{set_session_value, get_session_value}
use i_scsiinitiator.Kernel.Client.Readback.{kept_value, get-set_session_value}
use i_scsiinitiator.Kernel.Client.Lookup.{get_session_ids}
use i_scsiinitiator.Kernel.Client.Listing.{lists, is_used, get_session_ids-exact}
use i_scsiinitiator.Examples.Adapter.{env, adapter, session}

get-set_session_value_example :
    let stored = set_session_value env (0 ∷ 10 ∷ (2 ^ 32 + 512) ∷ []) adapter in
    (stored.result ≡ io_success)
    × (get_session_value env (0 ∷ 10 ∷ []) stored.hba
        ≡ answer (kept_value first_burst_length (2 ^ 32 + 512)) stored.hba)
unfolding slot
get-set_session_value_example =
    get-set_session_value env 0 (2 ^ 32 + 512) first_burst_length session adapter (omega arith)
      (omega arith) refl

get_session_ids-exact_example :
    lists 0 (get_session_ids env 1024 adapter).1 ≡ is_used (slot adapter.sessions 0)
get_session_ids-exact_example = (get_session_ids-exact env 1024 0 adapter).1
