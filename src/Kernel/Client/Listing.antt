-- ===== src/Kernel/Client/Listing.antt =====
-- Source/Kernel/iSCSIHBAUserClient.cpp: what the identifier lists of the user client hold.
use i_scsiinitiator.Base.{
  ℕ, zero, suc, ◌+◌, ◌*◌, ltb, Bool-cases, inl, inr, ◌==◌, ◌<◌, Bool, true, false, Option, none,
  some, List, [], ◌∷◌, ◌≡◌, refl, ap, length, arith, if◌then◌else◌,
}
use i_scsiinitiator.Kernel.Slots.{slot, count}
use i_scsiinitiator.Kernel.State.{Env, Hba}
use i_scsiinitiator.Kernel.Parameters.{io_bad_argument, refuse, answer}
use i_scsiinitiator.Kernel.Client.Lookup.{used_from, get_session_ids}

-- Whether a number is in a list, and whether a slot is in use.
unfoldable pub lists : ℕ → List ℕ → Bool
lists k [] = false
lists k (n ∷ rest) = if k == n then true else lists k rest

unfoldable pub is_used : {A : Type 0} → Option A → Bool
is_used none = false
is_used (some a) = true

module _ {A : Type 0} where
  lists-used_from-below : (m n : ℕ) (l : List (Option A)) → m < n → lists m (used_from n l) ≡ false
  unfolding lists used_from
  lists-used_from-below m n [] h = refl
  lists-used_from-below m n (none ∷ rest) h = lists-used_from-below m (suc n) rest (omega arith)
  lists-used_from-below m n (some a ∷ rest) h =
      ground (arith, lists-used_from-below m (suc n) rest (omega arith))

  lists-used_from :
      (m k n : ℕ) (l : List (Option A)) → m ≡ n + k → lists m (used_from n l) ≡ is_used (slot l k)
  unfolding lists used_from is_used slot
  lists-used_from m k n [] h = refl
  lists-used_from m zero n (none ∷ rest) h = lists-used_from-below m (suc n) rest (omega arith)
  lists-used_from m zero n (some a ∷ rest) h = ground arith
  lists-used_from m (suc k) n (none ∷ rest) h = lists-used_from m k (suc n) rest (omega arith)
  lists-used_from m (suc k) n (some a ∷ rest) h =
      ground (arith, lists-used_from m k (suc n) rest (omega arith))

  length-used_from : (n : ℕ) (l : List (Option A)) → length (used_from n l) ≡ count l
  unfolding used_from count
  length-used_from n [] = refl
  length-used_from n (none ∷ rest) = length-used_from (suc n) rest
  length-used_from n (some a ∷ rest) = ap suc (length-used_from (suc n) rest)

-- GetSessionIds refuses a buffer that is too small for the identifiers of all slots, and writes nothing to
-- it; else it succeeds with the number of sessions, and its list holds exactly the identifiers under which
-- the table has a session.
pub get_session_ids-exact :
    (env : Env) (size sid : ℕ) (h : Hba)
    → let out = get_session_ids env size h in
      (out.0 ≡ (
        if ltb size (2 * env.max_sessions)
        then refuse io_bad_argument h
        else answer (count h.sessions) h))
      × (lists sid out.1
          ≡ (if ltb size (2 * env.max_sessions) then false else is_used (slot h.sessions sid)))
unfolding get_session_ids lists
get_session_ids-exact env size sid h = elim (Bool-cases (ltb size (2 * env.max_sessions))) [
  | inl small ↦ rw small (refl, refl)
  | inr fits ↦ rw fits (
    ap (λ n. answer n h) (length-used_from 0 h.sessions),
    lists-used_from sid sid 0 h.sessions (omega arith),
  )
]
