-- ===== src/Kernel/Release/Frame.antt =====
-- Source/Kernel/iSCSIVirtualHBA.cpp: releases touch no session but their own, and leave no session behind.
use i_scsiinitiator.Base.{
  ℕ, zero, suc, ◌+◌, ◌≤◌, ◌<◌, ◌==◌, ◌&&◌, ltb, not, Option, none, some, ◌≡◌, ◌≢◌, refl, subst, ◌∙◌,
  arith, chosen, if◌then◌else◌, lt→ltb, Bool-cases, inl, inr,
}
use i_scsiinitiator.Kernel.Slots.{slot, slot-set_slot, slot-set_slot-other}
use i_scsiinitiator.Kernel.State.{Env, Connection, Session, Hba, put_session, put_connection}
use i_scsiinitiator.Kernel.Activation.{
  deactivated, deactivate_at, deactivate_in, deactivate_connection, has_connection,
}
use i_scsiinitiator.Kernel.Release.{
  clear_in, clear_connection, released_connection, release_at, release_in, release_connection,
  release_from, released_session, release_session, release_sessions_from, release_all_sessions,
}
use i_scsiinitiator.Kernel.WellFormed.{IsWellFormed}
use i_scsiinitiator.Kernel.Kept.Releases.{release_session-IsWellFormed, release_from-IsWellFormed}

-- Every session but one is as it was.
abbrev pub SameBut : ℕ → Hba → Hba → Type 0
SameBut sid h k = (m : ℕ) → sid ≢ m → slot k.sessions m ≡ slot h.sessions m

module _ (env : Env) (sid : ℕ) where
  SameBut-self : (h : Hba) → SameBut sid h h
  SameBut-self h m other = refl

  SameBut-put_session : (o : Option Session) (h : Hba) → SameBut sid h (put_session sid o h)
  unfolding put_session
  SameBut-put_session o h m other = slot-set_slot-other sid m o h.sessions other

  SameBut-put_connection :
      (cid : ℕ) (o : Option Connection) (s : Session) (h : Hba)
      → SameBut sid h (put_connection sid cid o s h)
  unfolding put_connection
  SameBut-put_connection cid o s h = SameBut-put_session _ h

  deactivate_at-SameBut :
      (cid : ℕ) (s : Session) (o : Option Connection) (h : Hba)
      → SameBut sid h (deactivate_at env sid cid s o h).1
  unfolding deactivate_at deactivated
  deactivate_at-SameBut cid s none h = SameBut-self h
  deactivate_at-SameBut cid s (some c) h = SameBut-put_connection cid _ _ h

  deactivate_in-SameBut :
      (cid : ℕ) (o : Option Session) (h : Hba) → SameBut sid h (deactivate_in env sid cid o h).1
  unfolding deactivate_in
  deactivate_in-SameBut cid none h = SameBut-self h
  deactivate_in-SameBut cid (some s) h = deactivate_at-SameBut cid s (slot s.connections cid) h

  deactivate_connection-SameBut :
      (cid : ℕ) (h : Hba) → SameBut sid h (deactivate_connection env sid cid h).1
  unfolding deactivate_connection
  deactivate_connection-SameBut cid h =
      chosen (λ (r : ℕ × Hba). SameBut sid h r.1)
        (not (ltb sid env.max_sessions && ltb cid env.max_connections)) (_, h) _ (λ m other. refl)
        (deactivate_in-SameBut cid (slot h.sessions sid) h)

  clear_in-SameBut : (cid : ℕ) (o : Option Session) (h : Hba) → SameBut sid h (clear_in sid cid o h)
  unfolding clear_in
  clear_in-SameBut cid none h = SameBut-self h
  clear_in-SameBut cid (some s) h = SameBut-put_connection cid none s h

  released_connection-SameBut :
      (cid : ℕ) (c : Connection) (h : Hba) → SameBut sid h (released_connection env sid cid c h)
  unfolding released_connection clear_connection
  released_connection-SameBut cid c h m other =
      clear_in-SameBut cid (slot stopped.sessions sid) stopped m other
      ∙ chosen (λ (g : Hba). SameBut sid h g) c.task_queue.enabled _ h
          (deactivate_connection-SameBut cid h) (λ m other. refl) m other
    where
      stopped : Hba
      stopped = if c.task_queue.enabled then (deactivate_connection env sid cid h).1 else h

  release_at-SameBut :
      (cid : ℕ) (o : Option Connection) (h : Hba) → SameBut sid h (release_at env sid cid o h)
  unfolding release_at
  release_at-SameBut cid none h = SameBut-self h
  release_at-SameBut cid (some c) h = released_connection-SameBut cid c h

  release_in-SameBut :
      (cid : ℕ) (o : Option Session) (h : Hba) → SameBut sid h (release_in env sid cid o h)
  unfolding release_in
  release_in-SameBut cid none h = SameBut-self h
  release_in-SameBut cid (some s) h = release_at-SameBut cid (slot s.connections cid) h

  release_connection-SameBut :
      (cid : ℕ) (h : Hba) → SameBut sid h (release_connection env sid cid h)
  unfolding release_connection
  release_connection-SameBut cid h =
      chosen (λ (g : Hba). SameBut sid h g) _ _ h (release_in-SameBut cid (slot h.sessions sid) h)
        (λ m other. refl)

  release_from-SameBut : (n cid : ℕ) (h : Hba) → SameBut sid h (release_from n env sid cid h)
  unfolding release_from
  release_from-SameBut zero cid h m other = refl
  release_from-SameBut (suc n) cid h m other =
      release_from-SameBut n (suc cid) _ m other
      ∙ chosen (λ (g : Hba). SameBut sid h g) (has_connection sid cid h) _ h
          (release_connection-SameBut cid h) (λ m other. refl) m other

  released_session-SameBut :
      (o : Option Session) (h : Hba) → SameBut sid h (released_session env sid o h)
  unfolding released_session
  released_session-SameBut none h m other = refl
  released_session-SameBut (some s) h m other =
      SameBut-put_session none _ m other ∙ release_from-SameBut env.max_connections 0 h m other

  pub release_session-SameBut : (h : Hba) → SameBut sid h (release_session env sid h)
  unfolding release_session
  release_session-SameBut h =
      chosen (λ (g : Hba). SameBut sid h g) _ _ h (released_session-SameBut (slot h.sessions sid) h)
        (λ m other. refl)

  released_session-gone :
      (o : Option Session) (h : Hba)
      → sid < env.max_sessions
      → IsWellFormed env h
      → slot h.sessions sid ≡ o
      → slot (released_session env sid o h).sessions sid ≡ none
  unfolding released_session put_session
  released_session-gone none h bound w e = e
  released_session-gone (some s) h bound w e =
      slot-set_slot sid none _
        (ground (arith, (release_from-IsWellFormed env env.max_connections sid 0 h w).slots))

  -- A session that is released is gone.
  pub release_session-gone :
      (h : Hba)
      → sid < env.max_sessions
      → IsWellFormed env h
      → slot (release_session env sid h).sessions sid ≡ none
  unfolding release_session
  release_session-gone h bound w =
      rw (lt→ltb sid env.max_sessions bound)
        (released_session-gone (slot h.sessions sid) h bound w refl)

module _ (env : Env) where
  -- The sessions below a number are gone.
  abbrev Gone : ℕ → Hba → Type 0
  Gone n h = (m : ℕ) → m < n → slot h.sessions m ≡ none

  Gone-release_session :
      (sid : ℕ) (h : Hba)
      → sid < env.max_sessions
      → IsWellFormed env h
      → Gone sid h
      → Gone (suc sid) (release_session env sid h)
  Gone-release_session sid h bound w gone m below = elim (Bool-cases (sid == m)) [
    | inl e ↦
        subst (λ (n : ℕ). slot (release_session env sid h).sessions n ≡ none) (ground (arith, e))
          (release_session-gone env sid h bound w)
    | inr e ↦
        release_session-SameBut env sid h m (λ same. absurd (ground (arith, e, same)))
        ∙ gone m (ground (arith, e))
  ]

  Gone-release_sessions_from :
      (n sid : ℕ) (h : Hba)
      → sid + n ≤ env.max_sessions
      → IsWellFormed env h
      → Gone sid h
      → Gone (sid + n) (release_sessions_from n env sid h)
  unfolding release_sessions_from
  Gone-release_sessions_from zero sid h bound w gone m below = gone m (omega arith)
  Gone-release_sessions_from (suc n) sid h bound w gone m below =
      Gone-release_sessions_from n (suc sid) (release_session env sid h) (omega arith)
        (release_session-IsWellFormed env sid h w) (Gone-release_session sid h (omega arith) w gone)
        m (omega arith)

  -- In a well-formed state, the release of all sessions, as when the controller is terminated, leaves none
  -- of the session table's slots in use.
  pub release_all_sessions-empties :
      (h : Hba)
      → IsWellFormed env h
      → (m : ℕ) → m < env.max_sessions
      → slot (release_all_sessions env h).sessions m ≡ none
  unfolding release_all_sessions
  release_all_sessions-empties h w m below =
      Gone-release_sessions_from env.max_sessions 0 h (omega arith) w
        (λ k none_below. absurd (omega arith)) m (omega arith)
