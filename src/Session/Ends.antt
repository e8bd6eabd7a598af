-- ===== src/Session/Ends.antt =====
-- How a login and a logout leave the kernel, whichever way they end.
use i_scsiinitiator.Base.{
  ℕ, ◌==◌, leb, true, false, Option, none, some, List, ◌∷◌, ◌≡◌, refl, subst, inl, inr, arith,
  Bool-cases, if◌then◌else◌,
}
use i_scsiinitiator.Platform.{Platform}
use i_scsiinitiator.Target.{is_discovery}
use i_scsiinitiator.Hba.{
  World, Answer, Event, activated, released_session, released_connection, invalid_session_id,
  invalid_connection_id,
}
use i_scsiinitiator.Hba.Calls.{
  create_session, get_num_connections, is_invalid, activate_connection, release_session,
  release_connection, deactivate_all_connections,
}
use i_scsiinitiator.Negotiate.Login.{Login}
use i_scsiinitiator.Auth.Chap.{Setting}
use i_scsiinitiator.Session.Login.{
  Request, succeeded, finish_login, finished, negotiations, login_created, login, stopped,
}
use i_scsiinitiator.Session.Logout.{logout_session, remove_connection}

-- The last call that reached the kernel.
abbrev pub EndsWith : Event → World → Type 0
EndsWith e w = (before : List Event) × (w.events ≡ e ∷ before)

-- The result of a login whose session the kernel created: released where the login did not succeed,
-- and where it did, with the connection activated for a named target.
pub record IsSettled (session_id connection_id : ℕ) (l : Login) : Type 0 where
  pub unsuccessful : succeeded l ≡ false → EndsWith (released_session session_id) l.world
  pub successful :
      succeeded l ≡ true
      → is_discovery l.target ≡ false
      → EndsWith (activated session_id connection_id) l.world

EndsWith-release_session :
    (session_id : ℕ) (w : World)
    → (session_id == invalid_session_id) ≡ false
    → EndsWith (released_session session_id) (release_session session_id w)
unfolding release_session
EndsWith-release_session session_id w valid = (w.events, rw valid refl)

EndsWith-release_connection :
    (session_id connection_id : ℕ) (w : World)
    → is_invalid session_id connection_id ≡ false
    → EndsWith
        (released_connection session_id connection_id)
        (release_connection session_id connection_id w)
unfolding release_connection
EndsWith-release_connection session_id connection_id w valid = (w.events, rw valid refl)

EndsWith-activate :
    (session_id connection_id : ℕ) (w : World)
    → is_invalid session_id connection_id ≡ false
    → EndsWith (activated session_id connection_id) (activate_connection session_id connection_id w)
unfolding activate_connection
EndsWith-activate session_id connection_id w valid = (w.events, rw valid refl)

finish_login-IsSettled :
    (session_id connection_id : ℕ) (l : Login)
    → is_invalid session_id connection_id ≡ false
    → IsSettled session_id connection_id (finish_login session_id connection_id l)
unfolding finish_login
finish_login-IsSettled session_id connection_id l valid = elim (Bool-cases (succeeded l)) [
  | inl e ↦ elim (Bool-cases (is_discovery l.target)) [
    | inl d ↦
        rw (e, d)
          (record {
            unsuccessful = λ f. absurd (ground (arith, e, f));
            successful = λ _ n. absurd (ground (arith, d, n));
          })
    | inr d ↦
        rw (e, d)
          (record {
            unsuccessful = λ f. absurd (ground (arith, e, f));
            successful = λ _ _. EndsWith-activate session_id connection_id l.world valid;
          })
  ]
  | inr e ↦ rw e (record {
    unsuccessful = λ _. EndsWith-release_session session_id l.world (ground (arith, valid));
    successful = λ f. absurd (ground (arith, e, f));
  })
]

finished-IsSettled :
    (session_id connection_id : ℕ) (o : Option Login) (l : Login)
    → is_invalid session_id connection_id ≡ false
    → finished session_id connection_id o ≡ some l
    → IsSettled session_id connection_id l
unfolding finished
finished-IsSettled session_id connection_id none l valid h = absurd (ground (arith, h))
finished-IsSettled session_id connection_id (some m) l valid h =
    subst (λ (x : Login). IsSettled session_id connection_id x) the_end
      (finish_login-IsSettled session_id connection_id m valid)
  where
    the_end : finish_login session_id connection_id m ≡ l
    the_end = ground (arith, h)

module _ (sys : Platform) (env : Setting) (r : Request) where
  login_created-IsSettled :
      (status : ℕ) (a : Answer) (w : World) (l : Login)
      → is_invalid a.session_id a.connection_id ≡ false
      → login_created sys env r status a w ≡ some l
      → IsSettled a.session_id a.connection_id l
  unfolding login_created
  login_created-IsSettled status a w l valid h =
      finished-IsSettled a.session_id a.connection_id _ l valid (past h)
    where
      opened : Option Login
      opened =
          if a.error == 0
          then negotiations sys env r a.session_id a.connection_id status w
          else some (stopped a.error status r.target w)

      past :
          login_created sys env r status a w ≡ some l
          → finished a.session_id a.connection_id opened ≡ some l
      past k = elim (Bool-cases (a.error == 0)) [
        | inl e ↦ rw e (rw (e, valid) at k)
        | inr e ↦ rw e (rw e at k)
      ]

  -- A login that comes to an end after the portal's address was resolved, and whose session and
  -- connection identifiers are valid once the session was created, leaves the session released where
  -- it returns an error or a status other than "success". Where it returns neither, and the target is
  -- named, the last call has activated the connection.
  pub login-IsSettled :
      (session_id connection_id status : ℕ) (w : World) (l : Login)
      → is_invalid
          (create_session session_id connection_id w).0.session_id
          (create_session session_id connection_id w).0.connection_id
        ≡ false
      → login sys env r session_id connection_id 0 status w ≡ some l
      → IsSettled
          (create_session session_id connection_id w).0.session_id
          (create_session session_id connection_id w).0.connection_id
          l
  unfolding login
  login-IsSettled session_id connection_id status w l valid h =
      login_created-IsSettled status (create_session session_id connection_id w).0
        (create_session session_id connection_id w).1 l valid h

-- A logout that deactivates the session's connections ends with the release of the session, whether
-- the target answers or not.
logout_session-released :
    (session_id status : ℕ) (w : World)
    → (session_id == invalid_session_id) ≡ false
    → (deactivate_all_connections session_id w).0 ≡ 0
    → EndsWith (released_session session_id) (logout_session session_id status w).world
unfolding logout_session
logout_session-released session_id status w valid deactivates =
    rw (valid, deactivates) (EndsWith-release_session session_id _ valid)

-- The removal of a connection of a session with other connections ends with the release of that
-- connection, whether it could be deactivated and logged out or not.
pub remove_connection-released :
    (session_id connection_id status : ℕ) (w : World)
    → leb invalid_session_id session_id ≡ false
    → leb invalid_connection_id connection_id ≡ false
    → (get_num_connections session_id w).0.error ≡ 0
    → ((get_num_connections session_id w).0.count == 1) ≡ false
    → EndsWith
        (released_connection session_id connection_id)
        (remove_connection session_id connection_id status w).world
unfolding remove_connection
remove_connection-released session_id connection_id status w valid valid' counted others =
    rw (valid, valid', counted, others)
      (EndsWith-release_connection session_id connection_id _ (ground (arith, valid, valid')))
