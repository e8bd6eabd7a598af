-- ===== src/Hba/Calls.antt =====
-- The calls themselves, with the argument checks that iSCSIHBAInterface.c makes.
use i_scsiinitiator.Base.{ℕ, ◌%◌, ◌^◌, ◌==◌, ◌&&◌, ◌||◌, Bool, List, [], ◌∷◌, if◌then◌else◌}
use i_scsiinitiator.Hba.{
  invalid_session_id, invalid_connection_id, SessionParameter, ConnectionParameter,
  session_parameter_code, Request, Event, sent, set_session, set_connection, activated,
  released_connection, deactivated, released_session, deactivated_all, Reply, Answer, World,
}

-- kIOReturnBadArgument
abbrev pub bad_argument : ℕ
bad_argument = 0xe000_02c2

-- ECONNRESET, for a connection that delivers nothing more
abbrev pub connection_lost : ℕ
connection_lost = 54

abbrev pub is_invalid : ℕ → ℕ → Bool
is_invalid session_id connection_id =
    session_id == invalid_session_id || connection_id == invalid_connection_id

abbrev pub log : Event → World → World
log e w = record w { events = e ∷ w.events }

-- The kernel's result of the next call.
pub next_result : List ℕ → ℕ
next_result [] = 0
next_result (r ∷ results) = r

pub later : List ℕ → List ℕ
later [] = []
later (r ∷ results) = results

-- The kernel takes the header, and then the data segment; the PDU goes out with the second call.
unfoldable pub send : ℕ → ℕ → Request → List ℕ → World → ℕ × World
unfolding next_result later
send session_id connection_id request segment w =
    if is_invalid session_id connection_id
    then (bad_argument, w)
    else if next_result w.results == 0
    then (
      next_result (later w.results),
      log (sent session_id connection_id request segment)
          (record w { results = later (later w.results) }),
    )
    else (next_result w.results, record w { results = later w.results })

-- The kernel may refuse a parameter that the daemon sets; no caller asks for the result.
unfoldable pub set_session_parameter : ℕ → SessionParameter → ℕ → World → World
set_session_parameter session_id parameter value w =
    if session_id == invalid_session_id
    then w
    else log (set_session session_id parameter value) (record w {
      session_values = λ s p.
          if w.stores session_id parameter
            && (s == session_id && session_parameter_code p == session_parameter_code parameter)
          then value
          else w.session_values s p;
    })

-- The variable keeps its value where the call is refused.
unfoldable pub get_session_parameter : ℕ → SessionParameter → ℕ → World → ℕ
get_session_parameter session_id parameter initial w =
    if session_id == invalid_session_id then initial else w.session_values session_id parameter

unfoldable pub set_connection_parameter : ℕ → ℕ → ConnectionParameter → ℕ → World → World
set_connection_parameter session_id connection_id parameter value w =
    if is_invalid session_id connection_id
    then w
    else log (set_connection session_id connection_id parameter value) w

unfoldable pub activate_connection : ℕ → ℕ → World → World
activate_connection session_id connection_id w =
    if is_invalid session_id connection_id then w else log (activated session_id connection_id) w

-- Deactivation of one connection, or of all of a session: the kernel's result is returned.
unfoldable pub deactivate_connection : ℕ → ℕ → World → ℕ × World
unfolding next_result later
deactivate_connection session_id connection_id w =
    if is_invalid session_id connection_id then (bad_argument, w) else (
      next_result w.results,
      log (deactivated session_id connection_id) (record w { results = later w.results }),
    )

unfoldable pub deactivate_all_connections : ℕ → World → ℕ × World
unfolding next_result later
deactivate_all_connections session_id w =
    if session_id == invalid_session_id then (bad_argument, w) else (
      next_result w.results,
      log (deactivated_all session_id) (record w { results = later w.results }),
    )

pub next_reply : List Reply → Reply
next_reply [] = record { call = 0; error = 0; session_id = 0; connection_id = 0; count = 0 }
next_reply (r ∷ replies) = r

pub later_replies : List Reply → List Reply
later_replies [] = []
later_replies (r ∷ replies) = replies

abbrev after_reply : World → World
after_reply w = record w { answers = later_replies w.answers }

-- The caller's variables, as they are where the call fails.
abbrev unanswered : ℕ → ℕ → ℕ → Answer
unanswered error session_id connection_id = record {
  error = error;
  session_id = session_id;
  connection_id = connection_id;
  count = 0;
}

-- Both identifiers are written where the call succeeds, whatever error the kernel reports with them.
unfoldable pub create_session : ℕ → ℕ → World → Answer × World
unfolding next_reply later_replies
create_session session_id connection_id w =
    let r = next_reply w.answers in
    (
      if r.call == 0
          then record {
            error = r.error;
            session_id = r.session_id % 2 ^ 16;
            connection_id = r.connection_id % 2 ^ 32;
            count = 0;
          }
          else unanswered r.call session_id connection_id,
      after_reply w,
    )

unfoldable pub create_connection : ℕ → ℕ → World → Answer × World
unfolding next_reply later_replies
create_connection session_id connection_id w =
    let r = next_reply w.answers in
    if session_id == invalid_session_id
    then (unanswered bad_argument session_id connection_id, w)
    else (
      if r.call == 0
          then unanswered r.error session_id (r.connection_id % 2 ^ 32)
          else unanswered r.call session_id connection_id,
      after_reply w,
    )

unfoldable pub get_connection : ℕ → ℕ → World → Answer × World
unfolding next_reply later_replies
get_connection session_id connection_id w =
    let r = next_reply w.answers in
    if session_id == invalid_session_id
    then (unanswered bad_argument session_id connection_id, w)
    else (
      unanswered r.call session_id
          (if r.call == 0 then r.connection_id % 2 ^ 32 else connection_id),
      after_reply w,
    )

-- The count starts at 0.
unfoldable pub get_num_connections : ℕ → World → Answer × World
unfolding next_reply later_replies
get_num_connections session_id w =
    let r = next_reply w.answers in
    let count = if r.call == 0 then r.count % 2 ^ 32 else 0 in
    if session_id == invalid_session_id
    then (unanswered bad_argument session_id 0, w)
    else (record (unanswered r.call session_id 0) { count = count }, after_reply w)

unfoldable pub release_connection : ℕ → ℕ → World → World
release_connection session_id connection_id w =
    if is_invalid session_id connection_id
    then w
    else log (released_connection session_id connection_id) w

unfoldable pub release_session : ℕ → World → World
release_session session_id w =
    if session_id == invalid_session_id then w else log (released_session session_id) w
