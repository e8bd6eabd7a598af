-- ===== src/Examples/Queries.antt =====
-- Login queries.
use i_scsiinitiator.Dict.{add_values}
use i_scsiinitiator.Query.Pairs.{pairs_of, receive_loop-pairs}
use i_scsiinitiator.Base.{codes, ◌≤◌, ◌+◌, none, some, List, [], ◌∷◌, ◌≡◌, refl, arith}
use i_scsiinitiator.Platform.Ascii.{ascii}
use i_scsiinitiator.Hba.{Pdu, Delivery, delivered}
use i_scsiinitiator.Hba.Calls.{send}
use i_scsiinitiator.Pdu.Create.{create_from_dict, populate, text_command}
use i_scsiinitiator.Query.{
  Query, login_query, single_query, retry, receive, receive_loop, handle_pdu, stops, update_context,
  login_success,
}
use i_scsiinitiator.Query.Advance.{HasAgreed, login_query-agreed}
use i_scsiinitiator.Query.Frame.{requests, requests-login_query}
use i_scsiinitiator.Examples.Data.{reply, pair, world_of, to_operational}

abbrev answers : List Delivery
answers = delivered (reply 0 []) ∷ delivered (reply 0x81 []) ∷ []

answered :
    ((login_query ascii to_operational 5 none (some []) (world_of answers)).0.error ≡ 0)
    × ((login_query ascii to_operational 5 none (some []) (world_of answers)).0.status
        ≡ login_success)
unfolding login_query single_query retry receive receive_loop handle_pdu stops update_context send
    create_from_dict
answered = (refl, refl)

login_query-agreed_example :
    HasAgreed answers
      (login_query ascii to_operational 5 none (some []) (world_of answers)).1.deliveries
login_query-agreed_example =
    login_query-agreed ascii to_operational 5 none (some []) (world_of answers) refl refl answered.0
      answered.1

requests-login_query_example :
    requests (login_query ascii to_operational 5 none (some []) (world_of answers)).1.events
    ≤ requests (world_of answers).events + 6
requests-login_query_example =
    requests-login_query ascii to_operational 5 none (some []) (world_of answers)

abbrev first_part : Pdu
first_part = reply 0x40 (pair (codes "a") (codes "b"))

abbrev last_part : Pdu
last_part = reply 0x81 (pair (codes "c") (codes "d"))

abbrev asked : Query
asked = record { error = 0; status = 5; context = to_operational; text_rsp = some [] }

abbrev parts : List Delivery
parts = delivered first_part ∷ delivered last_part ∷ answers

receive_loop-pairs_example :
    ((receive_loop parts asked).1 ≡ answers)
    × ((receive_loop parts asked).0.error ≡ 0)
    × ((receive_loop parts asked).0.status ≡ login_success)
    × ((receive_loop parts asked).0.text_rsp
        ≡ some (add_values [] ((codes "a", codes "b") ∷ (codes "c", codes "d") ∷ [])))
unfolding pairs_of populate text_command
receive_loop-pairs_example =
    receive_loop-pairs ((first_part, (codes "a", codes "b") ∷ []) ∷ []) last_part
      ((codes "c", codes "d") ∷ []) [] answers asked ((refl, refl, refl), tt) (refl, refl, refl)
      (
        (((((refl, refl), tt), ((refl, refl), tt), omega arith, omega arith), tt), refl),
        ((((((refl, refl), tt), ((refl, refl), tt), omega arith, omega arith), tt), refl), tt),
      )
      refl
