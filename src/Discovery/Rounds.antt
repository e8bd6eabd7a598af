-- ===== src/Discovery/Rounds.antt =====
-- A round of the discovery: iSCSIDiscoveryCreateRecordsWithSendTargets of Source/User/iscsid/
-- iSCSIDiscovery.c, and iSCSIDProcessDiscoveryData of iSCSIDaemon.c between its lock and its unlock. The
-- query of a portal, iSCSIQueryPortalForTargets, is a parameter, and so is what the system stores.
use i_scsiinitiator.Base.{Str, ℕ, ◌==◌, ◌&&◌, Option, none, some, List, [], ◌∷◌, if◌then◌else◌}
use i_scsiinitiator.Dict.{Dict, set_value}
use i_scsiinitiator.Keychain.{SecKeychain}
use i_scsiinitiator.Preferences.{Portal, Preferences}
use i_scsiinitiator.Preferences.Portals.{
  copy_send_targets_discovery_portal, create_array_of_portals_for_send_targets_discovery,
}
use i_scsiinitiator.Query.{login_success}
use i_scsiinitiator.Discovery.{DiscoveryRec, Managers, update_preferences_with_discovered_targets}

-- What the query of a portal answers.
pub record Answer : Type 0 where
  pub error : ℕ
  pub status_code : ℕ
  pub discovery_rec : Option DiscoveryRec

module _ {L : Type 0} (query_portal_for_targets : Portal → L → Answer × L) where
  unfoldable pub with_record : Str → Option DiscoveryRec → Dict DiscoveryRec → Dict DiscoveryRec
  with_record address none records = records
  with_record address (some r) records = set_value address r records

  unfoldable pub add_record : Str → Option Portal → Dict DiscoveryRec × L → Dict DiscoveryRec × L
  add_record address none (records, sessions) = (records, sessions)
  add_record address (some portal) (records, sessions) =
      let (answer, sessions') = query_portal_for_targets portal sessions in
      (
        if answer.error == 0 && answer.status_code == login_success
            then with_record address answer.discovery_rec records
            else records,
        sessions',
      )

  unfoldable pub add_records :
      List Str → Preferences → Dict DiscoveryRec × L → Dict DiscoveryRec × L
  add_records [] p found = found
  add_records (address ∷ rest) p found =
      add_records rest p (add_record address (copy_send_targets_discovery_portal address p) found)

  unfoldable pub create_records_at :
      Option (List Str) → Preferences → L → Option (Dict DiscoveryRec) × L
  create_records_at none p sessions = (none, sessions)
  create_records_at (some portals) p sessions =
      let (records, sessions') = add_records portals p ([], sessions) in (some records, sessions')

  -- iSCSIDiscoveryCreateRecordsWithSendTargets
  unfoldable pub create_records_with_send_targets : Preferences → L → Option (Dict DiscoveryRec) × L
  create_records_with_send_targets p sessions =
      create_records_at (create_array_of_portals_for_send_targets_discovery p) p sessions

module _ {S L : Type 0} (sec : SecKeychain S) (session_id_for_target : Str → L → Option ℕ)
    (session_logout : ℕ → L → L) where
  -- The loop over the records.
  unfoldable pub next_record :
      Option (Managers S L) → (Managers S L → Option (Managers S L)) → Option (Managers S L)
  next_record none f = none
  next_record (some m) f = f m

  unfoldable pub process_records : Dict DiscoveryRec → Managers S L → Option (Managers S L)
  process_records [] m = some m
  process_records ((address, r) ∷ rest) m =
      next_record
        (update_preferences_with_discovered_targets sec session_id_for_target session_logout address
          r m)
        (λ after. process_records rest after)

  -- iSCSIDProcessDiscoveryData, which reads the preferences from the system first
  unfoldable pub process_discovery_data :
      Option (Dict DiscoveryRec) → Preferences → Managers S L → Option (Managers S L)
  process_discovery_data none stored m = some m
  process_discovery_data (some records) stored m =
      process_records records (record m { store = record m.store { preferences = stored } })
