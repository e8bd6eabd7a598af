-- ===== src/Discovery/Processed.antt =====
-- iSCSIDProcessDiscoveryData of Source/User/iscsid/iSCSIDaemon.c: what a whole round of the discovery
-- leaves alone.
use i_scsiinitiator.Base.{
  Str, ℕ, ◌&&◌, Bool, true, Option, none, some, [], ◌∷◌, ◌≡◌, refl, sym, ◌∙◌, arith, if◌then◌else◌,
  codes,
}
use mathlib.Core.Option.{some-injective}
use i_scsiinitiator.Dict.{Dict}
use i_scsiinitiator.Dict.Laws.{lists, keys}
use i_scsiinitiator.Keychain.{SecKeychain}
use i_scsiinitiator.Preferences.{TargetDict, Preferences, find_target}
use i_scsiinitiator.Preferences.Managed.{listed_at}
use i_scsiinitiator.Discovery.{DiscoveryRec, Managers, update_preferences_with_discovered_targets}
use i_scsiinitiator.Discovery.Rounds.{next_record, process_records, process_discovery_data}
use i_scsiinitiator.Discovery.Update.{update_preferences-static, update_preferences-lists}

-- Every portal with a record that lists the name has discovered it.
unfoldable pub is_confirmed : Str → Preferences → Dict DiscoveryRec → Bool
is_confirmed k p [] = true
is_confirmed k p ((address, r) ∷ rest) =
    (if lists k (listed_at address p) then lists k (keys r) else true) && is_confirmed k p rest

is_confirmed-same :
    (k : Str) (p q : Preferences) (records : Dict DiscoveryRec)
    → ((a : Str) → lists k (listed_at a q) ≡ lists k (listed_at a p))
    → is_confirmed k q records ≡ is_confirmed k p records
unfolding is_confirmed
is_confirmed-same k p q [] same = refl
is_confirmed-same k p q ((address, r) ∷ rest) same =
    rw (same address) (rw (is_confirmed-same k p q rest same) refl)

module _ {S L : Type 0} (sec : SecKeychain S) (session_id_for_target : Str → L → Option ℕ)
    (session_logout : ℕ → L → L) (k : Str) (t : TargetDict)
    (static : t.config_type ≡ some (codes "Static")) where
  next_record-some :
      (o : Option (Managers S L)) (f : Managers S L → Option (Managers S L)) (after : Managers S L)
      → next_record sec session_id_for_target session_logout o f ≡ some after
      → (m : Managers S L) × (o ≡ some m) × (f m ≡ some after)
  unfolding next_record
  next_record-some none f after h = absurd (cc h)
  next_record-some (some m) f after h = (m, refl, h)

  process_records-static :
      (records : Dict DiscoveryRec) (m after : Managers S L)
      → find_target k m.store.preferences ≡ some t
      → is_confirmed k m.store.preferences records ≡ true
      → process_records sec session_id_for_target session_logout records m ≡ some after
      → find_target k after.store.preferences ≡ some t
  unfolding process_records is_confirmed
  process_records-static [] m after found confirmed h = rw (sym (some-injective m after h)) found
  process_records-static ((address, r) ∷ rest) m after found confirmed h =
      let (m', updated, processed) =
        next_record-some
          (update_preferences_with_discovered_targets sec session_id_for_target session_logout
            address r m)
          (λ s. process_records sec session_id_for_target session_logout rest s) after h in
      let kept =
        update_preferences-static sec session_id_for_target session_logout address r k t m m' found
          static updated in
      let same = is_confirmed-same k m.store.preferences m'.store.preferences rest (
        update_preferences-lists sec session_id_for_target session_logout address r k t m m' found
          static updated) in
      process_records-static rest m' after (ground (arith, kept, confirmed))
        (same ∙ ground (arith, confirmed)) processed

  -- Where the processing of a round of the discovery returns, a target that is configured statically in
  -- the preferences that the system stores is as it is stored there, if every portal with a record that
  -- lists its name has discovered it.
  pub process_discovery_data-static :
      (records : Dict DiscoveryRec) (stored : Preferences) (m after : Managers S L)
      → find_target k stored ≡ some t
      → is_confirmed k stored records ≡ true
      → process_discovery_data sec session_id_for_target session_logout (some records) stored m
        ≡ some after
      → find_target k after.store.preferences ≡ some t
  unfolding process_discovery_data
  process_discovery_data-static records stored m after found confirmed h =
      process_records-static records (record m { store = record m.store { preferences = stored } })
        after found confirmed h
