-- ===== src/Dict.antt =====
-- The dictionaries of the daemon: what its code uses of CFDictionary, as an association list. The
-- list's order is the order in which CFDictionaryApplyFunction visits the entries.
pub mod Laws
use i_scsiinitiator.Base.{
  Str, str_eq, str_eq_self, Bool, true, false, Option, none, some, List, [], ◌∷◌, ◌++◌, ◌≡◌, refl,
  sym, ◌∙◌, append-nil, append_assoc, arith, if◌then◌else◌, Bool-cases, inl, inr,
}

abbrev pub Dict {ℓ} : Type ℓ → Type ℓ
Dict V = List (Str × V)

module _ {ℓ} {V : Type ℓ} where
  -- CFDictionaryGetValueIfPresent
  unfoldable pub get : Str → Dict V → Option V
  get k [] = none
  get k ((j, v) ∷ d) = if str_eq j k then some v else get k d

  -- CFDictionaryContainsKey
  unfoldable pub contains_key : Str → Dict V → Bool
  contains_key k [] = false
  contains_key k ((j, v) ∷ d) = if str_eq j k then true else contains_key k d

  -- CFDictionaryAddValue: an entry that is there stays as it is.
  unfoldable pub add_value : Str → V → Dict V → Dict V
  add_value k v d = if contains_key k d then d else d ++ (k, v) ∷ []

  -- CFDictionarySetValue: an entry that is there is replaced.
  unfoldable pub set_value : Str → V → Dict V → Dict V
  set_value k v [] = (k, v) ∷ []
  set_value k v ((j, w) ∷ d) = if str_eq j k then (j, v) ∷ d else (j, w) ∷ set_value k v d

  -- The keys differ from one another, as they do in every CFDictionary.
  abbrev pub Fresh : Str → Dict V → Type ℓ
  Fresh k [] = Unit
  Fresh k ((j, v) ∷ d) = (str_eq k j ≡ false) × Fresh k d

  abbrev pub Distinct : Dict V → Type ℓ
  Distinct [] = Unit
  Distinct ((k, v) ∷ d) = Fresh k d × Distinct d

  pub contains_key-append :
      (k : Str) (d e : Dict V)
      → contains_key k d ≡ false
      → contains_key k (d ++ e) ≡ contains_key k e
  unfolding contains_key
  contains_key-append k [] e h = refl
  contains_key-append k ((j, v) ∷ d) e h = ground (arith, contains_key-append k d e)

  -- Adding the entries of `e` one after another to a dictionary that has none of its keys.
  unfoldable pub add_values : Dict V → Dict V → Dict V
  add_values d [] = d
  add_values d ((k, v) ∷ e) = add_values (add_value k v d) e

  abbrev Missing : Dict V → Dict V → Type ℓ
  Missing d [] = Unit
  Missing d ((k, v) ∷ e) = (contains_key k d ≡ false) × Missing d e

  Missing-snoc :
      (k : Str) (v : V) (d e : Dict V) → Fresh k e → Missing d e → Missing (d ++ (k, v) ∷ []) e
  Missing-snoc k v d [] f m = tt
  Missing-snoc k v d ((j, w) ∷ e) f m = (
    contains_key-append j d ((k, v) ∷ []) m.0 ∙ unfold contains_key in rw f.0,
    Missing-snoc k v d e f.1 m.1,
  )

  add_values-append : (d e : Dict V) → Distinct e → Missing d e → add_values d e ≡ d ++ e
  unfolding add_values add_value
  add_values-append d [] u m = sym (append-nil d)
  add_values-append d ((k, v) ∷ e) u m = rw m.0 (
      add_values-append (d ++ (k, v) ∷ []) e u.1 (Missing-snoc k v d e u.0 m.1)
      ∙ append_assoc d ((k, v) ∷ []) e)

  Missing-nil : (e : Dict V) → Missing [] e
  unfolding contains_key
  Missing-nil [] = tt
  Missing-nil ((k, v) ∷ e) = (refl, Missing-nil e)

  -- Entries with distinct keys, added to the empty dictionary, make the dictionary that lists them.
  pub add_values-nil : (e : Dict V) → Distinct e → add_values [] e ≡ e
  add_values-nil e u = add_values-append [] e u (Missing-nil e)

  pub get-contains_key-false : (k : Str) (d : Dict V) → contains_key k d ≡ false → get k d ≡ none
  unfolding get contains_key
  get-contains_key-false k [] h = refl
  get-contains_key-false k ((j, v) ∷ d) h = ground (arith, get-contains_key-false k d)

  get-append_missing :
      (k : Str) (d e : Dict V) → contains_key k d ≡ false → get k (d ++ e) ≡ get k e
  unfolding get contains_key
  get-append_missing k [] e h = refl
  get-append_missing k ((j, v) ∷ d) e h = ground (arith, get-append_missing k d e)

  get-append_present :
      (k j : Str) (v : V) (d : Dict V) → str_eq j k ≡ false → get k (d ++ (j, v) ∷ []) ≡ get k d
  unfolding get
  get-append_present k j v [] h = ground arith
  get-append_present k j v ((i, w) ∷ d) h = ground (arith, get-append_present k j v d h)

  -- What a lookup of `k` finds after `CFDictionaryAddValue`.
  pub get-add_value_self :
      (k : Str) (v : V) (d : Dict V)
      → get k (add_value k v d) ≡ (if contains_key k d then get k d else some v)
  unfolding add_value
  get-add_value_self k v d = elim (Bool-cases (contains_key k d)) [
    | inl h ↦ rw h
    | inr h ↦ rw h (rw (get-append_missing k d ((k, v) ∷ []) h) (unfold get in rw (str_eq_self k)))
  ]

  pub get-add_value_ne :
      (k j : Str) (v : V) (d : Dict V) → str_eq j k ≡ false → get k (add_value j v d) ≡ get k d
  unfolding add_value
  get-add_value_ne k j v d h = elim (Bool-cases (contains_key j d)) [
    | inl e ↦ rw e
    | inr e ↦ rw e (get-append_present k j v d h)
  ]
