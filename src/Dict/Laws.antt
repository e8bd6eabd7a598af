-- ===== src/Dict/Laws.antt =====
-- CFDictionaryRemoveValue and CFDictionaryGetKeysAndValues, and what lookups find after a change.
use i_scsiinitiator.Base.{
  Str, str_eq, str_eq_self, str_eq→eq, Bool, true, false, Option, none, some, List, [], ◌∷◌, ◌≡◌,
  ◌↔◌, refl, arith, if◌then◌else◌,
}
use i_scsiinitiator.Dict.{Dict, get, contains_key, set_value}

pub str_eq_iff : (s t : Str) → (str_eq s t ≡ true) ↔ (s ≡ t)
str_eq_iff s t = (str_eq→eq s t, λ e. rw e (str_eq_self t))

-- A list of texts has a text: the loop with CFStringCompare, and CFDictionaryContainsKey of a set.
unfoldable pub lists : Str → List Str → Bool
lists k [] = false
lists k (j ∷ rest) = if str_eq j k then true else lists k rest

unfoldable pub is_some {ℓ} : {A : Type ℓ} → Option A → Bool
is_some none = false
is_some (some a) = true

pub is_some-none {ℓ} : {A : Type ℓ} (o : Option A) → is_some o ≡ false → o ≡ none
unfolding is_some
is_some-none none h = refl
is_some-none (some a) h = cc

module _ {ℓ} {V : Type ℓ} where
  -- CFDictionaryRemoveValue. A CFDictionary has each key once.
  unfoldable pub remove_value : Str → Dict V → Dict V
  remove_value k [] = []
  remove_value k ((j, v) ∷ d) =
      let rest = remove_value k d in if str_eq j k then rest else (j, v) ∷ rest

  unfoldable pub keys : Dict V → List Str
  keys [] = []
  keys ((k, v) ∷ d) = k ∷ keys d

  pub get-set_value :
      (k j : Str) (v : V) (d : Dict V)
      → get j (set_value k v d) ≡ (if str_eq k j then some v else get j d)
  unfolding get set_value
  get-set_value k j v [] = refl
  get-set_value k j v ((i, w) ∷ d) =
      ground (arith, str_eq_iff k j, str_eq_iff i k, str_eq_iff i j, get-set_value k j v d)

  pub get-remove_value :
      (k j : Str) (d : Dict V) → get j (remove_value k d) ≡ (if str_eq k j then none else get j d)
  unfolding get remove_value
  get-remove_value k j [] = ground arith
  get-remove_value k j ((i, w) ∷ d) =
      ground (arith, str_eq_iff k j, str_eq_iff i k, str_eq_iff i j, get-remove_value k j d)

  pub contains_key-get : (k : Str) (d : Dict V) → contains_key k d ≡ is_some (get k d)
  unfolding contains_key get is_some
  contains_key-get k [] = refl
  contains_key-get k ((j, v) ∷ d) = ground (arith, contains_key-get k d)

  pub lists-keys : (k : Str) (d : Dict V) → lists k (keys d) ≡ is_some (get k d)
  unfolding lists keys get is_some
  lists-keys k [] = refl
  lists-keys k ((j, v) ∷ d) = ground (arith, lists-keys k d)
