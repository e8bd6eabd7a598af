-- ===== src/Kernel/Slots.antt =====
-- Arrays of pointers, as the session table and a session's connection list: a slot that is none is NULL.
use i_scsiinitiator.Base.{
  ℕ, zero, suc, ◌≤◌, ◌<◌, ◌⊎◌, inl, inr, Option, none, some, List, [], ◌∷◌, ◌≡◌, ◌≢◌, refl, ap,
  arith, length,
}

module _ {ℓ} {A : Type ℓ} where
  -- An index behind the end gives none: callers that the code does not range-check say what happens there.
  unfoldable pub slot : List (Option A) → ℕ → Option A
  slot [] n = none
  slot (a ∷ rest) zero = a
  slot (a ∷ rest) (suc n) = slot rest n

  unfoldable pub set_slot : ℕ → Option A → List (Option A) → List (Option A)
  set_slot n v [] = []
  set_slot zero v (a ∷ rest) = v ∷ rest
  set_slot (suc n) v (a ∷ rest) = a ∷ set_slot n v rest

  -- The first empty slot, or the number of slots where there is none.
  unfoldable pub free_slot : List (Option A) → ℕ
  free_slot [] = 0
  free_slot (none ∷ rest) = 0
  free_slot (some a ∷ rest) = suc (free_slot rest)

  -- How many slots are in use.
  unfoldable pub count : List (Option A) → ℕ
  count [] = 0
  count (none ∷ rest) = count rest
  count (some a ∷ rest) = suc (count rest)

  pub slot-set_slot :
      (n : ℕ) (v : Option A) (l : List (Option A)) → n < length l → slot (set_slot n v l) n ≡ v
  unfolding slot set_slot
  slot-set_slot n v [] h = absurd (omega arith)
  slot-set_slot zero v (a ∷ rest) h = refl
  slot-set_slot (suc n) v (a ∷ rest) h = slot-set_slot n v rest (omega arith)

  pub slot-set_slot-other :
      (n m : ℕ) (v : Option A) (l : List (Option A)) → n ≢ m → slot (set_slot n v l) m ≡ slot l m
  unfolding slot set_slot
  slot-set_slot-other n m v [] h = refl
  slot-set_slot-other zero zero v (a ∷ rest) h = absurd (h refl)
  slot-set_slot-other zero (suc m) v (a ∷ rest) h = refl
  slot-set_slot-other (suc n) zero v (a ∷ rest) h = refl
  slot-set_slot-other (suc n) (suc m) v (a ∷ rest) h =
      slot-set_slot-other n m v rest (λ e. h (ap suc e))

  pub length-set_slot :
      (n : ℕ) (v : Option A) (l : List (Option A)) → length (set_slot n v l) ≡ length l
  unfolding set_slot
  length-set_slot n v [] = refl
  length-set_slot zero v (a ∷ rest) = refl
  length-set_slot (suc n) v (a ∷ rest) = ap suc (length-set_slot n v rest)

  pub free_slot-empty : (l : List (Option A)) → slot l (free_slot l) ≡ none
  unfolding slot free_slot
  free_slot-empty [] = refl
  free_slot-empty (none ∷ rest) = refl
  free_slot-empty (some a ∷ rest) = free_slot-empty rest

  pub free_slot-bound : (l : List (Option A)) → free_slot l ≤ length l
  unfolding free_slot
  free_slot-bound [] = omega arith
  free_slot-bound (none ∷ rest) = omega arith
  free_slot-bound (some a ∷ rest) = omega (arith, free_slot-bound rest)

  -- What is in a slot after a write: what was written, if it is that slot, else what was there.
  pub slot-set_slot-cases :
      (n m : ℕ) (v : Option A) (l : List (Option A)) (a : A)
      → slot (set_slot n v l) m ≡ some a
      → ((n ≡ m) × (v ≡ some a)) ⊎ (slot l m ≡ some a)
  unfolding slot set_slot
  slot-set_slot-cases n m v [] a h = inr h
  slot-set_slot-cases zero zero v (b ∷ rest) a h = inl (refl, h)
  slot-set_slot-cases zero (suc m) v (b ∷ rest) a h = inr h
  slot-set_slot-cases (suc n) zero v (b ∷ rest) a h = inr h
  slot-set_slot-cases (suc n) (suc m) v (b ∷ rest) a h = elim (slot-set_slot-cases n m v rest a h) [
    | inl (same, value) ↦ inl (ap suc same, value)
    | inr old ↦ inr old
  ]

  pub slot-set_slot-some :
      (n : ℕ) (v : Option A) (l : List (Option A)) (a : A)
      → slot l n ≡ some a
      → slot (set_slot n v l) n ≡ v
  unfolding slot set_slot
  slot-set_slot-some n v [] a h = absurd (ground (arith, h))
  slot-set_slot-some zero v (b ∷ rest) a h = refl
  slot-set_slot-some (suc n) v (b ∷ rest) a h = slot-set_slot-some n v rest a h
