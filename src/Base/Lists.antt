-- ===== src/Base/Lists.antt =====
-- Lists measured by native numbers, membership and duplicates, and a search by an equality test.
use Prim.Native.Nat.{ℕ, suc, ◌+◌}
use mathlib.Core.Path.{◌≡◌}
use mathlib.Core.Logic.{◌↔◌, ◌⊎◌, inl, inr, ⊎_elim}
use mathlib.Core.Bool.{Bool, true, false, ◌||◌}
use mathlib.Core.List.{List, [], ◌∷◌, ◌++◌, Memᴰ}
use mathlib.Core.List.Memᴰ
use native.Mathlib.Omega.{arith}
use cgc.Base.Tests.{◌==◌, ==_iff, if◌then◌else◌, Bool-cases}

module _ {ℓ} {A : Type ℓ} where
  abbrev pub length : List A → ℕ
  length [] = 0
  length (x ∷ xs) = suc (length xs)

  pub length-append : (xs ys : List A) → length (xs ++ ys) ≡ length xs + length ys
  length-append [] ys = omega arith
  length-append (x ∷ xs) ys = omega (arith, length-append xs ys)

  pub Memᴰ-cons : (a x : A) (xs : List A) → Memᴰ a (x ∷ xs) ↔ ((a ≡ x) ⊎ Memᴰ a xs)
  Memᴰ-cons a x xs = (Memᴰ.cases_cons, ⊎_elim Memᴰ.head Memᴰ.tail)

  pub Memᴰ-append : (a : A) (xs ys : List A) → Memᴰ a (xs ++ ys) ↔ (Memᴰ a xs ⊎ Memᴰ a ys)
  Memᴰ-append a xs ys = (Memᴰ.append_cases xs, ⊎_elim (Memᴰ.append_left ys) (Memᴰ.append_right xs))

  -- Every element of the list has the property.
  abbrev pub All {κ} : (A → Type κ) → List A → Type κ
  All P [] = Unit
  All P (x ∷ xs) = P x × All P xs

  -- No element occurs twice.
  abbrev pub Distinct : List A → Type ℓ
  Distinct [] = Unit
  Distinct (x ∷ xs) = (¬ Memᴰ x xs) × Distinct xs

-- Equality of elements as a test.
pub record Eq {ℓ} (A : Type ℓ) : Type ℓ where
  pub beq : A → A → Bool
  pub beq_iff : (a b : A) → (beq a b ≡ true) ↔ (a ≡ b)

instance abbrev pub nat_eq : Eq ℕ
nat_eq = record { beq = ◌==◌; beq_iff = ==_iff }

module _ {ℓ} {A : Type ℓ} ⦃e : Eq A⦄ where
  -- `std::find(begin, end, a) != end`.
  unfoldable pub contains : A → List A → Bool
  contains a [] = false
  contains a (x ∷ xs) = e.beq x a || contains a xs

  -- The vector without its first element equal to `a`.
  unfoldable pub erase : A → List A → List A
  erase a [] = []
  erase a (x ∷ xs) = if e.beq x a then xs else x ∷ erase a xs

  pub contains_iff : (a : A) (xs : List A) → (contains a xs ≡ true) ↔ Memᴰ a xs
  unfolding contains
  contains_iff a [] = (λ h. cc, λ m. absurd (Memᴰ.not-nil m))
  contains_iff a (x ∷ xs) = ground (arith, e.beq_iff x a, contains_iff a xs, Memᴰ-cons a x xs)

  pub not-contains : (a : A) (xs : List A) → contains a xs ≡ false → ¬ Memᴰ a xs
  not-contains a xs h i = let hit = (contains_iff a xs).1 i in cc

  pub contains-append :
      (a b : A) (xs : List A) → contains a (xs ++ b ∷ []) ≡ (contains a xs || e.beq b a)
  unfolding contains
  contains-append a b [] = ground arith
  contains-append a b (x ∷ xs) = ground (arith, contains-append a b xs)

  pub contains-erase :
      (a b : A) (xs : List A)
      → Distinct xs
      → contains a (erase b xs) ≡ (if e.beq b a then false else contains a xs)
  unfolding contains erase
  contains-erase a b [] h = ground arith
  contains-erase a b (x ∷ xs) h = ground (
    arith,
    e.beq_iff x a,
    e.beq_iff b a,
    e.beq_iff x b,
    contains_iff x xs,
    contains_iff a xs,
    contains-erase a b xs,
  )

  pub Memᴰ-erase : (a b : A) (xs : List A) → Memᴰ a (erase b xs) → Memᴰ a xs
  unfolding erase
  Memᴰ-erase a b [] m = m
  Memᴰ-erase a b (x ∷ xs) m = elim (Bool-cases (e.beq x b)) [
    | inl hit ↦ Memᴰ.tail (rw hit at m)
    | inr miss ↦
        ground (arith, miss, Memᴰ-erase a b xs, Memᴰ-cons a x xs, Memᴰ-cons a x (erase b xs))
  ]

  pub erase-Distinct : (b : A) (xs : List A) → Distinct xs → Distinct (erase b xs)
  unfolding erase
  erase-Distinct b [] h = h
  erase-Distinct b (x ∷ xs) h = elim (Bool-cases (e.beq x b)) [
    | inl hit ↦ rw hit h.1
    | inr miss ↦ rw miss (λ m. h.0 (Memᴰ-erase x b xs m), erase-Distinct b xs h.1)
  ]

  pub append-Distinct :
      (b : A) (xs : List A) → Distinct xs → contains b xs ≡ false → Distinct (xs ++ b ∷ [])
  unfolding contains
  append-Distinct b [] h n = (Memᴰ.not-nil, tt)
  append-Distinct b (x ∷ xs) h n = (
    λ m. elim (Memᴰ.append_cases xs m) [
      | inl old ↦ h.0 old
      | inr last ↦ ground (arith, Memᴰ.eq_of_singleton last, e.beq_iff x b, n)
    ],
    append-Distinct b xs h.1 (ground arith),
  )
