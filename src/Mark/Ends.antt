-- ===== src/Mark/Ends.antt =====
-- The recursion of `_mark_addrs` ends by its depth limits, and `_mark_mark_vector` ends because a
-- call at depth 0 puts an address off only when it has marked an object.
use cgc.Base.{
  ℕ, zero, suc, ◌-◌, ◌≤◌, ◌<◌, ◌≡◌, refl, subst, ◌⊎◌, inl, inr, true, false, some, Option-cases,
  List, [], ◌∷◌, Memᴰ, length, if◌then◌else◌, arith,
}
use mathlib.Core.List.Memᴰ
use native.Mathlib.Decide.{dec_le}
use cgc.Heap.{ObjectHeader, Layout, AddressSet}
use cgc.Mark.{
  Marking, mark_addrs, mark_addrs_levels, mark_addrs_body, mark_addrs_bitmap, mark_addrs_sparse,
  mark_state_from, mark_mark_vector,
}
use cgc.Mark.Reach.{Object, packed, sparse, resolve, children, marked, Fits}
use cgc.Mark.Visit.{Outcome, skips, knows, delays, enters, body-Outcome}
use cgc.Mark.Walk.{mark_each_good, mark_addrs-IsGood, IsGood}

module _ (H : ObjectHeader) (L : Layout) (A : AddressSet) where
  -- Beyond depth 300 a call makes no further one.
  body_deep :
      (f g : ℕ → Marking H L A → Marking H L A) (a depth : ℕ) (m : Marking H L A)
      → 300 < depth
      → mark_addrs_body H L A f a depth m ≡ mark_addrs_body H L A g a depth m
  unfolding mark_addrs_body mark_addrs_bitmap mark_addrs_sparse mark_state_from
  body_deep f g a depth m h = ground arith

  -- `_mark_addrs` satisfies the recursion of the code at every address, depth and marking: a call is its
  -- body, in which every further call is `_mark_addrs` with `depth + 1`.
  pub mark_addrs_recursion :
      (a depth : ℕ) (m : Marking H L A)
      → mark_addrs H L A a depth m
        ≡ mark_addrs_body H L A (λ b n. mark_addrs H L A b (suc depth) n) a depth m
  unfolding mark_addrs mark_addrs_levels
  mark_addrs_recursion a depth m = elim (dec_le depth 300) [
    | yes shallow ↦ let e : 301 - depth ≡ suc (301 - suc depth) = omega arith in rw e
    | no deep ↦ body_deep _ _ a depth m (omega arith)
  ]

  -- The objects of a list that are not marked.
  abbrev pub unmarked : List Object → Marking H L A → ℕ
  unmarked [] m = 0
  unmarked (o ∷ os) m = if marked H L A m o then unmarked os m else suc (unmarked os m)

  -- The set does not matter to the count.
  pub unmarked-to_mark :
      (os : List Object) (m : Marking H L A) (set : A.Set)
      → unmarked os (record m { to_mark = set }) ≡ unmarked os m
  unmarked-to_mark [] m set = refl
  unmarked-to_mark (packed s i ∷ os) m set = ground (arith, unmarked-to_mark os m set)
  unmarked-to_mark (sparse p ∷ os) m set = ground (arith, unmarked-to_mark os m set)

  module _ (m n : Marking H L A)
      (keeps : (o : Object) → marked H L A m o ≡ true → marked H L A n o ≡ true) where
    pub unmarked-le : (os : List Object) → unmarked os n ≤ unmarked os m
    unmarked-le [] = omega arith
    unmarked-le (o ∷ os) = ground (arith, keeps o, unmarked-le os)

    pub unmarked-lt :
        (os : List Object) (o : Object)
        → Memᴰ o os
        → marked H L A m o ≡ false
        → marked H L A n o ≡ true
        → unmarked os n < unmarked os m
    unmarked-lt [] o i f t = absurd (Memᴰ.not-nil i)
    unmarked-lt (q ∷ os) o i f t = elim (Memᴰ.cases_cons i) [
      | inl same ↦
          let f' : marked H L A m q ≡ false = subst (λ r. marked H L A m r ≡ false) same f in
          let t' : marked H L A n q ≡ true = subst (λ r. marked H L A n r ≡ true) same t in
          rw (f', t') (omega (arith, unmarked-le os))
      | inr later ↦ ground (arith, keeps q, unmarked-lt os o later f t)
    ]

module _ (H : ObjectHeader) (L : Layout) (A : AddressSet) (base : ℕ → H.State)
    (objects : List Object)
    (finite : (a : ℕ) (o : Object) → resolve H L base a ≡ some o → Memᴰ o objects) where
  -- At depth 0 nothing is put off, or an object is newly marked.
  Outcome-progress :
      (call : ℕ → Marking H L A → Marking H L A)
      → IsGood H L A base (λ _. Unit {0}) call
      → (a : ℕ) (m m' : Marking H L A) → Fits H L A base m
      → Outcome H L A base call a 0 m m'
      → (m'.to_mark ≡ m.to_mark) ⊎ (unmarked H L A objects m' < unmarked H L A objects m)
  Outcome-progress call good a m m' f (skips e same) = inl (rw same)
  Outcome-progress call good a m m' f (knows o e old same) = inl (rw same)
  Outcome-progress call good a m m' f (delays deep same) = absurd (omega arith)
  Outcome-progress call good a m m' f (enters o m1 e new one why same) =
      let (x, _) =
        mark_each_good H L A base (λ _. Unit {0}) call good (children H L base o) m1 (one.fits f)
          (λ b i. tt) in
      inr (
        rw same (
          unmarked-lt H L A m _ (λ q h. x.keeps q (one.still q h)) objects o (finite a o e) new
            (x.keeps o one.is_now)))

  progress :
      (a : ℕ) (m : Marking H L A)
      → Fits H L A base m
      → ((mark_addrs H L A a 0 m).to_mark ≡ m.to_mark)
        ⊎ (unmarked H L A objects (mark_addrs H L A a 0 m) < unmarked H L A objects m)
  progress a m f = rw (mark_addrs_recursion H L A a 0 m) (
      Outcome-progress _ (mark_addrs-IsGood H L A base (λ _. Unit {0}) (λ a b o p e i. tt) 1) a m _
        f (body-Outcome H L A base _ a 0 m f))

  -- Some number of rounds is enough.
  abbrev pub Finishes : Marking H L A → Type 0
  Finishes m = (rounds : ℕ) × (t : Marking H L A) × (mark_mark_vector H L A rounds m ≡ some t)

  abbrev size : Marking H L A → ℕ
  size m = length (A.elems m.to_mark)

  -- One round of the loop lowers the number of unmarked objects, or keeps it and shortens the set.
  round-Finishes :
      (m : Marking H L A)
      → Fits H L A base m
      → ((n : Marking H L A)
          → Fits H L A base n
          → unmarked H L A objects n ≤ unmarked H L A objects m
          → size n < size m
          → Finishes n)
      → ((n : Marking H L A)
          → Fits H L A base n
          → unmarked H L A objects n < unmarked H L A objects m
          → Finishes n)
      → Finishes m
  unfolding mark_mark_vector
  round-Finishes m f shorter fewer = elim (Option-cases (A.take m.to_mark)) [
    | inl done ↦ (1, m, rw (done, mark_mark_vector))
    | inr ((a, rest), taken) ↦
        let m0 : Marking H L A = record m { to_mark = rest } in
        let (x, _) = mark_addrs-IsGood H L A base (λ _. Unit {0}) (λ a b o p e i. tt) 0 a m0 f tt in
        let less : unmarked H L A objects (mark_addrs H L A a 0 m0) ≤ unmarked H L A objects m =
          unmarked-le H L A m (mark_addrs H L A a 0 m0) x.keeps objects in
        let rest_finishes : Finishes (mark_addrs H L A a 0 m0) = elim (progress a m0 f) [
          | inl same ↦
              shorter (mark_addrs H L A a 0 m0) x.fits less
                (rw same ((A.take-some m.to_mark a rest taken).1))
          | inr lower ↦
              fewer (mark_addrs H L A a 0 m0) x.fits
                (omega (arith, lower, unmarked-to_mark H L A objects m rest))
        ] in
        (suc rest_finishes.0, rest_finishes.1, rw (taken, mark_mark_vector) rest_finishes.2)
  ]

  bounded-Finishes :
      (u n : ℕ) (m : Marking H L A)
      → Fits H L A base m
      → unmarked H L A objects m ≤ u
      → size m ≤ n
      → Finishes m
  bounded-Finishes zero zero m f hu hn =
      round-Finishes m f (λ k g le lt. absurd (omega arith)) (λ k g lt. absurd (omega arith))
  bounded-Finishes zero (suc n) m f hu hn =
      round-Finishes m f (λ k g le lt. bounded-Finishes zero n k g (omega arith) (omega arith))
        (λ k g lt. absurd (omega arith))
  bounded-Finishes (suc u) zero m f hu hn =
      round-Finishes m f (λ k g le lt. absurd (omega arith))
        (λ k g lt. bounded-Finishes u (size k) k g (omega arith) (omega arith))
  bounded-Finishes (suc u) (suc n) m f hu hn =
      round-Finishes m f (λ k g le lt. bounded-Finishes (suc u) n k g (omega arith) (omega arith))
        (λ k g lt. bounded-Finishes u (size k) k g (omega arith) (omega arith))

  -- If finitely many objects can be met, the loop over the addresses put off ends, from any marking
  -- whose states differ from `base` in their marks only.
  pub mark_mark_vector_ends : (m : Marking H L A) → Fits H L A base m → Finishes m
  mark_mark_vector_ends m f =
      bounded-Finishes (unmarked H L A objects m) (size m) m f (omega arith) (omega arith)
