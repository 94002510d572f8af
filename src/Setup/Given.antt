-- ===== src/Setup/Given.antt =====
-- What the hand-outs of `_u_setup_gc_threads` leave with the collector threads, put together over all of
-- them.
use cgc.Base.{ℕ, ◌<◌, ◌≡◌, refl, ap, List, [], ◌∷◌, ◌++◌, length, arith}
use cgc.Setup.{
  Partition, Assignment, reset_assignment, reset_all, set_allocator_blocks, set_root_iterators,
  set_root_ranges, give_each,
}

abbrev pub flat : {A : Type 0} → List (List A) → List A
flat [] = []
flat (xs ∷ rest) = xs ++ flat rest

-- The parts are one for each thread, and put together they are the container.
pub record Cuts (P : Partition) : Type 1 where
  pub parts : (A : Type 0) (xs : List A) (n : ℕ) → 0 < n → length (P.equipartition A xs n) ≡ n
  pub whole : (A : Type 0) (xs : List A) (n : ℕ) → 0 < n → flat (P.equipartition A xs n) ≡ xs

module _ {Block Range : Type 0} where
  abbrev pub all_watched : List (Assignment Block Range) → List ℕ
  all_watched [] = []
  all_watched (a ∷ rest) = a.watched ++ all_watched rest

  abbrev pub all_blocks : List (Assignment Block Range) → List Block
  all_blocks [] = []
  all_blocks (a ∷ rest) = a.blocks ++ all_blocks rest

  abbrev pub all_roots : List (Assignment Block Range) → List ℕ
  all_roots [] = []
  all_roots (a ∷ rest) = a.roots ++ all_roots rest

  abbrev pub all_ranges : List (Assignment Block Range) → List Range
  all_ranges [] = []
  all_ranges (a ∷ rest) = a.root_ranges ++ all_ranges rest

  -- Nothing is assigned but ranges from before.
  abbrev pub Blank : List (Assignment Block Range) → Type 0
  Blank [] = Unit
  Blank (a ∷ rest) = (a.blocks ≡ []) × (a.roots ≡ []) × Blank rest

  abbrev pub RootsBlank : List (Assignment Block Range) → Type 0
  RootsBlank [] = Unit
  RootsBlank (a ∷ rest) = (a.roots ≡ []) × RootsBlank rest

  pub reset_all-Blank : (l : List (Assignment Block Range)) → Blank (reset_all l)
  unfolding reset_all reset_assignment
  reset_all-Blank [] = tt
  reset_all-Blank (a ∷ rest) = (refl, refl, reset_all-Blank rest)

  pub reset_all-watched : (l : List (Assignment Block Range)) → all_watched (reset_all l) ≡ []
  unfolding reset_all reset_assignment
  reset_all-watched [] = refl
  reset_all-watched (a ∷ rest) = reset_all-watched rest

  pub length-reset_all : (l : List (Assignment Block Range)) → length (reset_all l) ≡ length l
  unfolding reset_all
  length-reset_all [] = refl
  length-reset_all (a ∷ rest) = omega (arith, length-reset_all rest)

  -- What one of the three hand-outs does to the assignments.
  pub give_blocks-lem :
      (ps : List (List Block)) (l : List (Assignment Block Range))
      → length ps ≡ length l
      → Blank l
      → let l' = give_each set_allocator_blocks ps l in
        (all_blocks l' ≡ flat ps)
        × (all_watched l' ≡ all_watched l)
        × RootsBlank l'
        × (length l' ≡ length l)
  unfolding give_each set_allocator_blocks
  give_blocks-lem [] [] e b = (refl, refl, tt, refl)
  give_blocks-lem [] (a ∷ l) e b = absurd (omega (arith, e))
  give_blocks-lem (p ∷ ps) [] e b = absurd (omega (arith, e))
  give_blocks-lem ([] ∷ ps) (a ∷ l) e b =
      let (x, y, z, w) = give_blocks-lem ps l (omega (arith, e)) b.2 in
      (rw b.0 x, ap (◌++◌ a.watched) y, (b.1, z), omega (arith, w))
  give_blocks-lem ((q ∷ qs) ∷ ps) (a ∷ l) e b =
      let (x, y, z, w) = give_blocks-lem ps l (omega (arith, e)) b.2 in
      (ap (◌++◌ (q ∷ qs)) x, ap (◌++◌ a.watched) y, (b.1, z), omega (arith, w))

  pub give_roots-lem :
      (ps : List (List ℕ)) (l : List (Assignment Block Range))
      → length ps ≡ length l
      → RootsBlank l
      → let l' = give_each set_root_iterators ps l in
        (all_roots l' ≡ flat ps)
        × (all_watched l' ≡ all_watched l)
        × (all_blocks l' ≡ all_blocks l)
        × (length l' ≡ length l)
  unfolding give_each set_root_iterators
  give_roots-lem [] [] e b = (refl, refl, refl, refl)
  give_roots-lem [] (a ∷ l) e b = absurd (omega (arith, e))
  give_roots-lem (p ∷ ps) [] e b = absurd (omega (arith, e))
  give_roots-lem ([] ∷ ps) (a ∷ l) e b =
      let (x, y, z, w) = give_roots-lem ps l (omega (arith, e)) b.1 in
      (rw b.0 x, ap (◌++◌ a.watched) y, ap (◌++◌ a.blocks) z, omega (arith, w))
  give_roots-lem ((q ∷ qs) ∷ ps) (a ∷ l) e b =
      let (x, y, z, w) = give_roots-lem ps l (omega (arith, e)) b.1 in
      (ap (◌++◌ (q ∷ qs)) x, ap (◌++◌ a.watched) y, ap (◌++◌ a.blocks) z, omega (arith, w))

  pub give_ranges-lem :
      (ps : List (List Range)) (l : List (Assignment Block Range))
      → length ps ≡ length l
      → let l' = give_each set_root_ranges ps l in
        (all_ranges l' ≡ flat ps)
        × (all_watched l' ≡ all_watched l)
        × (all_blocks l' ≡ all_blocks l)
        × (all_roots l' ≡ all_roots l)
  unfolding give_each set_root_ranges
  give_ranges-lem [] [] e = (refl, refl, refl, refl)
  give_ranges-lem [] (a ∷ l) e = absurd (omega (arith, e))
  give_ranges-lem (p ∷ ps) [] e = absurd (omega (arith, e))
  give_ranges-lem (p ∷ ps) (a ∷ l) e =
      let (x, y, z, w) = give_ranges-lem ps l (omega (arith, e)) in
      (ap (◌++◌ p) x, ap (◌++◌ a.watched) y, ap (◌++◌ a.blocks) z, ap (◌++◌ a.roots) w)
