-- ===== src/Examples/Sharing.antt =====
-- Two collector threads share three threads of the program, and one block.
use mathlib.Core.List.{append-nil}
use cgc.Base.{ℕ, zero, suc, ◌≡◌, ◌<◌, ◌↔◌, refl, ap, ◌∙◌, List, [], ◌∷◌, ◌++◌, Memᴰ, length, arith}
use cgc.Heap.Sample.{insert_new, mem-insert_new}
use cgc.Setup.{Partition, Assignment, setup_gc_threads}
use cgc.Setup.Given.{flat, Cuts, all_watched, all_blocks, all_roots, all_ranges}
use cgc.Setup.Shares.{setup_gc_threads-shares}

unfoldable empty_parts : (A : Type 0) → ℕ → List (List A)
empty_parts A zero = []
empty_parts A (suc n) = [] ∷ empty_parts A n

-- All to the first thread.
unfoldable to_first : (A : Type 0) → List A → ℕ → List (List A)
to_first A xs zero = []
to_first A xs (suc n) = xs ∷ empty_parts A n

flat-empty : (A : Type 0) (n : ℕ) → flat (empty_parts A n) ≡ []
unfolding empty_parts
flat-empty A zero = refl
flat-empty A (suc n) = flat-empty A n

length-empty : (A : Type 0) (n : ℕ) → length (empty_parts A n) ≡ n
unfolding empty_parts
length-empty A zero = refl
length-empty A (suc n) = omega (arith, length-empty A n)

abbrev partition : Partition
partition = record {
  insert_unique_sorted = insert_new;
  equipartition = to_first;
  mem-insert = mem-insert_new;
}

length-to_first : (A : Type 0) (xs : List A) (n : ℕ) → 0 < n → length (to_first A xs n) ≡ n
unfolding to_first
length-to_first A xs zero h = absurd (omega (arith, h))
length-to_first A xs (suc n) h = omega (arith, length-empty A n)

flat-to_first : (A : Type 0) (xs : List A) (n : ℕ) → 0 < n → flat (to_first A xs n) ≡ xs
unfolding to_first
flat-to_first A xs zero h = absurd (omega (arith, h))
flat-to_first A xs (suc n) h = ap (◌++◌ xs) (flat-empty A n) ∙ append-nil xs

partition-Cuts : Cuts partition
partition-Cuts = record { parts = length-to_first; whole = flat-to_first }

abbrev assigned : Assignment ℕ ℕ
assigned = record { watched = 9 ∷ []; blocks = 8 ∷ []; roots = []; root_ranges = [] }

setup_gc_threads-shares_example :
    let l =
      setup_gc_threads partition
        (5 ∷ 6 ∷ 7 ∷ [])
        (48 ∷ [])
        (1 ∷ 2 ∷ [])
        (64 ∷ [])
        (assigned ∷ assigned ∷ []) in
    ((x : ℕ) → Memᴰ x (all_watched l) ↔ Memᴰ x (5 ∷ 6 ∷ 7 ∷ []))
    × (all_blocks l ≡ 48 ∷ [])
    × (all_roots l ≡ 1 ∷ 2 ∷ [])
    × (all_ranges l ≡ 64 ∷ [])
setup_gc_threads-shares_example =
    setup_gc_threads-shares partition partition-Cuts (5 ∷ 6 ∷ 7 ∷ []) (48 ∷ []) (1 ∷ 2 ∷ [])
      (64 ∷ []) (assigned ∷ assigned ∷ []) (omega arith)
