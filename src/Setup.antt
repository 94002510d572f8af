-- ===== src/Setup.antt =====
-- cgc1/src/global_kernel_state.cpp, `_u_setup_gc_threads`, with the members of cgc1/src/gc_thread.cpp that
-- it calls: `reset` (the part that concerns the assignment), `add_thread`, `set_allocator_blocks`,
-- `set_root_iterators` and `set_root_ranges`. The code is written for any number of collector threads.
pub mod Given
pub mod Shares
use cgc.Base.{ℕ, zero, suc, ◌+◌, ◌%◌, ◌≡◌, ◌↔◌, ◌⊎◌, Bool, List, [], ◌∷◌, ◌++◌, Memᴰ, length}

-- What mcpputil gives: `insert_unique_sorted`, and `equipartition`, which cuts a container into one part for
-- each of a number of threads.
pub record Partition : Type 1 where
  pub insert_unique_sorted : ℕ → List ℕ → List ℕ
  pub equipartition : (A : Type 0) → List A → ℕ → List (List A)
  pub mem-insert :
      (x a : ℕ) (xs : List ℕ) → Memᴰ x (insert_unique_sorted a xs) ↔ ((x ≡ a) ⊎ Memᴰ x xs)

-- What a collector thread is to work on: `m_watched_threads`, the blocks from `m_block_begin` to
-- `m_block_end`, the roots from `m_root_begin` to `m_root_end`, and `m_root_ranges`.
pub record Assignment (Block Range : Type 0) : Type 0 where
  pub watched : List ℕ
  pub blocks : List Block
  pub roots : List ℕ
  pub root_ranges : List Range

module _ {Block Range : Type 0} where
  unfoldable pub reset_assignment : Assignment Block Range → Assignment Block Range
  reset_assignment a = record a { watched = []; blocks = []; roots = [] }

  unfoldable pub reset_all : List (Assignment Block Range) → List (Assignment Block Range)
  reset_all [] = []
  reset_all (a ∷ rest) = reset_assignment a ∷ reset_all rest

  -- The setters; an empty part of blocks or roots is not handed over.
  unfoldable pub set_allocator_blocks : List Block → Assignment Block Range → Assignment Block Range
  set_allocator_blocks [] a = a
  set_allocator_blocks (x ∷ xs) a = record a { blocks = x ∷ xs }

  unfoldable pub set_root_iterators : List ℕ → Assignment Block Range → Assignment Block Range
  set_root_iterators [] a = a
  set_root_iterators (x ∷ xs) a = record a { roots = x ∷ xs }

  unfoldable pub set_root_ranges : List Range → Assignment Block Range → Assignment Block Range
  set_root_ranges ranges a = record a { root_ranges = ranges }

  -- Each part to its thread.
  unfoldable pub give_each :
      {Part : Type 0}
      → (Part → Assignment Block Range → Assignment Block Range)
      → List Part
      → List (Assignment Block Range)
      → List (Assignment Block Range)
  give_each set [] rest = rest
  give_each set (p ∷ ps) [] = []
  give_each set (p ∷ ps) (a ∷ rest) = set p a ∷ give_each set ps rest

module _ (P : Partition) {Block Range : Type 0} where
  -- `m_gc_threads[index]->add_thread(id)`.
  unfoldable pub add_thread : ℕ → ℕ → List (Assignment Block Range) → List (Assignment Block Range)
  add_thread id index [] = []
  add_thread id zero (a ∷ rest) = record a { watched = P.insert_unique_sorted id a.watched } ∷ rest
  add_thread id (suc index) (a ∷ rest) = a ∷ add_thread id index rest

  -- The loop over `m_threads`.
  unfoldable pub add_threads :
      ℕ → List ℕ → ℕ → List (Assignment Block Range) → List (Assignment Block Range)
  add_threads total [] cur gc_threads = gc_threads
  add_threads total (id ∷ ids) cur gc_threads =
      add_threads total ids ((cur + 1) % total) (add_thread id cur gc_threads)

  unfoldable pub setup_gc_threads :
      List ℕ
      → List Block
      → List ℕ
      → List Range
      → List (Assignment Block Range)
      → List (Assignment Block Range)
  setup_gc_threads ids blocks roots ranges [] = []
  setup_gc_threads ids blocks roots ranges (a ∷ rest) =
      let total = length (a ∷ rest) in
      let watching = add_threads total ids 0 (reset_all (a ∷ rest)) in
      give_each set_root_ranges (P.equipartition Range ranges total) (
        give_each set_root_iterators (P.equipartition ℕ roots total)
          (give_each set_allocator_blocks (P.equipartition Block blocks total) watching))
