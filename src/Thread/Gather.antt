-- ===== src/Thread/Gather.antt =====
-- cgc1/src/gc_thread.cpp, `handle_thread` and the whole of `_mark`, with `tlks` of
-- cgc1/src/global_kernel_state_impl.hpp: the roots of the watched threads are gathered, and then all is
-- marked.
use cgc.Base.{ℕ, Bool, true, false, Option, none, some, List, [], ◌∷◌, if◌then◌else◌, ◌==◌}
use cgc.Heap.{ObjectHeader, Layout, AddressSet}
use cgc.Mark.{Marking, mark_roots}
use cgc.Thread.{ThreadState, found, aborts, runs_on, Bounds, scan_stack, clear_potential_roots}

-- `global_kernel_state_t::tlks`: the first thread in the vector that has the id.
unfoldable pub tlks : ℕ → List ThreadState → Option ThreadState
tlks id [] = none
tlks id (t ∷ ts) = if t.thread_id == id then some t else tlks id ts

-- `clear_potential_roots` on the thread that `tlks` finds.
unfoldable pub clear_roots_of : ℕ → List ThreadState → List ThreadState
clear_roots_of id [] = []
clear_roots_of id (t ∷ ts) =
    if t.thread_id == id then clear_potential_roots t ∷ ts else t ∷ clear_roots_of id ts

module _ (A : AddressSet) where
  -- `m_addresses_to_mark.insert(begin, end)`.
  unfoldable pub insert_all : List ℕ → A.Set → A.Set
  insert_all [] set = set
  insert_all (a ∷ rest) set = insert_all rest (A.insert a set)

  -- The registered threads, and the collector thread's addresses to mark and stack roots.
  pub record Gathering : Type 0 where
    pub threads : List ThreadState
    pub to_mark : A.Set
    pub stack_roots : List ℕ

module _ (L : Layout) (B : Bounds) (A : AddressSet) (align : ℕ → ℕ) (rounds : ℕ) where
  -- `none` if the scan does not come to an end.
  unfoldable pub handle_thread : ℕ → Gathering A → Option (Bool × Gathering A)
  handle_thread id g = elim (tlks id g.threads) [
    | none ↦ some (false, g)
    | some t ↦ elim (scan_stack L B align rounds g.stack_roots t) [
      | found container ↦ some (
        true,
        record {
          threads = clear_roots_of id g.threads;
          to_mark = insert_all A t.potential_roots g.to_mark;
          stack_roots = container;
        },
      )
      | aborts ↦ none
      | runs_on ↦ none
    ]
  ]

  -- The loop over `m_watched_threads`.
  unfoldable pub handle_threads : List ℕ → Gathering A → Option (Gathering A)
  handle_threads [] g = some g
  handle_threads (id ∷ ids) g = elim (handle_thread id g) [
    | none ↦ none
    | some (known, g') ↦ handle_threads ids g'
  ]

  -- `_mark`, for the stack roots as they are. The loop over the addresses put off takes `mark_rounds`.
  unfoldable pub mark_phase :
      (H : ObjectHeader)
      → ℕ
      → List ℕ
      → List ℕ
      → List ℕ
      → List ℕ
      → List ThreadState
      → Marking H L A
      → Option (List ThreadState × Marking H L A)
  mark_phase H mark_rounds watched stack_roots roots range_points threads m =
      let before : Gathering A = record {
        threads = threads;
        to_mark = m.to_mark;
        stack_roots = stack_roots;
      } in
      elim (handle_threads watched before) [
        | none ↦ none
        | some g ↦
            elim (mark_roots H L A mark_rounds g.stack_roots roots range_points
              (record m { to_mark = g.to_mark })) [ none ↦ none | some t ↦ some (g.threads, t) ]
      ]
