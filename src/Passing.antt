-- ===== src/Passing.antt =====
-- cgc1/src/global_kernel_state.cpp and cgc1/src/global_kernel_state_impl.hpp, what passes between the
-- collector thread and the threads of the program behind a sweep: `_add_freed_in_last_collection`,
-- `_add_num_freed_in_last_collection`, `_add_need_special_finalizing_collection`,
-- `_u_get_local_finalization_vector_sparse`, `local_thread_finalization`, and `wait_for_finalization` once
-- the collector threads are done. Object states and user data are those of one moment.
pub mod Turns
pub mod Reports
use cgc.Base.{ℕ, ◌+◌, ◌%◌, Bool, true, false, List, [], ◌∷◌, ◌++◌, if◌then◌else◌}
use cgc.Word.{word_mod}
use cgc.Heap.{ObjectHeader, Layout}
use cgc.Sweep.{UserData, Event, Finalizing, finalize, do_local_sparse_finalization}

-- `m_need_special_finalizing_collection_sparse`, `m_freed_in_last_collection` and
-- `m_num_freed_in_last_collection`, with all that finalization has done so far.
pub record Passing : Type 0 where
  pub need_special : List ℕ
  pub freed : List ℕ
  pub num_freed : ℕ
  pub events : List Event

unfoldable pub add_freed : List ℕ → Passing → Passing
add_freed container p = record p { freed = p.freed ++ container }

unfoldable pub add_num_freed : ℕ → Passing → Passing
add_num_freed n p = record p { num_freed = (p.num_freed + n) % word_mod }

unfoldable pub add_need_special : List ℕ → Passing → Passing
add_need_special container p = record p { need_special = p.need_special ++ container }

unfoldable pub get_local_finalization_vector : Passing → List ℕ × Passing
get_local_finalization_vector p = (p.need_special, record p { need_special = [] })

-- What `force_collect` resets before a collection.
unfoldable pub reset_freed : Passing → Passing
reset_freed p = record p { freed = []; num_freed = 0 }

-- `_d_freed_in_last_collection`.
unfoldable pub d_freed_in_last_collection : Passing → List ℕ
d_freed_in_last_collection p = p.freed

-- `num_freed_in_last_collection`.
unfoldable pub num_freed_in_last_collection : Passing → ℕ
num_freed_in_last_collection p = p.num_freed

module _ (H : ObjectHeader) (L : Layout) (states : ℕ → H.State) (user_data : ℕ → UserData) where
  -- `_finalize` of a collector thread, with what it tells the kernel.
  unfoldable pub collector_finalizes : List ℕ → Passing → Passing
  collector_finalizes to_be_freed p =
      let z = finalize H L states user_data to_be_freed in
      add_need_special z.special_finalization
        (add_freed z.to_be_freed (record p { events = p.events ++ z.events }))

  unfoldable pub local_thread_finalization : Passing → Passing
  local_thread_finalization p =
      let (vec, q) = get_local_finalization_vector p in
      let z = do_local_sparse_finalization H L states user_data vec in
      add_freed z.to_be_freed (record q { events = q.events ++ z.events })

  unfoldable pub wait_for_finalization : Bool → Passing → Passing
  wait_for_finalization do_local_finalization p =
      if do_local_finalization then local_thread_finalization p else p
