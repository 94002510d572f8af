-- ===== src/World.antt =====
-- cgc1/src/global_kernel_state.cpp, how a collection stops and resumes the other threads of the program:
-- the start of `force_collect` from the test of the counters on, `_u_suspend_threads`, the handler
-- `_collect_current_thread`, and the end of `force_collect`. A step is what a thread does before others
-- can see it. The collections are counted without wrapping around; the order in which the loop signals
-- the threads is left open. Who owns a mutex is left out, so that a step that takes one may be taken here
-- at any time, while in the code it may have to wait, for ever even (see Waits).
pub mod Stopped
use cgc.Base.{ℕ, zero, suc, ◌+◌, ◌≡◌, ◌⊎◌, Bool, true, false, List, [], ◌∷◌, ◌++◌, length, All}

-- Another thread of the program: it runs, has been sent the signal, or is in the handler behind
-- `m_num_paused_threads++`, where it waits until `m_collect_finished`.
pub data Mutator : Type 0 where
  runs signalled waits : Mutator

-- The collecting thread: outside a collection, in the loop that signals the threads, with so many left, in
-- the loop that waits until they have paused, behind it where it locks `m_mutex` again, and behind that.
pub data Stage : Type 0 where
  idle spins relocks collects : Stage
  signals : ℕ → Stage

pub record World : Type 0 where
  pub stage : Stage
  pub mutators : List Mutator
  pub num_paused_threads : ℕ
  pub num_resumed_threads : ℕ
  pub num_collections : ℕ
  pub collect_finished : Bool

pub data Step (w : World) : World → Type 0 where
  -- The counters agree, or there was no collection yet: they are reset, and the threads are signalled.
  starts :
      w.stage ≡ idle
      → (w.num_collections ≡ 0) ⊎ (w.num_paused_threads ≡ w.num_resumed_threads)
      → Step w (record w {
        stage = signals (length w.mutators);
        num_paused_threads = 0;
        num_resumed_threads = 0;
        collect_finished = false;
      })
  -- `pthread_kill(state->thread_handle(), SIGUSR1)`.
  sends :
      (left : ℕ) (xs ys : List Mutator)
      → w.stage ≡ signals (suc left)
      → w.mutators ≡ xs ++ (runs ∷ ys)
      → Step w (record w { stage = signals left; mutators = xs ++ (signalled ∷ ys) })
  sent : w.stage ≡ signals 0 → Step w (record w { stage = spins })
  -- `m_num_paused_threads++` in the handler.
  pauses :
      (xs ys : List Mutator)
      → w.mutators ≡ xs ++ (signalled ∷ ys)
      → Step w (record w {
        mutators = xs ++ (waits ∷ ys);
        num_paused_threads = w.num_paused_threads + 1;
      })
  -- The test of `_u_suspend_threads` succeeds.
  sees_paused :
      w.stage ≡ spins
      → w.num_paused_threads ≡ length w.mutators
      → Step w (record w { stage = relocks })
  -- `lock.lock()` returns.
  relocked : w.stage ≡ relocks → Step w (record w { stage = collects })
  finishes :
      w.stage ≡ collects
      → Step w (record w {
        stage = idle;
        num_collections = w.num_collections + 1;
        collect_finished = true;
      })
  -- `m_num_resumed_threads++` in the handler.
  resumes :
      (xs ys : List Mutator)
      → w.mutators ≡ xs ++ (waits ∷ ys)
      → w.collect_finished ≡ true
      → Step w (record w {
        mutators = xs ++ (runs ∷ ys);
        num_resumed_threads = w.num_resumed_threads + 1;
      })

-- After the constructor: all threads run. The two counters are not initialized.
pub record IsInitial (w : World) : Type 0 where
  pub is_idle : w.stage ≡ idle
  pub no_collection : w.num_collections ≡ 0
  pub is_finished : w.collect_finished ≡ true
  pub all_run : All (λ m. m ≡ runs) w.mutators

pub data Reached : World → Type 0 where
  begins : (w : World) → IsInitial w → Reached w
  goes : (w v : World) → Reached w → Step w v → Reached v
