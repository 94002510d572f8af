-- ===== src/Waits.antt =====
-- cgc1/src/global_kernel_state.cpp, the waits for a collection: `wait_for_collection` and
-- `wait_for_collection2` with those who call them, against the mutexes and the stores of `force_collect`
-- and `_u_suspend_threads`. Any number of threads take turns. Mutexes that are locked together are taken
-- in one step. The mutexes of the allocators are numbered; a thread may hold one of them at a time, and
-- `force_collect` takes them all. What is done between the places is in the other modules.
pub mod Owners
pub mod Excluded
pub mod Blocked
pub mod Sending
pub mod Stopped
use cgc.Base.{
  ℕ, ◌≡◌, ◌≢◌, ◌⊎◌, Bool, true, false, ◌&&◌, not, Option, none, some, List, [], ◌∷◌, ◌++◌, Memᴰ,
  ◌==◌, if◌then◌else◌, contains, erase, nat_eq,
}
use cgc.Heap.{update}

-- What a thread calls `wait_for_collection2` for: `initialize_current_thread`, `destroy_current_thread`,
-- `wait_for_finalization`, and `wait_for_finalization` at the start of `force_collect`.
pub data Aim : Type 0 where
  add_thread destroy_thread finalization collection : Aim

-- Where a thread is.
pub data Place : Type 0 where
  -- in none of these functions; under a guard for `m_mutex` alone
  outside inside : Place
  -- under the guard of one of the allocators, with `m_mutex` or without it
  allocating allocating_inside : ℕ → Place
  -- `wait_for_collection`: before the test of its predicate, asleep, and returned, which is also where
  -- `collection_lock_t::lock` has returned
  testing sleeping guarded : Place
  -- `wait_for_collection2`: before the test of its loop, and before the next `lock.lock()`
  looping yielding : Aim → Place
  -- returned from it, with both mutexes
  adding removing : Place
  -- `wait_for_finalization` behind `m_mutex.unlock()`; and under the guards of the local finalization
  finalizing finalizing_inside : Aim → Place
  -- `force_collect`: behind the exchange of `m_collect`, behind `wait_for_finalization`, with the mutexes,
  -- and behind `m_collect_finished.store(false)`
  called asking beginning signalling : Place
  -- `_u_suspend_threads`: in the loop without `m_mutex`, and before `lock.lock()`
  suspending relocking : Place
  -- the phases, behind `m_thread_mutex.lock()`, and behind `m_collect_finished = true`
  working closing closed : Place

-- A signal to a thread: none, sent and not delivered yet, and delivered: the thread is in the handler.
pub data Signal : Type 0 where
  unsent pending handling : Signal

pub record Waits : Type 0 where
  pub m_mutex : Option ℕ
  pub m_thread_mutex : Option ℕ
  pub allocator_mutex : ℕ → Option ℕ
  pub m_collect : Bool
  pub m_collect_finished : Bool
  pub m_threads : List ℕ
  pub place : ℕ → Place
  pub signal : ℕ → Signal

-- Whether a thread at the place owns `m_mutex`, and `m_thread_mutex`.
unfoldable pub owns_mutex : Place → Bool
owns_mutex inside = true
owns_mutex (allocating_inside j) = true
owns_mutex testing = true
owns_mutex guarded = true
owns_mutex (looping a) = true
owns_mutex adding = true
owns_mutex removing = true
owns_mutex (finalizing_inside a) = true
owns_mutex beginning = true
owns_mutex signalling = true
owns_mutex working = true
owns_mutex closing = true
owns_mutex closed = true
owns_mutex p = false

unfoldable pub owns_thread_mutex : Place → Bool
owns_thread_mutex (looping a) = true
owns_thread_mutex adding = true
owns_thread_mutex removing = true
owns_thread_mutex (finalizing a) = true
owns_thread_mutex (finalizing_inside a) = true
owns_thread_mutex beginning = true
owns_thread_mutex signalling = true
owns_thread_mutex suspending = true
owns_thread_mutex relocking = true
owns_thread_mutex closing = true
owns_thread_mutex closed = true
owns_thread_mutex p = false

-- Whether it owns the mutex of allocator `k`.
unfoldable pub owns_allocator : ℕ → Place → Bool
owns_allocator k (allocating j) = j == k
owns_allocator k (allocating_inside j) = j == k
owns_allocator k beginning = true
owns_allocator k signalling = true
owns_allocator k suspending = true
owns_allocator k relocking = true
owns_allocator k p = false

-- A mutex over a step of thread `t`, which owned it before, and owns it after: a mutex is taken only while
-- nobody has it.
unfoldable pub Takes : ℕ → Bool → Bool → Option ℕ → Option ℕ → Type 0
Takes t false true m n = (m ≡ none) × (n ≡ some t)
Takes t true false m n = n ≡ none
Takes t before after m n = n ≡ m

-- The steps of the code, with `m_collect_finished` and `m_collect` before and after.
pub data Edge (f c : Bool) : Place → Place → Bool → Bool → Type 0 where
  guard_locks : Edge f c outside inside f c
  guard_unlocks : Edge f c inside outside f c
  allocator_locks : (j : ℕ) → Edge f c outside (allocating j) f c
  allocator_unlocks : (j : ℕ) → Edge f c (allocating j) outside f c
  inner_locks : (j : ℕ) → Edge f c inside (allocating_inside j) f c
  inner_unlocks : (j : ℕ) → Edge f c (allocating_inside j) inside f c
  wait_locks : Edge f c outside testing f c
  passes : f ≡ true → Edge f c testing guarded f c
  falls_asleep : f ≡ false → Edge f c testing sleeping f c
  wakes : Edge f c sleeping testing f c
  lock_unlocks : Edge f c guarded outside f c
  wait2_locks : (a : Aim) → a ≢ collection → Edge f c outside (looping a) f c
  loop_unlocks : (a : Aim) → f ≡ false → c ≡ true → Edge f c (looping a) (yielding a) f c
  loop_locks : (a : Aim) → Edge f c (yielding a) (looping a) f c
  may_add : (not f && c) ≡ false → Edge f c (looping add_thread) adding f c
  may_remove : (not f && c) ≡ false → Edge f c (looping destroy_thread) removing f c
  adds : Edge f c adding outside f c
  removes : Edge f c removing outside f c
  may_finalize :
      (not f && c) ≡ false → Edge f c (looping finalization) (finalizing finalization) f c
  may_collect : (not f && c) ≡ false → Edge f c (looping collection) (finalizing collection) f c
  local_locks : (a : Aim) → Edge f c (finalizing a) (finalizing_inside a) f c
  local_unlocks : (a : Aim) → Edge f c (finalizing_inside a) (finalizing a) f c
  has_finalized : Edge f c (finalizing finalization) outside f c
  exchanges : c ≡ false → Edge f c outside called f true
  waits_first : Edge f c called (looping collection) f c
  has_waited : Edge f c (finalizing collection) asking f c
  locks_all : Edge f c asking beginning f c
  stores_unfinished : Edge f c beginning signalling false c
  signals_threads : Edge f c signalling suspending f c
  sees_paused : Edge f c suspending relocking f c
  locks_again : Edge f c relocking working f c
  has_swept : Edge f c working closing f c
  stores_finished : Edge f c closing closed true c
  clears_collect : Edge f c closed outside f false

-- `m_threads` behind the place.
unfoldable pub threads_behind : Place → ℕ → List ℕ → List ℕ
threads_behind adding t ts = ts ++ (t ∷ [])
threads_behind removing t ts = erase t ts
threads_behind p t ts = ts

-- The loop over `m_threads` with `pthread_kill`.
unfoldable pub signals_behind : Place → ℕ → List ℕ → (ℕ → Signal) → ℕ → Signal
signals_behind signalling t ts s u = if contains u ts && not (u == t) then pending else s u
signals_behind p t ts s u = s u

-- Behind the loop of `_u_suspend_threads`, all other registered threads are in the handler.
unfoldable pub MayLeave : Place → ℕ → List ℕ → (ℕ → Signal) → Type 0
MayLeave suspending t ts s = (u : ℕ) → Memᴰ u ts → u ≢ t → s u ≡ handling
MayLeave p t ts s = Unit {0}

pub data Step (w : Waits) : Waits → Type 0 where
  -- A thread goes on, which is not in the handler.
  moves :
      (t : ℕ) (p q : Place) (f c : Bool) (m n : Option ℕ) (a : ℕ → Option ℕ)
      → w.place t ≡ p
      → w.signal t ≢ handling
      → Edge w.m_collect_finished w.m_collect p q f c
      → Takes t (owns_mutex p) (owns_mutex q) w.m_mutex m
      → Takes t (owns_thread_mutex p) (owns_thread_mutex q) w.m_thread_mutex n
      → ((k : ℕ) → Takes t (owns_allocator k p) (owns_allocator k q) (w.allocator_mutex k) (a k))
      → MayLeave p t w.m_threads w.signal
      → Step w (record {
        m_mutex = m;
        m_thread_mutex = n;
        allocator_mutex = a;
        m_collect = c;
        m_collect_finished = f;
        m_threads = threads_behind p t w.m_threads;
        place = update w.place t q;
        signal = signals_behind p t w.m_threads w.signal;
      })
  -- The signal is delivered, and the thread is in `_collect_current_thread`.
  handles :
      (t : ℕ) → w.signal t ≡ pending → Step w (record w { signal = update w.signal t handling })
  -- The wait in the handler ends.
  resumes :
      (t : ℕ)
      → w.signal t ≡ handling
      → w.m_collect_finished ≡ true
      → Step w (record w { signal = update w.signal t unsent })

-- From one state to another in any number of steps.
pub data Steps (w : Waits) : Waits → Type 0 where
  no_steps : Steps w w
  then_step : (v u : Waits) → Steps w v → Step v u → Steps w u

-- After the constructor.
pub record IsInitial (w : Waits) : Type 0 where
  pub is_free : w.m_mutex ≡ none
  pub threads_free : w.m_thread_mutex ≡ none
  pub allocators_free : (k : ℕ) → w.allocator_mutex k ≡ none
  pub is_quiet : w.m_collect ≡ false
  pub is_finished : w.m_collect_finished ≡ true
  pub no_threads : w.m_threads ≡ []
  pub all_outside : (t : ℕ) → w.place t ≡ outside
  pub none_sent : (t : ℕ) → w.signal t ≡ unsent
