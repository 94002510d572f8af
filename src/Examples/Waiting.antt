-- ===== src/Examples/Waiting.antt =====
-- Threads 1 and 2 are registered, and thread 1 collects.
use cgc.Base.{
  ℕ, ◌≡◌, ◌≢◌, refl, Bool, true, false, Option, none, some, [], ◌∷◌, contains, Memᴰ, inl, inr,
}
use mathlib.Core.List.Memᴰ
use cgc.Heap.{update}
use cgc.Waits.{
  add_thread, collection, Place, outside, testing, guarded, looping, adding, removing, finalizing,
  called, asking, beginning, signalling, suspending, relocking, unsent, pending, handling, Waits,
  owns_mutex, owns_thread_mutex, owns_allocator, Takes, Edge, threads_behind, signals_behind,
  MayLeave, Step, moves, handles, Steps, no_steps, then_step, IsInitial,
}
use cgc.Waits.Owners.{is_open}
use cgc.Waits.Excluded.{changes_excluded}
use cgc.Waits.Stopped.{stopped_empty_handed}
use cgc.Waits.Blocked.{stopped_owner_blocks}

abbrev start : Waits
start = record {
  m_mutex = none;
  m_thread_mutex = none;
  allocator_mutex = λ k. none;
  m_collect = false;
  m_collect_finished = true;
  m_threads = [];
  place = λ t. outside;
  signal = λ t. unsent;
}

start-IsInitial : IsInitial start
start-IsInitial = record {
  is_free = refl;
  threads_free = refl;
  allocators_free = λ k. refl;
  is_quiet = refl;
  is_finished = refl;
  no_threads = refl;
  all_outside = λ t. refl;
  none_sent = λ t. refl;
}

abbrev Run : Type 0
Run = (v : Waits) × Steps start v

abbrev act :
    (r : Run) (t : ℕ) (q : Place) (f c : Bool) (m n : Option ℕ)
    → Edge r.0.m_collect_finished r.0.m_collect (r.0.place t) q f c
    → r.0.signal t ≢ handling
    → Takes t (owns_mutex (r.0.place t)) (owns_mutex q) r.0.m_mutex m
    → Takes t (owns_thread_mutex (r.0.place t)) (owns_thread_mutex q) r.0.m_thread_mutex n
    → (al : ℕ → Option ℕ)
    → ((k : ℕ)
        → Takes t
            (owns_allocator k (r.0.place t))
            (owns_allocator k q)
            (r.0.allocator_mutex k)
            (al k))
    → MayLeave (r.0.place t) t r.0.m_threads r.0.signal
    → Run
act r t q f c m n e a k l al z y =
    (_, then_step r.0 _ r.1 (moves t (r.0.place t) q f c m n al refl a e k l z y))

awake : unsent ≢ handling
awake e = cc

awake_pending : pending ≢ handling
awake_pending e = cc

not_collecting : add_thread ≢ collection
not_collecting e = cc

abbrev registers_first : Run
unfolding Takes owns_mutex owns_thread_mutex owns_allocator MayLeave signals_behind threads_behind
registers_first =
    act (start, no_steps) 1 (looping add_thread) true false (some 1) (some 1)
      (Edge.wait2_locks add_thread not_collecting) awake (refl, refl) (refl, refl) (λ k. none)
      (λ k. refl) tt

abbrev adds_first : Run
unfolding Takes owns_mutex owns_thread_mutex owns_allocator MayLeave signals_behind threads_behind
adds_first =
    act registers_first 1 adding true false (some 1) (some 1) (Edge.may_add refl) awake refl refl
      (λ k. none) (λ k. refl) tt

abbrev first : Run
unfolding Takes owns_mutex owns_thread_mutex owns_allocator MayLeave signals_behind threads_behind
first =
    act adds_first 1 outside true false none none Edge.adds awake refl refl (λ k. none) (λ k. refl)
      tt

abbrev asks_second : Run
unfolding Takes owns_mutex owns_thread_mutex owns_allocator MayLeave signals_behind threads_behind
asks_second =
    act first 2 (looping add_thread) true false (some 2) (some 2)
      (Edge.wait2_locks add_thread not_collecting) awake (refl, refl) (refl, refl) (λ k. none)
      (λ k. refl) tt

abbrev adds_second : Run
unfolding Takes owns_mutex owns_thread_mutex owns_allocator MayLeave signals_behind threads_behind
adds_second =
    act asks_second 2 adding true false (some 2) (some 2) (Edge.may_add refl) awake refl refl
      (λ k. none) (λ k. refl) tt

abbrev both : Run
unfolding Takes owns_mutex owns_thread_mutex owns_allocator MayLeave signals_behind threads_behind
both =
    act adds_second 2 outside true false none none Edge.adds awake refl refl (λ k. none) (λ k. refl)
      tt

abbrev called_first : Run
unfolding Takes owns_mutex owns_thread_mutex owns_allocator MayLeave signals_behind threads_behind
called_first =
    act both 1 called true true none none (Edge.exchanges refl) awake refl refl (λ k. none)
      (λ k. refl) tt

abbrev waits : Run
unfolding Takes owns_mutex owns_thread_mutex owns_allocator MayLeave signals_behind threads_behind
waits =
    act called_first 1 (looping collection) true true (some 1) (some 1) Edge.waits_first awake
      (refl, refl) (refl, refl) (λ k. none) (λ k. refl) tt

abbrev waited : Run
unfolding Takes owns_mutex owns_thread_mutex owns_allocator MayLeave signals_behind threads_behind
waited =
    act waits 1 (finalizing collection) true true none (some 1) (Edge.may_collect refl) awake refl
      refl (λ k. none) (λ k. refl) tt

abbrev asks : Run
unfolding Takes owns_mutex owns_thread_mutex owns_allocator MayLeave signals_behind threads_behind
asks =
    act waited 1 asking true true none none Edge.has_waited awake refl refl (λ k. none) (λ k. refl)
      tt

abbrev begins : Run
unfolding Takes owns_mutex owns_thread_mutex owns_allocator MayLeave signals_behind threads_behind
begins =
    act asks 1 beginning true true (some 1) (some 1) Edge.locks_all awake (refl, refl) (refl, refl)
      (λ k. some 1) (λ k. (refl, refl)) tt

abbrev stores : Run
unfolding Takes owns_mutex owns_thread_mutex owns_allocator MayLeave signals_behind threads_behind
stores =
    act begins 1 signalling false true (some 1) (some 1) Edge.stores_unfinished awake refl refl
      (λ k. some 1) (λ k. refl) tt

abbrev suspends : Run
unfolding Takes owns_mutex owns_thread_mutex owns_allocator MayLeave signals_behind threads_behind
suspends =
    act stores 1 suspending false true none (some 1) Edge.signals_threads awake refl refl
      (λ k. some 1) (λ k. refl) tt

abbrev owns : Run
unfolding Takes owns_mutex owns_thread_mutex owns_allocator MayLeave signals_behind threads_behind
    contains
owns =
    act suspends 2 testing false true (some 2) (some 1) Edge.wait_locks awake_pending (refl, refl)
      refl (λ k. some 1) (λ k. refl) tt

-- Thread 2 takes `m_mutex` before the signal is delivered to it.
stopped : Steps start (record owns.0 { signal = update owns.0.signal 2 handling })
unfolding owns signals_behind threads_behind contains
stopped = then_step owns.0 _ owns.1 (handles 2 refl)

abbrev halted : Run
unfolding signals_behind threads_behind contains
halted = (record owns.0 { signal = update owns.0.signal 2 handling }, stopped)

all_paused : (u : ℕ) → Memᴰ u (1 ∷ 2 ∷ []) → u ≢ 1 → update owns.0.signal 2 handling u ≡ handling
all_paused u m d = elim (Memᴰ.cases_cons m) [
  | inl e ↦ absurd (d e)
  | inr r ↦ rw (Memᴰ.eq_of_singleton r) refl
]

-- Thread 1 sees that thread 2 has paused.
abbrev paused : Waits
paused = record halted.0 { place = update halted.0.place 1 relocking }

after : Steps halted.0 paused
unfolding Takes owns_mutex owns_thread_mutex owns_allocator MayLeave signals_behind threads_behind
    contains
after = then_step halted.0 _ no_steps (
    moves 1 suspending relocking false true (some 2) (some 1) (λ k. some 1) refl awake
      Edge.sees_paused refl refl (λ k. refl) all_paused)

changes_excluded_example :
    ((t : ℕ)
      → (suspends.0.place t ≢ guarded)
        × (suspends.0.place t ≢ adding)
        × (suspends.0.place t ≢ removing))
    × ((x : Waits) → Step suspends.0 x → x.m_threads ≡ suspends.0.m_threads)
unfolding suspends
changes_excluded_example = changes_excluded start suspends.0 1 start-IsInitial suspends.1 refl

stopped_owner_blocks_example :
    (is_open (paused.place 1) ≡ true)
    × (paused.signal 2 ≡ handling)
    × (paused.m_collect_finished ≡ false)
unfolding halted owns
stopped_owner_blocks_example =
    stopped_owner_blocks start halted.0 paused 1 2 start-IsInitial halted.1 refl refl refl after

stopped_empty_handed_example :
    (owns_thread_mutex (halted.0.place 2) ≡ false)
    × ((k : ℕ) → owns_allocator k (halted.0.place 2) ≡ false)
unfolding halted owns
stopped_empty_handed_example = stopped_empty_handed start halted.0 2 start-IsInitial halted.1 refl
