-- ===== src/Protocol.antt =====
-- cgc1/src/gc_thread.cpp, `_run` and the members by which the collecting thread drives it, with the one
-- collector thread that the kernel starts. The threads take turns in any order; a step is what a thread
-- does under the mutex, or one access to an atomic flag without it. A wait releases the mutex and falls
-- asleep in one step, and is woken by a notification only.
pub mod Schedule
pub mod Codes
pub mod States
pub mod Explored
pub mod Correct
use cgc.Base.{Bool, true, false, not, Option, none, some, List, [], ◌∷◌, if◌then◌else◌}

-- The waits of `_run` and what follows them: clearing, marking, sweeping, and finalizing once all
-- threads have resumed.
pub data Phase : Type 0 where
  clears marks sweeps resumes : Phase

-- Where `_run` is. It holds the mutex while it tests and works.
pub data Worker : Type 0 where
  -- Before `while (m_run)`, and behind it, before the mutex.
  outside entering : Worker
  tests asleep waking works : Phase → Worker
  stopped : Worker

-- Where the collecting thread is. It holds the mutex in `inspects` only.
pub data Collector : Type 0 where
  -- `reset` at the start of a collection.
  prepares : Collector
  -- `m_do_… = true`, and the notification behind it.
  requests notifies : Phase → Collector
  -- `wait_until_…_finished`: before the mutex, at the test, asleep, and woken.
  awaits inspects dozing rising : Phase → Collector
  -- `shutdown`: `m_run = false`, `wake_up`, `join`, and behind it.
  stops wakes joins gone : Collector

pub data Holder : Type 0 where
  nobody worker collector : Holder

-- The flags of `gc_thread_t`, the mutex and the two threads.
pub record System : Type 0 where
  pub at_worker : Worker
  pub at_collector : Collector
  pub mutex : Holder
  pub run : Bool
  pub do_clear : Bool
  pub do_mark : Bool
  pub do_sweep : Bool
  pub do_all_threads_resumed : Bool
  pub clear_done : Bool
  pub mark_done : Bool
  pub sweep_done : Bool
  pub finalization_done : Bool

-- After the constructor: nothing is requested and finalization counts as done.
abbrev pub constructed : System
constructed = record {
  at_worker = outside;
  at_collector = awaits resumes;
  mutex = nobody;
  run = true;
  do_clear = false;
  do_mark = false;
  do_sweep = false;
  do_all_threads_resumed = false;
  clear_done = false;
  mark_done = false;
  sweep_done = false;
  finalization_done = true;
}

abbrev pub requested : Phase → System → Bool
requested clears s = s.do_clear
requested marks s = s.do_mark
requested sweeps s = s.do_sweep
requested resumes s = s.do_all_threads_resumed

abbrev pub set_requested : Phase → Bool → System → System
set_requested clears b s = record s { do_clear = b }
set_requested marks b s = record s { do_mark = b }
set_requested sweeps b s = record s { do_sweep = b }
set_requested resumes b s = record s { do_all_threads_resumed = b }

abbrev pub is_done : Phase → System → Bool
is_done clears s = s.clear_done
is_done marks s = s.mark_done
is_done sweeps s = s.sweep_done
is_done resumes s = s.finalization_done

abbrev pub set_done : Phase → System → System
set_done clears s = record s { clear_done = true }
set_done marks s = record s { mark_done = true }
set_done sweeps s = record s { sweep_done = true }
set_done resumes s = record s { finalization_done = true }

-- `notify_all` on the condition variable that the worker waits on before the phase.
abbrev pub notify_worker : Phase → Worker → Worker
notify_worker clears (asleep clears) = waking clears
notify_worker marks (asleep marks) = waking marks
notify_worker sweeps (asleep sweeps) = waking sweeps
notify_worker resumes (asleep resumes) = waking resumes
notify_worker p w = w

-- `notify_all` on the condition variable for the end of the phase.
abbrev pub notify_collector : Phase → Collector → Collector
notify_collector clears (dozing clears) = rising clears
notify_collector marks (dozing marks) = rising marks
notify_collector sweeps (dozing sweeps) = rising sweeps
notify_collector resumes (dozing resumes) = rising resumes
notify_collector p c = c

abbrev is_free : Holder → Bool
is_free nobody = true
is_free worker = false
is_free collector = false

-- Behind the work of a phase the worker goes on to the next test, or to the end of the loop body, where
-- the guard releases the mutex.
abbrev behind : Phase → System → System
behind clears s = record s { at_worker = tests marks }
behind marks s = record s { at_worker = tests sweeps }
behind sweeps s = record s { at_worker = tests resumes }
behind resumes s = record s { at_worker = outside; mutex = nobody }

-- Of a worker that is woken: it has the mutex again. In the loop before clearing it tests `m_run` first.
abbrev woken : Phase → System → System
woken clears s =
    if s.run
    then record s { at_worker = tests clears; mutex = worker }
    else record s { at_worker = stopped }
woken p s = record s { at_worker = tests p; mutex = worker }

-- One step of `_run`; `none` if it cannot go on.
unfoldable pub worker_step : System → Option System
worker_step s = elim s.at_worker [
  | outside ↦ some (record s { at_worker = if s.run then entering else stopped })
  | entering ↦
      if is_free s.mutex then some (record s { at_worker = tests clears; mutex = worker }) else none
  | tests p ↦
      if requested p s
      then some (set_requested p false (record s { at_worker = works p }))
      else some (record s { at_worker = asleep p; mutex = nobody })
  | asleep p ↦ none
  | waking p ↦ if is_free s.mutex then some (woken p s) else none
  | works p ↦
      some (behind p (set_done p (record s { at_collector = notify_collector p s.at_collector })))
  | stopped ↦ none
]

-- What the collecting thread does once a phase is finished: it requests the next one; after
-- finalization it may start the next collection.
abbrev proceeds : Phase → Collector
proceeds clears = requests marks
proceeds marks = requests sweeps
proceeds sweeps = requests resumes
proceeds resumes = prepares

-- `wake_up` takes the mutex for the notification, the other notifications do not.
abbrev notification : Phase → System → Option System
notification clears s =
    if is_free s.mutex
    then some
        (record s { at_worker = notify_worker clears s.at_worker; at_collector = awaits clears })
    else none
notification p s =
    some (record s { at_worker = notify_worker p s.at_worker; at_collector = awaits p })

-- `reset`.
unfoldable pub reset : System → System
reset s = record s {
  clear_done = false;
  mark_done = false;
  sweep_done = false;
  finalization_done = false;
  do_clear = false;
  do_mark = false;
  do_sweep = false;
  do_all_threads_resumed = false;
}

-- One step of the collecting thread.
unfoldable pub collector_step : System → Option System
unfolding reset
collector_step s = elim s.at_collector [
  | prepares ↦
      if is_free s.mutex then some (reset (record s { at_collector = requests clears })) else none
  | requests p ↦ some (set_requested p true (record s { at_collector = notifies p }))
  | notifies p ↦ notification p s
  | awaits p ↦
      if is_free s.mutex
      then some (record s { at_collector = inspects p; mutex = collector })
      else none
  | inspects p ↦
      if is_done p s
      then some (record s { at_collector = proceeds p; mutex = nobody })
      else some (record s { at_collector = dozing p; mutex = nobody })
  | dozing p ↦ none
  | rising p ↦
      if is_free s.mutex
      then some (record s { at_collector = inspects p; mutex = collector })
      else none
  | stops ↦ some (record s { run = false; at_collector = wakes })
  | wakes ↦
      if is_free s.mutex
      then some (record s { at_worker = notify_worker clears s.at_worker; at_collector = joins })
      else none
  | joins ↦ elim s.at_worker [ stopped ↦ some (record s { at_collector = gone }) | _ ↦ none ]
  | gone ↦ none
]

-- Between two collections the thread may be shut down instead.
unfoldable pub shutdown_step : System → Option System
shutdown_step s = elim s.at_collector [
  | prepares ↦ some (record s { at_collector = stops })
  | _ ↦ none
]
