-- ===== src/Protocol/Schedule.antt =====
-- Runs of the collector thread and the collecting thread: the steps in the order in which the threads
-- take them.
use cgc.Base.{ℕ, ◌+◌, ◌-◌, Bool, true, false, not, Option, none, some, List, [], ◌∷◌, if◌then◌else◌}
use cgc.Protocol.{
  Phase, clears, marks, sweeps, resumes, asleep, stopped, Collector, notifies, awaits, inspects,
  dozing, rising, joins, gone, System, worker_step, collector_step, shutdown_step,
}

pub data Move : Type 0 where
  -- The collector thread, the collecting thread, and the choice to shut down.
  works_on collects_on shuts_down : Move

unfoldable pub step : Move → System → Option System
step works_on s = worker_step s
step collects_on s = collector_step s
step shuts_down s = shutdown_step s

-- The steps one after the other; `none` if one of them is not possible.
unfoldable pub steps : List Move → System → Option System
steps [] s = some s
steps (m ∷ ms) s = elim (step m s) [ none ↦ none | some t ↦ steps ms t ]

abbrev same_phase : Phase → Phase → Bool
same_phase clears clears = true
same_phase marks marks = true
same_phase sweeps sweeps = true
same_phase resumes resumes = true
same_phase p q = false

-- The collecting thread has requested the phase and has not seen that it is done.
abbrev pub waits_for : Phase → Collector → Bool
waits_for p c = elim c [
  | notifies q ↦ same_phase p q
  | awaits q ↦ same_phase p q
  | inspects q ↦ same_phase p q
  | dozing q ↦ same_phase p q
  | rising q ↦ same_phase p q
  | _ ↦ false
]

-- The step in which the collecting thread sees that finalization is done.
abbrev pub finishes : Move → System → Bool
finishes works_on s = false
finishes shuts_down s = false
finishes collects_on s = elim s.at_collector [
  | inspects p ↦ elim p [ resumes ↦ s.finalization_done | _ ↦ false ]
  | _ ↦ false
]

-- How often a run sees that finalization is done.
abbrev pub times_seen : List Move → System → ℕ
times_seen [] s = 0
times_seen (m ∷ ms) s =
    (if finishes m s then 1 else 0) + elim (step m s) [ none ↦ 0 | some t ↦ times_seen ms t ]

-- How many collections a run from the constructor on has seen finished: the first time, it is the
-- constructor that has set `m_finalization_done`.
abbrev pub collections : List Move → System → ℕ
collections ms s = times_seen ms s - 1

-- `shutdown` is behind `join`, and the collector thread has ended.
abbrev pub is_over : System → Bool
is_over s = elim s.at_collector [
  | gone ↦ elim s.at_worker [ stopped ↦ true | _ ↦ false ]
  | _ ↦ false
]

-- `shutdown` waits in `join`, and the collector thread sleeps before clearing.
abbrev pub is_hung : System → Bool
is_hung s = elim s.at_collector [
  | joins ↦ elim s.at_worker [ asleep p ↦ elim p [ clears ↦ not s.run | _ ↦ false ] | _ ↦ false ]
  | _ ↦ false
]
