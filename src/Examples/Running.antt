-- ===== src/Examples/Running.antt =====
-- Runs of the collector thread and the collecting thread.
use cgc.Base.{
  ℕ, zero, suc, ◌+◌, ◌*◌, ◌≤◌, ◌≡◌, refl, ◌⊎◌, true, false, Option, none, some, List, [], ◌∷◌,
  length,
}
use cgc.Protocol.{
  clears, entering, asleep, works, notifies, stops, joins, worker, System, constructed, worker_step,
  collector_step, shutdown_step, reset,
}
use cgc.Protocol.Schedule.{
  Move, works_on, collects_on, shuts_down, step, steps, waits_for, collections, is_hung,
}
use cgc.Protocol.Correct.{phases_exclude, collections_finish, no_deadlock, shutdown_hangs}

-- The state that the moves lead to, or the first state.
abbrev after : Option System → System
after none = constructed
after (some s) = s

-- The collecting thread sees that finalization is done and starts a collection; the collector thread
-- takes the request.
abbrev clearing : List Move
clearing =
    collects_on ∷ collects_on ∷ collects_on ∷ collects_on ∷ works_on ∷ works_on ∷ works_on ∷ []

abbrev at_clear : System
at_clear = record constructed {
  at_worker = works clears;
  at_collector = notifies clears;
  mutex = worker;
  finalization_done = false;
}

clearing_leads : steps clearing constructed ≡ some at_clear
unfolding steps step worker_step collector_step reset
clearing_leads = refl

phases_exclude_example : waits_for clears at_clear.at_collector ≡ true
phases_exclude_example = phases_exclude clearing at_clear clears clearing_leads refl

no_deadlock_example :
    ((u : System) × (step works_on at_clear ≡ some u))
    ⊎ ((u : System) × (step collects_on at_clear ≡ some u))
no_deadlock_example = no_deadlock clearing at_clear clearing_leads refl

-- The collector thread waits behind `while (m_run)` when the shutdown starts.
abbrev late : List Move
late =
    works_on ∷ collects_on ∷ collects_on ∷ shuts_down ∷ collects_on ∷ collects_on ∷ works_on
    ∷ works_on ∷ []

abbrev hung : System
hung = record constructed { at_worker = asleep clears; at_collector = joins; run = false }

late_leads : steps late constructed ≡ some hung
unfolding steps step worker_step collector_step shutdown_step
late_leads = refl

stuck : (step works_on hung ≡ none) × (step collects_on hung ≡ none)
unfolding step worker_step collector_step
stuck = (refl, refl)

abbrev stopping : System
stopping = record constructed { at_worker = entering; at_collector = stops }

shutdown_hangs_example :
    (t : System) × (steps (collects_on ∷ collects_on ∷ works_on ∷ works_on ∷ []) stopping ≡ some t)
    × (is_hung t ≡ true)
    × (step works_on t ≡ none)
    × (step collects_on t ≡ none)
shutdown_hangs_example = shutdown_hangs stopping refl refl refl refl

-- The thread that can go on does, the collector thread first.
abbrev greedy : ℕ → System → List Move
greedy zero s = []
greedy (suc n) s = elim (step works_on s) [
  | some t ↦ works_on ∷ greedy n t
  | none ↦ elim (step collects_on s) [ none ↦ [] | some t ↦ collects_on ∷ greedy n t ]
]

abbrev long : List Move
long = greedy 60 constructed

seen : collections long constructed ≡ 1
unfolding step worker_step collector_step shutdown_step reset
seen = refl

long_leads : steps long constructed ≡ some (after (steps long constructed))
unfolding steps step worker_step collector_step shutdown_step reset
long_leads = refl

collections_finish_example : length long ≤ 50 + 46 * collections long constructed
collections_finish_example = collections_finish long (after (steps long constructed)) long_leads
