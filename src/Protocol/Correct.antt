-- ===== src/Protocol/Correct.antt =====
-- What holds in every run of the collector thread and the collecting thread, in whichever order they
-- take their steps.
use cgc.Base.{
  ℕ, suc, ◌+◌, ◌*◌, ◌≤◌, ◌≡◌, refl, subst, ◌⊎◌, inl, inr, true, false, Bool-cases, none, some,
  Option-cases, List, [], ◌∷◌, length, if◌then◌else◌, leb, arith,
}
use cgc.Protocol.{
  Phase, clears, entering, asleep, works, stops, joins, nobody, System, constructed, worker_step,
  collector_step,
}
use cgc.Protocol.Schedule.{
  Move, works_on, collects_on, step, steps, waits_for, finishes, times_seen, collections, is_over,
  is_hung,
}
use cgc.Protocol.Explored.{find, Listed, find-Listed}

-- A run that starts at a listed state ends at one, and its length is bounded.
record Ran (ms : List Move) (s t : System) (r : ℕ) : Type 0 where
  bound : ℕ
  listed : find t ≡ some bound
  short : length ms + bound ≤ r + 46 * times_seen ms s

Ran-cons :
    (m : Move) (ms : List Move) (s u t : System) (r q : ℕ)
    → step m s ≡ some u
    → leb (suc q) (r + (if finishes m s then 46 else 0)) ≡ true
    → Ran ms u t q
    → Ran (m ∷ ms) s t r
Ran-cons m ms s u t r q e l x = record {
  bound = x.bound;
  listed = x.listed;
  short = rw e (ground (arith, x.short));
}

some-same : (s t : System) → some s ≡ some t → s ≡ t
some-same s t h = cc

ran : (ms : List Move) (s t : System) (r : ℕ) → find s ≡ some r → steps ms s ≡ some t → Ran ms s t r
unfolding steps
ran [] s t r h e = record {
  bound = r;
  listed = subst (λ u. find u ≡ some r) (some-same s t e) h;
  short = omega arith;
}
ran (m ∷ ms) s t r h e = elim (Option-cases (step m s)) [
  | inl miss ↦ absurd (let no : none ≡ some t = (rw (miss, steps) at e) in cc)
  | inr (u, hit) ↦
      let (q, k, l) = (find-Listed s r h).steps_listed m u hit in
      Ran-cons m ms s u t r q hit l (ran ms u t q k (rw (hit, steps) at e))
]

from_start : (ms : List Move) (t : System) → steps ms constructed ≡ some t → Ran ms constructed t 4
from_start ms t e = ran ms constructed t 4 refl e

at_end :
    (ms : List Move) (t : System) (e : steps ms constructed ≡ some t)
    → Listed t (from_start ms t e).bound
at_end ms t e = find-Listed t (from_start ms t e).bound (from_start ms t e).listed

-- In every run from the constructor on, shutdown included: while the collector thread does the work of
-- a phase, the collecting thread has requested this phase and has not yet seen that it is done.
pub phases_exclude :
    (ms : List Move) (t : System) (p : Phase)
    → steps ms constructed ≡ some t
    → t.at_worker ≡ works p
    → waits_for p t.at_collector ≡ true
phases_exclude ms t p e w = rw w at (at_end ms t e).is_exclusive

-- A run from the constructor on has at most 50 steps and 46 for every collection of which the collecting
-- thread has seen that it is finished, in whichever order the threads take them; that the constructor says
-- so at first does not count.
pub collections_finish :
    (ms : List Move) (t : System)
    → steps ms constructed ≡ some t
    → length ms ≤ 50 + 46 * collections ms constructed
collections_finish ms t e = omega (arith, (from_start ms t e).short)

-- In every state that a run from the constructor on leads to before `shutdown` clears `m_run`, one of
-- the two threads can go on.
pub no_deadlock :
    (ms : List Move) (t : System)
    → steps ms constructed ≡ some t
    → t.run ≡ true
    → ((u : System) × (step works_on t ≡ some u)) ⊎ ((u : System) × (step collects_on t ≡ some u))
no_deadlock ms t e on =
    let h = (at_end ms t e).runs_on in
    elim (Option-cases (step works_on t)) [
      | inr go ↦ inl go
      | inl stuck ↦ elim (Option-cases (step collects_on t)) [
        | inr go ↦ inr go
        | inl blocked ↦ absurd (let no = (rw (stuck, blocked, on) at h) in cc)
      ]
    ]

-- If a run from the constructor on leads to a state in which neither thread can go on, then either
-- `shutdown` has joined the collector thread, or `shutdown` waits in `join` while the collector thread
-- sleeps before clearing.
pub stuck_ends :
    (ms : List Move) (t : System)
    → steps ms constructed ≡ some t
    → step works_on t ≡ none
    → step collects_on t ≡ none
    → (is_over t ≡ true) ⊎ (is_hung t ≡ true)
stuck_ends ms t e stuck blocked =
    let h = (at_end ms t e).goes_or_ends in
    elim (Bool-cases (is_over t)) [
      | inl over ↦ inl over
      | inr not_over ↦ inr (rw (stuck, blocked, not_over) at h)
    ]

-- If `shutdown` starts while the collector thread is behind `while (m_run)` but not yet in possession of
-- the free mutex, and no clearing is requested, then a possible run is: `shutdown` clears `m_run` and
-- notifies, and the collector thread then goes to sleep without another look at `m_run`. After it
-- neither thread can go on.
pub shutdown_hangs :
    (s : System)
    → s.at_worker ≡ entering
    → s.at_collector ≡ stops
    → s.mutex ≡ nobody
    → s.do_clear ≡ false
    → (t : System) × (steps (collects_on ∷ collects_on ∷ works_on ∷ works_on ∷ []) s ≡ some t)
      × (is_hung t ≡ true)
      × (step works_on t ≡ none)
      × (step collects_on t ≡ none)
unfolding steps step worker_step collector_step
shutdown_hangs s w c h d = (
  record s { run = false; at_worker = asleep clears; at_collector = joins; mutex = nobody },
  ground (arith, w, c, h, d),
  refl,
  refl,
  refl,
)
