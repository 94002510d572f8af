-- ===== src/Sweep/Finalized.antt =====
-- One round of the loops of `_finalize` and `do_local_sparse_finalization`.
use mathlib.Core.List.{append-nil}
use cgc.Base.{
  ℕ, ◌+◌, ◌-◌, ◌≤◌, ◌≡◌, ap, false, not, ◌&&◌, none, some, List, [], ◌∷◌, ◌++◌, ◌==◌, ==_refl,
  if◌then◌else◌, arith,
}
use cgc.Heap.{ObjectHeader, Layout}
use cgc.Sweep.{
  UserData, Event, runs, deletes, zeroes, Finalizing, release, finalize_state, finalize_local_state,
}
use cgc.Sweep.Trace.{
  calls, destroyed, deletions, calls-append, destroyed-append, deletions-append, data_of,
  finalizer_of, is_special, specials, freed, due, due_here, hidden,
}

module _ (H : ObjectHeader) (L : Layout) (states : ℕ → H.State) (user_data : ℕ → UserData) where
  abbrev pub step : ℕ → Finalizing → Finalizing
  step = finalize_state H L states user_data

  abbrev pub local_step : ℕ → Finalizing → Finalizing
  local_step = finalize_local_state H L states user_data

  module _ (os : ℕ) (z : Finalizing) where
    pub step_special :
        (step os z).special_finalization
        ≡ z.special_finalization ++ specials H L states user_data (os ∷ [])
    unfolding finalize_state release
    step_special = ground (arith, append-nil z.special_finalization)

    pub step-freed : (step os z).to_be_freed ≡ z.to_be_freed ++ freed H L states user_data (os ∷ [])
    unfolding finalize_state release
    step-freed = ground (arith, append-nil z.to_be_freed)

    -- What the loop body does for the object.
    abbrev emitted : List Event
    emitted =
        let ud = H.user_data (states os) in
        let start = L.object_start os in
        let own = zeroes start (L.object_end os - start) ∷ [] in
        if not (ud == 0) && not (data_of H L states user_data os).is_default
        then elim (data_of H L states user_data os).finalizer [
          | none ↦ deletes ud ∷ own
          | some f ↦
              if (data_of H L states user_data os).allow_arbitrary_finalizer_thread
              then runs f start ∷ deletes ud ∷ deletes ud ∷ own
              else []
        ]
        else own

    step_events : (step os z).events ≡ z.events ++ emitted
    unfolding finalize_state release
    step_events = ground (arith, append-nil z.events)

    pub calls-step :
        calls (step os z).events ≡ calls z.events ++ due_here H L states user_data (os ∷ [])
    calls-step =
        rw (step_events, calls-append z.events emitted) (ap (◌++◌ (calls z.events)) (ground arith))

    pub destroyed-step : destroyed (step os z).events ≡ destroyed z.events
    destroyed-step =
        let e : destroyed emitted ≡ [] = ground arith in
        rw (step_events, destroyed-append z.events emitted, e) (append-nil (destroyed z.events))

    -- The user data of an object whose finalizer may run in any thread.
    pub deletions-step :
        (f : ℕ)
        → finalizer_of H L states user_data os ≡ some f
        → is_special H L states user_data os ≡ false
        → deletions (H.user_data (states os)) (step os z).events
          ≡ deletions (H.user_data (states os)) z.events + 2
    deletions-step f e a =
        rw (step_events, deletions-append (H.user_data (states os)) z.events emitted)
          (ap (◌+◌ (deletions (H.user_data (states os)) z.events))
            (ground (arith, ==_refl (H.user_data (states os)))))

    pub step_keeps : (p : ℕ) → deletions p z.events ≤ deletions p (step os z).events
    step_keeps p = rw (step_events, deletions-append p z.events emitted) (omega arith)

    pub local_special : (local_step os z).special_finalization ≡ z.special_finalization
    unfolding finalize_local_state release
    local_special = ground arith

    pub local_freed :
        (local_step os z).to_be_freed ≡ z.to_be_freed ++ hidden H L states user_data (os ∷ [])
    unfolding finalize_local_state release
    local_freed = ground arith

    abbrev local_emitted : List Event
    local_emitted =
        let ud = H.user_data (states os) in
        let start = L.object_start os in
        let own = zeroes start (L.object_end os - start) ∷ [] in
        if not (ud == 0) && not (data_of H L states user_data os).is_default
        then elim (data_of H L states user_data os).finalizer [
          | none ↦ deletes ud ∷ own
          | some f ↦ runs f start ∷ deletes ud ∷ own
        ]
        else own

    local_events : (local_step os z).events ≡ z.events ++ local_emitted
    unfolding finalize_local_state release
    local_events = ground arith

    pub local_calls :
        calls (local_step os z).events ≡ calls z.events ++ due H L states user_data (os ∷ [])
    local_calls =
        rw (local_events, calls-append z.events local_emitted)
          (ap (◌++◌ (calls z.events)) (ground arith))

    pub local_destroyed : destroyed (local_step os z).events ≡ destroyed z.events
    local_destroyed =
        let e : destroyed local_emitted ≡ [] = ground arith in
        rw (local_events, destroyed-append z.events local_emitted, e)
          (append-nil (destroyed z.events))
