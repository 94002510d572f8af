-- ===== src/Examples/Stopping.antt =====
-- A collection in a program with one other thread.
use cgc.Base.{ℕ, ◌≡◌, refl, inl, Bool, true, false, [], ◌∷◌, All}
use cgc.World.{
  Mutator, runs, signalled, waits, Stage, idle, spins, relocks, collects, signals, World, starts,
  sends, sent, pauses, sees_paused, relocked, Reached, begins, goes,
}
use cgc.World.Stopped.{world_stopped}

abbrev world : Stage → Mutator → ℕ → ℕ → Bool → World
world stage m paused resumed finished = record {
  stage = stage;
  mutators = m ∷ [];
  num_paused_threads = paused;
  num_resumed_threads = resumed;
  num_collections = 0;
  collect_finished = finished;
}

all_running : Reached (world idle runs 4 9 true)
all_running =
    begins (world idle runs 4 9 true)
      (record { is_idle = refl; no_collection = refl; is_finished = refl; all_run = (refl, tt) })

begun : Reached (world (signals 1) runs 0 0 false)
begun = goes (world idle runs 4 9 true) _ all_running (starts refl (inl refl))

told : Reached (world (signals 0) signalled 0 0 false)
told = goes (world (signals 1) runs 0 0 false) _ begun (sends 0 [] [] refl refl)

all_told : Reached (world spins signalled 0 0 false)
all_told = goes (world (signals 0) signalled 0 0 false) _ told (sent refl)

waiting : Reached (world spins waits 1 0 false)
waiting = goes (world spins signalled 0 0 false) _ all_told (pauses [] [] refl)

locking : Reached (world relocks waits 1 0 false)
locking = goes (world spins waits 1 0 false) _ waiting (sees_paused refl refl)

collecting : Reached (world collects waits 1 0 false)
collecting = goes (world relocks waits 1 0 false) _ locking (relocked refl)

world_stopped_example : All (λ m. m ≡ waits) (waits ∷ [])
world_stopped_example = world_stopped (world collects waits 1 0 false) collecting refl
