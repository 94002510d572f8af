-- ===== src/Examples/Spawned.antt =====
-- Two constructors of threads: pthread makes the thread of the first and refuses that of the second.
use cgc.Base.{◌≡◌, refl, false, true, ℕ}
use cgc.Spawning.{
  idle, Spawns, make_details, destroy, go_to, start, call_run, makes, starts, calls, Steps, done,
  then_step, joinable, join,
}
use cgc.Spawning.Runs.{IsHeldOnce, block_one_holder}

abbrev none_begun : Spawns
none_begun = record { blocks = λ d. false; stage = λ n. idle; misused = false }

abbrev two_begun : Spawns
two_begun = make_details 1 200 (make_details 0 100 none_begun)

abbrev one_runs : Spawns
one_runs = call_run 0 100 (start 0 100 0 (start 1 200 11 two_begun))

two_constructors : Steps none_begun one_runs
unfolding make_details start call_run go_to destroy
two_constructors =
    then_step
      (then_step
        (then_step (then_step (then_step done (makes 0 100 refl refl)) (makes 1 200 refl refl))
          (starts 1 200 11 refl))
        (starts 0 100 0 refl))
      (calls 0 100 refl)

block_one_holder_example : (one_runs.misused ≡ false) × ((d : ℕ) → IsHeldOnce one_runs d)
block_one_holder_example =
    block_one_holder none_begun one_runs (λ n. refl, λ d. refl, refl) two_constructors

refused_is_free : (one_runs.blocks 200 ≡ false) × (one_runs.blocks 100 ≡ true)
unfolding make_details start call_run go_to destroy
refused_is_free = (refl, refl)

joined_twice : let (ended, t) = join 0 (record { m_native_handle = 7 }) in joinable t ≡ true
unfolding join joinable
joined_twice = refl
