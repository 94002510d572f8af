-- ===== src/Collectors.antt =====
-- cgc1/src/global_kernel_state.cpp, which thread may collect: the guards of `collect` and `force_collect`
-- with the flag `m_collect`, and `on_allocation_failure`. The work of a collection between the guards and
-- the end of `force_collect` is in the other modules.
pub mod Exclusive
use cgc.Base.{ℕ, ◌≡◌, Bool, true, false, ◌&&◌, not, List, [], ◌∷◌, if◌then◌else◌, ltb}
use cgc.Heap.{update}

-- Where a thread is with regard to `force_collect`: not in it, in the loop that waits for another thread,
-- behind the exchange of `m_collect` in `wait_for_finalization`, where it runs finalizers that are bound to
-- threads, in the loop of a call of `force_collect` by such a finalizer, and behind
-- `wait_for_finalization`.
pub data Mode : Type 0 where
  outside waiting finalizing nested collecting : Mode

-- `m_collect`, and each thread by its id.
pub record Collectors : Type 0 where
  pub m_collect : Bool
  pub mode : ℕ → Mode

-- How far the beginning of `force_collect` comes.
pub data Entered : Type 0 where
  terminates returns waits begins : Entered

-- Where a thread waits that finds `m_collect` set.
unfoldable pub waiting_from : Mode → Mode
waiting_from finalizing = nested
waiting_from m = waiting

-- `force_collect` up to the exchange of `m_collect`. `has_state` says that the thread is registered.
unfoldable pub force_collect : Bool → Bool → ℕ → Collectors → Entered × Collectors
force_collect has_state is_enabled t c =
    if not has_state
    then (terminates, c)
    else if not is_enabled
    then (returns, c)
    else if c.m_collect
    then (waits, record c { mode = update c.mode t (waiting_from (c.mode t)) })
    else (begins, record { m_collect = true; mode = update c.mode t finalizing })

-- `collect`, with `finalization_finished` of the collector threads.
unfoldable pub collect : List Bool → Bool → Bool → ℕ → Collectors → Entered × Collectors
collect [] has_state is_enabled t c = force_collect has_state is_enabled t c
collect (finished ∷ rest) has_state is_enabled t c =
    if not finished then (returns, c) else collect rest has_state is_enabled t c

-- The action that `on_allocation_failure` answers: whether the allocation is retried.
unfoldable pub on_allocation_failure :
    ℕ → Bool → Bool → ℕ → Collectors → Bool × Entered × Collectors
on_allocation_failure failures has_state is_enabled t c =
    let (entered, d) = force_collect has_state is_enabled t c in (ltb failures 5, entered, d)

-- The end of the loop that waits.
unfoldable pub back_from : Mode → Mode
back_from nested = finalizing
back_from m = outside

-- What the threads do, one after the other.
pub data Act (c : Collectors) : Collectors → Type 0 where
  -- A thread calls one of the functions, from the program or from a finalizer.
  calls :
      (t : ℕ) (finished : List Bool) (has_state is_enabled : Bool)
      → c.mode t ≡ outside
      → Act c (collect finished has_state is_enabled t c).1
  finalizer_calls :
      (t : ℕ) (finished : List Bool) (has_state is_enabled : Bool)
      → c.mode t ≡ finalizing
      → Act c (collect finished has_state is_enabled t c).1
  -- The loop of a waiting thread finds `m_collect` clear.
  notices :
      (t : ℕ)
      → c.mode t ≡ waiting
      → c.m_collect ≡ false
      → Act c (record c { mode = update c.mode t (back_from (c.mode t)) })
  finalizer_notices :
      (t : ℕ)
      → c.mode t ≡ nested
      → c.m_collect ≡ false
      → Act c (record c { mode = update c.mode t (back_from (c.mode t)) })
  locks : (t : ℕ) → c.mode t ≡ finalizing → Act c (record c { mode = update c.mode t collecting })
  -- `m_collect = false`.
  ends :
      (t : ℕ)
      → c.mode t ≡ collecting
      → Act c (record { m_collect = false; mode = update c.mode t outside })

-- From one state to another in any number of acts.
pub data Acts (c : Collectors) : Collectors → Type 0 where
  none_more : Acts c c
  then_act : (d e : Collectors) → Acts c d → Act d e → Acts c e
