-- ===== src/Suspending.antt =====
-- How a collection stops and resumes threads on Windows: `_u_suspend_threads` and `_u_resume_threads` of
-- cgc1/src/global_kernel_state.cpp, their part for Windows. What the system answers is a parameter. A
-- context is the list of its registers in the order of the loop, with the place of the stack pointer.
pub mod Balanced
use cgc.Base.{
  ℕ, zero, suc, ◌+◌, Bool, true, false, ◌⊎◌, inl, inr, Option, none, some, List, [], ◌∷◌,
  if◌then◌else◌, ◌==◌,
}
use cgc.Thread.{ThreadState, set_stack_ptr, set_in_signal_handler, add_potential_root}

-- `SuspendThread` answers 0, a positive or a negative number.
pub data Answer : Type 0 where
  suspends was_suspended refuses : Answer

pub data Register : Type 0 where
  rsp : Register
  value : ℕ → Register

pub record Context : Type 0 where
  pub stack : ℕ
  pub registers : List Register

-- By the handle of a thread: what `SuspendThread` answers to each attempt, what `GetThreadContext` gives,
-- and whether `ResumeThread` answers a number that is not negative.
pub record Windows : Type 0 where
  pub suspend_thread : ℕ → ℕ → Answer
  pub get_context : ℕ → Option Context
  pub resume_thread : ℕ → Bool

-- How a call does not return; `out_of_range` is an iterator behind the end, and `halts_itself` the end of a
-- thread's steps in `SuspendThread`, called on itself.
pub data Halt : Type 0 where
  terminates throws out_of_range halts_itself : Halt

abbrev pub and_then : {A B : Type 0} → Halt ⊎ A → (A → Halt ⊎ B) → Halt ⊎ B
and_then (inl h) k = inl h
and_then (inr a) k = k a

-- The loop over the attempts, with the number of those left: whether the thread is suspended by it. The
-- thread `me` calls.
-- The mutexes that are given up for a moment behind a refusal are left out.
unfoldable pub try_suspend : ℕ → (ℕ → Answer) → ℕ → ℕ → ThreadState → Halt ⊎ (Bool × ThreadState)
try_suspend me answer i zero t = inr (false, t)
try_suspend me answer i (suc n) t = elim (answer i) [
  | suspends ↦
      if t.thread_id == me then inl halts_itself else inr (true, set_in_signal_handler true t)
  | was_suspended ↦ inl terminates
  | refuses ↦ try_suspend me answer (i + 1) n t
]

-- The loop over the registers.
unfoldable pub add_registers : List Register → ThreadState → Halt ⊎ ThreadState
add_registers [] t = inr t
add_registers (rsp ∷ rs) t = add_registers rs t
add_registers (value v ∷ rs) t = elim (add_potential_root v t) [
  | none ↦ inl throws
  | some u ↦ add_registers rs u
]

unfoldable pub read_context : Option Context → ThreadState → Halt ⊎ ThreadState
read_context none t = inl terminates
read_context (some c) t =
    if c.stack == 0 then inl terminates else add_registers c.registers (set_stack_ptr c.stack t)

-- The body of the loop over the threads.
unfoldable pub suspend_one : Windows → ℕ → ThreadState → Halt ⊎ (Bool × ThreadState)
suspend_one os me t = and_then (try_suspend me (os.suspend_thread t.thread_handle) 0 5000 t) (λ r.
    if r.1.in_signal_handler
    then and_then (read_context (os.get_context t.thread_handle) r.1) (λ u. inr (r.0, u))
    else inl terminates)

-- The handles of the threads that were suspended, and the states behind.
unfoldable pub suspend_each : Windows → ℕ → List ThreadState → Halt ⊎ (List ℕ × List ThreadState)
suspend_each os me [] = inr ([], [])
suspend_each os me (t ∷ ts) = and_then (suspend_one os me t) (λ r.
    and_then (suspend_each os me ts)
      (λ s. inr ((if r.0 then t.thread_handle ∷ s.0 else s.0), r.1 ∷ s.1)))

-- `_u_suspend_threads`, which begins behind the first of `m_threads`.
unfoldable pub u_suspend_threads :
    Windows → ℕ → List ThreadState → Halt ⊎ (List ℕ × List ThreadState)
u_suspend_threads os me [] = inl out_of_range
u_suspend_threads os me (t ∷ ts) = and_then (suspend_each os me ts) (λ s. inr (s.0, t ∷ s.1))

-- `_u_resume_threads`, called by the thread `me`.
unfoldable pub u_resume_threads :
    Windows → ℕ → List ThreadState → Halt ⊎ (List ℕ × List ThreadState)
u_resume_threads os me [] = inr ([], [])
u_resume_threads os me (t ∷ ts) =
    let rest = u_resume_threads os me ts in
    if t.thread_id == me
    then and_then rest (λ s. inr (s.0, t ∷ s.1))
    else if os.resume_thread t.thread_handle
    then and_then rest
        (λ s. inr (t.thread_handle ∷ s.0, set_in_signal_handler false (set_stack_ptr 0 t) ∷ s.1))
    else inl terminates
