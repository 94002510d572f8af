-- ===== src/Examples/Suspended.antt =====
-- Two threads on Windows; the first suspension of the second is refused.
use cgc.Base.{inl, List, ℕ, ◌≡◌, refl, zero, suc, true, inr, some, [], ◌∷◌, map, arith}
use cgc.Thread.{ThreadState, new_thread_state}
use cgc.Suspending.{
  Answer, suspends, refuses, rsp, value, Context, halts_itself, Windows, u_suspend_threads,
  u_resume_threads,
}
use cgc.Suspending.Balanced.{
  at_once, later, Cooperates, resumed, threads_suspended, threads_resumed,
}

abbrev context : Context
context = record { stack = 4096; registers = value 5 ∷ rsp ∷ value 6 ∷ [] }

abbrev answer : ℕ → Answer
answer zero = refuses
answer (suc n) = suspends

abbrev os : Windows
os = record {
  suspend_thread = λ handle. answer;
  get_context = λ handle. some context;
  resume_thread = λ handle. true;
}

abbrev first_thread : ThreadState
first_thread = record (new_thread_state 1 11) { root_capacity = 2 }

abbrev second_thread : ThreadState
second_thread = record (new_thread_state 2 22) { root_capacity = 2 }

second_Cooperates : Cooperates os (λ t. context) second_thread
unfolding new_thread_state
second_Cooperates = record {
  yields = later refl (at_once refl);
  gives = refl;
  has_stack = omega arith;
  has_room = omega arith;
  resumes = refl;
}

threads_suspended_example :
    u_suspend_threads os 2 (first_thread ∷ second_thread ∷ []) ≡ inl halts_itself
unfolding new_thread_state
threads_suspended_example =
    threads_suspended os (λ t. context) 2 first_thread (second_thread ∷ []) (second_Cooperates, tt)

threads_resumed_example :
    (handles : List ℕ) × (states : List ThreadState) × (u_suspend_threads os 1
        (first_thread ∷ second_thread ∷ [])
      ≡ inr (handles, states))
    × (u_resume_threads os 1 states
        ≡ inr (handles, first_thread ∷ map (resumed (λ t. context)) (second_thread ∷ [])))
unfolding new_thread_state
threads_resumed_example =
    threads_resumed os (λ t. context) 1 first_thread (second_thread ∷ []) refl refl
      (second_Cooperates, tt)
