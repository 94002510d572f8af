-- ===== src/Suspending/Balanced.antt =====
-- What is suspended and resumed where the system does what it is asked for.
use cgc.Base.{
  Bool, ==_refl, ℕ, suc, ◌+◌, ◌≤◌, ◌≡◌, ◌≢◌, refl, sym, ap, ◌∙◌, true, false, inl, inr, some, List,
  [], ◌∷◌, ◌++◌, map, All, Bool-cases, if◌then◌else◌, ◌==◌, ==-ne, length, length-append, arith,
}
use mathlib.Core.List.{append_assoc, append-nil}
use cgc.Thread.{ThreadState, set_stack_ptr, set_in_signal_handler, add_potential_root}
use cgc.Suspending.{
  halts_itself, Answer, suspends, refuses, Register, rsp, value, Context, Windows, try_suspend,
  add_registers, read_context, suspend_one, suspend_each, u_suspend_threads, u_resume_threads,
}

-- Of the attempts from `i` on, of which `n` are left, one succeeds, and those before it are refused.
pub data Yields (answer : ℕ → Answer) : ℕ → ℕ → Type 0 where
  at_once : {i n : ℕ} → answer i ≡ suspends → Yields answer i (suc n)
  later : {i n : ℕ} → answer i ≡ refuses → Yields answer (i + 1) n → Yields answer i (suc n)

try_suspend-Yields :
    (me : ℕ) (answer : ℕ → Answer) (t : ThreadState) {i n : ℕ}
    → t.thread_id == me ≡ false
    → Yields answer i n
    → try_suspend me answer i n t ≡ inr (true, set_in_signal_handler true t)
unfolding try_suspend
try_suspend-Yields me answer t o (at_once e) = rw (e, o, try_suspend) refl
try_suspend-Yields me answer t o (later e y) =
    rw (e, try_suspend) (try_suspend-Yields me answer t o y)

try_suspend_itself :
    (me : ℕ) (answer : ℕ → Answer) (t : ThreadState) {i n : ℕ}
    → t.thread_id == me ≡ true
    → Yields answer i n
    → try_suspend me answer i n t ≡ inl halts_itself
unfolding try_suspend
try_suspend_itself me answer t o (at_once e) = rw (e, o, try_suspend) refl
try_suspend_itself me answer t o (later e y) =
    rw (e, try_suspend) (try_suspend_itself me answer t o y)

-- The words of all registers but the stack pointer.
abbrev pub words : List Register → List ℕ
words [] = []
words (rsp ∷ rs) = words rs
words (value v ∷ rs) = v ∷ words rs

room :
    (v : ℕ) (l : List ℕ) (t : ThreadState)
    → length t.potential_roots + suc (length l) ≤ t.root_capacity
    → add_potential_root v t ≡ some (record t { potential_roots = t.potential_roots ++ v ∷ [] })
unfolding add_potential_root
room v l t h = rw (==-ne (length t.potential_roots) t.root_capacity (λ e. omega (arith, e, h))) refl

add_registers-words :
    (rs : List Register) (t : ThreadState)
    → length t.potential_roots + length (words rs) ≤ t.root_capacity
    → add_registers rs t ≡ inr (record t { potential_roots = t.potential_roots ++ words rs })
unfolding add_registers
add_registers-words [] t h =
    ap (λ l. inr (record t { potential_roots = l })) (sym (append-nil t.potential_roots))
add_registers-words (rsp ∷ rs) t h = add_registers-words rs t h
add_registers-words (value v ∷ rs) t h =
    let roots = t.potential_roots in
    let u : ThreadState = record t { potential_roots = roots ++ v ∷ [] } in
    rw (room v (words rs) t h, add_registers)
      (add_registers-words rs u (omega (arith, h, length-append roots (v ∷ [])))
        ∙ ap (λ l. inr (record t { potential_roots = l })) (append_assoc roots (v ∷ []) (words rs)))

-- What the system does for a thread, whose context is `c`: `SuspendThread` succeeds within 5000 attempts,
-- the context has a stack, the vector of potential roots has room for the registers, and `ResumeThread`
-- succeeds.
pub record Cooperates (os : Windows) (c : ThreadState → Context) (t : ThreadState) : Type 0 where
  pub yields : Yields (os.suspend_thread t.thread_handle) 0 5000
  pub gives : os.get_context t.thread_handle ≡ some (c t)
  pub has_stack : (c t).stack ≢ 0
  pub has_room : length t.potential_roots + length (words (c t).registers) ≤ t.root_capacity
  pub resumes : os.resume_thread t.thread_handle ≡ true

-- A thread that is suspended with the context `c`.
abbrev pub stopped : (ThreadState → Context) → ThreadState → ThreadState
stopped c t = record t {
  stack_ptr = (c t).stack;
  in_signal_handler = true;
  potential_roots = t.potential_roots ++ words (c t).registers;
}

-- The thread is one of the list.
abbrev pub is_among : ℕ → List ThreadState → Bool
is_among me [] = false
is_among me (t ∷ ts) = if t.thread_id == me then true else is_among me ts

-- A thread that has been suspended with the context `c` and resumed.
abbrev pub resumed : (ThreadState → Context) → ThreadState → ThreadState
resumed c t = record t {
  stack_ptr = 0;
  in_signal_handler = false;
  potential_roots = t.potential_roots ++ words (c t).registers;
}

module _ (os : Windows) (c : ThreadState → Context) (me : ℕ) where
  one_stopped :
      (t : ThreadState)
      → t.thread_id == me ≡ false
      → Cooperates os c t
      → suspend_one os me t ≡ inr (true, stopped c t)
  unfolding suspend_one read_context set_in_signal_handler set_stack_ptr
  one_stopped t o k =
      let u : ThreadState = record t { stack_ptr = (c t).stack; in_signal_handler = true } in
      rw (try_suspend-Yields me (os.suspend_thread t.thread_handle) t o k.yields) (
        rw (k.gives, ==-ne (c t).stack 0 k.has_stack)
          (rw (add_registers-words (c t).registers u k.has_room) refl))

  itself_stopped :
      (t : ThreadState)
      → t.thread_id == me ≡ true
      → Cooperates os c t
      → suspend_one os me t ≡ inl halts_itself
  unfolding suspend_one
  itself_stopped t o k =
      rw (try_suspend_itself me (os.suspend_thread t.thread_handle) t o k.yields) refl

  each_stopped :
      (ts : List ThreadState)
      → All (Cooperates os c) ts
      → suspend_each os me ts ≡ (
          if is_among me ts
          then inl halts_itself
          else inr (map (λ t. t.thread_handle) ts, map (stopped c) ts))
  unfolding suspend_each
  each_stopped [] k = refl
  each_stopped (t ∷ ts) k = elim (Bool-cases (t.thread_id == me)) [
    | inl y ↦ rw (y, itself_stopped t y k.0) refl
    | inr o ↦ elim (Bool-cases (is_among me ts)) [
      | inl later_on ↦ rw (o, one_stopped t o k.0, each_stopped ts k.1, later_on) refl
      | inr nowhere ↦ rw (o, one_stopped t o k.0, each_stopped ts k.1, nowhere) refl
    ]
  ]

  each_resumed :
      (ts : List ThreadState)
      → is_among me ts ≡ false
      → All (Cooperates os c) ts
      → u_resume_threads os me (map (stopped c) ts)
        ≡ inr (map (λ t. t.thread_handle) ts, map (resumed c) ts)
  unfolding u_resume_threads set_in_signal_handler set_stack_ptr
  each_resumed [] n k = refl
  each_resumed (t ∷ ts) n k = elim (Bool-cases (t.thread_id == me)) [
    | inl y ↦ absurd (ground (arith, n, y))
    | inr o ↦ rw (o, (k.0).resumes, each_resumed ts (ground (arith, n, o)) k.1) refl
  ]

  -- Where the system does what it is asked for, for each of `m_threads` behind the first:
  -- `_u_suspend_threads` never returns to a collecting thread `me` that is among these, which suspends
  -- itself; and to any other it returns, having suspended, once, exactly the threads behind the first, each
  -- with the stack pointer and the words of its own registers.
  pub threads_suspended :
      (t : ThreadState) (ts : List ThreadState)
      → All (Cooperates os c) ts
      → u_suspend_threads os me (t ∷ ts) ≡ (
          if is_among me ts
          then inl halts_itself
          else inr (map (λ u. u.thread_handle) ts, t ∷ map (stopped c) ts))
  unfolding u_suspend_threads
  threads_suspended t ts k = elim (Bool-cases (is_among me ts)) [
    | inl y ↦ rw (each_stopped ts k, y) refl
    | inr o ↦ rw (each_stopped ts k, o) refl
  ]

  -- Where the system does what it is asked for and the collecting thread is the first of `m_threads` and no
  -- other: `_u_suspend_threads` returns, and `_u_resume_threads` on what it leaves returns as well and
  -- has resumed, once, exactly the threads that were suspended, in this order, each without a stack pointer
  -- and out of the handler. The collecting thread is as before.
  pub threads_resumed :
      (t : ThreadState) (ts : List ThreadState)
      → t.thread_id ≡ me
      → is_among me ts ≡ false
      → All (Cooperates os c) ts
      → (handles : List ℕ) × (states : List ThreadState) × (u_suspend_threads os me (t ∷ ts)
          ≡ inr (handles, states))
        × (u_resume_threads os me states ≡ inr (handles, t ∷ map (resumed c) ts))
  unfolding u_resume_threads
  threads_resumed t ts first others k =
      let e : t.thread_id == me ≡ true = rw first (==_refl me) in
      (
        map (λ u. u.thread_handle) ts,
        t ∷ map (stopped c) ts,
        threads_suspended t ts k ∙ (rw others refl),
        rw (e, each_resumed ts others k) refl,
      )
