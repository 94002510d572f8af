-- ===== src/Thread/Stopped.antt =====
-- Threads that are stopped, and what a look-up by id finds among them.
use mathlib.Core.List.Memᴰ
use cgc.Base.{
  ℕ, ◌+◌, ◌-◌, ◌*◌, ◌/◌, ◌<◌, ◌≡◌, ◌≢◌, refl, sym, ap, subst, inl, inr, none, some, List, [], ◌∷◌,
  Memᴰ, All, Bool-cases, ◌==◌,
}
use cgc.Thread.{ThreadState, clear_potential_roots}
use cgc.Thread.Scan.{slots}
use cgc.Thread.Gather.{tlks, clear_roots_of}

abbrev pub slot_count : ThreadState → ℕ
slot_count t = (t.top_of_stack - t.stack_ptr) / 8

-- The slots of the thread's stack.
abbrev pub stack_slots : ThreadState → List ℕ
stack_slots t = slots t.stack_ptr (slot_count t)

-- The thread is stopped: its stack pointer and its top of stack are set, aligned, and in order, and its
-- stack has fewer slots than the scan has rounds.
pub record IsStopped (align : ℕ → ℕ) (rounds : ℕ) (t : ThreadState) : Type 0 where
  pub stack_set : t.stack_ptr ≢ 0
  pub top_set : t.top_of_stack ≢ 0
  pub aligned : align t.stack_ptr ≡ t.stack_ptr
  pub whole : t.top_of_stack ≡ t.stack_ptr + 8 * slot_count t
  pub enough : slot_count t < rounds

pub some-same {ℓ} : {A : Type ℓ} (x y : A) → some x ≡ some y → x ≡ y
some-same x y h = cc

module _ (align : ℕ → ℕ) (rounds : ℕ) where
  cleared-IsStopped :
      (t : ThreadState)
      → IsStopped align rounds t
      → IsStopped align rounds (clear_potential_roots t)
  unfolding clear_potential_roots
  cleared-IsStopped t s = record {
    stack_set = s.stack_set;
    top_set = s.top_set;
    aligned = s.aligned;
    whole = s.whole;
    enough = s.enough;
  }

  pub clear_roots_of-IsStopped :
      (id : ℕ) (ts : List ThreadState)
      → All (IsStopped align rounds) ts
      → All (IsStopped align rounds) (clear_roots_of id ts)
  unfolding clear_roots_of
  clear_roots_of-IsStopped id [] h = tt
  clear_roots_of-IsStopped id (t ∷ ts) h = elim (Bool-cases (t.thread_id == id)) [
    | inl hit ↦ rw hit (cleared-IsStopped t h.0, h.1)
    | inr miss ↦ rw miss (h.0, clear_roots_of-IsStopped id ts h.1)
  ]

  pub tlks-IsStopped :
      (id : ℕ) (ts : List ThreadState) (t : ThreadState)
      → All (IsStopped align rounds) ts
      → tlks id ts ≡ some t
      → IsStopped align rounds t
  unfolding tlks
  tlks-IsStopped id [] t h e = cc
  tlks-IsStopped id (u ∷ ts) t h e = elim (Bool-cases (u.thread_id == id)) [
    | inl hit ↦ let p : u ≡ t = some-same u t (rw hit at e) in subst (IsStopped align rounds) p h.0
    | inr miss ↦ tlks-IsStopped id ts t h.1 (rw miss at e)
  ]

-- Clearing the potential roots of a thread leaves every thread its stack.
pub tlks-clear_roots_of :
    (id other : ℕ) (ts : List ThreadState) (t : ThreadState)
    → tlks other ts ≡ some t
    → (u : ThreadState) × (tlks other (clear_roots_of id ts) ≡ some u)
      × (stack_slots u ≡ stack_slots t)
unfolding tlks clear_roots_of clear_potential_roots
tlks-clear_roots_of id other [] t e = absurd (let h : none ≡ some t = e in cc)
tlks-clear_roots_of id other (x ∷ ts) t e = elim (Bool-cases (x.thread_id == other)) [
  | inl hit ↦
      let p : x ≡ t = some-same x t (rw hit at e) in
      elim (Bool-cases (x.thread_id == id)) [
        | inl here ↦ (clear_potential_roots x, rw (here, hit), ap stack_slots p)
        | inr there ↦ (x, rw (there, hit), ap stack_slots p)
      ]
  | inr miss ↦ elim (Bool-cases (x.thread_id == id)) [
    | inl here ↦ (t, rw (here, miss) (rw miss at e), refl)
    | inr there ↦
        let (u, a, b) = tlks-clear_roots_of id other ts t (rw miss at e) in
        (u, rw (there, miss) a, b)
  ]
]

pub clear_roots_of-tlks :
    (id other : ℕ) (ts : List ThreadState) (t : ThreadState)
    → tlks other (clear_roots_of id ts) ≡ some t
    → (u : ThreadState) × (tlks other ts ≡ some u)
      × (stack_slots t ≡ stack_slots u)
      × ((a : ℕ) → Memᴰ a t.potential_roots → Memᴰ a u.potential_roots)
unfolding tlks clear_roots_of clear_potential_roots
clear_roots_of-tlks id other [] t e = cc
clear_roots_of-tlks id other (x ∷ ts) t e = elim (Bool-cases (x.thread_id == id)) [
  | inl here ↦ elim (Bool-cases (x.thread_id == other)) [
    | inl hit ↦
        let p : clear_potential_roots x ≡ t = some-same _ t (rw (here, hit) at e) in
        (
          x,
          rw hit,
          ap stack_slots (sym p),
          λ a i.
              absurd
                (Memᴰ.not-nil (subst (λ (s : ThreadState). Memᴰ a s.potential_roots) (sym p) i)),
        )
    | inr miss ↦ (t, rw miss (rw (here, miss) at e), refl, λ a i. i)
  ]
  | inr there ↦ elim (Bool-cases (x.thread_id == other)) [
    | inl hit ↦ (t, rw hit (rw (there, hit) at e), refl, λ a i. i)
    | inr miss ↦
        let (u, a, b, c) = clear_roots_of-tlks id other ts t (rw (there, miss) at e) in
        (u, rw miss a, b, c)
  ]
]
