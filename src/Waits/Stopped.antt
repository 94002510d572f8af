-- ===== src/Waits/Stopped.antt =====
-- A thread that is stopped in the handler owns neither the mutex of an allocator nor that of the threads.
use cgc.Base.{
  ℕ, ◌≡◌, ◌≢◌, sym, ap, ◌∙◌, inl, inr, Bool, true, false, Memᴰ, ◌==◌, nat_eq, Bool-cases, ==_refl,
  ==_iff, ==-ne,
}
use cgc.Heap.{update}
use cgc.Waits.{
  Place, pending, handling, Waits, owns_thread_mutex, owns_allocator, Edge, threads_behind,
  signals_behind, MayLeave, Step, moves, handles, resumes, Steps, no_steps, then_step, IsInitial,
}
use cgc.Waits.Owners.{Owned, some_injective, Takes-Owned}
use cgc.Waits.Excluded.{Inv, Step-Inv, IsInitial-Inv, threads_kept}
use cgc.Waits.Sending.{
  is_suspending, suspending_owns, suspending_move, pending_move, sending_move, handling_edge,
}

record Sent (w : Waits) : Type 0 where
  basic : Inv w
  allocators_owned : (k : ℕ) → Owned (owns_allocator k) w.place (w.allocator_mutex k)
  sender :
      (t : ℕ)
      → w.signal t ≡ pending
      → (u : ℕ) × (is_suspending (w.place u) ≡ true) × Memᴰ t w.m_threads × (t ≢ u)
  empty_handed :
      (t : ℕ)
      → w.signal t ≡ handling
      → (owns_thread_mutex (w.place t) ≡ false) × ((k : ℕ) → owns_allocator k (w.place t) ≡ false)

-- A thread that the collecting thread waits for owns none of its mutexes.
delivered_empty :
    (w : Waits) (t u : ℕ)
    → Sent w
    → is_suspending (w.place u) ≡ true
    → t ≢ u
    → (owns_thread_mutex (w.place t) ≡ false) × ((k : ℕ) → owns_allocator k (w.place t) ≡ false)
delivered_empty w t u h s n =
    let (_, threads, allocators) = suspending_owns (w.place u) s in
    (
      elim (Bool-cases (owns_thread_mutex (w.place t))) [
        | inl a ↦
            absurd
              (n (some_injective (h.basic.threads_owned t a) (h.basic.threads_owned u threads)))
        | inr a ↦ a
      ],
      λ k. elim (Bool-cases (owns_allocator k (w.place t))) [
        | inl a ↦
            absurd (
              n (some_injective (h.allocators_owned k t a) (h.allocators_owned k u (allocators k))))
        | inr a ↦ a
      ],
    )

module _ (w : Waits) (h : Sent w) (a : ℕ) (p q : Place) (g d : Bool) (e : w.place a ≡ p)
    (awake : w.signal a ≢ handling) (k : Edge w.m_collect_finished w.m_collect p q g d)
    (ready : MayLeave p a w.m_threads w.signal) where
  moved_sender :
      (t : ℕ)
      → signals_behind p a w.m_threads w.signal t ≡ pending
      → (u : ℕ) × (is_suspending (update w.place a q u) ≡ true) × Memᴰ t w.m_threads × (t ≢ u)
  moved_sender t s = elim (pending_move a t w.m_threads w.signal k s) [
    | inl old ↦
        let (u, there, known, other) = h.sender t old in
        (
          u,
          elim (Bool-cases (a == u)) [
            | inl same ↦
                let here : is_suspending p ≡ true =
                  sym (ap is_suspending e)
                  ∙ ap (λ i. is_suspending (w.place i)) ((==_iff a u).0 same)
                  ∙ there in
                let f =
                  suspending_move a t w.m_threads w.signal k here ready known
                    (λ b. other (b ∙ (==_iff a u).0 same)) in
                cc
            | inr apart ↦ rw apart there
          ],
          known,
          other,
        )
    | inr (there, known, other) ↦ (a, rw (==_refl a) there, known, other)
  ]

  moved_empty :
      (t : ℕ)
      → signals_behind p a w.m_threads w.signal t ≡ handling
      → (owns_thread_mutex (update w.place a q t) ≡ false)
        × ((j : ℕ) → owns_allocator j (update w.place a q t) ≡ false)
  moved_empty t s =
      let asleep = handling_edge p a t w.m_threads w.signal s in
      let apart : (a == t) ≡ false = ==-ne a t (λ same. awake (ap w.signal same ∙ asleep)) in
      rw apart (h.empty_handed t asleep)

Step-Sent : {w v : Waits} → Step w v → Sent w → Sent v
Step-Sent {w} (moves a p q f c m n al e awake k km kn ka ready) h = record {
  basic = Step-Inv (moves a p q f c m n al e awake k km kn ka ready) h.basic;
  allocators_owned = λ j.
      Takes-Owned (owns_allocator j) w.place a p q (w.allocator_mutex j) (al j) e (ka j)
        (h.allocators_owned j);
  sender = λ t s.
      let (u, there, known, other) = moved_sender w h a p q f c e awake k ready t s in
      let same =
        elim (pending_move a t w.m_threads w.signal k s)
          as (λ z. threads_behind p a w.m_threads ≡ w.m_threads) [
            | inl old ↦
                let (v, before, x, y) = h.sender t old in
                threads_kept w _ v h.basic (suspending_owns (w.place v) before).0
                  (moves a p q f c m n al e awake k km kn ka ready)
            | inr (now, x, y) ↦ sending_move a w.m_threads k now
          ] in
      (u, there, rw same known, other);
  empty_handed = moved_empty w h a p q f c e awake k ready;
}
Step-Sent {w} (handles a s) h = record {
  basic = Step-Inv (handles a s) h.basic;
  allocators_owned = h.allocators_owned;
  sender = λ t e. elim (Bool-cases (a == t)) [
    | inl same ↦ let f = (rw same at e) in absurd (cc)
    | inr other ↦ h.sender t (rw other at e)
  ];
  empty_handed = λ t e. elim (Bool-cases (a == t)) [
    | inl same ↦
        let (u, there, known, other) = h.sender a s in
        rw (sym ((==_iff a t).0 same)) (delivered_empty w a u h there other)
    | inr other ↦ h.empty_handed t (rw other at e)
  ];
}
Step-Sent {w} (resumes a s f) h = record {
  basic = Step-Inv (resumes a s f) h.basic;
  allocators_owned = h.allocators_owned;
  sender = λ t e. elim (Bool-cases (a == t)) [
    | inl same ↦ let f = (rw same at e) in absurd (cc)
    | inr other ↦ h.sender t (rw other at e)
  ];
  empty_handed = λ t e. elim (Bool-cases (a == t)) [
    | inl same ↦ let f = (rw same at e) in absurd (cc)
    | inr other ↦ h.empty_handed t (rw other at e)
  ];
}

IsInitial-Sent : (w : Waits) → IsInitial w → Sent w
unfolding owns_allocator
IsInitial-Sent w h = record {
  basic = IsInitial-Inv w h;
  allocators_owned = λ k u b. let o = ap (owns_allocator k) (h.all_outside u) in cc;
  sender = λ t e. let o = h.none_sent t in absurd (cc);
  empty_handed = λ t e. let o = h.none_sent t in absurd (cc);
}

Steps-Sent : {w v : Waits} → Steps w v → Sent w → Sent v
Steps-Sent no_steps h = h
Steps-Sent (then_step v u r s) h = Step-Sent s (Steps-Sent r h)

-- In every run of any number of threads from the constructor on: a thread that is stopped in the handler
-- owns neither `m_thread_mutex` nor the mutex of any allocator.
pub stopped_empty_handed :
    (w v : Waits) (t : ℕ)
    → IsInitial w
    → Steps w v
    → v.signal t ≡ handling
    → (owns_thread_mutex (v.place t) ≡ false) × ((k : ℕ) → owns_allocator k (v.place t) ≡ false)
stopped_empty_handed w v t i r s = (Steps-Sent r (IsInitial-Sent w i)).empty_handed t s
