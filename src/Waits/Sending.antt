-- ===== src/Waits/Sending.antt =====
-- What a step of the code does to the signals that are sent, pending and delivered.
use cgc.Base.{
  ℕ, ◌≡◌, ◌≢◌, refl, ◌⊎◌, inl, inr, Bool, true, false, ◌&&◌, not, List, Memᴰ, ◌==◌, contains,
  contains_iff, nat_eq, Bool-cases, arith,
}
use cgc.Waits.{
  Place, suspending, signalling, Signal, pending, handling, owns_thread_mutex, owns_allocator, Edge,
  threads_behind, signals_behind, MayLeave,
}
use cgc.Waits.Owners.{is_stopping, differ}

abbrev pub is_suspending : Place → Bool
is_suspending suspending = true
is_suspending p = false

pub suspending_owns :
    (p : Place)
    → is_suspending p ≡ true
    → (is_stopping p ≡ true) × (owns_thread_mutex p ≡ true) × ((k : ℕ) → owns_allocator k p ≡ true)
unfolding owns_thread_mutex owns_allocator
suspending_owns suspending h = (refl, refl, λ k. refl)
suspending_owns p h = cc

-- The loop of `_u_suspend_threads` is left only where all threads have paused.
pub suspending_move :
    {f c g d : Bool} {p q : Place} (t u : ℕ) (ts : List ℕ) (s : ℕ → Signal)
    → Edge f c p q g d
    → is_suspending p ≡ true
    → MayLeave p t ts s
    → Memᴰ u ts
    → u ≢ t
    → s u ≡ handling
unfolding MayLeave
suspending_move t u ts s Edge.sees_paused h m i n = m u i n
suspending_move t u ts s e h m i n = cc

both_parts : (a b : Bool) → (a && not b) ≡ true → (a ≡ true) × (b ≡ false)
both_parts true false h = (refl, refl)
both_parts a b h = cc

-- A signal is pending behind a step because the step sent it, or was so before.
pub pending_move :
    {f c g d : Bool} {p q : Place} (t u : ℕ) (ts : List ℕ) (s : ℕ → Signal)
    → Edge f c p q g d
    → signals_behind p t ts s u ≡ pending
    → (s u ≡ pending) ⊎ ((is_suspending q ≡ true) × Memᴰ u ts × (u ≢ t))
unfolding signals_behind
pending_move t u ts s Edge.signals_threads h = elim (Bool-cases (contains u ts && not (u == t))) [
  | inl sent ↦
      let (there, other) = both_parts (contains u ts) (u == t) sent in
      inr (refl, (contains_iff u ts).0 there, differ u t other)
  | inr kept ↦ inl (rw kept at h)
]
pending_move t u ts s e h = inl h

pub sending_move :
    {f c g d : Bool} {p q : Place} (t : ℕ) (ts : List ℕ)
    → Edge f c p q g d
    → is_suspending q ≡ true
    → threads_behind p t ts ≡ ts
unfolding threads_behind
sending_move t ts Edge.signals_threads h = refl
sending_move t ts e h = cc

pub handling_edge :
    (p : Place) (t u : ℕ) (ts : List ℕ) (s : ℕ → Signal)
    → signals_behind p t ts s u ≡ handling
    → s u ≡ handling
unfolding signals_behind
handling_edge signalling t u ts s h = ground (arith, h)
handling_edge p t u ts s h = h
