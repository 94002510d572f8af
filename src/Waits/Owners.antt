-- ===== src/Waits/Owners.antt =====
-- Which thread owns a mutex, and what a step of the code does to that and to a collection under way.
use cgc.Base.{
  ℕ, ◌≡◌, ◌≢◌, refl, ap, ◌∙◌, ◌⊎◌, inl, inr, Bool, true, false, Option, some, ◌==◌, Bool-cases,
  ==_iff, arith,
}
use cgc.Heap.{update}
use cgc.Waits.{
  Place, guarded, signalling, suspending, relocking, working, closing, owns_mutex,
  owns_thread_mutex, Takes, Edge,
}

-- From the store that clears `m_collect_finished` to the one that sets it.
abbrev pub is_stopping : Place → Bool
is_stopping signalling = true
is_stopping suspending = true
is_stopping relocking = true
is_stopping working = true
is_stopping closing = true
is_stopping p = false

-- In `_u_suspend_threads` without `m_mutex`.
abbrev pub is_open : Place → Bool
is_open suspending = true
is_open relocking = true
is_open p = false

abbrev pub is_guarded : Place → Bool
is_guarded guarded = true
is_guarded p = false

-- Every thread that is where it owns a mutex is the owner.
abbrev pub Owned : (Place → Bool) → (ℕ → Place) → Option ℕ → Type 0
Owned owns place m = (u : ℕ) → owns (place u) ≡ true → m ≡ some u

pub Takes-self :
    (t : ℕ) (a b : Bool) (m n : Option ℕ)
    → Takes t a b m n
    → (a ≡ true → m ≡ some t)
    → b ≡ true
    → n ≡ some t
unfolding Takes
Takes-self t false true m n k h e = k.1
Takes-self t true true m n k h e = k ∙ h refl
Takes-self t a false m n k h e = cc

pub Takes-other :
    (t u : ℕ) (a b : Bool) (m n : Option ℕ)
    → Takes t a b m n
    → (a ≡ true → m ≡ some t)
    → t ≢ u
    → m ≡ some u
    → n ≡ some u
unfolding Takes
Takes-other t u false true m n k h d e = cc
Takes-other t u true false m n k h d e = let f = h refl in absurd (d cc)
Takes-other t u true true m n k h d e = k ∙ e
Takes-other t u false false m n k h d e = k ∙ e

pub some_injective : {t u : ℕ} {m : Option ℕ} → m ≡ some t → m ≡ some u → t ≡ u
some_injective e d = cc

-- A step of one thread keeps the owners.
pub Takes-Owned :
    (owns : Place → Bool) (place : ℕ → Place) (t : ℕ) (p q : Place) (m n : Option ℕ)
    → place t ≡ p
    → Takes t (owns p) (owns q) m n
    → Owned owns place m
    → Owned owns (update place t q) n
Takes-Owned owns place t p q m n e k h u b =
    let self : owns p ≡ true → m ≡ some t = λ d. h t (ap owns e ∙ d) in
    elim (Bool-cases (t == u)) [
      | inl here ↦
          Takes-self t (owns p) (owns q) m n k self (rw here at b) ∙ ap some ((==_iff t u).0 here)
      | inr other ↦
          Takes-other t u (owns p) (owns q) m n k self (ground (arith, other)) (h u (rw other at b))
    ]

-- What each step of the code does to the marks of the places.
pub stops_move :
    {f c g d : Bool} {p q : Place}
    → Edge f c p q g d
    → is_stopping q ≡ true
    → (g ≡ false) ⊎ ((is_stopping p ≡ true) × (g ≡ f))
stops_move Edge.stores_unfinished h = inl refl
stops_move Edge.signals_threads h = inr (refl, refl)
stops_move Edge.sees_paused h = inr (refl, refl)
stops_move Edge.locks_again h = inr (refl, refl)
stops_move Edge.has_swept h = inr (refl, refl)
stops_move e h = cc

pub finish_move :
    {f c g d : Bool} {p q : Place}
    → Edge f c p q g d
    → (g ≡ f) ⊎ (g ≡ false) ⊎ ((owns_mutex p ≡ true) × (owns_thread_mutex p ≡ true))
unfolding owns_mutex owns_thread_mutex
finish_move Edge.stores_unfinished = inr (inl refl)
finish_move Edge.stores_finished = inr (inr (refl, refl))
finish_move e = inl refl

pub guard_move : {f c g d : Bool} {p q : Place} → Edge f c p q g d → is_guarded q ≡ true → f ≡ true
guard_move (Edge.passes e) h = e
guard_move e h = cc

pub open_move :
    {f c g d : Bool} {p q : Place}
    → Edge f c p q g d
    → is_open q ≡ true
    → (is_open p ≡ true) ⊎ (owns_mutex p ≡ true)
unfolding owns_mutex
open_move Edge.signals_threads h = inr refl
open_move Edge.sees_paused h = inl refl
open_move e h = cc

pub stopping_owns :
    (p : Place)
    → is_stopping p ≡ true
    → (owns_mutex p ≡ true) ⊎ ((is_open p ≡ true) × (owns_thread_mutex p ≡ true))
unfolding owns_mutex owns_thread_mutex
stopping_owns signalling h = inl refl
stopping_owns suspending h = inr (refl, refl)
stopping_owns relocking h = inr (refl, refl)
stopping_owns working h = inl refl
stopping_owns closing h = inl refl
stopping_owns p h = cc

pub open_stopping : (p : Place) → is_open p ≡ true → is_stopping p ≡ true
open_stopping suspending h = refl
open_stopping relocking h = refl
open_stopping p h = cc

pub guarded_owns : (p : Place) → is_guarded p ≡ true → owns_mutex p ≡ true
unfolding owns_mutex
guarded_owns guarded h = refl
guarded_owns p h = cc

pub not_both : (p : Place) → is_open p ≡ true → is_guarded p ≡ true → ⊥
not_both guarded h g = cc
not_both p h g = cc

pub differ : (t u : ℕ) → (t == u) ≡ false → t ≡ u → ⊥
differ t u other same = ground (arith, other, same)
