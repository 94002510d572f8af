-- ===== src/Waits/Blocked.antt =====
-- A collection that stops a thread which owns the mutex never goes on.
use cgc.Base.{
  ℕ, ◌≡◌, refl, sym, ap, ◌∙◌, ◌⊎◌, inl, inr, Bool, true, false, Option, none, List, ◌==◌,
  Bool-cases, ==_iff, ==-ne,
}
use cgc.Waits.{
  Place, signalling, Signal, handling, Waits, owns_mutex, Takes, Edge, signals_behind, Step, moves,
  handles, resumes, Steps, no_steps, then_step, IsInitial,
}
use cgc.Waits.Owners.{is_open, differ, some_injective, open_stopping}
use cgc.Waits.Excluded.{Inv, Step-Inv, IsInitial-Inv, Steps-Inv}

open_moves :
    {f c g d : Bool} {p q : Place}
    → Edge f c p q g d
    → is_open p ≡ true
    → (is_open q ≡ true) ⊎ ((owns_mutex p ≡ false) × (owns_mutex q ≡ true))
unfolding owns_mutex
open_moves Edge.sees_paused h = inl refl
open_moves Edge.locks_again h = inr (refl, refl)
open_moves e h = cc

signals_edge :
    (p : Place) (t u : ℕ) (ts : List ℕ) (s : ℕ → Signal)
    → (signals_behind p t ts s u ≡ s u) ⊎ (owns_mutex p ≡ true)
unfolding signals_behind owns_mutex
signals_edge signalling t u ts s = inr refl
signals_edge p t u ts s = inl refl

Takes-needs_free :
    (t : ℕ) (a b : Bool) (m n : Option ℕ) → Takes t a b m n → a ≡ false → b ≡ true → m ≡ none
unfolding Takes
Takes-needs_free t false true m n k h e = k.0
Takes-needs_free t true b m n k h e = cc
Takes-needs_free t false false m n k h e = cc

-- Thread `u` waits in `_u_suspend_threads`, and thread `t` owns `m_mutex` in the handler.
record IsBlocked (u t : ℕ) (w : Waits) : Type 0 where
  is_invariant : Inv w
  suspends : is_open (w.place u) ≡ true
  holds : owns_mutex (w.place t) ≡ true
  sleeps : w.signal t ≡ handling

Step-IsBlocked : {u t : ℕ} {w v : Waits} → Step w v → IsBlocked u t w → IsBlocked u t v
Step-IsBlocked {u} {t} {w} (moves a p q f c m n al e awake k km kn ka ready) b =
    let owner = b.is_invariant.mutex_owned t b.holds in
    let here : (a == t) ≡ false = ==-ne a t (λ same. awake (ap w.signal same ∙ b.sleeps)) in
    record {
      is_invariant = Step-Inv (moves a p q f c m n al e awake k km kn ka ready) b.is_invariant;
      suspends = elim (Bool-cases (a == u)) [
        | inl same ↦
            elim (open_moves k (
              sym (ap is_open e)
              ∙ ap (λ i. is_open (w.place i)) ((==_iff a u).0 same)
              ∙ b.suspends)) [
                | inl o ↦ rw same o
                | inr (before, after) ↦
                    let free =
                      Takes-needs_free a (owns_mutex p) (owns_mutex q) w.m_mutex m km before
                        after in
                    cc
              ]
        | inr other ↦ rw other b.suspends
      ];
      holds = rw here b.holds;
      sleeps = elim (signals_edge p a t w.m_threads w.signal) [
        | inl same ↦ same ∙ b.sleeps
        | inr owns ↦ absurd (
            differ a t here
              (some_injective (b.is_invariant.mutex_owned a (ap owns_mutex e ∙ owns)) owner))
      ];
    }
Step-IsBlocked {u} {t} {w} (handles a s) b = record {
  is_invariant = Step-Inv (handles a s) b.is_invariant;
  suspends = b.suspends;
  holds = b.holds;
  sleeps = elim (Bool-cases (a == t)) [ inl same ↦ rw same | inr other ↦ rw other b.sleeps ];
}
Step-IsBlocked {u} {t} {w} (resumes a s f) b =
    let g = b.is_invariant.unfinished u (open_stopping (w.place u) b.suspends) in absurd (cc)

Steps-IsBlocked : {u t : ℕ} {w v : Waits} → Steps w v → IsBlocked u t w → IsBlocked u t v
Steps-IsBlocked no_steps b = b
Steps-IsBlocked (then_step v x r s) b = Step-IsBlocked s (Steps-IsBlocked r b)

-- In every run of any number of threads from the constructor on: if a collecting thread is in
-- `_u_suspend_threads` without `m_mutex`, and a thread that owns `m_mutex` has been stopped in the
-- handler, then whatever steps follow, the collecting thread is still there, the other thread still
-- in the handler, and `m_collect_finished` stays false.
pub stopped_owner_blocks :
    (w v x : Waits) (u t : ℕ)
    → IsInitial w
    → Steps w v
    → is_open (v.place u) ≡ true
    → owns_mutex (v.place t) ≡ true
    → v.signal t ≡ handling
    → Steps v x
    → (is_open (x.place u) ≡ true) × (x.signal t ≡ handling) × (x.m_collect_finished ≡ false)
stopped_owner_blocks w v x u t i r o m s l =
    let b = Steps-IsBlocked l (record {
      is_invariant = Steps-Inv r (IsInitial-Inv w i);
      suspends = o;
      holds = m;
      sleeps = s;
    }) in
    (b.suspends, b.sleeps, b.is_invariant.unfinished u (open_stopping (x.place u) b.suspends))
