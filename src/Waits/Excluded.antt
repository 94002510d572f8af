-- ===== src/Waits/Excluded.antt =====
-- While a collection is under way, no thread is where roots or registered threads may be changed.
use cgc.Base.{ℕ, ◌≡◌, ◌≢◌, refl, ap, ◌∙◌, ◌⊎◌, inl, inr, Bool, true, false, List, ◌==◌, Bool-cases}
use cgc.Heap.{update}
use cgc.Waits.{
  Place, guarded, adding, removing, Waits, owns_mutex, owns_thread_mutex, Edge, threads_behind,
  Step, moves, handles, resumes, Steps, no_steps, then_step, IsInitial,
}
use cgc.Waits.Owners.{
  is_stopping, is_open, is_guarded, Owned, some_injective, Takes-Owned, stops_move, finish_move,
  guard_move, open_move, stopping_owns, open_stopping, guarded_owns, not_both, differ,
}

pub record Inv (w : Waits) : Type 0 where
  pub mutex_owned : Owned owns_mutex w.place w.m_mutex
  pub threads_owned : Owned owns_thread_mutex w.place w.m_thread_mutex
  pub unfinished : (u : ℕ) → is_stopping (w.place u) ≡ true → w.m_collect_finished ≡ false
  pub shut : (u v : ℕ) → is_open (w.place u) ≡ true → is_guarded (w.place v) ≡ true → ⊥

module _ (w : Waits) (h : Inv w) where
  pub same_owner : {u v : ℕ} → owns_mutex (w.place u) ≡ true → owns_mutex (w.place v) ≡ true → u ≡ v
  same_owner a b = some_injective (h.mutex_owned _ a) (h.mutex_owned _ b)

  -- Whoever owns both mutexes is the only one that can be in a collection.
  both_alone :
      (t u : ℕ)
      → owns_mutex (w.place t) ≡ true
      → owns_thread_mutex (w.place t) ≡ true
      → is_stopping (w.place u) ≡ true
      → t ≡ u
  both_alone t u a b s = elim (stopping_owns (w.place u) s) [
    | inl m ↦ same_owner a m
    | inr (o, m) ↦ some_injective (h.threads_owned t b) (h.threads_owned u m)
  ]

  apart :
      (u : ℕ)
      → is_stopping (w.place u) ≡ true
      → (t : ℕ) → is_stopping (w.place t) ≡ false
      → t ≡ u
      → ⊥
  apart u s t n same = let f = ap (λ i. is_stopping (w.place i)) same in cc

  module _ (t : ℕ) (p q : Place) (g d : Bool) (e : w.place t ≡ p)
      (k : Edge w.m_collect_finished w.m_collect p q g d) where
    moved_unfinished : (u : ℕ) → is_stopping (update w.place t q u) ≡ true → g ≡ false
    moved_unfinished u s = elim (Bool-cases (t == u)) [
      | inl here ↦ elim (stops_move k (rw here at s)) [
        | inl z ↦ z
        | inr (b, z) ↦ z ∙ h.unfinished t (ap is_stopping e ∙ b)
      ]
      | inr other ↦
          let still : is_stopping (w.place u) ≡ true = rw other at s in
          elim (finish_move k) [
            | inl z ↦ z ∙ h.unfinished u still
            | inr (inl z) ↦ z
            | inr (inr (a, b)) ↦ absurd (
                differ t u other
                  (both_alone t u (ap owns_mutex e ∙ a) (ap owns_thread_mutex e ∙ b) still))
          ]
    ]

    moved_shut :
        (u v : ℕ)
        → is_open (update w.place t q u) ≡ true
        → is_guarded (update w.place t q v) ≡ true
        → ⊥
    moved_shut u v o s = elim (Bool-cases (t == u)) [
      | inl here ↦ elim (Bool-cases (t == v)) [
        | inl same ↦ not_both q (rw here at o) (rw same at s)
        | inr other ↦
            let there : is_guarded (w.place v) ≡ true = rw other at s in
            elim (open_move k (rw here at o)) [
              | inl b ↦ h.shut t v (ap is_open e ∙ b) there
              | inr a ↦
                  differ t v other
                    (same_owner (ap owns_mutex e ∙ a) (guarded_owns (w.place v) there))
            ]
      ]
      | inr apart ↦
          let there : is_open (w.place u) ≡ true = rw apart at o in
          elim (Bool-cases (t == v)) [
            | inl same ↦
                let f = h.unfinished u (open_stopping (w.place u) there) in
                let g = guard_move k (rw same at s) in cc
            | inr other ↦ h.shut u v there (rw other at s)
          ]
    ]

pub Step-Inv : {w v : Waits} → Step w v → Inv w → Inv v
Step-Inv {w} (moves t p q f c m n al e awake k km kn ka ready) h = record {
  mutex_owned = Takes-Owned owns_mutex w.place t p q w.m_mutex m e km h.mutex_owned;
  threads_owned =
      Takes-Owned owns_thread_mutex w.place t p q w.m_thread_mutex n e kn h.threads_owned;
  unfinished = moved_unfinished w h t p q f c e k;
  shut = moved_shut w h t p q f c e k;
}
Step-Inv (handles t s) h = record {
  mutex_owned = h.mutex_owned;
  threads_owned = h.threads_owned;
  unfinished = h.unfinished;
  shut = h.shut;
}
Step-Inv (resumes t s f) h = record {
  mutex_owned = h.mutex_owned;
  threads_owned = h.threads_owned;
  unfinished = h.unfinished;
  shut = h.shut;
}

pub IsInitial-Inv : (w : Waits) → IsInitial w → Inv w
unfolding owns_mutex owns_thread_mutex
IsInitial-Inv w h = record {
  mutex_owned = λ u b. let o = ap owns_mutex (h.all_outside u) in cc;
  threads_owned = λ u b. let o = ap owns_thread_mutex (h.all_outside u) in cc;
  unfinished = λ u b. let o = ap is_stopping (h.all_outside u) in cc;
  shut = λ u v b g. let o = ap is_open (h.all_outside u) in cc;
}

pub Steps-Inv : {w v : Waits} → Steps w v → Inv w → Inv v
Steps-Inv no_steps h = h
Steps-Inv (then_step v u r s) h = Step-Inv s (Steps-Inv r h)

-- A step that changes the registered threads is made with both mutexes.
threads_edge :
    (p : Place) (t : ℕ) (ts : List ℕ)
    → (threads_behind p t ts ≡ ts)
      ⊎ ((owns_mutex p ≡ true) × (owns_thread_mutex p ≡ true) × (is_stopping p ≡ false))
unfolding threads_behind owns_mutex owns_thread_mutex
threads_edge adding t ts = inr (refl, refl, refl)
threads_edge removing t ts = inr (refl, refl, refl)
threads_edge p t ts = inl refl

pub threads_kept :
    (w v : Waits) (u : ℕ)
    → Inv w
    → is_stopping (w.place u) ≡ true
    → Step w v
    → v.m_threads ≡ w.m_threads
threads_kept w v u h s (moves t p q f c m n al e awake k km kn ka ready) =
    elim (threads_edge p t w.m_threads) [
      | inl z ↦ z
      | inr (a, b, z) ↦ absurd (
          apart w h u s t (ap is_stopping e ∙ z)
            (both_alone w h t u (ap owns_mutex e ∙ a) (ap owns_thread_mutex e ∙ b) s))
    ]
threads_kept w v u h s (handles t g) = refl
threads_kept w v u h s (resumes t g f) = refl

-- In every run of any number of threads from the constructor on: while a thread is in a collection,
-- from the store that clears `m_collect_finished` to the store that sets it, no thread is where
-- `collection_lock_t::lock` has returned and not been unlocked, none is where it may register a thread
-- or end a registration, and no next step changes the registered threads.
pub changes_excluded :
    (w v : Waits) (u : ℕ)
    → IsInitial w
    → Steps w v
    → is_stopping (v.place u) ≡ true
    → ((t : ℕ) → (v.place t ≢ guarded) × (v.place t ≢ adding) × (v.place t ≢ removing))
      × ((x : Waits) → Step v x → x.m_threads ≡ v.m_threads)
unfolding owns_mutex owns_thread_mutex
changes_excluded w v u i r s =
    let h = Steps-Inv r (IsInitial-Inv w i) in
    let alone = λ (t : ℕ). both_alone v h t u in
    (
      λ t. (
        λ e. elim (stopping_owns (v.place u) s) [
          | inl m ↦ apart v h u s t (ap is_stopping e) (same_owner v h (ap owns_mutex e) m)
          | inr (o, m) ↦ h.shut u t o (ap is_guarded e)
        ],
        λ e.
            apart v h u s t (ap is_stopping e)
              (alone t (ap owns_mutex e) (ap owns_thread_mutex e) s),
        λ e.
            apart v h u s t (ap is_stopping e)
              (alone t (ap owns_mutex e) (ap owns_thread_mutex e) s),
      ),
      λ x st. threads_kept v x u h s st,
    )
