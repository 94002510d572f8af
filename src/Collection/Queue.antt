-- ===== src/Collection/Queue.antt =====
-- The list of objects that a sweep is to free: what is on it, and that nothing is on it twice.
use mathlib.Core.List.Memᴰ
use cgc.Base.{ℕ, ◌≡◌, subst, inl, inr, List, [], ◌∷◌, Memᴰ, Distinct, Bool-cases, arith}
use cgc.Heap.{ObjectHeader}
use cgc.Sweep.{UserData}
use cgc.Sweep.Swept.{fate, swept, queue_of, queued, is_quasi, is_queued}

module _ (H : ObjectHeader) (user_data : ℕ → UserData) where
  pub mem-queue_of :
      (os : ℕ) (states : ℕ → H.State) (list : List ℕ)
      → Memᴰ os (queue_of H user_data states list)
      → fate H user_data (states os) ≡ queued
  mem-queue_of os states [] i = absurd (Memᴰ.not-nil i)
  mem-queue_of os states (q ∷ rest) i =
      elim (Bool-cases (is_queued (fate H user_data (states q)))) [
        | inl hit ↦ elim (Memᴰ.cases_cons (rw hit at i)) [
          | inl e ↦ rw e (ground arith)
          | inr j ↦ mem-queue_of os states rest j
        ]
        | inr miss ↦ mem-queue_of os states rest (rw miss at i)
      ]

  pub queue_of-listed :
      (os : ℕ) (states : ℕ → H.State) (list : List ℕ)
      → Memᴰ os (queue_of H user_data states list)
      → Memᴰ os list
  queue_of-listed os states [] i = i
  queue_of-listed os states (q ∷ rest) i =
      elim (Bool-cases (is_queued (fate H user_data (states q)))) [
        | inl hit ↦ elim (Memᴰ.cases_cons (rw hit at i)) [
          | inl e ↦ Memᴰ.head e
          | inr j ↦ Memᴰ.tail (queue_of-listed os states rest j)
        ]
        | inr miss ↦ Memᴰ.tail (queue_of-listed os states rest (rw miss at i))
      ]

  pub queue_of-Distinct :
      (states : ℕ → H.State) (list : List ℕ)
      → Distinct list
      → Distinct (queue_of H user_data states list)
  queue_of-Distinct states [] d = d
  queue_of-Distinct states (q ∷ rest) d =
      let later = queue_of-Distinct states rest d.1 in
      elim (Bool-cases (is_queued (fate H user_data (states q)))) [
        | inl hit ↦ rw hit (λ i. d.0 (queue_of-listed q states rest i), later)
        | inr miss ↦ rw miss later
      ]

  pub queue_of-mem :
      (os : ℕ) (states : ℕ → H.State) (list : List ℕ)
      → Memᴰ os list
      → fate H user_data (states os) ≡ queued
      → Memᴰ os (queue_of H user_data states list)
  queue_of-mem os states [] i e = absurd (Memᴰ.not-nil i)
  queue_of-mem os states (q ∷ rest) i e = elim (Memᴰ.cases_cons i) [
    | inl same ↦
        let e' : fate H user_data (states q) ≡ queued =
          subst (λ p. fate H user_data (states p) ≡ queued) same e in
        rw e' (Memᴰ.head same)
    | inr j ↦
        let later = queue_of-mem os states rest j e in
        elim (Bool-cases (is_queued (fate H user_data (states q)))) [
          | inl hit ↦ rw hit (Memᴰ.tail later)
          | inr miss ↦ rw miss later
        ]
  ]

  pub swept_data : (s : H.State) → H.user_data (swept H user_data s) ≡ H.user_data s
  swept_data s = elim (Bool-cases (is_quasi (fate H user_data s))) [
    | inl quasi ↦ rw quasi (H.user_data-set_quasi s)
    | inr other ↦ rw other
  ]
