-- ===== src/Mark/Rounds.antt =====
-- The invariant between the calls of `_mark_addrs` that `_mark` and `_mark_mark_vector` make.
use cgc.Base.{
  ℕ, zero, suc, ◌≡◌, refl, sym, subst, ◌⊎◌, inl, inr, ⊎_elim, ◌↔◌, true, some, Option-cases, List,
  [], Memᴰ,
}
use mathlib.Core.List.Memᴰ
use mathlib.Core.Option.{some-injective}
use cgc.Heap.{ObjectHeader, Layout, AddressSet}
use cgc.Mark.{Marking, mark_each, mark_addrs, mark_mark_vector}
use cgc.Mark.Reach.{Object, resolve, Reach, start, step, marked, Fits}
use cgc.Mark.Walk.{
  queued, Handled, Closed, Extends, IsClosed, Handled-Extends, mark_each_good, mark_addrs-IsGood,
}

module _ (H : ObjectHeader) (L : Layout) (A : AddressSet) (base : ℕ → H.State) where
  -- Between two calls of `_mark_addrs` from the top: what is marked has its words handled, and all
  -- that is marked or put off comes from words that satisfy `P`.
  pub record Inv (P : ℕ → Type 0) (m : Marking H L A) : Type 0 where
    pub fits : Fits H L A base m
    pub closed : (o : Object) → marked H L A m o ≡ true → Closed H L A base m o
    pub sound :
        (o : Object) → marked H L A m o ≡ true → (a : ℕ) × P a × (resolve H L base a ≡ some o)
    pub sound_queue : (a : ℕ) → Memᴰ a (queued H L A base m) → P a

  module _ (P : ℕ → Type 0) (P-closed : IsClosed H L A base P) where
    pub Inv-Extends : (m n : Marking H L A) → Inv P m → Extends H L A base P m n → Inv P n
    Inv-Extends m n v x = record {
      fits = x.fits;
      closed = λ o h.
          ⊎_elim (λ old b i. Handled-Extends H L A base P m n b x (v.closed o old b i)) (λ c. c)
            (x.closes o h);
      sound = λ o h. ⊎_elim (v.sound o) (λ s. s) (x.sound o h);
      sound_queue = λ a h. ⊎_elim (v.sound_queue a) (λ p. p) (x.sound_queue a h);
    }

    -- An address leaves the set and is marked from.
    Inv-round :
        (m : Marking H L A) (a : ℕ) (rest : A.Set)
        → A.take m.to_mark ≡ some (a, rest)
        → Inv P m
        → let n = mark_addrs H L A a 0 (record m { to_mark = rest }) in
          Inv P n × ((b : ℕ) → Handled H L A base m b → Handled H L A base n b)
    Inv-round m a rest taken v = (
      record {
        fits = x.fits;
        closed = λ o h. ⊎_elim (λ old b i. shift b (v.closed o old b i)) (λ c. c) (x.closes o h);
        sound = λ o h. ⊎_elim (v.sound o) (λ s. s) (x.sound o h);
        sound_queue =
            λ b h. ⊎_elim (λ k. v.sound_queue b ((split b).1 (inr k))) (λ p. p) (x.sound_queue b h);
      },
      shift,
    )
      where
        m0 : Marking H L A
        m0 = record m { to_mark = rest }

        split : (b : ℕ) → Memᴰ b (A.elems m.to_mark) ↔ ((b ≡ a) ⊎ Memᴰ b (A.elems rest))
        split = (A.take-some m.to_mark a rest taken).0

        done :
            Extends H L A base P m0 (mark_addrs H L A a 0 m0)
            × Handled H L A base (mark_addrs H L A a 0 m0) a
        done =
            mark_addrs-IsGood H L A base P P-closed 0 a m0 v.fits
              (v.sound_queue a ((split a).1 (inl refl)))

        x : Extends H L A base P m0 (mark_addrs H L A a 0 m0)
        x = done.0

        shift : (b : ℕ) → Handled H L A base m b → Handled H L A base (mark_addrs H L A a 0 m0) b
        shift b h o e =
            ⊎_elim (λ k. inl (x.keeps o k))
              (λ i.
                ⊎_elim
                  (λ same.
                    subst (Handled H L A base (mark_addrs H L A a 0 m0)) (sym same) done.1 o e)
                  (λ later. inr (x.keeps_queue b later)) ((split b).0 i))
              (h o e)

    -- When the loop ends, the set is empty.
    pub Inv-vector :
        (rounds : ℕ) (m t : Marking H L A)
        → mark_mark_vector H L A rounds m ≡ some t
        → Inv P m
        → Inv P t
          × ((b : ℕ) → Handled H L A base m b → Handled H L A base t b)
          × (queued H L A base t ≡ [])
    unfolding mark_mark_vector
    Inv-vector zero m t e v = cc
    Inv-vector (suc rounds) m t e v = elim (Option-cases (A.take m.to_mark)) [
      | inl empty ↦
          let same : m ≡ t = some-injective m t (rw (empty, mark_mark_vector) at e) in
          rw (← same) (v, λ b h. h, A.take-none m.to_mark empty)
      | inr ((a, rest), taken) ↦
          let (v1, shift) = Inv-round m a rest taken v in
          let (vt, later, empty) = Inv-vector rounds _ t (rw (taken, mark_mark_vector) at e) v1 in
          (vt, λ b h. later b (shift b h), empty)
    ]

    -- The loops over the roots.
    pub Inv-each :
        (values : List ℕ) (m : Marking H L A)
        → ((a : ℕ) → Memᴰ a values → P a)
        → Inv P m
        → let n = mark_each H L A (λ a. mark_addrs H L A a 0) values m in
          Inv P n × Extends H L A base P m n × ((a : ℕ) → Memᴰ a values → Handled H L A base n a)
    Inv-each values m p v =
        let (x, h) =
          mark_each_good H L A base P _ (mark_addrs-IsGood H L A base P P-closed 0) values m v.fits
            p in
        (Inv-Extends m _ v x, x, h)

  -- With an empty set, what is handled is marked, and so are all objects that can be reached.
  pub reached_marked :
      (P : ℕ → Type 0) (starts : List ℕ) (t : Marking H L A)
      → Inv P t
      → queued H L A base t ≡ []
      → ((a : ℕ) → Memᴰ a starts → Handled H L A base t a)
      → {a : ℕ} → Reach H L base starts a
      → Handled H L A base t a
  reached_marked P starts t v empty h (start i) = h _ i
  reached_marked P starts t v empty h (step {a} o r e i) =
      elim (reached_marked P starts t v empty h r o e) [
        | inl k ↦ v.closed o k _ i
        | inr k ↦ absurd (Memᴰ.not-nil (subst (Memᴰ a) empty k))
      ]
