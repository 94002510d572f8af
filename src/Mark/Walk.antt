-- ===== src/Mark/Walk.antt =====
-- The recursion of `_mark_addrs`: what a call keeps, and that it takes care of all that its address
-- leads to, in the marks or in the set of addresses put off.
use cgc.Base.{
  ℕ, zero, suc, ◌+◌, ◌-◌, ◌≤◌, ◌≡◌, refl, sym, ◌∙◌, subst, ◌⊎◌, inl, inr, ⊎_elim, true, some, List,
  [], ◌∷◌, Memᴰ, arith,
}
use mathlib.Core.List.Memᴰ
use mathlib.Core.Option.{some-injective, none-ne-some}
use cgc.Heap.{ObjectHeader, Layout, AddressSet}
use cgc.Mark.{Marking, put_off, mark_each, mark_addrs_levels, mark_addrs}
use cgc.Mark.Reach.{Object, resolve, children, marked, Fits}
use cgc.Mark.Steps.{MarksOne}
use cgc.Mark.Visit.{Outcome, skips, knows, delays, enters, body-Outcome}

module _ (H : ObjectHeader) (L : Layout) (A : AddressSet) (base : ℕ → H.State) where
  abbrev pub queued : Marking H L A → List ℕ
  queued m = A.elems m.to_mark

  -- The object of the address is marked, or the address is put off.
  abbrev pub Handled : Marking H L A → ℕ → Type 0
  Handled m a =
      (o : Object) → resolve H L base a ≡ some o → (marked H L A m o ≡ true) ⊎ Memᴰ a (queued m)

  abbrev pub Closed : Marking H L A → Object → Type 0
  Closed m o = (b : ℕ) → Memᴰ b (children H L base o) → Handled m b

  -- Nothing marked or put off is lost, and what is newly marked has its words handled.
  pub record Extends (P : ℕ → Type 0) (m m' : Marking H L A) : Type 0 where
    pub fits : Fits H L A base m'
    pub keeps : (o : Object) → marked H L A m o ≡ true → marked H L A m' o ≡ true
    pub keeps_queue : (a : ℕ) → Memᴰ a (queued m) → Memᴰ a (queued m')
    pub closes : (o : Object) → marked H L A m' o ≡ true → (marked H L A m o ≡ true) ⊎ Closed m' o
    pub sound :
        (o : Object)
        → marked H L A m' o ≡ true
        → (marked H L A m o ≡ true) ⊎ ((a : ℕ) × P a × (resolve H L base a ≡ some o))
    pub sound_queue : (a : ℕ) → Memᴰ a (queued m') → Memᴰ a (queued m) ⊎ P a

  -- `P` holds of the word that a walk is at, and of all that the walk can meet from it.
  abbrev pub IsClosed : (ℕ → Type 0) → Type 0
  IsClosed P =
      (a b : ℕ) (o : Object)
      → P a
      → resolve H L base a ≡ some o
      → Memᴰ b (children H L base o)
      → P b

  module _ (P : ℕ → Type 0) where
    pub Handled-Extends :
        (m m' : Marking H L A) (a : ℕ) → Extends P m m' → Handled m a → Handled m' a
    Handled-Extends m m' a x h o e =
        ⊎_elim (λ k. inl (x.keeps o k)) (λ k. inr (x.keeps_queue a k)) (h o e)

    pub Extends-refl : (m : Marking H L A) → Fits H L A base m → Extends P m m
    Extends-refl m f = record {
      fits = f;
      keeps = λ o k. k;
      keeps_queue = λ a k. k;
      closes = λ o k. inl k;
      sound = λ o k. inl k;
      sound_queue = λ a k. inl k;
    }

    pub Extends-trans : (m n k : Marking H L A) → Extends P m n → Extends P n k → Extends P m k
    Extends-trans m n k x y = record {
      fits = y.fits;
      keeps = λ o h. y.keeps o (x.keeps o h);
      keeps_queue = λ a h. y.keeps_queue a (x.keeps_queue a h);
      closes = λ o h.
          ⊎_elim
            (λ old. ⊎_elim inl (λ c. inr (λ b i. Handled-Extends n k b y (c b i))) (x.closes o old))
            inr (y.closes o h);
      sound = λ o h. ⊎_elim (x.sound o) inr (y.sound o h);
      sound_queue = λ a h. ⊎_elim (x.sound_queue a) inr (y.sound_queue a h);
    }

    -- A function on words that does what a call of `_mark_addrs` is to do.
    abbrev pub IsGood : (ℕ → Marking H L A → Marking H L A) → Type 0
    IsGood call =
        (a : ℕ) (m : Marking H L A)
        → Fits H L A base m
        → P a
        → Extends P m (call a m) × Handled (call a m) a

    pub mark_each_good :
        (call : ℕ → Marking H L A → Marking H L A)
        → IsGood call
        → (addrs : List ℕ) (m : Marking H L A) → Fits H L A base m
        → ((a : ℕ) → Memᴰ a addrs → P a)
        → Extends P m (mark_each H L A call addrs m)
          × ((a : ℕ) → Memᴰ a addrs → Handled (mark_each H L A call addrs m) a)
    unfolding mark_each
    mark_each_good call good [] m f p = (Extends-refl m f, λ a i. absurd (Memᴰ.not-nil i))
    mark_each_good call good (a ∷ rest) m f p =
        let (first, done) = good a m f (p a (Memᴰ.head refl)) in
        let (others, dones) =
          mark_each_good call good rest (call a m) first.fits (λ b i. p b (Memᴰ.tail i)) in
        (
          Extends-trans m (call a m) (mark_each H L A call rest (call a m)) first others,
          λ b i.
              ⊎_elim
                (λ e.
                  subst (Handled (mark_each H L A call rest (call a m))) (sym e) (
                    Handled-Extends (call a m) (mark_each H L A call rest (call a m)) a others
                      done))
                (dones b) (Memᴰ.cases_cons i),
        )

    put_off_good :
        (a : ℕ) (m : Marking H L A)
        → Fits H L A base m
        → P a
        → Extends P m (put_off H L A a m) × Handled (put_off H L A a m) a
    unfolding put_off
    put_off_good a m f p = (
      record {
        fits = f;
        keeps = λ o h. h;
        keeps_queue = λ b i. (A.mem-insert b a m.to_mark).1 (inr i);
        closes = λ o h. inl h;
        sound = λ o h. inl h;
        sound_queue =
            λ b i. ⊎_elim (λ e. inr (subst P (sym e) p)) inl ((A.mem-insert b a m.to_mark).0 i);
      },
      λ o e. inr ((A.mem-insert a a m.to_mark).1 (inl refl)),
    )

    -- An object is marked, and then its words are visited.
    enter_good :
        (a : ℕ) (o : Object) (m m1 m2 : Marking H L A)
        → Fits H L A base m
        → P a
        → resolve H L base a ≡ some o
        → MarksOne H L A base m m1 o
        → Extends P m1 m2
        → Closed m2 o
        → Extends P m m2 × Handled m2 a
    enter_good a o m m1 m2 f p e one x c = (
      record {
        fits = x.fits;
        keeps = λ q h. x.keeps q (one.still q h);
        keeps_queue = λ b i. x.keeps_queue b (subst (λ s. Memᴰ b (A.elems s)) (sym one.queue) i);
        closes = λ q h.
            ⊎_elim (λ k. ⊎_elim inl (λ same. inr (subst (Closed m2) (sym same) c)) (one.only q k))
              inr (x.closes q h);
        sound = λ q h.
            ⊎_elim (λ k. ⊎_elim inl (λ same. inr (a, p, rw same e)) (one.only q k)) inr
              (x.sound q h);
        sound_queue = λ b i.
            ⊎_elim (λ k. inl (subst (λ s. Memᴰ b (A.elems s)) one.queue k)) inr (x.sound_queue b i);
      },
      λ q e'. inl (
          subst (λ r. marked H L A m2 r ≡ true) (some-injective _ _ (sym e ∙ e'))
            (x.keeps o one.is_now)),
    )

    module _ (closed : IsClosed P) where
      visit_good :
          (call : ℕ → Marking H L A → Marking H L A) (a depth : ℕ) (m m' : Marking H L A)
          → Outcome H L A base call a depth m m'
          → Fits H L A base m
          → P a
          → (depth ≤ 300 → IsGood call)
          → Extends P m m' × Handled m' a
      unfolding mark_each
      visit_good call a depth m m' (skips e same) f p good =
          rw same (Extends-refl m f, λ o e'. absurd (none-ne-some o (sym e ∙ e')))
      visit_good call a depth m m' (knows o e old same) f p good = rw same (
        Extends-refl m f,
        λ q e'. inl (subst (λ r. marked H L A m r ≡ true) (some-injective _ _ (sym e ∙ e')) old),
      )
      visit_good call a depth m m' (delays deep same) f p good = rw same (put_off_good a m f p)
      visit_good call a depth m m' (enters o m1 e new one (inl shallow) same) f p good =
          let (x, c) =
            mark_each_good call (good shallow) (children H L base o) m1 (one.fits f)
              (λ b i. closed a b o p e i) in
          rw same
            (enter_good a o m m1 (mark_each H L A call (children H L base o) m1) f p e one x c)
      visit_good call a depth m m' (enters o m1 e new one (inr leaf) same) f p good =
          let same' : m' ≡ m1 = rw leaf at same in
          rw same' (
            enter_good a o m m1 m1 f p e one (Extends-refl m1 (one.fits f))
              (λ b i. absurd (Memᴰ.not-nil (subst (Memᴰ b) leaf i))))

      levels_good :
          (levels a depth : ℕ) (m : Marking H L A)
          → 301 ≤ levels + depth
          → Fits H L A base m
          → P a
          → Extends P m (mark_addrs_levels H L A (suc levels) a depth m)
            × Handled (mark_addrs_levels H L A (suc levels) a depth m) a
      unfolding mark_addrs_levels
      levels_good zero a depth m h f p =
          visit_good (λ b n. mark_addrs_levels H L A zero b (suc depth) n) a depth m _
            (body-Outcome H L A base _ a depth m f) f p (λ shallow. absurd (omega arith))
      levels_good (suc levels) a depth m h f p =
          visit_good (λ b n. mark_addrs_levels H L A (suc levels) b (suc depth) n) a depth m _
            (body-Outcome H L A base _ a depth m f) f p
            (λ shallow b n g q. levels_good levels b (suc depth) n (omega arith) g q)

      pub mark_addrs-IsGood : (depth : ℕ) → IsGood (λ a m. mark_addrs H L A a depth m)
      unfolding mark_addrs
      mark_addrs-IsGood depth a m f p = levels_good (301 - depth) a depth m (omega arith) f p
