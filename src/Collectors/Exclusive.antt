-- ===== src/Collectors/Exclusive.antt =====
-- One thread at a time is in a collection; and one that a finalizer calls for there never begins.
use cgc.Base.{
  ℕ, ◌≡◌, ◌≢◌, refl, sym, ap, ◌∙◌, subst, ◌⊎◌, inl, inr, Bool, true, false, List, [], ◌∷◌,
  Bool-cases, if◌then◌else◌, ◌==◌, ==_iff, ==-ne, arith,
}
use cgc.Heap.{update}
use cgc.Collectors.{
  Mode, outside, waiting, finalizing, nested, collecting, Collectors, waiting_from, force_collect,
  collect, back_from, Act, calls, finalizer_calls, notices, finalizer_notices, locks, ends, Acts,
  none_more, then_act,
}

-- The thread has set `m_collect` and not cleared it yet.
abbrev pub is_busy : Mode → Bool
is_busy outside = false
is_busy waiting = false
is_busy finalizing = true
is_busy nested = true
is_busy collecting = true

record Excludes (c : Collectors) : Type 0 where
  flagged : (t : ℕ) → is_busy (c.mode t) ≡ true → c.m_collect ≡ true
  alone : (t u : ℕ) → is_busy (c.mode t) ≡ true → is_busy (c.mode u) ≡ true → t ≡ u

busy_update :
    (c : Collectors) (t u : ℕ) (m : Mode)
    → is_busy (update c.mode t m u) ≡ (if t == u then is_busy m else is_busy (c.mode u))
busy_update c t u m = elim (Bool-cases (t == u)) [ inl here ↦ rw here | inr other ↦ rw other ]

busy_same :
    (c : Collectors) (t u : ℕ) (m : Mode)
    → is_busy m ≡ is_busy (c.mode t)
    → is_busy (update c.mode t m u) ≡ is_busy (c.mode u)
busy_same c t u m e = elim (Bool-cases (t == u)) [
  | inl here ↦ rw here (e ∙ ap (λ i. is_busy (c.mode i)) ((==_iff t u).0 here))
  | inr other ↦ rw other
]

-- The thread `t` goes into a mode that is as busy as the one before.
same-Excludes :
    (c : Collectors) (t : ℕ) (m : Mode)
    → is_busy m ≡ is_busy (c.mode t)
    → Excludes c
    → Excludes (record c { mode = update c.mode t m })
same-Excludes c t m e x = record {
  flagged = λ u b. x.flagged u (sym (busy_same c t u m e) ∙ b);
  alone = λ u v b d. x.alone u v (sym (busy_same c t u m e) ∙ b) (sym (busy_same c t v m e) ∙ d);
}

begun-Excludes :
    (c : Collectors) (t : ℕ)
    → c.m_collect ≡ false
    → Excludes c
    → Excludes (record { m_collect = true; mode = update c.mode t finalizing })
begun-Excludes c t clear x =
    let only : (u : ℕ) → is_busy (update c.mode t finalizing u) ≡ true → t ≡ u = λ u b.
      elim (Bool-cases (t == u)) [
        | inl here ↦ (==_iff t u).0 here
        | inr other ↦ absurd (let f = sym clear ∙ x.flagged u (rw other at b) in cc)
      ] in
    record { flagged = λ u b. refl; alone = λ u v b d. sym (only u b) ∙ only v d }

ended-Excludes :
    (c : Collectors) (t : ℕ)
    → c.mode t ≡ collecting
    → Excludes c
    → Excludes (record { m_collect = false; mode = update c.mode t outside })
ended-Excludes c t e x =
    let none_left : (u : ℕ) → is_busy (update c.mode t outside u) ≡ false = λ u.
      elim (Bool-cases (t == u)) [
        | inl here ↦ rw here
        | inr other ↦ rw other (ground (arith, x.alone t u (ap is_busy e), other))
      ] in
    record {
      flagged = λ u b. absurd (let f = sym (none_left u) ∙ b in cc);
      alone = λ u v b d. absurd (let f = sym (none_left u) ∙ b in cc);
    }

abbrev queued : ℕ → Collectors → Collectors
queued t c = record c { mode = update c.mode t (waiting_from (c.mode t)) }

abbrev begun : ℕ → Collectors → Collectors
begun t c = record { m_collect = true; mode = update c.mode t finalizing }

force-cases :
    (h e : Bool) (t : ℕ) (c : Collectors)
    → let d = (force_collect h e t c).1 in
      (d ≡ c)
      ⊎ ((c.m_collect ≡ true) × (d ≡ queued t c))
      ⊎ ((c.m_collect ≡ false) × (d ≡ begun t c))
unfolding force_collect
force-cases false e t c = inl refl
force-cases true false t c = inl refl
force-cases true true t c = elim (Bool-cases c.m_collect) [
  | inl set ↦ inr (inl (set, rw (set, force_collect) refl))
  | inr clear ↦ inr (inr (clear, rw (clear, force_collect) refl))
]

collect-cases :
    (fs : List Bool) (h e : Bool) (t : ℕ) (c : Collectors)
    → let d = (collect fs h e t c).1 in
      (d ≡ c)
      ⊎ ((c.m_collect ≡ true) × (d ≡ queued t c))
      ⊎ ((c.m_collect ≡ false) × (d ≡ begun t c))
unfolding collect
collect-cases [] h e t c = force-cases h e t c
collect-cases (false ∷ fs) h e t c = inl refl
collect-cases (true ∷ fs) h e t c = collect-cases fs h e t c

collect-Excludes :
    (fs : List Bool) (h e : Bool) (t : ℕ) (c : Collectors)
    → is_busy (waiting_from (c.mode t)) ≡ is_busy (c.mode t)
    → Excludes c
    → Excludes (collect fs h e t c).1
collect-Excludes fs h e t c w x = elim (collect-cases fs h e t c) [
  | inl q ↦ subst Excludes (sym q) x
  | inr (inl (set, q)) ↦ subst Excludes (sym q) (same-Excludes c t (waiting_from (c.mode t)) w x)
  | inr (inr (clear, q)) ↦ subst Excludes (sym q) (begun-Excludes c t clear x)
]

Act-Excludes : (c d : Collectors) → Act c d → Excludes c → Excludes d
unfolding waiting_from back_from
Act-Excludes c _ (calls t fs h e m) x = collect-Excludes fs h e t c (rw m) x
Act-Excludes c _ (finalizer_calls t fs h e m) x = collect-Excludes fs h e t c (rw m) x
Act-Excludes c _ (notices t m clear) x = same-Excludes c t (back_from (c.mode t)) (rw m) x
Act-Excludes c _ (finalizer_notices t m clear) x = same-Excludes c t (back_from (c.mode t)) (rw m) x
Act-Excludes c _ (locks t m) x = same-Excludes c t collecting (rw m) x
Act-Excludes c _ (ends t m) x = ended-Excludes c t m x

Acts-Excludes : (c d : Collectors) → Acts c d → Excludes c → Excludes d
Acts-Excludes c _ none_more x = x
Acts-Excludes c _ (then_act d e before act) x = Act-Excludes d e act (Acts-Excludes c d before x)

-- No thread is in `force_collect`.
abbrev pub IsQuiet : Collectors → Type 0
IsQuiet c = (c.m_collect ≡ false) × ((t : ℕ) → c.mode t ≡ outside)

IsQuiet-Excludes : (c : Collectors) → IsQuiet c → Excludes c
IsQuiet-Excludes c q = record {
  flagged = λ t b. absurd (let f = sym (ap is_busy (q.1 t)) ∙ b in cc);
  alone = λ t u b d. absurd (let f = sym (ap is_busy (q.1 t)) ∙ b in cc);
}

-- In every run of calls by any threads, from a state where none is in `force_collect`: at most one thread
-- is between the exchange that sets `m_collect` and the store that clears it, and while it is, the flag is
-- set.
pub collections_exclude :
    (c d : Collectors)
    → IsQuiet c
    → Acts c d
    → ((t u : ℕ) → is_busy (d.mode t) ≡ true → is_busy (d.mode u) ≡ true → t ≡ u)
      × ((t : ℕ) → is_busy (d.mode t) ≡ true → d.m_collect ≡ true)
collections_exclude c d q run =
    let x = Acts-Excludes c d run (IsQuiet-Excludes c q) in (x.alone, x.flagged)

abbrev IsStuck : ℕ → Collectors → Type 0
IsStuck t c = (c.mode t ≡ nested) × (c.m_collect ≡ true)

other_mode : (c : Collectors) (t u : ℕ) (m : Mode) → t ≢ u → update c.mode t m u ≡ c.mode u
other_mode c t u m n = rw (==-ne t u n)

differs :
    (c : Collectors) (t u : ℕ) (m : Mode) → c.mode t ≡ m → m ≢ nested → c.mode u ≡ nested → t ≢ u
differs c t u m e n s w = n (sym e ∙ ap c.mode w ∙ s)

collect-IsStuck :
    (fs : List Bool) (h e : Bool) (t u : ℕ) (c : Collectors)
    → t ≢ u
    → IsStuck u c
    → IsStuck u (collect fs h e t c).1
collect-IsStuck fs h e t u c n s = elim (collect-cases fs h e t c) [
  | inl q ↦ subst (IsStuck u) (sym q) s
  | inr (inl (set, q)) ↦ subst (IsStuck u) (sym q) (other_mode c t u _ n ∙ s.0, s.1)
  | inr (inr (clear, q)) ↦ absurd (let f = sym clear ∙ s.1 in cc)
]

Act-IsStuck : (c d : Collectors) (u : ℕ) → Act c d → Excludes c → IsStuck u c → IsStuck u d
Act-IsStuck c _ u (calls t fs h e m) x s =
    collect-IsStuck fs h e t u c (differs c t u outside m (λ w. cc) s.0) s
Act-IsStuck c _ u (finalizer_calls t fs h e m) x s =
    collect-IsStuck fs h e t u c (differs c t u finalizing m (λ w. cc) s.0) s
Act-IsStuck c _ u (notices t m clear) x s = absurd (let f = sym clear ∙ s.1 in cc)
Act-IsStuck c _ u (finalizer_notices t m clear) x s = absurd (let f = sym clear ∙ s.1 in cc)
Act-IsStuck c _ u (locks t m) x s =
    (other_mode c t u collecting (differs c t u finalizing m (λ w. cc) s.0) ∙ s.0, s.1)
Act-IsStuck c _ u (ends t m) x s =
    absurd (differs c t u collecting m (λ w. cc) s.0 (x.alone t u (ap is_busy m) (ap is_busy s.0)))

Acts-IsStuck : (c d : Collectors) (u : ℕ) → Acts c d → Excludes c → IsStuck u c → IsStuck u d
Acts-IsStuck c _ u none_more x s = s
Acts-IsStuck c _ u (then_act d e before act) x s =
    Act-IsStuck d e u act (Acts-Excludes c d before x) (Acts-IsStuck c d u before x s)

-- If in a run of calls by any threads, from a state where none is in `force_collect`, a finalizer that the
-- collecting thread runs waits in a call of `force_collect` or `collect`, it waits for ever, whatever the
-- threads do, and `m_collect` stays set.
pub nested_collection_waits :
    (c d e : Collectors) (t : ℕ)
    → IsQuiet c
    → Acts c d
    → d.mode t ≡ nested
    → Acts d e
    → (e.mode t ≡ nested) × (e.m_collect ≡ true)
nested_collection_waits c d e t q run n later =
    let x = Acts-Excludes c d run (IsQuiet-Excludes c q) in
    Acts-IsStuck d e t later x (n, x.flagged t (ap is_busy n))
