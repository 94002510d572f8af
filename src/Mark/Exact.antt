-- ===== src/Mark/Exact.antt =====
-- The mark phase marks the reachable objects and no other.
use cgc.Base.{
  ℕ, ◌≡◌, refl, sym, ◌∙◌, subst, inl, inr, ⊎_elim, ◌↔◌, true, false, some, List, [], ◌++◌, map,
  Memᴰ,
}
use mathlib.Core.List.Memᴰ
use mathlib.Core.Bool.{true≢false}
use cgc.Heap.{ObjectHeader, Layout, AddressSet}
use cgc.Mark.{Marking, mark_each, mark_addrs, mark_roots}
use cgc.Mark.Reach.{Object, resolve, Reach, start, step, marked, Fits}
use cgc.Mark.Walk.{queued, Handled, Extends, IsClosed, Handled-Extends}
use cgc.Mark.Ends.{mark_mark_vector_ends}
use cgc.Mark.Rounds.{Inv, Inv-vector, Inv-each, reached_marked}

-- The words that `_mark` starts from.
abbrev pub start_words :
    (H : ObjectHeader) (L : Layout) (A : AddressSet)
    → List ℕ
    → List ℕ
    → List ℕ
    → Marking H L A
    → List ℕ
start_words H L A stack_roots roots range_points m =
    (map L.load stack_roots ++ map L.load roots) ++ (map L.load range_points ++ A.elems m.to_mark)

-- The object is that of a word which can be reached from the start words.
abbrev pub IsReachable :
    (H : ObjectHeader) (L : Layout) (A : AddressSet)
    → List ℕ
    → List ℕ
    → List ℕ
    → Marking H L A
    → Object
    → Type 0
IsReachable H L A stack_roots roots range_points m o =
    (a : ℕ) × Reach H L m.states (start_words H L A stack_roots roots range_points m) a
    × (resolve H L m.states a ≡ some o)

module _ (H : ObjectHeader) (L : Layout) (A : AddressSet) (stack_roots roots range_points : List ℕ)
    (m : Marking H L A) where
  abbrev starts : List ℕ
  starts = start_words H L A stack_roots roots range_points m

  module _ (clear : (o : Object) → marked H L A m o ≡ false) where
    abbrev P : ℕ → Type 0
    P = Reach H L m.states starts

    P-closed : IsClosed H L A m.states P
    P-closed a b o p q i = step o p q i

    abbrev call : ℕ → Marking H L A → Marking H L A
    call a = mark_addrs H L A a 0

    abbrev m1 : Marking H L A
    m1 = mark_each H L A call (map L.load stack_roots) m

    abbrev m2 : Marking H L A
    m2 = mark_each H L A call (map L.load roots) m1

    abbrev m3 : Marking H L A
    m3 = mark_each H L A call (map L.load range_points) m2

    initial : Inv H L A m.states P m
    initial = record {
      fits = λ os. (refl, refl, refl, refl, refl);
      closed = λ o h. absurd (true≢false (sym h ∙ clear o));
      sound = λ o h. absurd (true≢false (sym h ∙ clear o));
      sound_queue = λ a i. start (Memᴰ.append_right _ (Memᴰ.append_right _ i));
    }

    on_stack :
        Inv H L A m.states P m1
        × Extends H L A m.states P m m1
        × ((a : ℕ) → Memᴰ a (map L.load stack_roots) → Handled H L A m.states m1 a)
    on_stack =
        Inv-each H L A m.states P P-closed (map L.load stack_roots) m
          (λ a i. start (Memᴰ.append_left _ (Memᴰ.append_left _ i))) initial

    in_roots :
        Inv H L A m.states P m2
        × Extends H L A m.states P m1 m2
        × ((a : ℕ) → Memᴰ a (map L.load roots) → Handled H L A m.states m2 a)
    in_roots =
        Inv-each H L A m.states P P-closed (map L.load roots) m1
          (λ a i. start (Memᴰ.append_left _ (Memᴰ.append_right _ i))) on_stack.0

    in_ranges :
        Inv H L A m.states P m3
        × Extends H L A m.states P m2 m3
        × ((a : ℕ) → Memᴰ a (map L.load range_points) → Handled H L A m.states m3 a)
    in_ranges =
        Inv-each H L A m.states P P-closed (map L.load range_points) m2
          (λ a i. start (Memᴰ.append_right _ (Memᴰ.append_left _ i))) in_roots.0

    -- Whatever was handled on the way is handled before the last loop.
    on : (a : ℕ) → Handled H L A m.states m1 a → Handled H L A m.states m3 a
    on a h =
        Handled-Extends H L A m.states P m2 m3 a in_ranges.1
          (Handled-Extends H L A m.states P m1 m2 a in_roots.1 h)

    put_off_still : (a : ℕ) → Memᴰ a (A.elems m.to_mark) → Handled H L A m.states m3 a
    put_off_still a i = on a (λ o _. inr (on_stack.1.keeps_queue a i))

    handled : (a : ℕ) → Memᴰ a starts → Handled H L A m.states m3 a
    handled a i =
        ⊎_elim
          (λ k.
            ⊎_elim (λ j. on a (on_stack.2 a j))
              (λ j. Handled-Extends H L A m.states P m2 m3 a in_ranges.1 (in_roots.2 a j))
              (Memᴰ.append_cases (map L.load stack_roots) k))
          (λ k.
            ⊎_elim (in_ranges.2 a) (put_off_still a)
              (Memᴰ.append_cases (map L.load range_points) k))
          (Memᴰ.append_cases (map L.load stack_roots ++ map L.load roots) i)

    -- Whenever the phase returns, the marks are exact.
    marked-exact :
        (rounds : ℕ) (t : Marking H L A)
        → mark_roots H L A rounds stack_roots roots range_points m ≡ some t
        → Fits H L A m.states t
          × ((o : Object)
              → (marked H L A t o ≡ true) ↔ IsReachable H L A stack_roots roots range_points m o)
    unfolding mark_roots
    marked-exact rounds t e = (last.0.fits, λ o. (last.0.sound o, complete o))
      where
        last :
            Inv H L A m.states P t
            × ((b : ℕ) → Handled H L A m.states m3 b → Handled H L A m.states t b)
            × (queued H L A m.states t ≡ [])
        last = Inv-vector H L A m.states P P-closed rounds m3 t e in_ranges.0

        complete :
            (o : Object)
            → IsReachable H L A stack_roots roots range_points m o
            → marked H L A t o ≡ true
        complete o (a, r, q) =
            elim (reached_marked H L A m.states P starts t last.0 last.2
              (λ b i. last.1 b (handled b i)) r o q) [
                | inl k ↦ k
                | inr k ↦ absurd (Memᴰ.not-nil (subst (Memᴰ a) last.2 k))
              ]

  -- If no object is marked before the phase and finitely many can be met, `_mark` returns, and an
  -- object is then marked exactly if a word that can be reached from the roots and the addresses put
  -- off leads to it. The states differ from those before in their marks only.
  pub mark_roots-exact :
      (objects : List Object)
      → ((a : ℕ) (o : Object) → resolve H L m.states a ≡ some o → Memᴰ o objects)
      → ((o : Object) → marked H L A m o ≡ false)
      → (rounds : ℕ) × (t : Marking H L A) × (mark_roots H L A rounds stack_roots roots range_points
            m
          ≡ some t)
        × Fits H L A m.states t
        × ((o : Object)
            → (marked H L A t o ≡ true) ↔ IsReachable H L A stack_roots roots range_points m o)
  unfolding mark_roots
  mark_roots-exact objects finite clear =
      let (rounds, t, e) =
        mark_mark_vector_ends H L A m.states objects finite (m3 clear) (in_ranges clear).0.fits in
      let (f, exact) = marked-exact clear rounds t e in (rounds, t, e, f, exact)
