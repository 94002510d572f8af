-- ===== src/BitmapFinal/Exact.antt =====
-- Which finalizers the finalization of a state of the bitmap allocator runs.
use mathlib.Core.Path.{subst}
use mathlib.Core.List.{append_assoc, append-nil}
use cgc.Base.{
  ℕ, zero, suc, ◌+◌, ◌≤◌, ◌<◌, ◌≡◌, ◌≢◌, refl, sym, ap, ◌∙◌, inl, inr, Bool, true, false, ◌&&◌, not,
  some, List, [], ◌∷◌, ◌++◌, Bool-cases, if◌then◌else◌, ◌==◌, ==-ne, arith,
}
use cgc.Heap.{Layout}
use cgc.Api.{Regions, bitmap_allocator_user_data}
use cgc.Api.Calls.{BitmapUserData}
use cgc.BitmapFinal.{
  Called, finishes, throws_exception, throws_other, Event, ran, zeroed, unmarked_freed, Pass, Bits,
  call_finalizer, end_call, object, entry_size, after_finalizer, finalize_data, finalize_index,
  finalize_indices, zero_rest, finalize_bitmap,
}

if-false {ℓ} : {A : Type ℓ} (b : Bool) (x y : A) → b ≡ false → (if b then x else y) ≡ y
if-false b x y e = rw e

module _ (L : Layout) (R : Regions) (behaviour : ℕ → ℕ → Called) (s : Pass) where
  -- The entry is freed, and has a finalizer.
  abbrev pub is_finalized : Bits → ℕ → Bool
  is_finalized b i = s.to_be_freed i && b.finalizeable i

  -- Each entry to be finalized has user data of its own, does not abort on collection, and its finalizer
  -- throws nothing but a `std::exception`.
  pub record IsTame (b : Bits) (data_of : ℕ → ℕ) : Type 0 where
    pub has_data :
        (i : ℕ)
        → is_finalized b i ≡ true
        → bitmap_allocator_user_data L R (object L R behaviour s i) ≡ some (data_of i)
    pub no_abort :
        (i : ℕ) → is_finalized b i ≡ true → (b.user_data (data_of i)).abort_on_collect ≡ false
    pub ends :
        (i : ℕ)
        → is_finalized b i ≡ true
        → call_finalizer behaviour
            (b.user_data (data_of i)).gc_user_data.finalizer
            (object L R behaviour s i)
          ≢ throws_other
    pub apart :
        (i j : ℕ)
        → is_finalized b i ≡ true
        → is_finalized b j ≡ true
        → data_of i ≡ data_of j
        → i ≡ j

  -- The events of `count` indices from `i` on.
  abbrev pub finalizings : Bits → (ℕ → ℕ) → ℕ → ℕ → List Event
  finalizings b data_of zero i = []
  finalizings b data_of (suc count) i =
      let rest = finalizings b data_of count (i + 1) in
      if is_finalized b i
      then ran (b.user_data (data_of i)).gc_user_data.finalizer (object L R behaviour s i)
        ∷ zeroed (object L R behaviour s i) (entry_size L R behaviour s)
        ∷ rest
      else rest

  module _ (b : Bits) (data_of : ℕ → ℕ) (tame : IsTame b data_of) where
    -- From the index `i` on nothing has changed.
    record Ahead (i : ℕ) (c : Bits) : Type 0 where
      same_bit : (j : ℕ) → i ≤ j → c.finalizeable j ≡ b.finalizeable j
      same_data :
          (j : ℕ)
          → i ≤ j
          → is_finalized b j ≡ true
          → c.user_data (data_of j) ≡ b.user_data (data_of j)
      done : (j : ℕ) → j < i → c.finalizeable j ≡ (b.finalizeable j && not (s.to_be_freed j))

    end_call-some :
        (e : Called) (c : Bits) → e ≢ throws_other → end_call L R behaviour s e c ≡ some c
    unfolding end_call
    end_call-some finishes c n = refl
    end_call-some throws_exception c n = refl
    end_call-some throws_other c n = absurd (n refl)

    finalized_step :
        (i : ℕ) (c : Bits)
        → Ahead i c
        → is_finalized b i ≡ true
        → finalize_index L R behaviour s (is_finalized b) i c
          ≡ some (after_finalizer L R behaviour s i (data_of i) c)
    unfolding finalize_index finalize_data
    finalized_step i c a h =
        let here : c.finalizeable i ≡ true = ground (arith, a.same_bit i (omega arith), h) in
        let d = a.same_data i (omega arith) h in
        let quiet : (c.user_data (data_of i)).abort_on_collect ≡ false =
          ap (λ (x : BitmapUserData). x.abort_on_collect) d ∙ tame.no_abort i h in
        let ok : call_finalizer behaviour (c.user_data (data_of i)).gc_user_data.finalizer
              (object L R behaviour s i)
            ≢ throws_other =
          λ e. tame.ends i h (
            ap
              (λ (x : BitmapUserData).
                call_finalizer behaviour x.gc_user_data.finalizer (object L R behaviour s i))
              (sym d)
            ∙ e) in
        let data_done : finalize_data L R behaviour s i (data_of i) c
            ≡ some (after_finalizer L R behaviour s i (data_of i) c) =
          if-false _ _ _ quiet ∙ end_call-some _ _ ok in
        rw (h, here, tame.has_data i h, finalize_index) data_done

    skipped_step :
        (i : ℕ) (c : Bits)
        → is_finalized b i ≡ false
        → finalize_index L R behaviour s (is_finalized b) i c ≡ some c
    unfolding finalize_index
    skipped_step i c h = rw (h, finalize_index) refl

    finalized-Ahead :
        (i : ℕ) (c : Bits)
        → Ahead i c
        → is_finalized b i ≡ true
        → Ahead (i + 1) (after_finalizer L R behaviour s i (data_of i) c)
    finalized-Ahead i c a h = record {
      same_bit = λ j le. rw (==-ne i j (omega (arith, le))) (a.same_bit j (omega (arith, le)));
      same_data = λ j le f.
          let n : data_of i ≢ data_of j =
            λ e. let w = tame.apart i j h f e in absurd (omega (arith, w, le)) in
          rw (==-ne (data_of i) (data_of j) n) (a.same_data j (omega (arith, le)) f);
      done = λ j lt. elim (Bool-cases (i == j)) [
        | inl here ↦ ground (arith, here, h)
        | inr other ↦ rw other (a.done j (ground (arith, other, lt)))
      ];
    }

    skipped-Ahead : (i : ℕ) (c : Bits) → Ahead i c → is_finalized b i ≡ false → Ahead (i + 1) c
    skipped-Ahead i c a h = record {
      same_bit = λ j le. a.same_bit j (omega (arith, le));
      same_data = λ j le f. a.same_data j (omega (arith, le)) f;
      done = λ j lt. elim (Bool-cases (i == j)) [
        | inl here ↦ ground (arith, here, h, a.same_bit i (omega arith))
        | inr other ↦ a.done j (ground (arith, other, lt))
      ];
    }

    -- What the loop leaves.
    record Looped (count i : ℕ) (c d : Bits) : Type 0 where
      ahead : Ahead (i + count) d
      events : d.trace ≡ c.trace ++ finalizings b data_of count i

    hit_events :
        (i : ℕ) (c : Bits) (rest : List Event)
        → Ahead i c
        → is_finalized b i ≡ true
        → (after_finalizer L R behaviour s i (data_of i) c).trace ++ rest
          ≡ c.trace
            ++ ran (b.user_data (data_of i)).gc_user_data.finalizer (object L R behaviour s i)
              ∷ zeroed (object L R behaviour s i) (entry_size L R behaviour s)
              ∷ rest
    hit_events i c rest a h =
        let o = object L R behaviour s i in
        let size = entry_size L R behaviour s in
        append_assoc c.trace
          (ran (c.user_data (data_of i)).gc_user_data.finalizer o ∷ zeroed o size ∷ []) rest
        ∙ ap
            (λ (x : BitmapUserData).
              c.trace ++ ran x.gc_user_data.finalizer o ∷ zeroed o size ∷ rest)
            (a.same_data i (omega arith) h)

    indices-lem :
        (count i : ℕ) (c : Bits)
        → Ahead i c
        → (d : Bits) × (finalize_indices L R behaviour s (is_finalized b) count i c ≡ some d)
          × Looped count i c d
    unfolding finalize_indices
    indices-lem zero i c a =
        let e : i ≡ i + zero = omega arith in
        (c, refl, record { ahead = subst (λ j. Ahead j c) e a; events = sym (append-nil c.trace) })
    indices-lem (suc count) i c a =
        let n : i + 1 + count ≡ i + suc count = omega arith in
        elim (Bool-cases (is_finalized b i)) [
          | inl hit ↦
              let c' = after_finalizer L R behaviour s i (data_of i) c in
              let (d, e, l) = indices-lem count (i + 1) c' (finalized-Ahead i c a hit) in
              (
                d,
                rw (finalized_step i c a hit, finalize_indices) e,
                record {
                  ahead = subst (λ j. Ahead j d) n l.ahead;
                  events =
                      rw hit
                        (l.events ∙ hit_events i c (finalizings b data_of count (i + 1)) a hit);
                },
              )
          | inr miss ↦
              let (d, e, l) = indices-lem count (i + 1) c (skipped-Ahead i c a miss) in
              (
                d,
                rw (skipped_step i c miss, finalize_indices) e,
                record { ahead = subst (λ j. Ahead j d) n l.ahead; events = rw miss l.events },
              )
        ]

    -- If each entry to be finalized has user data of its own, does not abort on collection, and its
    -- finalizer throws nothing but a `std::exception`, then the finalization returns. It has run the
    -- finalizer of each such entry once, in the order of the entries, and zeroed the entry right after, and
    -- no other; then it has zeroed the entries that are freed without a finalizer, and freed what is not
    -- marked. An entry is finalizeable after it if it was before and is not freed.
    pub finalize_bitmap-exact :
        (d : Bits) × (finalize_bitmap L R behaviour s b ≡ some d)
        × (d.trace
            ≡ b.trace
              ++ (finalizings b data_of s.size 0
                  ++ (zero_rest L R behaviour s (λ i. s.to_be_freed i && not (is_finalized b i))
                      ++ unmarked_freed ∷ [])))
        × ((j : ℕ) → j < s.size → d.finalizeable j ≡ (b.finalizeable j && not (s.to_be_freed j)))
    unfolding finalize_bitmap
    finalize_bitmap-exact =
        let start : Ahead 0 b = record {
          same_bit = λ j le. refl;
          same_data = λ j le f. refl;
          done = λ j lt. absurd (omega (arith, lt));
        } in
        let (c, e, l) = indices-lem s.size 0 b start in
        let tail =
          zero_rest L R behaviour s (λ i. s.to_be_freed i && not (is_finalized b i))
          ++ unmarked_freed ∷ [] in
        let d : Bits = record c { trace = c.trace ++ tail } in
        (
          d,
          rw (e, finalize_bitmap),
          ap (λ t. t ++ tail) l.events ∙ append_assoc b.trace (finalizings b data_of s.size 0) tail,
          λ j lt. l.ahead.done j (omega (arith, lt)),
        )
