-- ===== src/Sweep/Clear.antt =====
-- `_clear_marks`: the marks of the blocks are cleared, and nothing else changes.
use mathlib.Core.List.Memᴰ
use cgc.Base.{
  ℕ, ◌≡◌, refl, ◌∙◌, ◌⊎◌, inl, inr, ⊎_elim, true, false, List, [], ◌∷◌, ◌++◌, Memᴰ, ◌==◌, ==_iff,
  Bool-cases, arith,
}
use cgc.Word.Flags.{is_marked, is_atomic, is_complex, clear_mark, setters-Independent}
use cgc.Heap.{ObjectHeader}
use cgc.Sweep.{clear_state, clear_block, clear_marks}

-- The states that a walk over the blocks meets.
abbrev pub all_states : List (List ℕ) → List ℕ
all_states [] = []
all_states (block ∷ rest) = block ++ all_states rest

module _ (H : ObjectHeader) where
  -- The second state is the first one up to its mark.
  pub record SameButMark (s t : H.State) : Type 0 where
    pub in_use_same : H.in_use t ≡ H.in_use s
    pub quasi_same : H.quasi_freed t ≡ H.quasi_freed s
    pub data_same : H.user_data t ≡ H.user_data s
    pub atomic_same : is_atomic (H.user_flags t) ≡ is_atomic (H.user_flags s)
    pub complex_same : is_complex (H.user_flags t) ≡ is_complex (H.user_flags s)

  pub SameButMark-refl : (s : H.State) → SameButMark s s
  SameButMark-refl s = record {
    in_use_same = refl;
    quasi_same = refl;
    data_same = refl;
    atomic_same = refl;
    complex_same = refl;
  }

  SameButMark-trans : (s t u : H.State) → SameButMark s t → SameButMark t u → SameButMark s u
  SameButMark-trans s t u h k = record {
    in_use_same = k.in_use_same ∙ h.in_use_same;
    quasi_same = k.quasi_same ∙ h.quasi_same;
    data_same = k.data_same ∙ h.data_same;
    atomic_same = k.atomic_same ∙ h.atomic_same;
    complex_same = k.complex_same ∙ h.complex_same;
  }

  cleared : H.State → H.State
  cleared s = H.set_user_flags (clear_mark (H.user_flags s)) s

  cleared_same :
      (s : H.State) → SameButMark s (cleared s) × (is_marked (H.user_flags (cleared s)) ≡ false)
  unfolding cleared
  cleared_same s =
      let facts = (setters-Independent (H.user_flags s) true).3 in
      let e = H.user_flags-set (clear_mark (H.user_flags s)) s facts.3 in
      (
        record {
          in_use_same = H.in_use-set_flags _ s;
          quasi_same = H.quasi_freed-set_flags _ s;
          data_same = H.user_data-set_flags _ s;
          atomic_same = rw e facts.1;
          complex_same = rw e facts.2;
        },
        rw e facts.0,
      )

  -- The effect on the state at `q`.
  pub record Clears (here : Type 0) (s t : H.State) : Type 0 where
    pub same : SameButMark s t
    pub unmarked : here → is_marked (H.user_flags t) ≡ false
    pub stays : is_marked (H.user_flags s) ≡ false → is_marked (H.user_flags t) ≡ false

  clear_state_at :
      (os q : ℕ) (states : ℕ → H.State) → Clears (q ≡ os) (states q) (clear_state H os states q)
  unfolding clear_state cleared
  clear_state_at os q states = elim (Bool-cases (os == q)) [
    | inl hit ↦
        let e : os ≡ q = (==_iff os q).0 hit in
        let (s, u) = cleared_same (states q) in
        rw (hit, e) (record { same = s; unmarked = λ _. u; stays = λ _. u })
    | inr miss ↦ rw miss (record {
      same = SameButMark-refl (states q);
      unmarked = λ e. absurd (ground arith);
      stays = λ h. h;
    })
  ]

  -- What one part leaves unmarked, the next one does not mark.
  Clears-trans :
      (A B C : Type 0) (s t u : H.State) → (C → A ⊎ B) → Clears A s t → Clears B t u → Clears C s u
  Clears-trans A B C s t u split a b = record {
    same = SameButMark-trans s t u a.same b.same;
    unmarked = λ c. ⊎_elim (λ h. b.stays (a.unmarked h)) b.unmarked (split c);
    stays = λ h. b.stays (a.stays h);
  }

  Clears-refl : (A : Type 0) (s : H.State) → ¬ A → Clears A s s
  Clears-refl A s n = record {
    same = SameButMark-refl s;
    unmarked = λ a. absurd (n a);
    stays = λ h. h;
  }

  clear_block_at :
      (block : List ℕ) (q : ℕ) (states : ℕ → H.State)
      → Clears (Memᴰ q block) (states q) (clear_block H block states q)
  unfolding clear_block
  clear_block_at [] q states = Clears-refl (Memᴰ q []) (states q) Memᴰ.not-nil
  clear_block_at (os ∷ rest) q states =
      Clears-trans (q ≡ os) (Memᴰ q rest) (Memᴰ q (os ∷ rest)) (states q) _ _ Memᴰ.cases_cons
        (clear_state_at os q states) (clear_block_at rest q (clear_state H os states))

  -- After `_clear_marks` an object state that lies in one of the blocks is not marked, a state that was
  -- not marked before is not marked, and every state keeps its other flags, its user data, and whether
  -- it is in use or quasi freed.
  pub clear_marks_at :
      (blocks : List (List ℕ)) (q : ℕ) (states : ℕ → H.State)
      → Clears (Memᴰ q (all_states blocks)) (states q) (clear_marks H blocks states q)
  unfolding clear_marks
  clear_marks_at [] q states = Clears-refl (Memᴰ q []) (states q) Memᴰ.not-nil
  clear_marks_at (block ∷ rest) q states =
      Clears-trans (Memᴰ q block) (Memᴰ q (all_states rest)) (Memᴰ q (block ++ all_states rest))
        (states q) _ _ (Memᴰ.append_cases block) (clear_block_at block q states)
        (clear_marks_at rest q (clear_block H block states))
