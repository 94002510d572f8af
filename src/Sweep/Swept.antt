-- ===== src/Sweep/Swept.antt =====
-- `_sweep` against a description of what becomes of each object state: it is kept, it is quasi freed,
-- or it is put on the list of objects to be freed.
use mathlib.Core.List.Memᴰ
use mathlib.Core.List.{append_assoc, append-nil}
use cgc.Base.{
  ℕ, ◌+◌, ◌≡◌, refl, sym, ap, ◌∙◌, subst, inl, inr, Bool, true, false, not, ◌||◌, List, [], ◌∷◌,
  ◌++◌, Memᴰ, Distinct, ◌==◌, if◌then◌else◌, arith,
}
use cgc.Word.Flags.{is_marked}
use cgc.Heap.{ObjectHeader}
use cgc.Sweep.{UserData, Sweeping, sweep_garbage, sweep_state, sweep_block, sweep_blocks, sweep}
use cgc.Sweep.Clear.{all_states}

pub data Fate : Type 0 where
  kept quasi_freed queued : Fate

abbrev pub is_quasi : Fate → Bool
is_quasi quasi_freed = true
is_quasi _ = false

abbrev pub is_queued : Fate → Bool
is_queued queued = true
is_queued _ = false

abbrev pub weight : Fate → ℕ
weight kept = 0
weight _ = 1

module _ (H : ObjectHeader) (user_data : ℕ → UserData) where
  -- Garbage without user data of its own is quasi freed, uncollectable objects are kept, and other
  -- garbage is queued.
  unfoldable pub fate : H.State → Fate
  fate s =
      let ud = user_data (H.user_data s) in
      if not (H.in_use s) || is_marked (H.user_flags s)
      then kept
      else if H.user_data s == 0 || ud.is_default
      then quasi_freed
      else if ud.uncollectable
      then kept
      else queued

  abbrev pub swept : H.State → H.State
  swept s = if is_quasi (fate s) then H.set_quasi_freed s else s

  -- The states of the list that are queued, in order, and how many are not kept.
  abbrev pub queue_of : (ℕ → H.State) → List ℕ → List ℕ
  queue_of states [] = []
  queue_of states (os ∷ rest) =
      if is_queued (fate (states os)) then os ∷ queue_of states rest else queue_of states rest

  abbrev pub freed_of : (ℕ → H.State) → List ℕ → ℕ
  freed_of states [] = 0
  freed_of states (os ∷ rest) = weight (fate (states os)) + freed_of states rest

  -- The effect of a walk over `list` that led from `w` to `w'`.
  pub record Sweeps (list : List ℕ) (w w' : Sweeping H) : Type 0 where
    pub inside : (q : ℕ) → Memᴰ q list → w'.states q ≡ swept (w.states q)
    pub outside : (q : ℕ) → ¬ Memᴰ q list → w'.states q ≡ w.states q
    pub queue : w'.to_be_freed ≡ w.to_be_freed ++ queue_of w.states list
    pub count : w'.num_freed ≡ w.num_freed + freed_of w.states list

  module _ (os : ℕ) (w : Sweeping H) where
    state_inside : (sweep_state H user_data os w).states os ≡ swept (w.states os)
    unfolding sweep_state sweep_garbage fate
    state_inside = ground arith

    state_outside :
        (q : ℕ) → (os == q) ≡ false → (sweep_state H user_data os w).states q ≡ w.states q
    unfolding sweep_state sweep_garbage fate
    state_outside q h = ground arith

    state_queue :
        (sweep_state H user_data os w).to_be_freed
        ≡ w.to_be_freed ++ (if is_queued (fate (w.states os)) then os ∷ [] else [])
    unfolding sweep_state sweep_garbage fate
    state_queue = ground (arith, append-nil w.to_be_freed)

    state_count :
        (sweep_state H user_data os w).num_freed ≡ w.num_freed + weight (fate (w.states os))
    unfolding sweep_state sweep_garbage fate
    state_count = ground arith

  queue_of-same :
      (f g : ℕ → H.State) (list : List ℕ)
      → ((q : ℕ) → Memᴰ q list → f q ≡ g q)
      → queue_of f list ≡ queue_of g list
  queue_of-same f g [] h = refl
  queue_of-same f g (os ∷ rest) h =
      ground (arith, h os (Memᴰ.head refl), queue_of-same f g rest (λ q i. h q (Memᴰ.tail i)))

  freed_of-same :
      (f g : ℕ → H.State) (list : List ℕ)
      → ((q : ℕ) → Memᴰ q list → f q ≡ g q)
      → freed_of f list ≡ freed_of g list
  freed_of-same f g [] h = refl
  freed_of-same f g (os ∷ rest) h =
      ground (arith, h os (Memᴰ.head refl), freed_of-same f g rest (λ q i. h q (Memᴰ.tail i)))

  queue_of-cons :
      (states : ℕ → H.State) (os : ℕ) (rest : List ℕ)
      → queue_of states (os ∷ rest)
        ≡ (if is_queued (fate (states os)) then os ∷ [] else []) ++ queue_of states rest
  queue_of-cons states os rest = ground arith

  module _ (os : ℕ) (rest : List ℕ) (w w' : Sweeping H) (d : Distinct (os ∷ rest))
      (later : Sweeps rest (sweep_state H user_data os w) w') where
    abbrev w1 : Sweeping H
    w1 = sweep_state H user_data os w

    apart : (q : ℕ) → Memᴰ q rest → w1.states q ≡ w.states q
    apart q j =
        state_outside os w q (ground (arith, λ (e : q ≡ os). d.0 (subst (λ p. Memᴰ p rest) e j)))

    cons_queue : w'.to_be_freed ≡ w.to_be_freed ++ queue_of w.states (os ∷ rest)
    cons_queue = rw (
      later.queue,
      queue_of-same w1.states w.states rest apart,
      state_queue os w,
      queue_of-cons w.states os rest,
      append_assoc,
    )

    Sweeps-cons : Sweeps (os ∷ rest) w w'
    Sweeps-cons = record {
      inside = λ q i. elim (Memᴰ.cases_cons i) [
        | inl e ↦
            subst (λ p. w'.states p ≡ swept (w.states p)) (sym e)
              (later.outside os d.0 ∙ state_inside os w)
        | inr j ↦ later.inside q j ∙ ap swept (apart q j)
      ];
      outside = λ q n.
          later.outside q (λ j. n (Memᴰ.tail j))
          ∙ state_outside os w q (ground (arith, λ (e : q ≡ os). n (Memᴰ.head e)));
      queue = cons_queue;
      count =
          omega (arith, later.count, state_count os w, freed_of-same w1.states w.states rest apart);
    }

  sweep_block-Sweeps :
      (list : List ℕ) (w : Sweeping H)
      → Distinct list
      → Sweeps list w (sweep_block H user_data list w)
  unfolding sweep_block
  sweep_block-Sweeps [] w d = record {
    inside = λ q i. absurd (Memᴰ.not-nil i);
    outside = λ q n. refl;
    queue = rw (append-nil w.to_be_freed);
    count = omega arith;
  }
  sweep_block-Sweeps (os ∷ rest) w d =
      Sweeps-cons os rest w (sweep_block H user_data rest (sweep_state H user_data os w)) d
        (sweep_block-Sweeps rest (sweep_state H user_data os w) d.1)

  sweep_block-append :
      (xs ys : List ℕ) (w : Sweeping H)
      → sweep_block H user_data (xs ++ ys) w
        ≡ sweep_block H user_data ys (sweep_block H user_data xs w)
  unfolding sweep_block
  sweep_block-append [] ys w = refl
  sweep_block-append (x ∷ xs) ys w = sweep_block-append xs ys (sweep_state H user_data x w)

  sweep_blocks-flat :
      (blocks : List (List ℕ)) (w : Sweeping H)
      → sweep_blocks H user_data blocks w ≡ sweep_block H user_data (all_states blocks) w
  unfolding sweep_blocks sweep_block
  sweep_blocks-flat [] w = refl
  sweep_blocks-flat (b ∷ rest) w =
      sweep_blocks-flat rest (sweep_block H user_data b w)
      ∙ sym (sweep_block-append b (all_states rest) w)

  -- `_sweep` over blocks in which no object state occurs twice: a state in use and not marked that has no
  -- user data, or the default user data, becomes quasi freed, no other state in the blocks and none
  -- outside them changes; the unmarked states in use with user data of their own that is not
  -- uncollectable are appended to the list to be freed, in the order of the walk, and nothing else; and
  -- the counter is the number of those states that were quasi freed or appended.
  pub sweep-Sweeps :
      (blocks : List (List ℕ)) (states : ℕ → H.State) (to_be_freed : List ℕ)
      → Distinct (all_states blocks)
      → Sweeps
          (all_states blocks)
          (record { states = states; to_be_freed = to_be_freed; num_freed = 0 })
          (sweep H user_data blocks states to_be_freed)
  unfolding sweep
  sweep-Sweeps blocks states to_be_freed d =
      rw sweep_blocks-flat (sweep_block-Sweeps (all_states blocks) _ d)
