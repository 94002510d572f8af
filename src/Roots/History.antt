-- ===== src/Roots/History.antt =====
-- Histories of calls on the root collection, against a description that keeps no vector: the latest
-- call about an element decides.
use cgc.Base.{
  ℕ, ◌≡◌, refl, Bool, false, List, [], ◌∷◌, ◌||◌, if◌then◌else◌, ◌==◌, Eq, contains, arith,
}
use cgc.Roots.{
  RootCollection, has_root, add_root, remove_root, has_range, add_range, remove_range, clear,
}
use cgc.Roots.Laws.{
  IsUnique, add_root-IsUnique, remove_root-IsUnique, has_root-add_root, has_root-remove_root,
  add_range-IsUnique, remove_range-IsUnique, has_range-add_range, has_range-remove_range,
}

-- A call of one of the members that change the collection.
pub data Call (Range : Type 0) : Type 0 where
  adds removes : ℕ → Call Range
  adds_range removes_range : Range → Call Range
  clears : Call Range

module _ {Range : Type 0} ⦃e : Eq Range⦄ where
  unfoldable pub step : Call Range → RootCollection Range → RootCollection Range
  step (adds r) c = add_root r c
  step (removes r) c = remove_root r c
  step (adds_range r) c = add_range r c
  step (removes_range r) c = remove_range r c
  step clears c = clear c

  -- The calls, the first one first.
  unfoldable pub run : List (Call Range) → RootCollection Range → RootCollection Range
  run [] c = c
  run (k ∷ ks) c = run ks (step k c)

  -- Is `q` a root after the calls, if it was `before` them? The latest call about it decides.
  abbrev pub root_after : ℕ → Bool → List (Call Range) → Bool
  root_after q before [] = before
  root_after q before (adds r ∷ ks) = root_after q (r == q || before) ks
  root_after q before (removes r ∷ ks) = root_after q (if r == q then false else before) ks
  root_after q before (adds_range r ∷ ks) = root_after q before ks
  root_after q before (removes_range r ∷ ks) = root_after q before ks
  root_after q before (clears ∷ ks) = root_after q false ks

  abbrev pub range_after : Range → Bool → List (Call Range) → Bool
  range_after q before [] = before
  range_after q before (adds r ∷ ks) = range_after q before ks
  range_after q before (removes r ∷ ks) = range_after q before ks
  range_after q before (adds_range r ∷ ks) = range_after q (e.beq r q || before) ks
  range_after q before (removes_range r ∷ ks) =
      range_after q (if e.beq r q then false else before) ks
  range_after q before (clears ∷ ks) = range_after q false ks

  pub step-IsUnique : (k : Call Range) {c : RootCollection Range} → IsUnique c → IsUnique (step k c)
  unfolding step clear
  step-IsUnique (adds r) u = add_root-IsUnique r u
  step-IsUnique (removes r) u = remove_root-IsUnique r u
  step-IsUnique (adds_range r) u = add_range-IsUnique r u
  step-IsUnique (removes_range r) u = remove_range-IsUnique r u
  step-IsUnique clears u = record { roots_distinct = tt; ranges_distinct = tt }

  -- No history of calls puts an element into either vector twice.
  pub run-IsUnique :
      (ks : List (Call Range)) {c : RootCollection Range} → IsUnique c → IsUnique (run ks c)
  unfolding run
  run-IsUnique [] u = u
  run-IsUnique (k ∷ ks) u = run-IsUnique ks (step-IsUnique k u)

  root_same :
      (q : ℕ) (k : Call Range) {c : RootCollection Range}
      → IsUnique c
      → has_root q (step k c) ≡ root_after q (has_root q c) (k ∷ [])
  unfolding step clear add_range remove_range has_root contains
  root_same q (adds r) u = has_root-add_root r u q
  root_same q (removes r) u = has_root-remove_root r u q
  root_same q (adds_range r) u = ground arith
  root_same q (removes_range r) u = ground arith
  root_same q clears u = refl

  range_same :
      (q : Range) (k : Call Range) {c : RootCollection Range}
      → IsUnique c
      → has_range q (step k c) ≡ range_after q (has_range q c) (k ∷ [])
  unfolding step clear add_root remove_root has_range contains
  range_same q (adds r) u = ground arith
  range_same q (removes r) u = ground arith
  range_same q (adds_range r) u = has_range-add_range r u q
  range_same q (removes_range r) u = has_range-remove_range r u q
  range_same q clears u = refl

  root_after-cons :
      (q : ℕ) (b : Bool) (k : Call Range) (ks : List (Call Range))
      → root_after q b (k ∷ ks) ≡ root_after q (root_after q b (k ∷ [])) ks
  root_after-cons q b (adds r) ks = refl
  root_after-cons q b (removes r) ks = refl
  root_after-cons q b (adds_range r) ks = refl
  root_after-cons q b (removes_range r) ks = refl
  root_after-cons q b clears ks = refl

  range_after-cons :
      (q : Range) (b : Bool) (k : Call Range) (ks : List (Call Range))
      → range_after q b (k ∷ ks) ≡ range_after q (range_after q b (k ∷ [])) ks
  range_after-cons q b (adds r) ks = refl
  range_after-cons q b (removes r) ks = refl
  range_after-cons q b (adds_range r) ks = refl
  range_after-cons q b (removes_range r) ks = refl
  range_after-cons q b clears ks = refl

  -- After any history of calls on a collection without duplicates, `has_root` and `has_range` answer
  -- what the latest call about the element says, and what they answered before if no call was about it.
  pub run-answers :
      (ks : List (Call Range)) {c : RootCollection Range}
      → IsUnique c
      → ((q : ℕ) → has_root q (run ks c) ≡ root_after q (has_root q c) ks)
        × ((q : Range) → has_range q (run ks c) ≡ range_after q (has_range q c) ks)
  unfolding run
  run-answers [] u = (λ q. refl, λ q. refl)
  run-answers (k ∷ ks) {c} u =
      let rest = run-answers ks (step-IsUnique k u) in
      (
        λ q. rw (root_after-cons q (has_root q c) k ks, ← root_same q k u) (rest.0 q),
        λ q. rw (range_after-cons q (has_range q c) k ks, ← range_same q k u) (rest.1 q),
      )
