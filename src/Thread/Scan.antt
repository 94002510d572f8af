-- ===== src/Thread/Scan.antt =====
-- The scan of a stack finds exactly the slots whose words may be addresses of objects.
use mathlib.Core.List.Memᴰ
use mathlib.Core.List.{append_assoc, append-nil}
use cgc.Base.{
  ℕ, zero, suc, ◌+◌, ◌*◌, ◌≤◌, ◌≡◌, ◌≢◌, refl, sym, ap, ◌∙◌, inl, inr, Bool, true, false, ◌&&◌,
  some, List, [], ◌∷◌, ◌++◌, Memᴰ, Bool-cases, if◌then◌else◌, ◌==◌, ==-ne, ltb, leb, arith,
}
use cgc.Heap.{ObjectHeader, Layout}
use cgc.Mark.Reach.{Object, resolve}
use cgc.Thread.{ThreadState, found, Bounds, is_candidate, scan_from, scan_stack}

-- The addresses of `count` slots of eight bytes.
abbrev pub slots : ℕ → ℕ → List ℕ
slots start zero = []
slots start (suc count) = start ∷ slots (start + 8) count

abbrev pub keep : (ℕ → Bool) → List ℕ → List ℕ
keep p [] = []
keep p (x ∷ xs) = if p x then x ∷ keep p xs else keep p xs

pub mem-keep : (p : ℕ → Bool) (x : ℕ) (xs : List ℕ) → Memᴰ x xs → p x ≡ true → Memᴰ x (keep p xs)
mem-keep p x [] i h = absurd (Memᴰ.not-nil i)
mem-keep p x (y ∷ ys) i h = elim (Memᴰ.cases_cons i) [
  | inl e ↦ rw (← e, h) (Memᴰ.head refl)
  | inr j ↦ elim (Bool-cases (p y)) [
    | inl hit ↦ rw hit (Memᴰ.tail (mem-keep p x ys j h))
    | inr miss ↦ rw miss (mem-keep p x ys j h)
  ]
]

pub keep-mem : (p : ℕ → Bool) (x : ℕ) (xs : List ℕ) → Memᴰ x (keep p xs) → Memᴰ x xs
keep-mem p x [] i = i
keep-mem p x (y ∷ ys) i = elim (Bool-cases (p y)) [
  | inl hit ↦ elim (Memᴰ.cases_cons (rw hit at i)) [
    | inl e ↦ Memᴰ.head e
    | inr j ↦ Memᴰ.tail (keep-mem p x ys j)
  ]
  | inr miss ↦ Memᴰ.tail (keep-mem p x ys (rw miss at i))
]

container_cons :
    (b : Bool) (xs : List ℕ) (v : ℕ) (ys : List ℕ)
    → (if b then xs ++ v ∷ [] else xs) ++ ys ≡ xs ++ (if b then v ∷ ys else ys)
container_cons true xs v ys = append_assoc xs (v ∷ []) ys
container_cons false xs v ys = refl

module _ (L : Layout) (B : Bounds) where
  abbrev pub candidates : ℕ → ℕ → List ℕ
  candidates start count = keep (λ v. is_candidate L B (L.load v)) (slots start count)

  scan_hit :
      (rounds top v : ℕ) (container : List ℕ)
      → v ≡ top
      → scan_from L B (suc rounds) top v container ≡ found container
  unfolding scan_from
  scan_hit rounds top v container e = let h : (v == top) ≡ true = ground arith in rw (h, scan_from)

  scan_next :
      (rounds top v : ℕ) (container : List ℕ)
      → v ≢ top
      → scan_from L B (suc rounds) top v container
        ≡ scan_from L B rounds top
            (v + 8)
            (if is_candidate L B (L.load v) then container ++ v ∷ [] else container)
  unfolding scan_from
  scan_next rounds top v container n = rw (==-ne v top n, scan_from)

  scan_from-candidates :
      (count more top v : ℕ) (container : List ℕ)
      → top ≡ v + 8 * count
      → scan_from L B (suc (count + more)) top v container ≡ found (container ++ candidates v count)
  scan_from-candidates zero more top v container e =
      scan_hit (zero + more) top v container (omega arith) ∙ ap found (sym (append-nil container))
  scan_from-candidates (suc count) more top v container e =
      let n : suc count + more ≡ suc (count + more) = omega arith in
      scan_next (suc count + more) top v container (omega arith)
      ∙ ap
          (λ r.
            scan_from L B r top (v + 8)
              (if is_candidate L B (L.load v) then container ++ v ∷ [] else container))
          n
      ∙ scan_from-candidates count more top (v + 8)
          (if is_candidate L B (L.load v) then container ++ v ∷ [] else container) (omega arith)
      ∙ ap found
          (container_cons (is_candidate L B (L.load v)) container v (candidates (v + 8) count))

  -- If the stack pointer and the top of the stack are set, the stack pointer is aligned and the top lies
  -- `count` slots above it, then a scan of more than `count` rounds ends, and appends to the container
  -- exactly the slots whose word passes one of the two tests, from the stack pointer up.
  pub scan_stack-candidates :
      (align : ℕ → ℕ) (count more : ℕ) (container : List ℕ) (t : ThreadState)
      → t.stack_ptr ≢ 0
      → t.top_of_stack ≢ 0
      → align t.stack_ptr ≡ t.stack_ptr
      → t.top_of_stack ≡ t.stack_ptr + 8 * count
      → scan_stack L B align (suc (count + more)) container t
        ≡ found (container ++ candidates t.stack_ptr count)
  unfolding scan_stack
  scan_stack-candidates align count more container t sp top aligned e =
      rw (==-ne t.stack_ptr 0 sp, ==-ne t.top_of_stack 0 top, aligned)
        (scan_from-candidates count more t.top_of_stack t.stack_ptr container e)

  -- The bounds of the scan are those of the memory that the mark phase knows.
  pub record Covers : Type 0 where
    pub fast_begin : B.fast_slab_begin ≤ L.fast_heap_begin
    pub fast_end : L.fast_heap_end ≤ B.fast_slab_end
    pub current :
        (os : ℕ) → L.in_current_range os ≡ true → (leb B.slab_begin os && ltb os B.slab_end) ≡ true

  module _ (H : ObjectHeader) (states : ℕ → H.State) (c : Covers) where
    -- A word that the mark phase takes for an address of an object passes the scan's test.
    pub resolve-is_candidate :
        (a : ℕ) (o : Object) → resolve H L states a ≡ some o → is_candidate L B a ≡ true
    unfolding resolve is_candidate
    resolve-is_candidate a o e = elim (Bool-cases (L.in_current_range (L.from_object_start a))) [
      | inl inside ↦ rw (c.current (L.from_object_start a) inside)
      | inr outside ↦ ground (arith, c.fast_begin, c.fast_end)
    ]
