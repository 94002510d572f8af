-- ===== src/Sweep/Trace.antt =====
-- What is observed of finalization: the calls of finalizers, the memory destroyed and the user data
-- deallocated, and a description of what is due for each object state.
use mathlib.Core.List.{append_assoc}
use cgc.Base.{
  ℕ, suc, ◌+◌, ◌≡◌, refl, sym, ap, ◌∙◌, Bool, false, not, ◌&&◌, Option, none, some, List, [], ◌∷◌,
  ◌++◌, ◌==◌, if◌then◌else◌, arith,
}
use cgc.Word.{hide_pointer}
use cgc.Heap.{ObjectHeader, Layout}
use cgc.Sweep.{UserData, Event, runs, deletes, zeroes, destroys}

-- The calls of finalizers, as pairs of finalizer and object.
abbrev pub calls : List Event → List (ℕ × ℕ)
calls [] = []
calls (runs f p ∷ es) = (f, p) ∷ calls es
calls (deletes p ∷ es) = calls es
calls (zeroes p n ∷ es) = calls es
calls (destroys l ∷ es) = calls es

-- The object states whose memory is destroyed.
abbrev pub destroyed : List Event → List ℕ
destroyed [] = []
destroyed (runs f p ∷ es) = destroyed es
destroyed (deletes p ∷ es) = destroyed es
destroyed (zeroes p n ∷ es) = destroyed es
destroyed (destroys l ∷ es) = l ++ destroyed es

-- How often user data is deallocated.
abbrev pub deletions : ℕ → List Event → ℕ
deletions p [] = 0
deletions p (runs f q ∷ es) = deletions p es
deletions p (deletes q ∷ es) = if q == p then suc (deletions p es) else deletions p es
deletions p (zeroes q n ∷ es) = deletions p es
deletions p (destroys l ∷ es) = deletions p es

pub calls-append : (xs ys : List Event) → calls (xs ++ ys) ≡ calls xs ++ calls ys
calls-append [] ys = refl
calls-append (runs f p ∷ es) ys = ap (◌∷◌ (f, p)) (calls-append es ys)
calls-append (deletes p ∷ es) ys = calls-append es ys
calls-append (zeroes p n ∷ es) ys = calls-append es ys
calls-append (destroys l ∷ es) ys = calls-append es ys

pub destroyed-append : (xs ys : List Event) → destroyed (xs ++ ys) ≡ destroyed xs ++ destroyed ys
destroyed-append [] ys = refl
destroyed-append (runs f p ∷ es) ys = destroyed-append es ys
destroyed-append (deletes p ∷ es) ys = destroyed-append es ys
destroyed-append (zeroes p n ∷ es) ys = destroyed-append es ys
destroyed-append (destroys l ∷ es) ys =
    ap (◌++◌ l) (destroyed-append es ys) ∙ sym (append_assoc l (destroyed es) (destroyed ys))

pub deletions-append :
    (p : ℕ) (xs ys : List Event) → deletions p (xs ++ ys) ≡ deletions p xs + deletions p ys
deletions-append p [] ys = omega arith
deletions-append p (runs f q ∷ es) ys = deletions-append p es ys
deletions-append p (deletes q ∷ es) ys = ground (arith, deletions-append p es ys)
deletions-append p (zeroes q n ∷ es) ys = deletions-append p es ys
deletions-append p (destroys l ∷ es) ys = deletions-append p es ys

module _ (H : ObjectHeader) (L : Layout) (states : ℕ → H.State) (user_data : ℕ → UserData) where
  abbrev pub data_of : ℕ → UserData
  data_of os = user_data (H.user_data (states os))

  -- The finalizer that is to run for the object, if it has user data of its own with a finalizer.
  abbrev pub finalizer_of : ℕ → Option ℕ
  finalizer_of os =
      if not (H.user_data (states os) == 0) && not (data_of os).is_default
      then (data_of os).finalizer
      else none

  -- Its finalizer must run in a thread of the program's choice.
  abbrev pub is_special : ℕ → Bool
  is_special os = elim (finalizer_of os) [
    | none ↦ false
    | some f ↦ not (data_of os).allow_arbitrary_finalizer_thread
  ]

  abbrev pub specials : List ℕ → List ℕ
  specials [] = []
  specials (os ∷ rest) = if is_special os then os ∷ specials rest else specials rest

  -- The hidden pointers of the objects that are not special.
  abbrev pub freed : List ℕ → List ℕ
  freed [] = []
  freed (os ∷ rest) =
      if is_special os then freed rest else hide_pointer (L.object_start os) ∷ freed rest

  -- The finalizers to run, with their objects.
  abbrev pub due : List ℕ → List (ℕ × ℕ)
  due [] = []
  due (os ∷ rest) = elim (finalizer_of os) [
    | none ↦ due rest
    | some f ↦ (f, L.object_start os) ∷ due rest
  ]

  -- Those that `_finalize` itself is to run.
  abbrev pub due_here : List ℕ → List (ℕ × ℕ)
  due_here [] = []
  due_here (os ∷ rest) = if is_special os then due_here rest else due (os ∷ []) ++ due_here rest

  -- The hidden pointers of all objects.
  abbrev pub hidden : List ℕ → List ℕ
  hidden [] = []
  hidden (os ∷ rest) = hide_pointer (L.object_start os) ∷ hidden rest
