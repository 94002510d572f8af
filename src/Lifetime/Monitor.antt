-- ===== src/Lifetime/Monitor.antt =====
-- A monitor of the events at the end of a kernel's life, which refuses what must not happen, and what it
-- says of the end of one collector thread.
use cgc.Base.{
  ℕ, ◌≡◌, refl, ap, ◌∙◌, Bool, true, false, not, ◌&&◌, Option, none, some, List, [], ◌∷◌, ◌++◌,
  if◌then◌else◌, ==_refl, contains, nat_eq, arith,
}
use cgc.Lifetime.{
  Event, exits, joins, clears, frees, waits, frees_vector, shuts_bitmap, shuts_sparse,
  shuts_internal, GcThread, gc_thread_shutdown, gc_thread_destructor,
}

-- Which collector threads have been joined and freed, and which allocators are up.
pub record Monitor : Type 0 where
  pub joined : List ℕ
  pub freed : List ℕ
  pub bitmap : Bool
  pub sparse : Bool
  pub internal : Bool

-- A thread ends while the allocators that it may use are up, and is joined only once, and freed only once
-- and joined; memory is given back to the internal allocator only while this is up; and an allocator is
-- shut down once.
unfoldable pub allow : Event → Monitor → Option Monitor
allow (exits i) m = if m.sparse && m.internal && not (contains i m.joined) then some m else none
allow (joins i) m = if contains i m.joined then none else some (record m { joined = i ∷ m.joined })
allow (clears i) m = if m.internal then some m else none
allow (frees i) m =
    if contains i m.joined && not (contains i m.freed)
    then some (record m { freed = i ∷ m.freed })
    else none
allow waits m = if m.sparse && m.internal then some m else none
allow frees_vector m = if m.internal then some m else none
allow shuts_bitmap m = if m.bitmap then some (record m { bitmap = false }) else none
allow shuts_sparse m = if m.sparse then some (record m { sparse = false }) else none
allow shuts_internal m = if m.internal then some (record m { internal = false }) else none

abbrev pub and_then : Option Monitor → (Monitor → Option Monitor) → Option Monitor
and_then none k = none
and_then (some m) k = k m

abbrev pub allow_all : List Event → Monitor → Option Monitor
allow_all [] m = some m
allow_all (e ∷ es) m = and_then (allow e m) (allow_all es)

abbrev pub ids : List GcThread → List ℕ
ids [] = []
ids (t ∷ ts) = t.id ∷ ids ts

-- The threads that run, none of them joined or freed, each there once.
abbrev pub Fresh : List GcThread → List ℕ → List ℕ → Type 0
Fresh [] joined freed = Unit
Fresh (t ∷ ts) joined freed =
    (t.run ≡ true)
    × (contains t.id joined ≡ false)
    × (contains t.id freed ≡ false)
    × (contains t.id (ids ts) ≡ false)
    × Fresh ts joined freed

abbrev pub rev_onto : List ℕ → List ℕ → List ℕ
rev_onto [] l = l
rev_onto (i ∷ is) l = rev_onto is (i ∷ l)

pub later_joined :
    (i : ℕ) (ts : List GcThread) (joined freed : List ℕ)
    → contains i (ids ts) ≡ false
    → Fresh ts joined freed
    → Fresh ts (i ∷ joined) freed
unfolding contains
later_joined i [] joined freed c h = tt
later_joined i (t ∷ ts) joined freed c h =
    (h.0, ground (arith, c, h.1), h.2, h.3, later_joined i ts joined freed (ground (arith, c)) h.4)

pub later_freed :
    (i : ℕ) (ts : List GcThread) (joined freed : List ℕ)
    → contains i (ids ts) ≡ false
    → Fresh ts joined freed
    → Fresh ts joined (i ∷ freed)
unfolding contains
later_freed i [] joined freed c h = tt
later_freed i (t ∷ ts) joined freed c h =
    (h.0, h.1, ground (arith, c, h.2), h.3, later_freed i ts joined freed (ground (arith, c)) h.4)

pub allowed :
    (e : Event) (es : List Event) (m n : Monitor)
    → allow e m ≡ some n
    → allow_all (e ∷ es) m ≡ allow_all es n
allowed e es m n h = ap (λ o. and_then o (allow_all es)) h

module _ (m : Monitor) (s : m.sparse ≡ true) (i : m.internal ≡ true) (t : GcThread)
    (c : contains t.id m.joined ≡ false) where
  exits-allow : allow (exits t.id) m ≡ some m
  unfolding allow
  exits-allow = ground (arith, s, i, c)

  joins-allow : allow (joins t.id) m ≡ some (record m { joined = t.id ∷ m.joined })
  unfolding allow
  joins-allow = ground (arith, c)

  clears-allow :
      allow (clears t.id) (record m { joined = t.id ∷ m.joined })
      ≡ some (record m { joined = t.id ∷ m.joined })
  unfolding allow
  clears-allow = ground (arith, i)

  pub shutdown_step :
      (rest : List Event)
      → allow_all ((gc_thread_shutdown t).1 ++ rest) m
        ≡ allow_all rest (record m { joined = t.id ∷ m.joined })
  unfolding gc_thread_shutdown
  shutdown_step rest =
      allowed (exits t.id) (joins t.id ∷ clears t.id ∷ rest) m m exits-allow
      ∙ allowed (joins t.id) (clears t.id ∷ rest) m _ joins-allow
      ∙ allowed (clears t.id) rest (record m { joined = t.id ∷ m.joined }) _ clears-allow

pub frees-allow :
    (m : Monitor) (i : ℕ)
    → contains i m.joined ≡ true
    → contains i m.freed ≡ false
    → allow (frees i) m ≡ some (record m { freed = i ∷ m.freed })
unfolding allow
frees-allow m i c f = ground (arith, c, f)

destructor_of_running :
    (t : GcThread) (rest : List Event)
    → t.run ≡ true
    → gc_thread_destructor t ++ rest ≡ (gc_thread_shutdown t).1 ++ (frees t.id ∷ rest)
unfolding gc_thread_destructor gc_thread_shutdown
destructor_of_running t rest run = rw run refl

pub destructor_of_stopped :
    (t : GcThread) (rest : List Event)
    → t.run ≡ false
    → gc_thread_destructor t ++ rest ≡ frees t.id ∷ rest
unfolding gc_thread_destructor
destructor_of_stopped t rest run = rw run refl

pub contains-head : (i : ℕ) (l : List ℕ) → contains i (i ∷ l) ≡ true
unfolding contains
contains-head i l = ground (arith, ==_refl i)

pub destructor_step :
    (m : Monitor) (t : GcThread) (rest : List Event)
    → m.sparse ≡ true
    → m.internal ≡ true
    → t.run ≡ true
    → contains t.id m.joined ≡ false
    → contains t.id m.freed ≡ false
    → allow_all (gc_thread_destructor t ++ rest) m
      ≡ allow_all rest (record m { joined = t.id ∷ m.joined; freed = t.id ∷ m.freed })
destructor_step m t rest s i run c f =
    let n : Monitor = record m { joined = t.id ∷ m.joined } in
    ap (λ l. allow_all l m) (destructor_of_running t rest run)
    ∙ shutdown_step m s i t c (frees t.id ∷ rest)
    ∙ allowed (frees t.id) rest n _ (frees-allow n t.id (contains-head t.id m.joined) f)
