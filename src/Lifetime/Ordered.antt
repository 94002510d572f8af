-- ===== src/Lifetime/Ordered.antt =====
-- Whichever way a kernel comes to its end, its collector threads and allocators go in order.
use mathlib.Core.List.{append_assoc}
use cgc.Base.{
  ℕ, ◌≡◌, refl, ap, ◌∙◌, Bool, true, false, none, some, if◌then◌else◌, List, [], ◌∷◌, ◌++◌,
  contains, nat_eq, arith,
}
use cgc.Lifetime.{
  Event, frees, frees_vector, shuts_bitmap, shuts_sparse, shuts_internal, GcThread,
  gc_thread_shutdown, gc_thread_destructor, clear_gc_threads, shutdown_gc_threads, Owner, shutdown,
  destructor,
}
use cgc.Lifetime.Monitor.{
  Monitor, allow, allow_all, ids, Fresh, rev_onto, later_joined, later_freed, allowed,
  shutdown_step, frees-allow, destructor_of_stopped, contains-head, destructor_step,
}

-- Threads that run are joined and freed one after the other.
clear_running :
    (ts : List GcThread) (rest : List Event) (m : Monitor)
    → Fresh ts m.joined m.freed
    → m.sparse ≡ true
    → m.internal ≡ true
    → allow_all (clear_gc_threads ts ++ rest) m
      ≡ allow_all rest
          (record m { joined = rev_onto (ids ts) m.joined; freed = rev_onto (ids ts) m.freed })
unfolding clear_gc_threads
clear_running [] rest m h s i = refl
clear_running (t ∷ ts) rest m h s i =
    ap (λ l. allow_all l m) (append_assoc (gc_thread_destructor t) (clear_gc_threads ts) rest)
    ∙ destructor_step m t (clear_gc_threads ts ++ rest) s i h.0 h.1 h.2
    ∙ clear_running ts rest (record m { joined = t.id ∷ m.joined; freed = t.id ∷ m.freed })
        (later_freed t.id ts (t.id ∷ m.joined) m.freed h.3
          (later_joined t.id ts m.joined m.freed h.3 h.4))
        s i

-- They are all joined first.
shutdown_running :
    (ts : List GcThread) (rest : List Event) (m : Monitor)
    → Fresh ts m.joined m.freed
    → m.sparse ≡ true
    → m.internal ≡ true
    → allow_all ((shutdown_gc_threads ts).1 ++ rest) m
      ≡ allow_all rest (record m { joined = rev_onto (ids ts) m.joined })
unfolding shutdown_gc_threads
shutdown_running [] rest m h s i = refl
shutdown_running (t ∷ ts) rest m h s i =
    ap (λ l. allow_all l m) (append_assoc (gc_thread_shutdown t).1 (shutdown_gc_threads ts).1 rest)
    ∙ shutdown_step m s i t h.1 ((shutdown_gc_threads ts).1 ++ rest)
    ∙ shutdown_running ts rest (record m { joined = t.id ∷ m.joined })
        (later_joined t.id ts m.joined m.freed h.3 h.4) s i

-- Then they are freed without being joined again.
abbrev Joined : List GcThread → List ℕ → List ℕ → Type 0
Joined [] joined freed = Unit
Joined (t ∷ ts) joined freed =
    (contains t.id joined ≡ true)
    × (contains t.id freed ≡ false)
    × (contains t.id (ids ts) ≡ false)
    × Joined ts joined freed

behind_stopped :
    (i : ℕ) (ts : List GcThread) (joined freed : List ℕ)
    → contains i (ids ts) ≡ false
    → Joined ts joined freed
    → Joined ts joined (i ∷ freed)
unfolding contains
behind_stopped i [] joined freed c h = tt
behind_stopped i (t ∷ ts) joined freed c h =
    (h.0, ground (arith, c, h.1), h.2, behind_stopped i ts joined freed (ground (arith, c)) h.3)

clear_stopped :
    (ts : List GcThread) (rest : List Event) (m : Monitor)
    → Joined ts m.joined m.freed
    → allow_all (clear_gc_threads (shutdown_gc_threads ts).0 ++ rest) m
      ≡ allow_all rest (record m { freed = rev_onto (ids ts) m.freed })
unfolding clear_gc_threads shutdown_gc_threads gc_thread_shutdown
clear_stopped [] rest m h = refl
clear_stopped (t ∷ ts) rest m h =
    let u : GcThread = record t { run = false } in
    let behind = clear_gc_threads (shutdown_gc_threads ts).0 in
    ap (λ l. allow_all l m)
      (append_assoc (gc_thread_destructor u) behind rest
        ∙ destructor_of_stopped u (behind ++ rest) refl)
    ∙ allowed (frees t.id) (behind ++ rest) m _ (frees-allow m t.id h.0 h.1)
    ∙ clear_stopped ts rest (record m { freed = t.id ∷ m.freed })
        (behind_stopped t.id ts m.joined m.freed h.2 h.3)

contains-rev_onto :
    (i : ℕ) (is l : List ℕ) → contains i l ≡ true → contains i (rev_onto is l) ≡ true
unfolding contains
contains-rev_onto i [] l h = h
contains-rev_onto i (j ∷ js) l h = contains-rev_onto i js (j ∷ l) (ground (arith, h))

Fresh-Joined :
    (ts : List GcThread) (joined freed : List ℕ)
    → Fresh ts joined freed
    → Joined ts (rev_onto (ids ts) joined) freed
Fresh-Joined [] joined freed h = tt
Fresh-Joined (t ∷ ts) joined freed h = (
  contains-rev_onto t.id (ids ts) (t.id ∷ joined) (contains-head t.id joined),
  h.2,
  h.3,
  Fresh-Joined ts (t.id ∷ joined) freed (later_joined t.id ts joined freed h.3 h.4),
)

abbrev pub all_up : Monitor
all_up = record { joined = []; freed = []; bitmap = true; sparse = true; internal = true }

-- All collector threads are joined and freed, the last one first in the lists, and the allocators are down.
abbrev pub all_ended : List GcThread → Monitor
all_ended ts = record {
  joined = rev_onto (ids ts) [];
  freed = rev_onto (ids ts) [];
  bitmap = false;
  sparse = false;
  internal = false;
}

abbrev tail_before : List Event → List Event
tail_before rest = frees_vector ∷ frees_vector ∷ shuts_internal ∷ rest

module _ (ts : List GcThread) (rest : List Event) (h : Fresh ts [] []) where
  destroyed_at_once :
      allow_all
        ((shutdown_gc_threads ts).1
          ++ (shuts_bitmap
              ∷ shuts_sparse
              ∷ (clear_gc_threads (shutdown_gc_threads ts).0 ++ tail_before rest)))
        all_up
      ≡ allow_all rest (all_ended ts)
  unfolding allow
  destroyed_at_once =
      let tail = tail_before rest in
      let behind : List Event =
        shuts_bitmap ∷ shuts_sparse ∷ (clear_gc_threads (shutdown_gc_threads ts).0 ++ tail) in
      let halted : Monitor = record {
        joined = rev_onto (ids ts) [];
        freed = [];
        bitmap = false;
        sparse = false;
        internal = true;
      } in
      shutdown_running ts behind all_up h refl refl
      ∙ clear_stopped ts tail halted (Fresh-Joined ts [] [] h)

  destroyed_after :
      allow_all (clear_gc_threads ts ++ (shuts_bitmap ∷ shuts_sparse ∷ tail_before rest)) all_up
      ≡ allow_all rest (all_ended ts)
  unfolding allow
  destroyed_after =
      clear_running ts (shuts_bitmap ∷ shuts_sparse ∷ tail_before rest) all_up h refl refl

special_vector :
    (b : Bool) (ts : List GcThread)
    → allow_all (if b then frees_vector ∷ [] else []) (all_ended ts)
      ≡ (if b then none else some (all_ended ts))
unfolding allow
special_vector true ts = refl
special_vector false ts = refl

-- For any number of collector threads that run, each there once, and whose functions end when they are
-- shut down: if the kernel is shut down before it is destroyed, the monitor allows all that happens, so that
-- every thread ends while the allocators are up, is joined once and then freed once, no memory is given
-- back to an allocator that is down, and no allocator is shut down twice; and at the end all threads are
-- joined and freed and the allocators are down. If it is destroyed at once, the same holds exactly where
-- `m_need_special_finalizing_collection_sparse` has no memory: else the monitor refuses what happens.
pub destructor-ends :
    (o : Owner)
    → Fresh o.gc_threads [] []
    → o.events ≡ []
    → (allow_all (destructor (shutdown o)).events all_up ≡ some (all_ended o.gc_threads))
      × (allow_all (destructor o).events all_up
          ≡ (if o.special_memory then none else some (all_ended o.gc_threads)))
unfolding destructor shutdown shutdown_gc_threads clear_gc_threads allow
destructor-ends o h e =
    let ts = o.gc_threads in
    let rest : List Event = if o.special_memory then frees_vector ∷ [] else [] in
    rw e (destroyed_after ts [] h, destroyed_at_once ts rest h ∙ special_vector o.special_memory ts)
