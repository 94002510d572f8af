-- ===== src/World/Stopped.antt =====
-- While a collection works, every other thread waits in the handler.
use cgc.Base.{
  ℕ, ◌+◌, ◌≡◌, ◌≢◌, refl, sym, ap, ◌∙◌, ◌⊎◌, inl, inr, Bool, true, false, List, [], ◌∷◌, ◌++◌,
  length, All, arith,
}
use cgc.World.{
  Mutator, runs, signalled, waits, Stage, idle, spins, relocks, collects, signals, World, Step,
  starts, sends, sent, pauses, sees_paused, relocked, finishes, resumes, IsInitial, Reached, begins,
  goes,
}

abbrev one : Mutator → Mutator → ℕ
one runs runs = 1
one signalled signalled = 1
one waits waits = 1
one m n = 0

-- How many threads are in a state.
abbrev count : Mutator → List Mutator → ℕ
count m [] = 0
count m (x ∷ xs) = one m x + count m xs

count-append : (m : Mutator) (xs ys : List Mutator) → count m (xs ++ ys) ≡ count m xs + count m ys
count-append m [] ys = omega arith
count-append m (x ∷ xs) ys = omega (arith, count-append m xs ys)

count-at :
    (m x : Mutator) (xs ys ms : List Mutator)
    → ms ≡ xs ++ (x ∷ ys)
    → count m ms ≡ count m xs + (one m x + count m ys)
count-at m x xs ys ms e = ap (count m) e ∙ count-append m xs (x ∷ ys)

count-all : (xs : List Mutator) → length xs ≡ count runs xs + count signalled xs + count waits xs
count-all [] = omega arith
count-all (runs ∷ xs) = omega (arith, count-all xs)
count-all (signalled ∷ xs) = omega (arith, count-all xs)
count-all (waits ∷ xs) = omega (arith, count-all xs)

-- What each stage knows of the numbers of threads that run, are signalled and wait.
abbrev Knows : Stage → ℕ → ℕ → ℕ → ℕ → ℕ → ℕ → Bool → Type 0
Knows idle r s w paused resumed collections finished =
    (finished ≡ true)
    × (s ≡ 0)
    × ((w ≡ 0) ⊎ (collections ≢ 0))
    × ((collections ≡ 0) ⊎ (paused ≡ resumed + w))
Knows (signals left) r s w paused resumed collections finished =
    (finished ≡ false) × (r ≡ left) × (paused ≡ w) × (resumed ≡ 0)
Knows spins r s w paused resumed collections finished =
    (finished ≡ false) × (r ≡ 0) × (paused ≡ w) × (resumed ≡ 0)
Knows relocks r s w paused resumed collections finished =
    (finished ≡ false) × (r ≡ 0) × (s ≡ 0) × (paused ≡ w) × (resumed ≡ 0)
Knows collects r s w paused resumed collections finished =
    (finished ≡ false) × (r ≡ 0) × (s ≡ 0) × (paused ≡ w) × (resumed ≡ 0)

abbrev Inv : World → Type 0
Inv v =
    Knows v.stage (count runs v.mutators) (count signalled v.mutators) (count waits v.mutators)
      v.num_paused_threads v.num_resumed_threads v.num_collections v.collect_finished

-- The counts after one thread has changed.
moved :
    (m x y : Mutator) (xs ys ms : List Mutator)
    → ms ≡ xs ++ (x ∷ ys)
    → count m (xs ++ (y ∷ ys)) + one m x ≡ count m ms + one m y
moved m x y xs ys ms e = omega (arith, count-append m xs (y ∷ ys), count-at m x xs ys ms e)

pause_Inv :
    (v : World) (xs ys : List Mutator)
    → v.mutators ≡ xs ++ (signalled ∷ ys)
    → (st : Stage) → v.stage ≡ st
    → Inv v
    → Inv
        (record v { mutators = xs ++ (waits ∷ ys); num_paused_threads = v.num_paused_threads + 1 })
pause_Inv v xs ys ms idle e h =
    let k = rw e at h in
    absurd (omega (arith, k.1, count-at signalled signalled xs ys v.mutators ms))
pause_Inv v xs ys ms (signals left) e h =
    let k = rw e at h in
    rw e (
      k.0,
      omega (arith, k.1, moved runs signalled waits xs ys v.mutators ms),
      omega (arith, k.2, moved waits signalled waits xs ys v.mutators ms),
      k.3,
    )
pause_Inv v xs ys ms spins e h =
    let k = rw e at h in
    rw e (
      k.0,
      omega (arith, k.1, moved runs signalled waits xs ys v.mutators ms),
      omega (arith, k.2, moved waits signalled waits xs ys v.mutators ms),
      k.3,
    )
pause_Inv v xs ys ms relocks e h =
    let k = rw e at h in
    absurd (omega (arith, k.2, count-at signalled signalled xs ys v.mutators ms))
pause_Inv v xs ys ms collects e h =
    let k = rw e at h in
    absurd (omega (arith, k.2, count-at signalled signalled xs ys v.mutators ms))

resume_Inv :
    (v : World) (xs ys : List Mutator)
    → v.mutators ≡ xs ++ (waits ∷ ys)
    → v.collect_finished ≡ true
    → (st : Stage) → v.stage ≡ st
    → Inv v
    → Inv
        (record v { mutators = xs ++ (runs ∷ ys); num_resumed_threads = v.num_resumed_threads + 1 })
resume_Inv v xs ys ms done idle e h =
    let k = rw e at h in
    let a = moved waits waits runs xs ys v.mutators ms in
    let b = count-at waits waits xs ys v.mutators ms in
    rw e (
      k.0,
      omega (arith, k.1, moved signalled waits runs xs ys v.mutators ms),
      elim k.2 [ inl z ↦ inl (omega (arith, a, b, z)) | inr z ↦ inr z ],
      elim k.3 [ inl z ↦ inl z | inr z ↦ inr (omega (arith, a, b, z)) ],
    )
resume_Inv v xs ys ms done (signals left) e h =
    let k = rw e at h in absurd (let c = sym done ∙ k.0 in cc)
resume_Inv v xs ys ms done spins e h = let k = rw e at h in absurd (let c = sym done ∙ k.0 in cc)
resume_Inv v xs ys ms done relocks e h = let k = rw e at h in absurd (let c = sym done ∙ k.0 in cc)
resume_Inv v xs ys ms done collects e h = let k = rw e at h in absurd (let c = sym done ∙ k.0 in cc)

none_wait : (w c p r : ℕ) → (w ≡ 0) ⊎ (c ≢ 0) → (c ≡ 0) ⊎ (p ≡ r + w) → (c ≡ 0) ⊎ (p ≡ r) → w ≡ 0
none_wait w c p r a b ready = ground arith

Step-Inv : (v u : World) → Inv v → Step v u → Inv u
Step-Inv v u h (starts e ready) =
    let k = rw e at h in
    let z =
      none_wait (count waits v.mutators) v.num_collections v.num_paused_threads
        v.num_resumed_threads k.2 k.3 ready in
    (refl, omega (arith, z, k.1, count-all v.mutators), sym z, refl)
Step-Inv v u h (sends left xs ys e ms) =
    let k = rw e at h in
    (
      k.0,
      omega (arith, k.1, moved runs runs signalled xs ys v.mutators ms),
      omega (arith, k.2, moved waits runs signalled xs ys v.mutators ms),
      k.3,
    )
Step-Inv v u h (sent e) = rw e at h
Step-Inv v u h (pauses xs ys ms) = pause_Inv v xs ys ms v.stage refl h
Step-Inv v u h (sees_paused e all) =
    let k = rw e at h in (k.0, k.1, omega (arith, k.1, k.2, all, count-all v.mutators), k.2, k.3)
Step-Inv v u h (relocked e) = rw e at h
Step-Inv v u h (finishes e) =
    let k = rw e at h in (refl, k.2, inr (omega arith), inr (omega (arith, k.3, k.4)))
Step-Inv v u h (resumes xs ys ms done) = resume_Inv v xs ys ms done v.stage refl h

count-runs :
    (ms : List Mutator) → All (λ m. m ≡ runs) ms → (count signalled ms ≡ 0) × (count waits ms ≡ 0)
count-runs [] h = (refl, refl)
count-runs (m ∷ ms) h =
    let (a, b) = count-runs ms h.1 in rw h.0 (omega (arith, a), omega (arith, b))

IsInitial-Inv : (v : World) → IsInitial v → Inv v
IsInitial-Inv v i =
    let (a, b) = count-runs v.mutators i.all_run in
    rw i.is_idle (i.is_finished, a, inl b, inl i.no_collection)

Reached-Inv : {v : World} → Reached v → Inv v
Reached-Inv (begins v i) = IsInitial-Inv v i
Reached-Inv (goes v u r st) = Step-Inv v u (Reached-Inv r) st

waits-count :
    (ms : List Mutator) → count runs ms ≡ 0 → count signalled ms ≡ 0 → All (λ m. m ≡ waits) ms
waits-count [] a b = tt
waits-count (runs ∷ ms) a b = absurd (omega (arith, a))
waits-count (signalled ∷ ms) a b = absurd (omega (arith, b))
waits-count (waits ∷ ms) a b = (refl, waits-count ms (omega (arith, a)) (omega (arith, b)))

-- In every run from the constructor on, with any number of threads and in any order of their steps: while
-- a collection works, every other thread waits in the handler.
pub world_stopped : (v : World) → Reached v → v.stage ≡ collects → All (λ m. m ≡ waits) v.mutators
world_stopped v r e = let k = rw e at (Reached-Inv r) in waits-count v.mutators k.1 k.2
