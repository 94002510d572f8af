-- ===== src/Protocol/Explored.antt =====
-- No step leads out of the listed states of the collector thread and the collecting thread, and what
-- can be read off each of them.
use cgc.Base.{
  ℕ, suc, ◌+◌, ◌≡◌, refl, sym, ap, subst, ◌∙◌, ◌≢◌, inl, inr, Bool, true, false, not, ◌&&◌,
  Bool-cases, Option-cases, Option, none, some, List, [], ◌∷◌, if◌then◌else◌, leb, arith,
}
use cgc.Protocol.{
  clears, marks, sweeps, resumes, Worker, outside, entering, tests, asleep, waking, works, stopped,
  System, worker_step, collector_step, shutdown_step, reset,
}
use cgc.Protocol.Schedule.{
  Move, works_on, collects_on, shuts_down, step, finishes, waits_for, is_over, is_hung,
}
use cgc.Protocol.Codes.{same, same_sound}
use cgc.Protocol.States.{rows}

abbrev find_in : System → List (System × ℕ) → Option ℕ
find_in s [] = none
find_in s ((t, r) ∷ rest) = if same s t then some r else find_in s rest

-- The bound of a state, if it is one of those listed.
abbrev pub find : System → Option ℕ
find s = find_in s (rows s.at_worker)

abbrev found : Bool → ℕ → Option ℕ → Bool
found ends r o = elim o [ none ↦ false | some q ↦ leb (suc q) (r + (if ends then 46 else 0)) ]

-- After a step, which lowers the bound unless it finishes a collection.
abbrev lands : Bool → ℕ → Option System → Bool
lands ends r none = true
lands ends r (some t) = found ends r (find t)

abbrev is_some {ℓ} : {A : Type ℓ} → Option A → Bool
is_some none = false
is_some (some a) = true

abbrev either : Bool → Bool → Bool
either a b = if a then true else b

abbrev sound_step : Move → System → ℕ → Bool
sound_step m s r = lands (finishes m s) r (step m s)

-- While the collector thread works for a phase, the collecting thread waits for that phase.
abbrev pub exclusive : System → Bool
exclusive s = elim s.at_worker [ works p ↦ waits_for p s.at_collector | _ ↦ true ]

abbrev pub can_go : System → Bool
can_go s = either (is_some (step works_on s)) (is_some (step collects_on s))

abbrev row_good : System → ℕ → Bool
row_good s r =
    sound_step works_on s r
    && (sound_step collects_on s r
        && (sound_step shuts_down s r
            && (exclusive s
                && (either (can_go s) (either (is_over s) (is_hung s))
                    && either (not s.run) (can_go s)))))

abbrev rows_good : List (System × ℕ) → Bool
rows_good [] = true
rows_good ((s, r) ∷ rest) = row_good s r && rows_good rest

abbrev good_at : Worker → Bool
good_at w = rows_good (rows w)

all_good : (w : Worker) → good_at w ≡ true
unfolding step worker_step collector_step shutdown_step reset
all_good outside = refl
all_good entering = refl
all_good (tests clears) = refl
all_good (asleep clears) = refl
all_good (waking clears) = refl
all_good (works clears) = refl
all_good (tests marks) = refl
all_good (asleep marks) = refl
all_good (waking marks) = refl
all_good (works marks) = refl
all_good (tests sweeps) = refl
all_good (asleep sweeps) = refl
all_good (waking sweeps) = refl
all_good (works sweeps) = refl
all_good (tests resumes) = refl
all_good (asleep resumes) = refl
all_good (waking resumes) = refl
all_good (works resumes) = refl
all_good stopped = refl

parts : (a b : Bool) → (a && b) ≡ true → (a ≡ true) × (b ≡ true)
parts a b h = ground arith

some-same : (q r : ℕ) → some q ≡ some r → q ≡ r
some-same q r h = ground arith

true-false : true ≢ false
true-false h = cc

each :
    (m : Move) (s : System) (r : ℕ)
    → sound_step works_on s r ≡ true
    → sound_step collects_on s r ≡ true
    → sound_step shuts_down s r ≡ true
    → sound_step m s r ≡ true
each works_on s r a b c = a
each collects_on s r a b c = b
each shuts_down s r a b c = c

find-good :
    (s : System) (r : ℕ) (list : List (System × ℕ))
    → rows_good list ≡ true
    → find_in s list ≡ some r
    → row_good s r ≡ true
find-good s r [] g h = cc
find-good s r ((t, q) ∷ rest) g h =
    let (here, later) = parts (row_good t q) (rows_good rest) g in
    elim (Bool-cases (same s t)) [
      | inl hit ↦
          let e : q ≡ r = some-same q r (rw hit at h) in
          subst (λ u. row_good u r ≡ true) (sym (same_sound s t hit))
            (subst (λ k. row_good t k ≡ true) e here)
      | inr miss ↦ find-good s r rest later (rw miss at h)
    ]

good : (s : System) (r : ℕ) → find s ≡ some r → row_good s r ≡ true
good s r h = find-good s r (rows s.at_worker) (all_good s.at_worker) h

-- What is known of a listed state.
pub record Listed (s : System) (r : ℕ) : Type 0 where
  pub steps_listed :
      (m : Move) (t : System)
      → step m s ≡ some t
      → (q : ℕ) × (find t ≡ some q) × (leb (suc q) (r + (if finishes m s then 46 else 0)) ≡ true)
  pub is_exclusive : exclusive s ≡ true
  pub goes_or_ends : either (can_go s) (either (is_over s) (is_hung s)) ≡ true
  pub runs_on : either (not s.run) (can_go s) ≡ true

lands-some :
    (ends : Bool) (r : ℕ) (o : Option System) (t : System)
    → o ≡ some t
    → lands ends r o ≡ true
    → (q : ℕ) × (find t ≡ some q) × (leb (suc q) (r + (if ends then 46 else 0)) ≡ true)
lands-some ends r o t e h =
    let l : lands ends r (some t) ≡ true = subst (λ k. lands ends r k ≡ true) e h in
    elim (Option-cases (find t)) [
      | inl miss ↦ absurd (true-false (sym l ∙ ap (found ends r) miss))
      | inr (q, hit) ↦ (q, hit, sym (ap (found ends r) hit) ∙ l)
    ]

pub find-Listed : (s : System) (r : ℕ) → find s ≡ some r → Listed s r
find-Listed s r h =
    let (a, h1) = parts (sound_step works_on s r) _ (good s r h) in
    let (b, h2) = parts (sound_step collects_on s r) _ h1 in
    let (c, h3) = parts (sound_step shuts_down s r) _ h2 in
    let (d, h4) = parts (exclusive s) _ h3 in
    let (e, f) = parts (either (can_go s) (either (is_over s) (is_hung s))) _ h4 in
    record {
      steps_listed = λ m t k. lands-some (finishes m s) r (step m s) t k (each m s r a b c);
      is_exclusive = d;
      goes_or_ends = e;
      runs_on = f;
    }
