-- ===== src/Protocol/Codes.antt =====
-- A test whether two states of the collector thread and the collecting thread are the same.
use cgc.Base.{
  ℕ, zero, suc, ◌+◌, ◌*◌, ◌≡◌, refl, sym, ap, ◌∙◌, Bool, true, not, ◌&&◌, List, [], ◌∷◌,
  if◌then◌else◌, ◌==◌, ==_iff, arith,
}
use cgc.Protocol.{
  Phase, clears, marks, sweeps, resumes, Worker, outside, entering, tests, asleep, waking, works,
  stopped, Collector, prepares, requests, notifies, awaits, inspects, dozing, rising, stops, wakes,
  joins, gone, Holder, nobody, worker, collector, System,
}

-- The element at an index, or the first argument behind the end.
abbrev pub nth {ℓ} : {A : Type ℓ} → A → List A → ℕ → A
nth d [] n = d
nth d (x ∷ xs) zero = x
nth d (x ∷ xs) (suc n) = nth d xs n

abbrev phase_code : Phase → ℕ
phase_code clears = 0
phase_code marks = 1
phase_code sweeps = 2
phase_code resumes = 3

abbrev phases : List Phase
phases = clears ∷ marks ∷ sweeps ∷ resumes ∷ []

abbrev worker_code : Worker → ℕ
worker_code outside = 0
worker_code entering = 1
worker_code stopped = 2
worker_code (tests p) = 3 + 4 * phase_code p
worker_code (asleep p) = 4 + 4 * phase_code p
worker_code (waking p) = 5 + 4 * phase_code p
worker_code (works p) = 6 + 4 * phase_code p

abbrev worker_at : ℕ → Worker
worker_at = nth outside (
    outside
    ∷ entering
    ∷ stopped
    ∷ tests clears
    ∷ asleep clears
    ∷ waking clears
    ∷ works clears
    ∷ tests marks
    ∷ asleep marks
    ∷ waking marks
    ∷ works marks
    ∷ tests sweeps
    ∷ asleep sweeps
    ∷ waking sweeps
    ∷ works sweeps
    ∷ tests resumes
    ∷ asleep resumes
    ∷ waking resumes
    ∷ works resumes
    ∷ [])

worker_at-code : (w : Worker) → worker_at (worker_code w) ≡ w
worker_at-code outside = refl
worker_at-code entering = refl
worker_at-code stopped = refl
worker_at-code (tests p) = elim p as (λ k. worker_at (worker_code (tests k)) ≡ tests k) [
  | clears ↦ refl
  | marks ↦ refl
  | sweeps ↦ refl
  | resumes ↦ refl
]
worker_at-code (asleep p) = elim p as (λ k. worker_at (worker_code (asleep k)) ≡ asleep k) [
  | clears ↦ refl
  | marks ↦ refl
  | sweeps ↦ refl
  | resumes ↦ refl
]
worker_at-code (waking p) = elim p as (λ k. worker_at (worker_code (waking k)) ≡ waking k) [
  | clears ↦ refl
  | marks ↦ refl
  | sweeps ↦ refl
  | resumes ↦ refl
]
worker_at-code (works p) = elim p as (λ k. worker_at (worker_code (works k)) ≡ works k) [
  | clears ↦ refl
  | marks ↦ refl
  | sweeps ↦ refl
  | resumes ↦ refl
]

abbrev collector_code : Collector → ℕ
collector_code prepares = 0
collector_code stops = 1
collector_code wakes = 2
collector_code joins = 3
collector_code gone = 4
collector_code (requests p) = 5 + 6 * phase_code p
collector_code (notifies p) = 6 + 6 * phase_code p
collector_code (awaits p) = 7 + 6 * phase_code p
collector_code (inspects p) = 8 + 6 * phase_code p
collector_code (dozing p) = 9 + 6 * phase_code p
collector_code (rising p) = 10 + 6 * phase_code p

abbrev collector_at : ℕ → Collector
collector_at = nth gone (
    prepares
    ∷ stops
    ∷ wakes
    ∷ joins
    ∷ gone
    ∷ requests clears
    ∷ notifies clears
    ∷ awaits clears
    ∷ inspects clears
    ∷ dozing clears
    ∷ rising clears
    ∷ requests marks
    ∷ notifies marks
    ∷ awaits marks
    ∷ inspects marks
    ∷ dozing marks
    ∷ rising marks
    ∷ requests sweeps
    ∷ notifies sweeps
    ∷ awaits sweeps
    ∷ inspects sweeps
    ∷ dozing sweeps
    ∷ rising sweeps
    ∷ requests resumes
    ∷ notifies resumes
    ∷ awaits resumes
    ∷ inspects resumes
    ∷ dozing resumes
    ∷ rising resumes
    ∷ [])

collector_at-code : (c : Collector) → collector_at (collector_code c) ≡ c
collector_at-code prepares = refl
collector_at-code stops = refl
collector_at-code wakes = refl
collector_at-code joins = refl
collector_at-code gone = refl
collector_at-code (requests p) =
    elim p as (λ k. collector_at (collector_code (requests k)) ≡ requests k) [
      | clears ↦ refl
      | marks ↦ refl
      | sweeps ↦ refl
      | resumes ↦ refl
    ]
collector_at-code (notifies p) =
    elim p as (λ k. collector_at (collector_code (notifies k)) ≡ notifies k) [
      | clears ↦ refl
      | marks ↦ refl
      | sweeps ↦ refl
      | resumes ↦ refl
    ]
collector_at-code (awaits p) =
    elim p as (λ k. collector_at (collector_code (awaits k)) ≡ awaits k) [
      | clears ↦ refl
      | marks ↦ refl
      | sweeps ↦ refl
      | resumes ↦ refl
    ]
collector_at-code (inspects p) =
    elim p as (λ k. collector_at (collector_code (inspects k)) ≡ inspects k) [
      | clears ↦ refl
      | marks ↦ refl
      | sweeps ↦ refl
      | resumes ↦ refl
    ]
collector_at-code (dozing p) =
    elim p as (λ k. collector_at (collector_code (dozing k)) ≡ dozing k) [
      | clears ↦ refl
      | marks ↦ refl
      | sweeps ↦ refl
      | resumes ↦ refl
    ]
collector_at-code (rising p) =
    elim p as (λ k. collector_at (collector_code (rising k)) ≡ rising k) [
      | clears ↦ refl
      | marks ↦ refl
      | sweeps ↦ refl
      | resumes ↦ refl
    ]

abbrev holder_code : Holder → ℕ
holder_code nobody = 0
holder_code worker = 1
holder_code collector = 2

same_holder : (h k : Holder) → holder_code h ≡ holder_code k → h ≡ k
same_holder h k e = ground arith

same_worker : (w v : Worker) → worker_code w ≡ worker_code v → w ≡ v
same_worker w v e = sym (worker_at-code w) ∙ ap worker_at e ∙ worker_at-code v

same_collector : (c d : Collector) → collector_code c ≡ collector_code d → c ≡ d
same_collector c d e = sym (collector_at-code c) ∙ ap collector_at e ∙ collector_at-code d

abbrev agree : Bool → Bool → Bool
agree a b = if a then b else not b

same_bool : (a b : Bool) → agree a b ≡ true → a ≡ b
same_bool a b h = ground arith

and_parts : (a b : Bool) → (a && b) ≡ true → (a ≡ true) × (b ≡ true)
and_parts a b h = ground arith

abbrev pub same : System → System → Bool
same s t =
    (collector_code s.at_collector == collector_code t.at_collector)
    && ((worker_code s.at_worker == worker_code t.at_worker)
        && ((holder_code s.mutex == holder_code t.mutex)
            && (agree s.run t.run
                && (agree s.do_clear t.do_clear
                    && (agree s.do_mark t.do_mark
                        && (agree s.do_sweep t.do_sweep
                            && (agree s.do_all_threads_resumed t.do_all_threads_resumed
                                && (agree s.clear_done t.clear_done
                                    && (agree s.mark_done t.mark_done
                                        && (agree s.sweep_done t.sweep_done
                                            && (agree s.finalization_done
                                                t.finalization_done)))))))))))

-- States that pass the test are equal.
pub same_sound : (s t : System) → same s t ≡ true → s ≡ t
same_sound s t h =
    let (a, h1) = and_parts _ _ h in
    let (b, h2) = and_parts _ _ h1 in
    let (c, h3) = and_parts _ _ h2 in
    let (d, h4) = and_parts _ _ h3 in
    let (e, h5) = and_parts _ _ h4 in
    let (f, h6) = and_parts _ _ h5 in
    let (g, h7) = and_parts _ _ h6 in
    let (j, h8) = and_parts _ _ h7 in
    let (k, h9) = and_parts _ _ h8 in
    let (l, h10) = and_parts _ _ h9 in
    let (m, n) = and_parts _ _ h10 in
    let pa =
      same_collector s.at_collector t.at_collector
        ((==_iff (collector_code s.at_collector) (collector_code t.at_collector)).0 a) in
    let pb =
      same_worker s.at_worker t.at_worker
        ((==_iff (worker_code s.at_worker) (worker_code t.at_worker)).0 b) in
    let pc =
      same_holder s.mutex t.mutex ((==_iff (holder_code s.mutex) (holder_code t.mutex)).0 c) in
    λ i. record {
      at_worker = pb i;
      at_collector = pa i;
      mutex = pc i;
      run = same_bool s.run t.run d i;
      do_clear = same_bool s.do_clear t.do_clear e i;
      do_mark = same_bool s.do_mark t.do_mark f i;
      do_sweep = same_bool s.do_sweep t.do_sweep g i;
      do_all_threads_resumed = same_bool s.do_all_threads_resumed t.do_all_threads_resumed j i;
      clear_done = same_bool s.clear_done t.clear_done k i;
      mark_done = same_bool s.mark_done t.mark_done l i;
      sweep_done = same_bool s.sweep_done t.sweep_done m i;
      finalization_done = same_bool s.finalization_done t.finalization_done n i;
    }
