-- ===== src/Spawning/Runs.antt =====
-- What holds in every run of constructors and threads, and of every use of a handle.
use cgc.Base.{
  ℕ, ◌≡◌, refl, sym, ap, ◌∙◌, ◌⊎◌, inl, inr, true, false, List, [], ◌∷◌, Bool-cases, ◌==◌, ==_iff,
  ==_refl, arith,
}
use cgc.Spawning.{
  idle, over, failed, released, created, running, Spawns, go_to, start, call_run, end_run, Step,
  makes, no_memory, starts, calls, ends, Steps, done, then_step, Handle, joinable, join, detach,
  move,
}
use cgc.Spawning.Owned.{holds, Owned, same, made, gone}

start-Owned : (w : Spawns) (n d ec : ℕ) → w.stage n ≡ released d → Owned w → Owned (start n d ec w)
unfolding start
start-Owned w n d ec s h = elim (Bool-cases (ec == 0)) [
  | inl y ↦ rw y (same w n (created d) (λ e. ap (λ t. holds t e) (sym s)) h)
  | inr o ↦ rw o (gone w n d failed (λ e. ap (λ t. holds t e) s) (λ e. refl) h)
]

call_run-Owned : (w : Spawns) (n d : ℕ) → w.stage n ≡ created d → Owned w → Owned (call_run n d w)
unfolding call_run go_to
call_run-Owned w n d s h =
    let g = same w n (running d) (λ e. ap (λ t. holds t e) (sym s)) h in
    record {
      lives = g.lives;
      alone = g.alone;
      held = g.held;
      used_well = rw (h.used_well, h.lives n d (ap (λ t. holds t d) s ∙ ==_refl d)) refl;
    }

step-Owned : {w v : Spawns} → Step w v → Owned w → Owned v
unfolding end_run
step-Owned {w} (makes n d i f) h = made w n d i f h
step-Owned {w} (no_memory n i) h = same w n failed (λ e. ap (λ t. holds t e) (sym i)) h
step-Owned {w} (starts n d ec s) h = start-Owned w n d ec s h
step-Owned {w} (calls n d s) h = call_run-Owned w n d s h
step-Owned {w} (ends n d s) h = gone w n d over (λ e. ap (λ t. holds t e) s) (λ e. refl) h

run-Owned : {w v : Spawns} → Steps w v → Owned w → Owned v
run-Owned done h = h
run-Owned (then_step r s) h = step-Owned s (run-Owned r h)

-- No call has begun, and no block lives.
abbrev pub IsFresh : Spawns → Type 0
IsFresh w = ((n : ℕ) → w.stage n ≡ idle) × ((d : ℕ) → w.blocks d ≡ false) × (w.misused ≡ false)

IsFresh-Owned : (w : Spawns) → IsFresh w → Owned w
IsFresh-Owned w f = record {
  lives = λ n d p. absurd (let g = ap (λ t. holds t d) (sym (f.0 n)) ∙ p in cc);
  alone = λ n m d p q. absurd (let g = ap (λ t. holds t d) (sym (f.0 n)) ∙ p in cc);
  held = λ d b. absurd (let g = sym (f.1 d) ∙ b in cc);
  used_well = f.2;
}

-- A block does not live and nobody holds it, or it lives and exactly one call or thread holds it.
abbrev pub IsHeldOnce : Spawns → ℕ → Type 0
IsHeldOnce v d =
    ((v.blocks d ≡ false) × ((m : ℕ) → holds (v.stage m) d ≡ false))
    ⊎ ((v.blocks d ≡ true) × ((n : ℕ) × ((m : ℕ) → holds (v.stage m) d ≡ (n == m))))

Owned-IsHeldOnce : (v : Spawns) (d : ℕ) → Owned v → IsHeldOnce v d
Owned-IsHeldOnce v d h = elim (Bool-cases (v.blocks d)) [
  | inr free ↦ inl (
    free,
    λ m. elim (Bool-cases (holds (v.stage m) d)) [
      | inl y ↦ absurd (let g = sym free ∙ h.lives m d y in cc)
      | inr o ↦ o
    ],
  )
  | inl used ↦ inr (
    used,
    let z = h.held d used in
        (
          z.0,
          λ m. elim (Bool-cases (holds (v.stage m) d)) [
            | inl y ↦ y ∙ sym ((==_iff z.0 m).1 (h.alone z.0 m d z.1 y))
            | inr o ↦
                o
                ∙ sym (elim (Bool-cases (z.0 == m)) [
                  | inl y ↦ absurd (
                      let g =
                        sym o ∙ ap (λ k. holds (v.stage k) d) (sym ((==_iff z.0 m).0 y)) ∙ z.1 in
                      cc)
                  | inr x ↦ x
                ])
          ],
        ),
  )
]

-- In every run of any number of constructor calls and of the threads that they start, whichever of them
-- fail: no block has been used or given back that did not live, and every block either does not live,
-- and no call and no thread holds it, or lives, and exactly one call, or the thread that it started,
-- holds it and is still to give it back.
pub block_one_holder :
    (w v : Spawns) → IsFresh w → Steps w v → (v.misused ≡ false) × ((d : ℕ) → IsHeldOnce v d)
block_one_holder w v f r =
    let h = run-Owned r (IsFresh-Owned w f) in (h.used_well, λ d. Owned-IsHeldOnce v d h)

pub data Use : Type 0 where
  joins detaches : ℕ → Use
  moved_to : Handle → Use

-- What a use leaves in the handle.
abbrev pub behind : Use → Handle → Handle
behind (joins ec) t = (join ec t).1
behind (detaches ec) t = (detach ec t).1
behind (moved_to target) t = (move target t).1

abbrev pub behind_all : List Use → Handle → Handle
behind_all [] t = t
behind_all (u ∷ us) t = behind_all us (behind u t)

behind_same : (u : Use) (t : Handle) → behind u t ≡ t
unfolding join detach move
behind_same (joins ec) t = ground arith
behind_same (detaches ec) t = ground arith
behind_same (moved_to target) t = refl

-- However often a handle is joined, detached and moved from, it stays as joinable as it was.
pub joinable-behind_all : (us : List Use) (t : Handle) → joinable (behind_all us t) ≡ joinable t
joinable-behind_all [] t = refl
joinable-behind_all (u ∷ us) t = joinable-behind_all us (behind u t) ∙ ap joinable (behind_same u t)
