-- ===== src/Spawning/Owned.antt =====
-- Who holds the block of a thread, and what a handle keeps.
use cgc.Base.{
  ℕ, ◌≡◌, refl, sym, ap, ◌∙◌, Bool, true, false, inl, inr, Bool-cases, if◌then◌else◌, ◌==◌, ==_iff,
  ==_refl, arith,
}
use cgc.Heap.{update}
use cgc.Spawning.{
  Progress, idle, over, failed, released, created, running, Spawns, make_details, destroy, go_to,
}

-- The call, or its thread, is the one that is to give back the block.
abbrev pub holds : Progress → ℕ → Bool
holds idle d = false
holds over d = false
holds failed d = false
holds (released e) d = e == d
holds (created e) d = e == d
holds (running e) d = e == d

pub record Owned (w : Spawns) : Type 0 where
  pub lives : (n d : ℕ) → holds (w.stage n) d ≡ true → w.blocks d ≡ true
  pub alone : (n m d : ℕ) → holds (w.stage n) d ≡ true → holds (w.stage m) d ≡ true → n ≡ m
  pub held : (d : ℕ) → w.blocks d ≡ true → (n : ℕ) × (holds (w.stage n) d ≡ true)
  pub used_well : w.misused ≡ false

holds_update :
    (f : ℕ → Progress) (n m d : ℕ) (s : Progress)
    → holds (update f n s m) d ≡ (if n == m then holds s d else holds (f m) d)
holds_update f n m d s = elim (Bool-cases (n == m)) [ inl y ↦ rw y | inr o ↦ rw o ]

-- The call goes on, with the block that it held.
pub same :
    (w : Spawns) (n : ℕ) (s : Progress)
    → ((d : ℕ) → holds s d ≡ holds (w.stage n) d)
    → Owned w
    → Owned (go_to n s w)
unfolding go_to
same w n s e h =
    let q : (m d : ℕ) → holds (update w.stage n s m) d ≡ holds (w.stage m) d = λ m d.
      elim (Bool-cases (n == m)) [
        | inl y ↦ rw y (e d ∙ ap (λ i. holds (w.stage i) d) ((==_iff n m).0 y))
        | inr o ↦ rw o
      ] in
    record {
      lives = λ m d p. h.lives m d (sym (q m d) ∙ p);
      alone = λ m k d p r. h.alone m k d (sym (q m d) ∙ p) (sym (q k d) ∙ r);
      held = λ d b. let z = h.held d b in (z.0, q z.0 d ∙ z.1);
      used_well = h.used_well;
    }

here_holds :
    (f : ℕ → Progress) (n m e : ℕ) (s : Progress)
    → n == m ≡ true
    → holds (update f n s m) e ≡ holds s e
here_holds f n m e s y = holds_update f n m e s ∙ rw y refl

there_holds :
    (f : ℕ → Progress) (n m e : ℕ) (s : Progress)
    → n == m ≡ false
    → holds (update f n s m) e ≡ holds (f m) e
there_holds f n m e s o = holds_update f n m e s ∙ rw o refl

-- A call that held nothing gets a block that did not live.
pub made :
    (w : Spawns) (n d : ℕ)
    → w.stage n ≡ idle
    → w.blocks d ≡ false
    → Owned w
    → Owned (make_details n d w)
unfolding make_details
made w n d i free h =
    let s = released d in
    let f = w.stage in
    let apart : (m k e : ℕ)
        → n == m ≡ true
        → n == k ≡ false
        → holds (update f n s m) e ≡ true
        → holds (update f n s k) e ≡ true
        → m ≡ k =
      λ m k e y o p q. absurd (
        let b = h.lives k e (sym (there_holds f n k e s o) ∙ q) in
        let c = (==_iff d e).0 (sym (here_holds f n m e s y) ∙ p) in
        let g = sym free ∙ ap w.blocks c ∙ b in cc) in
    record {
      lives = λ m e p. elim (Bool-cases (n == m)) [
        | inl y ↦ rw (sym (here_holds f n m e s y) ∙ p) refl
        | inr o ↦ ground (arith, h.lives m e (sym (there_holds f n m e s o) ∙ p))
      ];
      alone = λ m k e p q. elim (Bool-cases (n == m)) [
        | inl y ↦ elim (Bool-cases (n == k)) [
          | inl z ↦ sym ((==_iff n m).0 y) ∙ (==_iff n k).0 z
          | inr o ↦ apart m k e y o p q
        ]
        | inr o ↦ elim (Bool-cases (n == k)) [
          | inl z ↦ sym (apart k m e z o q p)
          | inr x ↦
              h.alone m k e (sym (there_holds f n m e s o) ∙ p) (sym (there_holds f n k e s x) ∙ q)
        ]
      ];
      held = λ e b. elim (Bool-cases (d == e)) [
        | inl y ↦ (n, here_holds f n n e s (==_refl n) ∙ y)
        | inr o ↦
            (let z = h.held e (rw o at b) in
              elim (Bool-cases (n == z.0)) [
                | inl y ↦
                    absurd
                      (let g = ap (λ t. holds t e) (sym i ∙ ap f ((==_iff n z.0).0 y)) ∙ z.1 in cc)
                | inr x ↦ (z.0, there_holds f n z.0 e s x ∙ z.1)
              ])
      ];
      used_well = h.used_well;
    }

-- A call gives back the block that it held.
pub gone :
    (w : Spawns) (n d : ℕ) (s : Progress)
    → ((e : ℕ) → holds (w.stage n) e ≡ (d == e))
    → ((e : ℕ) → holds s e ≡ false)
    → Owned w
    → Owned (go_to n s (destroy d w))
unfolding go_to destroy
gone w n d s t empty h =
    let f = w.stage in
    let mine : holds (f n) d ≡ true = t d ∙ ==_refl d in
    let other : (m e : ℕ)
        → holds (update f n s m) e ≡ true
        → (n == m ≡ false) × (holds (f m) e ≡ true) =
      λ m e p. elim (Bool-cases (n == m)) [
        | inl y ↦ absurd (let g = sym (here_holds f n m e s y ∙ empty e) ∙ p in cc)
        | inr o ↦ (o, sym (there_holds f n m e s o) ∙ p)
      ] in
    record {
      lives = λ m e p. elim (Bool-cases (d == e)) [
        | inl y ↦ absurd (
            let c = (==_iff d e).0 y in
            let g = h.alone n m e (ap (λ k. holds (f n) k) (sym c) ∙ mine) (other m e p).1 in
            let r = sym (other m e p).0 ∙ ap (λ k. n == k) (sym g) ∙ ==_refl n in cc)
        | inr o ↦ rw o (h.lives m e (other m e p).1)
      ];
      alone = λ m k e p q. h.alone m k e (other m e p).1 (other k e q).1;
      held = λ e b. elim (Bool-cases (d == e)) [
        | inl y ↦ absurd (let g = (rw y at b) in cc)
        | inr o ↦
            (let z = h.held e (rw o at b) in
              elim (Bool-cases (n == z.0)) [
                | inl y ↦ absurd (
                    let g =
                      sym o ∙ sym (t e) ∙ ap (λ k. holds (f k) e) ((==_iff n z.0).0 y) ∙ z.1 in
                    cc)
                | inr x ↦ (z.0, there_holds f n z.0 e s x ∙ z.1)
              ])
      ];
      used_well = rw (h.lives n d mine, h.used_well) refl;
    }
