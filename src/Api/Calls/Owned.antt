-- ===== src/Api/Calls/Owned.antt =====
-- User data of its own for one object: the copy of the default data that an object is given, and the
-- change of data that it has. No other object and no default data changes.
use cgc.Base.{
  ℕ, ◌≡◌, ◌≢◌, refl, sym, ap, ◌∙◌, inl, inr, true, false, Bool-cases, ◌==◌, ==_refl, ==_iff, ==-ne,
  arith,
}
use cgc.Word.Flags.{set_complex}
use cgc.Heap.{ObjectHeader, update}
use cgc.Sweep.{UserData}
use cgc.Api.Calls.{Store, give_data, set_data, set_state_complex}

update_here {ℓ} : {A : Type ℓ} (f : ℕ → A) (i : ℕ) (a : A) → update f i a i ≡ a
update_here f i a = rw (==_refl i)

update_there {ℓ} : {A : Type ℓ} (f : ℕ → A) (i j : ℕ) (a : A) → i ≢ j → update f i a j ≡ f j
update_there f i j a n = rw (==-ne i j n)

module _ (H : ObjectHeader) where
  abbrev pub data_at : Store H → ℕ → UserData
  data_at s os = s.user_data (H.user_data (s.states os))

  -- No two objects share user data that is not default data.
  abbrev pub OwnsData : Store H → Type 0
  OwnsData s =
      (q r : ℕ)
      → H.user_data (s.states q) ≡ H.user_data (s.states r)
      → (data_at s q).is_default ≡ false
      → q ≡ r

  -- A new allocation is not null, and no object has it for its user data.
  abbrev pub IsFresh : ℕ → Store H → Type 0
  IsFresh fresh s = (fresh ≢ 0) × ((q : ℕ) → H.user_data (s.states q) ≢ fresh)

  -- From `s` to `s'` the object of `os` got the user data `ud`, and nothing else moved: neither the data
  -- of another object nor data that is default data.
  pub record Gives (fresh os : ℕ) (ud : UserData) (s s' : Store H) : Type 0 where
    pub given : data_at s' os ≡ ud
    pub present : H.user_data (s'.states os) ≢ 0
    pub others : (q : ℕ) → q ≢ os → data_at s' q ≡ data_at s q
    pub shared :
        (p : ℕ) → p ≢ fresh → (s.user_data p).is_default ≡ true → s'.user_data p ≡ s.user_data p
    pub owned : OwnsData s'

  module _ (fresh os : ℕ) (ud : UserData) (s : Store H) (own : ud.is_default ≡ false)
      (o : OwnsData s) where
    abbrev given_store : Store H
    given_store = give_data H fresh os ud s

    given_here : IsFresh fresh s → H.user_data (given_store.states os) ≡ fresh
    unfolding give_data
    given_here u =
        ap H.user_data (update_here s.states os (H.set_user_data fresh (s.states os)))
        ∙ H.user_data-set fresh (s.states os)

    given_other : (q : ℕ) → q ≢ os → H.user_data (given_store.states q) ≡ H.user_data (s.states q)
    unfolding give_data
    given_other q n =
        ap H.user_data
          (update_there s.states os q (H.set_user_data fresh (s.states os)) (λ e. n (sym e)))

    given_data_other : IsFresh fresh s → (q : ℕ) → q ≢ os → data_at given_store q ≡ data_at s q
    unfolding give_data
    given_data_other u q n =
        ap given_store.user_data (given_other q n)
        ∙ update_there s.user_data fresh (H.user_data (s.states q)) ud (λ e. u.1 q (sym e))

    given_owned : IsFresh fresh s → OwnsData given_store
    given_owned u q r e mine = elim (Bool-cases (q == os)) [
      | inl hit ↦ elim (Bool-cases (r == os)) [
        | inl hit' ↦ (==_iff q os).0 hit ∙ sym ((==_iff r os).0 hit')
        | inr miss' ↦
            let n : r ≢ os = ground arith in
            let at : H.user_data (given_store.states q) ≡ fresh =
              ap (λ k. H.user_data (given_store.states k)) ((==_iff q os).0 hit) ∙ given_here u in
            absurd (u.1 r (sym (given_other r n) ∙ sym e ∙ at))
      ]
      | inr miss ↦
          let n : q ≢ os = ground arith in
          elim (Bool-cases (r == os)) [
            | inl hit' ↦
                let at : H.user_data (given_store.states r) ≡ fresh =
                  ap (λ k. H.user_data (given_store.states k)) ((==_iff r os).0 hit')
                  ∙ given_here u in
                absurd (u.1 q (sym (given_other q n) ∙ e ∙ at))
            | inr miss' ↦
                let n' : r ≢ os = ground arith in
                o q r (sym (given_other q n) ∙ e ∙ given_other r n')
                  (sym (ap (λ (d : UserData). d.is_default) (given_data_other u q n)) ∙ mine)
          ]
    ]

    pub give_data-Gives : IsFresh fresh s → Gives fresh os ud s (give_data H fresh os ud s)
    give_data-Gives u = record {
      given = ap given_store.user_data (given_here u) ∙ given_new;
      present = λ z. u.0 (sym (given_here u) ∙ z);
      others = given_data_other u;
      shared = λ p n d. given_shared p n;
      owned = given_owned u;
    }
      where
        given_new : (give_data H fresh os ud s).user_data fresh ≡ ud
        given_new = unfold give_data in update_here s.user_data fresh ud

        given_shared : (p : ℕ) → p ≢ fresh → (give_data H fresh os ud s).user_data p ≡ s.user_data p
        given_shared p n = unfold give_data in update_there s.user_data fresh p ud (λ e. n (sym e))

    set_there :
        (p : ℕ)
        → H.user_data (s.states os) ≢ p
        → (set_data H (H.user_data (s.states os)) ud s).user_data p ≡ s.user_data p
    unfolding set_data
    set_there p n = update_there s.user_data (H.user_data (s.states os)) p ud n

    set_here :
        (set_data H (H.user_data (s.states os)) ud s).user_data (H.user_data (s.states os)) ≡ ud
    unfolding set_data
    set_here = update_here s.user_data (H.user_data (s.states os)) ud

    module _ (present : H.user_data (s.states os) ≢ 0)
        (mine : (data_at s os).is_default ≡ false) where
      abbrev set_store : Store H
      set_store = set_data H (H.user_data (s.states os)) ud s

      set_states : set_store.states ≡ s.states
      unfolding set_data
      set_states = refl

      set_pointer : (q : ℕ) → H.user_data (set_store.states q) ≡ H.user_data (s.states q)
      set_pointer q = ap (λ (f : ℕ → H.State). H.user_data (f q)) set_states

      set_other : (q : ℕ) → q ≢ os → data_at set_store q ≡ data_at s q
      set_other q n =
          ap set_store.user_data (set_pointer q)
          ∙ set_there (H.user_data (s.states q)) (λ e. n (sym (o os q e mine)))

      set_owned : OwnsData set_store
      set_owned q r e m =
          let e' = sym (set_pointer q) ∙ e ∙ set_pointer r in
          elim (Bool-cases (q == os)) [
            | inl hit ↦
                let p = (==_iff q os).0 hit in
                p ∙ o os r (ap (λ k. H.user_data (s.states k)) (sym p) ∙ e') mine
            | inr miss ↦
                o q r e'
                  (sym (ap (λ (d : UserData). d.is_default) (set_other q (ground arith))) ∙ m)
          ]

      pub set_data-Gives : Gives fresh os ud s (set_data H (H.user_data (s.states os)) ud s)
      set_data-Gives = record {
        given = ap set_store.user_data (set_pointer os) ∙ set_here;
        present = λ z. present (sym (set_pointer os) ∙ z);
        others = set_other;
        shared = λ p n d.
            set_there p (λ e. let d' = sym mine ∙ ap (λ k. (s.user_data k).is_default) e ∙ d in cc);
        owned = set_owned;
      }

  -- The complex flag is no part of the data.
  module _ (fresh os : ℕ) (ud : UserData) (s s' : Store H) (g : Gives fresh os ud s s') where
    complex_pointer :
        (q : ℕ) → H.user_data ((set_state_complex H os s').states q) ≡ H.user_data (s'.states q)
    unfolding set_state_complex
    complex_pointer q = elim (Bool-cases (os == q)) [
      | inl hit ↦ rw hit (
          H.user_data-set_flags (set_complex (H.user_flags (s'.states os)) true) (s'.states os)
          ∙ ap (λ k. H.user_data (s'.states k)) ((==_iff os q).0 hit))
      | inr miss ↦ rw miss
    ]

    complex_data : (set_state_complex H os s').user_data ≡ s'.user_data
    unfolding set_state_complex
    complex_data = refl

    complex_data_at : (q : ℕ) → data_at (set_state_complex H os s') q ≡ data_at s' q
    complex_data_at q =
        ap (set_state_complex H os s').user_data (complex_pointer q)
        ∙ ap (λ (f : ℕ → UserData). f (H.user_data (s'.states q))) complex_data

    pub set_state_complex-Gives : Gives fresh os ud s (set_state_complex H os s')
    set_state_complex-Gives = record {
      given = complex_data_at os ∙ g.given;
      present = λ z. g.present (sym (complex_pointer os) ∙ z);
      others = λ q n. complex_data_at q ∙ g.others q n;
      shared = λ p n d. ap (λ (f : ℕ → UserData). f p) complex_data ∙ g.shared p n d;
      owned = λ q r e m.
          g.owned q r (sym (complex_pointer q) ∙ e ∙ complex_pointer r)
            (sym (ap (λ (d : UserData). d.is_default) (complex_data_at q)) ∙ m);
    }
