-- ===== src/Sweep/Totals.antt =====
-- What the walks of the two finalization passes add to the lists and the events.
use mathlib.Core.List.{append_assoc, append-nil}
use cgc.Base.{ℕ, ◌≡◌, refl, sym, ◌∙◌, List, [], ◌∷◌, ◌++◌, arith}
use cgc.Heap.{ObjectHeader, Layout}
use cgc.Sweep.{UserData, Event, destroys, Finalizing, finalize_each, finalize_local_each}
use cgc.Sweep.Trace.{
  calls, destroyed, deletions, calls-append, destroyed-append, deletions-append, specials, freed,
  due, due_here, hidden,
}
use cgc.Sweep.Finalized.{
  step, local_step, step_special, step-freed, calls-step, destroyed-step, local_special,
  local_freed, local_calls, local_destroyed,
}

pub calls-destroys : (es : List Event) (l : List ℕ) → calls (es ++ destroys l ∷ []) ≡ calls es
calls-destroys es l = calls-append es (destroys l ∷ []) ∙ append-nil (calls es)

pub destroyed-destroys :
    (es : List Event) (l : List ℕ) → destroyed es ≡ [] → destroyed (es ++ destroys l ∷ []) ≡ l
destroyed-destroys es l h = rw (destroyed-append es (destroys l ∷ []), h) (append-nil l)

pub deletions-destroys :
    (p : ℕ) (es : List Event) (l : List ℕ) → deletions p (es ++ destroys l ∷ []) ≡ deletions p es
deletions-destroys p es l = omega (arith, deletions-append p es (destroys l ∷ []))

abbrev pub blank : Finalizing
blank = record { events = []; to_be_freed = []; special_finalization = [] }

module _ (H : ObjectHeader) (L : Layout) (states : ℕ → H.State) (user_data : ℕ → UserData) where
  abbrev S : List ℕ → List ℕ
  S = specials H L states user_data

  abbrev F : List ℕ → List ℕ
  F = freed H L states user_data

  abbrev D : List ℕ → List (ℕ × ℕ)
  D = due H L states user_data

  abbrev D_here : List ℕ → List (ℕ × ℕ)
  D_here = due_here H L states user_data

  -- A walk over `list` that led from `z` to `z'`.
  pub record Totals (s f : List ℕ) (c : List (ℕ × ℕ)) (z z' : Finalizing) : Type 0 where
    pub specials_are : z'.special_finalization ≡ z.special_finalization ++ s
    pub freed_are : z'.to_be_freed ≡ z.to_be_freed ++ f
    pub calls_are : calls z'.events ≡ calls z.events ++ c
    pub destroyed_same : destroyed z'.events ≡ destroyed z.events

  Totals-trans :
      (s1 f1 s2 f2 : List ℕ) (c1 c2 : List (ℕ × ℕ)) (z z1 z2 : Finalizing)
      → Totals s1 f1 c1 z z1
      → Totals s2 f2 c2 z1 z2
      → Totals (s1 ++ s2) (f1 ++ f2) (c1 ++ c2) z z2
  Totals-trans s1 f1 s2 f2 c1 c2 z z1 z2 a b = record {
    specials_are = rw (b.specials_are, a.specials_are, append_assoc);
    freed_are = rw (b.freed_are, a.freed_are, append_assoc);
    calls_are = rw (b.calls_are, a.calls_are, append_assoc);
    destroyed_same = b.destroyed_same ∙ a.destroyed_same;
  }

  Totals-nil : (z : Finalizing) → Totals [] [] [] z z
  Totals-nil z = record {
    specials_are = sym (append-nil z.special_finalization);
    freed_are = sym (append-nil z.to_be_freed);
    calls_are = sym (append-nil (calls z.events));
    destroyed_same = refl;
  }

  S-cons : (os : ℕ) (rest : List ℕ) → S (os ∷ rest) ≡ S (os ∷ []) ++ S rest
  S-cons os rest = ground arith

  F-cons : (os : ℕ) (rest : List ℕ) → F (os ∷ rest) ≡ F (os ∷ []) ++ F rest
  F-cons os rest = ground arith

  pub D-cons : (os : ℕ) (rest : List ℕ) → D (os ∷ rest) ≡ D (os ∷ []) ++ D rest
  D-cons os rest = ground arith

  D_here-cons : (os : ℕ) (rest : List ℕ) → D_here (os ∷ rest) ≡ D_here (os ∷ []) ++ D_here rest
  D_here-cons os rest = ground (arith, append-nil (D (os ∷ [])))

  pub finalize_each-Totals :
      (l : List ℕ) (z : Finalizing)
      → Totals (S l) (F l) (D_here l) z (finalize_each H L states user_data l z)
  unfolding finalize_each
  finalize_each-Totals [] z = Totals-nil z
  finalize_each-Totals (os ∷ rest) z =
      rw (S-cons os rest, F-cons os rest, D_here-cons os rest)
        (Totals-trans (S (os ∷ [])) (F (os ∷ [])) (S rest) (F rest) (D_here (os ∷ [])) (D_here rest)
          z (step H L states user_data os z) _
          (record {
            specials_are = step_special H L states user_data os z;
            freed_are = step-freed H L states user_data os z;
            calls_are = calls-step H L states user_data os z;
            destroyed_same = destroyed-step H L states user_data os z;
          })
          (finalize_each-Totals rest (step H L states user_data os z)))

  pub finalize_local-Totals :
      (l : List ℕ) (z : Finalizing)
      → Totals []
          (hidden H L states user_data l)
          (D l)
          z
          (finalize_local_each H L states user_data l z)
  unfolding finalize_local_each
  finalize_local-Totals [] z = Totals-nil z
  finalize_local-Totals (os ∷ rest) z = rw (D-cons os rest) (
      Totals-trans [] (hidden H L states user_data (os ∷ [])) [] (hidden H L states user_data rest)
        (D (os ∷ [])) (D rest) z (local_step H L states user_data os z) _
        (record {
          specials_are =
              local_special H L states user_data os z ∙ sym (append-nil z.special_finalization);
          freed_are = local_freed H L states user_data os z;
          calls_are = local_calls H L states user_data os z;
          destroyed_same = local_destroyed H L states user_data os z;
        })
        (finalize_local-Totals rest (local_step H L states user_data os z)))
