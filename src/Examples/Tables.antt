-- ===== src/Examples/Tables.antt =====
-- Hidden pointers, flags and the root collection, on small values.
use cgc.Base.{ℕ, ◌<◌, ◌≡◌, ◌≢◌, refl, List, [], ◌∷◌, nat_eq, contains, erase, arith}
use cgc.Word.{word_mod, hide_pointer, unhide_pointer, unhide_pointer-hide_pointer}
use cgc.Word.Flags.{clear_mark}
use cgc.Roots.{empty, has_root, add_root, remove_root, has_range, add_range, remove_range}
use cgc.Roots.Laws.{IsUnique}
use cgc.Roots.History.{
  Call, adds, removes, adds_range, step, run, root_after, range_after, run-answers,
}

unhide_pointer-hide_pointer_example :
    (unhide_pointer (hide_pointer 4096) ≡ 4096)
    × (hide_pointer 4096 < word_mod)
    × (hide_pointer 4096 ≢ 4096)
unhide_pointer-hide_pointer_example = unhide_pointer-hide_pointer 4096 (omega arith)

-- Clearing the mark of a complex object leaves it complex.
clear_run : clear_mark 5 ≡ 4
unfolding clear_mark
clear_run = refl

empty-IsUnique : IsUnique (empty {Range = ℕ})
empty-IsUnique = record { roots_distinct = tt; ranges_distinct = tt }

-- 8 is added twice and removed once, and the range 3 stays.
abbrev calls : List (Call ℕ)
calls = adds 8 ∷ adds 16 ∷ adds 8 ∷ adds_range 3 ∷ removes 8 ∷ []

run-answers_example :
    ((q : ℕ)
      → has_root q (run calls (empty {Range = ℕ}))
        ≡ root_after q (has_root q (empty {Range = ℕ})) calls)
    × ((q : ℕ)
        → has_range q (run calls (empty {Range = ℕ}))
          ≡ range_after q (has_range q (empty {Range = ℕ})) calls)
run-answers_example = run-answers calls empty-IsUnique

roots_run : (run calls (empty {Range = ℕ})).roots ≡ 16 ∷ []
unfolding run step add_root remove_root add_range remove_range contains erase
roots_run = refl
