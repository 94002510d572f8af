-- ===== src/Examples/Excluding.antt =====
-- Thread 1 collects, and one of the finalizers that it runs calls for a collection.
use cgc.Base.{ℕ, ◌≡◌, refl, true, false, [], ◌∷◌}
use cgc.Collectors.{
  outside, nested, Collectors, waiting_from, force_collect, collect, calls, finalizer_calls, Acts,
  none_more, then_act,
}
use cgc.Collectors.Exclusive.{is_busy, IsQuiet, collections_exclude, nested_collection_waits}

abbrev quiet : Collectors
quiet = record { m_collect = false; mode = λ t. outside }

quiet-IsQuiet : IsQuiet quiet
quiet-IsQuiet = (refl, λ t. refl)

abbrev first_begins : Collectors
first_begins = (collect (true ∷ []) true true 1 quiet).1

abbrev finalizer_asks : Collectors
finalizer_asks = (collect [] true true 1 first_begins).1

first_acts : Acts quiet first_begins
first_acts = then_act quiet _ none_more (calls 1 (true ∷ []) true true refl)

asked : Acts quiet finalizer_asks
unfolding collect force_collect
asked = then_act first_begins _ first_acts (finalizer_calls 1 [] true true refl)

in_loop : finalizer_asks.mode 1 ≡ nested
unfolding collect force_collect waiting_from
in_loop = refl

-- Another thread calls as well.
abbrev other_asks : Collectors
other_asks = (collect [] true true 2 finalizer_asks).1

asked_again : Acts finalizer_asks other_asks
unfolding collect force_collect
asked_again = then_act finalizer_asks _ none_more (calls 2 [] true true refl)

collections_exclude_example :
    ((t u : ℕ)
      → is_busy (first_begins.mode t) ≡ true
      → is_busy (first_begins.mode u) ≡ true
      → t ≡ u)
    × ((t : ℕ) → is_busy (first_begins.mode t) ≡ true → first_begins.m_collect ≡ true)
collections_exclude_example = collections_exclude quiet first_begins quiet-IsQuiet first_acts

nested_collection_waits_example : (other_asks.mode 1 ≡ nested) × (other_asks.m_collect ≡ true)
nested_collection_waits_example =
    nested_collection_waits quiet finalizer_asks other_asks 1 quiet-IsQuiet asked in_loop
      asked_again
