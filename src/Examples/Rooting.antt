-- ===== src/Examples/Rooting.antt =====
-- The calls of the public interface on roots, on a fresh kernel.
use cgc.Base.{ℕ, ◌≡◌, Option, none, List, [], ◌∷◌, nat_eq}
use cgc.Roots.{RootCollection}
use cgc.RootCalls.{RootCall, adds, removes, adds_range, check_initialized, calls, root_calls_keep}

abbrev some_calls : List (RootCall ℕ)
some_calls = adds 8 ∷ adds 16 ∷ removes 8 ∷ adds_range 3 ∷ []

abbrev no_kernel : Option (RootCollection ℕ)
no_kernel = none

root_calls_keep_example :
    check_initialized (calls some_calls no_kernel) ≡ check_initialized no_kernel
root_calls_keep_example = root_calls_keep some_calls no_kernel
