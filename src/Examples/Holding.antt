-- ===== src/Examples/Holding.antt =====
-- Handles on pointers at 16 and 24.
use cgc.Base.{nat_eq, ℕ, some, []}
use cgc.Handles.{Handles, construct_root}

abbrev nothing : Handles ℕ
nothing = record {
  kernel = some (record { roots = []; ranges = [] });
  root = λ h. 0;
  target = λ a. 0;
}

abbrev one_handle : Handles ℕ
one_handle = construct_root 1 16 nothing

abbrev two_handles : Handles ℕ
two_handles = construct_root 2 24 one_handle
