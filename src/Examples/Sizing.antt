-- ===== src/Examples/Sizing.antt =====
-- Allocations in the sample heap, of whose entry of 32 bytes the user data takes 16.
use cgc.Base.{ℕ, ◌+◌, ◌-◌, true, false, leb}
use cgc.Heap.{Layout}
use cgc.Heap.Sample.{header, layout}
use cgc.Kernel.Memory.{Allocators, Memory}
use cgc.Examples.Looking.{regions}
use cgc.Examples.Calling.{store}

abbrev typed_layout : Layout
typed_layout = record layout { get_state = λ a. a; type_id = λ s. s - 1064 }

-- The allocators keep how often they were asked. Sizes are not rounded up.
abbrev allocators : Allocators header
allocators = record {
  Heap = ℕ;
  align = λ sz. sz;
  fits_in_bins = λ sz. leb sz 32;
  base_is_default = false;
  bitmap_allocate = λ a sz type n. (record { ptr = 1064 + type; size = sz }, n + 1);
  bitmap_deallocate = λ a p n. (true, n);
  sparse_allocate = λ a sz n states. (record { ptr = 112; size = sz }, n + 1, states);
  sparse_allocate_detailed = λ a sz n states. (record { ptr = 112; size = sz }, 96, n + 1, states);
  sparse_deallocate = λ a p n states. (n, states);
}

abbrev memory : Memory header typed_layout regions allocators
memory = record { heap = 0; store = store }
