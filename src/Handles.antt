-- ===== src/Handles.antt =====
-- cgc1/include/cgc1/cgc_root.hpp and cgc1/include/cgc1/cgc_root_pointer.hpp: objects that are meant to hold a
-- root for as long as they live, by the calls `cgc_add_root` and `cgc_remove_root` of
-- cgc1/src/kernel.cpp. A handle is known by a number, and holds 0 when it holds no address or is not
-- constructed.
pub mod Held
use cgc.Base.{ℕ, Option, if◌then◌else◌, ◌==◌, Eq}
use cgc.Heap.{update}
use cgc.Roots.{RootCollection}
use cgc.RootCalls.{cgc_add_root, cgc_remove_root}

-- The kernel with its roots, if it is there, `m_root` of each handle, and `m_t` of the root pointer at each address.
pub record Handles (Range : Type 0) : Type 0 where
  pub kernel : Option (RootCollection Range)
  pub root : ℕ → ℕ
  pub target : ℕ → ℕ

module _ {Range : Type 0} ⦃e : Eq Range⦄ where
  -- `cgc_root_t(T *&ptr)`, with the address of the pointer.
  unfoldable pub construct_root : ℕ → ℕ → Handles Range → Handles Range
  construct_root h p s = record s { kernel = cgc_add_root p s.kernel; root = update s.root h p }

  -- `~cgc_root_t()`. The handle holds nothing any more.
  unfoldable pub destroy_root : ℕ → Handles Range → Handles Range
  destroy_root h s =
      if s.root h == 0
      then s
      else record s { kernel = cgc_remove_root (s.root h) s.kernel; root = update s.root h 0 }

  -- The move constructor, for the new handle `h` from `g`; and the move assignment.
  unfoldable pub move_root : ℕ → ℕ → Handles Range → Handles Range
  move_root h g s = record s { root = update (update s.root h (s.root g)) g 0 }

  unfoldable pub assign_root : ℕ → ℕ → Handles Range → Handles Range
  assign_root h g s = record s { root = update (update s.root h (s.root g)) g 0 }

  unfoldable pub clear_root : ℕ → Handles Range → Handles Range
  clear_root h s = record s {
    kernel = cgc_remove_root (s.root h) s.kernel;
    root = update s.root h 0;
  }

  -- A root pointer with its `m_t` at the address `a`: the constructor from a pointer, the move constructor
  -- from the one at `b`, the assignments, `clear_root` and the destructor. The handle is its `m_root`.
  unfoldable pub construct_pointer : ℕ → ℕ → Handles Range → Handles Range
  construct_pointer a t s = construct_root a a (record s { target = update s.target a t })

  unfoldable pub move_pointer : ℕ → ℕ → Handles Range → Handles Range
  move_pointer a b s = construct_pointer a (s.target b) s

  unfoldable pub assign_pointer : ℕ → ℕ → Handles Range → Handles Range
  assign_pointer a t s = record s { target = update s.target a t }

  unfoldable pub clear_pointer_root : ℕ → Handles Range → Handles Range
  clear_pointer_root a s = clear_root a s

  unfoldable pub destroy_pointer : ℕ → Handles Range → Handles Range
  destroy_pointer a s = destroy_root a s
