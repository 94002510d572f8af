-- ===== src/RootCalls.antt =====
-- cgc1/src/kernel.cpp, the calls of the public interface on roots, with `root_collection()` of
-- cgc1/src/global_kernel_state_impl.hpp. The kernel is there (`some`) or not (`none`); of its state only
-- the root collection is kept. A call on a kernel that is not there, where the code does not test for it,
-- is not defined and left out of the calls here.
use cgc.Base.{ℕ, ◌≡◌, refl, ◌∙◌, Option, none, some, List, [], ◌∷◌, Eq}
use cgc.Roots.{RootCollection, empty, add_root, remove_root, add_range, remove_range}

-- The calls that are meant to change the roots.
pub data RootCall (Range : Type 0) : Type 0 where
  adds removes : ℕ → RootCall Range
  adds_range removes_range : Range → RootCall Range

-- The two values behind a call on the object that `root_collection()` returns: the kernel's own
-- collection, and the object.
pub record Called (Range : Type 0) : Type 0 where
  pub m_roots : RootCollection Range
  pub returned : RootCollection Range

module _ {Range : Type 0} where
  -- The member returns its collection by value: a copy.
  unfoldable pub root_collection : RootCollection Range → Called Range
  root_collection c = record { m_roots = c; returned = c }

  -- A member of the returned object is called, and the object is destroyed.
  unfoldable pub on_returned :
      (RootCollection Range → RootCollection Range) → Called Range → RootCollection Range
  on_returned change k = let after = record k { returned = change k.returned } in after.m_roots

  -- `check_initialized`.
  unfoldable pub check_initialized : Option (RootCollection Range) → RootCollection Range
  check_initialized none = empty
  check_initialized (some c) = c

module _ {Range : Type 0} ⦃e : Eq Range⦄ where
  unfoldable pub cgc_add_root : ℕ → Option (RootCollection Range) → Option (RootCollection Range)
  cgc_add_root v g = some (on_returned (add_root v) (root_collection (check_initialized g)))

  unfoldable pub cgc_remove_root : ℕ → Option (RootCollection Range) → Option (RootCollection Range)
  cgc_remove_root v none = none
  cgc_remove_root v (some c) = some (on_returned (remove_root v) (root_collection c))

  unfoldable pub cgc_add_range :
      Range → Option (RootCollection Range) → Option (RootCollection Range)
  cgc_add_range r g = some (on_returned (add_range r) (root_collection (check_initialized g)))

  unfoldable pub cgc_remove_range :
      Range → Option (RootCollection Range) → Option (RootCollection Range)
  cgc_remove_range r none = none
  cgc_remove_range r (some c) = some (on_returned (remove_range r) (root_collection c))

  unfoldable pub call :
      RootCall Range → Option (RootCollection Range) → Option (RootCollection Range)
  call (adds v) g = cgc_add_root v g
  call (removes v) g = cgc_remove_root v g
  call (adds_range r) g = cgc_add_range r g
  call (removes_range r) g = cgc_remove_range r g

  unfoldable pub calls :
      List (RootCall Range) → Option (RootCollection Range) → Option (RootCollection Range)
  calls [] g = g
  calls (k ∷ ks) g = calls ks (call k g)

  pub call_keeps :
      (k : RootCall Range) (g : Option (RootCollection Range))
      → check_initialized (call k g) ≡ check_initialized g
  unfolding call cgc_add_root cgc_remove_root cgc_add_range cgc_remove_range check_initialized
      on_returned root_collection
  call_keeps (adds v) none = refl
  call_keeps (adds v) (some c) = refl
  call_keeps (removes v) none = refl
  call_keeps (removes v) (some c) = refl
  call_keeps (adds_range r) none = refl
  call_keeps (adds_range r) (some c) = refl
  call_keeps (removes_range r) none = refl
  call_keeps (removes_range r) (some c) = refl

  -- No sequence of the calls `cgc_add_root`, `cgc_remove_root`, `cgc_add_range` and `cgc_remove_range`
  -- changes the roots and ranges of the kernel, since each call works on a copy: a kernel that is there
  -- keeps its collection, and one that a call creates is left with an empty collection.
  pub root_calls_keep :
      (ks : List (RootCall Range)) (g : Option (RootCollection Range))
      → check_initialized (calls ks g) ≡ check_initialized g
  unfolding calls
  root_calls_keep [] g = refl
  root_calls_keep (k ∷ ks) g = root_calls_keep ks (call k g) ∙ call_keeps k g
