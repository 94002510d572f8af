-- ===== src/Roots.antt =====
-- cgc1/src/root_collection.hpp: the collection of single roots and of root ranges. The lock that every
-- member takes is left out: a call is one step. A range is a `mcpputil::system_memory_range_t`, of
-- which the code uses the equality only, so its type is a parameter.
pub mod Laws
pub mod History
use cgc.Base.{ℕ, Bool, List, [], ◌∷◌, ◌++◌, if◌then◌else◌, Eq, nat_eq, contains, erase}

-- Roots and ranges, in the order of the vectors.
pub record RootCollection (Range : Type 0) : Type 0 where
  pub roots : List ℕ
  pub ranges : List Range

-- A collection as the constructor leaves it.
abbrev pub empty : {Range : Type 0} → RootCollection Range
empty = record { roots = []; ranges = [] }

module _ {Range : Type 0} where
  unfoldable pub has_root : ℕ → RootCollection Range → Bool
  has_root r c = contains r c.roots

  unfoldable pub add_root : ℕ → RootCollection Range → RootCollection Range
  add_root r c = if contains r c.roots then c else record c { roots = c.roots ++ r ∷ [] }

  unfoldable pub remove_root : ℕ → RootCollection Range → RootCollection Range
  remove_root r c = if contains r c.roots then record c { roots = erase r c.roots } else c

  unfoldable pub clear : RootCollection Range → RootCollection Range
  clear c = record { roots = []; ranges = [] }

module _ {Range : Type 0} ⦃e : Eq Range⦄ where
  unfoldable pub has_range : Range → RootCollection Range → Bool
  has_range r c = contains r c.ranges

  unfoldable pub add_range : Range → RootCollection Range → RootCollection Range
  add_range r c = if contains r c.ranges then c else record c { ranges = c.ranges ++ r ∷ [] }

  unfoldable pub remove_range : Range → RootCollection Range → RootCollection Range
  remove_range r c = if contains r c.ranges then record c { ranges = erase r c.ranges } else c
