-- ===== src/Roots/Laws.antt =====
-- One operation of the root collection: neither vector ever holds a duplicate, and what a search finds
-- after the operation.
use cgc.Base.{
  ℕ, ◌≡◌, false, ◌||◌, if◌then◌else◌, arith, Eq, nat_eq, contains, Distinct, contains-append,
  contains-erase, erase-Distinct, append-Distinct, Bool-cases, ◌==◌, inl, inr,
}
use cgc.Roots.{RootCollection, has_root, add_root, remove_root, has_range, add_range, remove_range}

-- Neither vector holds an element twice.
pub record IsUnique {Range : Type 0} (c : RootCollection Range) : Type 0 where
  pub roots_distinct : Distinct c.roots
  pub ranges_distinct : Distinct c.ranges

module _ {Range : Type 0} (r : ℕ) {c : RootCollection Range} (u : IsUnique c) where
  pub add_root-IsUnique : IsUnique (add_root r c)
  unfolding add_root
  add_root-IsUnique = elim (Bool-cases (contains r c.roots)) [
    | inl old ↦ rw old u
    | inr new ↦ rw new (record {
      roots_distinct = append-Distinct r c.roots u.roots_distinct new;
      ranges_distinct = u.ranges_distinct;
    })
  ]

  pub remove_root-IsUnique : IsUnique (remove_root r c)
  unfolding remove_root
  remove_root-IsUnique = elim (Bool-cases (contains r c.roots)) [
    | inl old ↦ rw old (record {
      roots_distinct = erase-Distinct r c.roots u.roots_distinct;
      ranges_distinct = u.ranges_distinct;
    })
    | inr new ↦ rw new u
  ]

  pub has_root-add_root : (q : ℕ) → has_root q (add_root r c) ≡ (r == q || has_root q c)
  unfolding has_root add_root
  has_root-add_root q = ground (arith, contains-append q r c.roots)

  pub has_root-remove_root :
      (q : ℕ) → has_root q (remove_root r c) ≡ (if r == q then false else has_root q c)
  unfolding has_root remove_root
  has_root-remove_root q = ground (arith, contains-erase q r c.roots u.roots_distinct)

module _ {Range : Type 0} ⦃e : Eq Range⦄ (r : Range) {c : RootCollection Range}
    (u : IsUnique c) where
  pub add_range-IsUnique : IsUnique (add_range r c)
  unfolding add_range
  add_range-IsUnique = elim (Bool-cases (contains r c.ranges)) [
    | inl old ↦ rw old u
    | inr new ↦ rw new (record {
      roots_distinct = u.roots_distinct;
      ranges_distinct = append-Distinct r c.ranges u.ranges_distinct new;
    })
  ]

  pub remove_range-IsUnique : IsUnique (remove_range r c)
  unfolding remove_range
  remove_range-IsUnique = elim (Bool-cases (contains r c.ranges)) [
    | inl old ↦ rw old (record {
      roots_distinct = u.roots_distinct;
      ranges_distinct = erase-Distinct r c.ranges u.ranges_distinct;
    })
    | inr new ↦ rw new u
  ]

  pub has_range-add_range : (q : Range) → has_range q (add_range r c) ≡ (e.beq r q || has_range q c)
  unfolding has_range add_range
  has_range-add_range q = ground (arith, e.beq_iff r q, contains-append q r c.ranges)

  pub has_range-remove_range :
      (q : Range) → has_range q (remove_range r c) ≡ (if e.beq r q then false else has_range q c)
  unfolding has_range remove_range
  has_range-remove_range q =
      ground (arith, e.beq_iff r q, contains-erase q r c.ranges u.ranges_distinct)
