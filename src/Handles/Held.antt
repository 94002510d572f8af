-- ===== src/Handles/Held.antt =====
-- What the handles hold, and what the kernel knows of it.
use cgc.Base.{ℕ, ◌≡◌, ◌≢◌, Option, Eq}
use cgc.Roots.{RootCollection}
use cgc.RootCalls.{check_initialized}
use cgc.Handles.{
  Handles, construct_root, destroy_root, move_root, assign_root, clear_root, construct_pointer,
  move_pointer, assign_pointer, clear_pointer_root, destroy_pointer,
}

-- No address is held twice.
abbrev Apart : (ℕ → ℕ) → Type 0
Apart root = (h g : ℕ) → root h ≢ 0 → root h ≡ root g → h ≡ g

module _ {Range : Type 0} ⦃e : Eq Range⦄ where
  -- The uses of handles, one after the other. A handle is constructed where there is none, on the address
  -- of a pointer that no handle holds; and it is assigned to only while it holds nothing.
  pub data Use (s : Handles Range) : Handles Range → Type 0 where
    constructs :
        (h p : ℕ) → p ≢ 0 → s.root h ≡ 0 → ((g : ℕ) → s.root g ≢ p) → Use s (construct_root h p s)
    constructs_pointer :
        (a t : ℕ)
        → a ≢ 0
        → s.root a ≡ 0
        → ((g : ℕ) → s.root g ≢ a)
        → Use s (construct_pointer a t s)
    moves_pointer :
        (a b : ℕ) → a ≢ 0 → s.root a ≡ 0 → ((g : ℕ) → s.root g ≢ a) → Use s (move_pointer a b s)
    assigns_pointer : (a t : ℕ) → Use s (assign_pointer a t s)
    moves : (h g : ℕ) → h ≢ g → s.root h ≡ 0 → Use s (move_root h g s)
    assigns : (h g : ℕ) → h ≢ g → s.root h ≡ 0 → Use s (assign_root h g s)
    clears : (h : ℕ) → Use s (clear_root h s)
    clears_pointer : (a : ℕ) → Use s (clear_pointer_root a s)
    destroys : (h : ℕ) → Use s (destroy_root h s)
    destroys_pointer : (a : ℕ) → Use s (destroy_pointer a s)

  pub data Used (k : Option (RootCollection Range)) : Handles Range → Type 0 where
    unused : (s : Handles Range) → s.kernel ≡ k → ((h : ℕ) → s.root h ≡ 0) → Used k s
    uses : (s s' : Handles Range) → Used k s → Use s s' → Used k s'

  -- What `s` does not share, and that its roots are those of `k`.
  record Holds (k : Option (RootCollection Range)) (s : Handles Range) : Type 0 where
    apart : Apart s.root
    roots_same : check_initialized s.kernel ≡ check_initialized k
