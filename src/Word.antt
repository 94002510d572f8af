-- ===== src/Word.antt =====
-- cgc1/include/cgc1/hide_pointer.hpp: a pointer is hidden from the collector by the complement of its
-- 64 bits.
pub mod Bits
pub mod Flags
use cgc.Base.{ℕ, ◌-◌, ◌^◌, ◌<◌, ◌≡◌, ◌≢◌, arith}

-- An address or a `size_t`: a number below `2 ^ 64`.
abbrev pub word_mod : ℕ
word_mod = 2 ^ 64

-- `~reinterpret_cast<size_t>(v)`: the complement of 64 bits.
unfoldable pub hide_pointer : ℕ → ℕ
hide_pointer v = word_mod - 1 - v

unfoldable pub unhide_pointer : ℕ → ℕ
unhide_pointer sz = word_mod - 1 - sz

-- For an address `v` of 64 bits, revealing the hidden pointer gives `v` back, and the hidden form is an
-- address of 64 bits other than `v` itself.
pub unhide_pointer-hide_pointer :
    (v : ℕ)
    → v < word_mod
    → (unhide_pointer (hide_pointer v) ≡ v) × (hide_pointer v < word_mod) × (hide_pointer v ≢ v)
unfolding hide_pointer unhide_pointer
unhide_pointer-hide_pointer v h = (omega arith, omega arith, λ e. omega (arith, e))
