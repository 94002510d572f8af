-- ===== src/Word/Flags.antt =====
-- cgc1/src/gc_allocator_impl.hpp and gc_allocator.hpp: the collector keeps three bits in the user
-- flags of an object state: 1 marked, 2 atomic, 4 complex. The functions here are on the number of
-- flags; the object state that holds it belongs to mcppalloc.
use Prim.Native.Nat.{bit_and, bit_or, min}
use cgc.Base.{
  ℕ, zero, suc, ◌+◌, ◌*◌, ◌/◌, ◌%◌, ◌<◌, ◌≡◌, refl, sym, ap, subst, ◌∙◌, Bool, true, false, not,
  ◌&&◌, if◌then◌else◌, ltb, ◌==◌, arith,
}
use cgc.Word.Bits.{bit_and-small}

-- `static_cast<size_t>(status)`.
abbrev pub to_size : Bool → ℕ
to_size true = 1
to_size false = 0

unfoldable pub is_marked : ℕ → Bool
is_marked flags = not (bit_and flags 1 == 0)

unfoldable pub is_atomic : ℕ → Bool
is_atomic flags = not (bit_and flags 2 == 0)

unfoldable pub is_complex : ℕ → Bool
is_complex flags = not (bit_and flags 4 == 0)

unfoldable pub set_mark : ℕ → Bool → ℕ
set_mark flags status = bit_or (bit_and flags 6) (to_size status)

-- `flag << k` is `flag * 2 ^ k`.
unfoldable pub set_atomic : ℕ → Bool → ℕ
set_atomic flags status = bit_or (bit_and flags 5) (to_size status * 2)

unfoldable pub set_complex : ℕ → Bool → ℕ
set_complex flags status = bit_or (bit_and flags 3) (to_size status * 4)

unfoldable pub clear_mark : ℕ → ℕ
clear_mark flags = bit_and flags 6

-- The three flags, as a number below 8.
abbrev low : ℕ → ℕ
low flags = flags % 8

bit_0 : (n : ℕ) → low n % 2 ≡ n % 2
bit_0 n = omega arith

bit_1 : (n : ℕ) → low n / 2 % 2 ≡ n / 2 % 2
bit_1 n = omega arith

bit_2 : (n : ℕ) → low n / 4 % 2 ≡ n / 4 % 2
bit_2 n = omega arith

-- The number that three bits and a mask leave.
abbrev digits : ℕ → ℕ → ℕ → ℕ → ℕ
digits a b c k = min a (k % 2) + 2 * min b (k / 2 % 2) + 4 * min c (k / 4 % 2)

digits-same : {a b c d e f : ℕ} (k : ℕ) → d ≡ a → e ≡ b → f ≡ c → digits a b c k ≡ digits d e f k
digits-same k p q r = λ i. digits (sym p i) (sym q i) (sym r i) k

masked : (flags k : ℕ) → k < 8 → bit_and flags k ≡ bit_and (low flags) k
masked flags k h =
    bit_and-small flags k h
    ∙ digits-same k (bit_0 flags) (bit_1 flags) (bit_2 flags)
    ∙ sym (bit_and-small (low flags) k h)

-- What the three getters answer, and that no other bit is set.
abbrev pub Reads : ℕ → Bool → Bool → Bool → Type 0
Reads flags marked atomic complex =
    (is_marked flags ≡ marked)
    × (is_atomic flags ≡ atomic)
    × (is_complex flags ≡ complex)
    × (flags < 8)

-- A setter changes its own flag, and the two others stay.
abbrev pub Independent : ℕ → Bool → Type 0
Independent flags s =
    Reads (set_mark flags s) s (is_atomic flags) (is_complex flags)
    × Reads (set_atomic flags s) (is_marked flags) s (is_complex flags)
    × Reads (set_complex flags s) (is_marked flags) (is_atomic flags) s
    × Reads (clear_mark flags) false (is_atomic flags) (is_complex flags)

-- The functions look at the three low bits only.
is_marked-low : (flags : ℕ) → is_marked flags ≡ is_marked (low flags)
unfolding is_marked
is_marked-low flags = rw (masked flags 1 (omega arith))

is_atomic-low : (flags : ℕ) → is_atomic flags ≡ is_atomic (low flags)
unfolding is_atomic
is_atomic-low flags = rw (masked flags 2 (omega arith))

is_complex-low : (flags : ℕ) → is_complex flags ≡ is_complex (low flags)
unfolding is_complex
is_complex-low flags = rw (masked flags 4 (omega arith))

set_mark-low : (flags : ℕ) (s : Bool) → set_mark flags s ≡ set_mark (low flags) s
unfolding set_mark
set_mark-low flags s = rw (masked flags 6 (omega arith))

set_atomic-low : (flags : ℕ) (s : Bool) → set_atomic flags s ≡ set_atomic (low flags) s
unfolding set_atomic
set_atomic-low flags s = rw (masked flags 5 (omega arith))

set_complex-low : (flags : ℕ) (s : Bool) → set_complex flags s ≡ set_complex (low flags) s
unfolding set_complex
set_complex-low flags s = rw (masked flags 3 (omega arith))

clear_mark-low : (flags : ℕ) → clear_mark flags ≡ clear_mark (low flags)
unfolding clear_mark
clear_mark-low flags = rw (masked flags 6 (omega arith))

Reads-cong :
    {x y : ℕ} {m n a b c d : Bool} → y ≡ x → n ≡ m → b ≡ a → d ≡ c → Reads x m a c → Reads y n b d
Reads-cong e p q r h = (
  ap is_marked e ∙ h.0 ∙ sym p,
  ap is_atomic e ∙ h.1 ∙ sym q,
  ap is_complex e ∙ h.2 ∙ sym r,
  subst (λ k. k < 8) (sym e) h.3,
)

Independent-low : (flags : ℕ) (s : Bool) → Independent (low flags) s → Independent flags s
Independent-low flags s h =
    let m = is_marked-low flags in
    let a = is_atomic-low flags in
    let c = is_complex-low flags in
    (
      Reads-cong (set_mark-low flags s) refl a c h.0,
      Reads-cong (set_atomic-low flags s) m refl c h.1,
      Reads-cong (set_complex-low flags s) m a refl h.2,
      Reads-cong (clear_mark-low flags) refl a c h.3,
    )

abbrev eqv : Bool → Bool → Bool
eqv a b = if a then b else not b

abbrev reads : ℕ → Bool → Bool → Bool → Bool
reads flags marked atomic complex =
    eqv (is_marked flags) marked
    && (eqv (is_atomic flags) atomic && (eqv (is_complex flags) complex && ltb flags 8))

abbrev independent : ℕ → Bool → Bool
independent flags s =
    reads (set_mark flags s) s (is_atomic flags) (is_complex flags)
    && (reads (set_atomic flags s) (is_marked flags) s (is_complex flags)
        && (reads (set_complex flags s) (is_marked flags) (is_atomic flags) s
            && reads (clear_mark flags) false (is_atomic flags) (is_complex flags)))

reads-Reads :
    (flags : ℕ) (marked atomic complex : Bool)
    → reads flags marked atomic complex ≡ true
    → Reads flags marked atomic complex
reads-Reads flags marked atomic complex h = ground arith

and_parts : (a b : Bool) → (a && b) ≡ true → (a ≡ true) × (b ≡ true)
and_parts a b h = ground arith

independent-Independent : (flags : ℕ) (s : Bool) → independent flags s ≡ true → Independent flags s
independent-Independent flags s h =
    let (a, h1) = and_parts (reads (set_mark flags s) s (is_atomic flags) (is_complex flags)) _ h in
    let (b, h2) =
      and_parts (reads (set_atomic flags s) (is_marked flags) s (is_complex flags)) _ h1 in
    let (c, d) =
      and_parts (reads (set_complex flags s) (is_marked flags) (is_atomic flags) s) _ h2 in
    (reads-Reads _ _ _ _ a, reads-Reads _ _ _ _ b, reads-Reads _ _ _ _ c, reads-Reads _ _ _ _ d)

-- The eight numbers of three bits.
small_check : (flags : ℕ) (s : Bool) → flags < 8 → independent flags s ≡ true
unfolding is_marked is_atomic is_complex set_mark set_atomic set_complex clear_mark
small_check zero true h = refl
small_check zero false h = refl
small_check (suc zero) true h = refl
small_check (suc zero) false h = refl
small_check (suc (suc zero)) true h = refl
small_check (suc (suc zero)) false h = refl
small_check (suc (suc (suc zero))) true h = refl
small_check (suc (suc (suc zero))) false h = refl
small_check (suc (suc (suc (suc zero)))) true h = refl
small_check (suc (suc (suc (suc zero)))) false h = refl
small_check (suc (suc (suc (suc (suc zero))))) true h = refl
small_check (suc (suc (suc (suc (suc zero))))) false h = refl
small_check (suc (suc (suc (suc (suc (suc zero)))))) true h = refl
small_check (suc (suc (suc (suc (suc (suc zero)))))) false h = refl
small_check (suc (suc (suc (suc (suc (suc (suc zero))))))) true h = refl
small_check (suc (suc (suc (suc (suc (suc (suc zero))))))) false h = refl
small_check (suc (suc (suc (suc (suc (suc (suc (suc n)))))))) s h = absurd (omega arith)

small : (flags : ℕ) (s : Bool) → flags < 8 → Independent flags s
small flags s h = independent-Independent flags s (small_check flags s h)

-- For any number of flags and either status, a setter of the mark, the atomic or the complex bit makes
-- its own bit the status and keeps the two other bits, `clear_mark` clears the mark and keeps the two
-- other bits, and the result is a number of three bits.
pub setters-Independent : (flags : ℕ) (s : Bool) → Independent flags s
setters-Independent flags s = Independent-low flags s (small (low flags) s (omega arith))
