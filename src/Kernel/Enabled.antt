-- ===== src/Kernel/Enabled.antt =====
-- Calls of `enable` and `disable` balance each other.
use cgc.Base.{ℕ, suc, ◌+◌, ◌-◌, ◌%◌, ◌<◌, ◌≡◌, ◌∙◌, ◌⊎◌, inl, ◌&&◌, List, [], ◌∷◌, ltb, leb, arith}
use cgc.Word.{word_mod}
use cgc.Kernel.{Kernel, enable, disable, enabled}

data Switch : Type 0 where
  on off : Switch

unfoldable switch : Switch → Kernel → Kernel
switch on k = enable k
switch off k = disable k

unfoldable switches : List Switch → Kernel → Kernel
switches [] k = k
switches (s ∷ ss) k = switches ss (switch s k)

abbrev count_on : List Switch → ℕ
count_on [] = 0
count_on (on ∷ ss) = suc (count_on ss)
count_on (off ∷ ss) = count_on ss

abbrev count_off : List Switch → ℕ
count_off [] = 0
count_off (on ∷ ss) = count_off ss
count_off (off ∷ ss) = suc (count_off ss)

-- The count, as a signed number, is the difference of `plus` and `minus`.
abbrev Stands : ℕ → ℕ → ℕ → Type 0
Stands plus minus c = (c < word_mod) × ((c + minus ≡ plus) ⊎ (c + minus ≡ plus + word_mod))

up :
    (plus minus c : ℕ)
    → plus + minus < 9223372036854775808
    → Stands plus minus c
    → Stands (suc plus) minus ((c + 1) % word_mod)
up plus minus c h (b, s) = ground (arith, h, b, s)

down :
    (plus minus c : ℕ)
    → plus + minus < 9223372036854775808
    → Stands plus minus c
    → Stands plus (suc minus) ((c + (word_mod - 1)) % word_mod)
down plus minus c h (b, s) = ground (arith, h, b, s)

sign :
    (plus minus c : ℕ)
    → plus + minus < 9223372036854775808
    → Stands plus minus c
    → (ltb 0 c && ltb c 9223372036854775808) ≡ ltb minus plus
sign plus minus c h (b, s) = ground (arith, h, b, s)

switches-Stands :
    (ss : List Switch) (plus minus : ℕ) (k : Kernel)
    → (plus + count_on ss) + (minus + count_off ss) < 9223372036854775808
    → Stands plus minus k.enabled_count
    → Stands (plus + count_on ss) (minus + count_off ss) (switches ss k).enabled_count
unfolding switches switch enable disable
switches-Stands [] plus minus k h s = ground (arith, h, s)
switches-Stands (on ∷ ss) plus minus k h s =
    let (b, e) =
      switches-Stands ss (suc plus) minus (enable k) (omega (arith, h))
        (up plus minus k.enabled_count (omega (arith, h)) s) in
    (b, ground (arith, e))
switches-Stands (off ∷ ss) plus minus k h s =
    let (b, e) =
      switches-Stands ss plus (suc minus) (disable k) (omega (arith, h))
        (down plus minus k.enabled_count (omega (arith, h)) s) in
    (b, ground (arith, e))

-- Behind the constructor, after any calls of `enable` and `disable` in any order, fewer than 2 ^ 63 - 1 in
-- all, the collector is enabled exactly if it was not disabled more often than enabled.
switches-enabled :
    (ss : List Switch) (k : Kernel)
    → k.enabled_count ≡ 1
    → suc (count_on ss) + count_off ss < 9223372036854775808
    → enabled (switches ss k) ≡ leb (count_off ss) (count_on ss)
unfolding enabled
switches-enabled ss k e h =
    let s =
      switches-Stands ss 1 0 k (omega (arith, h)) (omega (arith, e), inl (omega (arith, e))) in
    sign (1 + count_on ss) (0 + count_off ss) (switches ss k).enabled_count (omega (arith, h)) s
    ∙ ground arith
