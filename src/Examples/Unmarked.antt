-- ===== src/Examples/Unmarked.antt =====
-- A collection of the sample heap, and a state of the bitmap allocator with two allocated entries, of which
-- the first has a finalizer; the mark phase does not reach the state.
use cgc.Base.{ℕ, Bool, true, ◌&&◌, not}
use cgc.BitmapFinal.{Pass}
use cgc.Examples.Freeing.{pass}

abbrev pass_of : (ℕ → Bool) → Pass
pass_of marks = record pass { to_be_freed = λ i. true && not (marks i) }
