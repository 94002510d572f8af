-- ===== src/Examples/Freeing.antt =====
-- A state of the bitmap allocator with two entries, that are both freed; the first has a finalizer.
use cgc.Base.{
  ℕ, ◌<◌, ◌≡◌, ◌≢◌, refl, true, false, ◌&&◌, not, some, [], ◌∷◌, ◌++◌, ◌==◌, if◌then◌else◌, arith,
}
use cgc.Heap.Sample.{layout}
use cgc.Api.{bitmap_allocator_user_data}
use cgc.BitmapFinal.{
  Called, throws_exception, throws_other, ran, zeroed, unmarked_freed, Pass, Bits, call_finalizer,
  zero_rest, finalize_bitmap,
}
use cgc.BitmapFinal.Exact.{IsTame, finalize_bitmap-exact}
use cgc.Examples.Looking.{regions}
use cgc.Examples.Calling.{own_data}

abbrev pub pass : Pass
pass = record {
  state = 1000;
  size = 2;
  to_be_freed = λ i. true;
  contiguous = λ bits n. [];
  left = λ bits n. (if bits 0 then 0 ∷ [] else []) ++ (if bits 1 then 1 ∷ [] else []);
}

abbrev pub raises : ℕ → ℕ → Called
raises f object = throws_exception

abbrev pub bits : Bits
bits = record {
  finalizeable = λ i. i == 0;
  arbitrary_thread = λ i. false;
  user_data = λ p. record { gc_user_data = own_data; atomic = false; abort_on_collect = false };
  trace = [];
}

pub exception_caught : throws_exception ≢ throws_other
exception_caught e = cc

bits-IsTame : IsTame layout regions raises pass bits (λ i. 1080)
unfolding bitmap_allocator_user_data call_finalizer
bits-IsTame = record {
  has_data = λ i h. refl;
  no_abort = λ i h. refl;
  ends = λ i h. exception_caught;
  apart = λ i j h k e. ground (arith, h, k);
}

finalize_bitmap-exact_example :
    (d : Bits) × (finalize_bitmap layout regions raises pass bits ≡ some d)
    × (d.trace
        ≡ ran (some 7) 1064
          ∷ zeroed 1064 32
          ∷ (zero_rest layout regions raises pass (λ i. true && not (true && (i == 0)))
              ++ unmarked_freed ∷ []))
    × ((j : ℕ) → j < 2 → d.finalizeable j ≡ ((j == 0) && false))
finalize_bitmap-exact_example =
    finalize_bitmap-exact layout regions raises pass bits (λ i. 1080) bits-IsTame
