-- ===== src/Examples/Calling.antt =====
-- Calls on the objects of the sample heap.
use cgc.Base.{◌≡◌, ◌≢◌, refl, sym, ◌∙◌, true, false, none, some, if◌then◌else◌, ◌==◌, arith}
use cgc.Heap.Sample.{header, layout}
use cgc.Mark.{is_valid_object_state, find_valid_object_state}
use cgc.Sweep.{UserData}
use cgc.Sweep.Swept.{fate, kept}
use cgc.Sweep.Trace.{finalizer_of}
use cgc.Api.{bitmap_allocator_user_data, cgc_start, sparse_start}
use cgc.Api.Calls.{
  Failure, bad_address, atomic_in_bitmap, returns, throws, Store, fails, cgc_register_finalizer,
  cgc_set_uncollectable, cgc_set_atomic,
}
use cgc.Api.Calls.Failures.{sets_atomic, call, failed_call_keeps}
use cgc.Api.Calls.Owned.{data_at, OwnsData, IsFresh, Gives}
use cgc.Api.Calls.Effects.{
  registered, collectable_set, Names, register_finalizer-Gives, set_uncollectable-kept,
}
use cgc.Examples.Looking.{regions}

abbrev default_data : UserData
default_data = record {
  is_default = true;
  uncollectable = false;
  allow_arbitrary_finalizer_thread = false;
  finalizer = none;
}

abbrev pub own_data : UserData
own_data = record default_data { is_default = false; finalizer = some 7 }

-- The object at 112 has data of its own, at 300; all others share the default data at 400.
abbrev pub store : Store header
store = record {
  states =
      λ os. record { used = true; quasi = false; flags = 0; ud = if os == 96 then 300 else 400 };
  user_data = λ p. if p == 300 then own_data else default_data;
  bitmap_data =
      λ p. record { gc_user_data = default_data; atomic = false; abort_on_collect = false };
  finalizeable = λ s i. false;
  arbitrary_thread = λ s i. false;
}

store-OwnsData : OwnsData header store
store-OwnsData q r e d = ground arith

address-IsFresh : IsFresh header 500 store
address-IsFresh = (λ e. cc, λ q e. ground arith)

first_named : Names header layout regions 112 96 store
unfolding bitmap_allocator_user_data cgc_start sparse_start is_valid_object_state
    find_valid_object_state
first_named = record {
  not_null = λ e. cc;
  not_bitmap = refl;
  in_slab = refl;
  start = 112;
  starts = refl;
  state_there = refl;
  has_data = λ e. cc;
}

second_named : Names header layout regions 144 128 store
unfolding bitmap_allocator_user_data cgc_start sparse_start is_valid_object_state
    find_valid_object_state
second_named = record {
  not_null = λ e. cc;
  not_bitmap = refl;
  in_slab = refl;
  start = 144;
  starts = refl;
  state_there = refl;
  has_data = λ e. cc;
}

atomic_throws :
    (call header layout regions 500 (sets_atomic 1064 true) store).0 ≡ throws atomic_in_bitmap
unfolding cgc_set_atomic cgc_start bitmap_allocator_user_data
atomic_throws = refl

throws_not_returns : (f : Failure) → throws f ≢ returns
throws_not_returns f e = cc

failed_call_keeps_example : (call header layout regions 500 (sets_atomic 1064 true) store).1 ≡ store
failed_call_keeps_example =
    failed_call_keeps header layout regions 500 (sets_atomic 1064 true) store
      (λ e. throws_not_returns atomic_in_bitmap (sym atomic_throws ∙ e))

unknown_throws :
    (cgc_register_finalizer header layout regions 500 5 (some 9) false true store).0
    ≡ throws bad_address
unfolding cgc_register_finalizer bitmap_allocator_user_data fails
unknown_throws = refl

register_finalizer-Gives_example :
    let r = cgc_register_finalizer header layout regions 500 144 (some 9) true false store in
    (r.0 ≡ returns)
    × (finalizer_of header layout r.1.states r.1.user_data 128 ≡ some 9)
    × Gives header 500 128 (registered (some 9) true (data_at header store 128)) store r.1
register_finalizer-Gives_example =
    register_finalizer-Gives header layout regions 500 144 128 store address-IsFresh store-OwnsData
      second_named (some 9) true false

set_uncollectable-kept_example :
    let r = cgc_set_uncollectable header layout regions 500 144 true store in
    (r.0 ≡ returns)
    × (fate header r.1.user_data (r.1.states 128) ≡ kept)
    × Gives header 500 128 (collectable_set true (data_at header store 128)) store r.1
set_uncollectable-kept_example =
    set_uncollectable-kept header layout regions 500 144 128 store address-IsFresh store-OwnsData
      second_named
