-- ===== src/Api/Calls/Failures.antt =====
-- How the calls on one object end: what a call that fails leaves behind, and which failures there are.
use cgc.Base.{ℕ, ◌≡◌, ◌≢◌, ◌⊎◌, inl, inr, Bool, true, Option, some, Option-cases, ◌==◌, arith}
use cgc.Heap.{ObjectHeader, Layout}
use cgc.Api.{Regions, bitmap_allocator_user_data}
use cgc.Api.Calls.{
  Failure, no_state, wrong_type, no_index, no_user_bits, Outcome, returns, throws, Store, fails,
  register_bitmap_finalizer, register_state_finalizer, cgc_register_finalizer,
  cgc_set_abort_on_collect, set_state_uncollectable, cgc_set_uncollectable, cgc_set_atomic,
}

-- The calls, with their arguments.
pub data Call : Type 0 where
  registers_finalizer : ℕ → Option ℕ → Bool → Bool → Call
  sets_abort_on_collect sets_uncollectable sets_atomic : ℕ → Bool → Call

module _ (H : ObjectHeader) (L : Layout) (R : Regions) where
  abbrev pub call : ℕ → Call → Store H → Outcome × Store H
  call fresh (registers_finalizer addr finalizer allow may_throw) s =
      cgc_register_finalizer H L R fresh addr finalizer allow may_throw s
  call fresh (sets_abort_on_collect addr b) s = cgc_set_abort_on_collect H L R addr b s
  call fresh (sets_uncollectable addr b) s = cgc_set_uncollectable H L R fresh addr b s
  call fresh (sets_atomic addr b) s = cgc_set_atomic H L R addr b s

  -- A call that does not return normally, since it throws an exception, aborts or uses a null pointer,
  -- has changed no object state, no user data and no user bit.
  pub failed_call_keeps :
      (fresh : ℕ) (c : Call) (s : Store H) → (call fresh c s).0 ≢ returns → (call fresh c s).1 ≡ s
  unfolding cgc_register_finalizer cgc_set_abort_on_collect cgc_set_uncollectable cgc_set_atomic
      register_bitmap_finalizer register_state_finalizer set_state_uncollectable fails
  failed_call_keeps fresh (registers_finalizer addr finalizer allow may_throw) s failed =
      ground arith
  failed_call_keeps fresh (sets_abort_on_collect addr b) s failed = ground arith
  failed_call_keeps fresh (sets_uncollectable addr b) s failed = ground arith
  failed_call_keeps fresh (sets_atomic addr b) s failed = ground arith

  bitmap_data_type :
      (addr p : ℕ)
      → bitmap_allocator_user_data L R addr ≡ some p
      → (L.type_id (L.get_state addr) == 2) ≡ true
  unfolding bitmap_allocator_user_data
  bitmap_data_type addr p e = ground arith

  -- With `throws` off, `cgc_register_finalizer` throws only for an entry of the bitmap allocator that has
  -- no state, no index, or not two fields of user bits. Whether or not it is on, the exception for a wrong
  -- type of entry is never thrown.
  pub register_finalizer_failures :
      (fresh addr : ℕ) (finalizer : Option ℕ) (allow may_throw : Bool) (s : Store H) (f : Failure)
      → (cgc_register_finalizer H L R fresh addr finalizer allow may_throw s).0 ≡ throws f
      → (f ≢ wrong_type)
        × ((may_throw ≡ true) ⊎ (f ≡ no_state) ⊎ (f ≡ no_index) ⊎ (f ≡ no_user_bits))
  unfolding cgc_register_finalizer register_bitmap_finalizer register_state_finalizer fails
  register_finalizer_failures fresh addr finalizer allow may_throw s f e =
      elim (Option-cases (bitmap_allocator_user_data L R addr)) [
        | inl n ↦ ground arith
        | inr (p, q) ↦ ground (arith, bitmap_data_type addr p q)
      ]
