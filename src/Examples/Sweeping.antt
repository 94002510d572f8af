-- ===== src/Examples/Sweeping.antt =====
-- The sweep and the finalization passes over the three object states of a block. The state at 128 has a
-- finalizer that any thread may run, the one at 160 a finalizer bound to a thread.
use cgc.Base.{
  ℕ, ◌≡◌, refl, Bool, true, false, some, if◌then◌else◌, ◌==◌, List, [], ◌∷◌, Memᴰ, Distinct,
  contains, nat_eq, not-contains,
}
use cgc.Word.Flags.{is_marked}
use cgc.Heap.Sample.{header, layout, HeaderState}
use cgc.Sweep.{
  UserData, sweep, sweep_blocks, sweep_block, sweep_state, sweep_garbage, finalize,
  do_local_sparse_finalization,
}
use cgc.Sweep.Clear.{all_states}
use cgc.Sweep.Trace.{calls, destroyed}
use cgc.Sweep.Passes.{special_destroyed_twice}

abbrev state : ℕ → ℕ → HeaderState
state n p = record { used = true; quasi = false; flags = n; ud = p }

abbrev pub states : ℕ → HeaderState
states os = if os == 96 then state 1 0 else if os == 128 then state 0 8 else state 0 16

abbrev own : Bool → ℕ → UserData
own any f = record {
  is_default = false;
  uncollectable = false;
  allow_arbitrary_finalizer_thread = any;
  finalizer = some f;
}

abbrev pub user_data : ℕ → UserData
user_data p = if p == 8 then own true 7 else own false 9

abbrev blocks : List (List ℕ)
blocks = (96 ∷ 128 ∷ []) ∷ (160 ∷ []) ∷ []

blocks-Distinct : Distinct (all_states blocks)
unfolding contains
blocks-Distinct = (
  not-contains 96 (128 ∷ 160 ∷ []) refl,
  (not-contains 128 (160 ∷ []) refl, (not-contains 160 [] refl, tt)),
)

-- The two unmarked objects are queued.
sweep_run : (sweep header user_data blocks states []).to_be_freed ≡ 128 ∷ 160 ∷ []
unfolding sweep sweep_blocks sweep_block sweep_state sweep_garbage is_marked
sweep_run = refl

abbrev queue : List ℕ
queue = 128 ∷ 160 ∷ []

special_destroyed_twice_example :
    let first = finalize header layout states user_data queue in
    let second =
      do_local_sparse_finalization header layout states user_data first.special_finalization in
    Memᴰ 160 (destroyed first.events)
    × Memᴰ (9, 176) (calls second.events)
    × Memᴰ 160 (destroyed second.events)
special_destroyed_twice_example =
    special_destroyed_twice header layout states user_data 160 9 queue (Memᴰ.tail (Memᴰ.head refl))
      refl refl
