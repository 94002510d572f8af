-- ===== src/Examples/Looking.antt =====
-- The public interface looks up addresses in the sample heap.
use cgc.Base.{ℕ, suc, ◌≡◌, ◌≢◌, refl, true, false, some, arith}
use cgc.Heap.Sample.{header, layout, HeaderState}
use cgc.Mark.{is_valid_object_state, find_valid_object_state}
use cgc.Mark.Reach.{packed, sparse, packed_at, live, sparse_at, resolve}
use cgc.Api.{Regions, RegionLaws, cgc_start, cgc_size, cgc_is_cgc, sparse_start}
use cgc.Api.Start.{cgc_start-resolve}

abbrev pub regions : Regions
regions = record {
  slab_begin = 96;
  slab_end = 160;
  state_begin = λ s. 1064;
  declared_entry_size = λ s. 28;
  num_user_bit_fields = λ s. 2;
  user_data_size = 16;
}

regions_laws : RegionLaws layout regions
regions_laws = record { entry_at = λ s a. refl; state_of_start = λ os. omega arith }

abbrev used_states : ℕ → HeaderState
used_states os = record { used = true; quasi = false; flags = 0; ud = 0 }

-- The address lies behind the start of the entry.
entry_found : resolve header layout used_states 1070 ≡ some (packed 1000 0)
unfolding resolve packed_at
entry_found = refl

object_found : resolve header layout used_states 112 ≡ some (sparse 96)
unfolding resolve packed_at sparse_at live is_valid_object_state find_valid_object_state
object_found = refl

not_null : (n : ℕ) → suc n ≢ 0
not_null n e = cc

state_not_null : sparse 96 ≢ sparse 0
state_not_null e = cc

cgc_start-resolve_example : cgc_start header layout regions used_states 1070 ≡ some 1064
cgc_start-resolve_example =
    cgc_start-resolve header layout regions used_states regions_laws 1070 (packed 1000 0)
      (not_null 1069) entry_found (λ h. cc)

-- What the collector does not own has no size.
foreign_address : cgc_is_cgc header layout regions used_states 5 ≡ false
unfolding cgc_is_cgc cgc_size cgc_start sparse_start
foreign_address = refl
