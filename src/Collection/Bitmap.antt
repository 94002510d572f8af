-- ===== src/Collection/Bitmap.antt =====
-- The mark phase and the finalization of a bitmap state, which `force_collect` runs beside the sweep
-- (cgc1/src/global_kernel_state.cpp): which entries are finalized.
use cgc.Base.{ℕ, ◌≡◌, Bool, ◌&&◌, not}
use cgc.BitmapFinal.{Pass}

-- What mcppalloc promises of the passes over the state `s`, given its mark bits: an entry is to be freed
-- if it is allocated and not marked.
pub record PassLaws (s : ℕ) (allocated : ℕ → Bool) (pass : (ℕ → Bool) → Pass) : Type 0 where
  pub state_is : (bits : ℕ → Bool) → (pass bits).state ≡ s
  pub freed_is :
      (bits : ℕ → Bool) (i : ℕ) → (pass bits).to_be_freed i ≡ (allocated i && not (bits i))
