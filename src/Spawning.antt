-- ===== src/Spawning.antt =====
-- The thread wrapper of cgc1/include/cgc1/allocated_thread.hpp and allocated_thread_timpl.hpp, its part
-- for pthread. The allocator and pthread are parameters: the block that is answered, or none, and the
-- error codes. The block holds the function of the thread, and is handed from the constructor to the
-- thread, so that a call of either is a step. An exception that leaves the function ends the program and
-- is no step.
pub mod Owned
pub mod Runs
use cgc.Base.{ℕ, ◌≡◌, Bool, true, false, not, ◌||◌, List, [], ◌∷◌, if◌then◌else◌, ◌==◌}
use cgc.Heap.{update}

-- Where a call of the constructor is, with the thread that it starts, and the block that they hold.
pub data Progress : Type 0 where
  idle over failed : Progress
  -- `details` is released; `pthread_create` has made the thread; `_run` has been called.
  released created running : ℕ → Progress

-- The blocks that live, the calls by number, and whether a block was used or given back that did not live.
pub record Spawns : Type 0 where
  pub blocks : ℕ → Bool
  pub stage : ℕ → Progress
  pub misused : Bool

-- `make_unique_allocator` answers the block `d`, and the pointer is released from its owner.
unfoldable pub make_details : ℕ → ℕ → Spawns → Spawns
make_details n d w = record {
  blocks = update w.blocks d true;
  stage = update w.stage n (released d);
  misused = w.misused;
}

-- The owner of a block runs the destructor and gives the block back.
unfoldable pub destroy : ℕ → Spawns → Spawns
destroy d w = record {
  blocks = update w.blocks d false;
  stage = w.stage;
  misused = w.misused || not (w.blocks d);
}

unfoldable pub go_to : ℕ → Progress → Spawns → Spawns
go_to n s w = record w { stage = update w.stage n s }

-- `_start`, where `pthread_create` answers `ec`, and the handler of the constructor behind it.
unfoldable pub start : ℕ → ℕ → ℕ → Spawns → Spawns
start n d ec w = if ec == 0 then go_to n (created d) w else go_to n failed (destroy d w)

-- `_s_run` to the call of the function, for which the block is read.
unfoldable pub call_run : ℕ → ℕ → Spawns → Spawns
call_run n d w = go_to n (running d) (record w { misused = w.misused || not (w.blocks d) })

-- `_s_run` behind the call.
unfoldable pub end_run : ℕ → ℕ → Spawns → Spawns
end_run n d w = go_to n over (destroy d w)

-- The allocator answers a block that does not live, or throws.
pub data Step : Spawns → Spawns → Type 0 where
  makes :
      {w : Spawns} (n d : ℕ) → w.stage n ≡ idle → w.blocks d ≡ false → Step w (make_details n d w)
  no_memory : {w : Spawns} (n : ℕ) → w.stage n ≡ idle → Step w (go_to n failed w)
  starts : {w : Spawns} (n d ec : ℕ) → w.stage n ≡ released d → Step w (start n d ec w)
  calls : {w : Spawns} (n d : ℕ) → w.stage n ≡ created d → Step w (call_run n d w)
  ends : {w : Spawns} (n d : ℕ) → w.stage n ≡ running d → Step w (end_run n d w)

pub data Steps : Spawns → Spawns → Type 0 where
  done : {w : Spawns} → Steps w w
  then_step : {u v w : Spawns} → Steps u v → Step v w → Steps u w

-- An `allocated_thread_t`; 0 is the handle of none.
pub record Handle : Type 0 where
  pub m_native_handle : ℕ

pub data Finish : Type 0 where
  returns throws : Finish

unfoldable pub joinable : Handle → Bool
joinable t = not (t.m_native_handle == 0)

-- `join` and `detach`, where pthread answers `ec`.
unfoldable pub join : ℕ → Handle → Finish × Handle
join ec t = if ec == 0 then (returns, t) else (throws, t)

unfoldable pub detach : ℕ → Handle → Finish × Handle
detach ec t = if ec == 0 then (returns, t) else (throws, t)

-- `target = std::move(source)`, which is defaulted: the target, and what is left of the source.
unfoldable pub move : Handle → Handle → Handle × Handle
move target source = (record { m_native_handle = source.m_native_handle }, source)
