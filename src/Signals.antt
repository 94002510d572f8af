-- ===== src/Signals.antt =====
-- cgc1/src/posix.cpp, the table of signal handlers. A call is the list of its writes in their order, so
-- that a signal can be delivered between any two of them; the calls themselves follow each other. The
-- size of the table, `SIGUNUSED`, and which signals the system lets a program handle are parameters; for
-- the others `signal` fails, which the code does not test.
pub mod Delivered
use cgc.Base.{ℕ, Bool, true, false, Option, none, some, List, [], ◌∷◌, ◌++◌, if◌then◌else◌, leb}
use cgc.Heap.{update}

-- An `int`.
pub data ℤ : Type 0 where
  pos negsuc : ℕ → ℤ

-- What the system does on a signal: `SIG_DFL`, `SIG_IGN`, or a call of the lambda that looks the handler up
-- in the table.
pub data Disposition : Type 0 where
  default_action ignored dispatched : Disposition

pub data Ended : Type 0 where
  returns : Bool → Ended
  aborts overruns : Ended

-- What a delivered signal leads to; a handler is a number, and `bad_call` is the call of an empty function.
pub data Delivery : Type 0 where
  takes_default is_ignored bad_call : Delivery
  calls : ℕ → Delivery

-- A write: to the table, or a call of `signal`.
pub data Write : Type 0 where
  stores : ℕ → Option ℕ → Write
  disposes : ℕ → Disposition → Write

pub record Signals : Type 0 where
  pub handlers : ℕ → Option ℕ
  pub dispositions : ℕ → Disposition

pub data Call : Type 0 where
  registers : ℤ → Option ℕ → Call
  sets_default : ℤ → Call

-- A handler is empty if it is `none`.
unfoldable pub handler_writes : ℕ → Option ℕ → List Write
handler_writes n (some h) = stores n (some h) ∷ disposes n dispatched ∷ []
handler_writes n none = disposes n ignored ∷ stores n none ∷ []

module _ (sig_unused : ℕ) where
  unfoldable pub register_signal_handler : ℤ → Option ℕ → Ended × List Write
  register_signal_handler (negsuc n) handler = (aborts, [])
  register_signal_handler (pos n) handler =
      if leb sig_unused n then (returns false, []) else (returns true, handler_writes n handler)

  -- The function answers nothing; where the table ends before the signal, the write goes beyond it.
  unfoldable pub set_default_signal_handler : ℤ → Ended × List Write
  set_default_signal_handler (negsuc n) = (aborts, [])
  set_default_signal_handler (pos n) =
      if leb sig_unused n
      then (overruns, disposes n default_action ∷ [])
      else (returns true, disposes n default_action ∷ stores n none ∷ [])

  unfoldable pub call : Call → Ended × List Write
  call (registers signum handler) = register_signal_handler signum handler
  call (sets_default signum) = set_default_signal_handler signum

  -- All writes of a sequence of calls, in their order.
  abbrev pub all_writes : List Call → List Write
  all_writes [] = []
  all_writes (c ∷ cs) = (call c).1 ++ all_writes cs

module _ (accepts : ℕ → Bool) where
  unfoldable pub write : Write → Signals → Signals
  write (stores n handler) s = record s { handlers = update s.handlers n handler }
  write (disposes n d) s =
      if accepts n then record s { dispositions = update s.dispositions n d } else s

  abbrev pub writes : List Write → Signals → Signals
  writes [] s = s
  writes (x ∷ xs) s = writes xs (write x s)

-- The signal `n` is delivered.
unfoldable pub deliver : Option ℕ → Disposition → Delivery
deliver handler default_action = takes_default
deliver handler ignored = is_ignored
deliver none dispatched = bad_call
deliver (some h) dispatched = calls h
