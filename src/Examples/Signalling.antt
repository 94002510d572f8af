-- ===== src/Examples/Signalling.antt =====
-- A program registers two handlers for signal 10 and takes them back.
use cgc.Base.{ℕ, ◌≡◌, ◌≢◌, refl, Bool, true, none, some, List, [], ◌∷◌, All}
use cgc.Signals.{
  pos, ignored, default_action, dispatched, overruns, calls, bad_call, stores, disposes, Write,
  Signals, Call, registers, handler_writes, register_signal_handler, call, writes, all_writes,
  deliver,
}
use cgc.Signals.Delivered.{delivery_after, delivery_never_empty, last_call_decides}

abbrev fresh : Signals
fresh = record { handlers = λ n. none; dispositions = λ n. default_action }

abbrev program : List Call
program =
    registers (pos 10) (some 1)
    ∷ registers (pos 10) none
    ∷ registers (pos 40) (some 2)
    ∷ registers (pos 10) (some 3)
    ∷ []

abbrev handled : ℕ → Bool
handled n = true

program_in_range : All (λ c. (call 31 c).0 ≢ overruns) program
unfolding call register_signal_handler handler_writes
program_in_range = (λ e. cc, (λ e. cc, (λ e. cc, (λ e. cc, tt))))

-- The signal comes when the handler has been taken from the system, and not yet from the table.
abbrev first_writes : List Write
first_writes = stores 10 (some 1) ∷ disposes 10 dispatched ∷ disposes 10 ignored ∷ []

delivery_never_empty_example :
    let t = writes handled first_writes fresh in
    deliver (t.handlers 10) (t.dispositions 10) ≢ bad_call
unfolding call register_signal_handler handler_writes
delivery_never_empty_example =
    delivery_never_empty handled 31 program first_writes
      (stores 10 none ∷ stores 10 (some 3) ∷ disposes 10 dispatched ∷ []) fresh 10 (λ m e. cc)
      program_in_range refl

last_call_decides_example :
    let t = writes handled (all_writes 31 program) fresh in
    deliver (t.handlers 10) (t.dispositions 10) ≡ calls 3
unfolding delivery_after deliver
last_call_decides_example = last_call_decides handled 31 program fresh 10 refl program_in_range
