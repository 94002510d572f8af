-- ===== src/Signals/Delivered.antt =====
-- What a delivered signal leads to, between any two writes of the calls and after them.
use cgc.Base.{
  ℕ, ◌≡◌, ◌≢◌, refl, ap, ◌∙◌, subst, Bool, true, Option, none, some, List, [], ◌∷◌, ◌++◌, All,
  if◌then◌else◌, leb, ◌==◌, ==_iff, Bool-cases, inl, inr, arith,
}
use cgc.Signals.{
  pos, negsuc, Disposition, default_action, ignored, dispatched, overruns, Delivery, takes_default,
  is_ignored, bad_call, calls, Write, stores, disposes, Signals, Call, registers, sets_default,
  handler_writes, register_signal_handler, set_default_signal_handler, call, write, writes,
  all_writes, deliver,
}

-- The answer to the last call about the signal `n`, where `d` is what there was before.
unfoldable pub delivery_after : ℕ → ℕ → Call → Delivery → Delivery
delivery_after sig_unused n (registers (pos m) (some h)) d =
    if leb sig_unused m then d else if m == n then calls h else d
delivery_after sig_unused n (registers (pos m) none) d =
    if leb sig_unused m then d else if m == n then is_ignored else d
delivery_after sig_unused n (sets_default (pos m)) d = if m == n then takes_default else d
delivery_after sig_unused n c d = d

abbrev pub last_delivery : ℕ → ℕ → List Call → Delivery → Delivery
last_delivery sig_unused n [] d = d
last_delivery sig_unused n (c ∷ cs) d =
    last_delivery sig_unused n cs (delivery_after sig_unused n c d)

bad_delivery :
    (handler : Option ℕ) (d : Disposition)
    → deliver handler d ≡ bad_call
    → (d ≡ dispatched) × (handler ≡ none)
unfolding deliver
bad_delivery none dispatched e = (refl, refl)
bad_delivery (some h) dispatched e = cc
bad_delivery handler default_action e = cc
bad_delivery handler ignored e = cc

module _ (accepts : ℕ → Bool) where
  writes-append :
      (xs ys : List Write) (s : Signals)
      → writes accepts (xs ++ ys) s ≡ writes accepts ys (writes accepts xs s)
  writes-append [] ys s = refl
  writes-append (x ∷ xs) ys s = writes-append xs ys (write accepts x s)

  -- Where the lambda is called, the table has a handler.
  abbrev Safe : Signals → Type 0
  Safe s = (n : ℕ) → s.dispositions n ≡ dispatched → (accepts n ≡ true) × (s.handlers n ≢ none)

  -- So it is at every point of a list of writes.
  abbrev AllSafe : List Write → Signals → Type 0
  AllSafe [] s = Safe s
  AllSafe (x ∷ xs) s = Safe s × AllSafe xs (write accepts x s)

  AllSafe-now : (xs : List Write) (s : Signals) → AllSafe xs s → Safe s
  AllSafe-now [] s k = k
  AllSafe-now (x ∷ xs) s k = k.0

  AllSafe-end : (xs : List Write) (s : Signals) → AllSafe xs s → Safe (writes accepts xs s)
  AllSafe-end [] s k = k
  AllSafe-end (x ∷ xs) s k = AllSafe-end xs (write accepts x s) k.1

  AllSafe-append :
      (xs ys : List Write) (s : Signals)
      → AllSafe xs s
      → AllSafe ys (writes accepts xs s)
      → AllSafe (xs ++ ys) s
  AllSafe-append [] ys s k l = l
  AllSafe-append (x ∷ xs) ys s k l = (k.0, AllSafe-append xs ys (write accepts x s) k.1 l)

  AllSafe-prefix :
      (xs ys : List Write) (s : Signals) → AllSafe (xs ++ ys) s → Safe (writes accepts xs s)
  AllSafe-prefix [] ys s k = AllSafe-now ys s k
  AllSafe-prefix (x ∷ xs) ys s k = AllSafe-prefix xs ys (write accepts x s) k.1

  stores-Safe : (n h : ℕ) (s : Signals) → Safe s → Safe (write accepts (stores n (some h)) s)
  unfolding write
  stores-Safe n h s k m e = ground (arith, k m e)

  dispatch-Safe :
      (n : ℕ) (s : Signals)
      → s.handlers n ≢ none
      → Safe s
      → Safe (write accepts (disposes n dispatched) s)
  unfolding write
  dispatch-Safe n s f k m e = ground (arith, k m, ==_iff n m)

  dispose-Safe :
      (n : ℕ) (d : Disposition) (s : Signals)
      → d ≢ dispatched
      → Safe s
      → Safe (write accepts (disposes n d) s)
  unfolding write
  dispose-Safe n d s f k m e = ground (arith, k m)

  dispose-quiet :
      (n : ℕ) (d : Disposition) (s : Signals)
      → d ≢ dispatched
      → Safe s
      → (write accepts (disposes n d) s).dispositions n ≢ dispatched
  unfolding write
  dispose-quiet n d s f k e = ground (arith, k n)

  clear-Safe :
      (n : ℕ) (s : Signals)
      → s.dispositions n ≢ dispatched
      → Safe s
      → Safe (write accepts (stores n none) s)
  unfolding write
  clear-Safe n s f k m e = ground (arith, k m, ==_iff n m)

  quiet_writes :
      (n : ℕ) (d : Disposition) (s : Signals)
      → d ≢ dispatched
      → Safe s
      → AllSafe (disposes n d ∷ stores n none ∷ []) s
  quiet_writes n d s f k = (
    k,
    (
      dispose-Safe n d s f k,
      clear-Safe n (write accepts (disposes n d) s) (dispose-quiet n d s f k)
          (dispose-Safe n d s f k),
    ),
  )

  handler_writes-AllSafe :
      (n : ℕ) (handler : Option ℕ) (s : Signals) → Safe s → AllSafe (handler_writes n handler) s
  unfolding handler_writes write
  handler_writes-AllSafe n none s k = quiet_writes n ignored s (λ e. cc) k
  handler_writes-AllSafe n (some h) s k =
      let stored = stores-Safe n h s k in
      (
        k,
        (
          stored,
          dispatch-Safe n (write accepts (stores n (some h)) s) (λ e. ground (arith, e)) stored,
        ),
      )

  module _ (sig_unused : ℕ) where
    call-AllSafe :
        (c : Call) (s : Signals)
        → (call sig_unused c).0 ≢ overruns
        → Safe s
        → AllSafe (call sig_unused c).1 s
    unfolding call register_signal_handler set_default_signal_handler
    call-AllSafe (registers (negsuc n) handler) s f k = k
    call-AllSafe (registers (pos n) handler) s f k = elim (Bool-cases (leb sig_unused n)) [
      | inl out ↦ rw out k
      | inr fits ↦ rw fits (handler_writes-AllSafe n handler s k)
    ]
    call-AllSafe (sets_default (negsuc n)) s f k = k
    call-AllSafe (sets_default (pos n)) s f k = elim (Bool-cases (leb sig_unused n)) [
      | inl out ↦ absurd (f (rw out refl))
      | inr fits ↦ rw fits (quiet_writes n default_action s (λ e. cc) k)
    ]

    all_writes-AllSafe :
        (cs : List Call) (s : Signals)
        → All (λ c. (call sig_unused c).0 ≢ overruns) cs
        → Safe s
        → AllSafe (all_writes sig_unused cs) s
    all_writes-AllSafe [] s f k = k
    all_writes-AllSafe (c ∷ cs) s f k =
        let now = call-AllSafe c s f.0 k in
        AllSafe-append (call sig_unused c).1 (all_writes sig_unused cs) s now (
          all_writes-AllSafe cs (writes accepts (call sig_unused c).1 s) f.1
            (AllSafe-end (call sig_unused c).1 s now))

    -- If no signal calls into the table at first, and no call of a sequence writes beyond the table:
    -- whichever signal is delivered between any two writes of the calls, or after them, no empty
    -- function is called.
    pub delivery_never_empty :
        (cs : List Call) (xs ys : List Write) (s : Signals) (n : ℕ)
        → ((m : ℕ) → s.dispositions m ≢ dispatched)
        → All (λ c. (call sig_unused c).0 ≢ overruns) cs
        → all_writes sig_unused cs ≡ xs ++ ys
        → let t = writes accepts xs s in deliver (t.handlers n) (t.dispositions n) ≢ bad_call
    delivery_never_empty cs xs ys s n quiet f e bad =
        let k = all_writes-AllSafe cs s f (λ m d. absurd (quiet m d)) in
        let t = writes accepts xs s in
        let (there, empty) = bad_delivery (t.handlers n) (t.dispositions n) bad in
        (AllSafe-prefix xs ys s (subst (λ l. AllSafe l s) e k) n there).1 empty

    call-delivers :
        (c : Call) (s : Signals) (n : ℕ)
        → accepts n ≡ true
        → (call sig_unused c).0 ≢ overruns
        → let t = writes accepts (call sig_unused c).1 s in
          deliver (t.handlers n) (t.dispositions n)
          ≡ delivery_after sig_unused n c (deliver (s.handlers n) (s.dispositions n))
    unfolding call register_signal_handler set_default_signal_handler handler_writes write deliver
        delivery_after
    call-delivers (registers (negsuc m) handler) s n a f = refl
    call-delivers (registers (pos m) none) s n a f = ground (arith, ==_iff m n)
    call-delivers (registers (pos m) (some h)) s n a f = ground (arith, ==_iff m n)
    call-delivers (sets_default (negsuc m)) s n a f = refl
    call-delivers (sets_default (pos m)) s n a f = ground (arith, ==_iff m n)

    -- For a signal that the system lets a program handle, and any calls none of which writes beyond the
    -- table: what the signal leads to after them is decided by the last call about it that is in the
    -- bounds of the table, a call of the handler registered, being ignored, or the default; and is what
    -- it was before if there is no such call.
    pub last_call_decides :
        (cs : List Call) (s : Signals) (n : ℕ)
        → accepts n ≡ true
        → All (λ c. (call sig_unused c).0 ≢ overruns) cs
        → let t = writes accepts (all_writes sig_unused cs) s in
          deliver (t.handlers n) (t.dispositions n)
          ≡ last_delivery sig_unused n cs (deliver (s.handlers n) (s.dispositions n))
    last_call_decides [] s n a f = refl
    last_call_decides (c ∷ cs) s n a f =
        rw (writes-append (call sig_unused c).1 (all_writes sig_unused cs) s) (
          last_call_decides cs (writes accepts (call sig_unused c).1 s) n a f.1
          ∙ ap (last_delivery sig_unused n cs) (call-delivers c s n a f.0))
