-- ===== src/Kernel/Registered.antt =====
-- The threads that the kernel knows, over any sequence of registrations and their ends.
use mathlib.Core.List.Memᴰ
use cgc.Base.{
  ℕ, ◌≡◌, ◌≢◌, refl, sym, ap, ◌∙◌, subst, inl, inr, some, List, [], ◌∷◌, ◌++◌, map, Memᴰ,
  Bool-cases, ◌==◌, ==_refl, ==_iff, ==-ne, contains, erase, contains_iff, Memᴰ-erase, nat_eq,
  arith,
}
use cgc.Thread.{ThreadState}
use cgc.Thread.Gather.{tlks}
use cgc.Kernel.{Ended, returns, terminates, Kernel, cgc_register_thread, destroy_current_thread}
use cgc.Kernel.Threads.{Registers, register-Registers, register_present, register_absent}

-- A thread is registered with a new state, at an address at which no known state lies, or ends its
-- registration; both calls return.
pub data Change (k : Kernel) : Kernel → Type 0 where
  registers :
      (fresh id handle top sparse bitmap : ℕ)
      → fresh ≢ 0
      → ¬ Memᴰ fresh k.threads
      → (cgc_register_thread fresh id handle top sparse bitmap k).0 ≡ returns
      → Change k (cgc_register_thread fresh id handle top sparse bitmap k).1
  unregisters :
      (id : ℕ)
      → (destroy_current_thread id k).0 ≡ returns
      → Change k (destroy_current_thread id k).1

pub data Known : Kernel → Type 0 where
  empty : (k : Kernel) → k.threads ≡ [] → Known k
  changes : (k k' : Kernel) → Known k → Change k k' → Known k'

-- Every known state is that of the thread whose id it has.
abbrev pub OwnsStates : Kernel → Type 0
OwnsStates k = (p : ℕ) → Memᴰ p k.threads → (p ≢ 0) × (k.current (k.states p).thread_id ≡ p)

destroy_known :
    (id : ℕ) (k : Kernel)
    → (destroy_current_thread id k).0 ≡ returns
    → Memᴰ (k.current id) k.threads
      × (destroy_current_thread id k
          ≡ (returns, record k { threads = erase (k.current id) k.threads }))
unfolding destroy_current_thread
destroy_known id k e = elim (Bool-cases (contains (k.current id) k.threads)) [
  | inl there ↦ ((contains_iff (k.current id) k.threads).0 there, rw there refl)
  | inr gone ↦ elim (Bool-cases (k.current id == 0)) [
    | inl null ↦ absurd (let h = (rw (gone, null) at e) in cc)
    | inr dangling ↦ absurd (let h = (rw (gone, dangling) at e) in cc)
  ]
]

destroyed-OwnsStates :
    (id : ℕ) (k : Kernel)
    → (destroy_current_thread id k).0 ≡ returns
    → OwnsStates k
    → OwnsStates (destroy_current_thread id k).1
destroyed-OwnsStates id k e o =
    subst (λ (r : Ended × Kernel). OwnsStates r.1) (sym (destroy_known id k e).1)
      (λ p i. o p (Memᴰ-erase p (k.current id) k.threads i))

registered-OwnsStates :
    (fresh id handle top sparse bitmap : ℕ) (k k' : Kernel)
    → fresh ≢ 0
    → ¬ Memᴰ fresh k.threads
    → Registers fresh id handle top sparse bitmap k k'
    → OwnsStates k
    → OwnsStates k'
registered-OwnsStates fresh id handle top sparse bitmap k k' present new r o p i =
    elim (Memᴰ.append_cases k.threads (subst (Memᴰ p) r.appended i)) [
      | inl old ↦
          let n : p ≢ fresh = λ e. new (subst (λ q. Memᴰ q k.threads) e old) in
          let (nonzero, own) = o p old in
          let s = r.other_states p n in
          let differs : (k.states p).thread_id ≢ id =
            λ e. nonzero (sym own ∙ ap k.current e ∙ r.unknown) in
          (
            nonzero,
            ap (λ (t : ThreadState). k'.current t.thread_id) s
                ∙ r.other_threads (k.states p).thread_id differs
                ∙ own,
          )
      | inr last ↦
          let e : p ≡ fresh = Memᴰ.eq_of_singleton last in
          (
            λ z. present (sym e ∙ z),
            ap (λ q. k'.current (k'.states q).thread_id) e
                ∙ ap (λ (t : ThreadState). k'.current t.thread_id) r.stored
                ∙ r.known
                ∙ sym e,
          )
    ]

Known-OwnsStates : (k : Kernel) → Known k → OwnsStates k
Known-OwnsStates k (empty _ e) = λ p i. absurd (Memᴰ.not-nil (subst (Memᴰ p) e i))
Known-OwnsStates k (changes j _ known (registers fresh id handle top sparse bitmap present new e)) =
    registered-OwnsStates fresh id handle top sparse bitmap j _ present new
      (register-Registers fresh id handle top sparse bitmap j e) (Known-OwnsStates j known)
Known-OwnsStates k (changes j _ known (unregisters id e)) =
    destroyed-OwnsStates id j e (Known-OwnsStates j known)

tlks-lem :
    (k : Kernel) (id p : ℕ) (ps : List ℕ)
    → ((q : ℕ) → Memᴰ q ps → k.current (k.states q).thread_id ≡ q)
    → Memᴰ p ps
    → id ≡ (k.states p).thread_id
    → tlks id (map k.states ps) ≡ some (k.states p)
unfolding tlks
tlks-lem k id p [] o i e = absurd (Memᴰ.not-nil i)
tlks-lem k id p (q ∷ qs) o i e = elim (Bool-cases ((k.states q).thread_id == id)) [
  | inl hit ↦
      let h : (k.states q).thread_id ≡ id = (==_iff (k.states q).thread_id id).0 hit in
      let same : q ≡ p = sym (o q (Memᴰ.head refl)) ∙ ap k.current (h ∙ e) ∙ o p i in
      rw hit (ap (λ r. some (k.states r)) same)
  | inr miss ↦ elim (Memᴰ.cases_cons i) [
    | inl here ↦ absurd (
        let m = ==_refl id in
        let w = ap (λ r. (k.states r).thread_id) here in ground (arith, w, e, miss))
    | inr there ↦ rw miss (tlks-lem k id p qs (λ r j. o r (Memᴰ.tail j)) there e)
  ]
]

-- After any sequence of registrations and their ends, for every state that the kernel knows: it is the
-- current state of the thread whose id it has, and it is the one that a collector thread finds for this id.
pub known_threads_found :
    (k : Kernel)
    → Known k
    → (p : ℕ) → Memᴰ p k.threads
    → (k.current (k.states p).thread_id ≡ p)
      × (tlks (k.states p).thread_id (map k.states k.threads) ≡ some (k.states p))
known_threads_found k known p i =
    let o = Known-OwnsStates k known in
    ((o p i).1, tlks-lem k (k.states p).thread_id p k.threads (λ q j. (o q j).1) i refl)

-- After any sequence of registrations and their ends, if a thread ends its registration and the call returns, a new registration of
-- the same thread terminates the program.
pub register_again_terminates :
    (k : Kernel)
    → Known k
    → (id : ℕ) → (destroy_current_thread id k).0 ≡ returns
    → (fresh handle top sparse bitmap : ℕ)
    → (cgc_register_thread fresh id handle top sparse bitmap (destroy_current_thread id k).1).0
      ≡ terminates
register_again_terminates k known id e fresh handle top sparse bitmap =
    let (i, q) = destroy_known id k e in
    let n = (Known-OwnsStates k known (k.current id) i).0 in
    ap (λ (r : Ended × Kernel). (cgc_register_thread fresh id handle top sparse bitmap r.1).0) q
    ∙ ap (λ (r : Ended × Kernel). r.0)
        (register_present fresh id handle top sparse bitmap
          (record k { threads = erase (k.current id) k.threads }) n)

erase_last : (p : ℕ) (ps : List ℕ) → ¬ Memᴰ p ps → erase p (ps ++ p ∷ []) ≡ ps
unfolding erase
erase_last p [] n = rw (==_refl p) refl
erase_last p (q ∷ qs) n =
    let d : q ≢ p = λ e. n (Memᴰ.head (sym e)) in
    rw (==-ne q p d) (ap (◌∷◌ q) (erase_last p qs (λ i. n (Memᴰ.tail i))))

-- A thread that has no state yet is registered with a new one at an address at which no known state lies:
-- the call returns, and the end of this registration returns too and leaves the kernel with the threads
-- that it knew before.
destroy-register :
    (k : Kernel) (fresh id handle top sparse bitmap : ℕ)
    → k.current id ≡ 0
    → ¬ Memᴰ fresh k.threads
    → let r = cgc_register_thread fresh id handle top sparse bitmap k in
      (r.0 ≡ returns)
      × ((destroy_current_thread id r.1).0 ≡ returns)
      × ((destroy_current_thread id r.1).1.threads ≡ k.threads)
unfolding destroy_current_thread
destroy-register k fresh id handle top sparse bitmap absent new =
    let k' = (cgc_register_thread fresh id handle top sparse bitmap k).1 in
    let ok =
      ap (λ (r : Ended × Kernel). r.0)
        (register_absent fresh id handle top sparse bitmap k absent) in
    let r = register-Registers fresh id handle top sparse bitmap k ok in
    let i : Memᴰ fresh (k.threads ++ fresh ∷ []) = Memᴰ.append_right k.threads (Memᴰ.head refl) in
    let c = (contains_iff fresh (k.threads ++ fresh ∷ [])).1 i in
    let (back, threads) : ((destroy_current_thread id k').0 ≡ returns)
        × ((destroy_current_thread id k').1.threads ≡ k.threads) =
      rw (r.known, r.appended, c, destroy_current_thread) (refl, erase_last fresh k.threads new) in
    (ok, back, threads)
