-- ===== src/Kernel/Threads.antt =====
-- One registration, and the end of one.
use cgc.Base.{
  ℕ, ◌≡◌, ◌≢◌, refl, sym, ap, ◌∙◌, inl, inr, false, [], ◌∷◌, ◌++◌, Bool-cases, ◌==◌, ==_refl, ==-ne,
  nat_eq, arith,
}
use cgc.Heap.{update}
use cgc.Thread.{
  ThreadState, new_thread_state, set_top_of_stack, set_thread_allocator,
  set_bitmap_thread_allocator,
}
use cgc.Kernel.{
  returns, terminates, Kernel, u_initialize, add_current_thread, initialize_current_thread,
  set_allocators, finish_registration, cgc_register_thread,
}

-- The thread state that a registration leaves.
abbrev pub registered_state : ℕ → ℕ → ℕ → ℕ → ℕ → ThreadState
registered_state id handle top sparse bitmap = record {
  thread_allocator = sparse;
  bitmap_thread_allocator = bitmap;
  thread_handle = handle;
  thread_id = id;
  top_of_stack = top;
  stack_ptr = 0;
  in_signal_handler = false;
  potential_roots = [];
  root_capacity = 0;
}

-- What a registration changes.
pub record Registers (fresh id handle top sparse bitmap : ℕ) (k k' : Kernel) : Type 0 where
  pub unknown : k.current id ≡ 0
  pub known : k'.current id ≡ fresh
  pub other_threads : (i : ℕ) → i ≢ id → k'.current i ≡ k.current i
  pub appended : k'.threads ≡ k.threads ++ fresh ∷ []
  pub stored : k'.states fresh ≡ registered_state id handle top sparse bitmap
  pub other_states : (p : ℕ) → p ≢ fresh → k'.states p ≡ k.states p

u_initialize-keeps :
    (k : Kernel)
    → ((u_initialize k).current ≡ k.current)
      × ((u_initialize k).threads ≡ k.threads)
      × ((u_initialize k).states ≡ k.states)
unfolding u_initialize
u_initialize-keeps k = elim (Bool-cases k.initialized) [
  | inl done ↦ rw done (refl, refl, refl)
  | inr first ↦ rw first (refl, refl, refl)
]

module _ (fresh id handle top sparse bitmap : ℕ) (k : Kernel) where
  abbrev added : Kernel
  added = add_current_thread fresh id handle top k

  abbrev marked_current : Kernel
  marked_current = record k { current = update k.current id fresh }

  added_current : added.current ≡ update k.current id fresh
  unfolding add_current_thread
  added_current = (u_initialize-keeps marked_current).0

  added_threads : added.threads ≡ k.threads ++ fresh ∷ []
  unfolding add_current_thread
  added_threads = ap (λ l. l ++ fresh ∷ []) (u_initialize-keeps marked_current).1

  added_states :
      added.states ≡ update k.states fresh (set_top_of_stack top (new_thread_state id handle))
  unfolding add_current_thread
  added_states =
      ap
        (λ (m : ℕ → ThreadState).
          update m fresh (set_top_of_stack top (new_thread_state id handle)))
        (u_initialize-keeps marked_current).2

  added_at_id : added.current id ≡ fresh
  added_at_id = ap (λ (m : ℕ → ℕ). m id) added_current ∙ (rw (==_refl id))

  abbrev after : Kernel
  after = set_allocators id sparse bitmap added

  after_there : after.states fresh ≡ registered_state id handle top sparse bitmap
  unfolding set_allocators new_thread_state set_top_of_stack set_thread_allocator
      set_bitmap_thread_allocator
  after_there = rw (added_at_id, added_states, ==_refl fresh) refl

  after_elsewhere : (p : ℕ) → p ≢ fresh → after.states p ≡ k.states p
  unfolding set_allocators
  after_elsewhere p n =
      let m = ==-ne fresh p (λ q. n (sym q)) in rw (added_at_id, added_states, m) refl

  after-Registers : k.current id ≡ 0 → Registers fresh id handle top sparse bitmap k after
  unfolding set_allocators
  after-Registers absent = record {
    unknown = absent;
    known = added_at_id;
    other_threads =
        λ i n. ap (λ (m : ℕ → ℕ). m i) added_current ∙ (rw (==-ne id i (λ q. n (sym q))));
    appended = added_threads;
    stored = after_there;
    other_states = after_elsewhere;
  }

  initialize_absent :
      k.current id ≡ 0 → initialize_current_thread fresh id handle top k ≡ (returns, added)
  unfolding initialize_current_thread
  initialize_absent absent = rw absent refl

  initialize_present :
      k.current id ≢ 0 → initialize_current_thread fresh id handle top k ≡ (terminates, k)
  unfolding initialize_current_thread
  initialize_present n = rw (==-ne (k.current id) 0 n) refl

  pub register_absent :
      k.current id ≡ 0 → cgc_register_thread fresh id handle top sparse bitmap k ≡ (returns, after)
  unfolding cgc_register_thread finish_registration
  register_absent absent = ap (finish_registration id sparse bitmap) (initialize_absent absent)

  pub register_present :
      k.current id ≢ 0 → cgc_register_thread fresh id handle top sparse bitmap k ≡ (terminates, k)
  unfolding cgc_register_thread finish_registration
  register_present n = ap (finish_registration id sparse bitmap) (initialize_present n)

  pub register-Registers :
      (cgc_register_thread fresh id handle top sparse bitmap k).0 ≡ returns
      → Registers fresh id handle top sparse bitmap k
          (cgc_register_thread fresh id handle top sparse bitmap k).1
  register-Registers e = elim (Bool-cases (k.current id == 0)) [
    | inl absent ↦
        let a : k.current id ≡ 0 = ground (arith, absent) in
        rw (register_absent a) (after-Registers a)
    | inr present ↦
        let n : k.current id ≢ 0 = ground (arith, present) in
        absurd (let h = (rw (register_present n) at e) in cc)
  ]
