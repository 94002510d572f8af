-- ===== src/Examples/Knowing.antt =====
-- A kernel that knows one thread, 7, with its state at 64.
use cgc.Base.{◌≡◌, refl, false, some, [], map, Memᴰ, contains, nat_eq}
use mathlib.Core.List.Memᴰ
use cgc.Thread.{new_thread_state}
use cgc.Thread.Gather.{tlks}
use cgc.Kernel.{
  returns, Kernel, u_initialize, add_current_thread, initialize_current_thread, set_allocators,
  finish_registration, cgc_register_thread, destroy_current_thread,
}
use cgc.Kernel.Registered.{Known, empty, changes, registers, known_threads_found}

abbrev no_threads : Kernel
no_threads = record {
  enabled_count = 1;
  initialize_called = false;
  initialized = false;
  types = [];
  gc_threads = 0;
  threads = [];
  states = λ p. new_thread_state 0 0;
  current = λ id. 0;
}

abbrev one_known : Kernel
one_known = (cgc_register_thread 64 7 3 4096 11 12 no_threads).1

registration_returns : (cgc_register_thread 64 7 3 4096 11 12 no_threads).0 ≡ returns
unfolding cgc_register_thread finish_registration initialize_current_thread
registration_returns = refl

one_known-Known : Known one_known
one_known-Known =
    changes no_threads _ (empty no_threads refl)
      (registers 64 7 3 4096 11 12 (λ e. cc) Memᴰ.not-nil registration_returns)

is_known : Memᴰ 64 one_known.threads
unfolding cgc_register_thread finish_registration initialize_current_thread add_current_thread
    u_initialize set_allocators
is_known = Memᴰ.head refl

known_threads_found_example :
    (one_known.current (one_known.states 64).thread_id ≡ 64)
    × (tlks (one_known.states 64).thread_id (map one_known.states one_known.threads)
        ≡ some (one_known.states 64))
known_threads_found_example = known_threads_found one_known one_known-Known 64 is_known

end_returns : (destroy_current_thread 7 one_known).0 ≡ returns
unfolding cgc_register_thread finish_registration initialize_current_thread add_current_thread
    u_initialize set_allocators destroy_current_thread contains
end_returns = refl
