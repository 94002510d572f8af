-- ===== src/Examples/Ending.antt =====
-- A kernel with two collector threads and objects put aside comes to its end.
use cgc.Base.{◌≡◌, refl, true, false, none, some, [], ◌∷◌, contains}
use cgc.Thread.{new_thread_state}
use cgc.Kernel.{new_kernel}
use cgc.Lifetime.{Owner, shutdown, destructor}
use cgc.Lifetime.Monitor.{Fresh, allow_all}
use cgc.Lifetime.Ordered.{all_up, all_ended, destructor-ends}

abbrev owner : Owner
owner = record {
  kernel = new_kernel (λ p. new_thread_state 0 0);
  gc_threads = record { id = 1; run = true } ∷ record { id = 2; run = true } ∷ [];
  special_memory = true;
  in_destructor = false;
  events = [];
}

two_threads : Fresh owner.gc_threads [] []
unfolding contains
two_threads = (refl, refl, refl, refl, (refl, refl, refl, refl, tt))

destructor-ends_example :
    (allow_all (destructor (shutdown owner)).events all_up ≡ some (all_ended owner.gc_threads))
    × (allow_all (destructor owner).events all_up ≡ none)
destructor-ends_example = destructor-ends owner two_threads refl
