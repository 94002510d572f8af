-- ===== src/Allocators.antt =====
-- The allocator adapters for containers: cgc1/include/cgc1/cgc_internal_malloc_allocator.hpp,
-- cgc1/src/internal_allocator.hpp and cgc1/include/cgc1/gc_allocator.hpp, with their deleters and the
-- functions that make an object in memory of theirs. `malloc`, the allocators behind them and the
-- object's own constructor are parameters: the address that is answered, and whether the constructor
-- throws. What a call does is a list of events.
pub mod Requests
use cgc.Base.{
  ℕ, ◌+◌, ◌-◌, ◌*◌, ◌/◌, ◌%◌, ◌^◌, Bool, true, false, Option, none, some, List, [], ◌∷◌, ◌++◌,
  if◌then◌else◌, leb, ◌==◌,
}
use cgc.Word.{word_mod}
use cgc.Thread.{ThreadState}

-- `sizeof(T)` and `alignof(T)`.
pub record Element : Type 0 where
  pub size : ℕ
  pub align : ℕ

-- `throws_bad_alloc`, or the number of bytes asked for.
pub data Request : Type 0 where
  throws_bad_alloc : Request
  asks : ℕ → Request

-- `std::numeric_limits<size_t>::max()`, which is also the `max_size` of every adapter.
abbrev pub max_size : ℕ
max_size = word_mod - 1

abbrev pub max : ℕ → ℕ → ℕ
max a b = if leb a b then b else a

-- `cgc_internal_malloc_allocator_t<T>::allocate`.
unfoldable pub malloc_allocate : Element → ℕ → Request
malloc_allocate t n =
    if leb (max_size / t.size) n then throws_bad_alloc else asks ((n * t.size) % word_mod)

-- `cgc_internal_allocator_t<T>::allocate`.
unfoldable pub internal_allocate : Element → ℕ → Request
internal_allocate t n = asks ((n * max t.align t.size) % word_mod)

-- `cgc_internal_slab_allocator_t<T>::allocate`.
unfoldable pub slab_allocate : Element → ℕ → Request
slab_allocate t n = asks ((n * max t.align t.size) % word_mod)

-- `gc_allocator_t<T>::allocate`.
unfoldable pub gc_allocate : Element → ℕ → Request
gc_allocate t n = asks ((n * t.size) % word_mod)

-- How a call ends: with a pointer, by an exception, by a failed assertion, or by the use of a null pointer.
pub data Ended : Type 0 where
  returns : ℕ → Ended
  throws aborts faults : Ended

pub data Event : Type 0 where
  acquires releases constructs destroys : ℕ → Event

-- `cgc1::in_signal_handler`, with the state that `get_tlks` answers.
unfoldable pub in_signal_handler : Option ThreadState → Bool
in_signal_handler none = false
in_signal_handler (some t) = t.in_signal_handler

-- `cgc_internal_malloc_allocator_t<T>::deallocate`, with its assertion.
unfoldable pub malloc_deallocate : Option ThreadState → ℕ → Ended × List Event
malloc_deallocate tlks p =
    if in_signal_handler tlks then (aborts, []) else (returns p, releases p ∷ [])

-- `cgc_internal_malloc_deleter_t`.
unfoldable pub malloc_deleter : Option ThreadState → ℕ → Ended × List Event
malloc_deleter tlks p =
    let (ended, events) = malloc_deallocate tlks p in (ended, destroys p ∷ events)

-- `deallocate` of the three other adapters.
unfoldable pub deallocate : ℕ → List Event
deallocate p = releases p ∷ []

-- `cgc_internal_deleter_t` and `cgc_internal_slab_deleter_t`.
unfoldable pub internal_deleter : ℕ → List Event
internal_deleter p = destroys p ∷ deallocate p

-- `make_unique_malloc`, where `malloc` answers `p`.
unfoldable pub make_unique_malloc : ℕ → Bool → Ended × List Event
make_unique_malloc p constructor_throws =
    if p == 0
    then (faults, acquires p ∷ [])
    else if constructor_throws
    then (throws, acquires p ∷ [])
    else (returns p, acquires p ∷ constructs p ∷ [])

-- `make_cgc_unique`, where `cgc_malloc` throws or answers an address. A null pointer is freed as well.
unfoldable pub make_cgc_unique : Option ℕ → Bool → Ended × List Event
make_cgc_unique none constructor_throws = (throws, releases 0 ∷ [])
make_cgc_unique (some p) constructor_throws =
    if p == 0
    then (faults, [])
    else if constructor_throws
    then (throws, acquires p ∷ releases p ∷ [])
    else (returns p, acquires p ∷ constructs p ∷ [])

-- The deleter of `make_cgc_unique`, `cgc_free`.
unfoldable pub cgc_deleter : ℕ → List Event
cgc_deleter p = releases p ∷ []

-- `make_cgc`, which releases the pointer from its owner.
unfoldable pub make_cgc : Option ℕ → Bool → Ended × List Event
make_cgc answer constructor_throws = make_cgc_unique answer constructor_throws
