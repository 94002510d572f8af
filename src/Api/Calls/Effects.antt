-- ===== src/Api/Calls/Effects.antt =====
-- What registering a finalizer, and making an object uncollectable, does for the collector: for the
-- finalization of the object and for its fate in a sweep.
use cgc.Base.{
  ℕ, ◌≡◌, ◌≢◌, refl, ap, ◌∙◌, inl, inr, Bool, true, false, Option, none, some, Bool-cases,
  if◌then◌else◌, ==-ne, arith,
}
use cgc.Heap.{ObjectHeader, Layout}
use cgc.Sweep.{UserData}
use cgc.Sweep.Swept.{fate, kept}
use cgc.Sweep.Trace.{finalizer_of}
use cgc.Api.{Regions, is_sparse_allocator, bitmap_allocator_user_data, cgc_start}
use cgc.Api.Calls.{
  returns, Store, register_state_finalizer, cgc_register_finalizer, set_state_uncollectable,
  cgc_set_uncollectable,
}
use cgc.Api.Calls.Owned.{
  data_at, OwnsData, IsFresh, Gives, give_data-Gives, set_data-Gives, set_state_complex-Gives,
}

-- The data that the two calls leave for the object.
abbrev pub registered : Option ℕ → Bool → UserData → UserData
registered finalizer allow ud =
    if ud.is_default
    then record ud {
      is_default = false;
      allow_arbitrary_finalizer_thread = allow;
      finalizer = finalizer;
    }
    else record ud { finalizer = finalizer }

abbrev pub collectable_set : Bool → UserData → UserData
collectable_set is_uncollectable ud = record ud {
  is_default = false;
  uncollectable = is_uncollectable;
}

module _ (H : ObjectHeader) (L : Layout) (R : Regions) where
  -- The address belongs to the object of `os` in the sparse allocator, which has user data.
  pub record Names (addr os : ℕ) (s : Store H) : Type 0 where
    pub not_null : addr ≢ 0
    pub not_bitmap : bitmap_allocator_user_data L R addr ≡ none
    pub in_slab : is_sparse_allocator R addr ≡ true
    pub start : ℕ
    pub starts : cgc_start H L R s.states addr ≡ some start
    pub state_there : L.from_object_start start ≡ os
    pub has_data : H.user_data (s.states os) ≢ 0

  module _ (fresh addr os : ℕ) (s : Store H) (u : IsFresh H fresh s) (o : OwnsData H s)
      (n : Names addr os s) where
    register_state-Gives :
        (finalizer : Option ℕ) (allow : Bool)
        → let r = register_state_finalizer H L R fresh os finalizer allow s in
          (r.0 ≡ returns) × Gives H fresh os (registered finalizer allow (data_at H s os)) s r.1
    unfolding register_state_finalizer
    register_state-Gives finalizer allow = elim (Bool-cases (data_at H s os).is_default) [
      | inl default ↦
          rw (==-ne (H.user_data (s.states os)) 0 n.has_data, default)
            (refl, give_data-Gives H fresh os _ s refl o u)
      | inr mine ↦
          rw (==-ne (H.user_data (s.states os)) 0 n.has_data, mine)
            (refl, set_data-Gives H fresh os _ s refl o n.has_data mine)
    ]

    set_state-Gives :
        (b : Bool)
        → let r = set_state_uncollectable H L R fresh os b s in
          (r.0 ≡ returns) × Gives H fresh os (collectable_set b (data_at H s os)) s r.1
    unfolding set_state_uncollectable
    set_state-Gives b = elim (Bool-cases (data_at H s os).is_default) [
      | inl default ↦
          rw (==-ne (H.user_data (s.states os)) 0 n.has_data, default)
            (
              refl,
              set_state_complex-Gives H fresh os _ s _ (give_data-Gives H fresh os _ s refl o u),
            )
      | inr mine ↦
          rw (==-ne (H.user_data (s.states os)) 0 n.has_data, mine)
            (
              refl,
              set_state_complex-Gives H fresh os _ s _
                  (set_data-Gives H fresh os _ s refl o n.has_data mine),
            )
    ]

    register-state :
        (finalizer : Option ℕ) (allow may_throw : Bool)
        → cgc_register_finalizer H L R fresh addr finalizer allow may_throw s
          ≡ register_state_finalizer H L R fresh os finalizer allow s
    unfolding cgc_register_finalizer
    register-state finalizer allow may_throw =
        rw (==-ne addr 0 n.not_null, n.not_bitmap, n.in_slab, n.starts, n.state_there)

    uncollectable-state :
        (b : Bool)
        → cgc_set_uncollectable H L R fresh addr b s ≡ set_state_uncollectable H L R fresh os b s
    unfolding cgc_set_uncollectable
    uncollectable-state b =
        rw (==-ne addr 0 n.not_null, n.not_bitmap, n.in_slab, n.starts, n.state_there)

    registered-own :
        (finalizer : Option ℕ) (allow : Bool) (ud : UserData)
        → (registered finalizer allow ud).is_default ≡ false
    registered-own finalizer allow ud = ground arith

    registered-finalizer :
        (finalizer : Option ℕ) (allow : Bool) (ud : UserData)
        → (registered finalizer allow ud).finalizer ≡ finalizer
    registered-finalizer finalizer allow ud = ground arith

    given-finalizer_of :
        (ud : UserData) (s' : Store H)
        → ud.is_default ≡ false
        → Gives H fresh os ud s s'
        → finalizer_of H L s'.states s'.user_data os ≡ ud.finalizer
    given-finalizer_of ud s' own g =
        rw (==-ne (H.user_data (s'.states os)) 0 g.present, g.given, own)

    -- `cgc_register_finalizer`, called with an address of an object of the sparse allocator that has user
    -- data, returns; then the finalizer is the one that finalization runs for this object. An object with
    -- default data is given a copy with the flag for the thread, one with data of its own keeps all but the
    -- finalizer. Other objects keep their data, default data does not change, and still no two objects
    -- share data that is not default data.
    pub register_finalizer-Gives :
        (finalizer : Option ℕ) (allow may_throw : Bool)
        → let r = cgc_register_finalizer H L R fresh addr finalizer allow may_throw s in
          (r.0 ≡ returns)
          × (finalizer_of H L r.1.states r.1.user_data os ≡ finalizer)
          × Gives H fresh os (registered finalizer allow (data_at H s os)) s r.1
    register_finalizer-Gives finalizer allow may_throw =
        let (ok, g) = register_state-Gives finalizer allow in
        rw (register-state finalizer allow may_throw) (
          ok,
          given-finalizer_of _ _ (registered-own finalizer allow (data_at H s os)) g
              ∙ registered-finalizer finalizer allow (data_at H s os),
          g,
        )

    given-kept :
        (ud : UserData) (s' : Store H)
        → ud.is_default ≡ false
        → ud.uncollectable ≡ true
        → Gives H fresh os ud s s'
        → fate H s'.user_data (s'.states os) ≡ kept
    unfolding fate
    given-kept ud s' own un g =
        ground (arith, g.given, ==-ne (H.user_data (s'.states os)) 0 g.present)

    -- `cgc_set_uncollectable` with `true`, called with an address of an object of the sparse allocator that
    -- has user data, returns; after it a sweep keeps the object, marked or not. The object has data of its
    -- own, that differs from what it had in no other point. Other objects keep their data, default data does
    -- not change, and still no two objects share data that is not default data.
    pub set_uncollectable-kept :
        let r = cgc_set_uncollectable H L R fresh addr true s in
        (r.0 ≡ returns)
        × (fate H r.1.user_data (r.1.states os) ≡ kept)
        × Gives H fresh os (collectable_set true (data_at H s os)) s r.1
    set_uncollectable-kept =
        let (ok, g) = set_state-Gives true in
        rw (uncollectable-state true) (ok, given-kept _ _ refl refl g, g)

    -- If the object has data of its own already, `cgc_register_finalizer` leaves the flag as it is that
    -- allows any thread to run the finalizer, whatever its argument says.
    register_finalizer_keeps_allow :
        (finalizer : Option ℕ) (allow may_throw : Bool)
        → (data_at H s os).is_default ≡ false
        → (data_at H
            (cgc_register_finalizer H L R fresh addr finalizer allow may_throw s).1
            os).allow_arbitrary_finalizer_thread
          ≡ (data_at H s os).allow_arbitrary_finalizer_thread
    register_finalizer_keeps_allow finalizer allow may_throw mine =
        let g = (register_finalizer-Gives finalizer allow may_throw).2.given in
        ap (λ (d : UserData). d.allow_arbitrary_finalizer_thread) g ∙ (rw mine)
