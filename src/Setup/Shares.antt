-- ===== src/Setup/Shares.antt =====
-- The collector threads share the work: every registered thread is watched, and the blocks, roots and
-- ranges are handed out whole.
use mathlib.Core.List.Memᴰ
use cgc.Base.{
  ℕ, zero, suc, ◌+◌, ◌%◌, ◌<◌, ◌≡◌, refl, sym, ◌∙◌, subst, ◌⊎◌, inl, inr, ⊎_elim, ◌↔◌, List, [],
  ◌∷◌, Memᴰ, length, arith,
}
use cgc.Setup.{
  Partition, Assignment, reset_all, set_allocator_blocks, set_root_iterators, give_each, add_thread,
  add_threads, setup_gc_threads,
}
use cgc.Setup.Given.{
  Cuts, all_watched, all_blocks, all_roots, all_ranges, Blank, reset_all-Blank, reset_all-watched,
  length-reset_all, give_blocks-lem, give_roots-lem, give_ranges-lem,
}

module _ (P : Partition) {Block Range : Type 0} where
  add_thread-Blank :
      (id index : ℕ) (l : List (Assignment Block Range)) → Blank l → Blank (add_thread P id index l)
  unfolding add_thread
  add_thread-Blank id index [] b = tt
  add_thread-Blank id zero (a ∷ l) b = b
  add_thread-Blank id (suc index) (a ∷ l) b = (b.0, b.1, add_thread-Blank id index l b.2)

  length-add_thread :
      (id index : ℕ) (l : List (Assignment Block Range))
      → length (add_thread P id index l) ≡ length l
  unfolding add_thread
  length-add_thread id index [] = refl
  length-add_thread id zero (a ∷ l) = refl
  length-add_thread id (suc index) (a ∷ l) = omega (arith, length-add_thread id index l)

  mem-add_thread :
      (x id index : ℕ) (l : List (Assignment Block Range))
      → index < length l
      → Memᴰ x (all_watched (add_thread P id index l)) ↔ ((x ≡ id) ⊎ Memᴰ x (all_watched l))
  unfolding add_thread
  mem-add_thread x id index [] h = absurd (omega (arith, h))
  mem-add_thread x id zero (a ∷ l) h = (
    λ i. elim (Memᴰ.append_cases (P.insert_unique_sorted id a.watched) i) [
      | inl j ↦ elim ((P.mem-insert x id a.watched).0 j) [
        | inl e ↦ inl e
        | inr k ↦ inr (Memᴰ.append_left (all_watched l) k)
      ]
      | inr j ↦ inr (Memᴰ.append_right a.watched j)
    ],
    λ c. elim c [
      | inl e ↦ Memᴰ.append_left (all_watched l) ((P.mem-insert x id a.watched).1 (inl e))
      | inr i ↦ elim (Memᴰ.append_cases a.watched i) [
        | inl j ↦ Memᴰ.append_left (all_watched l) ((P.mem-insert x id a.watched).1 (inr j))
        | inr j ↦ Memᴰ.append_right (P.insert_unique_sorted id a.watched) j
      ]
    ],
  )
  mem-add_thread x id (suc index) (a ∷ l) h =
      let (there, back) = mem-add_thread x id index l (omega (arith, h)) in
      (
        λ i. elim (Memᴰ.append_cases a.watched i) [
          | inl j ↦ inr (Memᴰ.append_left (all_watched l) j)
          | inr j ↦ elim (there j) [ inl e ↦ inl e | inr k ↦ inr (Memᴰ.append_right a.watched k) ]
        ],
        λ c. elim c [
          | inl e ↦ Memᴰ.append_right a.watched (back (inl e))
          | inr i ↦ elim (Memᴰ.append_cases a.watched i) [
            | inl j ↦ Memᴰ.append_left (all_watched (add_thread P id index l)) j
            | inr j ↦ Memᴰ.append_right a.watched (back (inr j))
          ]
        ],
      )

  add_threads-lem :
      (total : ℕ) (ids : List ℕ) (cur : ℕ) (l : List (Assignment Block Range))
      → length l ≡ total
      → cur < total
      → Blank l
      → let l' = add_threads P total ids cur l in
        Blank l'
        × (length l' ≡ total)
        × ((x : ℕ) → Memᴰ x (all_watched l') ↔ (Memᴰ x ids ⊎ Memᴰ x (all_watched l)))
  unfolding add_threads
  add_threads-lem total [] cur l e c b =
      (b, e, λ x. (inr, ⊎_elim (λ i. absurd (Memᴰ.not-nil i)) (λ i. i)))
  add_threads-lem total (id ∷ ids) cur l e c b =
      let (b', e', m) =
        add_threads-lem total ids ((cur + 1) % total) (add_thread P id cur l)
          (length-add_thread id cur l ∙ e) (omega (arith, c)) (add_thread-Blank id cur l b) in
      (
        b',
        e',
        λ x.
            let (there, back) = mem-add_thread x id cur l (omega (arith, e, c)) in
            (
              λ i. elim ((m x).0 i) [
                | inl j ↦ inl (Memᴰ.tail j)
                | inr j ↦ elim (there j) [ inl p ↦ inl (Memᴰ.head p) | inr k ↦ inr k ]
              ],
              λ i. elim i [
                | inl j ↦ elim (Memᴰ.cases_cons j) [
                  | inl p ↦ (m x).1 (inr (back (inl p)))
                  | inr k ↦ (m x).1 (inl k)
                ]
                | inr j ↦ (m x).1 (inr (back (inr j)))
              ],
            ),
      )

  -- With at least one collector thread: the threads that are watched after the set-up are exactly the
  -- registered ones, whatever was watched before, and the blocks, the roots and the ranges of the collector
  -- threads, one thread after the other, are all blocks, roots and ranges in their order.
  pub setup_gc_threads-shares :
      (c : Cuts P) (ids : List ℕ) (blocks : List Block) (roots : List ℕ) (ranges : List Range)
      (gc_threads : List (Assignment Block Range))
      → 0 < length gc_threads
      → let l = setup_gc_threads P ids blocks roots ranges gc_threads in
        ((x : ℕ) → Memᴰ x (all_watched l) ↔ Memᴰ x ids)
        × (all_blocks l ≡ blocks)
        × (all_roots l ≡ roots)
        × (all_ranges l ≡ ranges)
  unfolding setup_gc_threads
  setup_gc_threads-shares c ids blocks roots ranges [] h = absurd (omega (arith, h))
  setup_gc_threads-shares c ids blocks roots ranges (a ∷ rest) h =
      let n = length (a ∷ rest) in
      let l0 = add_threads P n ids 0 (reset_all (a ∷ rest)) in
      let l1 = give_each set_allocator_blocks (P.equipartition Block blocks n) l0 in
      let l2 = give_each set_root_iterators (P.equipartition ℕ roots n) l1 in
      let (b0, e0, m0) =
        add_threads-lem n ids 0 (reset_all (a ∷ rest)) (length-reset_all (a ∷ rest)) h
          (reset_all-Blank (a ∷ rest)) in
      let (x1, w1, r1, e1) =
        give_blocks-lem (P.equipartition Block blocks n) l0 (c.parts Block blocks n h ∙ sym e0)
          b0 in
      let (x2, w2, k2, e2) =
        give_roots-lem (P.equipartition ℕ roots n) l1 (c.parts ℕ roots n h ∙ sym (e1 ∙ e0)) r1 in
      let (x3, w3, k3, q3) =
        give_ranges-lem (P.equipartition Range ranges n) l2
          (c.parts Range ranges n h ∙ sym (e2 ∙ e1 ∙ e0)) in
      let watched = w3 ∙ w2 ∙ w1 in
      (
        λ x. (
          λ i. elim ((m0 x).0 (subst (Memᴰ x) watched i)) [
            | inl j ↦ j
            | inr j ↦ absurd (Memᴰ.not-nil (subst (Memᴰ x) (reset_all-watched (a ∷ rest)) j))
          ],
          λ j. subst (Memᴰ x) (sym watched) ((m0 x).1 (inl j)),
        ),
        k3 ∙ k2 ∙ x1 ∙ c.whole Block blocks n h,
        q3 ∙ x2 ∙ c.whole ℕ roots n h,
        x3 ∙ c.whole Range ranges n h,
      )
