-- ===== src/Examples/Passing.antt =====
-- A collection and a local finalization over the states of the sweep.
use mathlib.Core.List.{Perm}
use cgc.Base.{◌≡◌, true, [], ◌∷◌}
use cgc.Heap.Sample.{header, layout}
use cgc.Sweep.Trace.{hidden}
use cgc.Passing.{Passing, d_freed_in_last_collection}
use cgc.Passing.Reports.{cycle-reports}
use cgc.Passing.Turns.{starts, finalizes, waits_for, nothing_passed, turns}
use cgc.Examples.Sweeping.{states, user_data}

-- Object 96 was put aside in an earlier collection, which has reported a pointer.
abbrev earlier : Passing
earlier = record nothing_passed { need_special = 96 ∷ []; freed = 7 ∷ [] }

cycle-reports_example :
    let q =
      turns header layout states user_data
        (starts ∷ finalizes (128 ∷ 160 ∷ []) ∷ waits_for true ∷ [])
        earlier in
    Perm
      (d_freed_in_last_collection q)
      (hidden header layout states user_data (96 ∷ 128 ∷ 160 ∷ []))
    × (q.need_special ≡ [])
cycle-reports_example = cycle-reports header layout states user_data (128 ∷ 160 ∷ []) earlier
