-- ===== src/Replacer/Tests.antt =====
-- A `DualPriorityReplacer` from its construction on.
use diskmap_cpp.Common.{◌≡◌, refl, true, false, none, some, List, [], ◌∷◌}
use diskmap_cpp.Replacer.Segment.{mem}
use diskmap_cpp.Replacer.Queue.{erase}
use diskmap_cpp.Replacer.Refines.{oldest, newer}
use diskmap_cpp.Replacer.Dual.{Dual, empty_dual}
use diskmap_cpp.Replacer.Policy.{
  Op, inserting, removing, evicting, done, found, victim, perform_all, expected_all, expected,
  queue_evict, queue_insert, queue_remove, perform_all-refines,
}

-- 3 is important and stays so, 5 and 7 go first.
abbrev some_ops : List Op
some_ops =
    inserting 3 false
    ∷ inserting 5 true
    ∷ inserting 7 true
    ∷ inserting 3 true
    ∷ removing 7
    ∷ evicting
    ∷ evicting
    ∷ evicting
    ∷ []

some_answers :
    expected_all some_ops ([], [])
    ≡ done ∷ done ∷ done ∷ done ∷ found true ∷ victim (some 5) ∷ victim (some 3) ∷ victim none ∷ []
unfolding expected_all expected mem queue_evict queue_insert queue_remove erase oldest newer
some_answers = refl

perform_all-refines_example :
    (d : Dual) × (perform_all some_ops empty_dual ≡ some (expected_all some_ops ([], []), d))
perform_all-refines_example = perform_all-refines some_ops
