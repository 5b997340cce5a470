-- ===== src/Replacer/Dual.antt =====
-- replacer.h, replacer.cpp: `DualPriorityReplacer`.
use diskmap_cpp.Common.{ℕ, Bool, true, not, Option, none, some, if◌then◌else◌, ◌>>=◌}
use diskmap_cpp.Replacer.{Lru, insert, remove, evict, empty_lru}

pub record Dual : Type 0 where
  pub important : Lru
  pub unimportant : Lru

unfoldable pub empty_dual : Dual
empty_dual = record { important = empty_lru; unimportant = empty_lru }

unfoldable pub insert_dual : ℕ → Bool → Dual → Option Dual
insert_dual val advise_eviction d =
    if advise_eviction
    then (if not (d.important.mapped val)
        then (insert val (d.unimportant) >>= λ u. some (record d { unimportant = u }))
        else some d)
    else (insert val (d.important) >>= λ i. remove val (d.unimportant) >>= λ (r : Bool × Lru).
        some (record { important = i; unimportant = r.1 }))

-- The second list is asked only when the first does not have the value.
unfoldable pub remove_dual : ℕ → Dual → Option (Bool × Dual)
remove_dual val d = remove val (d.unimportant) >>= λ (r : Bool × Lru).
    if r.0
    then some (true, record d { unimportant = r.1 })
    else (remove val (d.important) >>= λ (q : Bool × Lru).
        some (q.0, record { important = q.1; unimportant = r.1 }))

unfoldable pub evict_dual : Dual → Option (Option ℕ × Dual)
evict_dual d = evict (d.unimportant) >>= λ (r : Option ℕ × Lru).
    elim (r.0) as (λ o. Option (Option ℕ × Dual)) [
      | some v ↦ some (some v, record d { unimportant = r.1 })
      | none ↦ evict (d.important) >>= λ (q : Option ℕ × Lru).
          some (q.0, record { important = q.1; unimportant = r.1 })
    ]
