-- ===== src/Tree/Absent.antt =====
-- `remove` goes the way of `find_parent`, and of a key that is not there it removes nothing.
use diskmap_cpp.Common.{
  ℕ, zero, suc, ◌+◌, ◌<◌, ◌≡◌, ◌≢◌, refl, ◌⊎◌, inl, inr, true, false, Option, none, some, List,
  ◌==◌, arith, Bool-cases,
}
use diskmap_cpp.Memory.{Mem}
use diskmap_cpp.Bucket.{get_bucket, get_msb, clear_msb}
use diskmap_cpp.Leaf.{missing, find_entry_in_leaf}
use diskmap_cpp.Tree.{
  Parent, child, root_page, leaf_at, Descent, descend, remove_at, remove, find_parent,
}
use diskmap_cpp.Tree.Descend.{Way, ends_at, deeper, Way-depth, find_from_sound}

-- Where the loop of `remove` arrives, seen from the parent that `find_parent` returns.
pub data Arrived (m : Mem) (p : Parent) : Option Descent → Type 0 where
  no_child : child m p.page p.entry ≡ 0 → Arrived m p none
  at_leaf :
      (g : Option (ℕ × ℕ))
      → child m p.page p.entry ≢ 0
      → Arrived m p (some (record { parent = p.page; parent_entry = p.entry; grandparent = g }))

pub descend-Arrived :
    (fuel : ℕ) (m : Mem) (key : List ℕ) (page depth : ℕ) (p : Parent) (g : Option (ℕ × ℕ))
    → Way m key page depth p
    → p.depth < depth + fuel
    → (r : Option Descent) × (descend fuel key m page g (depth + 1) ≡ some r) × Arrived m p r
unfolding descend
descend-Arrived zero m key page depth p g (ends_at _ _ e) low = absurd (omega (arith, low))
descend-Arrived zero m key page depth p g (deeper _ _ _ e way) low =
    absurd (omega (arith, low, Way-depth m key _ (depth + 1) p way))
descend-Arrived (suc fuel) m key page depth p g (ends_at _ _ e) low =
    let value = child m page (get_bucket key (depth + 1)) in
    elim (Bool-cases (value == 0)) [
      | inl z ↦ (none, rw z, no_child (ground (arith, z)))
      | inr z ↦
          let leaf : (get_msb value == 0) ≡ true = ground (arith, e, z) in
          (some _, rw (z, leaf), at_leaf g (ground (arith, z)))
    ]
descend-Arrived (suc fuel) m key page depth p g (deeper _ _ _ e way) low =
    let i = get_bucket key (depth + 1) in
    let value = child m page i in
    let there : (value == 0) ≡ false = ground (arith, e) in
    let node : (get_msb value == 0) ≡ false = ground (arith, e) in
    let (r, run, a) =
      descend-Arrived fuel m key (clear_msb value) (depth + 1) p (some (page, i)) way
        (omega (arith, low)) in
    (r, rw (there, node) run, a)

-- The bucket of the key is empty, or the search in the leaf does not find it.
abbrev pub IsAbsent : Mem → List ℕ → Parent → Type 0
IsAbsent m key p =
    (child m p.page p.entry ≡ 0)
    ⊎ (find_entry_in_leaf (leaf_at m (child m p.page p.entry)).contents key ≡ missing)

-- Nothing to remove.
remove_at_absent :
    (m : Mem) (key : List ℕ) (p : Parent) (r : Option Descent)
    → Arrived m p r
    → IsAbsent m key p
    → remove_at key r m ≡ some (false, m)
unfolding remove_at
remove_at_absent m key p none (no_child z) absent = refl
remove_at_absent m key p (some _) (at_leaf g there) (inl z) = absurd (there z)
remove_at_absent m key p (some _) (at_leaf g there) (inr none_found) = rw (remove_at, none_found)

-- Where `find_parent` returns a parent, and its entry for the key is 0 or the search in the leaf does not
-- find the key, `remove` with the same fuel goes the same way down, returns `false` and changes nothing.
pub remove-absent :
    (fuel : ℕ) (m : Mem) (key : List ℕ) (p : Parent)
    → find_parent fuel key m ≡ some p
    → IsAbsent m key p
    → remove fuel key m ≡ some (false, m)
unfolding find_parent remove
remove-absent fuel m key p run absent =
    let (way, low) = find_from_sound fuel m key root_page 0 p run in
    let (r, down, a) = descend-Arrived fuel m key root_page 0 p none way low in
    rw down (remove_at_absent m key p r a absent)
