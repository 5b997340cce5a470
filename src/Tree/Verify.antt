-- ===== src/Tree/Verify.antt =====
-- `verify_integrity` ends on a tree, and a file that it accepts is sound for every key.
use diskmap_cpp.Common.{
  ℕ, zero, suc, ◌+◌, ◌≤◌, ◌<◌, ◌≡◌, ◌≢◌, refl, sym, ap, ◌∙◌, subst, inl, inr, Bool, true, false,
  Option, none, some, List, ◌==◌, arith, Bool-cases, if◌then◌else◌, ◌>>=◌,
}
use diskmap_cpp.Memory.{Mem}
use diskmap_cpp.Bucket.{get_bucket, get_msb, clear_msb, set_msb, branching_factor}
use diskmap_cpp.Leaf.Check.{validate_leaf_integrity}
use diskmap_cpp.Tree.{
  Parent, child, root_page, leaf_at, find_parent, each_child, verify_from, verify_integrity,
}
use diskmap_cpp.Tree.Descend.{bucket-lt, IsNode, Way, ends_at, deeper, find_from_sound}

each_child_ends :
    (n i page : ℕ) (m : Mem) (check : ℕ → Option Bool)
    → ((j : ℕ) → j < i + n → child m page j ≢ 0 → (b : Bool) × (check (child m page j) ≡ some b))
    → (b : Bool) × (each_child n i page m check ≡ some b)
unfolding each_child
each_child_ends zero i page m check h = (true, refl)
each_child_ends (suc n) i page m check h =
    let (b, rest) = each_child_ends n (i + 1) page m check (λ j low. h j (omega (arith, low))) in
    elim (Bool-cases (child m page i == 0)) [
      | inl z ↦ (b, rw z rest)
      | inr z ↦
          let (ok, run) = h i (omega arith) (ground (arith, z)) in
          elim (Bool-cases ok) [
            | inl t ↦ (b, rw (z, run, t) rest)
            | inr f ↦ (false, rw (z, run, f))
          ]
    ]

some-injective : {a b : Bool} → some a ≡ some b → a ≡ b
some-injective h = cc

none≢some : {b : Bool} → none ≢ some b
none≢some h = cc

both_true :
    (c rest : Option Bool)
    → (c >>= λ ok. if ok then rest else some false) ≡ some true
    → (c ≡ some true) × (rest ≡ some true)
both_true none rest h = absurd (none≢some h)
both_true (some true) rest h = (refl, h)
both_true (some false) rest h = cc

each_child_accepted :
    (n i page : ℕ) (m : Mem) (check : ℕ → Option Bool)
    → each_child n i page m check ≡ some true
    → (j : ℕ) → i ≤ j
    → j < i + n
    → child m page j ≢ 0
    → check (child m page j) ≡ some true
unfolding each_child
each_child_accepted zero i page m check h j low high there = absurd (omega (arith, low, high))
each_child_accepted (suc n) i page m check h j low high there =
    elim (Bool-cases (child m page i == 0)) [
      | inl z ↦
          let later : each_child n (i + 1) page m check ≡ some true = sym (rw z) ∙ h in
          let other : j ≢ i = λ e. there (ap (child m page) e ∙ ground (arith, z)) in
          each_child_accepted n (i + 1) page m check later j (omega (arith, low, other))
            (omega (arith, high)) there
      | inr z ↦
          let (this, later) =
            both_true (check (child m page i)) (each_child n (i + 1) page m check)
              (sym (rw z) ∙ h) in
          elim (Bool-cases (j == i)) [
            | inl e ↦
                let same : j ≡ i = ground arith in ap (λ k. check (child m page k)) same ∙ this
            | inr e ↦
                each_child_accepted n (i + 1) page m check later j
                  (omega (arith, low, (let o : j ≢ i = ground (arith, e) in o)))
                  (omega (arith, high)) there
          ]
    ]

-- A number in an internal node, or the root with its tag.
abbrev IsValue : ℕ → Mem → ℕ → Type 0
IsValue h m value = (get_msb value == 0) ≡ false → IsNode h m (clear_msb value)

verify_from_ends :
    (h fuel : ℕ) (m : Mem) (value : ℕ)
    → IsValue h m value
    → h < fuel
    → (b : Bool) × (verify_from fuel m value ≡ some b)
unfolding verify_from
verify_from_ends h zero m value tree enough = absurd (omega (arith, enough))
verify_from_ends zero (suc fuel) m value tree enough = elim (Bool-cases (get_msb value == 0)) [
  | inl e ↦ (validate_leaf_integrity (leaf_at m value), rw e)
  | inr e ↦ absurd (tree e)
]
verify_from_ends (suc h) (suc fuel) m value tree enough = elim (Bool-cases (get_msb value == 0)) [
  | inl e ↦ (validate_leaf_integrity (leaf_at m value), rw e)
  | inr e ↦
      let page = clear_msb value in
      rw e (
        each_child_ends branching_factor 0 page m (verify_from fuel m) (λ j low there.
          verify_from_ends h fuel m (child m page j)
            (λ k. tree e j (omega (arith, low)) (ground (arith, k, there)))
            (omega (arith, enough))))
]

child_accepted :
    (fuel : ℕ) (m : Mem) (value page j : ℕ)
    → verify_from (suc fuel) m value ≡ some true
    → (get_msb value == 0) ≡ false
    → clear_msb value ≡ page
    → j < branching_factor
    → child m page j ≢ 0
    → verify_from fuel m (child m page j) ≡ some true
unfolding verify_from
child_accepted fuel m value page j ok node at low there =
    let all : each_child branching_factor 0 page m (verify_from fuel m) ≡ some true =
      ap (λ q. each_child branching_factor 0 q m (verify_from fuel m)) (sym at)
      ∙ sym (rw node)
      ∙ ok in
    each_child_accepted branching_factor 0 page m (verify_from fuel m) all j (omega arith)
      (omega (arith, low)) there

leaf_accepted :
    (fuel : ℕ) (m : Mem) (value : ℕ)
    → verify_from fuel m value ≡ some true
    → (get_msb value == 0) ≡ true
    → validate_leaf_integrity (leaf_at m value) ≡ true
unfolding verify_from
leaf_accepted zero m value ok leaf = absurd (none≢some ok)
leaf_accepted (suc fuel) m value ok leaf = some-injective (sym (rw leaf) ∙ ok)

accepted_leaf :
    (fuel : ℕ) (m : Mem) (key : List ℕ) (value page depth : ℕ) (p : Parent)
    → verify_from fuel m value ≡ some true
    → (get_msb value == 0) ≡ false
    → clear_msb value ≡ page
    → Way m key page depth p
    → child m p.page p.entry ≢ 0
    → validate_leaf_integrity (leaf_at m (child m p.page p.entry)) ≡ true
unfolding verify_from
accepted_leaf zero m key value page depth p ok node at way there = absurd (none≢some ok)
accepted_leaf (suc fuel) m key value page depth p ok node at (ends_at _ _ e) there =
    let i = get_bucket key (depth + 1) in
    leaf_accepted fuel m (child m page i)
      (child_accepted fuel m value page i ok node at (bucket-lt key (depth + 1)) there)
      (ground (arith, e, there))
accepted_leaf (suc fuel) m key value page depth p ok node at (deeper _ _ _ e way) there =
    let i = get_bucket key (depth + 1) in
    let inner : child m page i ≢ 0 = ground (arith, e) in
    accepted_leaf fuel m key (child m page i) (clear_msb (child m page i)) (depth + 1) p
      (child_accepted fuel m value page i ok node at (bucket-lt key (depth + 1)) inner)
      (ground (arith, e)) refl way there

root_is_node :
    ((get_msb (set_msb root_page 1) == 0) ≡ false) × (clear_msb (set_msb root_page 1) ≡ root_page)
unfolding get_msb set_msb clear_msb
root_is_node = (refl, refl)

-- On a tree the check ends.
pub verify_integrity-ends :
    (h fuel : ℕ) (m : Mem)
    → IsNode h m root_page
    → h < fuel
    → (b : Bool) × (verify_integrity fuel m ≡ some b)
unfolding verify_integrity
verify_integrity-ends h fuel m tree enough =
    verify_from_ends h fuel m (set_msb root_page 1)
      (λ k. subst (IsNode h m) (sym root_is_node.1) tree) enough

-- Where `verify_integrity` accepts the file and `find_parent` returns a parent for a key, with whatever
-- fuel each of them has, and the entry for the key is not 0, `validate_leaf_integrity` accepts the leaf
-- that the entry leads to.
pub verify_integrity-leaf :
    (fuel f : ℕ) (m : Mem) (key : List ℕ) (p : Parent)
    → verify_integrity fuel m ≡ some true
    → find_parent f key m ≡ some p
    → child m p.page p.entry ≢ 0
    → validate_leaf_integrity (leaf_at m (child m p.page p.entry)) ≡ true
unfolding verify_integrity find_parent
verify_integrity-leaf fuel f m key p ok run there =
    accepted_leaf fuel m key (set_msb root_page 1) root_page 0 p ok root_is_node.0 root_is_node.1
      (find_from_sound f m key root_page 0 p run).0 there
