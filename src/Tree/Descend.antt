-- ===== src/Tree/Descend.antt =====
-- The way down from a node: `find_parent` and the loop of `remove` take the same one, and it ends.
use diskmap_cpp.Common.{
  ℕ, zero, suc, ◌+◌, ◌-◌, ◌≤◌, ◌<◌, ◌≡◌, ◌≢◌, refl, sym, ◌∙◌, subst, inl, inr, Bool, true, false,
  ◌||◌, none, some, List, ◌==◌, arith, Bool-cases,
}
use diskmap_cpp.Memory.{Mem}
use diskmap_cpp.Bucket.{get_bucket, get_msb, clear_msb, branching_factor}
use diskmap_cpp.Bucket.Digits.{hash_bucket-lt}
use diskmap_cpp.Tree.{Parent, child, find_from, find_parent, root_page}

none≢some : {p : Parent} → none ≢ some p
none≢some h = cc

some-injective : {p q : Parent} → some p ≡ some q → p ≡ q
some-injective h = cc

pub bucket-lt : (key : List ℕ) (depth : ℕ) → get_bucket key depth < branching_factor
unfolding get_bucket
bucket-lt key depth = hash_bucket-lt _ (depth - 1)

-- The entry is 0 or a leaf.
abbrev pub is_end : ℕ → Bool
is_end value = value == 0 || get_msb value == 0

-- A tree of at most `h` levels of internal nodes.
abbrev pub IsNode : ℕ → Mem → ℕ → Type 0
IsNode zero m page = ⊥
IsNode (suc h) m page =
    (i : ℕ)
    → i < branching_factor
    → is_end (child m page i) ≡ false
    → IsNode h m (clear_msb (child m page i))

-- The way of a key down from a node at this depth, one step for each level.
pub data Way (m : Mem) (key : List ℕ) : ℕ → ℕ → Parent → Type 0 where
  ends_at :
      (page depth : ℕ)
      → is_end (child m page (get_bucket key (depth + 1))) ≡ true
      → Way m key page depth
          (record { page = page; entry = get_bucket key (depth + 1); depth = depth })
  deeper :
      (page depth : ℕ) (p : Parent)
      → is_end (child m page (get_bucket key (depth + 1))) ≡ false
      → Way m key (clear_msb (child m page (get_bucket key (depth + 1)))) (depth + 1) p
      → Way m key page depth p

pub find_from-Way :
    (h fuel : ℕ) (m : Mem) (key : List ℕ) (page depth : ℕ)
    → IsNode h m page
    → h ≤ fuel
    → (p : Parent) × (find_from fuel key m page depth ≡ some p)
      × Way m key page depth p
      × (p.depth < depth + h)
unfolding find_from
find_from-Way zero fuel m key page depth tree enough = absurd tree
find_from-Way (suc h) zero m key page depth tree enough = absurd (omega (arith, enough))
find_from-Way (suc h) (suc fuel) m key page depth tree enough =
    let i = get_bucket key (depth + 1) in
    elim (Bool-cases (is_end (child m page i))) [
      | inl e ↦ (
        record { page = page; entry = i; depth = depth },
        rw e,
        ends_at page depth e,
        omega arith,
      )
      | inr e ↦
          let (p, run, way, low) =
            find_from-Way h fuel m key (clear_msb (child m page i)) (depth + 1)
              (tree i (bucket-lt key (depth + 1)) e) (omega (arith, enough)) in
          (p, rw e run, deeper page depth p e way, omega (arith, low))
    ]

pub Way-end :
    (m : Mem) (key : List ℕ) (page depth : ℕ) (p : Parent)
    → Way m key page depth p
    → (is_end (child m p.page p.entry) ≡ true) × (p.entry ≡ get_bucket key (p.depth + 1))
Way-end m key page depth p (ends_at _ _ e) = (e, refl)
Way-end m key page depth p (deeper _ _ _ e way) =
    Way-end m key (clear_msb (child m page (get_bucket key (depth + 1)))) (depth + 1) p way

pub Way-depth :
    (m : Mem) (key : List ℕ) (page depth : ℕ) (p : Parent)
    → Way m key page depth p
    → depth ≤ p.depth
Way-depth m key page depth p (ends_at _ _ e) = omega arith
Way-depth m key page depth p (deeper _ _ _ e way) = omega (
  arith,
  Way-depth m key (clear_msb (child m page (get_bucket key (depth + 1)))) (depth + 1) p way,
)

-- What `find_parent` returns is where the way of the key ends.
pub find_from_sound :
    (fuel : ℕ) (m : Mem) (key : List ℕ) (page depth : ℕ) (p : Parent)
    → find_from fuel key m page depth ≡ some p
    → Way m key page depth p × (p.depth < depth + fuel)
unfolding find_from
find_from_sound zero m key page depth p h = absurd (none≢some h)
find_from_sound (suc fuel) m key page depth p h =
    let i = get_bucket key (depth + 1) in
    elim (Bool-cases (is_end (child m page i))) [
      | inl e ↦
          let here : record { page = page; entry = i; depth = depth } ≡ p =
            some-injective (sym (rw e) ∙ h) in
          subst (λ p. Way m key page depth p × (p.depth < depth + suc fuel)) here
            (ends_at page depth e, omega arith)
      | inr e ↦
          let later : find_from fuel key m (clear_msb (child m page i)) (depth + 1) ≡ some p =
            sym (rw e) ∙ h in
          let (way, low) =
            find_from_sound fuel m key (clear_msb (child m page i)) (depth + 1) p later in
          (deeper page depth p e way, omega (arith, low))
    ]

-- On a tree of at most `h` levels of internal nodes from the root down, and with at least that much
-- fuel, `find_parent` returns a node: the one where the key's way down from the root ends, step by step
-- through the bucket of the key at each depth. It is less than `h` levels deep, and its entry for the key
-- is 0 or a leaf.
pub find_parent-Way :
    (h fuel : ℕ) (m : Mem) (key : List ℕ)
    → IsNode h m root_page
    → h ≤ fuel
    → (p : Parent) × (find_parent fuel key m ≡ some p)
      × Way m key root_page 0 p
      × (p.depth < h)
      × (is_end (child m p.page p.entry) ≡ true)
unfolding find_parent
find_parent-Way h fuel m key tree enough =
    let (p, run, way, low) = find_from-Way h fuel m key root_page 0 tree enough in
    (p, run, way, omega (arith, low), (Way-end m key root_page 0 p way).0)
