-- ===== src/SpaceManager/Allocate.antt =====
-- `SpaceManager::allocate` pops the stack of free regions of its order.
use diskmap_cpp.Common.{
  ℕ, suc, ◌+◌, ◌-◌, ◌^◌, ◌≤◌, ◌<◌, ◌≡◌, ◌≢◌, refl, subst, ◌∙◌, ◌⊎◌, inl, Bool, true, false, not,
  ◌&&◌, ◌==◌, arith, some, shift_int-one, List, [], ◌∷◌, All, All-map,
}
use diskmap_cpp.Checksum.{u64_mod}
use diskmap_cpp.Memory.{Mem}
use diskmap_cpp.Page.{
  read_field, meta_page, last_fpl_page, last_fpl_page_entries, previous, entries, max_order,
  fpl_page_capacity,
}
use diskmap_cpp.SpaceManager.{clear_region, drop_entry, allocate_freed, allocate}
use diskmap_cpp.SpaceManager.Chain.{
  Chain, FreeList, SamePage, Chain-same, Chain-previous, Chain-count, Chain-newest,
}
use diskmap_cpp.SpaceManager.Writes.{
  read_field-clear_region, dropped, dropped-page, dropped-filled, dropped-last,
}

-- The region of `2 ^ order` pages from `x` spares the page `p`.
abbrev pub Spares : ℕ → ℕ → ℕ → Type 0
Spares order p x = (p < x) ⊎ (x + 2 ^ order ≤ p)

-- An FPL page is not the meta page, its number fits a field, and no free region covers it.
abbrev pub IsFplPage : ℕ → List ℕ → ℕ → Type 0
IsFplPage order xs p = (0 < p) × (p < u64_mod) × All (Spares order p) xs

-- No page twice.
abbrev pub Distinct : List ℕ → Type 0
Distinct [] = Unit
Distinct (p ∷ ps) = All (λ q. q ≢ p) ps × Distinct ps

-- The free regions of one order.
pub record Frees (m : Mem) (order : ℕ) (xs : List ℕ) : Type 0 where
  pub fpl : ℕ
  pub below : List ℕ
  pub count : ℕ
  pub list : FreeList m order fpl below count xs
  pub room : count ≤ fpl_page_capacity
  pub last_page : IsFplPage order xs fpl
  pub pages : All (IsFplPage order xs) below
  pub distinct : Distinct (fpl ∷ below)
  pub positive : All (λ x. 0 < x) xs

fewer : (order x : ℕ) (xs : List ℕ) (p : ℕ) → IsFplPage order (x ∷ xs) p → IsFplPage order xs p
fewer order x xs p h = (h.0, h.1, h.2.1)

-- Clearing the region and dropping its entry keeps the FPL pages.
popped-page :
    (moves : Bool) (order before count x : ℕ) (xs : List ℕ) (m : Mem)
    → order ≤ max_order
    → (p : ℕ) → IsFplPage order (x ∷ xs) p
    → SamePage m (dropped moves order before count (clear_region x (2 ^ order) m)) p
popped-page moves order before count x xs m small p h offset fits =
    dropped-page moves order before count p offset (clear_region x (2 ^ order) m) small h.0 fits
    ∙ read_field-clear_region 8 p offset x (2 ^ order) m fits h.2.0

moved :
    (m : Mem) (order fpl before count x : ℕ) (below xs : List ℕ)
    → order ≤ max_order
    → count ≡ 0
    → before ≢ 0
    → read_field 8 m fpl previous ≡ before
    → Chain m fpl below count xs
    → All (IsFplPage order (x ∷ xs)) below
    → Distinct below
    → All (λ y. 0 < y) xs
    → Frees (dropped true order before (suc count) (clear_region x (2 ^ order) m)) order xs
moved m order fpl before count x below xs small none_left ne at c pages distinct positive =
    let m' = dropped true order before (suc count) (clear_region x (2 ^ order) m) in
    let (rest, e, c') = Chain-previous c none_left at ne in
    let h : All (IsFplPage order (x ∷ xs)) (before ∷ rest) =
      subst (λ ps. All (IsFplPage order (x ∷ xs)) ps) e pages in
    let same = popped-page true order before (suc count) x xs m small in
    record {
      fpl = before;
      below = rest;
      count = fpl_page_capacity;
      list = record {
        last =
            dropped-last true order before (suc count) (clear_region x (2 ^ order) m) small h.0.1;
        filled =
            dropped-filled true order before (suc count) (clear_region x (2 ^ order) m)
              (omega arith);
        chain =
            Chain-same m m' (omega arith) (same before h.0)
              (All-map (IsFplPage order (x ∷ xs)) (SamePage m m') rest same h.1) c';
        settled = λ z. absurd (omega arith);
      };
      room = omega arith;
      last_page = fewer order x xs before h.0;
      pages = All-map (IsFplPage order (x ∷ xs)) (IsFplPage order xs) rest (fewer order x xs) h.1;
      distinct = subst Distinct e distinct;
      positive = positive;
    }

stayed :
    (m : Mem) (order fpl count x : ℕ) (below xs : List ℕ)
    → order ≤ max_order
    → suc count ≤ fpl_page_capacity
    → read_field 8 m meta_page (last_fpl_page order) ≡ fpl
    → (count ≡ 0 → read_field 8 m fpl previous ≡ 0)
    → Chain m fpl below count xs
    → IsFplPage order (x ∷ xs) fpl
    → All (IsFplPage order (x ∷ xs)) below
    → Distinct (fpl ∷ below)
    → All (λ y. 0 < y) (x ∷ xs)
    → Frees (dropped false order 0 (suc count) (clear_region x (2 ^ order) m)) order xs
stayed m order fpl count x below xs small room at ends c page pages distinct positive =
    let m' = dropped false order 0 (suc count) (clear_region x (2 ^ order) m) in
    let same = popped-page false order 0 (suc count) x xs m small in
    record {
      fpl = fpl;
      below = below;
      count = count;
      list = record {
        last =
            dropped-last false order 0 (suc count) (clear_region x (2 ^ order) m) small
              (omega arith)
            ∙ read_field-clear_region 8 meta_page (last_fpl_page order) x (2 ^ order) m
                (omega arith) (inl positive.0)
            ∙ at;
        filled =
            dropped-filled false order 0 (suc count) (clear_region x (2 ^ order) m) room
            ∙ (omega arith);
        chain =
            Chain-same m m' (omega arith) (same fpl page)
              (All-map (IsFplPage order (x ∷ xs)) (SamePage m m') below same pages) c;
        settled = λ z. same fpl page previous (omega arith) ∙ ends z;
      };
      room = omega arith;
      last_page = fewer order x xs fpl page;
      pages =
          All-map (IsFplPage order (x ∷ xs)) (IsFplPage order xs) below (fewer order x xs) pages;
      distinct = distinct;
      positive = positive.1;
    }

allocate-dropped :
    (m : Mem) (order fpl c x before : ℕ)
    → read_field 4 m meta_page (last_fpl_page_entries order) ≡ suc c
    → read_field 8 m meta_page (last_fpl_page order) ≡ fpl
    → read_field 8 m fpl (entries c) ≡ x
    → read_field 8 (clear_region x (2 ^ order) m) fpl previous ≡ before
    → order < 31
    → allocate order m
      ≡ some (
        x,
        dropped
            ((suc c - 1 == 0) && not (before == 0))
            order
            before
            (suc c)
            (clear_region x (2 ^ order) m),
      )
unfolding allocate allocate_freed drop_entry
allocate-dropped m order fpl c x before filled last newest at small =
    let e : suc c - 1 ≡ c = omega arith in
    let some_left : (suc c == 0) ≡ false = ground arith in
    rw (filled, last, e, newest, some_left, shift_int-one order small, at)

popped :
    (m : Mem) (order fpl before c x : ℕ) (below xs : List ℕ) (moves : Bool)
    → moves ≡ ((suc c - 1 == 0) && not (before == 0))
    → order ≤ max_order
    → suc c ≤ fpl_page_capacity
    → read_field 8 m meta_page (last_fpl_page order) ≡ fpl
    → read_field 8 m fpl previous ≡ before
    → Chain m fpl below c xs
    → IsFplPage order (x ∷ xs) fpl
    → All (IsFplPage order (x ∷ xs)) below
    → Distinct (fpl ∷ below)
    → All (λ y. 0 < y) (x ∷ xs)
    → Frees (dropped moves order before (suc c) (clear_region x (2 ^ order) m)) order xs
popped m order fpl before c x below xs true h small room last at chain page pages distinct
      positive =
    moved m order fpl before c x below xs small (ground arith) (λ z. ground arith) at chain pages
      distinct.1 positive.1
popped m order fpl before c x below xs false h small room last at chain page pages distinct
      positive =
    stayed m order fpl c x below xs small room last (λ z. ground arith) chain page pages distinct
      positive

-- Where the free regions of an order below 31 are `x ∷ xs`, the newest first, `allocate` returns `x`
-- and leaves the regions `xs` free, also where an FPL page runs empty and the page before it becomes
-- the last one.
pub allocate-Frees :
    (m : Mem) (order x : ℕ) (xs : List ℕ)
    → order < 31
    → Frees m order (x ∷ xs)
    → (m' : Mem) × (allocate order m ≡ some (x, m')) × Frees m' order xs
allocate-Frees m order x xs small s =
    let (c, counted) = Chain-count s.list.chain s.list.settled in
    let (newest, rest) =
      Chain-newest (subst (λ k. Chain m s.fpl s.below k (x ∷ xs)) counted s.list.chain) in
    let before = read_field 8 m s.fpl previous in
    let e =
      allocate-dropped m order s.fpl c x before (s.list.filled ∙ counted) s.list.last newest
        (read_field-clear_region 8 s.fpl previous x (2 ^ order) m (omega arith) s.last_page.2.0)
        small in
    let moves = (suc c - 1 == 0) && not (before == 0) in
    (
      dropped moves order before (suc c) (clear_region x (2 ^ order) m),
      e,
      popped m order s.fpl before c x s.below xs moves refl (omega (arith, small)) (ground arith)
          s.list.last refl rest s.last_page s.pages s.distinct s.positive,
    )
