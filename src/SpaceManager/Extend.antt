-- ===== src/SpaceManager/Extend.antt =====
-- `SpaceManager::free` where the last FPL page of order 0 is full; and
-- `SpaceManager::allocate` where no region is free.
use diskmap_cpp.Common.{
  shift_int-one, ℕ, ◌+◌, ◌%◌, ◌^◌, ◌≤◌, ◌<◌, ◌≡◌, ◌≢◌, refl, ◌∙◌, false, some, ltb, arith, List, [],
  ◌∷◌, All, All-map, All-zip,
}
use diskmap_cpp.Checksum.{u64_mod}
use diskmap_cpp.Memory.{Mem, page_size}
use diskmap_cpp.Page.{
  address, read_field, write_field, clear, meta_page, last_fpl_page, last_fpl_page_entries,
  previous, next, entries, fpl_page_capacity, next_free_page,
}
use diskmap_cpp.Page.Laws.{
  Apart, read_field-write_field, read_field-write_other, read_field-clear, read_field-cleared,
}
use diskmap_cpp.SpaceManager.{link_page, free_full, free, allocate, allocate_new}
use diskmap_cpp.SpaceManager.Chain.{SamePage, Chain-frame, Chain-same, Chain-empty}
use diskmap_cpp.SpaceManager.Allocate.{Spares, IsFplPage, Frees}
use diskmap_cpp.SpaceManager.Free.{SamePage-write, IsRegion, IsNext, free-unreserved}

link_page-other :
    (m : Mem) (page fpl n p offset : ℕ)
    → offset + n ≤ page_size
    → p ≢ page
    → Apart (address p offset) n (address fpl next) 8
    → read_field n (link_page fpl page m) p offset ≡ read_field n m p offset
unfolding link_page
link_page-other m page fpl n p offset fits ne apart =
    let m1 = clear page m in
    let m2 = write_field 8 page previous fpl m1 in
    read_field-write_other n p offset 8 fpl next page m2 apart
    ∙ read_field-write_other n p offset 8 page previous fpl m1 (ground arith)
    ∙ read_field-clear n p offset page m (ground arith)

link_page-IsNext :
    (m : Mem) (page : ℕ) (xs : List ℕ) (s : Frees m 0 xs)
    → IsRegion 0 page (s.fpl ∷ s.below)
    → All (Spares 0 page) xs
    → IsNext (link_page s.fpl page m) 0 s.fpl page s.below xs
unfolding link_page
link_page-IsNext m page xs s h spares =
    let m1 = clear page m in
    let m2 = write_field 8 page previous s.fpl m1 in
    let apart : s.fpl ≢ page = ground (arith, h.spares.0) in
    record {
      follows = read_field-write_field 8 s.fpl next page m2 (omega (arith, h.signed));
      back =
          read_field-write_other 8 page previous 8 s.fpl next page m2 (ground arith)
          ∙ read_field-write_field 8 page previous s.fpl m1 s.last_page.1;
      is_page = (omega (arith, h.above), omega (arith, h.signed), spares);
      fresh =
          All-map (λ q. Spares 0 q page) (λ q. q ≢ page) (s.fpl ∷ s.below) (λ q ne. ground arith)
            h.spares;
    }

-- At order 0 with a full last page and none after it, the freed page becomes an FPL page.
link_page-Frees :
    (m : Mem) (page : ℕ) (xs : List ℕ) (s : Frees m 0 xs)
    → IsRegion 0 page (s.fpl ∷ s.below)
    → All (Spares 0 page) xs
    → (s' : Frees (link_page s.fpl page m) 0 xs) × IsNext
        (link_page s.fpl page m)
        0
        s'.fpl
        page
        s'.below
        xs
link_page-Frees m page xs s h spares =
    let m' = link_page s.fpl page m in
    let other = link_page-other m page s.fpl in
    let apart : s.fpl ≢ page = ground (arith, h.spares.0) in
    (
      record {
        fpl = s.fpl;
        below = s.below;
        count = s.count;
        list = record {
          last =
              other 8 meta_page (last_fpl_page 0) (omega arith) (ground (arith, h.above))
                (ground (arith, s.last_page.0))
              ∙ s.list.last;
          filled =
              other 4 meta_page (last_fpl_page_entries 0) (omega arith) (ground (arith, h.above))
                (ground (arith, s.last_page.0))
              ∙ s.list.filled;
          chain =
              Chain-frame m m' s.room (other 8 s.fpl previous (omega arith) apart (ground arith))
                (λ i lt. other 8 s.fpl (entries i) (omega (arith, s.room)) apart (ground arith))
                (All-map (λ q. (q ≢ s.fpl) × Spares 0 q page) (SamePage m m') s.below
                  (λ q ne at fits. other 8 q at fits (ground (arith, ne.1)) (ground (arith, ne.0)))
                  (All-zip (λ q. q ≢ s.fpl) (λ q. Spares 0 q page) s.below s.distinct.0 h.spares.1))
                s.list.chain;
          settled =
              λ z. other 8 s.fpl previous (omega arith) apart (ground arith) ∙ s.list.settled z;
        };
        room = s.room;
        last_page = s.last_page;
        pages = s.pages;
        distinct = s.distinct;
        positive = s.positive;
      },
      link_page-IsNext m page xs s h spares,
    )

-- Behind its pointer to the page before it, the new FPL page is empty.
link_page-empty :
    (m : Mem) (page fpl offset : ℕ)
    → fpl ≢ page
    → 8 ≤ offset
    → offset + 8 ≤ page_size
    → read_field 8 (link_page fpl page m) page offset ≡ 0
unfolding link_page
link_page-empty m page fpl offset apart low fits =
    let m1 = clear page m in
    read_field-write_other 8 page offset 8 fpl next page (write_field 8 page previous fpl m1)
      (ground (arith, apart, fits))
    ∙ read_field-write_other 8 page offset 8 page previous fpl m1 (ground (arith, low))
    ∙ read_field-cleared 8 page offset m fits

free_full-link :
    (m : Mem) (page fpl : ℕ)
    → read_field 8 m meta_page (last_fpl_page 0) ≡ fpl
    → read_field 8 m fpl next ≡ 0
    → free_full page 0 m ≡ some (link_page fpl page m)
unfolding free_full
free_full-link m page fpl last follows = rw (last, follows)

-- Freeing a single page, that is not reserved and overlaps no free page and no FPL page, where the
-- last FPL page of order 0 is full and has none after it, keeps the free pages of order 0 as they are
-- and makes the page the FPL page after the last one; all its fields but the pointer back are 0.
pub free-links :
    (m : Mem) (page : ℕ) (xs : List ℕ) (s : Frees m 0 xs)
    → s.count ≡ fpl_page_capacity
    → read_field 8 m s.fpl next ≡ 0
    → IsRegion 0 page (s.fpl ∷ s.below)
    → All (Spares 0 page) xs
    → (m' : Mem) × (free page 0 m ≡ some m')
      × ((s' : Frees m' 0 xs) × IsNext m' 0 s'.fpl page s'.below xs)
      × ((offset : ℕ) → 8 ≤ offset → offset + 8 ≤ page_size → read_field 8 m' page offset ≡ 0)
free-links m page xs s full follows h spares =
    let m' = link_page s.fpl page m in
    let test : ltb s.count fpl_page_capacity ≡ false = ground arith in
    (
      m',
      free-unreserved page 0 m h.above h.signed
          ∙ rw (s.list.filled, test, free_full-link m page s.fpl s.list.last follows),
      link_page-Frees m page xs s h spares,
      λ offset low fits. link_page-empty m page s.fpl offset (ground (arith, h.spares.0)) low fits,
    )

-- Where no region of an order below 31 is free and the page numbers do not overflow, `allocate`
-- returns the first page behind the end of the file and moves the end up by `2 ^ order` pages;
-- still no region of the order is free.
pub allocate-end :
    (m : Mem) (order : ℕ)
    → order < 31
    → Frees m order []
    → read_field 8 m meta_page next_free_page + 2 ^ order < u64_mod
    → (m' : Mem) × (allocate order m ≡ some (read_field 8 m meta_page next_free_page, m'))
      × (read_field 8 m' meta_page next_free_page
          ≡ read_field 8 m meta_page next_free_page + 2 ^ order)
      × Frees m' order []
unfolding allocate allocate_new
allocate-end m order small s fits =
    let none_left : s.count ≡ 0 = Chain-empty s.list.chain s.room refl s.list.settled in
    let after = read_field 8 m meta_page next_free_page + 2 ^ order in
    let m' = write_field 8 meta_page next_free_page after m in
    let e : after % u64_mod ≡ after = omega arith in
    let keep : (p : ℕ) → IsFplPage order [] p → SamePage m m' p = λ p is.
      SamePage-write 8 meta_page next_free_page after p m (omega arith) (ground (arith, is.0)) in
    (
      m',
      rw (s.list.filled, none_left, shift_int-one order small, e),
      read_field-write_field 8 meta_page next_free_page after m fits,
      (record {
        fpl = s.fpl;
        below = s.below;
        count = s.count;
        list = record {
          last =
              read_field-write_other 8 meta_page (last_fpl_page order) 8 meta_page next_free_page
                after m (ground arith)
              ∙ s.list.last;
          filled =
              read_field-write_other 4 meta_page (last_fpl_page_entries order) 8 meta_page
                next_free_page after m (ground arith)
              ∙ s.list.filled;
          chain =
              Chain-same m m' s.room (keep s.fpl s.last_page)
                (All-map (IsFplPage order []) (SamePage m m') s.below keep s.pages) s.list.chain;
          settled = λ z. keep s.fpl s.last_page previous (omega arith) ∙ s.list.settled z;
        };
        room = s.room;
        last_page = s.last_page;
        pages = s.pages;
        distinct = s.distinct;
        positive = tt;
      }),
    )
