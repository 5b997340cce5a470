-- ===== src/SpaceManager/Free.antt =====
-- `SpaceManager::free` pushes a region on the stack of free regions of its order.
use diskmap_cpp.Common.{
  ℕ, suc, ◌+◌, ◌%◌, ◌^◌, ◌≤◌, ◌<◌, ◌≡◌, ◌≢◌, subst, ◌∙◌, ◌⊎◌, inl, inr, true, false, some, ◌==◌,
  ltb, if◌then◌else◌, arith, List, [], ◌∷◌, All, All-map,
}
use diskmap_cpp.Checksum.{u64_mod}
use diskmap_cpp.LogRecord.{u32_mod}
use diskmap_cpp.Memory.{Mem, page_size}
use diskmap_cpp.Page.{
  read_field, write_field, meta_page, last_fpl_page, last_fpl_page_entries, previous, next, entries,
  max_order, fpl_page_capacity,
}
use diskmap_cpp.Page.Laws.{read_field-write_field, read_field-write_other}
use diskmap_cpp.SpaceManager.{
  is_reserved, reserved_pages, start_fpl, free_full, free_room, free, allocate,
}
use diskmap_cpp.SpaceManager.Chain.{Chain, SamePage, Chain-frame, Chain-same, push, link}
use diskmap_cpp.SpaceManager.Allocate.{Spares, IsFplPage, Distinct, Frees, allocate-Frees}

-- A write to another page leaves a page as it is.
pub SamePage-write :
    (n q offset value p : ℕ) (m : Mem)
    → offset + n ≤ page_size
    → p ≢ q
    → SamePage m (write_field n q offset value m) p
SamePage-write n q offset value p m fits ne at at_fits =
    read_field-write_other 8 p at n q offset value m (ground arith)

-- The entry after the last one extends the stack.
Chain-store :
    (m : Mem) (f count page : ℕ) (below xs : List ℕ)
    → count < fpl_page_capacity
    → page < u64_mod
    → All (λ q. q ≢ f) below
    → Chain m f below count xs
    → Chain (write_field 8 f (entries count) page m) f below (suc count) (page ∷ xs)
Chain-store m f count page below xs room fits distinct c =
    let m' = write_field 8 f (entries count) page m in
    push (read_field-write_field 8 f (entries count) page m fits) (
      Chain-frame m m' (omega arith)
        (read_field-write_other 8 f previous 8 f (entries count) page m (ground arith))
        (λ i lt. read_field-write_other 8 f (entries i) 8 f (entries count) page m (ground arith))
        (All-map (λ q. q ≢ f) (SamePage m m') below
          (λ q ne. SamePage-write 8 f (entries count) page q m (omega arith) ne) distinct)
        c)

-- What may be freed: a region that is no reserved page and meets no FPL page.
pub record IsRegion (order page : ℕ) (pages : List ℕ) : Type 0 where
  pub above : reserved_pages ≤ page
  pub signed : page < 2 ^ 63
  pub spares : All (λ p. Spares order p page) pages

more :
    (order page : ℕ) (xs ps : List ℕ)
    → All (IsFplPage order xs) ps
    → All (λ p. Spares order p page) ps
    → All (IsFplPage order (page ∷ xs)) ps
more order page xs [] h spares = tt
more order page xs (p ∷ ps) h spares =
    ((h.0.0, h.0.1, (spares.0, h.0.2)), more order page xs ps h.1 spares.1)

-- Once the entry is stored, the meta page is written: the last FPL page and its number of entries.
stored-Frees :
    (m m' : Mem) (order f count page : ℕ) (below xs : List ℕ)
    → count < fpl_page_capacity
    → Chain m f below count xs
    → ((p : ℕ) → 0 < p → SamePage (write_field 8 f (entries count) page m) m' p)
    → read_field 8 m' meta_page (last_fpl_page order) ≡ f
    → read_field 4 m' meta_page (last_fpl_page_entries order) ≡ suc count
    → All (IsFplPage order xs) (f ∷ below)
    → Distinct (f ∷ below)
    → All (λ x. 0 < x) xs
    → IsRegion order page (f ∷ below)
    → Frees m' order (page ∷ xs)
stored-Frees m m' order f count page below xs room c same last filled pages distinct positive h =
    let m1 = write_field 8 f (entries count) page m in
    let pages' = more order page xs (f ∷ below) pages h.spares in
    record {
      fpl = f;
      below = below;
      count = suc count;
      list = record {
        last = last;
        filled = filled;
        chain =
            Chain-same m1 m' (omega arith) (same f pages.0.0)
              (All-map (IsFplPage order xs) (SamePage m1 m') below (λ p is. same p is.0) pages.1)
              (Chain-store m f count page below xs room (omega (arith, h.signed)) distinct.0 c);
        settled = λ z. absurd (omega arith);
      };
      room = omega arith;
      last_page = pages'.0;
      pages = pages'.1;
      distinct = distinct;
      positive = (omega (arith, h.above), positive);
    }

free_room-Frees :
    (m : Mem) (order page : ℕ) (xs : List ℕ) (s : Frees m order xs)
    → order ≤ max_order
    → s.count < fpl_page_capacity
    → IsRegion order page (s.fpl ∷ s.below)
    → Frees (free_room page order s.count m) order (page ∷ xs)
unfolding free_room
free_room-Frees m order page xs s small room h =
    let m1 = write_field 8 s.fpl (entries s.count) page m in
    let m2 = write_field 4 meta_page (last_fpl_page_entries order) (suc s.count) m1 in
    let e : (s.count + 1) % u32_mod ≡ suc s.count = omega arith in
    rw (s.list.last, e)
      (stored-Frees m m2 order s.fpl s.count page s.below xs room s.list.chain
        (λ p is.
          SamePage-write 4 meta_page (last_fpl_page_entries order) (suc s.count) p m1 (omega arith)
            (ground arith))
        (read_field-write_other 8 meta_page (last_fpl_page order) 4 meta_page
            (last_fpl_page_entries order) (suc s.count) m1 (ground arith)
          ∙ read_field-write_other 8 meta_page (last_fpl_page order) 8 s.fpl (entries s.count) page
              m (ground (arith, s.last_page.0))
          ∙ s.list.last)
        (read_field-write_field 4 meta_page (last_fpl_page_entries order) (suc s.count) m1
          (omega arith))
        (s.last_page, s.pages) s.distinct s.positive h)

-- The FPL page after the last one: it is empty and linked back.
pub record IsNext (m : Mem) (order fpl f : ℕ) (below xs : List ℕ) : Type 0 where
  pub follows : read_field 8 m fpl next ≡ f
  pub back : read_field 8 m f previous ≡ fpl
  pub is_page : IsFplPage order xs f
  pub fresh : All (λ p. p ≢ f) (fpl ∷ below)

start_fpl-Frees :
    (m : Mem) (order f page : ℕ) (xs : List ℕ) (s : Frees m order xs)
    → order ≤ max_order
    → s.count ≡ fpl_page_capacity
    → IsNext m order s.fpl f s.below xs
    → IsRegion order page (f ∷ s.fpl ∷ s.below)
    → Frees (start_fpl order f page m) order (page ∷ xs)
unfolding start_fpl
start_fpl-Frees m order f page xs s small full n h =
    let m1 = write_field 8 f (entries 0) page m in
    let m2 = write_field 8 meta_page (last_fpl_page order) f m1 in
    let m3 = write_field 4 meta_page (last_fpl_page_entries order) 1 m2 in
    stored-Frees m m3 order f 0 page (s.fpl ∷ s.below) xs (omega arith)
      (link n.back (λ z. absurd (omega (arith, s.last_page.0)))
        (subst (λ k. Chain m s.fpl s.below k xs) full s.list.chain))
      (λ p is at fits.
        SamePage-write 4 meta_page (last_fpl_page_entries order) 1 p m2 (omega arith) (ground arith)
          at fits
        ∙ SamePage-write 8 meta_page (last_fpl_page order) f p m1 (omega arith) (ground arith) at
            fits)
      (read_field-write_other 8 meta_page (last_fpl_page order) 4 meta_page
          (last_fpl_page_entries order) 1 m2 (ground arith)
        ∙ read_field-write_field 8 meta_page (last_fpl_page order) f m1 n.is_page.1)
      (read_field-write_field 4 meta_page (last_fpl_page_entries order) 1 m2 (omega arith))
      (n.is_page, (s.last_page, s.pages)) (n.fresh, s.distinct) s.positive h

free_full-start :
    (m : Mem) (order page fpl f : ℕ)
    → read_field 8 m meta_page (last_fpl_page order) ≡ fpl
    → read_field 8 m fpl next ≡ f
    → 0 < f
    → free_full page order m ≡ some (start_fpl order f page m)
unfolding free_full
free_full-start m order page fpl f last follows h =
    let e : (f == 0) ≡ false = ground arith in rw (last, follows, e)

-- Where the region goes: to the last FPL page, or to the empty one after it.
abbrev pub HasSlot : (m : Mem) (order page : ℕ) (xs : List ℕ) → Frees m order xs → Type 0
HasSlot m order page xs s =
    ((s.count < fpl_page_capacity) × IsRegion order page (s.fpl ∷ s.below))
    ⊎ ((s.count ≡ fpl_page_capacity)
        × ((f : ℕ) × IsNext m order s.fpl f s.below xs × IsRegion order page (f ∷ s.fpl ∷ s.below)))

pub free-unreserved :
    (page order : ℕ) (m : Mem)
    → reserved_pages ≤ page
    → page < 2 ^ 63
    → free page order m ≡ (
        if ltb (read_field 4 m meta_page (last_fpl_page_entries order)) fpl_page_capacity
        then some (free_room page order (read_field 4 m meta_page (last_fpl_page_entries order)) m)
        else free_full page order m)
unfolding free is_reserved
free-unreserved page order m above signed = let e : is_reserved page ≡ false = ground arith in rw e

-- Freeing a region of an order below 31 that is not reserved and overlaps no FPL page of its order,
-- where the last FPL page has room or is full and an empty one follows it, succeeds and makes the
-- region the first of the free ones; `allocate` of that order then hands it out and leaves those
-- that were free before.
pub free-Frees :
    (m : Mem) (order page : ℕ) (xs : List ℕ) (s : Frees m order xs)
    → order < 31
    → HasSlot m order page xs s
    → (m' : Mem) × (free page order m ≡ some m')
      × Frees m' order (page ∷ xs)
      × ((m'' : Mem) × (allocate order m' ≡ some (page, m'')) × Frees m'' order xs)
free-Frees m order page xs s small (inl (room, h)) =
    let m' = free_room page order s.count m in
    let frees = free_room-Frees m order page xs s (omega (arith, small)) room h in
    let test : ltb s.count fpl_page_capacity ≡ true = ground arith in
    let back = allocate-Frees m' order page xs small frees in
    (m', free-unreserved page order m h.above h.signed ∙ rw (s.list.filled, test), frees, back)
free-Frees m order page xs s small (inr (full, (f, n, h))) =
    let m' = start_fpl order f page m in
    let frees = start_fpl-Frees m order f page xs s (omega (arith, small)) full n h in
    let test : ltb s.count fpl_page_capacity ≡ false = ground arith in
    let back = allocate-Frees m' order page xs small frees in
    (
      m',
      free-unreserved page order m h.above h.signed
          ∙ rw (
            s.list.filled,
            test,
            free_full-start m order page s.fpl f s.list.last n.follows n.is_page.0,
          ),
      frees,
      back,
    )
