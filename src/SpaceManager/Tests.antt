-- ===== src/SpaceManager/Tests.antt =====
-- A data file with one free region of order 1, and one whose last FPL page of order 0 is full.
use diskmap_cpp.Common.{
  ℕ, zero, suc, ◌+◌, ◌%◌, ◌^◌, ◌≤◌, ◌<◌, ◌≡◌, refl, true, false, ◌∙◌, inl, inr, some, ◌==◌,
  if◌then◌else◌, arith, [], ◌∷◌, All, replicate,
}
use diskmap_cpp.Bytes.{le_bytes, of_le}
use diskmap_cpp.Checksum.{u64_mod}
use diskmap_cpp.Memory.{Mem, page_size, fetch, copy}
use diskmap_cpp.Page.{
  address, read_field, write_field, meta_page, next_free_page, last_fpl_page, last_fpl_page_entries,
  previous, next, entries,
}
use diskmap_cpp.Page.Laws.{read_field-write_other}
use diskmap_cpp.SpaceManager.{reserved_pages, allocate, free}
use diskmap_cpp.SpaceManager.Chain.{Chain, bottom, push}
use diskmap_cpp.SpaceManager.Allocate.{Spares, Frees, allocate-Frees}
use diskmap_cpp.SpaceManager.Free.{IsNext, free-Frees}
use diskmap_cpp.SpaceManager.Setup.{create, create-Frees}
use diskmap_cpp.SpaceManager.Extend.{free-links, allocate-end}

abbrev blank : Mem
blank a = 0

-- FPL page 3 is that of order 1 and holds page 60.
abbrev one_free : Mem
one_free = write_field 8 3 (entries 0) 60 (
    write_field 4 meta_page (last_fpl_page_entries 1) 1 (
      write_field 8 meta_page (last_fpl_page 1) 3
        (write_field 8 meta_page next_free_page 100 blank)))

one_free-Frees : Frees one_free 1 (60 ∷ [])
unfolding read_field write_field fetch copy of_le le_bytes
one_free-Frees = record {
  fpl = 3;
  below = [];
  count = 1;
  list = record {
    last = refl;
    filled = refl;
    chain = push refl (bottom refl);
    settled = λ z. absurd (omega arith);
  };
  room = omega arith;
  last_page = (omega arith, omega arith, (inl (omega arith), tt));
  pages = tt;
  distinct = (tt, tt);
  positive = (omega arith, tt);
}

allocate-Frees_example : (m' : Mem) × (allocate 1 one_free ≡ some (60, m')) × Frees m' 1 []
allocate-Frees_example = allocate-Frees one_free 1 60 [] (omega arith) one_free-Frees

free-Frees_example :
    (m' : Mem) × (free 70 1 one_free ≡ some m')
    × Frees m' 1 (70 ∷ 60 ∷ [])
    × ((m'' : Mem) × (allocate 1 m' ≡ some (70, m'')) × Frees m'' 1 (60 ∷ []))
unfolding one_free-Frees
free-Frees_example = free-Frees one_free 1 70 (60 ∷ []) one_free-Frees (omega arith) (
    inl (
      omega arith,
      record { above = omega arith; signed = omega arith; spares = (inl (omega arith), tt) },
    ))

-- FPL page 2 is that of order 0 and empty.
abbrev used_up : Mem
used_up =
    write_field 8 meta_page (last_fpl_page 0) 2 (write_field 8 meta_page next_free_page 100 blank)

used_up-Frees : Frees used_up 0 []
unfolding read_field write_field fetch copy of_le le_bytes
used_up-Frees = record {
  fpl = 2;
  below = [];
  count = 0;
  list = record { last = refl; filled = refl; chain = bottom refl; settled = λ z. refl };
  room = omega arith;
  last_page = (omega arith, omega arith, tt);
  pages = tt;
  distinct = (tt, tt);
  positive = tt;
}

used_up-fits : read_field 8 used_up meta_page next_free_page + 2 ^ 0 < u64_mod
unfolding read_field write_field fetch copy of_le le_bytes
used_up-fits = omega arith

-- Every aligned word of this memory is 60.
words : Mem
words a = if a % 8 == 0 then 60 else 0

read_word : (page offset : ℕ) → offset % 8 ≡ 0 → read_field 8 words page offset ≡ 60
unfolding read_field fetch of_le words
read_word page offset h =
    let a = address page offset in
    let e0 : (a % 8 == 0) ≡ true = ground arith in
    let e1 : (suc a % 8 == 0) ≡ false = ground arith in
    let e2 : (suc (suc a) % 8 == 0) ≡ false = ground arith in
    let e3 : (suc (suc (suc a)) % 8 == 0) ≡ false = ground arith in
    let e4 : (suc (suc (suc (suc a))) % 8 == 0) ≡ false = ground arith in
    let e5 : (suc (suc (suc (suc (suc a)))) % 8 == 0) ≡ false = ground arith in
    let e6 : (suc (suc (suc (suc (suc (suc a))))) % 8 == 0) ≡ false = ground arith in
    let e7 : (suc (suc (suc (suc (suc (suc (suc a)))))) % 8 == 0) ≡ false = ground arith in
    rw (e0, e1, e2, e3, e4, e5, e6, e7)

-- FPL page 3 is that of order 0, full, and alone.
abbrev full_page : Mem
full_page = write_field 4 meta_page (last_fpl_page_entries 0) 510 (
    write_field 8 meta_page (last_fpl_page 0) 3
      (write_field 8 3 next 0 (write_field 8 3 previous 0 words)))

filled : (offset : ℕ) → offset % 8 ≡ 0 → 16 ≤ offset → read_field 8 full_page 3 offset ≡ 60
filled offset h low =
    read_field-write_other 8 3 offset 4 meta_page (last_fpl_page_entries 0) 510 _ (ground arith)
    ∙ read_field-write_other 8 3 offset 8 meta_page (last_fpl_page 0) 3 _ (ground arith)
    ∙ read_field-write_other 8 3 offset 8 3 next 0 _ (ground arith)
    ∙ read_field-write_other 8 3 offset 8 3 previous 0 _ (ground arith)
    ∙ read_word 3 offset h

none_before : read_field 8 full_page 3 previous ≡ 0
unfolding read_field write_field fetch copy of_le le_bytes words
none_before = refl

sixties : (n : ℕ) → Chain full_page 3 [] n (replicate n 60)
sixties zero = bottom none_before
sixties (suc n) = push (filled (entries n) (omega arith) (omega arith)) (sixties n)

All-replicate : (P : ℕ → Type 0) (n x : ℕ) → P x → All P (replicate n x)
All-replicate P zero x h = tt
All-replicate P (suc n) x h = (h, All-replicate P n x h)

full_page-Frees : Frees full_page 0 (replicate 510 60)
unfolding read_field write_field fetch copy of_le le_bytes words
full_page-Frees = record {
  fpl = 3;
  below = [];
  count = 510;
  list = record { last = refl; filled = refl; chain = sixties 510; settled = λ z. none_before };
  room = omega arith;
  last_page =
      (omega arith, omega arith, All-replicate (λ x. Spares 0 3 x) 510 60 (inl (omega arith)));
  pages = tt;
  distinct = (tt, tt);
  positive = All-replicate (λ x. 0 < x) 510 60 (omega arith);
}

none_after : read_field 8 full_page 3 next ≡ 0
unfolding read_field write_field fetch copy of_le le_bytes words
none_after = refl

free-links_example :
    (m' : Mem) × (free 70 0 full_page ≡ some m')
    × ((s' : Frees m' 0 (replicate 510 60)) × IsNext m' 0 s'.fpl 70 s'.below (replicate 510 60))
    × ((offset : ℕ) → 8 ≤ offset → offset + 8 ≤ page_size → read_field 8 m' 70 offset ≡ 0)
unfolding full_page-Frees
free-links_example =
    free-links full_page 70 (replicate 510 60) full_page-Frees refl none_after
      (record { above = omega arith; signed = omega arith; spares = (inl (omega arith), tt) })
      (All-replicate (λ x. Spares 0 70 x) 510 60 (inr (omega arith)))

allocate-end_example :
    (m' : Mem) × (allocate 0 used_up ≡ some (read_field 8 used_up meta_page next_free_page, m'))
    × (read_field 8 m' meta_page next_free_page
        ≡ read_field 8 used_up meta_page next_free_page + 2 ^ 0)
    × Frees m' 0 []
allocate-end_example = allocate-end used_up 0 (omega arith) used_up-Frees used_up-fits

create-Frees_example :
    (read_field 8 (create blank) meta_page next_free_page ≡ reserved_pages)
    × ((s : Frees (create blank) 7 []) × (s.fpl ≡ 7 + 2))
create-Frees_example = create-Frees blank 7 (λ a. refl) (omega arith)
