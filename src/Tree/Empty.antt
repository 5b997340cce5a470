-- ===== src/Tree/Empty.antt =====
-- A read of a key whose bucket is empty searches page 0, the meta page, from its byte 18 on: the third byte
-- of `next_free_page`. Here the key has one byte.
use diskmap_cpp.Common.{
  ℕ, zero, suc, ◌+◌, ◌*◌, ◌/◌, ◌^◌, ◌≤◌, ◌<◌, ◌≡◌, refl, sym, ◌∙◌, ap, true, inl, inr, none, some,
  List, [], ◌∷◌, ◌==◌, leb, if◌then◌else◌, Bool-cases, drop, take, length, append-nil, arith,
}
use diskmap_cpp.Memory.{Mem, fetch}
use diskmap_cpp.Memory.Laws.{length-fetch}
use diskmap_cpp.Bytes.{IsByte, of_le}
use diskmap_cpp.Page.{read_field, meta_page, next_free_page, last_fpl_page}
use diskmap_cpp.Bucket.{get_msb, clear_msb}
use diskmap_cpp.Leaf.{
  LeafPage, found, missing, read_u64, entry_span, key_at, find_loop, find_entry_in_leaf,
}
use diskmap_cpp.Leaf.Format.{strlen-key}
use diskmap_cpp.Leaf.Find.{str_eq, key_at-key, find_step, find_hit}
use diskmap_cpp.BigValue.Read.{take_front}
use diskmap_cpp.Tree.{Parent, child, leaf_at, value_at, find_value, find_parent, read_value_length}

fetch-suc : (m : Mem) (a n : ℕ) → fetch m a (suc n) ≡ m a ∷ fetch m (suc a) n
unfolding fetch
fetch-suc m a n = refl

read_u64-fetch : (m : Mem) (a n : ℕ) → read_u64 (fetch m a (8 + n)) ≡ some (of_le (fetch m a 8))
unfolding read_u64
read_u64-fetch m a n =
    let long : leb 8 (length (fetch m a (8 + n))) ≡ true =
      ground (arith, length-fetch m a (8 + n)) in
    let front : take 8 (fetch m a (8 + n)) ≡ fetch m a 8 =
      ap (take 8) (sym (append-nil (fetch m a (8 + n)))) ∙ take_front m a 8 n [] in
    rw (long, front)

drop_past : (n : ℕ) (bs : List ℕ) → length bs ≤ n → drop n bs ≡ []
drop_past zero [] h = refl
drop_past zero (b ∷ bs) h = absurd (omega (arith, h))
drop_past (suc n) [] h = refl
drop_past (suc n) (b ∷ bs) h = drop_past n bs (omega (arith, h))

module _ (m : Mem) (bytes : (a : ℕ) → IsByte (m a))
    (pages : read_field 8 m meta_page next_free_page < 2 ^ 24) where
  third_byte : m 18 ≡ read_field 8 m meta_page next_free_page / 2 ^ 16
  unfolding read_field fetch of_le
  third_byte = omega (arith, pages, bytes 16, bytes 17, bytes 18)

  fourth_byte : m 19 ≡ 0
  unfolding read_field fetch of_le
  fourth_byte = omega (arith, pages)

  length_read :
      read_field 8 m meta_page (last_fpl_page 0) < 2 ^ 32
      → of_le (fetch m 20 8) ≡ 2 ^ 32 * read_field 8 m meta_page (last_fpl_page 0)
  unfolding read_field fetch of_le
  length_read low = omega (arith, pages, low)

find_nothing : (cs key : List ℕ) (b : ℕ) → b ≡ 0 → find_entry_in_leaf (b ∷ cs) key ≡ missing
unfolding find_entry_in_leaf find_loop
find_nothing cs key b h = let e : (b == 0) ≡ true = ground (arith, h) in rw e

find_past : (fuel offset : ℕ) (key : List ℕ) → find_loop (suc fuel) [] offset key ≡ missing
unfolding find_loop
find_past fuel offset key = refl

-- A data section that begins with a byte, a NUL, and a value length that leads out of the page.
module _ (b k size : ℕ) (rest : List ℕ) (positive : 0 < k) (value : read_u64 rest ≡ some size)
    (large : length rest ≤ size) where
  is_key : 0 < b → key_at (b ∷ 0 ∷ rest) (k ∷ []) ≡ (b == k)
  unfolding str_eq
  is_key h =
      key_at-key (b ∷ []) (k ∷ []) rest (h, tt) (positive, tt)
      ∙ elim (Bool-cases (b == k)) [ inl e ↦ rw e | inr e ↦ rw e ]

  span : 0 < b → entry_span (b ∷ 0 ∷ rest) ≡ some (1 + 1 + (8 + size))
  unfolding entry_span
  span h = rw (strlen-key (b ∷ []) rest (h, tt), value)

  search : find_entry_in_leaf (b ∷ 0 ∷ rest) (k ∷ []) ≡ (if b == k then found 0 else missing)
  unfolding find_entry_in_leaf
  search = elim (Bool-cases (b == k)) [
    | inl e ↦
        let h : 0 < b = ground (arith, e, positive) in
        rw e (find_hit _ (b ∷ 0 ∷ rest) 0 (k ∷ []) h (is_key h ∙ e))
    | inr e ↦ elim (Bool-cases (b == 0)) [
      | inl z ↦ rw e (find_nothing (0 ∷ rest) (k ∷ []) b (ground (arith, z)))
      | inr z ↦
          let h : 0 < b = ground (arith, z) in
          rw e (
            find_step _ (b ∷ 0 ∷ rest) 0 _ (k ∷ []) [] h (is_key h ∙ e) (span h)
              (drop_past (1 + 1 + (8 + size)) (b ∷ 0 ∷ rest) (omega (arith, large)))
            ∙ find_past _ _ (k ∷ []))
    ]
  ]

search_leaf :
    (leaf : LeafPage) (b k size : ℕ) (rest : List ℕ)
    → 0 < k
    → read_u64 rest ≡ some size
    → length rest ≤ size
    → leaf.contents ≡ b ∷ 0 ∷ rest
    → find_value (k ∷ []) leaf ≡ some (if b == k then some (2 + 8, size) else none)
unfolding find_value value_at
search_leaf leaf b k size rest positive value large e =
    let hit =
      ap (λ c. find_entry_in_leaf c (k ∷ [])) e ∙ search b k size rest positive value large in
    let at : read_u64 (drop 2 leaf.contents) ≡ some size =
      ap (λ c. read_u64 (drop 2 c)) e ∙ value in
    elim (Bool-cases (b == k)) [
      | inl t ↦ rw (find_value, hit, t, at)
      | inr t ↦ rw (find_value, hit, t)
    ]

meta_contents : (m : Mem) → m 19 ≡ 0 → (leaf_at m 0).contents ≡ m 18 ∷ 0 ∷ fetch m 20 4076
unfolding leaf_at
meta_contents m h =
    fetch-suc m 18 4077
    ∙ ap (λ bs. m 18 ∷ bs) (fetch-suc m 19 4076 ∙ ap (λ z. z ∷ fetch m 20 4076) h)

-- Where the bucket of a key of one byte is empty, on a file of bytes with fewer than 2 ^ 24 pages taken,
-- `read_value_length` searches the meta page: it reports the key as missing unless its byte is the number
-- of these pages without the lower 16 bits. Then it reports a value whose length is the page number of the
-- last FPL page of order 0, which is not 0 and below 2 ^ 32, times 2 ^ 32.
pub read_value_length-meta_page :
    (fuel : ℕ) (m : Mem) (k : ℕ) (p : Parent)
    → find_parent fuel (k ∷ []) m ≡ some p
    → child m p.page p.entry ≡ 0
    → 0 < k
    → ((a : ℕ) → IsByte (m a))
    → read_field 8 m meta_page next_free_page < 2 ^ 24
    → 0 < read_field 8 m meta_page (last_fpl_page 0)
    → read_field 8 m meta_page (last_fpl_page 0) < 2 ^ 32
    → read_value_length fuel (k ∷ []) m
      ≡ some (
          if read_field 8 m meta_page next_free_page / 2 ^ 16 == k
          then some (2 ^ 32 * read_field 8 m meta_page (last_fpl_page 0))
          else none)
unfolding read_value_length
read_value_length-meta_page fuel m k p run absent positive bytes pages some_page low =
    let low_value = read_field 8 m meta_page (last_fpl_page 0) in
    let first : clear_msb (child m p.page p.entry) ≡ 0 =
      ap clear_msb absent ∙ (unfold clear_msb in refl) in
    let leaf : get_msb (child m p.page p.entry) ≡ 0 =
      ap get_msb absent ∙ (unfold get_msb in refl) in
    let byte = sym (third_byte m bytes pages) in
    let looked =
      search_leaf (leaf_at m 0) (m 18) k (2 ^ 32 * low_value) (fetch m 20 4076) positive
        (read_u64-fetch m 20 4068 ∙ ap some (length_read m bytes pages low))
        (omega (arith, length-fetch m 20 4076, some_page))
        (meta_contents m (fourth_byte m bytes pages)) in
    elim (Bool-cases (m 18 == k)) [
      | inl t ↦ rw (run, leaf, first, looked, byte, t)
      | inr t ↦ rw (run, leaf, first, looked, byte, t)
    ]
