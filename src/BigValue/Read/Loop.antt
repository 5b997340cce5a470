-- ===== src/BigValue/Read/Loop.antt =====
-- The second loop of `rw_impl`, for a read.
use diskmap_cpp.Common.{
  shift_int-one, ℕ, zero, suc, ◌+◌, ◌-◌, ◌*◌, ◌^◌, min, ◌≤◌, ◌<◌, ◌≡◌, refl, sym, ap, ◌∙◌, inl, inr,
  true, false, some, List, [], ◌++◌, ◌==◌, ltb, leb, arith, Bool-cases, take, length, append-nil,
  length-append,
}
use diskmap_cpp.Memory.{Mem, page_size, fetch}
use diskmap_cpp.Memory.Laws.{length-fetch}
use diskmap_cpp.BigValue.{
  BigValue, start_offset, next_region_start, Cursor, length_in_page, cursor_address, next_page,
  read_loop,
}
use diskmap_cpp.BigValue.Read.{
  regions_bytes, Chained, Follow, IsAt, rest_from, take_front, to_page_end, region_rest, address_at,
  paged, regioned, pow-pos, rest_split, rest_regioned, length_rest,
}

-- The last piece of the read lies in this page.
read_last :
    (fuel n : ℕ) (v : BigValue) (m : Mem) (c : Cursor) (q l : ℕ)
    → IsAt v c q
    → 0 < l
    → l ≤ to_page_end v c
    → read_loop (suc (suc fuel)) v (c.value_offset + l) m c ≡ some (take l (rest_from v m n c q))
unfolding read_loop next_page length_in_page
read_last fuel n v m c q l i some_left short =
    let go : ltb c.value_offset (c.value_offset + l) ≡ true = ground (arith, some_left) in
    let left : c.value_offset + l - c.value_offset ≡ l = omega arith in
    let whole : min l (to_page_end v c) ≡ l = omega (arith, short) in
    let inside : ltb (to_page_end v c) l ≡ false = ground (arith, short) in
    let stop : ltb (c.value_offset + l) (c.value_offset + l) ≡ false = ground arith in
    let r = region_rest v c q i in
    let split : page_size * 2 ^ c.depth - q ≡ l + (page_size * 2 ^ c.depth - q - l) =
      omega (arith, r, short) in
    let tail = regions_bytes v m n (c.depth + 1) (next_region_start c.region_start_page m) in
    let a = c.region_start_page * page_size + q in
    let want : take l (rest_from v m n c q) ≡ fetch m a l =
      ap (λ k. take l (fetch m a k ++ tail)) split
      ∙ take_front m a l (page_size * 2 ^ c.depth - q - l) tail in
    rw (go, left, whole, inside, stop, address_at v c q i)
      (ap some (append-nil (fetch m a l) ∙ sym want))

-- A round of the loop that reads to the end of the page, with another page in the region.
read_paged :
    (fuel : ℕ) (v : BigValue) (m : Mem) (c : Cursor) (end_offset : ℕ) (bs : List ℕ)
    → c.value_offset + to_page_end v c < end_offset
    → c.depth < 31
    → (c.region_offset + 1 == 2 ^ c.depth) ≡ false
    → read_loop fuel v end_offset m (paged v c) ≡ some bs
    → read_loop (suc fuel) v end_offset m c
      ≡ some (fetch m (cursor_address v c) (to_page_end v c) ++ bs)
unfolding read_loop next_page length_in_page paged
read_paged fuel v m c end_offset bs long shallow more run =
    let go : ltb c.value_offset end_offset ≡ true = ground (arith, long) in
    let whole : min (end_offset - c.value_offset) (to_page_end v c) ≡ to_page_end v c =
      omega (arith, long) in
    let beyond : ltb (to_page_end v c) (end_offset - c.value_offset) ≡ true =
      ground (arith, long) in
    rw (go, whole, beyond, shift_int-one c.depth shallow, more, run)

read_regioned :
    (fuel : ℕ) (v : BigValue) (m : Mem) (c : Cursor) (end_offset : ℕ) (bs : List ℕ)
    → c.value_offset + to_page_end v c < end_offset
    → c.depth < 31
    → (c.region_offset + 1 == 2 ^ c.depth) ≡ true
    → (next_region_start c.region_start_page m == 0) ≡ false
    → read_loop fuel v end_offset m (regioned v m c) ≡ some bs
    → read_loop (suc fuel) v end_offset m c
      ≡ some (fetch m (cursor_address v c) (to_page_end v c) ++ bs)
unfolding read_loop next_page length_in_page regioned
read_regioned fuel v m c end_offset bs long shallow last following run =
    let go : ltb c.value_offset end_offset ≡ true = ground (arith, long) in
    let whole : min (end_offset - c.value_offset) (to_page_end v c) ≡ to_page_end v c =
      omega (arith, long) in
    let beyond : ltb (to_page_end v c) (end_offset - c.value_offset) ≡ true =
      ground (arith, long) in
    rw (go, whole, beyond, shift_int-one c.depth shallow, last, following, run)

paged-IsAt :
    (v : BigValue) (c : Cursor) (q : ℕ)
    → IsAt v c q
    → (c.region_offset + 1 == 2 ^ c.depth) ≡ false
    → IsAt v (paged v c) (page_size * (c.region_offset + 1))
unfolding paged start_offset
paged-IsAt v c q i more = record {
  offset = omega arith;
  in_page = omega arith;
  in_region = ground (arith, i.in_region, more);
}

regioned-IsAt : (v : BigValue) (m : Mem) (c : Cursor) → IsAt v (regioned v m c) 8
unfolding regioned start_offset
regioned-IsAt v m c = record {
  offset = omega arith;
  in_page = omega arith;
  in_region = pow-pos (c.depth + 1);
}

read_nothing :
    (fuel : ℕ) (v : BigValue) (m : Mem) (c : Cursor)
    → read_loop (suc fuel) v (c.value_offset + 0) m c ≡ some []
unfolding read_loop
read_nothing fuel v m c =
    let stop : ltb c.value_offset (c.value_offset + 0) ≡ false = ground arith in rw stop

-- What the loop reads, with this fuel and so many regions behind the one it is in.
abbrev Reads : ℕ → ℕ → BigValue → Mem → Type 0
Reads fuel n v m =
    (c : Cursor) (q l : ℕ)
    → IsAt v c q
    → Follow m n c
    → l ≤ length (rest_from v m n c q)
    → l < fuel
    → read_loop fuel v (c.value_offset + l) m c ≡ some (take l (rest_from v m n c q))

module _ (fuel : ℕ) (v : BigValue) (m : Mem) (c : Cursor) (q l : ℕ) (i : IsAt v c q)
    (past : to_page_end v c < l) (enough : l < suc fuel) where
  left : l ≡ to_page_end v c + (l - to_page_end v c)
  left = omega (arith, past)

  beyond : c.value_offset + to_page_end v c < c.value_offset + l
  beyond = omega (arith, past)

  at_end :
      {bs : List ℕ} (c' : Cursor)
      → c'.value_offset ≡ c.value_offset + to_page_end v c
      → read_loop fuel v (c'.value_offset + (l - to_page_end v c)) m c' ≡ some bs
      → read_loop fuel v (c.value_offset + l) m c' ≡ some bs
  at_end c' h run =
      let same : c.value_offset + l ≡ c'.value_offset + (l - to_page_end v c) =
        omega (arith, past, h) in
      ap (λ z. read_loop fuel v z m c') same ∙ run

  split :
      (n : ℕ)
      → take l (rest_from v m n c q)
        ≡ fetch m (cursor_address v c) (to_page_end v c)
          ++ take (l - to_page_end v c) (
              fetch m
                (c.region_start_page * page_size + page_size * (c.region_offset + 1))
                (page_size * 2 ^ c.depth - page_size * (c.region_offset + 1))
              ++ regions_bytes v m n (c.depth + 1) (next_region_start c.region_start_page m))
  split n =
      ap (λ j. take j (rest_from v m n c q)) left ∙ rest_split v m n c q (l - to_page_end v c) _ i

  read_same_region :
      (n : ℕ)
      → Reads fuel n v m
      → Follow m n c
      → l ≤ length (rest_from v m n c q)
      → (c.region_offset + 1 == 2 ^ c.depth) ≡ false
      → read_loop (suc fuel) v (c.value_offset + l) m c ≡ some (take l (rest_from v m n c q))
  unfolding paged
  read_same_region n reads k short f =
      let q' = page_size * (c.region_offset + 1) in
      read_paged fuel v m c _ _ beyond (omega (arith, k.1)) f (
        at_end (paged v c) refl (
          reads (paged v c) q' (l - to_page_end v c) (paged-IsAt v c q i f) k
            (omega (
              arith,
              short,
              left,
              length_rest v m n c q,
              region_rest v c q i,
              length_rest v m n (paged v c) q',
            ))
            (omega (arith, enough, i.in_page, left))))
      ∙ ap some (sym (split n))

  read_new_region :
      (n : ℕ)
      → Reads fuel n v m
      → Follow m (suc n) c
      → l ≤ length (rest_from v m (suc n) c q)
      → (c.region_offset + 1 == 2 ^ c.depth) ≡ true
      → read_loop (suc fuel) v (c.value_offset + l) m c ≡ some (take l (rest_from v m (suc n) c q))
  unfolding regioned Chained
  read_new_region n reads k short f =
      let last : c.region_offset + 1 ≡ 2 ^ c.depth = ground (arith, f) in
      let far : page_size * 2 ^ c.depth - page_size * (c.region_offset + 1) ≡ 0 =
        omega (arith, last) in
      let follows =
        rest_regioned v m n c (c.region_start_page * page_size + page_size * (c.region_offset + 1))
          _ far in
      read_regioned fuel v m c _ _ beyond (omega (arith, k.1)) f (ground (arith, k.0.0)) (
        at_end (regioned v m c) refl (
          reads (regioned v m c) 8 (l - to_page_end v c) (regioned-IsAt v m c)
            (k.0.1, omega (arith, k.1))
            (omega (
              arith,
              short,
              left,
              length_rest v m (suc n) c q,
              region_rest v c q i,
              far,
              ap length follows,
              length-append
                  (fetch m (c.region_start_page * page_size + page_size * (c.region_offset + 1))
                    (page_size * 2 ^ c.depth - page_size * (c.region_offset + 1)))
                  (regions_bytes v m (suc n) (c.depth + 1)
                    (next_region_start c.region_start_page m)),
              length-fetch m (c.region_start_page * page_size + page_size * (c.region_offset + 1))
                  (page_size * 2 ^ c.depth - page_size * (c.region_offset + 1)),
            ))
            (omega (arith, enough, i.in_page, left))))
      ∙ ap some (
          sym (
            split (suc n)
            ∙ ap
                (λ bs.
                  fetch m (cursor_address v c) (to_page_end v c) ++ take (l - to_page_end v c) bs)
                follows))

  -- Without a further region nothing is left behind the last page.
  no_region : l ≤ length (rest_from v m 0 c q) → (c.region_offset + 1 == 2 ^ c.depth) ≡ false
  unfolding regions_bytes
  no_region short = elim (Bool-cases (c.region_offset + 1 == 2 ^ c.depth)) [
    | inl f ↦
        let last : c.region_offset + 1 ≡ 2 ^ c.depth = ground (arith, f) in
        absurd (omega (arith, past, short, last, length_rest v m 0 c q, region_rest v c q i))
    | inr f ↦ f
  ]

pub read_loop_rest : (fuel n : ℕ) (v : BigValue) (m : Mem) → Reads fuel n v m
read_loop_rest zero n v m c q l i k short enough = absurd (omega (arith, enough))
read_loop_rest (suc fuel) n v m c q zero i k short enough = read_nothing fuel v m c
read_loop_rest (suc zero) n v m c q (suc l) i k short enough = absurd (omega (arith, enough))
read_loop_rest (suc (suc fuel)) zero v m c q (suc l) i k short enough =
    elim (Bool-cases (leb (suc l) (to_page_end v c))) [
      | inl e ↦ read_last fuel zero v m c q (suc l) i (omega arith) (ground (arith, e))
      | inr e ↦
          let past : to_page_end v c < suc l = ground (arith, e) in
          read_same_region (suc fuel) v m c q (suc l) i past enough zero
            (read_loop_rest (suc fuel) zero v m) k short
            (no_region (suc fuel) v m c q (suc l) i past enough short)
    ]
read_loop_rest (suc (suc fuel)) (suc n) v m c q (suc l) i k short enough =
    elim (Bool-cases (leb (suc l) (to_page_end v c))) [
      | inl e ↦ read_last fuel (suc n) v m c q (suc l) i (omega arith) (ground (arith, e))
      | inr e ↦
          let past : to_page_end v c < suc l = ground (arith, e) in
          elim (Bool-cases (c.region_offset + 1 == 2 ^ c.depth)) [
            | inl f ↦
                read_new_region (suc fuel) v m c q (suc l) i past enough n
                  (read_loop_rest (suc fuel) n v m) k short f
            | inr f ↦
                read_same_region (suc fuel) v m c q (suc l) i past enough (suc n)
                  (read_loop_rest (suc fuel) (suc n) v m) k short f
          ]
    ]
