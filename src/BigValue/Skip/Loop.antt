-- ===== src/BigValue/Skip/Loop.antt =====
-- The rounds of that loop.
use diskmap_cpp.Common.{
  ℕ, zero, suc, ◌+◌, ◌-◌, ◌*◌, ◌^◌, ◌≤◌, ◌<◌, ◌≡◌, refl, sym, ap, ◌∙◌, inl, inr, true, false, ltb,
  leb, arith, Bool-cases, drop, length, length-append,
}
use diskmap_cpp.Memory.{Mem, page_size, fetch}
use diskmap_cpp.Memory.Laws.{length-fetch}
use diskmap_cpp.BigValue.{
  BigValue, continuation, pure, start_offset, next_region_start, Cursor, skip_step, skip_to,
}
use diskmap_cpp.BigValue.Read.{
  head, head-deeper, regions_bytes, Chained, Follow, IsAt, rest_from, length_rest, pow-pos,
}
use diskmap_cpp.BigValue.Skip.{
  region_size, region_skip-size, AtStart, Skipped, carry, drop_first, rest_next, skip_on, Skips,
  drop_past,
}

-- The offset is in this page.
skip_bytes :
    (fuel n l : ℕ) (v : BigValue) (m : Mem) (c : Cursor) (q : ℕ)
    → IsAt v c q
    → Follow m n c
    → 0 < l
    → leb (region_size v c.depth) l ≡ false
    → leb (page_size - start_offset v c.current_page_type) l ≡ false
    → c.page_offset ≡ 0
    → Skipped v m l c (rest_from v m n c q) (skip_to (suc (suc fuel)) v (c.value_offset + l) m c)
unfolding skip_to skip_step
skip_bytes fuel n l v m c q i k positive r p z =
    let go : ltb c.value_offset (c.value_offset + l) ≡ true = ground (arith, positive) in
    let left : c.value_offset + l - c.value_offset ≡ l = omega arith in
    let stop : ltb (c.value_offset + l) (c.value_offset + l) ≡ false = ground arith in
    let short : l < page_size - start_offset v c.current_page_type = ground (arith, p) in
    let size : page_size * 2 ^ c.depth - q ≡ l + (page_size * 2 ^ c.depth - (q + l)) =
      omega (arith, i.offset, i.in_region, short, z) in
    record {
      stop = record c { page_offset = c.page_offset + l; value_offset = c.value_offset + l };
      at = q + l;
      regions = n;
      run = rw (go, region_skip-size v c.depth (omega (arith, k.1)), left, r, p, stop);
      position = record {
        offset = omega (arith, i.offset);
        in_page = omega (arith, z, short);
        in_region = i.in_region;
      };
      chain = k;
      offset = refl;
      rest = sym (drop_first m (c.region_start_page * page_size) q l _ _ _ size);
    }

start_inside :
    (v : BigValue) (c : Cursor) (q l : ℕ)
    → AtStart v c q l
    → leb (region_size v c.depth) l ≡ false
    → (l < page_size * 2 ^ c.depth - q) × (head v c.depth ≤ q)
unfolding head
start_inside v c q l (z, inl (at, first)) r =
    let short : l < page_size * 2 ^ c.depth - head v c.depth = ground (arith, r) in
    (omega (arith, short, at), omega (arith, at))
start_inside v c q l (z, inr (low, inside)) r = (inside, low)

-- The offset is in another page of the region.
skip_page :
    (fuel n l : ℕ) (v : BigValue) (m : Mem) (c : Cursor) (q : ℕ)
    → Skips fuel n v m
    → IsAt v c q
    → AtStart v c q l
    → Follow m n c
    → l < length (rest_from v m n c q)
    → l < suc fuel
    → 0 < l
    → leb (region_size v c.depth) l ≡ false
    → leb (page_size - start_offset v c.current_page_type) l ≡ true
    → Skipped v m l c (rest_from v m n c q) (skip_to (suc fuel) v (c.value_offset + l) m c)
unfolding skip_step start_offset
skip_page fuel n l v m c q skips i at k short enough positive r p =
    let b = page_size - start_offset v c.current_page_type in
    let q' = page_size * (c.region_offset + 1) in
    let c' : Cursor = record c {
      value_offset = c.value_offset + b;
      region_offset = c.region_offset + 1;
      current_page_type = pure;
    } in
    let left : c.value_offset + l - c.value_offset ≡ l = omega arith in
    let past : b ≤ l = ground (arith, p) in
    let (inside, low) = start_inside v c q l at r in
    let more : c.region_offset + 1 < 2 ^ c.depth = omega (arith, inside, past, at.0, i.offset) in
    let size : page_size * 2 ^ c.depth - q ≡ b + (page_size * 2 ^ c.depth - q') =
      omega (arith, i.offset, i.in_page, at.0, more) in
    let shift : c.region_start_page * page_size + q + b ≡ c.region_start_page * page_size + q' =
      omega (arith, i.offset, i.in_page, at.0) in
    let same : c.value_offset + b + (l - b) ≡ c.value_offset + l = omega (arith, past) in
    carry v m l (l - b) c c' _ _ _ _
      (skips c' q' (l - b)
        (record { offset = omega (arith, at.0); in_page = omega (arith, at.0); in_region = more })
        (at.0, inr (omega (arith, low, i.offset, i.in_page), omega (arith, inside, size, past))) k
        (omega (arith, short, past, size, length_rest v m n c q, length_rest v m n c' q'))
        (omega (arith, enough, past, i.in_page, positive)))
      (skip_on fuel v (c.value_offset + l) m c c' (omega (arith, positive))
          (rw (region_skip-size v c.depth (omega (arith, k.1)), left, r, p))
        ∙ ap (λ z. skip_to fuel v z m c') (sym same))
      same (drop_past m (c.region_start_page * page_size + q) b l _ _ _ _ size past shift)

region-IsAt :
    (v : BigValue) (c : Cursor)
    → c.region_offset ≡ 0
    → c.page_offset ≡ 0
    → c.current_page_type ≡ continuation
    → IsAt v c 8
region-IsAt v c first z t =
    let type : start_offset v c.current_page_type ≡ 8 =
      ap (start_offset v) t ∙ (unfold start_offset in refl) in
    record {
      offset = omega (arith, first, z, type);
      in_page = omega (arith, z, type);
      in_region = omega (arith, first, pow-pos c.depth);
    }

-- The offset is in another region, of which there is one.
skip_region :
    (fuel n l : ℕ) (v : BigValue) (m : Mem) (c : Cursor) (q : ℕ)
    → Skips fuel n v m
    → IsAt v c q
    → AtStart v c q l
    → Follow m (suc n) c
    → l < length (rest_from v m (suc n) c q)
    → l < suc fuel
    → 0 < l
    → leb (region_size v c.depth) l ≡ true
    → Skipped v m l c (rest_from v m (suc n) c q) (skip_to (suc fuel) v (c.value_offset + l) m c)
unfolding skip_step head Chained
skip_region fuel n l v m c q skips i (z, inr (low, inside)) k short enough positive r =
    let past : page_size * 2 ^ c.depth - head v c.depth ≤ l = ground (arith, r) in
    absurd (omega (arith, inside, past, low))
skip_region fuel n l v m c q skips i (z, inl (at, first)) k short enough positive r =
    let b = region_size v c.depth in
    let past : b ≤ l = ground (arith, r) in
    let c' : Cursor = record c {
      value_offset = c.value_offset + b;
      depth = c.depth + 1;
      region_start_page = next_region_start c.region_start_page m;
      current_page_type = continuation;
    } in
    let left : c.value_offset + l - c.value_offset ≡ l = omega arith in
    let whole : page_size * 2 ^ c.depth - q ≡ b + 0 = omega (arith, at) in
    let same : c.value_offset + b + (l - b) ≡ c.value_offset + l = omega (arith, past) in
    let follows = rest_next v m n c (c.region_start_page * page_size + q + b) c' refl refl in
    carry v m l (l - b) c c' _ _ _ _
      (skips c' 8 (l - b) (region-IsAt v c' first z refl)
        (z, inl (sym (head-deeper v c.depth), first)) (k.0.1, omega (arith, k.1))
        (omega (
          arith,
          short,
          past,
          whole,
          length_rest v m (suc n) c q,
          ap length follows,
          length-append (fetch m (c.region_start_page * page_size + q + b) 0)
              (regions_bytes v m (suc n) (c.depth + 1) (next_region_start c.region_start_page m)),
          length-fetch m (c.region_start_page * page_size + q + b) 0,
        ))
        (omega (arith, enough, past, i.in_page, i.in_region, i.offset, whole)))
      (skip_on fuel v (c.value_offset + l) m c c' (omega (arith, positive))
          (rw (region_skip-size v c.depth (omega (arith, k.1)), left, r))
        ∙ ap (λ z. skip_to fuel v z m c') (sym same))
      same
      (ap (drop (l - b)) (sym follows)
        ∙ drop_past m (c.region_start_page * page_size + q) b l _ 0 _ _ whole past refl)

-- Without a further region the offset is in this one.
skip_last :
    (l : ℕ) (v : BigValue) (m : Mem) (c : Cursor) (q : ℕ)
    → AtStart v c q l
    → l < length (rest_from v m 0 c q)
    → leb (region_size v c.depth) l ≡ false
unfolding head regions_bytes
skip_last l v m c q (z, inl (at, first)) short = ground (arith, short, at, length_rest v m 0 c q)
skip_last l v m c q (z, inr (low, inside)) short = ground (arith, low, inside)

skip_nothing :
    (fuel n : ℕ) (v : BigValue) (m : Mem) (c : Cursor) (q : ℕ)
    → IsAt v c q
    → Follow m n c
    → Skipped v m 0 c (rest_from v m n c q) (skip_to (suc fuel) v (c.value_offset + 0) m c)
unfolding skip_to
skip_nothing fuel n v m c q i k =
    let stop : ltb c.value_offset (c.value_offset + 0) ≡ false = ground arith in
    record {
      stop = c;
      at = q;
      regions = n;
      run = rw stop;
      position = i;
      chain = k;
      offset = omega arith;
      rest = refl;
    }

pub skip_to_lem : (fuel n : ℕ) (v : BigValue) (m : Mem) → Skips fuel n v m
skip_to_lem zero n v m c q l i at k short enough = absurd (omega (arith, enough))
skip_to_lem (suc fuel) n v m c q zero i at k short enough = skip_nothing fuel n v m c q i k
skip_to_lem (suc zero) n v m c q (suc l) i at k short enough = absurd (omega (arith, enough))
skip_to_lem (suc (suc fuel)) zero v m c q (suc l) i at k short enough =
    let r = skip_last (suc l) v m c q at short in
    elim (Bool-cases (leb (page_size - start_offset v c.current_page_type) (suc l))) [
      | inl p ↦
          skip_page (suc fuel) zero (suc l) v m c q (skip_to_lem (suc fuel) zero v m) i at k short
            enough (omega arith) r p
      | inr p ↦ skip_bytes fuel zero (suc l) v m c q i k (omega arith) r p at.0
    ]
skip_to_lem (suc (suc fuel)) (suc n) v m c q (suc l) i at k short enough =
    elim (Bool-cases (leb (region_size v c.depth) (suc l))) [
      | inl r ↦
          skip_region (suc fuel) n (suc l) v m c q (skip_to_lem (suc fuel) n v m) i at k short
            enough (omega arith) r
      | inr r ↦ elim (Bool-cases (leb (page_size - start_offset v c.current_page_type) (suc l))) [
        | inl p ↦
            skip_page (suc fuel) (suc n) (suc l) v m c q (skip_to_lem (suc fuel) (suc n) v m) i at k
              short enough (omega arith) r p
        | inr p ↦ skip_bytes fuel (suc n) (suc l) v m c q i k (omega arith) r p at.0
      ]
    ]
