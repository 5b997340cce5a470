-- ===== src/BigValue/Read.antt =====
-- A read of a big value is a read of its regions, one behind the other.
pub mod Loop
use native.Mathlib.Nat.{pow-suc}
use diskmap_cpp.Common.{
  ℕ, zero, suc, ◌+◌, ◌-◌, ◌*◌, ◌^◌, min, ◌≤◌, ◌<◌, ◌≡◌, ◌≢◌, refl, sym, ap, ◌∙◌, subst, ◌⊎◌, inl,
  inr, Bool, true, false, Option, none, some, List, [], ◌∷◌, ◌++◌, ◌==◌, ltb, leb, arith,
  Bool-cases, if◌then◌else◌, ◌>>=◌, take, drop, length, append_assoc, append-nil, length-append,
}
use diskmap_cpp.Memory.{Mem, page_size, fetch}
use diskmap_cpp.Memory.Laws.{length-fetch}
use diskmap_cpp.Page.{address}
use diskmap_cpp.BigValue.{
  BigValue, LeafPageType, start, continuation, pure, start_offset, next_region_start, Cursor,
  start_cursor, region_skip, skip_step, skip_to, length_in_page, cursor_address, next_page,
  read_loop, read_value,
}

-- The offset of the value in the first page of a region.
unfoldable pub head : BigValue → ℕ → ℕ
head v depth = start_offset v (if depth == 0 then start else continuation)

pub head-deeper : (v : BigValue) (depth : ℕ) → head v (depth + 1) ≡ 8
unfolding head start_offset
head-deeper v depth = let e : (depth + 1 == 0) ≡ false = ground arith in rw e

-- The bytes of the value in `n` regions, from the one of this depth and page on.
unfoldable pub regions_bytes : BigValue → Mem → ℕ → ℕ → ℕ → List ℕ
regions_bytes v m zero depth page = []
regions_bytes v m (suc n) depth page =
    fetch m (page * page_size + head v depth) (page_size * 2 ^ depth - head v depth)
    ++ regions_bytes v m n (depth + 1) (next_region_start page m)

-- The regions are linked: no pointer between them is null.
unfoldable pub Chained : Mem → ℕ → ℕ → Type 0
Chained m zero page = Unit
Chained m (suc n) page = (next_region_start page m ≢ 0) × Chained m n (next_region_start page m)

pub fetch_add : (m : Mem) (a x y : ℕ) → fetch m a (x + y) ≡ fetch m a x ++ fetch m (a + x) y
unfolding fetch
fetch_add m a zero y =
    let e : a + 0 ≡ a = omega arith in let f : 0 + y ≡ y = omega arith in rw (e, f)
fetch_add m a (suc x) y =
    let e : suc x + y ≡ suc (x + y) = omega arith in
    let f : a + suc x ≡ suc a + x = omega arith in
    rw (e, f) (ap (λ bs. m a ∷ bs) (fetch_add m (suc a) x y))

-- Where a cursor stands: at byte `q` of its region, in page `region_offset` of it.
pub record IsAt (v : BigValue) (c : Cursor) (q : ℕ) : Type 0 where
  pub offset :
      page_size * c.region_offset + (start_offset v c.current_page_type + c.page_offset) ≡ q
  pub in_page : start_offset v c.current_page_type + c.page_offset < page_size
  pub in_region : c.region_offset < 2 ^ c.depth

-- The regions behind that of the cursor are linked, and so few that no shift overflows.
abbrev pub Follow : Mem → ℕ → Cursor → Type 0
Follow m n c = Chained m n c.region_start_page × (c.depth + n < 19)

-- What is left of the value, in this region and `n` more.
abbrev pub rest_from : BigValue → Mem → ℕ → Cursor → ℕ → List ℕ
rest_from v m n c q =
    fetch m (c.region_start_page * page_size + q) (page_size * 2 ^ c.depth - q)
    ++ regions_bytes v m n (c.depth + 1) (next_region_start c.region_start_page m)

pub take_front :
    (m : Mem) (a x y : ℕ) (ys : List ℕ) → take x (fetch m a (x + y) ++ ys) ≡ fetch m a x
unfolding fetch
take_front m a zero y ys = refl
take_front m a (suc x) y ys =
    let e : suc x + y ≡ suc (x + y) = omega arith in
    rw e (ap (λ bs. m a ∷ bs) (take_front m (suc a) x y ys))

take_past :
    (m : Mem) (a x z : ℕ) (ys : List ℕ)
    → take (x + z) (fetch m a x ++ ys) ≡ fetch m a x ++ take z ys
unfolding fetch
take_past m a zero z ys = let e : 0 + z ≡ z = omega arith in rw e
take_past m a (suc x) z ys =
    let e : suc x + z ≡ suc (x + z) = omega arith in
    rw e (ap (λ bs. m a ∷ bs) (take_past m (suc a) x z ys))

-- How far it is to the end of the page.
abbrev pub to_page_end : BigValue → Cursor → ℕ
to_page_end v c = page_size - start_offset v c.current_page_type - c.page_offset

pub region_rest :
    (v : BigValue) (c : Cursor) (q : ℕ)
    → IsAt v c q
    → page_size * 2 ^ c.depth - q
      ≡ to_page_end v c + (page_size * 2 ^ c.depth - (page_size * (c.region_offset + 1)))
region_rest v c q i = omega (arith, i.offset, i.in_page, i.in_region)

pub address_at :
    (v : BigValue) (c : Cursor) (q : ℕ)
    → IsAt v c q
    → cursor_address v c ≡ c.region_start_page * page_size + q
unfolding cursor_address
address_at v c q i = omega (arith, i.offset)

-- The cursor at the start of the next page of the region, and of the next region.
pub paged : BigValue → Cursor → Cursor
paged v c = record c {
  value_offset = c.value_offset + to_page_end v c;
  region_offset = c.region_offset + 1;
  current_page_type = pure;
  page_offset = 0;
}

pub regioned : BigValue → Mem → Cursor → Cursor
regioned v m c = record {
  depth = c.depth + 1;
  region_start_page = next_region_start c.region_start_page m;
  region_offset = 0;
  page_offset = 0;
  value_offset = c.value_offset + to_page_end v c;
  current_page_type = continuation;
}

pub pow-pos : (n : ℕ) → 0 < 2 ^ n
pow-pos zero = omega arith
pow-pos (suc n) = omega (arith, pow-pos n, pow-suc 2 n)

-- What is left behind the end of the page.
pub rest_split :
    (v : BigValue) (m : Mem) (n : ℕ) (c : Cursor) (q k : ℕ) (ys : List ℕ)
    → IsAt v c q
    → take
        (to_page_end v c + k)
        (fetch m (c.region_start_page * page_size + q) (page_size * 2 ^ c.depth - q) ++ ys)
      ≡ fetch m (cursor_address v c) (to_page_end v c)
        ++ take k (
            fetch m
              (c.region_start_page * page_size + page_size * (c.region_offset + 1))
              (page_size * 2 ^ c.depth - page_size * (c.region_offset + 1))
            ++ ys)
rest_split v m n c q k ys i =
    let a = c.region_start_page * page_size + q in
    let far = page_size * 2 ^ c.depth - page_size * (c.region_offset + 1) in
    let b : a + to_page_end v c
        ≡ c.region_start_page * page_size + page_size * (c.region_offset + 1) =
      omega (arith, i.offset, i.in_page) in
    rw
      (
        region_rest v c q i,
        fetch_add m a (to_page_end v c) far,
        append_assoc,
        b,
        address_at v c q i,
      )
      (take_past m a (to_page_end v c) k _)

-- Behind the last page of a region stands the next region.
pub rest_regioned :
    (v : BigValue) (m : Mem) (n : ℕ) (c : Cursor) (a far : ℕ)
    → far ≡ 0
    → fetch m a far
        ++ regions_bytes v m (suc n) (c.depth + 1) (next_region_start c.region_start_page m)
      ≡ rest_from v m n (regioned v m c) 8
unfolding regions_bytes regioned fetch
rest_regioned v m n c a far h = rw (h, head-deeper v c.depth)

pub length_rest :
    (v : BigValue) (m : Mem) (n : ℕ) (c : Cursor) (q : ℕ)
    → length (rest_from v m n c q)
      ≡ page_size * 2 ^ c.depth
        - q
        + length (regions_bytes v m n (c.depth + 1) (next_region_start c.region_start_page m))
length_rest v m n c q = omega (
  arith,
  length-append (fetch m (c.region_start_page * page_size + q) (page_size * 2 ^ c.depth - q))
      (regions_bytes v m n (c.depth + 1) (next_region_start c.region_start_page m)),
  length-fetch m (c.region_start_page * page_size + q) (page_size * 2 ^ c.depth - q),
)
