-- ===== src/BigValue/Skip.antt =====
-- The first loop of `rw_impl`, which moves to an offset of the value.
pub mod Loop
use diskmap_cpp.Common.{
  shift_int-fits, ℕ, zero, suc, ◌+◌, ◌-◌, ◌*◌, ◌^◌, min, ◌≤◌, ◌<◌, ◌≡◌, ◌≢◌, refl, sym, ap, ◌∙◌,
  subst, ◌⊎◌, inl, inr, Bool, true, false, Option, none, some, List, [], ◌∷◌, ◌++◌, ◌==◌, ltb, leb,
  arith, Bool-cases, if◌then◌else◌, ◌>>=◌, take, drop, length, append_assoc, append-nil,
  length-append, drop-length_append,
}
use diskmap_cpp.Memory.{Mem, page_size, fetch}
use diskmap_cpp.Memory.Laws.{length-fetch}
use diskmap_cpp.BigValue.{
  BigValue, LeafPageType, start, continuation, pure, start_offset, next_region_start, Cursor,
  start_cursor, region_skip, skip_step, skip_to, read_loop, read_value,
}
use diskmap_cpp.BigValue.Read.{
  head, head-deeper, regions_bytes, Chained, Follow, fetch_add, IsAt, rest_from, region_rest,
  length_rest, pow-pos,
}

-- At the start of a region, or, inside one, before an offset that lies in it.
abbrev pub AtStart : BigValue → Cursor → ℕ → ℕ → Type 0
AtStart v c q l =
    (c.page_offset ≡ 0)
    × (((q ≡ head v c.depth) × (c.region_offset ≡ 0))
        ⊎ ((head v c.depth ≤ q) × (l < page_size * 2 ^ c.depth - q)))

-- Where the loop stops, and that what is then left is the rest of the value without `l` bytes.
pub record Skipped (v : BigValue) (m : Mem) (l : ℕ) (c : Cursor) (bytes : List ℕ)
    (r : Option Cursor) : Type 0 where
  pub stop : Cursor
  pub at : ℕ
  pub regions : ℕ
  pub run : r ≡ some stop
  pub position : IsAt v stop at
  pub chain : Follow m regions stop
  pub offset : stop.value_offset ≡ c.value_offset + l
  pub rest : rest_from v m regions stop at ≡ drop l bytes

pub carry :
    (v : BigValue) (m : Mem) (l l' : ℕ) (c c' : Cursor) (bytes bytes' : List ℕ)
    (r r' : Option Cursor)
    → Skipped v m l' c' bytes' r'
    → r ≡ r'
    → c'.value_offset + l' ≡ c.value_offset + l
    → drop l' bytes' ≡ drop l bytes
    → Skipped v m l c bytes r
carry v m l l' c c' bytes bytes' r r' s e o d = record {
  stop = s.stop;
  at = s.at;
  regions = s.regions;
  run = e ∙ s.run;
  position = s.position;
  chain = s.chain;
  offset = s.offset ∙ o;
  rest = s.rest ∙ d;
}

drop-fetch :
    (m : Mem) (a x y k : ℕ) (ys : List ℕ)
    → drop (x + k) (fetch m a (x + y) ++ ys) ≡ drop k (fetch m (a + x) y ++ ys)
unfolding fetch
drop-fetch m a zero y k ys =
    let e : a + 0 ≡ a = omega arith in
    let f : 0 + y ≡ y = omega arith in let g : 0 + k ≡ k = omega arith in rw (e, f, g)
drop-fetch m a (suc x) y k ys =
    let e : suc x + y ≡ suc (x + y) = omega arith in
    let f : a + suc x ≡ suc a + x = omega arith in
    let g : suc x + k ≡ suc (x + k) = omega arith in rw (e, f, g) (drop-fetch m (suc a) x y k ys)

pub drop_first :
    (m : Mem) (a q x size y : ℕ) (ys : List ℕ)
    → size ≡ x + y
    → drop x (fetch m (a + q) size ++ ys) ≡ fetch m (a + (q + x)) y ++ ys
drop_first m a q x size y ys h =
    let e : x + 0 ≡ x = omega arith in
    let f : a + q + x ≡ a + (q + x) = omega arith in
    ap (λ n. drop x (fetch m (a + q) n ++ ys)) h
    ∙ ap (λ n. drop n (fetch m (a + q) (x + y) ++ ys)) (sym e)
    ∙ drop-fetch m (a + q) x y 0 ys
    ∙ ap (λ b. fetch m b y ++ ys) f

-- Behind a whole region stands the next one.
pub rest_next :
    (v : BigValue) (m : Mem) (n : ℕ) (c : Cursor) (a : ℕ) (c' : Cursor)
    → c'.depth ≡ c.depth + 1
    → c'.region_start_page ≡ next_region_start c.region_start_page m
    → fetch m a 0
        ++ regions_bytes v m (suc n) (c.depth + 1) (next_region_start c.region_start_page m)
      ≡ rest_from v m n c' 8
unfolding regions_bytes fetch
rest_next v m n c a c' e f = rw (e, f, head-deeper v c.depth)

-- The bytes of the value in a region.
abbrev pub region_size : BigValue → ℕ → ℕ
region_size v depth = page_size * 2 ^ depth - head v depth

pub region_skip-size :
    (v : BigValue) (depth : ℕ) → depth < 19 → region_skip v depth ≡ some (region_size v depth)
unfolding region_skip head
region_skip-size v depth shallow =
    rw (shift_int-fits page_size 18 depth (omega (arith, shallow)) (omega arith))

pub skip_on :
    (fuel : ℕ) (v : BigValue) (offset : ℕ) (m : Mem) (c c' : Cursor)
    → c.value_offset < offset
    → skip_step v offset m c ≡ some c'
    → skip_to (suc fuel) v offset m c ≡ skip_to fuel v offset m c'
unfolding skip_to
skip_on fuel v offset m c c' h e =
    let go : ltb c.value_offset offset ≡ true = ground (arith, h) in rw (go, e)

abbrev pub Skips : ℕ → ℕ → BigValue → Mem → Type 0
Skips fuel n v m =
    (c : Cursor) (q l : ℕ)
    → IsAt v c q
    → AtStart v c q l
    → Follow m n c
    → l < length (rest_from v m n c q)
    → l < fuel
    → Skipped v m l c (rest_from v m n c q) (skip_to fuel v (c.value_offset + l) m c)

-- Leaving the first `x` bytes out of what is left.
pub drop_past :
    (m : Mem) (a x l size y a' : ℕ) (ys : List ℕ)
    → size ≡ x + y
    → x ≤ l
    → a + x ≡ a'
    → drop (l - x) (fetch m a' y ++ ys) ≡ drop l (fetch m a size ++ ys)
drop_past m a x l size y a' ys h k e =
    let whole : x + (l - x) ≡ l = omega (arith, k) in
    sym (
      ap (λ n. drop l (fetch m a n ++ ys)) h
      ∙ ap (λ j. drop j (fetch m a (x + y) ++ ys)) (sym whole)
      ∙ drop-fetch m a x y (l - x) ys
      ∙ ap (λ b. drop (l - x) (fetch m b y ++ ys)) e)
