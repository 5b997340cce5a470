-- ===== src/BigValue/Whole.antt =====
-- `BigValue::read` against the bytes of the regions, one region behind the other.
use diskmap_cpp.Common.{
  ℕ, zero, suc, ◌-◌, ◌*◌, ◌^◌, ◌++◌, length-append, ◌+◌, ◌≤◌, ◌<◌, ◌≡◌, refl, sym, ap, ◌∙◌, inl,
  some, arith, take, drop, length, length-drop,
}
use diskmap_cpp.Memory.{Mem, page_size, fetch}
use diskmap_cpp.Memory.Laws.{length-fetch}
use diskmap_cpp.BigValue.{
  BigValue, start_offset, next_region_start, start_cursor, skip_to, read_loop, read_value,
}
use diskmap_cpp.BigValue.Regions.{room, room-suc}
use diskmap_cpp.BigValue.Read.{head, head-deeper, regions_bytes, Chained, IsAt, rest_from}
use diskmap_cpp.BigValue.Read.Loop.{read_loop_rest}
use diskmap_cpp.BigValue.Skip.Loop.{skip_to_lem}

start-IsAt :
    (v : BigValue) → v.value_offset_in_start_page < 4078 → IsAt v (start_cursor v) (head v 0)
unfolding start_cursor head start_offset
start-IsAt v small = record {
  offset = omega arith;
  in_page = omega (arith, small);
  in_region = omega arith;
}

start_rest :
    (v : BigValue) (m : Mem) (n : ℕ)
    → rest_from v m n (start_cursor v) (head v 0) ≡ regions_bytes v m (suc n) 0 v.start_page
unfolding start_cursor regions_bytes
start_rest v m n = refl

deeper_length :
    (v : BigValue) (m : Mem) (n depth page : ℕ)
    → length (regions_bytes v m n (depth + 1) page) + room depth ≡ room (depth + n)
unfolding regions_bytes
deeper_length v m zero depth page = let e : depth + 0 ≡ depth = omega arith in rw e (omega arith)
deeper_length v m (suc n) depth page =
    let e : depth + suc n ≡ depth + 1 + n = omega arith in
    let a = page * page_size + 8 in
    let size = page_size * 2 ^ (depth + 1) - 8 in
    let rest = regions_bytes v m n (depth + 1 + 1) (next_region_start page m) in
    rw (e, head-deeper v depth)
      (omega (
        arith,
        length-append (fetch m a size) rest,
        length-fetch m a size,
        room-suc depth,
        deeper_length v m n (depth + 1) (next_region_start page m),
      ))

-- The bytes fill the room of the regions behind what stands before the value.
regions_bytes-room :
    (v : BigValue) (m : Mem) (n page : ℕ)
    → v.value_offset_in_start_page < 4078
    → v.value_offset_in_start_page + length (regions_bytes v m (suc n) 0 page) ≡ room n
unfolding regions_bytes head start_offset room
regions_bytes-room v m n page small =
    let a = page * page_size + (18 + v.value_offset_in_start_page) in
    let size = page_size * 1 - (18 + v.value_offset_in_start_page) in
    let rest = regions_bytes v m n (0 + 1) (next_region_start page m) in
    let parts : length (regions_bytes v m (suc n) 0 page) ≡ length (fetch m a size ++ rest) =
      refl in
    let e : 0 + n ≡ n = omega arith in
    let deeper : length rest + 4078 ≡ room n =
      deeper_length v m n 0 (next_region_start page m) ∙ ap room e in
    omega (arith, parts, length-append (fetch m a size) rest, length-fetch m a size, deeper, small)

-- `BigValue::read` of a part of the value: where the value begins inside the start page, no pointer
-- from its region to the next of `n` further ones is null, `n` is below 19, and these regions have room for what stands
-- before the value and for the value up to the end of the part and past its start, the read ends, and
-- returns the part of this offset and size of the bytes of the regions, one region behind the other.
pub read_value-regions_bytes :
    (v : BigValue) (m : Mem) (n offset size : ℕ)
    → v.value_offset_in_start_page < 4078
    → n < 19
    → Chained m n v.start_page
    → v.value_offset_in_start_page + offset < room n
    → v.value_offset_in_start_page + (offset + size) ≤ room n
    → read_value v offset size m
      ≡ some (take size (drop offset (regions_bytes v m (suc n) 0 v.start_page)))
unfolding read_value start_cursor
read_value-regions_bytes v m n offset size small few k inside enough =
    let bytes = regions_bytes v m (suc n) 0 v.start_page in
    let whole = start_rest v m n in
    let fill = regions_bytes-room v m n v.start_page small in
    let s =
      skip_to_lem (suc offset) n v m (start_cursor v) (head v 0) offset (start-IsAt v small)
        (refl, inl (refl, refl)) (k, omega (arith, few))
        (omega (arith, inside, fill, ap length whole)) (omega arith) in
    let zero_plus : 0 + offset ≡ offset = omega arith in
    let there : skip_to (suc offset) v offset m (start_cursor v) ≡ some s.stop =
      ap (λ z. skip_to (suc offset) v z m (start_cursor v)) (sym zero_plus) ∙ s.run in
    let left : rest_from v m s.regions s.stop s.at ≡ drop offset bytes =
      s.rest ∙ ap (drop offset) whole in
    let at : offset + size ≡ s.stop.value_offset + size = omega (arith, s.offset) in
    rw there (
      ap (λ z. read_loop (suc size) v z m s.stop) at
      ∙ read_loop_rest (suc size) s.regions v m s.stop s.at size s.position s.chain
          (omega (arith, ap length left, length-drop offset bytes, enough, fill)) (omega arith)
      ∙ ap (λ bs. some (take size bs)) left)
