-- ===== src/BigValue/Tests.antt =====
-- A value of 100000 bytes, and one that goes on in a second region.
use diskmap_cpp.Common.{
  shift_int, ℕ, ◌*◌, ◌%◌, ◌≡◌, refl, arith, some, if◌then◌else◌, ◌==◌, leb, take, drop,
}
use diskmap_cpp.Memory.{Mem, page_size, fetch}
use diskmap_cpp.Bytes.{of_le}
use diskmap_cpp.Page.{read_field}
use diskmap_cpp.BigValue.{
  BigValue, next_region_start, regions_loop, required_continuation_regions, read_value,
}
use diskmap_cpp.BigValue.Regions.{Least, room, required_continuation_regions-Least}
use diskmap_cpp.BigValue.Read.{regions_bytes, Chained}
use diskmap_cpp.BigValue.Whole.{read_value-regions_bytes}

four_regions : required_continuation_regions 100000 ≡ some 4
unfolding required_continuation_regions regions_loop shift_int
four_regions = refl

required_continuation_regions-Least_example :
    (n : ℕ) × (required_continuation_regions 100000 ≡ some n) × Least 100000 n
required_continuation_regions-Least_example =
    required_continuation_regions-Least 100000 (unfold room in omega arith)

abbrev long_value : BigValue
long_value = record { start_page = 50; value_offset_in_start_page = 12 }

-- The second region begins at page 60.
abbrev two_regions : Mem
two_regions a = if a == 50 * page_size then 60 else if leb a 204808 then 0 else a % 256

next_is_60 : read_field 8 two_regions 50 0 ≡ 60
unfolding read_field fetch of_le
next_is_60 = refl

two_regions-Chained : Chained two_regions 1 50
unfolding Chained next_region_start
two_regions-Chained = (ground (arith, next_is_60), tt)

-- The last six bytes of the first page, and the first four behind the pointer of page 60.
read_value-regions_bytes_example :
    read_value long_value 4060 10 two_regions
    ≡ some (take 10 (drop 4060 (regions_bytes long_value two_regions 2 0 50)))
read_value-regions_bytes_example =
    read_value-regions_bytes long_value two_regions 1 4060 10 (omega arith) (omega arith)
      two_regions-Chained (unfold room in omega arith) (unfold room in omega arith)
