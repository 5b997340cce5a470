-- ===== src/Tree/Tests.antt =====
-- A file with one key, "abc", in the leaf on page 50.
use diskmap_cpp.Common.{
  ◌/◌, if◌then◌else◌, ℕ, ◌*◌, ◌^◌, ◌<◌, ◌≡◌, ◌≢◌, refl, inl, inr, ◌⊎◌, sym, ap, ◌∙◌, subst, ◌==◌,
  Bool-cases, true, false, none, some, List, [], ◌∷◌, ◌++◌, arith, All, replicate, take, drop,
}
use diskmap_cpp.Memory.{Mem, copy, fetch}
use diskmap_cpp.Bytes.{le_bytes, of_le}
use diskmap_cpp.Page.{address, read_field, meta_page, next_free_page, last_fpl_page}
use diskmap_cpp.Bucket.{get_bucket, hash_bucket, hash_key, get_msb, clear_msb, set_msb}
use diskmap_cpp.Checksum.{fnv_hash, fnv_loop}
use diskmap_cpp.Leaf.{
  KvEntry, entry_bytes, entries_buffer, total_entries_size, entry_span, strlen, read_u64,
}
use diskmap_cpp.Leaf.Edit.Holds.{Holds}
use diskmap_cpp.Leaf.Check.{validate_leaf_integrity, check_counted, count_entries, all_zero}
use diskmap_cpp.Tree.{
  Parent, child, set_child, leaf_at, find_from, find_parent, verify_integrity, verify_from,
  each_child, read, read_part, read_value_length, remove,
}
use diskmap_cpp.Replacer.Queue.{false≢true}
use diskmap_cpp.Page.Laws.{read_field-write_field, read_field-write_other}
use diskmap_cpp.Tree.Descend.{bucket-lt, is_end, IsNode, Way, find_parent-Way}
use diskmap_cpp.Tree.Absent.{remove-absent}
use diskmap_cpp.BigValue.{next_region_start}
use diskmap_cpp.BigValue.Regions.{room}
use diskmap_cpp.BigValue.Read.{Chained, regions_bytes}
use diskmap_cpp.Tree.Big.{big_value, IsBigLeaf, read_part-big}
use diskmap_cpp.Tree.Empty.{read_value_length-meta_page}
use diskmap_cpp.Tree.Verify.{verify_integrity-leaf}
use diskmap_cpp.Tree.Lookup.{LeadsTo, value_of, map_length, read-value_of}

abbrev abc : List ℕ
abc = 97 ∷ 98 ∷ 99 ∷ []

abbrev some_entry : KvEntry
some_entry = record { key = abc; value = 7 ∷ 8 ∷ [] }

abbrev some_file : Mem
some_file =
    copy
      (copy (λ a. 0) (address 50 0)
        (le_bytes 8 0 ++ (le_bytes 8 14 ++ (le_bytes 2 1 ++ entry_bytes some_entry))))
      (address 1 (8 * get_bucket abc 1)) (le_bytes 8 50)

some_parent :
    find_parent 1 abc some_file ≡ some (record { page = 1; entry = get_bucket abc 1; depth = 0 })
unfolding find_parent find_from child read_field fetch copy of_le le_bytes entry_bytes get_bucket
    hash_bucket hash_key fnv_hash fnv_loop get_msb clear_msb
some_parent = refl

abc-no_nul : All (λ c. 0 < c) abc
abc-no_nul = (omega arith, (omega arith, (omega arith, tt)))

some_leaf-Holds : Holds (leaf_at some_file 50) (some_entry ∷ [])
unfolding leaf_at child read_field fetch copy of_le le_bytes entry_bytes entries_buffer
    total_entries_size get_bucket hash_bucket hash_key fnv_hash fnv_loop
some_leaf-Holds = record {
  entries = (record { not_empty = omega arith; no_nul = abc-no_nul; sized = omega arith }, tt);
  contents = refl;
  usage = refl;
  fits = omega arith;
  count = refl;
}

some_file-LeadsTo :
    LeadsTo some_file (record { page = 1; entry = get_bucket abc 1; depth = 0 }) (some_entry ∷ [])
unfolding leaf_at child read_field fetch copy of_le le_bytes entry_bytes get_bucket hash_bucket
    hash_key fnv_hash fnv_loop get_msb clear_msb
some_file-LeadsTo = record { leaf = refl; entries = some_leaf-Holds; one_page = refl }

some_file-verified : verify_integrity 2 some_file ≡ some true
unfolding verify_integrity verify_from each_child validate_leaf_integrity check_counted
    count_entries all_zero entry_span strlen read_u64 leaf_at child read_field fetch copy of_le
    le_bytes entry_bytes get_bucket hash_bucket hash_key fnv_hash fnv_loop get_msb clear_msb set_msb
some_file-verified = refl

read-value_of_example :
    (read 1 abc some_file ≡ some (value_of (some_entry ∷ []) abc))
    × (read_value_length 1 abc some_file ≡ some (map_length (value_of (some_entry ∷ []) abc)))
read-value_of_example =
    read-value_of 1 some_file abc (record { page = 1; entry = get_bucket abc 1; depth = 0 })
      (some_entry ∷ []) some_parent abc-no_nul some_file-LeadsTo

-- Page 50 is the only leaf, and it is sound.
some_child : child some_file 1 (get_bucket abc 1) ≢ 0
unfolding child read_field fetch copy of_le le_bytes entry_bytes get_bucket hash_bucket hash_key
    fnv_hash fnv_loop
some_child h = omega (arith, h)

verify_integrity-leaf_example :
    validate_leaf_integrity (leaf_at some_file (child some_file 1 (get_bucket abc 1))) ≡ true
verify_integrity-leaf_example =
    verify_integrity-leaf 2 1 some_file abc
      (record { page = 1; entry = get_bucket abc 1; depth = 0 }) some_file-verified some_parent
      some_child

-- The key "d" has another bucket, which is empty.
abbrev other_key : List ℕ
other_key = 100 ∷ []

other_parent :
    find_parent 1 other_key some_file
    ≡ some (record { page = 1; entry = get_bucket other_key 1; depth = 0 })
unfolding find_parent find_from child read_field fetch copy of_le le_bytes entry_bytes get_bucket
    hash_bucket hash_key fnv_hash fnv_loop get_msb clear_msb
other_parent = refl

other_child : child some_file 1 (get_bucket other_key 1) ≡ 0
unfolding child read_field fetch copy of_le le_bytes entry_bytes get_bucket hash_bucket hash_key
    fnv_hash fnv_loop
other_child = refl

remove-absent_example : remove 1 other_key some_file ≡ some (false, some_file)
remove-absent_example =
    remove-absent 1 some_file other_key
      (record { page = 1; entry = get_bucket other_key 1; depth = 0 }) other_parent
      (inl other_child)

-- 65541 pages are taken, the last FPL page of order 0 is page 2, and there is no key.
abbrev many_pages : Mem
many_pages a = if a == 16 then 5 else if a == 18 then 1 else if a == 24 then 2 else 0

abbrev one_key : List ℕ
one_key = 1 ∷ []

abbrev one_entry : Parent
one_entry = record { page = 1; entry = get_bucket one_key 1; depth = 0 }

one_parent : find_parent 1 one_key many_pages ≡ some one_entry
unfolding find_parent find_from child read_field fetch of_le get_bucket hash_bucket hash_key
    fnv_hash fnv_loop get_msb
one_parent = refl

one_child : child many_pages 1 (get_bucket one_key 1) ≡ 0
unfolding child read_field fetch of_le get_bucket hash_bucket hash_key fnv_hash fnv_loop
one_child = refl

many_taken : read_field 8 many_pages meta_page next_free_page ≡ 65541
unfolding read_field fetch of_le
many_taken = refl

many_last : read_field 8 many_pages meta_page (last_fpl_page 0) ≡ 2
unfolding read_field fetch of_le
many_last = refl

-- The read reports a value of 8 GiB.
read_value_length-meta_page_example :
    read_value_length 1 one_key many_pages
    ≡ some (
        if read_field 8 many_pages meta_page next_free_page / 2 ^ 16 == 1
        then some (2 ^ 32 * read_field 8 many_pages meta_page (last_fpl_page 0))
        else none)
read_value_length-meta_page_example =
    read_value_length-meta_page 1 many_pages 1 one_entry one_parent one_child (omega arith)
      (λ a. ground arith) (omega (arith, many_taken)) (omega (arith, many_last))
      (omega (arith, many_last))

-- The root and one internal node below it, on page 2.
abbrev two_levels : Mem
two_levels = set_child 1 (get_bucket abc 1) (set_msb 2 1) (λ a. 0)

child-zero : (page i : ℕ) → child (λ a. 0) page i ≡ 0
unfolding child read_field fetch of_le
child-zero page i = refl

child-other :
    (page i : ℕ) → ((page ≡ 1) × (i ≢ get_bucket abc 1)) ⊎ (page ≡ 2) → child two_levels page i ≡ 0
unfolding child set_child
child-other page i h =
    read_field-write_other 8 page (8 * i) 8 1 (8 * get_bucket abc 1) (set_msb 2 1) (λ a. 0)
      (ground (arith, h, bucket-lt abc 1))
    ∙ child-zero page i

child-root : child two_levels 1 (get_bucket abc 1) ≡ set_msb 2 1
unfolding child set_child set_msb
child-root = read_field-write_field 8 1 (8 * get_bucket abc 1) (set_msb 2 1) (λ a. 0) (omega arith)

inner-IsNode : IsNode 1 two_levels 2
inner-IsNode i low k =
    let z = child-other 2 i (inr refl) in absurd (false≢true (sym k ∙ ground (arith, z)))

inner_page : clear_msb (set_msb 2 1) ≡ 2
unfolding clear_msb set_msb
inner_page = refl

two_levels-IsNode : IsNode 2 two_levels 1
two_levels-IsNode i low k = elim (Bool-cases (i == get_bucket abc 1)) [
  | inl e ↦
      let same : i ≡ get_bucket abc 1 = ground arith in
      subst (IsNode 1 two_levels)
        (sym
          (ap (λ j. clear_msb (child two_levels 1 j)) same ∙ ap clear_msb child-root ∙ inner_page))
        inner-IsNode
  | inr e ↦
      let z = child-other 1 i (inl (refl, ground (arith, e))) in
      absurd (false≢true (sym k ∙ ground (arith, z)))
]

find_parent-Way_example :
    (p : Parent) × (find_parent 3 abc two_levels ≡ some p)
    × Way two_levels abc 1 0 p
    × (p.depth < 2)
    × (is_end (child two_levels p.page p.entry) ≡ true)
find_parent-Way_example = find_parent-Way 2 3 two_levels abc two_levels-IsNode (omega arith)

-- A value of 5000 bytes for "abc", which goes on at page 60.
abbrev big_file : Mem
big_file =
    copy
      (copy (λ a. 0) (address 50 0)
        (le_bytes 8 60 ++ (le_bytes 8 5012 ++ (le_bytes 2 1 ++ (abc ++ (0 ∷ le_bytes 8 5000))))))
      (address 1 (8 * get_bucket abc 1)) (le_bytes 8 50)

abbrev big_entry : Parent
big_entry = record { page = 1; entry = get_bucket abc 1; depth = 0 }

big_parent : find_parent 1 abc big_file ≡ some big_entry
unfolding find_parent find_from child read_field fetch copy of_le le_bytes get_bucket hash_bucket
    hash_key fnv_hash fnv_loop get_msb clear_msb
big_parent = refl

big_child : child big_file 1 (get_bucket abc 1) ≡ 50
unfolding child read_field fetch copy of_le le_bytes get_bucket hash_bucket hash_key fnv_hash
    fnv_loop
big_child = refl

big_page : clear_msb (child big_file 1 (get_bucket abc 1)) ≡ 50
unfolding clear_msb
big_page = ap clear_msb big_child

big_msb : get_msb (child big_file 1 (get_bucket abc 1)) ≡ 0
unfolding get_msb
big_msb = ap get_msb big_child

big_next : read_field 8 big_file 50 0 ≡ 60
unfolding read_field fetch copy of_le le_bytes get_bucket hash_bucket hash_key fnv_hash fnv_loop
big_next = refl

big_file-IsBigLeaf : IsBigLeaf big_file 50 abc 5000 1
unfolding leaf_at fetch copy le_bytes get_bucket hash_bucket hash_key fnv_hash fnv_loop Chained
    next_region_start room
big_file-IsBigLeaf = record {
  more = replicate 4066 0;
  contents = refl;
  goes_on = ground (arith, big_next);
  chain = (ground (arith, big_next), tt);
  few = omega arith;
  inside = omega arith;
  sized = omega arith;
  enough = omega arith;
}

-- The last 20 bytes of the value.
read_part-big_example :
    read_part 1 abc 4980 100 big_file
    ≡ some (
        some (
          take 20 (
            drop 4980 (
              regions_bytes
                (big_value abc (clear_msb (child big_file 1 (get_bucket abc 1))))
                big_file
                2
                0
                (clear_msb (child big_file 1 (get_bucket abc 1)))))))
read_part-big_example =
    read_part-big 1 big_file abc big_entry 5000 1 4980 100 big_parent big_msb (omega arith)
      abc-no_nul (subst (λ q. IsBigLeaf big_file q abc 5000 1) (sym big_page) big_file-IsBigLeaf)
      (omega arith)
