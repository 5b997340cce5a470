-- ===== src/Leaf/Tests.antt =====
-- A leaf with two entries.
use diskmap_cpp.Common.{
  ℕ, ◌-◌, ◌<◌, ◌≤◌, ◌⊎◌, ◌≡◌, refl, false, none, some, List, [], ◌∷◌, ◌++◌, arith, replicate, drop,
  length-replicate,
}
use diskmap_cpp.Bytes.{le_bytes}
use diskmap_cpp.Leaf.{
  KvEntry, LeafPage, capacity, find_entry_in_leaf, get_entries_in_leaf, entries_buffer,
  total_entries_size, entry_bytes,
}
use diskmap_cpp.Leaf.Format.{IsEntry}
use diskmap_cpp.Leaf.Find.{position_of, find_entry_in_leaf-position_of}
use diskmap_cpp.Leaf.Entries.{get_entries_in_leaf-entries_buffer}
use diskmap_cpp.Leaf.Check.{all_zero, validate_leaf_integrity, validate_leaf_integrity-rest}
use diskmap_cpp.Leaf.Edit.{append_if_fits, update_value_trivially, remove_entry}
use diskmap_cpp.Leaf.Edit.Holds.{Holds}
use diskmap_cpp.Leaf.Edit.Append.{append_if_fits-Holds}
use diskmap_cpp.Leaf.Edit.Remove.{remove_entry-Holds}
use diskmap_cpp.Leaf.Edit.Update.{update_value_trivially-Holds, update_value_trivially-too_long}
use diskmap_cpp.Leaf.Edit.Shrink.{update_value_trivially-left_over, update_value_trivially-shrunk}

abbrev entry_a : KvEntry
entry_a = record { key = 97 ∷ []; value = 1 ∷ 2 ∷ 3 ∷ [] }

abbrev entry_b : KvEntry
entry_b = record { key = 98 ∷ 99 ∷ []; value = 4 ∷ [] }

abbrev longer : List ℕ
longer = 9 ∷ 9 ∷ 9 ∷ 9 ∷ []

abbrev two_entries : LeafPage
two_entries = record {
  next = 0;
  usage = 25;
  entry_count = 2;
  contents = entries_buffer (entry_a ∷ entry_b ∷ []) ++ replicate 4053 0;
}

entry_a-IsEntry : IsEntry entry_a
entry_a-IsEntry = record {
  not_empty = omega arith;
  no_nul = (omega arith, tt);
  sized = omega arith;
}

entry_b-IsEntry : IsEntry entry_b
entry_b-IsEntry = record {
  not_empty = omega arith;
  no_nul = (omega arith, (omega arith, tt));
  sized = omega arith;
}

two_entries-Holds : Holds two_entries (entry_a ∷ entry_b ∷ [])
unfolding total_entries_size
two_entries-Holds = record {
  entries = (entry_a-IsEntry, (entry_b-IsEntry, tt));
  contents = refl;
  usage = refl;
  fits = omega arith;
  count = refl;
}

append_if_fits-Holds_example :
    ((total_entries_size (entry_a ∷ entry_b ∷ entry_b ∷ []) ≤ capacity)
      × ((leaf' : LeafPage) × (append_if_fits entry_b two_entries ≡ some leaf')
          × Holds leaf' (entry_a ∷ entry_b ∷ entry_b ∷ [])))
    ⊎ ((capacity < total_entries_size (entry_a ∷ entry_b ∷ entry_b ∷ []))
        × (append_if_fits entry_b two_entries ≡ none))
append_if_fits-Holds_example =
    append_if_fits-Holds two_entries (entry_a ∷ entry_b ∷ []) entry_b two_entries-Holds
      entry_b-IsEntry

remove_entry-Holds_example :
    (leaf' : LeafPage) × (remove_entry (total_entries_size []) (97 ∷ []) two_entries ≡ some leaf')
    × Holds leaf' (entry_b ∷ [])
remove_entry-Holds_example =
    remove_entry-Holds [] (entry_b ∷ []) entry_a two_entries two_entries-Holds

update_value_trivially-Holds_example :
    (leaf' : LeafPage) × (update_value_trivially
        (total_entries_size [])
        (97 ∷ [])
        longer
        two_entries
      ≡ some leaf')
    × Holds leaf' (record entry_a { value = longer } ∷ entry_b ∷ [])
unfolding total_entries_size
update_value_trivially-Holds_example =
    update_value_trivially-Holds [] (entry_b ∷ []) entry_a longer two_entries two_entries-Holds
      (omega arith) (omega arith) (omega arith)

find_entry_in_leaf-position_of_example :
    find_entry_in_leaf (entries_buffer (entry_a ∷ entry_b ∷ []) ++ replicate 9 0) (98 ∷ 99 ∷ [])
    ≡ position_of (entry_a ∷ entry_b ∷ []) (98 ∷ 99 ∷ []) 0
find_entry_in_leaf-position_of_example =
    find_entry_in_leaf-position_of (entry_a ∷ entry_b ∷ []) 9 (98 ∷ 99 ∷ [])
      (entry_a-IsEntry, (entry_b-IsEntry, tt)) (omega arith, (omega arith, tt))

get_entries_in_leaf-entries_buffer_example :
    get_entries_in_leaf (entries_buffer (entry_a ∷ entry_b ∷ []) ++ replicate 9 0)
    ≡ some (entry_a ∷ entry_b ∷ [])
get_entries_in_leaf-entries_buffer_example =
    get_entries_in_leaf-entries_buffer (entry_a ∷ entry_b ∷ []) 9
      (entry_a-IsEntry, (entry_b-IsEntry, tt))

update_value_trivially-left_over_example :
    (leaf' : LeafPage) × (update_value_trivially
        (total_entries_size [])
        (97 ∷ [])
        (8 ∷ [])
        two_entries
      ≡ some leaf')
    × (leaf'.usage ≡ total_entries_size (record entry_a { value = 8 ∷ [] } ∷ entry_b ∷ []))
    × (leaf'.contents
        ≡ entries_buffer (record entry_a { value = 8 ∷ [] } ∷ entry_b ∷ [])
          ++ (drop
                (total_entries_size (record entry_a { value = 8 ∷ [] } ∷ entry_b ∷ []))
                (entries_buffer (entry_a ∷ entry_b ∷ []))
              ++ replicate (capacity - total_entries_size (entry_a ∷ entry_b ∷ [])) 0))
update_value_trivially-left_over_example =
    update_value_trivially-left_over [] (entry_b ∷ []) entry_a (8 ∷ []) two_entries
      two_entries-Holds (omega arith)

too_long-fits :
    capacity < total_entries_size (record entry_a { value = replicate 4078 7 } ∷ entry_b ∷ [])
unfolding total_entries_size
too_long-fits = omega (arith, length-replicate {A = ℕ} 4078 7)

update_value_trivially-too_long_example :
    update_value_trivially (total_entries_size []) (97 ∷ []) (replicate 4078 7) two_entries ≡ none
update_value_trivially-too_long_example =
    update_value_trivially-too_long [] (entry_b ∷ []) entry_a (replicate 4078 7) two_entries
      two_entries-Holds (omega (arith, length-replicate {A = ℕ} 4078 7)) too_long-fits

update_value_trivially-shrunk_example :
    (leaf' : LeafPage) × (update_value_trivially
        (total_entries_size [])
        (97 ∷ [])
        (8 ∷ [])
        two_entries
      ≡ some leaf')
    × (validate_leaf_integrity leaf'
        ≡ all_zero (
            drop
              (total_entries_size (record entry_a { value = 8 ∷ [] } ∷ entry_b ∷ []))
              (entries_buffer (entry_a ∷ entry_b ∷ []))))
update_value_trivially-shrunk_example =
    update_value_trivially-shrunk [] (entry_b ∷ []) entry_a (8 ∷ []) two_entries two_entries-Holds
      (omega arith)

-- The last two bytes are part of the old value of the second entry.
shrunk_rejected :
    all_zero (
      drop
        (total_entries_size (record entry_a { value = 8 ∷ [] } ∷ entry_b ∷ []))
        (entries_buffer (entry_a ∷ entry_b ∷ [])))
    ≡ false
unfolding all_zero total_entries_size entries_buffer entry_bytes le_bytes
shrunk_rejected = refl

validate_leaf_integrity-rest_example :
    validate_leaf_integrity two_entries ≡ all_zero (replicate 4053 0)
validate_leaf_integrity-rest_example =
    validate_leaf_integrity-rest two_entries (entry_a ∷ entry_b ∷ []) (replicate 4053 0)
      (entry_a-IsEntry, (entry_b-IsEntry, tt)) refl refl
