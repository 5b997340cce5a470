-- ===== src/Leaf/Edit/Shrink.antt =====
-- `update_value_trivially` with a shorter value: the bytes that the entries no longer reach are not
-- cleared.
use diskmap_cpp.Common.{
  ℕ, ◌+◌, ◌-◌, ◌^◌, ◌≤◌, ◌<◌, ◌≡◌, sym, ap, ◌∙◌, some, List, [], ◌++◌, arith, length, drop,
  replicate, append-nil, drop_behind,
}
use diskmap_cpp.Bytes.{le_bytes}
use diskmap_cpp.Leaf.{KvEntry, LeafPage, capacity, entries_buffer, total_entries_size}
use diskmap_cpp.Leaf.Format.{length-entries_buffer}
use diskmap_cpp.Leaf.Check.{
  all_zero, validate_leaf_integrity, validate_leaf_integrity-rest, all_zero-append,
}
use diskmap_cpp.Leaf.Edit.{resize_value, update_value_trivially}
use diskmap_cpp.Leaf.Edit.Update
use diskmap_cpp.Leaf.Edit.Update.{before, after, sizes}
use diskmap_cpp.Leaf.Edit.Holds.{
  Holds, front_of, length-front_of, entries_buffer-split, total_entries_size-split,
}

module _ (pre post : List KvEntry) (e : KvEntry) (value : List ℕ) (leaf : LeafPage)
    (h : Holds leaf (before pre post e value)) (shrinks : length value < length e.value) where
  -- The end of the entries' bytes before the update.
  abbrev left_over : List ℕ
  left_over =
      drop (total_entries_size (after pre post e value)) (entries_buffer (before pre post e value))

  small : length value < 2 ^ 63
  small = omega (arith, h.fits, total_entries_size-split pre post e)

  fits : total_entries_size (after pre post e value) ≤ capacity
  fits = omega (arith, h.fits, sizes pre post e value)

  no_growth : length value - length e.value ≡ 0
  no_growth = omega arith

  stale-left_over : Update.stale pre post e value leaf h small fits ≡ left_over
  stale-left_over = rw no_growth (
      sym (
        drop_behind (front_of pre e) rest (total_entries_size (after pre post e value))
          (8 + length value + length (entries_buffer post))
          (omega (
            arith,
            length-front_of pre e,
            length-entries_buffer post,
            total_entries_size-split pre post (record e { value = value }),
          )))
      ∙ ap (drop (total_entries_size (after pre post e value))) whole)
    where
      rest : List ℕ
      rest = le_bytes 8 (length e.value) ++ (e.value ++ (entries_buffer post ++ []))

      whole : front_of pre e ++ rest ≡ entries_buffer (before pre post e value)
      whole = sym (entries_buffer-split pre post e []) ∙ append-nil _

  shrunk_contents :
      (resize_value (Update.start pre post e value leaf h) (length e.value) value leaf).contents
      ≡ entries_buffer (after pre post e value)
        ++ (left_over ++ replicate (capacity - total_entries_size (before pre post e value)) 0)
  shrunk_contents =
      let kept : capacity
            - total_entries_size (before pre post e value)
            - (length value - length e.value)
          ≡ capacity - total_entries_size (before pre post e value) =
        omega arith in
      Update.resized_contents pre post e value leaf h small fits
      ∙ ap
          (λ s.
            entries_buffer (after pre post e value)
            ++ (s
                ++ replicate
                    (capacity
                      - total_entries_size (before pre post e value)
                      - (length value - length e.value))
                    0))
          stale-left_over
      ∙ ap (λ n. entries_buffer (after pre post e value) ++ (left_over ++ replicate n 0)) kept

  -- In a leaf that holds its entries, an update of one of them by a shorter value succeeds, and
  -- the usage is that of the new entries; but behind them the page keeps the end of the old
  -- entries' bytes.
  pub update_value_trivially-left_over :
      (leaf' : LeafPage) × (update_value_trivially (total_entries_size pre) e.key value leaf
        ≡ some leaf')
      × (leaf'.usage ≡ total_entries_size (after pre post e value))
      × (leaf'.contents
          ≡ entries_buffer (after pre post e value)
            ++ (drop
                  (total_entries_size (after pre post e value))
                  (entries_buffer (before pre post e value))
                ++ replicate (capacity - total_entries_size (before pre post e value)) 0))
  update_value_trivially-left_over = (
    resize_value (Update.start pre post e value leaf h) (length e.value) value leaf,
    Update.other_length pre post e value leaf h small fits (λ eq. omega arith),
    (unfold resize_value in Update.new_usage pre post e value leaf h small),
    shrunk_contents,
  )

  -- In a leaf that holds its entries, an update of one of them by a shorter value succeeds, and
  -- `validate_leaf_integrity` accepts the page that it leaves if and only if the bytes that the
  -- entries no longer reach were all zero.
  pub update_value_trivially-shrunk :
      (leaf' : LeafPage) × (update_value_trivially (total_entries_size pre) e.key value leaf
        ≡ some leaf')
      × (validate_leaf_integrity leaf'
          ≡ all_zero (
              drop
                (total_entries_size (after pre post e value))
                (entries_buffer (before pre post e value))))
  unfolding resize_value
  update_value_trivially-shrunk =
      let zeros : List ℕ = replicate (capacity - total_entries_size (before pre post e value)) 0 in
      let shrunk =
        resize_value (Update.start pre post e value leaf h) (length e.value) value leaf in
      (
        shrunk,
        Update.other_length pre post e value leaf h small fits (λ eq. omega arith),
        validate_leaf_integrity-rest shrunk (after pre post e value) (left_over ++ zeros)
              (Update.valid_after pre post e value leaf h small fits) shrunk_contents
              (Update.count_after pre post e value leaf h small fits)
            ∙ all_zero-append left_over _,
      )
