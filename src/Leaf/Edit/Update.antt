-- ===== src/Leaf/Edit/Update.antt =====
-- `update_value_trivially` on every branch: a value that grows or keeps its length, a value that
-- shrinks, and a value that does not fit.
use diskmap_cpp.Common.{
  ℕ, ◌+◌, ◌-◌, ◌^◌, ◌≤◌, ◌<◌, ◌≡◌, ◌≢◌, refl, sym, ap, ◌∙◌, true, false, none, some, List, ◌∷◌,
  ◌++◌, arith, ◌==◌, ltb, if◌then◌else◌, length, drop, replicate, All, All-append, append_assoc,
  length-append, take-length_append, take_behind, drop_behind, drop-length_append,
}
use native.Mathlib.Decide.{ℕ_discrete}
use diskmap_cpp.Bytes.{le_bytes, length-le_bytes}
use diskmap_cpp.Leaf.{
  KvEntry, LeafPage, capacity, read_u64, entries_buffer, total_entries_size, splice, usage_after,
}
use diskmap_cpp.Leaf.Format.{IsEntry, length-entries_buffer}
use diskmap_cpp.Leaf.Edit.{resize_value, update_value_trivially}
use diskmap_cpp.Leaf.Edit.Buffer
use diskmap_cpp.Leaf.Edit.Holds.{
  Holds, front_of, length-front_of, entries_buffer-split, total_entries_size-split, All-split,
  read_u64-entry,
}

-- A value written over another one of the same length.
over_value :
    (fs ls vs rest ns c : List ℕ) (start : ℕ)
    → c ≡ fs ++ (ls ++ (vs ++ rest))
    → start ≡ length fs + length ls
    → length ns ≡ length vs
    → splice c start ns ≡ fs ++ (ls ++ (ns ++ rest))
unfolding splice
over_value fs ls vs rest ns c start ec est eq =
    rw
      (
        ec,
        est,
        take_behind fs (ls ++ (vs ++ rest)) _ (length ls) refl,
        take-length_append ls (vs ++ rest),
        drop_behind fs (ls ++ (vs ++ rest)) (length fs + length ls + length ns)
            (length ls + length ns) (omega arith),
        drop_behind ls (vs ++ rest) _ (length ns) refl,
        eq,
        drop-length_append vs rest,
      )
      (simp append_assoc)

module _ (pre post : List KvEntry) (e : KvEntry) (value : List ℕ) where
  abbrev pub before : List KvEntry
  before = pre ++ e ∷ post

  abbrev pub updated : KvEntry
  updated = record e { value = value }

  abbrev pub after : List KvEntry
  after = pre ++ updated ∷ post

  pub sizes : total_entries_size after + length e.value ≡ total_entries_size before + length value
  sizes =
      omega (arith, total_entries_size-split pre post e, total_entries_size-split pre post updated)

  module _ (leaf : LeafPage) (h : Holds leaf before) where
    abbrev pub start : ℕ
    start = total_entries_size pre + length e.key + 1

    abbrev pub k : ℕ
    k = capacity - total_entries_size before

    current_value_length : read_u64 (drop start leaf.contents) ≡ some (length e.value)
    current_value_length =
        ap (λ c. read_u64 (drop start c)) h.contents
        ∙ read_u64-entry pre post e (replicate k 0) (All-split pre post e h.entries).1

    module _ (small : length value < 2 ^ 63) where
      pub new_usage :
          usage_after leaf.usage (length value) (length e.value) ≡ total_entries_size after
      unfolding usage_after
      new_usage = omega (arith, sizes, h.usage, h.fits)

      -- In a leaf that holds its entries, an update of one of them by a value (shorter than 2^63
      -- bytes) with which the entries would not fit the page is refused.
      pub update_value_trivially-too_long :
          capacity < total_entries_size after
          → update_value_trivially (total_entries_size pre) e.key value leaf ≡ none
      unfolding update_value_trivially
      update_value_trivially-too_long long =
          let over : ltb capacity (usage_after leaf.usage (length value) (length e.value)) ≡ true =
            ground (arith, new_usage) in
          rw (current_value_length, over)

      module _ (fits : total_entries_size after ≤ capacity) where
        room : ltb capacity (usage_after leaf.usage (length value) (length e.value)) ≡ false
        room = ground (arith, new_usage)

        same_length :
            length value ≡ length e.value
            → update_value_trivially (total_entries_size pre) e.key value leaf
              ≡ some (record leaf { contents = splice leaf.contents (start + 8) value })
        unfolding update_value_trivially
        same_length eq =
            let same : (length value == length e.value) ≡ true = ground arith in
            rw (current_value_length, room, same)

        pub other_length :
            length value ≢ length e.value
            → update_value_trivially (total_entries_size pre) e.key value leaf
              ≡ some (resize_value start (length e.value) value leaf)
        unfolding update_value_trivially
        other_length ne =
            let other : (length value == length e.value) ≡ false = ground arith in
            rw (current_value_length, room, other)

        abbrev pub stale : List ℕ
        stale =
            Buffer.stale (front_of pre e) (le_bytes 8 (length e.value)) e.value
              (entries_buffer post) value k (length-le_bytes 8 (length e.value))

        grows :
            (if ltb (length e.value) (length value) then length value - length e.value else 0)
            ≡ length value - length e.value
        grows = ground arith

        pub resized_contents :
            (resize_value start (length e.value) value leaf).contents
            ≡ entries_buffer after ++ (stale ++ replicate (k - (length value - length e.value)) 0)
        unfolding resize_value
        resized_contents =
            Buffer.update_page (front_of pre e) (le_bytes 8 (length e.value)) e.value
              (entries_buffer post) value k (length-le_bytes 8 (length e.value))
              (omega (arith, sizes, h.fits)) leaf.contents start
              (leaf.usage
                + (if ltb (length e.value) (length value) then length value - length e.value else 0)
                - start)
              (leaf.usage - (start + 8 + length e.value))
              (h.contents ∙ entries_buffer-split pre post e (replicate k 0))
              (sym (length-front_of pre e))
              (omega (
                arith,
                h.usage,
                grows,
                total_entries_size-split pre post e,
                length-entries_buffer post,
              ))
              (omega
                (arith, h.usage, total_entries_size-split pre post e, length-entries_buffer post))
            ∙ sym (entries_buffer-split pre post updated _)

        same_contents :
            length value ≡ length e.value
            → splice leaf.contents (start + 8) value
              ≡ entries_buffer after ++ replicate (capacity - total_entries_size after) 0
        same_contents eq =
            over_value (front_of pre e) (le_bytes 8 (length e.value)) e.value
              (entries_buffer post ++ replicate k 0) value leaf.contents (start + 8)
              (h.contents ∙ entries_buffer-split pre post e (replicate k 0))
              (omega (arith, length-front_of pre e, length-le_bytes 8 (length e.value))) eq
            ∙ ap
                (λ n.
                  front_of pre e
                  ++ (le_bytes 8 n ++ (value ++ (entries_buffer post ++ replicate k 0))))
                (sym eq)
            ∙ sym (entries_buffer-split pre post updated (replicate k 0))
            ∙ ap (λ n. entries_buffer after ++ replicate n 0) (omega (arith, sizes))

        pub valid_after : All IsEntry after
        valid_after =
            let (a, b, c) = All-split pre post e h.entries in
            All-append IsEntry pre (updated ∷ post) a
              (record { not_empty = b.not_empty; no_nul = b.no_nul; sized = omega arith }, c)

        grown_contents :
            length e.value ≤ length value
            → (resize_value start (length e.value) value leaf).contents
              ≡ entries_buffer after ++ replicate (capacity - total_entries_size after) 0
        grown_contents grow =
            let none_stale =
              Buffer.stale-grown (front_of pre e) (le_bytes 8 (length e.value)) e.value
                (entries_buffer post) value k (length-le_bytes 8 (length e.value)) grow in
            let left : k - (length value - length e.value) ≡ capacity - total_entries_size after =
              omega (arith, sizes, h.fits) in
            resized_contents
            ∙ ap
                (λ s.
                  entries_buffer after ++ (s ++ replicate (k - (length value - length e.value)) 0))
                none_stale
            ∙ ap (λ n. entries_buffer after ++ replicate n 0) left

        pub count_after : leaf.entry_count ≡ length after
        count_after =
            omega (arith, h.count, length-append pre (e ∷ post), length-append pre (updated ∷ post))

        -- In a leaf that holds its entries, an update of one of them by a value at least as long
        -- as the old one (and shorter than 2^63 bytes), where it fits, succeeds: the page then
        -- holds the same entries with the new value in its place.
        pub update_value_trivially-Holds :
            length e.value ≤ length value
            → (leaf' : LeafPage) × (update_value_trivially (total_entries_size pre) e.key value leaf
                ≡ some leaf')
              × Holds leaf' after
        update_value_trivially-Holds grow = elim (ℕ_discrete (length value) (length e.value)) [
          | yes eq ↦ (
            record leaf { contents = splice leaf.contents (start + 8) value },
            same_length eq,
            record {
              entries = valid_after;
              contents = same_contents eq;
              usage = omega (arith, h.usage, sizes);
              fits = fits;
              count = count_after;
            },
          )
          | no ne ↦ (
            resize_value start (length e.value) value leaf,
            other_length ne,
            (unfold resize_value in
                record {
                  entries = valid_after;
                  contents = grown_contents grow;
                  usage = new_usage;
                  fits = fits;
                  count = count_after;
                }),
          )
        ]
