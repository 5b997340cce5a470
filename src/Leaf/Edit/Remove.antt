-- ===== src/Leaf/Edit/Remove.antt =====
-- An entry taken out of a leaf.
use diskmap_cpp.Common.{
  ℕ, zero, ◌+◌, ◌-◌, ◌≡◌, refl, sym, ap, ◌∙◌, some, List, ◌∷◌, ◌++◌, arith, length, take, drop,
  replicate, All, All-append, append_assoc, length-append, length-replicate, take-length_append,
  drop_behind, replicate_add, drop-length_append,
}
use diskmap_cpp.Leaf.{
  KvEntry, LeafPage, capacity, read_u64, entry_bytes, entries_buffer, total_entries_size, splice,
  usage_after,
}
use diskmap_cpp.Leaf.Format.{IsEntry, length-entries_buffer, length-entry_bytes}
use diskmap_cpp.Leaf.Entries.{length-le-entries_buffer}
use diskmap_cpp.Leaf.Edit.{remove_bytes, remove_entry}
use diskmap_cpp.Leaf.Edit.Holds.{
  Holds, entries_buffer-append, total_entries_size-append, total_entries_size-split, All-split,
  read_u64-entry,
}

-- The bytes `rs` moved left over `es`, and zeros in their place.
module _ (ps es rs : List ℕ) (k : ℕ) where
  abbrev laid : List ℕ
  laid = ps ++ (es ++ (rs ++ replicate k 0))

  abbrev moved : List ℕ
  moved = take (length rs) (drop (length ps + length es) laid) ++ replicate (length es) 0

  moved-eq : moved ≡ rs ++ replicate (length es) 0
  moved-eq = rw (
    drop_behind ps (es ++ (rs ++ replicate k 0)) _ (length es) refl,
    drop-length_append es (rs ++ replicate k 0),
    take-length_append rs (replicate k 0),
  )

  length-moved : length (rs ++ replicate (length es) 0) ≡ length es + length rs
  length-moved =
      omega
        (arith, length-append rs (replicate (length es) zero), length-replicate (length es) zero)

  pub splice-moved : splice laid (length ps) moved ≡ ps ++ (rs ++ replicate (length es + k) 0)
  unfolding splice
  splice-moved = rw (
    moved-eq,
    take-length_append ps (es ++ (rs ++ replicate k 0)),
    length-moved,
    drop_behind ps (es ++ (rs ++ replicate k 0)) _ (length es + length rs) refl,
    drop_behind es (rs ++ replicate k 0) _ (length rs) refl,
    drop-length_append rs (replicate k 0),
    append_assoc,
    replicate_add,
  )

  pub splice-removed :
      (c : List ℕ) (start size n : ℕ)
      → c ≡ laid
      → start ≡ length ps
      → size ≡ length es
      → n ≡ length rs
      → splice c start (take n (drop (start + size) c) ++ replicate size 0)
        ≡ ps ++ (rs ++ replicate (length es + k) 0)
  splice-removed c start size n ec est esz en = rw (ec, est, esz, en) splice-moved

module _ (pre post : List KvEntry) (e : KvEntry) where
  -- The entry, the entries behind it and the zeros.
  page :
      (k : ℕ)
      → entries_buffer (pre ++ e ∷ post) ++ replicate k 0
        ≡ laid (entries_buffer pre) (entry_bytes e) (entries_buffer post) k
  unfolding entries_buffer
  page k = rw (entries_buffer-append pre (e ∷ post)) (simp append_assoc)

  -- Removing an entry at its offset from a leaf that holds `pre`, the entry and `post` succeeds
  -- and gives a leaf that holds `pre` and `post`: the bytes behind are moved, the freed bytes
  -- zeroed, usage and count lowered.
  pub remove_entry-Holds :
      (leaf : LeafPage)
      → Holds leaf (pre ++ e ∷ post)
      → (leaf' : LeafPage) × (remove_entry (total_entries_size pre) e.key leaf ≡ some leaf')
        × Holds leaf' (pre ++ post)
  unfolding remove_entry
  remove_entry-Holds leaf h = (
    remove_bytes (total_entries_size pre) size leaf,
    (let r : read_u64 (drop (total_entries_size pre + length e.key + 1) leaf.contents)
            ≡ some (length e.value) =
          ap (λ c. read_u64 (drop (total_entries_size pre + length e.key + 1) c)) h.contents
          ∙ read_u64-entry pre post e zeros valid.1 in
        rw r),
    record {
      entries = All-append IsEntry pre post valid.0 valid.2;
      contents =
          splice-removed (entries_buffer pre) (entry_bytes e) (entries_buffer post) k leaf.contents
            (total_entries_size pre) size _ (h.contents ∙ page k) (sym (length-entries_buffer pre))
            (omega (arith, length-entry_bytes e))
            (omega (arith, h.usage, whole, length-entries_buffer post))
          ∙ laid_out;
      usage =
          (unfold usage_after in
            omega (arith, h.usage, h.fits, whole, total_entries_size-append pre post));
      fits = omega (arith, h.fits, whole, total_entries_size-append pre post);
      count = omega (
        arith,
        h.count,
        h.fits,
        length-append pre (e ∷ post),
        length-append pre post,
        length-le-entries_buffer (pre ++ e ∷ post),
        length-entries_buffer (pre ++ e ∷ post),
      );
    },
  )
    where
      size : ℕ
      size = length e.key + 1 + 8 + length e.value

      k : ℕ
      k = capacity - total_entries_size (pre ++ e ∷ post)

      zeros : List ℕ
      zeros = replicate k 0

      valid : All IsEntry pre × IsEntry e × All IsEntry post
      valid = All-split pre post e h.entries

      whole :
          total_entries_size (pre ++ e ∷ post)
          ≡ total_entries_size pre
            + length e.key
            + 1
            + (8 + (length e.value + total_entries_size post))
      whole = total_entries_size-split pre post e

      laid_out :
          entries_buffer pre ++ (entries_buffer post ++ replicate (length (entry_bytes e) + k) 0)
          ≡ entries_buffer (pre ++ post)
            ++ replicate (capacity - total_entries_size (pre ++ post)) 0
      laid_out =
          let e : capacity - total_entries_size (pre ++ post) ≡ length (entry_bytes e) + k =
            omega
              (arith, h.fits, whole, total_entries_size-append pre post, length-entry_bytes e) in
          rw (e, entries_buffer-append pre post, append_assoc)
