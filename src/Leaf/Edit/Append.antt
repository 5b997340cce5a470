-- ===== src/Leaf/Edit/Append.antt =====
-- A new entry behind the others.
use diskmap_cpp.Common.{
  ℕ, zero, ◌+◌, ◌-◌, ◌≤◌, ◌<◌, ◌≡◌, ◌⊎◌, inl, inr, none, some, leb, Bool-cases, refl, ap, ◌∙◌, List,
  [], ◌∷◌, ◌++◌, arith, length, replicate, All-append, append_assoc, append-nil, length-append,
  take-length_append, drop_behind, drop-replicate,
}
use diskmap_cpp.Leaf.{
  KvEntry, LeafPage, capacity, entry_bytes, entries_buffer, total_entries_size, splice,
}
use diskmap_cpp.Leaf.Format.{IsEntry, length-entries_buffer, length-entry_bytes}
use diskmap_cpp.Leaf.Entries.{length-le-entries_buffer}
use diskmap_cpp.Leaf.Edit.{append_entry, append_if_fits}
use diskmap_cpp.Leaf.Edit.Holds.{Holds, entries_buffer-append, total_entries_size-append}

splice_behind :
    (xs ys : List ℕ) (k : ℕ)
    → splice (xs ++ replicate k 0) (length xs) ys ≡ xs ++ (ys ++ replicate (k - length ys) 0)
unfolding splice
splice_behind xs ys k = rw (
  take-length_append xs (replicate k 0),
  drop_behind xs (replicate k 0) _ (length ys) refl,
  drop-replicate (length ys) k zero,
)

pub append_entry-Holds :
    (leaf : LeafPage) (es : List KvEntry) (e : KvEntry)
    → Holds leaf es
    → IsEntry e
    → total_entries_size es + (length e.key + 1 + 8 + length e.value) ≤ capacity
    → Holds (append_entry e leaf) (es ++ e ∷ [])
unfolding append_entry total_entries_size
append_entry-Holds leaf es e h valid fits = record {
  entries = All-append IsEntry es (e ∷ []) h.entries (valid, tt);
  contents =
      ap (λ c. splice c leaf.usage (entry_bytes e)) h.contents
      ∙ ap (λ u. splice (entries_buffer es ++ zeros) u (entry_bytes e)) at_end
      ∙ splice_behind (entries_buffer es) (entry_bytes e) (capacity - total_entries_size es)
      ∙ laid_out;
  usage = omega (arith, size, h.usage);
  fits = omega (arith, size);
  count = omega (
    arith,
    h.count,
    h.fits,
    length-append es (e ∷ []),
    length-le-entries_buffer es,
    length-entries_buffer es,
  );
}
  where
    size :
        total_entries_size (es ++ e ∷ [])
        ≡ total_entries_size es + (length e.key + 1 + 8 + length e.value)
    size = omega (arith, total_entries_size-append es (e ∷ []))

    zeros : List ℕ
    zeros = replicate (capacity - total_entries_size es) 0

    at_end : leaf.usage ≡ length (entries_buffer es)
    at_end = omega (arith, h.usage, length-entries_buffer es)

    left :
        capacity - total_entries_size (es ++ e ∷ [])
        ≡ capacity - total_entries_size es - length (entry_bytes e)
    left = omega (arith, size, length-entry_bytes e)

    laid_out :
        entries_buffer es
          ++ (entry_bytes e
              ++ replicate (capacity - total_entries_size es - length (entry_bytes e)) 0)
        ≡ entries_buffer (es ++ e ∷ [])
          ++ replicate (capacity - total_entries_size (es ++ e ∷ [])) 0
    laid_out =
        rw (left, entries_buffer-append es (e ∷ []), append_assoc)
          (unfold entries_buffer in rw append-nil)

-- A new valid entry for a leaf that holds `es`: where it fits, the append succeeds and gives a leaf
-- that holds `es` with the new entry at the end (bytes, usage and count); where it does not fit,
-- nothing is appended.
pub append_if_fits-Holds :
    (leaf : LeafPage) (es : List KvEntry) (e : KvEntry)
    → Holds leaf es
    → IsEntry e
    → ((total_entries_size (es ++ e ∷ []) ≤ capacity)
        × ((leaf' : LeafPage) × (append_if_fits e leaf ≡ some leaf') × Holds leaf' (es ++ e ∷ [])))
      ⊎ ((capacity < total_entries_size (es ++ e ∷ [])) × (append_if_fits e leaf ≡ none))
unfolding append_if_fits total_entries_size
append_if_fits-Holds leaf es e h valid =
    let entry_size = length e.key + 1 + 8 + length e.value in
    let size = total_entries_size-append es (e ∷ []) in
    elim (Bool-cases (leb (leaf.usage + entry_size) capacity)) [
      | inl room ↦
          let fits : total_entries_size es + entry_size ≤ capacity = ground (arith, h.usage) in
          inl (
            omega (arith, size),
            (append_entry e leaf, rw room, append_entry-Holds leaf es e h valid fits),
          )
      | inr full ↦
          let long : capacity < total_entries_size es + entry_size = ground (arith, h.usage) in
          inr (omega (arith, size), rw full)
    ]
