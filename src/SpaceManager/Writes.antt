-- ===== src/SpaceManager/Writes.antt =====
-- What `SpaceManager::allocate` writes, and the fields that it leaves alone.
use diskmap_cpp.Common.{
  ℕ, zero, suc, ◌+◌, ◌-◌, ◌≤◌, ◌<◌, ◌≡◌, refl, ◌∙◌, ◌⊎◌, Bool, true, false, if◌then◌else◌, arith,
}
use diskmap_cpp.Checksum.{u64_mod}
use diskmap_cpp.Memory.{Mem, page_size}
use diskmap_cpp.Page.{
  read_field, write_field, clear, meta_page, last_fpl_page, last_fpl_page_entries, max_order,
  fpl_page_capacity,
}
use diskmap_cpp.Page.Laws.{read_field-write_field, read_field-write_other, read_field-clear}
use diskmap_cpp.SpaceManager.{clear_region}

pub read_field-clear_region :
    (n page offset x k : ℕ) (m : Mem)
    → offset + n ≤ page_size
    → (page < x) ⊎ (x + k ≤ page)
    → read_field n (clear_region x k m) page offset ≡ read_field n m page offset
unfolding clear_region
read_field-clear_region n page offset x zero m fits h = refl
read_field-clear_region n page offset x (suc k) m fits h =
    read_field-clear_region n page offset (suc x) k (clear x m) fits (ground arith)
    ∙ read_field-clear n page offset x m (ground arith)

-- `drop_entry` on both branches: whether it moves to the page `before`.
abbrev pub dropped : Bool → ℕ → ℕ → ℕ → Mem → Mem
dropped moves order before count m =
    write_field 4 meta_page (last_fpl_page_entries order)
      (if moves then fpl_page_capacity else count - 1)
      (if moves then write_field 8 meta_page (last_fpl_page order) before m else m)

pub dropped-page :
    (moves : Bool) (order before count p offset : ℕ) (m : Mem)
    → order ≤ max_order
    → 0 < p
    → offset + 8 ≤ page_size
    → read_field 8 (dropped moves order before count m) p offset ≡ read_field 8 m p offset
dropped-page true order before count p offset m small h fits =
    read_field-write_other 8 p offset 4 meta_page (last_fpl_page_entries order) fpl_page_capacity
      (write_field 8 meta_page (last_fpl_page order) before m) (ground arith)
    ∙ read_field-write_other 8 p offset 8 meta_page (last_fpl_page order) before m (ground arith)
dropped-page false order before count p offset m small h fits =
    read_field-write_other 8 p offset 4 meta_page (last_fpl_page_entries order) (count - 1) m
      (ground arith)

pub dropped-filled :
    (moves : Bool) (order before count : ℕ) (m : Mem)
    → count ≤ fpl_page_capacity
    → read_field 4 (dropped moves order before count m) meta_page (last_fpl_page_entries order)
      ≡ (if moves then fpl_page_capacity else count - 1)
dropped-filled true order before count m room =
    read_field-write_field 4 meta_page (last_fpl_page_entries order) fpl_page_capacity
      (write_field 8 meta_page (last_fpl_page order) before m) (omega arith)
dropped-filled false order before count m room =
    read_field-write_field 4 meta_page (last_fpl_page_entries order) (count - 1) m (omega arith)

pub dropped-last :
    (moves : Bool) (order before count : ℕ) (m : Mem)
    → order ≤ max_order
    → before < u64_mod
    → read_field 8 (dropped moves order before count m) meta_page (last_fpl_page order)
      ≡ (if moves then before else read_field 8 m meta_page (last_fpl_page order))
dropped-last true order before count m small h =
    read_field-write_other 8 meta_page (last_fpl_page order) 4 meta_page
      (last_fpl_page_entries order) fpl_page_capacity
      (write_field 8 meta_page (last_fpl_page order) before m) (ground arith)
    ∙ read_field-write_field 8 meta_page (last_fpl_page order) before m h
dropped-last false order before count m small h =
    read_field-write_other 8 meta_page (last_fpl_page order) 4 meta_page
      (last_fpl_page_entries order) (count - 1) m (ground arith)
