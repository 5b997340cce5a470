-- ===== src/SpaceManager/Setup.antt =====
-- The `DiskMap` constructor on a new data file (diskmap.cpp): it sets up the meta page, with an empty
-- free page list for each order. A new file reads as zeros.
use diskmap_cpp.Common.{
  ℕ, zero, suc, ◌+◌, ◌≤◌, ◌<◌, ◌≡◌, refl, ◌∙◌, ◌⊎◌, inl, inr, arith, List, [], ◌∷◌,
}
use native.Mathlib.Decide.{ℕ_discrete}
use diskmap_cpp.Bytes.{of_le}
use diskmap_cpp.Memory.{Mem, page_size, fetch}
use diskmap_cpp.Page.{
  read_field, write_field, meta_page, kv_entry_count, next_free_page, last_fpl_page,
  last_fpl_page_entries, previous, max_order,
}
use diskmap_cpp.Page.Laws.{read_field-write_field, read_field-write_other}
use diskmap_cpp.SpaceManager.{reserved_pages}
use diskmap_cpp.SpaceManager.Chain.{bottom}
use diskmap_cpp.SpaceManager.Allocate.{Frees}

-- `MAGIC`, with its NUL.
abbrev magic : List ℕ
magic = b'D' ∷ b'I' ∷ b'S' ∷ b'K' ∷ b'M' ∷ b'A' ∷ b'P' ∷ 0 ∷ []

-- One round of the loop.
abbrev init_fpl : ℕ → Mem → Mem
init_fpl order m =
    write_field 4 meta_page (last_fpl_page_entries order) 0
      (write_field 8 meta_page (last_fpl_page order) (order + 2) m)

-- `n` rounds, from `order` on.
unfoldable pub init_fpls : ℕ → ℕ → Mem → Mem
init_fpls zero order m = m
init_fpls (suc n) order m = init_fpls n (suc order) (init_fpl order m)

-- The writes to the meta page; the eight bytes of the magic string are one field.
unfoldable pub create : Mem → Mem
create m = write_field 8 meta_page 0 (of_le magic) (
    init_fpls (max_order + 1) 0 (
      write_field 8 meta_page next_free_page reserved_pages
        (write_field 8 meta_page kv_entry_count 0 m)))

abbrev pub IsBlank : Mem → Type 0
IsBlank m = (a : ℕ) → m a ≡ 0

blank-field : (m : Mem) (page offset : ℕ) → IsBlank m → read_field 8 m page offset ≡ 0
unfolding read_field fetch of_le
blank-field m page offset h = rw (h _, h _, h _, h _, h _, h _, h _, h _)

init_fpls-other :
    (k n order p offset : ℕ) (m : Mem)
    → order + n ≤ 39
    → offset + k ≤ page_size
    → (0 < p) ⊎ (offset + k ≤ 24)
    → read_field k (init_fpls n order m) p offset ≡ read_field k m p offset
unfolding init_fpls
init_fpls-other k zero order p offset m fits inside h = refl
init_fpls-other k (suc n) order p offset m fits inside h =
    let m1 = write_field 8 meta_page (last_fpl_page order) (order + 2) m in
    init_fpls-other k n (suc order) p offset (init_fpl order m) (omega arith) inside h
    ∙ read_field-write_other k p offset 4 meta_page (last_fpl_page_entries order) 0 m1
        (ground arith)
    ∙ read_field-write_other k p offset 8 meta_page (last_fpl_page order) (order + 2) m
        (ground arith)

module _ (o : ℕ) where
  -- The entries of an order that the loop has passed.
  init_fpls-passed :
      (n order : ℕ) (m : Mem)
      → order + n ≤ 39
      → o < order
      → (read_field 8 (init_fpls n order m) meta_page (last_fpl_page o)
          ≡ read_field 8 m meta_page (last_fpl_page o))
        × (read_field 4 (init_fpls n order m) meta_page (last_fpl_page_entries o)
            ≡ read_field 4 m meta_page (last_fpl_page_entries o))
  unfolding init_fpls
  init_fpls-passed zero order m fits h = (refl, refl)
  init_fpls-passed (suc n) order m fits h =
      let m1 = write_field 8 meta_page (last_fpl_page order) (order + 2) m in
      let (l, e) = init_fpls-passed n (suc order) (init_fpl order m) (omega arith) (omega arith) in
      (
        l
            ∙ read_field-write_other 8 meta_page (last_fpl_page o) 4 meta_page
                (last_fpl_page_entries order) 0 m1 (ground arith)
            ∙ read_field-write_other 8 meta_page (last_fpl_page o) 8 meta_page (last_fpl_page order)
                (order + 2) m (ground arith),
        e
            ∙ read_field-write_other 4 meta_page (last_fpl_page_entries o) 4 meta_page
                (last_fpl_page_entries order) 0 m1 (ground arith)
            ∙ read_field-write_other 4 meta_page (last_fpl_page_entries o) 8 meta_page
                (last_fpl_page order) (order + 2) m (ground arith),
      )

  init_fpls-set :
      (n order : ℕ) (m : Mem)
      → order + n ≤ 39
      → order ≤ o
      → o < order + n
      → (read_field 8 (init_fpls n order m) meta_page (last_fpl_page o) ≡ o + 2)
        × (read_field 4 (init_fpls n order m) meta_page (last_fpl_page_entries o) ≡ 0)
  unfolding init_fpls
  init_fpls-set zero order m fits low high = absurd (omega arith)
  init_fpls-set (suc n) order m fits low high = elim (ℕ_discrete o order) [
    | yes eq ↦
        let m1 = write_field 8 meta_page (last_fpl_page o) (o + 2) m in
        rw (← eq) (
          let (l, e) = init_fpls-passed n (suc o) (init_fpl o m) (omega arith) (omega arith) in
          (
            l
                ∙ read_field-write_other 8 meta_page (last_fpl_page o) 4 meta_page
                    (last_fpl_page_entries o) 0 m1 (ground arith)
                ∙ read_field-write_field 8 meta_page (last_fpl_page o) (o + 2) m (omega arith),
            e ∙ read_field-write_field 4 meta_page (last_fpl_page_entries o) 0 m1 (omega arith),
          ))
    | no ne ↦
        init_fpls-set n (suc order) (init_fpl order m) (omega arith) (ground arith) (omega arith)
  ]

-- On a new file, which reads as zeros, the constructor leaves the free list of every order up to 38
-- in order and empty, on an FPL page of its own, and the first page to allocate behind them.
pub create-Frees :
    (m : Mem) (order : ℕ)
    → IsBlank m
    → order ≤ max_order
    → (read_field 8 (create m) meta_page next_free_page ≡ reserved_pages)
      × ((s : Frees (create m) order []) × (s.fpl ≡ order + 2))
unfolding create
create-Frees m order blank small =
    let m1 = write_field 8 meta_page kv_entry_count 0 m in
    let m2 = write_field 8 meta_page next_free_page reserved_pages m1 in
    let m3 = init_fpls 39 0 m2 in
    let (l, e) = init_fpls-set order 39 0 m2 (omega arith) (omega arith) (omega arith) in
    let end : read_field 8 (write_field 8 meta_page 0 (of_le magic) m3) (order + 2) previous ≡ 0 =
      read_field-write_other 8 (order + 2) previous 8 meta_page 0 (of_le magic) m3 (ground arith)
      ∙ init_fpls-other 8 39 0 (order + 2) previous m2 (omega arith) (omega arith)
          (inl (omega arith))
      ∙ read_field-write_other 8 (order + 2) previous 8 meta_page next_free_page reserved_pages m1
          (ground arith)
      ∙ read_field-write_other 8 (order + 2) previous 8 meta_page kv_entry_count 0 m (ground arith)
      ∙ blank-field m (order + 2) previous blank in
    (
      read_field-write_other 8 meta_page next_free_page 8 meta_page 0 (of_le magic) m3
            (ground arith)
          ∙ init_fpls-other 8 39 0 meta_page next_free_page m2 (omega arith) (omega arith)
              (inr (omega arith))
          ∙ read_field-write_field 8 meta_page next_free_page reserved_pages m1 (omega arith),
      (
        record {
          fpl = order + 2;
          below = [];
          count = 0;
          list = record {
            last =
                read_field-write_other 8 meta_page (last_fpl_page order) 8 meta_page 0 (of_le magic)
                  m3 (ground arith)
                ∙ l;
            filled =
                read_field-write_other 4 meta_page (last_fpl_page_entries order) 8 meta_page 0
                  (of_le magic) m3 (ground arith)
                ∙ e;
            chain = bottom end;
            settled = λ z. end;
          };
          room = omega arith;
          last_page = (omega arith, omega arith, tt);
          pages = tt;
          distinct = (tt, tt);
          positive = tt;
        },
        refl,
      ),
    )
