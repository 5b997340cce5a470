-- ===== src/Page/Laws.antt =====
-- A field that was written is read back, and no other field changes.
use diskmap_cpp.Common.{
  ℕ, zero, suc, refl, inl, inr, Bool-cases, ◌==◌, sym, ◌+◌, ◌^◌, ◌≤◌, ◌<◌, ◌≡◌, ap, ◌∙◌, ◌⊎◌, arith,
  length, replicate, length-replicate,
}
use diskmap_cpp.Memory.{Mem, page_size, fetch, copy}
use diskmap_cpp.Memory.Laws.{fetch-copy, fetch-copy_outside}
use diskmap_cpp.Bytes.{le_bytes, of_le, of_le-le_bytes, length-le_bytes}
use diskmap_cpp.Page.{address, read_field, write_field, clear}

pub read_field-write_field :
    (n page offset value : ℕ) (m : Mem)
    → value < 256 ^ n
    → read_field n (write_field n page offset value m) page offset ≡ value
unfolding read_field write_field
read_field-write_field n page offset value m h =
    ap of_le (
      ap (fetch (copy m (address page offset) (le_bytes n value)) (address page offset))
        (sym (length-le_bytes n value))
      ∙ fetch-copy m (address page offset) (le_bytes n value))
    ∙ of_le-le_bytes n value h

-- Two fields that do not overlap.
abbrev pub Apart : ℕ → ℕ → ℕ → ℕ → Type 0
Apart a n b k = (a + n ≤ b) ⊎ (b + k ≤ a)

pub read_field-write_other :
    (n page offset k page' offset' value : ℕ) (m : Mem)
    → Apart (address page offset) n (address page' offset') k
    → read_field n (write_field k page' offset' value m) page offset ≡ read_field n m page offset
unfolding read_field write_field
read_field-write_other n page offset k page' offset' value m h = ap of_le (
    fetch-copy_outside m (address page offset) n (address page' offset') (le_bytes k value)
      (ground (arith, length-le_bytes k value)))

zeros-Apart : (a n b k : ℕ) → Apart a n b k → (a + n ≤ b) ⊎ (b + length (replicate k zero) ≤ a)
zeros-Apart a n b k h = rw (length-replicate k zero) h

pub read_field-clear :
    (n page offset page' : ℕ) (m : Mem)
    → Apart (address page offset) n (address page' 0) page_size
    → read_field n (clear page' m) page offset ≡ read_field n m page offset
unfolding read_field clear
read_field-clear n page offset page' m h = ap of_le (
    fetch-copy_outside m (address page offset) n (address page' 0) (replicate page_size 0)
      (zeros-Apart (address page offset) n (address page' 0) page_size h))

copy-zeros : (m : Mem) (loc n a : ℕ) → loc ≤ a → a < loc + n → copy m loc (replicate n 0) a ≡ 0
unfolding copy
copy-zeros m loc zero a low high = absurd (omega (arith, low, high))
copy-zeros m loc (suc n) a low high = elim (Bool-cases (a == loc)) [
  | inl e ↦ rw e
  | inr e ↦ rw e (copy-zeros m (suc loc) n a (ground (arith, low, e)) (omega (arith, high)))
]

of_le-zeros :
    (m : Mem) (loc n : ℕ) → ((a : ℕ) → loc ≤ a → a < loc + n → m a ≡ 0) → of_le (fetch m loc n) ≡ 0
unfolding of_le fetch
of_le-zeros m loc zero h = refl
of_le-zeros m loc (suc n) h = omega (
  arith,
  h loc (omega arith) (omega arith),
  of_le-zeros m (suc loc) n (λ a low high. h a (omega (arith, low)) (omega (arith, high))),
)

-- A field of a cleared page is 0.
pub read_field-cleared :
    (n page offset : ℕ) (m : Mem)
    → offset + n ≤ page_size
    → read_field n (clear page m) page offset ≡ 0
unfolding read_field clear
read_field-cleared n page offset m fits =
    of_le-zeros (clear page m) (address page offset) n (λ a low high.
      copy-zeros m (address page 0) page_size a (omega (arith, low)) (omega (arith, high, fits)))
