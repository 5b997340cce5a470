-- ===== src/Memory.antt =====
-- The data file as the layers above the buffer pool see it: a byte at each address. Page `p` is the
-- addresses from `p * page_size` on (page_types.h). `copy` is `memcpy` into the file's pages,
-- `fetch` reads a range of bytes out of them.
pub mod Laws
use diskmap_cpp.Common.{ℕ, zero, suc, ◌+◌, ◌*◌, ◌≡◌, Bool, ◌==◌, if◌then◌else◌, List, [], ◌∷◌}

abbrev pub Mem : Type 0
Mem = ℕ → ℕ

abbrev pub page_size : ℕ
page_size = 4096

unfoldable pub fetch : Mem → ℕ → ℕ → List ℕ
fetch m loc zero = []
fetch m loc (suc n) = m loc ∷ fetch m (suc loc) n

unfoldable pub copy : Mem → ℕ → List ℕ → Mem
copy m loc [] a = m a
copy m loc (b ∷ bs) a = if a == loc then b else copy m (suc loc) bs a
