-- ===== src/Bucket.antt =====
-- The bucket of a key at each depth of the tree, and the tag in the top bit of a page number
-- (diskmap.cpp). An `int64_t` is its bit pattern, below `2 ^ 64`.
pub mod Digits
pub mod Range
mod Tests
use diskmap_cpp.Common.{ℕ, zero, suc, ◌+◌, ◌-◌, ◌*◌, ◌/◌, ◌%◌, ◌^◌, List, ◌∷◌, ltb, if◌then◌else◌}
use diskmap_cpp.Checksum.{u64_mod, fnv_hash}

abbrev pub branching_factor : ℕ
branching_factor = 512

abbrev pub splits_per_hash : ℕ
splits_per_hash = 8

-- `get_bucket(uint64_t hash, int depth)`
unfoldable pub hash_bucket : ℕ → ℕ → ℕ
hash_bucket hash zero = hash % branching_factor
hash_bucket hash (suc depth) = hash_bucket (hash / branching_factor) depth

-- `static_cast<char>('0' + hash_function)`, as a byte.
unfoldable pub hash_key : ℕ → List ℕ → List ℕ
hash_key hash_function key = if ltb 0 hash_function then (b'0' + hash_function) % 256 ∷ key else key

-- `get_bucket(const std::string &key, int depth)`, for a depth of at least 1.
unfoldable pub get_bucket : List ℕ → ℕ → ℕ
get_bucket key depth =
    hash_bucket (fnv_hash (hash_key ((depth - 1) / splits_per_hash) key)) (depth - 1)

-- The bucket that `create_subtree` chooses in the node that it makes below a node of this depth.
unfoldable pub subtree_bucket : List ℕ → ℕ → ℕ
unfolding hash_bucket
subtree_bucket key parent_depth = hash_bucket (fnv_hash key) (parent_depth + 1)

unfoldable pub set_msb : ℕ → ℕ → ℕ
set_msb val bit = val % 2 ^ 63 + bit % 2 * 2 ^ 63

-- `val >> 63` on a signed value: 0 or -1.
unfoldable pub get_msb : ℕ → ℕ
get_msb val = if ltb val (2 ^ 63) then 0 else u64_mod - 1

unfoldable pub clear_msb : ℕ → ℕ
clear_msb val = val % 2 ^ 63

-- `SpaceManager` and the tree keep page numbers below the top bit.
abbrev pub page_limit : ℕ
page_limit = 2 ^ 63
