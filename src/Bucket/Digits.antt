-- ===== src/Bucket/Digits.antt =====
-- The buckets of a hash are its digits in base 512, and eight of them are the whole hash.
use diskmap_cpp.Common.{ℕ, zero, suc, ◌-◌, ◌*◌, ◌/◌, ◌%◌, ◌^◌, ◌<◌, ◌≡◌, arith}
use native.Mathlib.Nat.{pow-suc}
use diskmap_cpp.Bucket.{hash_bucket, set_msb, get_msb, clear_msb, page_limit}

-- Every bucket is an index into the entries of an internal node.
pub hash_bucket-lt : (hash depth : ℕ) → hash_bucket hash depth < 512
unfolding hash_bucket
hash_bucket-lt hash zero = omega arith
hash_bucket-lt hash (suc depth) = hash_bucket-lt (hash / 512) depth

-- From the ninth digit on a 64-bit hash has only zeros.
pub hash_bucket-zero : (hash depth : ℕ) → hash < 512 ^ depth → hash_bucket hash depth ≡ 0
unfolding hash_bucket
hash_bucket-zero hash zero h = omega arith
hash_bucket-zero hash (suc depth) h =
    let h' : hash < 512 * 512 ^ depth = omega (arith, pow-suc 512 depth) in
    hash_bucket-zero (hash / 512) depth (omega arith)

-- Hashes with the same digits below `n` are the same, if they have no more digits than that.
pub digits_determine :
    (n h j : ℕ)
    → h < 512 ^ n
    → j < 512 ^ n
    → ((depth : ℕ) → depth < n → hash_bucket h depth ≡ hash_bucket j depth)
    → h ≡ j
digits_determine zero h j hb jb same = omega arith
digits_determine (suc n) h j hb jb same =
    let hb' : h < 512 * 512 ^ n = omega (arith, pow-suc 512 n) in
    let jb' : j < 512 * 512 ^ n = omega (arith, pow-suc 512 n) in
    let low : h % 512 ≡ j % 512 = (unfold hash_bucket in same 0 (omega arith)) in
    let high =
      digits_determine n (h / 512) (j / 512) (omega arith) (omega arith)
        λ d lt. (unfold hash_bucket in same (suc d) (omega arith)) in
    omega arith

-- Two 64-bit hashes that lead to the same bucket at each of the depths 0 to 7 are equal.
pub hash_bucket-separates :
    (h j : ℕ)
    → h < 2 ^ 64
    → j < 2 ^ 64
    → ((depth : ℕ) → depth < 8 → hash_bucket h depth ≡ hash_bucket j depth)
    → h ≡ j
hash_bucket-separates h j hb jb same = digits_determine 8 h j (omega arith) (omega arith) same

-- A page number below 2^63 survives the tag of an internal node, and the tag is read back, as 0 or
-- -1.
pub msb_round_trip :
    (page bit : ℕ)
    → page < page_limit
    → bit < 2
    → (clear_msb (set_msb page bit) ≡ page) × (get_msb (set_msb page bit) ≡ (2 ^ 64 - 1) * bit)
unfolding set_msb get_msb clear_msb
msb_round_trip page bit h b = ground arith
