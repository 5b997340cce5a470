-- ===== src/Bucket/Range.antt =====
-- `fnv_hash` stays a 64-bit number, so below the eighth level of the tree every key has bucket 0.
use Prim.Native.Nat.{bit_xor, bit_xor-bitwise, digits, differ}
use native.Mathlib.Nat.{pow-suc}
use diskmap_cpp.Common.{
  ℕ, zero, suc, ◌+◌, ◌-◌, ◌*◌, ◌/◌, ◌%◌, ◌^◌, ◌≤◌, ◌<◌, ◌≡◌, sym, ap, ◌∙◌, arith, List, [], ◌∷◌,
  All,
}
use native.Mathlib.Decide.{dec_lt}
use diskmap_cpp.Bytes.{IsByte}
use diskmap_cpp.Checksum.{u64_mod, sign_extend, fnv_loop, fnv_offset, fnv_prime, fnv_hash}
use diskmap_cpp.Bucket.{splits_per_hash, hash_bucket, hash_key, get_bucket, subtree_bucket}
use diskmap_cpp.Bucket.Digits.{hash_bucket-zero, hash_bucket-separates}

differ-le : (x y : ℕ) → x ≤ 1 → y ≤ 1 → differ x y ≤ 1
differ-le zero y p q = q
differ-le (suc x) zero p q = p
differ-le (suc x) (suc y) p q = differ-le x y (omega arith) (omega arith)

digits-lt : (n k a b : ℕ) → a < 2 ^ k → b < 2 ^ k → digits (λ b. b) differ n a b < 2 ^ k
digits-lt zero k a b p q = q
digits-lt (suc n) k zero b p q = q
digits-lt (suc n) zero (suc a) b p q = absurd (omega arith)
digits-lt (suc n) (suc k) (suc a) b p q =
    let p' : suc a < 2 * 2 ^ k = omega (arith, pow-suc 2 k) in
    let q' : b < 2 * 2 ^ k = omega (arith, pow-suc 2 k) in
    omega (
      arith,
      digits-lt n k (suc a / 2) (b / 2) (omega arith) (omega arith),
      differ-le (suc a % 2) (b % 2) (omega arith) (omega arith),
      pow-suc 2 k,
    )

bit_xor-lt : (a b : ℕ) → a < u64_mod → b < u64_mod → bit_xor a b < u64_mod
bit_xor-lt a b p q = rw bit_xor-bitwise (digits-lt a 64 a b p q)

sign_extend-lt : (c : ℕ) → IsByte c → sign_extend c < u64_mod
unfolding sign_extend
sign_extend-lt c h = ground arith

fnv_loop-lt :
    (hash : ℕ) (key : List ℕ) → hash < u64_mod → All IsByte key → fnv_loop hash key < u64_mod
unfolding fnv_loop
fnv_loop-lt hash [] h bytes = h
fnv_loop-lt hash (c ∷ cs) h bytes =
    fnv_loop-lt (bit_xor ((hash * fnv_prime) % u64_mod) (sign_extend c)) cs
      (bit_xor-lt ((hash * fnv_prime) % u64_mod) (sign_extend c) (omega arith)
        (sign_extend-lt c bytes.0))
      bytes.1

pub fnv_hash-lt : (key : List ℕ) → All IsByte key → fnv_hash key < u64_mod
unfolding fnv_hash
fnv_hash-lt key bytes = fnv_loop-lt fnv_offset key (omega arith) bytes

hash_key-IsByte : (n : ℕ) (key : List ℕ) → All IsByte key → All IsByte (hash_key n key)
unfolding hash_key
hash_key-IsByte n key bytes = ground arith

u64_mod-le_pow : (m : ℕ) → u64_mod ≤ 512 ^ (m + 8)
u64_mod-le_pow zero = omega arith
u64_mod-le_pow (suc m) =
    let e : suc m + 8 ≡ suc (m + 8) = omega arith in
    rw e (omega (arith, u64_mod-le_pow m, pow-suc 512 (m + 8)))

-- From depth 9 on the alternative hash is divided by at least `512 ^ 8` before a bucket is taken
-- from it, so every key has bucket 0 there.
pub get_bucket-zero :
    (key : List ℕ) (depth : ℕ) → All IsByte key → 9 ≤ depth → get_bucket key depth ≡ 0
unfolding get_bucket
get_bucket-zero key depth bytes deep =
    let e : depth - 1 ≡ depth - 9 + 8 = omega arith in
    hash_bucket-zero _ (depth - 1) (
      rw e (
        omega (
          arith,
          u64_mod-le_pow (depth - 9),
          fnv_hash-lt _ (hash_key-IsByte ((depth - 9 + 8) / splits_per_hash) key bytes),
        )))

get_bucket-hash_bucket :
    (key : List ℕ) (depth : ℕ)
    → depth < 9
    → get_bucket key depth ≡ hash_bucket (fnv_hash key) (depth - 1)
unfolding get_bucket hash_key
get_bucket-hash_bucket key depth h = let e : (depth - 1) / splits_per_hash ≡ 0 = omega arith in rw e

-- Two keys with the same hash share the bucket at every depth: the second hash function, meant to
-- part them from depth 9 on, gives both of them bucket 0.
pub get_bucket-collides :
    (key other : List ℕ) (depth : ℕ)
    → All IsByte key
    → All IsByte other
    → fnv_hash key ≡ fnv_hash other
    → get_bucket key depth ≡ get_bucket other depth
get_bucket-collides key other depth kb ob same = elim (dec_lt depth 9) [
  | yes low ↦
      get_bucket-hash_bucket key depth low
      ∙ ap (λ h. hash_bucket h (depth - 1)) same
      ∙ sym (get_bucket-hash_bucket other depth low)
  | no deep ↦
      get_bucket-zero key depth kb (omega arith)
      ∙ sym (get_bucket-zero other depth ob (omega arith))
]

-- Two keys that share their bucket at each of the depths 1 to 8 have the same hash.
pub get_bucket-separates :
    (key other : List ℕ)
    → All IsByte key
    → All IsByte other
    → ((depth : ℕ) → 0 < depth → depth < 9 → get_bucket key depth ≡ get_bucket other depth)
    → fnv_hash key ≡ fnv_hash other
get_bucket-separates key other kb ob same =
    hash_bucket-separates (fnv_hash key) (fnv_hash other) (fnv_hash-lt key kb)
      (fnv_hash-lt other ob)
      λ d lt.
        let e : suc d - 1 ≡ d = omega arith in
        rw e at (
          sym (get_bucket-hash_bucket key (suc d) (omega arith))
          ∙ same (suc d) (omega arith) (omega arith)
          ∙ get_bucket-hash_bucket other (suc d) (omega arith))

-- For a node that `create_subtree` makes below a node of depth `parent_depth`, the bucket that it gives
-- a key there is the one in which `find_parent` looks for the key when it arrives at that node, at depth
-- `parent_depth + 1`: up to depth 8 both take the same digit of the same hash, and below that both are 0.
pub subtree_bucket-get_bucket :
    (key : List ℕ) (parent_depth : ℕ)
    → All IsByte key
    → subtree_bucket key parent_depth ≡ get_bucket key (parent_depth + 1 + 1)
unfolding subtree_bucket
subtree_bucket-get_bucket key parent_depth bytes =
    let e : parent_depth + 1 + 1 - 1 ≡ parent_depth + 1 = omega arith in
    elim (dec_lt (parent_depth + 1 + 1) 9) [
      | yes low ↦
          ap (hash_bucket (fnv_hash key)) (sym e)
          ∙ sym (get_bucket-hash_bucket key (parent_depth + 1 + 1) low)
      | no deep ↦
          let f : parent_depth + 1 ≡ parent_depth - 7 + 8 = omega arith in
          hash_bucket-zero (fnv_hash key) (parent_depth + 1)
            (rw f (omega (arith, u64_mod-le_pow (parent_depth - 7), fnv_hash-lt key bytes)))
          ∙ sym (get_bucket-zero key (parent_depth + 1 + 1) bytes (omega arith))
    ]
