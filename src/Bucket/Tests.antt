-- ===== src/Bucket/Tests.antt =====
-- Keys and page numbers on which the bucket functions are tried.
use diskmap_cpp.Common.{ℕ, ◌-◌, ◌*◌, ◌^◌, ◌≡◌, refl, List, [], ◌∷◌, arith, All}
use diskmap_cpp.Bytes.{IsByte}
use diskmap_cpp.Checksum.{fnv_hash, fnv_loop, sign_extend}
use diskmap_cpp.Bucket.{get_bucket, subtree_bucket, set_msb, get_msb, clear_msb}
use diskmap_cpp.Bucket.Digits.{msb_round_trip}
use diskmap_cpp.Bucket.Range.{
  get_bucket-zero, get_bucket-collides, get_bucket-separates, subtree_bucket-get_bucket,
}

abbrev key_abc : List ℕ
key_abc = 97 ∷ 98 ∷ 99 ∷ []

key_abc-IsByte : All IsByte key_abc
key_abc-IsByte = (omega arith, (omega arith, (omega arith, tt)))

get_bucket-zero_example : get_bucket key_abc 12 ≡ 0
get_bucket-zero_example = get_bucket-zero key_abc 12 key_abc-IsByte (omega arith)

msb_round_trip_example :
    (clear_msb (set_msb 41 1) ≡ 41) × (get_msb (set_msb 41 1) ≡ (2 ^ 64 - 1) * 1)
msb_round_trip_example = msb_round_trip 41 1 (omega arith) (omega arith)

-- Two keys with the same hash.
abbrev key_one : List ℕ
key_one = 61 ∷ 108 ∷ 79 ∷ 103 ∷ 95 ∷ 52 ∷ 90 ∷ 75 ∷ 87 ∷ 87 ∷ 59 ∷ []

abbrev key_two : List ℕ
key_two = 60 ∷ 103 ∷ 94 ∷ 48 ∷ 74 ∷ 53 ∷ 94 ∷ 93 ∷ 90 ∷ 86 ∷ 61 ∷ []

same_hash : fnv_hash key_one ≡ fnv_hash key_two
unfolding fnv_hash fnv_loop sign_extend
same_hash = refl

key_one-IsByte : All IsByte key_one
key_one-IsByte = (
  omega arith,
  (
    omega arith,
    (
      omega arith,
      (
        omega arith,
        (
          omega arith,
          (
            omega arith,
            (omega arith, (omega arith, (omega arith, (omega arith, (omega arith, tt))))),
          ),
        ),
      ),
    ),
  ),
)

key_two-IsByte : All IsByte key_two
key_two-IsByte = (
  omega arith,
  (
    omega arith,
    (
      omega arith,
      (
        omega arith,
        (
          omega arith,
          (
            omega arith,
            (omega arith, (omega arith, (omega arith, (omega arith, (omega arith, tt))))),
          ),
        ),
      ),
    ),
  ),
)

get_bucket-collides_example : get_bucket key_one 20 ≡ get_bucket key_two 20
get_bucket-collides_example =
    get_bucket-collides key_one key_two 20 key_one-IsByte key_two-IsByte same_hash

get_bucket-separates_example : fnv_hash key_one ≡ fnv_hash key_two
get_bucket-separates_example =
    get_bucket-separates key_one key_two key_one-IsByte key_two-IsByte (λ depth low high.
      get_bucket-collides key_one key_two depth key_one-IsByte key_two-IsByte same_hash)

subtree_bucket-get_bucket_example : subtree_bucket key_abc 3 ≡ get_bucket key_abc 5
subtree_bucket-get_bucket_example = subtree_bucket-get_bucket key_abc 3 key_abc-IsByte
