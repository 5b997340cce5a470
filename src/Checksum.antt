-- ===== src/Checksum.antt =====
-- checksum.h: the running checksum of a log record, and fnv_hash.h: the hash of a key. Both are
-- arithmetic on `uint64_t`, written out modulo `2 ^ 64`.
use Prim.Native.Nat.{bit_xor}
use diskmap_cpp.Common.{ℕ, ◌+◌, ◌-◌, ◌*◌, ◌/◌, ◌%◌, ◌^◌, List, [], ◌∷◌, ltb, if◌then◌else◌}
use diskmap_cpp.Bytes.{of_le}

abbrev pub u64_mod : ℕ
u64_mod = 2 ^ 64

-- A `char` is signed: widened to 64 bits its sign bit is repeated.
unfoldable pub sign_extend : ℕ → ℕ
sign_extend c = if ltb c 128 then c else u64_mod - 256 + c

-- `state += word; state += state << 10; state ^= state >> 6`
unfoldable pub mix : ℕ → ℕ → ℕ
mix state word =
    let s = (state + word) % u64_mod in
    let s' = (s + s * 2 ^ 10) % u64_mod in bit_xor s' (s' / 2 ^ 6)

unfoldable pub digest_tail : ℕ → List ℕ → ℕ
unfolding mix sign_extend
digest_tail state [] = state
digest_tail state (c ∷ cs) = digest_tail (mix state (sign_extend c)) cs

-- Whole words of eight bytes first, then the bytes that are left.
unfoldable pub digest : ℕ → List ℕ → ℕ
unfolding digest_tail of_le
digest state (a ∷ b ∷ c ∷ d ∷ e ∷ f ∷ g ∷ h ∷ rest) =
    digest (mix state (of_le (a ∷ b ∷ c ∷ d ∷ e ∷ f ∷ g ∷ h ∷ []))) rest
digest state tail = digest_tail state tail

abbrev pub checksum_seed : ℕ
checksum_seed = 1099511628211

abbrev pub fnv_offset : ℕ
fnv_offset = 14695981039346656037

abbrev pub fnv_prime : ℕ
fnv_prime = 1099511628211

unfoldable pub fnv_loop : ℕ → List ℕ → ℕ
unfolding sign_extend
fnv_loop hash [] = hash
fnv_loop hash (c ∷ cs) = fnv_loop (bit_xor ((hash * fnv_prime) % u64_mod) (sign_extend c)) cs

unfoldable pub fnv_hash : List ℕ → ℕ
unfolding fnv_loop
fnv_hash key = fnv_loop fnv_offset key
