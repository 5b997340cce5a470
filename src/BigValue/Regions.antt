-- ===== src/BigValue/Regions.antt =====
-- How many regions a big value needs.
use native.Mathlib.Nat.{pow-suc}
use diskmap_cpp.Common.{
  ℕ, zero, suc, ◌+◌, ◌-◌, ◌*◌, ◌^◌, ◌≤◌, ◌<◌, ◌≡◌, inl, inr, false, some, ap, shift_int,
  shift_int-one, ltb, arith, Bool-cases,
}
use diskmap_cpp.Memory.{page_size}
use diskmap_cpp.BigValue.{regions_loop, required_continuation_regions}

-- The bytes for entries in a start page and `n` continuation regions: their `2 ^ (n + 1) - 1` pages
-- less the header of the start page and a pointer for each region.
unfoldable pub room : ℕ → ℕ
room n = page_size * (2 ^ (n + 1) - 1) - (18 + 8 * n)

pow-gt : (n : ℕ) → n + 2 ≤ 2 ^ (n + 1)
pow-gt zero = omega arith
pow-gt (suc n) =
    let e : suc n + 1 ≡ suc (n + 1) = omega arith in
    rw e (omega (arith, pow-gt n, pow-suc 2 (n + 1)))

pub room-suc : (n : ℕ) → room (n + 1) ≡ room n + (2 ^ (n + 1) * page_size - 8)
unfolding room
room-suc n =
    let e : n + 1 + 1 ≡ suc (n + 1) = omega arith in
    rw e (omega (arith, pow-gt n, pow-suc 2 (n + 1)))

-- The least number of regions with room for the entry.
pub record Least (entry_size n : ℕ) : Type 0 where
  pub enough : entry_size ≤ room n
  pub least : (k : ℕ) → k < n → room k < entry_size

room_add_le : (k n : ℕ) → room k ≤ room (k + n)
room_add_le k zero = let e : k + 0 ≡ k = omega arith in rw e (omega arith)
room_add_le k (suc n) =
    let e : k + suc n ≡ k + n + 1 = omega arith in
    rw (e, room-suc (k + n)) (omega (arith, room_add_le k n))

-- Where there is no room yet, the next shift does not overflow.
next_shift :
    (entry_size result : ℕ)
    → entry_size ≤ room 30
    → room result < entry_size
    → shift_int 1 (result + 1) ≡ some (2 ^ (result + 1))
next_shift entry_size result bound small = elim (Bool-cases (ltb result 30)) [
  | inl e ↦ shift_int-one (result + 1) (ground (arith, e))
  | inr e ↦
      let low : 30 ≤ result = ground (arith, e) in
      let split : 30 + (result - 30) ≡ result = omega (arith, low) in
      absurd (omega (arith, bound, small, room_add_le 30 (result - 30), ap room split))
]

regions_loop-Least :
    (fuel entry_size result : ℕ)
    → entry_size ≤ room 30
    → entry_size ≤ room result + fuel
    → ((k : ℕ) → k < result → room k < entry_size)
    → (n : ℕ) × (regions_loop (suc fuel) entry_size result (room result) ≡ some n)
      × Least entry_size n
unfolding regions_loop
regions_loop-Least zero entry_size result bound h small =
    let stop : ltb (room result) entry_size ≡ false = ground (arith, h) in
    (result, rw stop, record { enough = omega (arith, h); least = small })
regions_loop-Least (suc fuel) entry_size result bound h small =
    elim (Bool-cases (ltb (room result) entry_size)) [
      | inl e ↦
          let grown = room-suc result in
          let (n, run, l) =
            regions_loop-Least fuel entry_size (result + 1) bound
              (omega (arith, h, grown, pow-gt result))
              (λ k lt. elim (Bool-cases (ltb k result)) [
                | inl f ↦ small k (ground (arith, f))
                | inr f ↦
                    let last : k ≡ result = ground (arith, f, lt) in rw last (ground (arith, e))
              ]) in
          (n, rw (e, next_shift entry_size result bound (ground (arith, e)), ← grown) run, l)
      | inr e ↦ (result, rw e, record { enough = ground (arith, e); least = small })
    ]

-- For an entry that 30 continuation regions have room for, which is almost 8 TiB, no shift overflows,
-- and `required_continuation_regions` ends and returns the least number of continuation regions that,
-- with the start page, have room for the entry.
pub required_continuation_regions-Least :
    (entry_size : ℕ)
    → entry_size ≤ room 30
    → (n : ℕ) × (required_continuation_regions entry_size ≡ some n) × Least entry_size n
unfolding required_continuation_regions room
required_continuation_regions-Least entry_size bound =
    regions_loop-Least entry_size entry_size 0 bound (omega arith)
      (λ k h. absurd (omega (arith, h)))
