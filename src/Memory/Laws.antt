-- ===== src/Memory/Laws.antt =====
-- What `copy` changes, what it leaves alone, and how a fetched range is put back.
use diskmap_cpp.Common.{
  ℕ, zero, suc, ◌+◌, ◌≤◌, ◌<◌, ◌≡◌, refl, ap, ap₂, ◌∙◌, fun_ext, ◌⊎◌, inl, inr, List, [], ◌∷◌,
  arith, ◌==◌, false, length, Bool-cases,
}
use diskmap_cpp.Memory.{Mem, fetch, copy}

abbrev pub Outside : ℕ → ℕ → ℕ → Type 0
Outside loc n a = (a < loc) ⊎ (loc + n ≤ a)

pub length-fetch : (m : Mem) (loc n : ℕ) → length (fetch m loc n) ≡ n
unfolding fetch
length-fetch m loc zero = refl
length-fetch m loc (suc n) = ap suc (length-fetch m (suc loc) n)

pub copy-Outside :
    (m : Mem) (loc : ℕ) (bs : List ℕ) (a : ℕ) → Outside loc (length bs) a → copy m loc bs a ≡ m a
unfolding copy
copy-Outside m loc [] a h = refl
copy-Outside m loc (b ∷ bs) a h = ground (arith, copy-Outside m (suc loc) bs a)

-- Inside the range it does not matter what the memory held.
pub copy_inside :
    (m m' : Mem) (loc : ℕ) (bs : List ℕ) (a : ℕ)
    → loc ≤ a
    → a < loc + length bs
    → copy m loc bs a ≡ copy m' loc bs a
unfolding copy
copy_inside m m' loc [] a h k = absurd (omega arith)
copy_inside m m' loc (b ∷ bs) a h k = ground (arith, copy_inside m m' (suc loc) bs a)

-- Two memories that agree at an address agree there after the same copy.
pub copy-agree :
    (m m' : Mem) (loc : ℕ) (bs : List ℕ) (a : ℕ) → m a ≡ m' a → copy m loc bs a ≡ copy m' loc bs a
unfolding copy
copy-agree m m' loc [] a h = h
copy-agree m m' loc (b ∷ bs) a h = ground (arith, copy-agree m m' (suc loc) bs a)

copy-fetch_at :
    (m m' : Mem) (loc n a : ℕ)
    → (Outside loc n a → m' a ≡ m a)
    → copy m' loc (fetch m loc n) a ≡ m a
unfolding copy fetch
copy-fetch_at m m' loc zero a h = h (ground arith)
copy-fetch_at m m' loc (suc n) a h = elim (Bool-cases (a == loc)) [
  | inl e ↦ ground arith
  | inr e ↦ rw e (copy-fetch_at m m' (suc loc) n a (λ o. h (ground arith)))
]

-- A range fetched from `m` and copied back into a memory that differs from `m` at most there.
pub copy-fetch :
    (m m' : Mem) (loc n : ℕ)
    → ((a : ℕ) → Outside loc n a → m' a ≡ m a)
    → copy m' loc (fetch m loc n) ≡ m
copy-fetch m m' loc n h = fun_ext (λ a. copy-fetch_at m m' loc n a (h a))

-- A fetch sees nothing of a change outside its range.
pub fetch_ext :
    (m m' : Mem) (loc n : ℕ)
    → ((a : ℕ) → loc ≤ a → a < loc + n → m a ≡ m' a)
    → fetch m loc n ≡ fetch m' loc n
unfolding fetch
fetch_ext m m' loc zero h = refl
fetch_ext m m' loc (suc n) h =
    ap₂ (λ b bs. b ∷ bs) (h loc (omega arith) (omega arith))
      (fetch_ext m m' (suc loc) n (λ a p q. h a (omega arith) (omega arith)))

fetch-copy_at :
    (m m' : Mem) (loc : ℕ) (bs : List ℕ)
    → ((a : ℕ) → m' a ≡ copy m loc bs a)
    → fetch m' loc (length bs) ≡ bs
unfolding fetch copy
fetch-copy_at m m' loc [] h = refl
fetch-copy_at m m' loc (b ∷ bs) h =
    ap₂ (λ c cs. c ∷ cs) (h loc ∙ ground arith)
      (fetch_ext m' (copy m (suc loc) bs) (suc loc) (length bs)
          (λ a p q. h a ∙ (let ne : (a == loc) ≡ false = ground arith in rw ne))
        ∙ fetch-copy_at m (copy m (suc loc) bs) (suc loc) bs (λ a. refl))

-- What was copied is fetched back.
pub fetch-copy : (m : Mem) (loc : ℕ) (bs : List ℕ) → fetch (copy m loc bs) loc (length bs) ≡ bs
fetch-copy m loc bs = fetch-copy_at m (copy m loc bs) loc bs (λ a. refl)

pub fetch-copy_outside :
    (m : Mem) (loc n at : ℕ) (bs : List ℕ)
    → (loc + n ≤ at) ⊎ (at + length bs ≤ loc)
    → fetch (copy m at bs) loc n ≡ fetch m loc n
fetch-copy_outside m loc n at bs h =
    fetch_ext (copy m at bs) m loc n (λ a p q. copy-Outside m at bs a (ground arith))
