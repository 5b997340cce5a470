-- ===== src/Leaf/Find.antt =====
-- `find_entry_in_leaf` finds the first entry with the key, and only such an entry.
use diskmap_cpp.Common.{
  ℕ, zero, suc, ◌+◌, ◌<◌, ◌≡◌, refl, ◌∙◌, Bool, true, false, some, List, [], ◌∷◌, ◌++◌, arith, ◌==◌,
  if◌then◌else◌, Bool-cases, inl, inr, drop, length, replicate, All, length-append, append_assoc,
}
use diskmap_cpp.Leaf.{
  KvEntry, Position, found, missing, strncmp_eq, key_at, entry_span, find_loop, find_entry_in_leaf,
  entry_bytes, entries_buffer,
}
use diskmap_cpp.Leaf.Format.{
  IsEntry, Starts, entry_at, entry_span-entry_bytes, entry_bytes-Starts, drop-entry_bytes,
}
use diskmap_cpp.Leaf.Entries.{length-le-entries_buffer}

-- Equality of strings.
unfoldable pub str_eq : List ℕ → List ℕ → Bool
str_eq [] [] = true
str_eq (a ∷ as') (b ∷ bs) = let rest = str_eq as' bs in if a == b then rest else false
str_eq _ _ = false

pub str_eq_sound : (k j : List ℕ) → str_eq k j ≡ true → k ≡ j
unfolding str_eq
str_eq_sound [] [] h = refl
str_eq_sound [] (b ∷ bs) h = cc
str_eq_sound (a ∷ as') [] h = cc
str_eq_sound (a ∷ as') (b ∷ bs) h = ground (arith, str_eq_sound as' bs)

pub str_eq_self : (k : List ℕ) → str_eq k k ≡ true
unfolding str_eq
str_eq_self [] = refl
str_eq_self (a ∷ as') = ground (arith, str_eq_self as')

pub key_at-key :
    (k key rest : List ℕ)
    → All (λ c. 0 < c) k
    → All (λ c. 0 < c) key
    → key_at (k ++ (0 ∷ rest)) key ≡ str_eq k key
unfolding key_at strncmp_eq str_eq
key_at-key [] [] rest h p = refl
key_at-key [] (c ∷ key) rest h p = ground arith
key_at-key (c ∷ k) [] rest h p = ground arith
key_at-key (c ∷ k) (d ∷ key) rest h p = ground (arith, key_at-key k key rest h.1 p.1)

-- Where the entries, one behind the other from `offset` on, have the key for the first time.
unfoldable pub position_of : List KvEntry → List ℕ → ℕ → Position
position_of [] key offset = missing
position_of (e ∷ es) key offset =
    let later = position_of es key (offset + length (entry_bytes e)) in
    if str_eq e.key key then found offset else later

pub find_step :
    (fuel : ℕ) (ptr : List ℕ) (offset n : ℕ) (key rest : List ℕ)
    → Starts ptr
    → key_at ptr key ≡ false
    → entry_span ptr ≡ some n
    → drop n ptr ≡ rest
    → find_loop (suc fuel) ptr offset key ≡ find_loop fuel rest (offset + n) key
unfolding find_loop
find_step fuel [] offset n key rest s other span skip = absurd s
find_step fuel (c ∷ cs) offset n key rest s other span skip =
    let nonzero : (c == 0) ≡ false = ground arith in rw (nonzero, other, span, skip)

pub find_hit :
    (fuel : ℕ) (ptr : List ℕ) (offset : ℕ) (key : List ℕ)
    → Starts ptr
    → key_at ptr key ≡ true
    → find_loop (suc fuel) ptr offset key ≡ found offset
unfolding find_loop
find_hit fuel [] offset key s hit = absurd s
find_hit fuel (c ∷ cs) offset key s hit =
    let nonzero : (c == 0) ≡ false = ground arith in rw (nonzero, hit)

find_end :
    (fuel k offset : ℕ) (key : List ℕ) → find_loop (suc fuel) (replicate k 0) offset key ≡ missing
unfolding find_loop
find_end fuel zero offset key = refl
find_end fuel (suc k) offset key = refl

find_loop-position_of :
    (es : List KvEntry) (k fuel offset : ℕ) (key : List ℕ)
    → All IsEntry es
    → All (λ c. 0 < c) key
    → length es < fuel
    → find_loop fuel (entries_buffer es ++ replicate k 0) offset key ≡ position_of es key offset
unfolding entries_buffer position_of
find_loop-position_of es k zero offset key h p enough = absurd (omega arith)
find_loop-position_of [] k (suc fuel) offset key h p enough = find_end fuel k offset key
find_loop-position_of (e ∷ es) k (suc fuel) offset key h p enough =
    elim (Bool-cases (str_eq e.key key)) [
      | inl hit ↦ rw (hit, append_assoc) (find_hit fuel _ offset key starts (key_is ∙ hit))
      | inr other ↦
          rw (other, append_assoc)
            (find_step fuel _ offset _ key _ starts (key_is ∙ other)
                (entry_span-entry_bytes e rest h.0) (drop-entry_bytes e rest)
              ∙ find_loop-position_of es k fuel _ key h.1 p (omega arith))
    ]
  where
    rest : List ℕ
    rest = entries_buffer es ++ replicate k 0

    starts : Starts (entry_bytes e ++ rest)
    starts = entry_bytes-Starts e rest h.0

    key_is : key_at (entry_bytes e ++ rest) key ≡ str_eq e.key key
    key_is = rw (entry_at e rest h.0) (key_at-key e.key key _ h.0.no_nul p)

-- In a data section that holds valid entries and then zeros, the search for a key without NULs
-- ends at the first entry with that key, and without one it reports that the key is missing; it
-- never leaves the page.
pub find_entry_in_leaf-position_of :
    (es : List KvEntry) (k : ℕ) (key : List ℕ)
    → All IsEntry es
    → All (λ c. 0 < c) key
    → find_entry_in_leaf (entries_buffer es ++ replicate k 0) key ≡ position_of es key 0
unfolding find_entry_in_leaf
find_entry_in_leaf-position_of es k key h p = find_loop-position_of es k _ 0 key h p (
    omega
      (arith, length-le-entries_buffer es, length-append (entries_buffer es) (replicate k zero)))
