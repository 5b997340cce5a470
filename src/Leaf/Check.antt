-- ===== src/Leaf/Check.antt =====
-- `validate_leaf_integrity`. `false` is its exception. A value that overruns the page ends the loop,
-- as in the code, where that test is commented out; that the pointer wraps around, which is undefined, is
-- left out.
use diskmap_cpp.Common.{
  ℕ, zero, suc, ◌+◌, ◌-◌, ◌≤◌, ◌≡◌, refl, sym, ap, ◌∙◌, Bool, true, false, ◌&&◌, Option, none, some,
  List, [], ◌∷◌, ◌++◌, arith, ◌==◌, if◌then◌else◌, length, drop, Bool-cases, inl, inr, ==-self,
  replicate, All, append_assoc, length-append,
}
use diskmap_cpp.Leaf.{KvEntry, LeafPage, entry_span, entries_buffer, total_entries_size, capacity}
use diskmap_cpp.Leaf.Format.{
  IsEntry, Starts, entry_span-entry_bytes, entry_bytes-Starts, drop-entry_bytes,
}
use diskmap_cpp.Leaf.Entries.{length-le-entries_buffer}
use diskmap_cpp.Leaf.Edit.Holds.{Holds}

-- The first loop: what is left of the page behind the entries, and their number.
unfoldable pub count_entries : ℕ → List ℕ → ℕ → Option (List ℕ × ℕ)
count_entries zero ptr entry_count = none
count_entries (suc fuel) [] entry_count = some ([], entry_count)
count_entries (suc fuel) (c ∷ cs) entry_count =
    let more = elim (entry_span (c ∷ cs)) as (λ o. Option (List ℕ × ℕ)) [
      | none ↦ none
      | some n ↦ count_entries fuel (drop n (c ∷ cs)) (entry_count + 1)
    ] in
    if c == 0 then some (c ∷ cs, entry_count) else more

-- The second loop: unused space is zeroed.
unfoldable pub all_zero : List ℕ → Bool
all_zero [] = true
all_zero (c ∷ cs) = (c == 0) && all_zero cs

unfoldable pub check_counted : LeafPage → Option (List ℕ × ℕ) → Bool
check_counted leaf none = false
check_counted leaf (some (ptr, entry_count)) = all_zero ptr && (leaf.entry_count == entry_count)

unfoldable pub validate_leaf_integrity : LeafPage → Bool
unfolding check_counted
validate_leaf_integrity leaf =
    check_counted leaf (count_entries (suc (length leaf.contents)) leaf.contents 0)

count_step :
    (fuel : ℕ) (ptr : List ℕ) (n entry_count : ℕ) (rest : List ℕ)
    → Starts ptr
    → entry_span ptr ≡ some n
    → drop n ptr ≡ rest
    → count_entries (suc fuel) ptr entry_count ≡ count_entries fuel rest (entry_count + 1)
unfolding count_entries
count_step fuel [] n entry_count rest s span skip = absurd s
count_step fuel (c ∷ cs) n entry_count rest s span skip =
    let nonzero : (c == 0) ≡ false = ground arith in rw (nonzero, span, skip)

pub count_entries-entries_buffer :
    (es : List KvEntry) (rest : List ℕ) (fuel entry_count : ℕ)
    → All IsEntry es
    → count_entries (length es + fuel) (entries_buffer es ++ rest) entry_count
      ≡ count_entries fuel rest (entry_count + length es)
unfolding entries_buffer
count_entries-entries_buffer [] rest fuel entry_count h =
    let e : entry_count + 0 ≡ entry_count = omega arith in
    let z : 0 + fuel ≡ fuel = omega arith in rw (e, z)
count_entries-entries_buffer (e ∷ es) rest fuel entry_count h =
    let rest' = entries_buffer es ++ rest in
    let sum : entry_count + suc (length es) ≡ entry_count + 1 + length es = omega arith in
    let more : suc (length es) + fuel ≡ suc (length es + fuel) = omega arith in
    rw (append_assoc, sum, more)
      (count_step (length es + fuel) _ _ entry_count rest' (entry_bytes-Starts e rest' h.0)
          (entry_span-entry_bytes e rest' h.0) (drop-entry_bytes e rest')
        ∙ count_entries-entries_buffer es rest fuel (entry_count + 1) h.1)

pub all_zero-replicate : (k : ℕ) → all_zero (replicate k 0) ≡ true
unfolding all_zero
all_zero-replicate zero = refl
all_zero-replicate (suc k) = all_zero-replicate k

pub all_zero-append : (xs : List ℕ) (k : ℕ) → all_zero (xs ++ replicate k 0) ≡ all_zero xs
unfolding all_zero
all_zero-append [] k = all_zero-replicate k
all_zero-append (x ∷ xs) k = rw (all_zero-append xs k)

and_false : (b : Bool) → (b && false) ≡ false
and_false true = refl
and_false false = refl

and_true : (b : Bool) → (b && true) ≡ b
and_true true = refl
and_true false = refl

-- The number of entries only grows.
abbrev Grows : ℕ → Option (List ℕ × ℕ) → Type 0
Grows n none = Unit
Grows n (some (ptr, entry_count)) = n ≤ entry_count

Grows-weaken : (n : ℕ) (o : Option (List ℕ × ℕ)) → Grows (n + 1) o → Grows n o
Grows-weaken n none h = tt
Grows-weaken n (some (ptr, entry_count)) h = omega arith

count_more-Grows :
    (fuel : ℕ) (ptr : List ℕ) (n : ℕ) (o : Option ℕ)
    → ((k : ℕ) → Grows n (count_entries fuel (drop k ptr) n))
    → Grows n (elim o as (λ p. Option (List ℕ × ℕ)) [
      | none ↦ none
      | some k ↦ count_entries fuel (drop k ptr) n
    ])
count_more-Grows fuel ptr n none more = tt
count_more-Grows fuel ptr n (some k) more = more k

count_entries-Grows : (fuel : ℕ) (ptr : List ℕ) (n : ℕ) → Grows n (count_entries fuel ptr n)
unfolding count_entries
count_entries-Grows zero ptr n = tt
count_entries-Grows (suc fuel) [] n = omega arith
count_entries-Grows (suc fuel) (c ∷ cs) n = elim (Bool-cases (c == 0)) [
  | inl e ↦ rw e (omega arith)
  | inr e ↦ rw e (
      Grows-weaken n _ (
        count_more-Grows fuel (c ∷ cs) (n + 1) (entry_span (c ∷ cs))
          (λ k. count_entries-Grows fuel (drop k (c ∷ cs)) (n + 1))))
]

-- Behind the entries something that starts another one.
count_entries-Starts :
    (fuel : ℕ) (ptr : List ℕ) (n : ℕ) → Starts ptr → Grows (n + 1) (count_entries (suc fuel) ptr n)
unfolding count_entries
count_entries-Starts fuel [] n s = absurd s
count_entries-Starts fuel (c ∷ cs) n s =
    let nonzero : (c == 0) ≡ false = ground arith in
    rw nonzero (
      count_more-Grows fuel (c ∷ cs) (n + 1) (entry_span (c ∷ cs))
        (λ k. count_entries-Grows fuel (drop k (c ∷ cs)) (n + 1)))

check_counted-Grows :
    (leaf : LeafPage) (o : Option (List ℕ × ℕ))
    → Grows (leaf.entry_count + 1) o
    → check_counted leaf o ≡ false
unfolding check_counted
check_counted-Grows leaf none h = refl
check_counted-Grows leaf (some (ptr, n)) h =
    let e : (leaf.entry_count == n) ≡ false = ground arith in rw e (and_false (all_zero ptr))

checked_rest :
    (leaf : LeafPage) (fuel : ℕ) (rest : List ℕ) (n : ℕ)
    → leaf.entry_count ≡ n
    → check_counted leaf (count_entries (suc fuel) rest n) ≡ all_zero rest
unfolding check_counted count_entries all_zero
checked_rest leaf fuel [] n h = rw (h, ==-self n)
checked_rest leaf fuel (c ∷ cs) n h = elim (Bool-cases (c == 0)) [
  | inl e ↦
      let zero_first : all_zero (c ∷ cs) ≡ all_zero cs = rw e in
      rw (e, h, ==-self n) (and_true (all_zero (c ∷ cs)) ∙ zero_first ∙ sym zero_first ∙ rw e)
  | inr e ↦
      let grows : Grows (leaf.entry_count + 1) (count_entries (suc fuel) (c ∷ cs) n) =
        rw h (count_entries-Starts fuel (c ∷ cs) n (ground arith)) in
      check_counted-Grows leaf (count_entries (suc fuel) (c ∷ cs) n) grows ∙ rw e
]

counted_rest :
    (es : List KvEntry) (rest contents : List ℕ)
    → All IsEntry es
    → contents ≡ entries_buffer es ++ rest
    → count_entries (suc (length contents)) contents 0
      ≡ count_entries (suc (length (entries_buffer es ++ rest) - length es)) rest (length es)
counted_rest es rest contents valid e =
    let fuel = length (entries_buffer es ++ rest) - length es in
    let enough : suc (length (entries_buffer es ++ rest)) ≡ length es + suc fuel =
      omega (arith, length-le-entries_buffer es, length-append (entries_buffer es) rest) in
    let none_before : 0 + length es ≡ length es = omega arith in
    rw (e, enough, count_entries-entries_buffer es rest (suc fuel) 0 valid, none_before)

-- Where a page starts with as many valid entries as its header says, the check accepts it if and
-- only if every byte behind them is zero.
pub validate_leaf_integrity-rest :
    (leaf : LeafPage) (es : List KvEntry) (rest : List ℕ)
    → All IsEntry es
    → leaf.contents ≡ entries_buffer es ++ rest
    → leaf.entry_count ≡ length es
    → validate_leaf_integrity leaf ≡ all_zero rest
unfolding validate_leaf_integrity
validate_leaf_integrity-rest leaf es rest valid contents count =
    ap (check_counted leaf) (counted_rest es rest leaf.contents valid contents)
    ∙ checked_rest leaf (length (entries_buffer es ++ rest) - length es) rest (length es) count

-- The check accepts a page that holds entries, and zeros behind them.
pub validate_leaf_integrity-Holds :
    (leaf : LeafPage) (es : List KvEntry) → Holds leaf es → validate_leaf_integrity leaf ≡ true
validate_leaf_integrity-Holds leaf es h =
    validate_leaf_integrity-rest leaf es _ h.entries h.contents h.count
    ∙ all_zero-replicate (capacity - total_entries_size es)
