-- ===== src/Replacer/Segment.antt =====
-- Chains of nodes: from `o`, following `f`, one meets the nodes `xs` and then stands at `p`.
use diskmap_cpp.Common.{
  ℕ, ◌≡◌, refl, sym, ◌∙◌, subst, Bool, false, ◌||◌, Option, some, List, [], ◌∷◌, ◌++◌, arith, ◌==◌,
  ==-self, append_assoc, append-nil,
}
use diskmap_cpp.Replacer.{put}

abbrev pub Seg : (ℕ → Option ℕ) → Option ℕ → List ℕ → Option ℕ → Type 0
Seg f o [] p = o ≡ p
Seg f o (x ∷ xs) p = (o ≡ some x) × Seg f (f x) xs p

unfoldable pub mem : ℕ → List ℕ → Bool
mem x [] = false
mem x (y ∷ ys) = (x == y) || mem x ys

unfoldable pub rev : List ℕ → List ℕ
rev [] = []
rev (x ∷ xs) = rev xs ++ x ∷ []

abbrev pub NoRepeat : List ℕ → Type 0
NoRepeat [] = Unit
NoRepeat (x ∷ xs) = (mem x xs ≡ false) × NoRepeat xs

pub mem-append : (x : ℕ) (xs ys : List ℕ) → mem x (xs ++ ys) ≡ (mem x xs || mem x ys)
unfolding mem
mem-append x [] ys = refl
mem-append x (y ∷ xs) ys = ground (arith, mem-append x xs ys)

pub rev-append : (xs ys : List ℕ) → rev (xs ++ ys) ≡ rev ys ++ rev xs
unfolding rev
rev-append [] ys = sym (append-nil (rev ys))
rev-append (x ∷ xs) ys = rw (rev-append xs ys) (append_assoc (rev ys) (rev xs) (x ∷ []))

pub mem-rev : (x : ℕ) (xs : List ℕ) → mem x (rev xs) ≡ mem x xs
unfolding mem rev
mem-rev x [] = refl
mem-rev x (y ∷ xs) = ground (arith, mem-append x (rev xs) (y ∷ []), mem-rev x xs)

pub NoRepeat-front : (xs ys : List ℕ) → NoRepeat (xs ++ ys) → NoRepeat xs
NoRepeat-front [] ys h = tt
NoRepeat-front (x ∷ xs) ys h = (ground (arith, mem-append x xs ys, h.0), NoRepeat-front xs ys h.1)

pub NoRepeat-back : (xs ys : List ℕ) → NoRepeat (xs ++ ys) → NoRepeat ys
NoRepeat-back [] ys h = h
NoRepeat-back (x ∷ xs) ys h = NoRepeat-back xs ys h.1

pub NoRepeat-add : (xs : List ℕ) (y : ℕ) → NoRepeat xs → mem y xs ≡ false → NoRepeat (xs ++ y ∷ [])
unfolding mem
NoRepeat-add [] y d h = (refl, tt)
NoRepeat-add (x ∷ xs) y d h =
    (ground (arith, mem-append x xs (y ∷ []), d.0), NoRepeat-add xs y d.1 (ground arith))

pub NoRepeat-rev : (xs : List ℕ) → NoRepeat xs → NoRepeat (rev xs)
unfolding rev
NoRepeat-rev [] d = tt
NoRepeat-rev (x ∷ xs) d = NoRepeat-add (rev xs) x (NoRepeat-rev xs d.1) (mem-rev x xs ∙ d.0)

-- The element in the middle stands nowhere else.
pub mem_front : (xs ys : List ℕ) (v : ℕ) → NoRepeat (xs ++ v ∷ ys) → mem v xs ≡ false
unfolding mem
mem_front [] ys v d = refl
mem_front (x ∷ xs) ys v d =
    ground (arith, mem_front xs ys v d.1, mem-append x xs (v ∷ ys), d.0, ==-self v)

pub NoRepeat-inner : (xs ys : List ℕ) (v : ℕ) → NoRepeat (xs ++ v ∷ ys) → NoRepeat (xs ++ ys)
unfolding mem
NoRepeat-inner [] ys v d = d.1
NoRepeat-inner (x ∷ xs) ys v d =
    (ground (arith, mem-append x xs ys, mem-append x xs (v ∷ ys), d.0), NoRepeat-inner xs ys v d.1)

module _ (f : ℕ → Option ℕ) where
  pub Seg-append :
      (xs ys : List ℕ) (o q p : Option ℕ) → Seg f o xs q → Seg f q ys p → Seg f o (xs ++ ys) p
  Seg-append [] ys o q p h k = subst (λ r. Seg f r ys p) (sym h) k
  Seg-append (x ∷ xs) ys o q p h k = (h.0, Seg-append xs ys (f x) q p h.1 k)

  pub Seg-split :
      (xs ys : List ℕ) (o p : Option ℕ)
      → Seg f o (xs ++ ys) p
      → (q : Option ℕ) × Seg f o xs q × Seg f q ys p
  Seg-split [] ys o p h = (o, refl, h)
  Seg-split (x ∷ xs) ys o p h = let (q, a, b) = Seg-split xs ys (f x) p h.1 in (q, (h.0, a), b)

  -- A chain without the node whose field is set.
  pub Seg-put :
      (k : ℕ) (v : Option ℕ) (xs : List ℕ) (o p : Option ℕ)
      → mem k xs ≡ false
      → Seg f o xs p
      → Seg (put k v f) o xs p
  unfolding mem
  Seg-put k v [] o p fresh h = h
  Seg-put k v (x ∷ xs) o p fresh h =
      let other : (x == k) ≡ false = ground arith in
      let later : mem k xs ≡ false = ground arith in
      (h.0, rw other (Seg-put k v xs (f x) p later h.1))

  -- The last node of a chain is led elsewhere.
  pub Seg-last :
      (us : List ℕ) (a : ℕ) (v o p : Option ℕ)
      → NoRepeat (us ++ a ∷ [])
      → Seg f o (us ++ a ∷ []) p
      → Seg (put a v f) o (us ++ a ∷ []) v
  unfolding mem
  Seg-last [] a v o p d h = (h.0, rw (==-self a))
  Seg-last (x ∷ us) a v o p d h =
      let other : (x == a) ≡ false = ground (arith, mem-append x us (a ∷ []), d.0) in
      (h.0, rw other (Seg-last us a v (f x) p d.1 h.1))

-- The chain in which `a` leads past the next node `v`.
pub Seg-skip :
    (f : ℕ → Option ℕ) (us ws : List ℕ) (a v : ℕ) (o p : Option ℕ)
    → NoRepeat (us ++ a ∷ v ∷ ws)
    → Seg f o (us ++ a ∷ v ∷ ws) p
    → (f a ≡ some v) × Seg (put a (f v) f) o (us ++ a ∷ ws) p
unfolding mem
Seg-skip f us ws a v o p d h =
    let (q, front, rest) = Seg-split f us (a ∷ v ∷ ws) o p h in
    let d' = NoRepeat-back us (a ∷ v ∷ ws) d in
    let out : mem a us ≡ false = mem_front us (v ∷ ws) a d in
    let out' : mem a ws ≡ false = ground (arith, d'.0) in
    (
      rest.1.0,
      Seg-append (put a (f v) f) us (a ∷ ws) o q p (Seg-put f a (f v) us o q out front)
          (rest.0, rw (==-self a) (Seg-put f a (f v) ws (f v) p out' rest.1.1)),
    )
