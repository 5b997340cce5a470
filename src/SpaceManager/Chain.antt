-- ===== src/SpaceManager/Chain.antt =====
-- The free pages of one order, as a stack: the entries of the last FPL page, the newest last, and
-- then those of the full pages before it.
use diskmap_cpp.Common.{
  ℕ, suc, ◌+◌, ◌≤◌, ◌<◌, ◌≡◌, ◌≢◌, refl, ◌∙◌, arith, List, [], ◌∷◌, All, ap, sym, subst, length,
}
use diskmap_cpp.Memory.{Mem, page_size}
use diskmap_cpp.Page.{
  read_field, meta_page, last_fpl_page, last_fpl_page_entries, previous, entries, fpl_page_capacity,
}

-- `below` are the full pages before `fpl`, `xs` the free pages, the next one to hand out first.
pub data Chain (m : Mem) : ℕ → List ℕ → ℕ → List ℕ → Type 0 where
  bottom : {fpl : ℕ} → read_field 8 m fpl previous ≡ 0 → Chain m fpl [] 0 []
  push :
      {fpl count x : ℕ} {below xs : List ℕ}
      → read_field 8 m fpl (entries count) ≡ x
      → Chain m fpl below count xs
      → Chain m fpl below (suc count) (x ∷ xs)
  link :
      {fpl q : ℕ} {below xs : List ℕ}
      → read_field 8 m fpl previous ≡ q
      → q ≢ 0
      → Chain m q below fpl_page_capacity xs
      → Chain m fpl (q ∷ below) 0 xs

-- The meta page's view: the last FPL page and the number of its entries. It has none only where no
-- page comes before it.
pub record FreeList (m : Mem) (order fpl : ℕ) (below : List ℕ) (count : ℕ) (xs : List ℕ)
    : Type 0 where
  pub last : read_field 8 m meta_page (last_fpl_page order) ≡ fpl
  pub filled : read_field 4 m meta_page (last_fpl_page_entries order) ≡ count
  pub chain : Chain m fpl below count xs
  pub settled : count ≡ 0 → read_field 8 m fpl previous ≡ 0

abbrev pub SamePage : Mem → Mem → ℕ → Type 0
SamePage m m' page =
    (offset : ℕ) → offset + 8 ≤ page_size → read_field 8 m' page offset ≡ read_field 8 m page offset

-- A chain survives any change that spares the entries it uses.
pub Chain-frame :
    (m m' : Mem) {fpl : ℕ} {below : List ℕ} {count : ℕ} {xs : List ℕ}
    → count ≤ fpl_page_capacity
    → read_field 8 m' fpl previous ≡ read_field 8 m fpl previous
    → ((i : ℕ) → i < count → read_field 8 m' fpl (entries i) ≡ read_field 8 m fpl (entries i))
    → All (SamePage m m') below
    → Chain m fpl below count xs
    → Chain m' fpl below count xs
Chain-frame m m' fits p e b (bottom h) = bottom (p ∙ h)
Chain-frame m m' {count = suc count} fits p e b (push h c) =
    push (e count (omega arith) ∙ h)
      (Chain-frame m m' (omega arith) p (λ i lt. e i (omega arith)) b c)
Chain-frame m m' fits p e b (link h ne c) = link (p ∙ h) ne (
    Chain-frame m m' (omega arith) (b.0 previous (omega arith))
      (λ i lt. b.0 (entries i) (omega arith)) b.1 c)

-- A page that keeps its fields keeps its part of the stack.
pub Chain-same :
    (m m' : Mem) {fpl count : ℕ} {below xs : List ℕ}
    → count ≤ fpl_page_capacity
    → SamePage m m' fpl
    → All (SamePage m m') below
    → Chain m fpl below count xs
    → Chain m' fpl below count xs
Chain-same m m' room same sames =
    Chain-frame m m' room (same previous (omega arith)) (λ i lt. same (entries i) (omega arith))
      sames

-- At no entries the chain goes on with the full page before, or ends.
pub Chain-previous :
    {m : Mem} {fpl q count : ℕ} {below : List ℕ} {xs : List ℕ}
    → Chain m fpl below count xs
    → count ≡ 0
    → read_field 8 m fpl previous ≡ q
    → q ≢ 0
    → (rest : List ℕ) × (below ≡ q ∷ rest) × Chain m q rest fpl_page_capacity xs
Chain-previous (bottom h) none_left at ne = absurd (ne (sym at ∙ h))
Chain-previous {count = suc count} (push h c) none_left at ne = absurd (omega arith)
Chain-previous {m = m} {q = q} (link {q = p} {below = below} {xs = xs} h p_ne c) none_left at ne = (
  below,
  ap (λ r. r ∷ below) (sym h ∙ at),
  subst (λ r. Chain m r below fpl_page_capacity xs) (sym h ∙ at) c,
)

pub Chain-newest :
    {m : Mem} {fpl count x : ℕ} {below xs : List ℕ}
    → Chain m fpl below (suc count) (x ∷ xs)
    → (read_field 8 m fpl (entries count) ≡ x) × Chain m fpl below count xs
Chain-newest (push h c) = (h, c)

pub Chain-count :
    {m : Mem} {fpl count x : ℕ} {below xs : List ℕ}
    → Chain m fpl below count (x ∷ xs)
    → (count ≡ 0 → read_field 8 m fpl previous ≡ 0)
    → (c : ℕ) × (count ≡ suc c)
Chain-count (push {count = c} h rest) ends = (c, refl)
Chain-count (link h ne rest) ends = absurd (ne (sym h ∙ ends refl))

pub Chain-empty :
    {m : Mem} {fpl count : ℕ} {below xs : List ℕ}
    → Chain m fpl below count xs
    → count ≤ fpl_page_capacity
    → xs ≡ []
    → (count ≡ 0 → read_field 8 m fpl previous ≡ 0)
    → count ≡ 0
Chain-empty (bottom h) room e ends = refl
Chain-empty (push h c) room e ends = absurd (omega (arith, ap length e))
Chain-empty (link h ne c) room e ends = refl
