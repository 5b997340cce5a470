-- ===== src/BufferPool/Room.antt =====
-- `retain` of a page that is not in the pool: a slot becomes free, and then belongs to the page.
use diskmap_cpp.Common.{
  ℕ, ◌+◌, max, ◌≡◌, ◌≢◌, refl, sym, ap, ap₂, ◌∙◌, subst, inl, inr, Bool, true, false, ◌&&◌, Option,
  none, some, ◌==◌, ==-self, ltb, arith, Bool-cases, if◌then◌else◌,
}
use diskmap_cpp.Replacer.{put}
use diskmap_cpp.Replacer.Held.{IsReplacer, held}
use diskmap_cpp.BufferPool.{
  PageData, DataFile, BufferPool, PageMetadata, pread_page, pwrite_page, or_zero, unused_page,
  assign_slot, pin, read_page,
}
use diskmap_cpp.BufferPool.View.{file_page, view_at, view, IsPool, IsRoom}

pub file_page-pwrite_page :
    (f : DataFile) (i x : ℕ) (bytes : PageData)
    → file_page (pwrite_page i bytes f) x ≡ (if x == i then bytes else file_page f x)
unfolding file_page pwrite_page pread_page or_zero
file_page-pwrite_page f i x bytes = elim (Bool-cases (x == i)) [
  | inl e ↦ let inside : ltb x (max f.size (i + 1)) ≡ true = ground arith in rw (inside, e)
  | inr e ↦ elim (Bool-cases (ltb x f.size)) [
    | inl h ↦ let inside : ltb x (max f.size (i + 1)) ≡ true = ground arith in rw (inside, e, h)
    | inr h ↦ elim (Bool-cases (ltb x (max f.size (i + 1)))) [
      | inl k ↦ rw (k, e, h)
      | inr k ↦ rw (k, e, h)
    ]
  ]
]

pub some-injective : {a b : ℕ} → some a ≡ some b → a ≡ b
some-injective h = cc

pub none≢some : {a : ℕ} → none ≢ some a
none≢some h = cc

-- A field of the metadata at another slot, and at this one.
pub put_other {ℓ} : {A : Type ℓ} (k x : ℕ) (v : A) (f : ℕ → A) → x ≢ k → put k v f x ≡ f x
put_other k x v f h = let e : (x == k) ≡ false = ground arith in rw e

pub put_same {ℓ} : {A : Type ℓ} (k : ℕ) (v : A) (f : ℕ → A) → put k v f k ≡ v
put_same k v f = rw (==-self k)

-- Slot `n` got page `x`, with one user, and nothing else changed.
pub record Filled (s s' : BufferPool) (x n : ℕ) : Type 0 where
  pub pool_size : s'.pool_size ≡ s.pool_size
  pub next_pool_index : s'.next_pool_index ≡ s.next_pool_index
  pub replacer : s'.replacer ≡ s.replacer
  pub file : s'.file ≡ s.file
  pub file_index : (s'.metadata n).file_index ≡ x
  pub refcount : (s'.metadata n).refcount ≡ 1
  pub metadata : (i : ℕ) → i ≢ n → s'.metadata i ≡ s.metadata i
  pub found : s'.file_to_pool_index x ≡ some n
  pub others : (y : ℕ) → y ≢ x → s'.file_to_pool_index y ≡ s.file_to_pool_index y
  pub bytes : s'.pages n ≡ file_page s.file x
  pub pages : (i : ℕ) → i ≢ n → s'.pages i ≡ s.pages i

-- The steps after the slot is free.
abbrev pub fill : ℕ → Bool → ℕ → BufferPool → BufferPool
fill x a n s = read_page x n (pin a n (assign_slot x a n s))

pub fill-Filled :
    (s : BufferPool) (x n : ℕ) (a : Bool) → s.metadata n ≡ unused_page → Filled s (fill x a n s) x n
unfolding read_page pin assign_slot unused_page
fill-Filled s x n a h = record {
  pool_size = refl;
  next_pool_index = refl;
  replacer = refl;
  file = refl;
  file_index = rw (==-self n);
  refcount = rw (==-self n, h);
  metadata = λ i k. let e : (i == n) ≡ false = ground (arith, k) in rw e;
  found = put_same x (some n) s.file_to_pool_index;
  others = λ y k. put_other x y (some n) s.file_to_pool_index k;
  bytes = put_same n _ s.pages ∙ (unfold file_page in refl);
  pages = λ i k. put_other n i _ s.pages k;
}

pub Filled-IsPool :
    (s s' : BufferPool) (x n : ℕ)
    → IsRoom s n
    → s.file_to_pool_index x ≡ none
    → Filled s s' x n
    → IsPool s'
Filled-IsPool s s' x n r h f = record {
  bounded = omega (arith, f.next_pool_index, f.pool_size, r.bounded);
  replacer = subst IsReplacer (sym f.replacer) r.replacer;
  mapped = λ y j k. elim (Bool-cases (y == x)) [
    | inl e ↦
        let y_x : y ≡ x = ground arith in
        let n_j : n ≡ j = some-injective (sym f.found ∙ ap s'.file_to_pool_index (sym y_x) ∙ k) in
        (
          omega (arith, n_j, f.next_pool_index, r.below),
          ap (λ i. (s'.metadata i).file_index) (sym n_j) ∙ f.file_index ∙ sym y_x,
        )
    | inr e ↦
        let (other, inside, same) = r.mapped y j (sym (f.others y (ground (arith, e))) ∙ k) in
        (
          omega (arith, f.next_pool_index, inside),
          ap (λ (m : PageMetadata). m.file_index) (f.metadata j other) ∙ same,
        )
  ];
  resident = λ j k. elim (Bool-cases (j == n)) [
    | inl e ↦
        let j_n : j ≡ n = ground arith in
        ap (λ i. s'.file_to_pool_index (s'.metadata i).file_index) j_n
        ∙ ap s'.file_to_pool_index f.file_index
        ∙ f.found
        ∙ ap some (sym j_n)
    | inr e ↦
        let other : j ≢ n = ground arith in
        let there = r.resident j other (omega (arith, k, f.next_pool_index)) in
        ap (λ (m : PageMetadata). s'.file_to_pool_index m.file_index) (f.metadata j other)
        ∙ f.others (s.metadata j).file_index
            (λ e. none≢some (sym h ∙ ap s.file_to_pool_index (sym e) ∙ there))
        ∙ there
  ];
  idle = λ j. elim (Bool-cases (j == n)) [
    | inl e ↦
        let j_n : j ≡ n = ground arith in
        let busy : (s'.metadata j).refcount ≡ 1 =
          ap (λ i. (s'.metadata i).refcount) j_n ∙ f.refcount in
        ap (λ d. held d j) f.replacer ∙ ap (held s.replacer) j_n ∙ r.absent ∙ ground (arith, busy)
    | inr e ↦
        let other : j ≢ n = ground arith in
        ap (λ d. held d j) f.replacer
        ∙ r.idle j other
        ∙ ap₂ (λ m c. ltb j m && c == 0) (sym f.next_pool_index)
            (ap (λ (m : PageMetadata). m.refcount) (sym (f.metadata j other)))
  ];
  clean = λ j k d. elim (Bool-cases (j == n)) [
    | inl e ↦
        let j_n : j ≡ n = ground arith in
        ap s'.pages j_n
        ∙ f.bytes
        ∙ ap₂ file_page (sym f.file)
            (sym f.file_index ∙ ap (λ i. (s'.metadata i).file_index) (sym j_n))
    | inr e ↦
        let other : j ≢ n = ground arith in
        let same = f.metadata j other in
        f.pages j other
        ∙ r.clean j other (omega (arith, k, f.next_pool_index))
            (sym (ap (λ (m : PageMetadata). m.dirty) same) ∙ d)
        ∙ ap₂ file_page (sym f.file) (sym (ap (λ (m : PageMetadata). m.file_index) same))
  ];
  unused = λ j k.
      f.metadata j (omega (arith, k, r.below, f.next_pool_index))
      ∙ r.unused j (omega (arith, k, f.next_pool_index));
}

view_same :
    (s s' : BufferPool) {x : ℕ} (n : ℕ)
    → IsRoom s n
    → Filled s s' x n
    → (y : ℕ) (o : Option ℕ) → s.file_to_pool_index y ≡ o
    → view_at o s' y ≡ view_at o s y
unfolding view_at
view_same s s' n r f y none h = ap (λ g. file_page g y) f.file
view_same s s' n r f y (some i) h = f.pages i (r.mapped y i h).0

-- No page is lost: each is in the pool or in the file as before.
pub Filled-view :
    (s s' : BufferPool) (x n : ℕ)
    → IsRoom s n
    → s.file_to_pool_index x ≡ none
    → Filled s s' x n
    → (y : ℕ) → view s' y ≡ view s y
unfolding view view_at
Filled-view s s' x n r h f y = elim (Bool-cases (y == x)) [
  | inl e ↦
      let y_x : y ≡ x = ground arith in
      ap (λ z. view_at (s'.file_to_pool_index z) s' z) y_x
      ∙ rw (f.found, h) f.bytes
      ∙ ap (λ z. view_at (s.file_to_pool_index z) s z) (sym y_x)
  | inr e ↦
      ap (λ o. view_at o s' y) (f.others y (ground (arith, e)))
      ∙ view_same s s' n r f y (s.file_to_pool_index y) refl
]
