-- ===== src/BufferPool/Modify.antt =====
-- Writes through a page handle.
use diskmap_cpp.Common.{
  ℕ, ◌<◌, max, ◌≡◌, refl, sym, ap, ◌∙◌, inl, inr, true, false, ◌&&◌, Option, none, some, ◌==◌, ltb,
  arith, Bool-cases, if◌then◌else◌,
}
use diskmap_cpp.Replacer.{put}
use diskmap_cpp.BufferPool.{PageData, BufferPool, PageMetadata, modified_by, modify}
use diskmap_cpp.BufferPool.View.{view_at, view, IsPool}
use diskmap_cpp.BufferPool.Room.{put_other, some-injective, none≢some}
use diskmap_cpp.Replacer.Queue.{false≢true}
use diskmap_cpp.BufferPool.Retained.{put_keeps}
use diskmap_cpp.BufferPool.Users.{busy_inside}

-- The page of slot `i` has the new bytes.
pub record Modified (s s' : BufferPool) (i : ℕ) (bytes : PageData) : Type 0 where
  pub pool : IsPool s'
  pub pool_size : s'.pool_size ≡ s.pool_size
  pub view_new : (y : ℕ) → view s' y ≡ (if y == (s.metadata i).file_index then bytes else view s y)
  pub count : (j : ℕ) → (s'.metadata j).refcount ≡ (s.metadata j).refcount
  pub index : (j : ℕ) → (s'.metadata j).file_index ≡ (s.metadata j).file_index

-- Another slot has another page.
pub slot_differs :
    (s : BufferPool) (i j y : ℕ)
    → IsPool s
    → i < s.next_pool_index
    → s.file_to_pool_index y ≡ some j
    → (j == i) ≡ false
    → (y == (s.metadata i).file_index) ≡ false
slot_differs s i j y p inside h e = elim (Bool-cases (y == (s.metadata i).file_index)) [
  | inl f ↦
      let same : y ≡ (s.metadata i).file_index = ground arith in
      let j_i : j ≡ i =
        some-injective (sym h ∙ ap s.file_to_pool_index same ∙ p.resident i inside) in
      absurd (false≢true (sym e ∙ ground (arith, j_i)))
  | inr f ↦ f
]

modified_view :
    (s : BufferPool) (i lsn : ℕ) (bytes : PageData)
    → IsPool s
    → i < s.next_pool_index
    → (y : ℕ) (o : Option ℕ) → s.file_to_pool_index y ≡ o
    → view_at o (modify i lsn bytes s) y
      ≡ (if y == (s.metadata i).file_index then bytes else view_at o s y)
unfolding view_at modify modified_by
modified_view s i lsn bytes p inside y none h = elim (Bool-cases (y == (s.metadata i).file_index)) [
  | inl e ↦
      let same : y ≡ (s.metadata i).file_index = ground arith in
      absurd (none≢some (sym h ∙ ap s.file_to_pool_index same ∙ p.resident i inside))
  | inr e ↦ rw e
]
modified_view s i lsn bytes p inside y (some j) h = elim (Bool-cases (j == i)) [
  | inl e ↦
      let same : j ≡ i = ground arith in
      let page : y ≡ (s.metadata i).file_index =
        sym (p.mapped y j h).1 ∙ ap (λ k. (s.metadata k).file_index) same in
      let this : (y == (s.metadata i).file_index) ≡ true = ground (arith, page) in rw (e, this)
  | inr e ↦
      let other : (y == (s.metadata i).file_index) ≡ false = slot_differs s i j y p inside h e in
      rw (e, other)
]

-- A write into a slot in use changes the page of that slot and no other.
pub modify-Modified :
    (s : BufferPool) (i lsn : ℕ) (bytes : PageData)
    → IsPool s
    → 0 < (s.metadata i).refcount
    → Modified s (modify i lsn bytes s) i bytes
unfolding modify modified_by view
modify-Modified s i lsn bytes p busy =
    let inside = busy_inside s i p busy in
    let v : PageMetadata = record (s.metadata i) {
      dirty = true;
      page_lsn = max lsn (s.metadata i).page_lsn;
    } in
    let m = put i v s.metadata in
    let index : (j : ℕ) → (m j).file_index ≡ (s.metadata j).file_index =
      λ j. put_keeps (λ (m : PageMetadata). m.file_index) i j v s.metadata refl in
    let count : (j : ℕ) → (m j).refcount ≡ (s.metadata j).refcount =
      λ j. put_keeps (λ (m : PageMetadata). m.refcount) i j v s.metadata refl in
    record {
      pool = record {
        bounded = p.bounded;
        replacer = p.replacer;
        mapped = λ y j k. let (l, e) = p.mapped y j k in (l, index j ∙ e);
        resident = λ j k. ap s.file_to_pool_index (index j) ∙ p.resident j k;
        idle = λ j. p.idle j ∙ ap (λ c. ltb j s.next_pool_index && c == 0) (sym (count j));
        clean = λ j k l. elim (Bool-cases (j == i)) [
          | inl e ↦ let dirty : (m j).dirty ≡ true = rw e in absurd (false≢true (sym l ∙ dirty))
          | inr e ↦
              let same : m j ≡ s.metadata j = rw e in
              rw e (p.clean j k (sym (ap (λ (m : PageMetadata). m.dirty) same) ∙ l))
        ];
        unused =
            λ j k. put_other i j v s.metadata (λ e. omega (arith, inside, e, k)) ∙ p.unused j k;
      };
      pool_size = refl;
      view_new = λ y. modified_view s i lsn bytes p inside y (s.file_to_pool_index y) refl;
      count = count;
      index = index;
    }
