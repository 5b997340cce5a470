-- ===== src/BufferPool/View.antt =====
-- The invariant of the buffer pool, and what its clients see: each page of the data file, in the pool
-- or in the file.
use diskmap_cpp.Common.{
  ℕ, ◌<◌, ◌≤◌, ◌≡◌, ◌≢◌, refl, sym, ap, ◌∙◌, false, ◌&&◌, Option, none, some, ◌==◌, ltb,
}
use diskmap_cpp.Replacer.Dual.{Dual}
use diskmap_cpp.Replacer.Held.{IsReplacer, held}
use diskmap_cpp.BufferPool.{
  PageData, DataFile, BufferPool, PageMetadata, pread_page, or_zero, unused_page,
}

-- A page of the file; beyond the end it is zeros.
unfoldable pub file_page : DataFile → ℕ → PageData
unfolding pread_page or_zero
file_page f x = or_zero (pread_page x f)

unfoldable pub view_at : Option ℕ → BufferPool → ℕ → PageData
view_at none s x = file_page s.file x
view_at (some i) s x = s.pages i

unfoldable pub view : BufferPool → ℕ → PageData
unfolding view_at
view s x = view_at (s.file_to_pool_index x) s x

-- The map and the metadata name the same pages; the replacer has the slots that nobody uses; a page
-- that is not dirty is in the file as it is in the pool.
pub record IsPool (s : BufferPool) : Type 0 where
  pub bounded : s.next_pool_index ≤ s.pool_size
  pub replacer : IsReplacer s.replacer
  pub mapped :
      (x i : ℕ)
      → s.file_to_pool_index x ≡ some i
      → (i < s.next_pool_index) × ((s.metadata i).file_index ≡ x)
  pub resident :
      (i : ℕ) → i < s.next_pool_index → s.file_to_pool_index (s.metadata i).file_index ≡ some i
  pub idle : (i : ℕ) → held s.replacer i ≡ (ltb i s.next_pool_index && (s.metadata i).refcount == 0)
  pub clean :
      (i : ℕ)
      → i < s.next_pool_index
      → (s.metadata i).dirty ≡ false
      → s.pages i ≡ file_page s.file (s.metadata i).file_index
  pub unused : (i : ℕ) → s.next_pool_index ≤ i → s.metadata i ≡ unused_page

-- Where only the counts of users and the replacer change.
recounted_view_at :
    (s : BufferPool) (m : ℕ → PageMetadata) (d : Dual) (o : Option ℕ) (x : ℕ)
    → view_at o (record s { metadata = m; replacer = d }) x ≡ view_at o s x
unfolding view_at
recounted_view_at s m d none x = refl
recounted_view_at s m d (some i) x = refl

pub recounted_view :
    (s : BufferPool) (m : ℕ → PageMetadata) (d : Dual) (x : ℕ)
    → view (record s { metadata = m; replacer = d }) x ≡ view s x
unfolding view
recounted_view s m d x = recounted_view_at s m d (s.file_to_pool_index x) x

pub recounted-IsPool :
    (s : BufferPool) (m : ℕ → PageMetadata) (d : Dual)
    → IsPool s
    → IsReplacer d
    → ((i : ℕ) → (m i).file_index ≡ (s.metadata i).file_index)
    → ((i : ℕ) → (m i).dirty ≡ (s.metadata i).dirty)
    → ((i : ℕ) → held d i ≡ (ltb i s.next_pool_index && (m i).refcount == 0))
    → ((i : ℕ) → s.next_pool_index ≤ i → m i ≡ s.metadata i)
    → IsPool (record s { metadata = m; replacer = d })
recounted-IsPool s m d p q index dirty idle unused = record {
  bounded = p.bounded;
  replacer = q;
  mapped = λ y j k. let (l, e) = p.mapped y j k in (l, index j ∙ e);
  resident = λ j k. ap s.file_to_pool_index (index j) ∙ p.resident j k;
  idle = idle;
  clean = λ j k l. p.clean j k (sym (dirty j) ∙ l) ∙ ap (file_page s.file) (sym (index j));
  unused = λ j k. unused j k ∙ p.unused j k;
}

-- A slot that has no page, in a pool that is otherwise in order.
pub record IsRoom (s : BufferPool) (n : ℕ) : Type 0 where
  pub below : n < s.next_pool_index
  pub bounded : s.next_pool_index ≤ s.pool_size
  pub replacer : IsReplacer s.replacer
  pub mapped :
      (x i : ℕ)
      → s.file_to_pool_index x ≡ some i
      → (i ≢ n) × (i < s.next_pool_index) × ((s.metadata i).file_index ≡ x)
  pub resident :
      (i : ℕ)
      → i ≢ n
      → i < s.next_pool_index
      → s.file_to_pool_index (s.metadata i).file_index ≡ some i
  pub idle :
      (i : ℕ)
      → i ≢ n
      → held s.replacer i ≡ (ltb i s.next_pool_index && (s.metadata i).refcount == 0)
  pub absent : held s.replacer n ≡ false
  pub clean :
      (i : ℕ)
      → i ≢ n
      → i < s.next_pool_index
      → (s.metadata i).dirty ≡ false
      → s.pages i ≡ file_page s.file (s.metadata i).file_index
  pub empty : s.metadata n ≡ unused_page
  pub unused : (i : ℕ) → s.next_pool_index ≤ i → s.metadata i ≡ unused_page
