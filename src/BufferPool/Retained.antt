-- ===== src/BufferPool/Retained.antt =====
-- What a call of `retain` means for its caller and for the others; `retain` of a page in the pool.
use diskmap_cpp.Common.{
  ℕ, ◌+◌, ◌<◌, ◌≡◌, ◌≢◌, refl, sym, ap, ◌∙◌, inl, inr, Bool, ◌&&◌, Option, none, some, ◌==◌, arith,
  Bool-cases, if◌then◌else◌,
}
use diskmap_cpp.Replacer.{put}
use diskmap_cpp.Replacer.Held.{remove_dual-held}
use diskmap_cpp.BufferPool.{
  BufferPool, PageMetadata, write_back, retain, retain_locked, find_slot, finish_retain, retain_io,
  pin,
}
use diskmap_cpp.BufferPool.View.{
  file_page, view_at, view, IsPool, IsRoom, recounted-IsPool, recounted_view,
}
use diskmap_cpp.BufferPool.Room.{put_other, Filled, Filled-IsPool, Filled-view}

-- The caller has the page in slot `i`, where the count of users is one more; a page that others use
-- is where it was.
pub record Retained (s s' : BufferPool) (x i : ℕ) : Type 0 where
  pub pool : IsPool s'
  pub view_same : (y : ℕ) → view s' y ≡ view s y
  pub pool_size : s'.pool_size ≡ s.pool_size
  pub found : s'.file_to_pool_index x ≡ some i
  pub bytes : s'.pages i ≡ view s x
  pub count :
      (j : ℕ)
      → (s'.metadata j).refcount
        ≡ (if j == i then (s.metadata j).refcount + 1 else (s.metadata j).refcount)
  pub kept :
      (j : ℕ)
      → 0 < (s.metadata j).refcount
      → (s'.pages j ≡ s.pages j) × ((s'.metadata j).file_index ≡ (s.metadata j).file_index)

-- Every slot is in use, and the pool stays as it was.
pub record Full (s s' : BufferPool) : Type 0 where
  pub pool : IsPool s'
  pub view_same : (y : ℕ) → view s' y ≡ view s y
  pub in_use : (j : ℕ) → j < s.pool_size → 0 < (s.metadata j).refcount

pub data RetainResult (s : BufferPool) (x : ℕ) (r : Option (Option ℕ × BufferPool)) : Type 0 where
  retained :
      (i : ℕ) (s' : BufferPool) → r ≡ some (some i, s') → Retained s s' x i → RetainResult s x r
  full :
      (s' : BufferPool)
      → r ≡ some (none, s')
      → s.file_to_pool_index x ≡ none
      → Full s s'
      → RetainResult s x r

-- A field of the metadata that `put` does not change.
pub put_keeps {ℓ} :
    {A : Type ℓ} (field : PageMetadata → A) (i j : ℕ) (v : PageMetadata) (m : ℕ → PageMetadata)
    → field v ≡ field (m i)
    → field (put i v m j) ≡ field (m j)
put_keeps field i j v m h = elim (Bool-cases (j == i)) [
  | inl e ↦ let same : j ≡ i = ground arith in rw e (h ∙ ap (λ j. field (m j)) (sym same))
  | inr e ↦ rw e
]

pub put_count :
    (i j n : ℕ) (v : PageMetadata) (m : ℕ → PageMetadata)
    → v.refcount ≡ n
    → (put i v m j).refcount ≡ (if j == i then n else (m j).refcount)
put_count i j n v m h = elim (Bool-cases (j == i)) [ inl e ↦ rw e h | inr e ↦ rw e ]

counted :
    (i j : ℕ) (m : ℕ → PageMetadata)
    → (if j == i then (m i).refcount + 1 else (m j).refcount)
      ≡ (if j == i then (m j).refcount + 1 else (m j).refcount)
counted i j m = elim (Bool-cases (j == i)) [
  | inl e ↦ let same : j ≡ i = ground arith in rw e (ap (λ k. (m k).refcount + 1) (sym same))
  | inr e ↦ rw e
]

pub retain_hit :
    (s : BufferPool) (x i : ℕ) (a : Bool)
    → IsPool s
    → s.file_to_pool_index x ≡ some i
    → RetainResult s x (retain x a s)
unfolding retain retain_locked find_slot finish_retain retain_io write_back pin
retain_hit s x i a p h =
    let (d, run, q, w) = remove_dual-held s.replacer i p.replacer in
    let inside = (p.mapped x i h).0 in
    let v : PageMetadata = record (s.metadata i) {
      refcount = (s.metadata i).refcount + 1;
      advise_eviction = (s.metadata i).advise_eviction && a;
    } in
    let m = put i v s.metadata in
    let s' : BufferPool = record s { metadata = m; replacer = d } in
    let index : (j : ℕ) → (m j).file_index ≡ (s.metadata j).file_index =
      λ j. put_keeps (λ (m : PageMetadata). m.file_index) i j v s.metadata refl in
    let count : (j : ℕ)
        → (m j).refcount
          ≡ (if j == i then (s.metadata j).refcount + 1 else (s.metadata j).refcount) =
      λ j. put_count i j ((s.metadata i).refcount + 1) v s.metadata refl ∙ counted i j s.metadata in
    retained i s' (rw (h, run)) (record {
      pool =
          recounted-IsPool s m d p q index
            (λ j. put_keeps (λ (m : PageMetadata). m.dirty) i j v s.metadata refl)
            (λ j. w j ∙ ground (arith, p.idle j, count j))
            (λ j k. put_other i j v s.metadata (λ e. omega (arith, inside, e, k)));
      view_same = recounted_view s m d;
      pool_size = refl;
      found = h;
      bytes = unfold view view_at in rw h;
      count = count;
      kept = λ j k. (refl, index j);
    })

-- The new slot, once it is free in `r`.
pub Filled-Retained :
    (s r s' : BufferPool) (x n : ℕ)
    → IsRoom r n
    → ((y : ℕ) → view r y ≡ view s y)
    → r.file_to_pool_index x ≡ none
    → ((j : ℕ) → j ≢ n → r.metadata j ≡ s.metadata j)
    → ((j : ℕ) → r.pages j ≡ s.pages j)
    → r.pool_size ≡ s.pool_size
    → (s.metadata n).refcount ≡ 0
    → Filled r s' x n
    → Retained s s' x n
Filled-Retained s r s' x n room same absent metadata pages size idle f =
    let other : (j : ℕ) → j ≢ n → s'.metadata j ≡ s.metadata j =
      λ j k. f.metadata j k ∙ metadata j k in
    let missing : view r x ≡ file_page r.file x = (unfold view view_at in rw absent) in
    record {
      pool = Filled-IsPool r s' x n room absent f;
      view_same = λ y. Filled-view r s' x n room absent f y ∙ same y;
      pool_size = f.pool_size ∙ size;
      found = f.found;
      bytes = f.bytes ∙ sym missing ∙ same x;
      count = λ j. elim (Bool-cases (j == n)) [
        | inl e ↦
            let j_n : j ≡ n = ground arith in
            rw e (
              ap (λ i. (s'.metadata i).refcount) j_n
              ∙ f.refcount
              ∙ ap (λ c. c + 1) (sym (ap (λ i. (s.metadata i).refcount) j_n ∙ idle)))
        | inr e ↦ rw e (ap (λ (m : PageMetadata). m.refcount) (other j (ground (arith, e))))
      ];
      kept = λ j k.
          let away : j ≢ n = λ e. omega (arith, k, idle, ap (λ i. (s.metadata i).refcount) e) in
          (f.pages j away ∙ pages j, ap (λ (m : PageMetadata). m.file_index) (other j away));
    }
