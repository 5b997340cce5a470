-- ===== src/BufferPool/Users.antt =====
-- `BufferPool::release`, and the writes through a page handle.
use diskmap_cpp.Common.{
  ℕ, ◌-◌, ◌<◌, ◌≡◌, ◌⊎◌, refl, ap, ◌∙◌, inl, inr, true, false, ◌&&◌, ◌||◌, some, ◌==◌, ltb, arith,
  Bool-cases, if◌then◌else◌,
}
use diskmap_cpp.Replacer.{put}
use diskmap_cpp.Replacer.Dual.{Dual}
use diskmap_cpp.Replacer.Held.{IsReplacer, held, insert_dual-held}
use diskmap_cpp.BufferPool.{BufferPool, PageMetadata, unused_page, release}
use diskmap_cpp.BufferPool.View.{view, IsPool, recounted-IsPool, recounted_view}
use diskmap_cpp.BufferPool.Room.{put_other}
use diskmap_cpp.BufferPool.Retained.{put_keeps, put_count}

-- A slot in use has been handed out.
pub busy_inside :
    (s : BufferPool) (i : ℕ) → IsPool s → 0 < (s.metadata i).refcount → i < s.next_pool_index
busy_inside s i p busy = elim (Bool-cases (ltb i s.next_pool_index)) [
  | inl e ↦ ground (arith, e)
  | inr e ↦
      let idle : (s.metadata i).refcount ≡ 0 =
        ap (λ (m : PageMetadata). m.refcount) (p.unused i (ground (arith, e)))
        ∙ (unfold unused_page in refl) in
      absurd (omega (arith, busy, idle))
]

-- One user of the slot less.
pub record Released (s s' : BufferPool) (i : ℕ) : Type 0 where
  pub pool : IsPool s'
  pub pool_size : s'.pool_size ≡ s.pool_size
  pub view_same : (y : ℕ) → view s' y ≡ view s y
  pub count :
      (j : ℕ)
      → (s'.metadata j).refcount
        ≡ (if j == i then (s.metadata i).refcount - 1 else (s.metadata j).refcount)
  pub kept :
      (j : ℕ) → (s'.pages j ≡ s.pages j) × ((s'.metadata j).file_index ≡ (s.metadata j).file_index)

recounted-Released :
    (s : BufferPool) (i : ℕ) (d : Dual)
    → IsPool s
    → IsReplacer d
    → 0 < (s.metadata i).refcount
    → ((j : ℕ) → held d j ≡ ((j == i && (s.metadata i).refcount - 1 == 0) || held s.replacer j))
    → Released s
        (record s {
          metadata =
              put i (record (s.metadata i) { refcount = (s.metadata i).refcount - 1 }) s.metadata;
          replacer = d;
        })
        i
recounted-Released s i d p q busy h =
    let inside = busy_inside s i p busy in
    let v : PageMetadata = record (s.metadata i) { refcount = (s.metadata i).refcount - 1 } in
    let m = put i v s.metadata in
    let index : (j : ℕ) → (m j).file_index ≡ (s.metadata j).file_index =
      λ j. put_keeps (λ (m : PageMetadata). m.file_index) i j v s.metadata refl in
    let count : (j : ℕ)
        → (m j).refcount
          ≡ (if j == i then (s.metadata i).refcount - 1 else (s.metadata j).refcount) =
      λ j. put_count i j ((s.metadata i).refcount - 1) v s.metadata refl in
    record {
      pool =
          recounted-IsPool s m d p q index
            (λ j. put_keeps (λ (m : PageMetadata). m.dirty) i j v s.metadata refl)
            (λ j. elim (Bool-cases (j == i)) [
              | inl e ↦
                  let same : j ≡ i = ground arith in
                  ground (
                    arith,
                    h j,
                    p.idle j,
                    count j,
                    busy,
                    inside,
                    e,
                    ap (λ k. (s.metadata k).refcount) same,
                  )
              | inr e ↦ ground (arith, h j, p.idle j, count j, e)
            ])
            (λ j k. put_other i j v s.metadata (λ e. omega (arith, inside, e, k)));
      pool_size = refl;
      view_same = recounted_view s m d;
      count = count;
      kept = λ j. (refl, index j);
    }

-- In a pool that satisfies the invariant, `release` of a slot without users throws and changes nothing.
-- Otherwise the slot has one user less, all other counts, every page and the place of each are as
-- before, and the invariant holds again: without users the slot is now in the replacer.
pub release-Released :
    (s : BufferPool) (i : ℕ)
    → IsPool s
    → ((s.metadata i).refcount ≡ 0) × (release i s ≡ some (false, s))
      ⊎ (s' : BufferPool) × (0 < (s.metadata i).refcount)
        × (release i s ≡ some (true, s'))
        × Released s s' i
unfolding release
release-Released s i p = elim (Bool-cases ((s.metadata i).refcount == 0)) [
  | inl e ↦ inl (ground (arith, e), rw e)
  | inr e ↦ elim (Bool-cases ((s.metadata i).refcount - 1 == 0)) [
    | inl f ↦
        let (d, run, q, w) =
          insert_dual-held s.replacer i (s.metadata i).advise_eviction p.replacer in
        inr (
          _,
          ground (arith, e),
          rw (e, f, run),
          recounted-Released s i d p q (ground (arith, e)) (λ j. w j ∙ ground (arith, f)),
        )
    | inr f ↦ inr (
      _,
      ground (arith, e),
      rw (e, f),
      recounted-Released s i s.replacer p p.replacer (ground (arith, e)) (λ j. ground (arith, f)),
    )
  ]
]
