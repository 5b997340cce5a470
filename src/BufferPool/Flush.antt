-- ===== src/BufferPool/Flush.antt =====
-- `BufferPool::flush_all`: afterwards the file is what the clients see.
use diskmap_cpp.Common.{
  ℕ, zero, suc, ◌<◌, ◌≡◌, refl, sym, ap, ◌∙◌, inl, inr, true, false, ◌&&◌, List, ◌∷◌, Option, none,
  some, ◌==◌, ==-self, ltb, arith, Bool-cases,
}
use diskmap_cpp.Replacer.{put}
use diskmap_cpp.BufferPool.{
  BufferPool, PageMetadata, Call, sync, write, unused_page, pwrite_page, flush_page, flush_pages,
  flush_all,
}
use diskmap_cpp.BufferPool.View.{file_page, view_at, view, IsPool}
use diskmap_cpp.BufferPool.Room.{put_other, none≢some, file_page-pwrite_page}
use diskmap_cpp.BufferPool.Modify.{slot_differs}
use diskmap_cpp.BufferPool.Retained.{put_keeps}
use diskmap_cpp.Replacer.Queue.{false≢true}

-- The first `n` slots are in the file.
pub record Flushed (s s' : BufferPool) (n : ℕ) : Type 0 where
  pub pool : IsPool s'
  pub view_same : (y : ℕ) → view s' y ≡ view s y
  pub clean : (j : ℕ) → j < n → (s'.metadata j).dirty ≡ false
  pub count : (j : ℕ) → (s'.metadata j).refcount ≡ (s.metadata j).refcount
  pub pool_size : s'.pool_size ≡ s.pool_size

-- A page is only dirty in a slot that has been handed out.
dirty_inside :
    (s : BufferPool) (i : ℕ) → IsPool s → (s.metadata i).dirty ≡ true → i < s.next_pool_index
dirty_inside s i p dirty = elim (Bool-cases (ltb i s.next_pool_index)) [
  | inl e ↦ ground (arith, e)
  | inr e ↦
      let clean : (s.metadata i).dirty ≡ false =
        ap (λ (m : PageMetadata). m.dirty) (p.unused i (ground (arith, e)))
        ∙ (unfold unused_page in refl) in
      absurd (false≢true (sym clean ∙ dirty))
]

-- What `flush_page` does to a dirty slot.
abbrev save : ℕ → BufferPool → BufferPool
save i s = record s {
  file = pwrite_page (s.metadata i).file_index (s.pages i) s.file;
  calls = write (s.metadata i).file_index ∷ s.calls;
  metadata = put i (record (s.metadata i) { dirty = false }) s.metadata;
}

-- The file has the page of slot `i`, and of the others what it had.
saved_page :
    (s : BufferPool) (i : ℕ) → file_page (save i s).file (s.metadata i).file_index ≡ s.pages i
saved_page s i =
    file_page-pwrite_page s.file (s.metadata i).file_index (s.metadata i).file_index (s.pages i)
    ∙ rw (==-self (s.metadata i).file_index)

saved_other :
    (s : BufferPool) (i y : ℕ)
    → (y == (s.metadata i).file_index) ≡ false
    → file_page (save i s).file y ≡ file_page s.file y
saved_other s i y e = file_page-pwrite_page s.file (s.metadata i).file_index y (s.pages i) ∙ rw e

saved_view :
    (s : BufferPool) (i : ℕ)
    → IsPool s
    → i < s.next_pool_index
    → (y : ℕ) (o : Option ℕ) → s.file_to_pool_index y ≡ o
    → view_at o (save i s) y ≡ view_at o s y
unfolding view_at
saved_view s i p inside y none h = elim (Bool-cases (y == (s.metadata i).file_index)) [
  | inl e ↦
      let same : y ≡ (s.metadata i).file_index = ground arith in
      absurd (none≢some (sym h ∙ ap s.file_to_pool_index same ∙ p.resident i inside))
  | inr e ↦ saved_other s i y e
]
saved_view s i p inside y (some j) h = refl

-- One slot is in the file.
record Saved (s s' : BufferPool) (i : ℕ) : Type 0 where
  pub pool : IsPool s'
  pub view_same : (y : ℕ) → view s' y ≡ view s y
  pub clean : (s'.metadata i).dirty ≡ false
  pub others : (j : ℕ) → (s.metadata j).dirty ≡ false → (s'.metadata j).dirty ≡ false
  pub count : (j : ℕ) → (s'.metadata j).refcount ≡ (s.metadata j).refcount
  pub pool_size : s'.pool_size ≡ s.pool_size

save-Saved : (s : BufferPool) (i : ℕ) → IsPool s → i < s.next_pool_index → Saved s (save i s) i
unfolding view
save-Saved s i p inside =
    let v : PageMetadata = record (s.metadata i) { dirty = false } in
    let m = put i v s.metadata in
    let index : (j : ℕ) → (m j).file_index ≡ (s.metadata j).file_index =
      λ j. put_keeps (λ (m : PageMetadata). m.file_index) i j v s.metadata refl in
    let count : (j : ℕ) → (m j).refcount ≡ (s.metadata j).refcount =
      λ j. put_keeps (λ (m : PageMetadata). m.refcount) i j v s.metadata refl in
    record {
      pool = record {
        bounded = p.bounded;
        replacer = p.replacer;
        mapped = λ y j k. let (l, e) = p.mapped y j k in (l, index j ∙ e);
        resident = λ j k. ap s.file_to_pool_index (index j) ∙ p.resident j k;
        idle = λ j. p.idle j ∙ ap (λ c. ltb j s.next_pool_index && c == 0) (sym (count j));
        clean = λ j k l. elim (Bool-cases (j == i)) [
          | inl e ↦
              let same : j ≡ i = ground arith in
              ap s.pages same
              ∙ sym (saved_page s i)
              ∙ ap (file_page (save i s).file)
                  (sym (index j ∙ ap (λ k. (s.metadata k).file_index) same))
          | inr e ↦
              let same : m j ≡ s.metadata j = rw e in
              p.clean j k (sym (ap (λ (m : PageMetadata). m.dirty) same) ∙ l)
              ∙ sym (
                  saved_other s i (s.metadata j).file_index
                    (slot_differs s i j (s.metadata j).file_index p inside (p.resident j k) e))
              ∙ ap (file_page (save i s).file) (sym (index j))
        ];
        unused =
            λ j k. put_other i j v s.metadata (λ e. omega (arith, inside, e, k)) ∙ p.unused j k;
      };
      view_same = λ y. saved_view s i p inside y (s.file_to_pool_index y) refl;
      clean = rw (==-self i);
      others = λ j h. elim (Bool-cases (j == i)) [ inl e ↦ rw e | inr e ↦ rw e h ];
      count = count;
      pool_size = refl;
    }

flush_page-Saved : (s : BufferPool) (i : ℕ) → IsPool s → Saved s (flush_page i s) i
unfolding flush_page
flush_page-Saved s i p = elim (Bool-cases (s.metadata i).dirty) [
  | inl e ↦ rw e (save-Saved s i p (dirty_inside s i p e))
  | inr e ↦ rw e (record {
    pool = p;
    view_same = λ y. refl;
    clean = e;
    others = λ j h. h;
    count = λ j. refl;
    pool_size = refl;
  })
]

flush_pages-Flushed : (s : BufferPool) (n : ℕ) → IsPool s → Flushed s (flush_pages n s) n
unfolding flush_pages
flush_pages-Flushed s zero p = record {
  pool = p;
  view_same = λ y. refl;
  clean = λ j h. absurd (omega (arith, h));
  count = λ j. refl;
  pool_size = refl;
}
flush_pages-Flushed s (suc n) p =
    let f = flush_pages-Flushed s n p in
    let g = flush_page-Saved (flush_pages n s) n f.pool in
    record {
      pool = g.pool;
      view_same = λ y. g.view_same y ∙ f.view_same y;
      clean = λ j h. elim (Bool-cases (ltb j n)) [
        | inl e ↦ g.others j (f.clean j (ground (arith, e)))
        | inr e ↦
            let last : j ≡ n = ground (arith, e, h) in
            ap (λ k. ((flush_page n (flush_pages n s)).metadata k).dirty) last ∙ g.clean
      ];
      count = λ j. g.count j ∙ f.count j;
      pool_size = g.pool_size ∙ f.pool_size;
    }

clean_file :
    (s : BufferPool) (y : ℕ) (o : Option ℕ)
    → IsPool s
    → ((j : ℕ) → j < s.pool_size → (s.metadata j).dirty ≡ false)
    → s.file_to_pool_index y ≡ o
    → file_page s.file y ≡ view_at o s y
unfolding view_at
clean_file s y none p clean h = refl
clean_file s y (some j) p clean h =
    let (inside, same) = p.mapped y j h in
    ap (file_page s.file) (sym same)
    ∙ sym (p.clean j inside (clean j (omega (arith, inside, p.bounded))))

-- The calls are of no account for the invariant.
called-IsPool : (s : BufferPool) (c : List Call) → IsPool s → IsPool (record s { calls = c })
called-IsPool s c p = record {
  bounded = p.bounded;
  replacer = p.replacer;
  mapped = p.mapped;
  resident = p.resident;
  idle = p.idle;
  clean = p.clean;
  unused = p.unused;
}

called_view_at :
    (s : BufferPool) (c : List Call) (y : ℕ) (o : Option ℕ)
    → view_at o (record s { calls = c }) y ≡ view_at o s y
unfolding view_at
called_view_at s c y none = refl
called_view_at s c y (some i) = refl

-- In a pool that satisfies the invariant, `flush_all` leaves every page, in the pool or in the file, and
-- the counts of users as they were, the invariant holds afterwards, and the file alone has every page
-- with the bytes that the clients see.
pub flush_all-Flushed :
    (s : BufferPool)
    → IsPool s
    → IsPool (flush_all s)
      × ((y : ℕ) → view (flush_all s) y ≡ view s y)
      × ((y : ℕ) → file_page (flush_all s).file y ≡ view s y)
      × ((j : ℕ) → ((flush_all s).metadata j).refcount ≡ (s.metadata j).refcount)
unfolding flush_all view
flush_all-Flushed s p =
    let f = flush_pages-Flushed s s.pool_size p in
    let s' = flush_pages s.pool_size s in
    let written : (y : ℕ) → file_page s'.file y ≡ view s' y = λ y.
      clean_file s' y (s'.file_to_pool_index y) f.pool
        (λ j h. f.clean j (omega (arith, h, f.pool_size))) refl in
    (
      called-IsPool s' (sync ∷ s'.calls) f.pool,
      λ y. called_view_at s' (sync ∷ s'.calls) y (s'.file_to_pool_index y) ∙ f.view_same y,
      λ y. written y ∙ f.view_same y,
      f.count,
    )
