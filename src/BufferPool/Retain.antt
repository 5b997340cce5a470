-- ===== src/BufferPool/Retain.antt =====
-- `BufferPool::retain`: what the caller gets, and what the others keep.
use diskmap_cpp.Common.{
  ℕ, ◌+◌, ◌<◌, ◌≡◌, ◌≢◌, refl, sym, ap, ◌∙◌, inl, inr, Bool, true, false, Option, none, some, ltb,
  arith, Bool-cases,
}
use diskmap_cpp.Replacer.Dual.{Dual, evict_dual}
use diskmap_cpp.Replacer.Held.{IsReplacer, held, Without, none_left, one_left, evict_dual-held}
use diskmap_cpp.BufferPool.{
  BufferPool, PageMetadata, unused_page, write_back, evict_slot, retain, retain_locked, find_slot,
  take_slot, retain_new, finish_retain, retain_io,
}
use diskmap_cpp.BufferPool.View.{IsPool, recounted-IsPool, recounted_view}
use diskmap_cpp.BufferPool.Room.{none≢some, fill, fill-Filled}
use diskmap_cpp.BufferPool.Retained.{RetainResult, retained, full, retain_hit, Filled-Retained}
use diskmap_cpp.BufferPool.Evict.{
  next_slot-IsRoom, next_slot_view, Vacated, forget, written-Vacated, clean-Vacated, Vacated-IsRoom,
  Vacated-view,
}

retain_next :
    (s : BufferPool) (x : ℕ) (a : Bool)
    → IsPool s
    → s.file_to_pool_index x ≡ none
    → ltb s.next_pool_index s.pool_size ≡ true
    → RetainResult s x (retain x a s)
unfolding retain retain_locked find_slot finish_retain retain_io write_back take_slot retain_new
retain_next s x a p h k =
    let n = s.next_pool_index in
    let r : BufferPool = record s { next_pool_index = n + 1 } in
    let unused = p.unused n (omega arith) in
    retained n (fill x a n r) (rw (h, k)) (
      Filled-Retained s r (fill x a n r) x n (next_slot-IsRoom s p (ground (arith, k)))
        (next_slot_view s (n + 1)) h (λ j e. refl) (λ j. refl) refl
        (ap (λ (m : PageMetadata). m.refcount) unused ∙ (unfold unused_page in refl))
        (fill-Filled r x n a unused))

retain_into :
    (s r : BufferPool) (x v : ℕ) (a : Bool) (d : Dual)
    → IsPool s
    → s.file_to_pool_index x ≡ none
    → IsReplacer d
    → held s.replacer v ≡ true
    → Without v s.replacer d
    → Vacated s r d v
    → retain x a s ≡ some (some v, fill x a v r)
    → RetainResult s x (retain x a s)
retain_into s r x v a d p h q there w f run =
    let inside : v < s.next_pool_index = ground (arith, p.idle v, there) in
    let idle : (s.metadata v).refcount ≡ 0 = ground (arith, p.idle v, there) in
    let away : x ≢ (s.metadata v).file_index =
      λ e. none≢some (sym h ∙ ap s.file_to_pool_index e ∙ p.resident v inside) in
    retained v (fill x a v r) run (
      Filled-Retained s r (fill x a v r) x v (Vacated-IsRoom s r d v p inside q w f)
        (Vacated-view s r d v p inside f) (f.others x away ∙ h) f.metadata f.pages f.pool_size idle
        (fill-Filled r x v a f.empty))

retain_evict :
    (s : BufferPool) (x : ℕ) (a : Bool)
    → IsPool s
    → s.file_to_pool_index x ≡ none
    → ltb s.next_pool_index s.pool_size ≡ false
    → (v : ℕ) (d : Dual) → evict_dual s.replacer ≡ some (some v, d)
    → IsReplacer d
    → held s.replacer v ≡ true
    → Without v s.replacer d
    → RetainResult s x (retain x a s)
unfolding retain retain_locked find_slot finish_retain retain_io take_slot retain_new evict_slot
    write_back
retain_evict s x a p h k v d run q there w = elim (Bool-cases (s.metadata v).dirty) [
  | inl e ↦
      retain_into s
        (write_back (some ((s.metadata v).file_index, (s.metadata v).page_lsn)) v (forget v d s)) x
        v a d p h q there w (written-Vacated s d v) (rw (h, k, run, e))
  | inr e ↦
      let inside : v < s.next_pool_index = ground (arith, p.idle v, there) in
      retain_into s (write_back none v (forget v d s)) x v a d p h q there w
        (clean-Vacated s d v (p.clean v inside e)) (rw (h, k, run, e))
]

retain_full :
    (s : BufferPool) (x : ℕ) (a : Bool)
    → IsPool s
    → s.file_to_pool_index x ≡ none
    → ltb s.next_pool_index s.pool_size ≡ false
    → (d : Dual) → evict_dual s.replacer ≡ some (none, d)
    → IsReplacer d
    → ((i : ℕ) → (held s.replacer i ≡ false) × (held d i ≡ false))
    → RetainResult s x (retain x a s)
unfolding retain retain_locked find_slot finish_retain take_slot retain_new evict_slot
retain_full s x a p h k d run q nobody =
    full (record s { replacer = d }) (rw (h, k, run)) h
      (record {
        pool =
            recounted-IsPool s s.metadata d p q (λ i. refl) (λ i. refl)
              (λ i. (nobody i).1 ∙ sym (nobody i).0 ∙ p.idle i) (λ i l. refl);
        view_same = recounted_view s s.metadata d;
        in_use = λ j l. ground (arith, p.idle j, (nobody j).0, p.bounded, k, l);
      })

retain_absent :
    (s : BufferPool) (x : ℕ) (a : Bool)
    → IsPool s
    → s.file_to_pool_index x ≡ none
    → RetainResult s x (retain x a s)
retain_absent s x a p h = elim (Bool-cases (ltb s.next_pool_index s.pool_size)) [
  | inl k ↦ retain_next s x a p h k
  | inr k ↦ elim (evict_dual-held s.replacer p.replacer) [
    | none_left d run q nobody ↦ retain_full s x a p h k d run q nobody
    | one_left v d run q there w ↦ retain_evict s x a p h k v d run q there w
  ]
]

retain_found :
    (s : BufferPool) (x : ℕ) (a : Bool) (o : Option ℕ)
    → IsPool s
    → s.file_to_pool_index x ≡ o
    → RetainResult s x (retain x a s)
retain_found s x a none p h = retain_absent s x a p h
retain_found s x a (some i) p h = retain_hit s x i a p h

pub retain-Retained :
    (s : BufferPool) (x : ℕ) (a : Bool) → IsPool s → RetainResult s x (retain x a s)
retain-Retained s x a p = retain_found s x a (s.file_to_pool_index x) p refl
