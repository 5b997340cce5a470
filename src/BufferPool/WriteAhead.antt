-- ===== src/BufferPool/WriteAhead.antt =====
-- The calls that `retain` makes below the pool, and their order.
use diskmap_cpp.Common.{
  ℕ, ◌≡◌, refl, inl, inr, Bool, true, false, Option, none, some, List, [], ◌∷◌, ◌++◌, ltb, arith,
  Bool-cases,
}
use diskmap_cpp.Replacer.Dual.{Dual, evict_dual}
use diskmap_cpp.Replacer.Held.{held, none_left, one_left, evict_dual-held, remove_dual-held}
use diskmap_cpp.BufferPool.{
  BufferPool, Call, flush_log, write, read, retain, retain_locked, find_slot, take_slot, retain_new,
  finish_retain, retain_io, evict_slot, write_back, read_page, pin, assign_slot,
}
use diskmap_cpp.BufferPool.View.{IsPool}

-- What is called, the last call first: nothing, a read, or the write of the page that was in the slot
-- and then a read. Before that write the log is flushed up to the last change of the page.
pub data Below (s : BufferPool) (x : ℕ) : List Call → Type 0 where
  nothing : Below s x []
  loads : Below s x (read x ∷ [])
  saves :
      (i : ℕ)
      → (s.metadata i).dirty ≡ true
      → (s.metadata i).refcount ≡ 0
      → Below s x
          (read x ∷ write (s.metadata i).file_index ∷ flush_log (s.metadata i).page_lsn ∷ [])

abbrev pub calls_of : Option (Option ℕ × BufferPool) → Option (List Call)
calls_of none = none
calls_of (some (o, s)) = some s.calls

abbrev pub CallsBelow : BufferPool → ℕ → Option (Option ℕ × BufferPool) → Type 0
CallsBelow s x r = (cs : List Call) × (calls_of r ≡ some (cs ++ s.calls)) × Below s x cs

calls_evict :
    (s : BufferPool) (x : ℕ) (a : Bool)
    → IsPool s
    → s.has_wal ≡ true
    → s.file_to_pool_index x ≡ none
    → ltb s.next_pool_index s.pool_size ≡ false
    → (v : ℕ) (d : Dual) → evict_dual s.replacer ≡ some (some v, d)
    → held s.replacer v ≡ true
    → CallsBelow s x (retain x a s)
unfolding retain retain_locked find_slot finish_retain retain_io take_slot retain_new evict_slot
    write_back read_page pin assign_slot
calls_evict s x a p l h k v d run there = elim (Bool-cases (s.metadata v).dirty) [
  | inl e ↦ (
    read x ∷ write (s.metadata v).file_index ∷ flush_log (s.metadata v).page_lsn ∷ [],
    rw (h, k, run, e, l),
    saves v e (ground (arith, p.idle v, there)),
  )
  | inr e ↦ (read x ∷ [], rw (h, k, run, e), loads)
]

calls_found :
    (s : BufferPool) (x : ℕ) (a : Bool) (o : Option ℕ)
    → IsPool s
    → s.has_wal ≡ true
    → s.file_to_pool_index x ≡ o
    → CallsBelow s x (retain x a s)
unfolding retain retain_locked find_slot finish_retain retain_io take_slot retain_new evict_slot
    write_back read_page pin assign_slot
calls_found s x a (some i) p l h =
    let (d, run, q, w) = remove_dual-held s.replacer i p.replacer in ([], rw (h, run), nothing)
calls_found s x a none p l h = elim (Bool-cases (ltb s.next_pool_index s.pool_size)) [
  | inl k ↦ (read x ∷ [], rw (h, k), loads)
  | inr k ↦ elim (evict_dual-held s.replacer p.replacer) [
    | none_left d run q nobody ↦ ([], rw (h, k, run), nothing)
    | one_left v d run q there w ↦ calls_evict s x a p l h k v d run there
  ]
]

-- In a pool that satisfies the invariant and has its log, `retain` calls nothing, or reads the page, or
-- flushes the log, then writes the evicted page, then reads the page. In the last case the evicted page
-- was dirty and in a slot without users, and the log is flushed up to the last change of that page.
pub retain-CallsBelow :
    (s : BufferPool) (x : ℕ) (a : Bool)
    → IsPool s
    → s.has_wal ≡ true
    → CallsBelow s x (retain x a s)
retain-CallsBelow s x a p l = calls_found s x a (s.file_to_pool_index x) p l refl
