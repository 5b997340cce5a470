-- ===== src/BufferPool/Cache.antt =====
-- The pool is a cache: its clients work on the pages of the file as on one memory.
use diskmap_cpp.Common.{
  ℕ, suc, ◌<◌, ◌≡◌, refl, ap, ap₂, fun_ext, ◌∙◌, inl, inr, Bool, Option, some, List, [], ◌∷◌, ◌==◌,
  arith, if◌then◌else◌, ◌>>=◌,
}
use diskmap_cpp.Replacer.{put}
use diskmap_cpp.Replacer.Held.{empty_dual-held}
use diskmap_cpp.BufferPool.{
  PageData, DataFile, BufferPool, unused_page, create_pool, modify, use_slot, use_page, flush_all,
}
use diskmap_cpp.BufferPool.View.{file_page, view_at, view, IsPool}
use diskmap_cpp.BufferPool.Room.{none≢some}
use diskmap_cpp.BufferPool.Retained.{retained, full}
use diskmap_cpp.BufferPool.Retain.{retain-Retained}
use diskmap_cpp.BufferPool.Users.{release-Released}
use diskmap_cpp.BufferPool.Modify.{modify-Modified}
use diskmap_cpp.BufferPool.Flush.{flush_all-Flushed}

pub create_pool-IsPool : (file : DataFile) (n : ℕ) → IsPool (create_pool file n)
unfolding create_pool unused_page
create_pool-IsPool file n = record {
  bounded = omega arith;
  replacer = empty_dual-held.0;
  mapped = λ x i k. absurd (none≢some k);
  resident = λ i k. absurd (omega (arith, k));
  idle = λ i. empty_dual-held.1 i ∙ ground arith;
  clean = λ i k d. absurd (omega (arith, k));
  unused = λ i k. refl;
}

-- Nobody has a handle.
pub record AtRest (s : BufferPool) : Type 0 where
  pub pool : IsPool s
  pub some_slot : 0 < s.pool_size
  pub no_users : (i : ℕ) → (s.metadata i).refcount ≡ 0

same_choice :
    {A : Type 0} (y : ℕ) {x x' : ℕ} {b b' v v' : A}
    → x ≡ x'
    → b ≡ b'
    → v ≡ v'
    → (if y == x then b else v) ≡ (if y == x' then b' else v')
same_choice y {x' = x'} {b = b} {v = v} h k l =
    ap (λ z. if y == z then b else v) h ∙ ap₂ (λ b v. if y == x' then b else v) k l

pub use_page-AtRest :
    (s : BufferPool) (x : ℕ) (a : Bool) (lsn : ℕ) (change : PageData → PageData)
    → AtRest s
    → (s' : BufferPool) × (use_page x a lsn change s ≡ some (view s x, s'))
      × AtRest s'
      × ((y : ℕ) → view s' y ≡ put x (change (view s x)) (view s) y)
unfolding use_page use_slot
use_page-AtRest s x a lsn change r = elim (retain-Retained s x a r.pool) [
  | full s' run absent f ↦ absurd (omega (arith, f.in_use 0 r.some_slot, r.no_users 0))
  | retained i s1 run q ↦
      let one : (s1.metadata i).refcount ≡ 1 = ground (arith, q.count i, r.no_users i) in
      let w = modify-Modified s1 i lsn (change (s1.pages i)) q.pool (omega (arith, one)) in
      elim (release-Released (modify i lsn (change (s1.pages i)) s1) i w.pool) [
        | inl r ↦ absurd (omega (arith, r.0, w.count i, one))
        | inr (s', busy, stop, f) ↦ (
          s',
          rw (run, stop) (ap (λ b. some (b, s')) q.bytes),
          record {
            pool = f.pool;
            some_slot = omega (arith, r.some_slot, q.pool_size, w.pool_size, f.pool_size);
            no_users =
                λ j. ground (arith, f.count j, w.count i, w.count j, one, q.count j, r.no_users j);
          },
          λ y.
              f.view_same y
              ∙ w.view_new y
              ∙ same_choice y (q.pool.mapped x i q.found).1 (ap change q.bytes) (q.view_same y),
        )
      ]
]

-- One use of a page by a client.
pub record PageUse : Type 0 where
  pub page : ℕ
  pub advise_eviction : Bool
  pub lsn : ℕ
  pub change : PageData → PageData

unfoldable pub use_pages : List PageUse → BufferPool → Option (List PageData × BufferPool)
use_pages [] s = some ([], s)
use_pages (u ∷ us) s =
    use_page u.page u.advise_eviction u.lsn u.change s >>= λ (r : PageData × BufferPool).
    use_pages us r.1 >>= λ (rest : List PageData × BufferPool). some (r.0 ∷ rest.0, rest.1)

-- The same uses of a memory of pages: what is read, and the memory afterwards.
unfoldable pub in_memory : List PageUse → (ℕ → PageData) → List PageData × (ℕ → PageData)
in_memory [] m = ([], m)
in_memory (u ∷ us) m =
    let rest = in_memory us (put u.page (u.change (m u.page)) m) in (m u.page ∷ rest.0, rest.1)

use_pages-AtRest :
    (us : List PageUse) (s : BufferPool)
    → AtRest s
    → (s' : BufferPool) × (use_pages us s ≡ some ((in_memory us (view s)).0, s'))
      × AtRest s'
      × (view s' ≡ (in_memory us (view s)).1)
unfolding use_pages in_memory
use_pages-AtRest [] s r = (s, refl, r, refl)
use_pages-AtRest (u ∷ us) s r =
    let (s1, run, r1, v) = use_page-AtRest s u.page u.advise_eviction u.lsn u.change r in
    let (s2, run', r2, v') = use_pages-AtRest us s1 r1 in
    let m = put u.page (u.change (view s u.page)) (view s) in
    let same : view s1 ≡ m = fun_ext v in
    (
      s2,
      rw (run, run') (ap (λ m. some (view s u.page ∷ (in_memory us m).0, s2)) same),
      r2,
      v' ∙ ap (λ m. (in_memory us m).1) same,
    )

view-create_pool : (file : DataFile) (n : ℕ) → view (create_pool file n) ≡ file_page file
unfolding view view_at create_pool
view-create_pool file n = refl

-- A new pool with at least one slot over any file, and any uses of pages one after the other, each with
-- an optional hint to evict: every use finds a slot, reads the bytes that the same uses of one memory
-- of pages, initially those of the file, read there, and after a final `flush_all` the file has the
-- pages of that memory.
pub use_pages-flush_all :
    (file : DataFile) (n : ℕ) (us : List PageUse)
    → (s : BufferPool) × (use_pages us (create_pool file (suc n))
        ≡ some ((in_memory us (file_page file)).0, s))
      × (file_page (flush_all s).file ≡ (in_memory us (file_page file)).1)
use_pages-flush_all file n us =
    let same = view-create_pool file (suc n) in
    let start : AtRest (create_pool file (suc n)) = record {
      pool = create_pool-IsPool file (suc n);
      some_slot = (unfold create_pool in omega arith);
      no_users = λ i. (unfold create_pool unused_page in refl);
    } in
    let (s, run, r, v) = use_pages-AtRest us (create_pool file (suc n)) start in
    (
      s,
      run ∙ ap (λ m. some ((in_memory us m).0, s)) same,
      fun_ext (flush_all-Flushed s r.pool).2 ∙ v ∙ ap (λ m. (in_memory us m).1) same,
    )
