-- ===== src/BufferPool/Tests.antt =====
-- A pool of one slot with page 5, which is dirty, and a file of eight pages.
use diskmap_cpp.Common.{
  ℕ, ◌<◌, ◌≡◌, refl, sym, ◌∙◌, subst, ◌⊎◌, inl, inr, true, false, ◌&&◌, none, some, List, [], ◌∷◌,
  ◌==◌, ltb, arith, Bool-cases,
}
use diskmap_cpp.Replacer.{put, empty_lru}
use diskmap_cpp.Replacer.Dual.{Dual, empty_dual}
use diskmap_cpp.Replacer.Segment.{mem, rev}
use diskmap_cpp.Replacer.Queue.{false≢true}
use diskmap_cpp.Replacer.Refines.{empty_lru-IsQueue}
use diskmap_cpp.Replacer.Held.{IsReplacer, held, empty_dual-held}
use diskmap_cpp.BufferPool.{
  DataFile, BufferPool, unused_page, create_pool, retain, release, flush_all,
}
use diskmap_cpp.BufferPool.View.{file_page, view, IsPool}
use diskmap_cpp.BufferPool.Room.{none≢some, some-injective}
use diskmap_cpp.BufferPool.Users.{Released, release-Released}
use diskmap_cpp.BufferPool.Flush.{flush_all-Flushed}
use diskmap_cpp.BufferPool.WriteAhead.{CallsBelow, retain-CallsBelow}
use diskmap_cpp.BufferPool.Cache.{PageUse, use_pages, in_memory, use_pages-flush_all}

abbrev some_file : DataFile
some_file = record { size = 8; page = λ x. x ∷ [] }

abbrev one_slot : ℕ → Dual → BufferPool
one_slot users d = record {
  pool_size = 1;
  has_wal = true;
  next_pool_index = 1;
  pages = λ i. 77 ∷ [];
  metadata =
      put 0
        (record {
          file_index = 5;
          page_lsn = 9;
          refcount = users;
          dirty = true;
          advise_eviction = false;
        })
        (λ i. unused_page);
  replacer = d;
  file_to_pool_index = put 5 (some 0) (λ x. none);
  file = some_file;
  calls = [];
}

-- The replacer has the one slot.
abbrev idle_replacer : Dual
idle_replacer = record {
  important = record {
    head = some 0;
    tail = some 0;
    next = λ i. none;
    prev = λ i. none;
    mapped = put 0 true (λ i. false);
    size = 1;
  };
  unimportant = empty_lru;
}

one_slot-IsPool :
    (users : ℕ) (d : Dual)
    → IsReplacer d
    → ((i : ℕ) → held d i ≡ (ltb i 1 && users == 0))
    → IsPool (one_slot users d)
one_slot-IsPool users d q h = record {
  bounded = omega arith;
  replacer = q;
  mapped = λ x i k. elim (Bool-cases (x == 5)) [
    | inl e ↦
        let first : i ≡ 0 = some-injective (sym k ∙ rw e) in
        (omega (arith, first), rw first (ground (arith, e)))
    | inr e ↦ let gone : none ≡ some i = subst (λ o. o ≡ some i) (rw e) k in absurd (none≢some gone)
  ];
  resident = λ i k. let first : i ≡ 0 = omega (arith, k) in rw first;
  idle = λ i. elim (Bool-cases (i == 0)) [
    | inl e ↦ rw e (h i ∙ ground (arith, e))
    | inr e ↦ rw e (h i ∙ ground (arith, e))
  ];
  clean = λ i k l. absurd (false≢true (sym l ∙ (let first : i ≡ 0 = omega (arith, k) in rw first)));
  unused = λ i k. let e : (i == 0) ≡ false = ground (arith, k) in rw e;
}

idle_replacer-held : (i : ℕ) → held idle_replacer i ≡ (ltb i 1 && 0 == 0)
unfolding held empty_lru
idle_replacer-held i = ground arith

idle_replacer-IsReplacer : IsReplacer idle_replacer
unfolding mem rev
idle_replacer-IsReplacer = (
  (0 ∷ [], []),
  record {
    important = record {
      linked = record {
        forward = (refl, refl);
        back = none;
        backward = (refl, refl);
        distinct = (refl, tt);
      };
      mapped = λ x. ground arith;
      size = refl;
    };
    unimportant = empty_lru-IsQueue;
    apart = λ x. ground arith;
  },
)

idle_slot-IsPool : IsPool (one_slot 0 idle_replacer)
idle_slot-IsPool = one_slot-IsPool 0 idle_replacer idle_replacer-IsReplacer idle_replacer-held

busy_slot-IsPool : IsPool (one_slot 1 empty_dual)
busy_slot-IsPool =
    one_slot-IsPool 1 empty_dual empty_dual-held.0 (λ i. empty_dual-held.1 i ∙ ground arith)

retain-CallsBelow_example :
    CallsBelow (one_slot 0 idle_replacer) 6 (retain 6 true (one_slot 0 idle_replacer))
retain-CallsBelow_example =
    retain-CallsBelow (one_slot 0 idle_replacer) 6 true idle_slot-IsPool refl

release-Released_example :
    ((((one_slot 1 empty_dual).metadata 0).refcount ≡ 0)
      × (release 0 (one_slot 1 empty_dual) ≡ some (false, one_slot 1 empty_dual)))
    ⊎ ((s' : BufferPool) × (0 < ((one_slot 1 empty_dual).metadata 0).refcount)
        × (release 0 (one_slot 1 empty_dual) ≡ some (true, s'))
        × Released (one_slot 1 empty_dual) s' 0)
release-Released_example = release-Released (one_slot 1 empty_dual) 0 busy_slot-IsPool

flush_all-Flushed_example :
    IsPool (flush_all (one_slot 1 empty_dual))
    × ((y : ℕ) → view (flush_all (one_slot 1 empty_dual)) y ≡ view (one_slot 1 empty_dual) y)
    × ((y : ℕ)
        → file_page (flush_all (one_slot 1 empty_dual)).file y ≡ view (one_slot 1 empty_dual) y)
    × ((j : ℕ)
        → ((flush_all (one_slot 1 empty_dual)).metadata j).refcount
          ≡ ((one_slot 1 empty_dual).metadata j).refcount)
flush_all-Flushed_example = flush_all-Flushed (one_slot 1 empty_dual) busy_slot-IsPool

-- Pages 3, 4 and 3 again, in a pool of one slot.
abbrev some_uses : List PageUse
some_uses =
    record { page = 3; advise_eviction = false; lsn = 1; change = λ b. 1 ∷ b }
    ∷ record { page = 4; advise_eviction = true; lsn = 2; change = λ b. 2 ∷ b }
    ∷ record { page = 3; advise_eviction = false; lsn = 3; change = λ b. 3 ∷ b }
    ∷ []

use_pages-flush_all_example :
    (s : BufferPool) × (use_pages some_uses (create_pool some_file 1)
      ≡ some ((in_memory some_uses (file_page some_file)).0, s))
    × (file_page (flush_all s).file ≡ (in_memory some_uses (file_page some_file)).1)
use_pages-flush_all_example = use_pages-flush_all some_file 0 some_uses
