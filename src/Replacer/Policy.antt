-- ===== src/Replacer/Policy.antt =====
-- What a `DualPriorityReplacer` promises: two queues without a common value, and `evict` takes the
-- least recent of the unimportant values, or, without one, of the important ones.
use diskmap_cpp.Common.{
  ℕ, ◌≡◌, refl, sym, ap, ◌∙◌, subst, Bool, true, false, ◌&&◌, ◌||◌, Option, none, some, List, [],
  ◌∷◌, arith, ◌==◌, Bool-cases, inl, inr, if◌then◌else◌, ◌>>=◌,
}
use diskmap_cpp.Replacer.Segment.{mem}
use diskmap_cpp.Replacer.Queue.{erase, erase_fresh, false≢true}
use diskmap_cpp.Replacer.Refines.{
  IsQueue, insert-IsQueue, remove-IsQueue, evict-IsQueue, empty_lru-IsQueue, oldest, newer,
  mem_erased,
}
use diskmap_cpp.Replacer.Dual.{Dual, insert_dual, remove_dual, evict_dual, empty_dual}

pub data Op : Type 0 where
  inserting : ℕ → Bool → Op
  removing : ℕ → Op
  evicting : Op

pub data Answer : Type 0 where
  done : Answer
  found : Bool → Answer
  victim : Option ℕ → Answer

-- The important values, and the unimportant ones.
abbrev pub Queues : Type 0
Queues = List ℕ × List ℕ

unfoldable pub queue_insert : ℕ → Bool → Queues → Queues
queue_insert v true (is, us) = if mem v is then (is, us) else (is, v ∷ erase v us)
queue_insert v false (is, us) = (v ∷ erase v is, erase v us)

unfoldable pub queue_remove : ℕ → Queues → Queues
queue_remove v (is, us) = (erase v is, erase v us)

unfoldable pub queue_evict : Queues → Option ℕ × Queues
queue_evict (is, []) = (oldest is, (newer is, []))
queue_evict (is, u ∷ us) = (oldest (u ∷ us), (is, newer (u ∷ us)))

unfoldable pub expected : Op → Queues → Answer × Queues
expected (inserting v advise_eviction) qs = (done, queue_insert v advise_eviction qs)
expected (removing v) qs = (found (mem v qs.1 || mem v qs.0), queue_remove v qs)
expected evicting qs = (victim (queue_evict qs).0, (queue_evict qs).1)

unfoldable pub perform : Op → Dual → Option (Answer × Dual)
perform (inserting v advise_eviction) d = insert_dual v advise_eviction d >>= λ d'. some (done, d')
perform (removing v) d = remove_dual v d >>= λ (r : Bool × Dual). some (found r.0, r.1)
perform evicting d = evict_dual d >>= λ (r : Option ℕ × Dual). some (victim r.0, r.1)

pub record IsDual (d : Dual) (qs : Queues) : Type 0 where
  pub important : IsQueue (d.important) qs.0
  pub unimportant : IsQueue (d.unimportant) qs.1
  pub apart : (x : ℕ) → (mem x qs.0 && mem x qs.1) ≡ false

-- Whether a value is in a queue, as booleans about one value.
apart_advised :
    (x v : ℕ) (is us es : List ℕ)
    → mem v is ≡ false
    → (mem x is && mem x us) ≡ false
    → mem x es ≡ (if x == v then false else mem x us)
    → (mem x is && mem x (v ∷ es)) ≡ false
unfolding mem
apart_advised x v is us es absent apart erased = elim (Bool-cases (x == v)) [
  | inl e ↦
      let same : x ≡ v = ground arith in
      let h : mem x is ≡ false = ap (λ y. mem y is) same ∙ absent in ground (arith, h)
  | inr e ↦ ground (arith, e, erased, apart)
]

insert_advised :
    (d : Dual) (is us : List ℕ) (v : ℕ)
    → IsDual d (is, us)
    → (d' : Dual) × (insert_dual v true d ≡ some d') × IsDual d' (queue_insert v true (is, us))
unfolding queue_insert insert_dual
insert_advised d is us v q = elim (Bool-cases (mem v is)) [
  | inl e ↦ (d, rw ((q.important).mapped v, e), rw e q)
  | inr e ↦
      let (u, run, unimportant) = insert-IsQueue d.unimportant us v q.unimportant in
      (
        record d { unimportant = u },
        rw ((q.important).mapped v, e, run),
        rw e (record {
          important = q.important;
          unimportant = unimportant;
          apart = λ x.
              apart_advised x v is us (erase v us) e (q.apart x)
                (mem_erased d.unimportant us v x q.unimportant);
        }),
      )
]

insert_kept :
    (d : Dual) (is us : List ℕ) (v : ℕ)
    → IsDual d (is, us)
    → (d' : Dual) × (insert_dual v false d ≡ some d') × IsDual d' (queue_insert v false (is, us))
unfolding queue_insert insert_dual
insert_kept d is us v q =
    let (i, run, important) = insert-IsQueue d.important is v q.important in
    let (u, run', unimportant) = remove-IsQueue d.unimportant us v q.unimportant in
    (
      record { important = i; unimportant = u },
      rw (run, run'),
      record {
        important = important;
        unimportant = unimportant;
        apart = λ x.
            unfold mem in
            ground (
              arith,
              q.apart x,
              mem_erased d.unimportant us v x q.unimportant,
              mem_erased d.important is v x q.important,
            );
      },
    )

remove_refined :
    (d : Dual) (is us : List ℕ) (v : ℕ)
    → IsDual d (is, us)
    → (d' : Dual) × (remove_dual v d ≡ some (mem v us || mem v is, d'))
      × IsDual d' (queue_remove v (is, us))
unfolding queue_remove remove_dual
remove_refined d is us v q =
    let (u, run, unimportant) = remove-IsQueue d.unimportant us v q.unimportant in
    let (i, run', important) = remove-IsQueue d.important is v q.important in
    let apart : (x : ℕ) → (mem x (erase v is) && mem x (erase v us)) ≡ false = λ x. ground (
      arith,
      q.apart x,
      mem_erased d.unimportant us v x q.unimportant,
      mem_erased d.important is v x q.important,
    ) in
    elim (Bool-cases (mem v us)) [
      | inl e ↦
          let other : mem v is ≡ false = ground (arith, e, q.apart v) in
          let kept : erase v is ≡ is = erase_fresh v is other in
          (
            record d { unimportant = u },
            rw (run, e),
            record {
              important = subst (IsQueue d.important) (sym kept) q.important;
              unimportant = unimportant;
              apart = apart;
            },
          )
      | inr e ↦ (
        record { important = i; unimportant = u },
        rw (run, e, run'),
        record { important = important; unimportant = unimportant; apart = apart },
      )
    ]

mem_newer : (x : ℕ) (xs : List ℕ) → mem x (newer xs) ≡ true → mem x xs ≡ true
unfolding mem newer
mem_newer x [] h = h
mem_newer x (y ∷ []) h = absurd (false≢true h)
mem_newer x (y ∷ z ∷ xs) h = ground (arith, h, mem_newer x (z ∷ xs))

apart_newer :
    (x : ℕ) (xs ys : List ℕ)
    → (mem x xs && mem x ys) ≡ false
    → ((mem x (newer xs) && mem x ys) ≡ false) × ((mem x xs && mem x (newer ys)) ≡ false)
apart_newer x xs ys h = ground (arith, h, mem_newer x xs, mem_newer x ys)

pub oldest_nonempty : (x : ℕ) (xs : List ℕ) → (a : ℕ) × (oldest (x ∷ xs) ≡ some a)
unfolding oldest
oldest_nonempty x [] = (x, refl)
oldest_nonempty x (y ∷ xs) = oldest_nonempty y xs

evict_refined :
    (d : Dual) (is us : List ℕ)
    → IsDual d (is, us)
    → (d' : Dual) × (evict_dual d ≡ some ((queue_evict (is, us)).0, d'))
      × IsDual d' (queue_evict (is, us)).1
unfolding queue_evict evict_dual
evict_refined d is [] q =
    let (u, run, unimportant) = evict-IsQueue d.unimportant [] q.unimportant in
    let (i, run', important) = evict-IsQueue d.important is q.important in
    let nobody : oldest [] ≡ none = (unfold oldest in refl) in
    (
      record { important = i; unimportant = u },
      rw (run, nobody, run'),
      record {
        important = important;
        unimportant = (unfold newer in unimportant);
        apart = λ x. (apart_newer x is [] (q.apart x)).0;
      },
    )
evict_refined d is (x ∷ us) q =
    let (u, run, unimportant) = evict-IsQueue d.unimportant (x ∷ us) q.unimportant in
    let (a, last) = oldest_nonempty x us in
    (
      record d { unimportant = u },
      rw (run, last),
      record {
        important = q.important;
        unimportant = unimportant;
        apart = λ y. (apart_newer y is (x ∷ us) (q.apart y)).1;
      },
    )

pub insert_dual-IsDual :
    (d : Dual) (qs : Queues) (v : ℕ) (advise_eviction : Bool)
    → IsDual d qs
    → (d' : Dual) × (insert_dual v advise_eviction d ≡ some d')
      × IsDual d' (queue_insert v advise_eviction qs)
insert_dual-IsDual d (is, us) v true q = insert_advised d is us v q
insert_dual-IsDual d (is, us) v false q = insert_kept d is us v q

pub remove_dual-IsDual :
    (d : Dual) (qs : Queues) (v : ℕ)
    → IsDual d qs
    → (d' : Dual) × (remove_dual v d ≡ some (mem v qs.1 || mem v qs.0, d'))
      × IsDual d' (queue_remove v qs)
remove_dual-IsDual d (is, us) v q = remove_refined d is us v q

pub evict_dual-IsDual :
    (d : Dual) (qs : Queues)
    → IsDual d qs
    → (d' : Dual) × (evict_dual d ≡ some ((queue_evict qs).0, d')) × IsDual d' (queue_evict qs).1
evict_dual-IsDual d (is, us) q = evict_refined d is us q

-- Each operation does on the two lists of nodes what `expected` says of the two queues.
perform-IsDual :
    (o : Op) (d : Dual) (qs : Queues)
    → IsDual d qs
    → (d' : Dual) × (perform o d ≡ some ((expected o qs).0, d')) × IsDual d' (expected o qs).1
unfolding perform expected
perform-IsDual (inserting v advise_eviction) d qs q =
    let (d', run, q') = insert_dual-IsDual d qs v advise_eviction q in (d', rw run, q')
perform-IsDual (removing v) d qs q =
    let (d', run, q') = remove_dual-IsDual d qs v q in (d', rw run, q')
perform-IsDual evicting d qs q = let (d', run, q') = evict_dual-IsDual d qs q in (d', rw run, q')

pub empty_dual-IsDual : IsDual empty_dual ([], [])
unfolding empty_dual
empty_dual-IsDual = record {
  important = empty_lru-IsQueue;
  unimportant = empty_lru-IsQueue;
  apart = λ x. (unfold mem in refl);
}

unfoldable pub perform_all : List Op → Dual → Option (List Answer × Dual)
perform_all [] d = some ([], d)
perform_all (o ∷ os) d = perform o d >>= λ (r : Answer × Dual).
    perform_all os r.1 >>= λ (rest : List Answer × Dual). some (r.0 ∷ rest.0, rest.1)

unfoldable pub expected_all : List Op → Queues → List Answer
expected_all [] qs = []
expected_all (o ∷ os) qs = (expected o qs).0 ∷ expected_all os (expected o qs).1

perform_all-IsDual :
    (os : List Op) (d : Dual) (qs : Queues)
    → IsDual d qs
    → (d' : Dual) × (perform_all os d ≡ some (expected_all os qs, d'))
unfolding perform_all expected_all
perform_all-IsDual [] d qs q = (d, refl)
perform_all-IsDual (o ∷ os) d qs q =
    let (d1, run, q1) = perform-IsDual o d qs q in
    let (d2, run') = perform_all-IsDual os d1 (expected o qs).1 q1 in (d2, rw (run, run'))

-- A `DualPriorityReplacer` from its constructor on, under any sequence of `insert`, `remove` and
-- `evict`: no null pointer is followed, and the answers are those of two queues. An advised value goes
-- first into the unimportant queue unless the other one has it; another value goes first into the
-- important queue and leaves the unimportant one; a removal says whether a queue had the value; the
-- victim is the last of the unimportant queue or, where that is empty, of the important one.
pub perform_all-refines :
    (os : List Op) → (d : Dual) × (perform_all os empty_dual ≡ some (expected_all os ([], []), d))
perform_all-refines os = perform_all-IsDual os empty_dual ([], []) empty_dual-IsDual
