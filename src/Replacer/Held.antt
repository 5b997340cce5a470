-- ===== src/Replacer/Held.antt =====
-- A `DualPriorityReplacer` as its client sees it: a set of values, which `insert` and `remove` change,
-- and of which `evict` takes one as long as there is one.
use diskmap_cpp.Common.{
  ℕ, ◌≡◌, refl, sym, ap, ◌∙◌, subst, inl, inr, Bool, true, false, ◌||◌, Option, none, some, List,
  [], ◌∷◌, arith, ◌==◌, Bool-cases, if◌then◌else◌,
}
use diskmap_cpp.Replacer.Segment.{mem}
use diskmap_cpp.Replacer.Queue.{erase}
use diskmap_cpp.Replacer.Refines.{oldest, newer, mem_erased, oldest_erased}
use diskmap_cpp.Replacer.Dual.{Dual, insert_dual, remove_dual, evict_dual, empty_dual}
use diskmap_cpp.Replacer.Policy.{
  Queues, IsDual, insert_dual-IsDual, remove_dual-IsDual, evict_dual-IsDual, queue_insert,
  queue_remove, queue_evict, empty_dual-IsDual, oldest_nonempty,
}

-- Some two queues describe the replacer.
abbrev pub IsReplacer : Dual → Type 0
IsReplacer d = (qs : Queues) × IsDual d qs

unfoldable pub held : Dual → ℕ → Bool
held d x = d.important.mapped x || d.unimportant.mapped x

held_mem : (d : Dual) (qs : Queues) (x : ℕ) → IsDual d qs → held d x ≡ (mem x qs.0 || mem x qs.1)
unfolding held
held_mem d qs x q = rw ((q.important).mapped x, (q.unimportant).mapped x)

without_both :
    (x v : ℕ) (is us : List ℕ)
    → mem x (erase v is) ≡ (if x == v then false else mem x is)
    → mem x (erase v us) ≡ (if x == v then false else mem x us)
    → (mem x (erase v is) || mem x (erase v us)) ≡ (if x == v then false else mem x is || mem x us)
without_both x v is us h k = ground (arith, h, k)

in_some : Queues → ℕ → Bool
in_some (is, us) x = mem x is || mem x us

in_some_advised :
    (d : Dual) (is us : List ℕ) (v x : ℕ)
    → IsDual d (is, us)
    → in_some (if mem v is then (is, us) else (is, v ∷ erase v us)) x
      ≡ (x == v || in_some (is, us) x)
unfolding in_some mem
in_some_advised d is us v x q = elim (Bool-cases (mem v is)) [
  | inl e ↦ rw e (elim (Bool-cases (x == v)) [
    | inl f ↦
        let same : x ≡ v = ground arith in
        rw f (ap (λ b. b || mem x us) (ap (λ y. mem y is) same ∙ e))
    | inr f ↦ rw f
  ])
  | inr e ↦ rw e (ground (arith, mem_erased d.unimportant us v x q.unimportant))
]

in_some-queue_insert :
    (d : Dual) (qs : Queues) (v x : ℕ) (advise_eviction : Bool)
    → IsDual d qs
    → in_some (queue_insert v advise_eviction qs) x ≡ (x == v || in_some qs x)
unfolding queue_insert
in_some-queue_insert d (is, us) v x true q = in_some_advised d is us v x q
in_some-queue_insert d (is, us) v x false q =
    unfold in_some mem in
    ground (
      arith,
      mem_erased d.unimportant us v x q.unimportant,
      mem_erased d.important is v x q.important,
    )

pub insert_dual-held :
    (d : Dual) (v : ℕ) (advise_eviction : Bool)
    → IsReplacer d
    → (d' : Dual) × (insert_dual v advise_eviction d ≡ some d')
      × IsReplacer d'
      × ((x : ℕ) → held d' x ≡ (x == v || held d x))
unfolding in_some
insert_dual-held d v a (qs, q) =
    let (d', run, q') = insert_dual-IsDual d qs v a q in
    (
      d',
      run,
      (queue_insert v a qs, q'),
      λ x.
          held_mem d' (queue_insert v a qs) x q'
          ∙ in_some-queue_insert d qs v x a q
          ∙ ap (λ b. x == v || b) (sym (held_mem d qs x q)),
    )

-- Of two sets one is the other without `v`.
abbrev pub Without : ℕ → Dual → Dual → Type 0
Without v d d' = (x : ℕ) → held d' x ≡ (if x == v then false else held d x)

pub remove_dual-held :
    (d : Dual) (v : ℕ)
    → IsReplacer d
    → (d' : Dual) × (remove_dual v d ≡ some (held d v, d')) × IsReplacer d' × Without v d d'
unfolding queue_remove
remove_dual-held d v ((is, us), q) =
    let (d', run, q') = remove_dual-IsDual d (is, us) v q in
    let there : (mem v us || mem v is) ≡ held d v = ground (arith, held_mem d (is, us) v q) in
    (
      d',
      run ∙ ap (λ b. some (b, d')) there,
      ((erase v is, erase v us), q'),
      λ x.
          held_mem d' (erase v is, erase v us) x q'
          ∙ without_both x v is us (mem_erased d.important is v x q.important)
              (mem_erased d.unimportant us v x q.unimportant)
          ∙ ap (λ b. if x == v then false else b) (sym (held_mem d (is, us) x q)),
    )

-- What `evict` returns: nothing from the empty set, and otherwise a value, which leaves the set.
pub data Evicted (d : Dual) : Type 0 where
  none_left :
      (d' : Dual)
      → evict_dual d ≡ some (none, d')
      → IsReplacer d'
      → ((x : ℕ) → (held d x ≡ false) × (held d' x ≡ false))
      → Evicted d
  one_left :
      (v : ℕ) (d' : Dual)
      → evict_dual d ≡ some (some v, d')
      → IsReplacer d'
      → held d v ≡ true
      → Without v d d'
      → Evicted d

evict_one :
    (d : Dual) (is us is' us' : List ℕ) (v : ℕ)
    → IsDual d (is, us)
    → queue_evict (is, us) ≡ (some v, (is', us'))
    → (mem v is || mem v us) ≡ true
    → ((x : ℕ) → (mem x is' || mem x us') ≡ (if x == v then false else mem x is || mem x us))
    → Evicted d
evict_one d is us is' us' v q e h k =
    let (d', run, q') = evict_dual-IsDual d (is, us) q in
    let q'' : IsDual d' (is', us') = subst (IsDual d') (ap (λ (r : Option ℕ × Queues). r.1) e) q' in
    one_left v d' (run ∙ ap (λ (r : Option ℕ × Queues). some (r.0, d')) e) ((is', us'), q'')
      (held_mem d (is, us) v q ∙ h)
      (λ x.
        held_mem d' (is', us') x q''
        ∙ k x
        ∙ ap (λ b. if x == v then false else b) (sym (held_mem d (is, us) x q)))

pub evict_dual-held : (d : Dual) → IsReplacer d → Evicted d
unfolding queue_evict
evict_dual-held d (([], []), q) =
    let (d', run, q') = evict_dual-IsDual d ([], []) q in
    none_left d' (run ∙ (unfold oldest in refl)) (_, q')
      (λ x. (
        held_mem d ([], []) x q ∙ (unfold mem in refl),
        held_mem d' (newer [], []) x q' ∙ (unfold mem newer in refl),
      ))
evict_dual-held d ((i ∷ is, []), q) =
    let (a, last) = oldest_nonempty i is in
    let (there, rest) = oldest_erased d.important (i ∷ is) a q.important last in
    evict_one d (i ∷ is) [] (newer (i ∷ is)) [] a q (ap (λ o. (o, (newer (i ∷ is), []))) last)
      (ground (arith, there))
      (λ x.
        let erased : mem x (newer (i ∷ is)) ≡ (if x == a then false else mem x (i ∷ is)) =
          ap (mem x) rest ∙ mem_erased d.important (i ∷ is) a x q.important in
        unfold mem in ground (arith, erased))
evict_dual-held d ((is, u ∷ us), q) =
    let (a, last) = oldest_nonempty u us in
    let (there, rest) = oldest_erased d.unimportant (u ∷ us) a q.unimportant last in
    evict_one d is (u ∷ us) is (newer (u ∷ us)) a q (ap (λ o. (o, (is, newer (u ∷ us)))) last)
      (ground (arith, there))
      (λ x.
        let erased : mem x (newer (u ∷ us)) ≡ (if x == a then false else mem x (u ∷ us)) =
          ap (mem x) rest ∙ mem_erased d.unimportant (u ∷ us) a x q.unimportant in
        elim (Bool-cases (x == a)) [
          | inl e ↦
              let same : x ≡ a = ground arith in
              let away : mem x is ≡ false =
                ap (λ y. mem y is) same ∙ ground (arith, q.apart a, there) in
              ground (arith, erased, away, e)
          | inr e ↦ ground (arith, erased, e)
        ])

pub empty_dual-held : IsReplacer empty_dual × ((x : ℕ) → held empty_dual x ≡ false)
unfolding mem
empty_dual-held =
    ((([], []), empty_dual-IsDual), λ x. held_mem empty_dual ([], []) x empty_dual-IsDual)
