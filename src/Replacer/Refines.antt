-- ===== src/Replacer/Refines.antt =====
-- An `LRUReplacer` is a queue of different values, the most recently used first.
use diskmap_cpp.Common.{
  ℕ, suc, ◌+◌, ◌-◌, ◌≡◌, ◌≢◌, refl, sym, ap, ◌∙◌, subst, inl, inr, Bool, true, false, Option, none,
  some, List, [], ◌∷◌, ◌++◌, arith, ◌==◌, ==-self, Bool-cases, if◌then◌else◌, append-nil, ◌>>=◌,
  length, length-append,
}
use diskmap_cpp.Replacer.{
  Lru, put, insert_new, insert, remove, evict, evict_tail, evict_from, empty_lru,
}
use diskmap_cpp.Replacer.Segment.{mem, rev, NoRepeat, mem-append, mem_front, Seg-put, mem-rev}
use diskmap_cpp.Replacer.Linked.{Linked, to_front-Linked}
use diskmap_cpp.Replacer.Queue.{
  erase, Ends, ends, nothing, ending, mem_split, erase_middle, erase_fresh, take_out-Linked,
  move_to_front-Linked, mem_without, tail_is,
}

pub record IsQueue (s : Lru) (xs : List ℕ) : Type 0 where
  pub linked : Linked s xs
  pub mapped : (x : ℕ) → s.mapped x ≡ mem x xs
  pub size : s.size ≡ length xs

mapped_more :
    (m : ℕ → Bool) (xs : List ℕ) (v x : ℕ) → m x ≡ mem x xs → put v true m x ≡ mem x (v ∷ xs)
unfolding mem
mapped_more m xs v x h = ground (arith, h)

-- The first node of an empty list, and the new first node of another.
insert_new-IsQueue :
    (s : Lru) (xs : List ℕ) (v : ℕ)
    → IsQueue s xs
    → mem v xs ≡ false
    → (s' : Lru) × (insert_new v s ≡ some s') × IsQueue s' (v ∷ xs)
unfolding insert_new mem
insert_new-IsQueue s [] v q fresh = (
  record {
    head = some v;
    tail = some v;
    next = put v none s.next;
    prev = put v none s.prev;
    mapped = put v true s.mapped;
    size = s.size + 1;
  },
  rw (q.linked.forward),
  record {
    linked = record {
      forward = (refl, rw (==-self v));
      back = put v none s.prev v;
      backward = (unfold rev in (refl, refl));
      distinct = (refl, tt);
    };
    mapped = λ x. mapped_more s.mapped [] v x (q.mapped x);
    size = omega (arith, q.size);
  },
)
insert_new-IsQueue s (h ∷ ws) v q fresh =
    let s1 : Lru = record s {
      next = put v none s.next;
      prev = put v none s.prev;
      mapped = put v true s.mapped;
    } in
    let l = q.linked in
    let l1 : Linked s1 (h ∷ ws) = record {
      forward = Seg-put s.next v none (h ∷ ws) s.head none fresh l.forward;
      back = l.back;
      backward =
          Seg-put s.prev v none (rev (h ∷ ws)) s.tail l.back (mem-rev v (h ∷ ws) ∙ fresh)
            l.backward;
      distinct = l.distinct;
    } in
    let (s2, run, linked, same) = to_front-Linked s1 v h ws l1 fresh in
    (
      record s2 { size = s2.size + 1 },
      rw (l.forward.0, run),
      record {
        linked = record {
          forward = linked.forward;
          back = linked.back;
          backward = linked.backward;
          distinct = linked.distinct;
        };
        mapped =
            λ x. ap (λ (f : ℕ → Bool). f x) same.0 ∙ mapped_more s.mapped (h ∷ ws) v x (q.mapped x);
        size = omega (arith, q.size, same.1);
      },
    )

mem_middle : (us ws : List ℕ) (v x : ℕ) → mem x (us ++ v ∷ ws) ≡ mem x (v ∷ us ++ ws)
unfolding mem
mem_middle us ws v x = ground (arith, mem-append x us (v ∷ ws), mem-append x us ws)

length_middle : (us ws : List ℕ) (v : ℕ) → length (us ++ v ∷ ws) ≡ suc (length (us ++ ws))
length_middle us ws v = omega (arith, length-append us (v ∷ ws), length-append us ws)

pub insert-IsQueue :
    (s : Lru) (xs : List ℕ) (v : ℕ)
    → IsQueue s xs
    → (s' : Lru) × (insert v s ≡ some s') × IsQueue s' (v ∷ erase v xs)
unfolding insert
insert-IsQueue s xs v q = elim (Bool-cases (mem v xs)) [
  | inl e ↦
      let (us, ws, split) = mem_split v xs e in
      let l = subst (Linked s) split q.linked in
      let (s', run, linked, same) = move_to_front-Linked s us ws v (ends us) l in
      let first : erase v xs ≡ us ++ ws =
        ap (erase v) split ∙ erase_middle v us ws (mem_front us ws v l.distinct) in
      (
        s',
        rw (q.mapped v, e) run,
        subst (λ ys. IsQueue s' (v ∷ ys)) (sym first)
            (record {
              linked = linked;
              mapped = λ x.
                  ap (λ (f : ℕ → Bool). f x) same.0
                  ∙ q.mapped x
                  ∙ ap (mem x) split
                  ∙ mem_middle us ws v x;
              size = same.1 ∙ q.size ∙ ap length split ∙ length_middle us ws v;
            }),
      )
  | inr e ↦
      let (s', run, q') = insert_new-IsQueue s xs v q e in
      (s', rw (q.mapped v, e) run, subst (λ ys. IsQueue s' (v ∷ ys)) (sym (erase_fresh v xs e)) q')
]

mapped_fewer :
    (m : ℕ → Bool) (us ws : List ℕ) (v x : ℕ)
    → m x ≡ mem x (us ++ v ∷ ws)
    → mem v (us ++ ws) ≡ false
    → put v false m x ≡ mem x (us ++ ws)
unfolding mem
mapped_fewer m us ws v x h gone = elim (Bool-cases (x == v)) [
  | inl e ↦ let same : x ≡ v = ground arith in rw e (sym (ap (λ y. mem y (us ++ ws)) same ∙ gone))
  | inr e ↦ ground (arith, mem-append x us (v ∷ ws), mem-append x us ws)
]

none≢some : {a : ℕ} → none ≢ some a
none≢some h = cc

some-injective : {a b : ℕ} → some a ≡ some b → a ≡ b
some-injective h = cc

mem_absent :
    (v x : ℕ) (xs : List ℕ) → mem v xs ≡ false → mem x xs ≡ (if x == v then false else mem x xs)
mem_absent v x xs h = elim (Bool-cases (x == v)) [
  | inl e ↦ let same : x ≡ v = ground arith in rw e (ap (λ y. mem y xs) same ∙ h)
  | inr e ↦ rw e
]

pub remove-IsQueue :
    (s : Lru) (xs : List ℕ) (v : ℕ)
    → IsQueue s xs
    → (s' : Lru) × (remove v s ≡ some (mem v xs, s')) × IsQueue s' (erase v xs)
unfolding remove
remove-IsQueue s xs v q = elim (Bool-cases (mem v xs)) [
  | inl e ↦
      let (us, ws, split) = mem_split v xs e in
      let l = subst (Linked s) split q.linked in
      let (s', run, linked, same) = take_out-Linked s us ws v (ends us) l in
      let gone = mem_without us ws v l.distinct in
      let rest : erase v xs ≡ us ++ ws =
        ap (erase v) split ∙ erase_middle v us ws (mem_front us ws v l.distinct) in
      let here : (x : ℕ) → s'.mapped x ≡ mem x (us ++ v ∷ ws) =
        λ x. ap (λ (f : ℕ → Bool). f x) same.0 ∙ q.mapped x ∙ ap (mem x) split in
      (
        record s' { mapped = put v false s'.mapped; size = s'.size - 1 },
        rw (q.mapped v, e, run),
        subst (λ ys. IsQueue (record s' { mapped = put v false s'.mapped; size = s'.size - 1 }) ys)
            (sym rest)
            (record {
              linked = record {
                forward = linked.forward;
                back = linked.back;
                backward = linked.backward;
                distinct = linked.distinct;
              };
              mapped = λ x. mapped_fewer s'.mapped us ws v x (here x) gone;
              size = omega (arith, same.1, q.size, ap length split, length_middle us ws v);
            }),
      )
  | inr e ↦ (s, rw (q.mapped v, e), subst (IsQueue s) (sym (erase_fresh v xs e)) q)
]

-- The last element, and the list without it.
unfoldable pub oldest : List ℕ → Option ℕ
oldest [] = none
oldest (x ∷ []) = some x
oldest (x ∷ y ∷ ys) = oldest (y ∷ ys)

unfoldable pub newer : List ℕ → List ℕ
newer [] = []
newer (x ∷ []) = []
newer (x ∷ y ∷ ys) = x ∷ newer (y ∷ ys)

oldest-append : (us : List ℕ) (a : ℕ) → oldest (us ++ a ∷ []) ≡ some a
unfolding oldest
oldest-append [] a = refl
oldest-append (u ∷ []) a = refl
oldest-append (u ∷ w ∷ us) a = oldest-append (w ∷ us) a

newer-append : (us : List ℕ) (a : ℕ) → newer (us ++ a ∷ []) ≡ us
unfolding newer
newer-append [] a = refl
newer-append (u ∷ []) a = refl
newer-append (u ∷ w ∷ us) a = ap (λ ys. u ∷ ys) (newer-append (w ∷ us) a)

head_of : (s : Lru) (us : List ℕ) (a : ℕ) → Linked s (us ++ a ∷ []) → (h : ℕ) × (s.head ≡ some h)
head_of s [] a l = (a, l.forward.0)
head_of s (u ∷ us) a l = (u, l.forward.0)

erase_last : (us : List ℕ) (a : ℕ) → NoRepeat (us ++ a ∷ []) → erase a (us ++ a ∷ []) ≡ us
erase_last us a d = erase_middle a us [] (mem_front us [] a d) ∙ append-nil us

mem_last : (us : List ℕ) (a : ℕ) → mem a (us ++ a ∷ []) ≡ true
unfolding mem
mem_last us a = ground (arith, mem-append a us (a ∷ []), ==-self a)

evict_ending :
    (s : Lru) (xs : List ℕ)
    → IsQueue s xs
    → Ends xs
    → (s' : Lru) × (evict s ≡ some (oldest xs, s')) × IsQueue s' (newer xs)
unfolding evict evict_from evict_tail oldest newer
evict_ending s xs q nothing = (s, rw (q.linked.forward), q)
evict_ending s xs q (ending us a ys e) =
    let q' : IsQueue s (us ++ a ∷ []) = subst (IsQueue s) e q in
    let (s', run, after) = remove-IsQueue s (us ++ a ∷ []) a q' in
    let (h, head) = head_of s us a q'.linked in
    let found : some a ≡ oldest xs = sym (ap oldest e ∙ oldest-append us a) in
    (
      s',
      (ap (λ o. evict_from o s) head
          ∙ ap (λ t. evict_tail t s) (tail_is s us a q'.linked)
          ∙ ap (λ r. r >>= λ (r : Bool × Lru). some (some a, r.1)) run
          ∙ ap (λ o. some (o, s')) found),
      subst (IsQueue s') (erase_last us a q'.linked.distinct ∙ sym (ap newer e ∙ newer-append us a))
          after,
    )

pub evict-IsQueue :
    (s : Lru) (xs : List ℕ)
    → IsQueue s xs
    → (s' : Lru) × (evict s ≡ some (oldest xs, s')) × IsQueue s' (newer xs)
evict-IsQueue s xs q = evict_ending s xs q (ends xs)

pub empty_lru-IsQueue : IsQueue empty_lru []
unfolding empty_lru mem
empty_lru-IsQueue = record {
  linked = record { forward = refl; back = none; backward = (unfold rev in refl); distinct = tt };
  mapped = λ x. refl;
  size = refl;
}

pub mem_erased :
    (s : Lru) (xs : List ℕ) (v x : ℕ)
    → IsQueue s xs
    → mem x (erase v xs) ≡ (if x == v then false else mem x xs)
mem_erased s xs v x q = elim (Bool-cases (mem v xs)) [
  | inl e ↦
      let (us, ws, split) = mem_split v xs e in
      let d : NoRepeat (us ++ v ∷ ws) = subst NoRepeat split q.linked.distinct in
      ap (mem x) (ap (erase v) split ∙ erase_middle v us ws (mem_front us ws v d))
      ∙ sym (mapped_fewer (λ y. mem y xs) us ws v x (ap (mem x) split) (mem_without us ws v d))
  | inr e ↦ ap (mem x) (erase_fresh v xs e) ∙ mem_absent v x xs e
]

oldest_end :
    (xs : List ℕ) (a : ℕ) → Ends xs → oldest xs ≡ some a → (us : List ℕ) × (xs ≡ us ++ a ∷ [])
unfolding oldest
oldest_end xs a nothing h = absurd (none≢some h)
oldest_end xs a (ending us b ys e) h =
    let same : b ≡ a = some-injective (sym (oldest-append us b) ∙ sym (ap oldest e) ∙ h) in
    (us, e ∙ ap (λ c. us ++ c ∷ []) same)

-- The oldest value is in the queue, and the newer ones are those without it.
pub oldest_erased :
    (s : Lru) (xs : List ℕ) (a : ℕ)
    → IsQueue s xs
    → oldest xs ≡ some a
    → (mem a xs ≡ true) × (newer xs ≡ erase a xs)
oldest_erased s xs a q h =
    let (us, e) = oldest_end xs a (ends xs) h in
    let d : NoRepeat (us ++ a ∷ []) = subst NoRepeat e q.linked.distinct in
    (
      ap (mem a) e ∙ mem_last us a,
      ap newer e ∙ newer-append us a ∙ sym (ap (erase a) e ∙ erase_last us a d),
    )
