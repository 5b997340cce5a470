-- ===== src/Replacer/Linked.antt =====
-- The doubly linked list of an `LRUReplacer`, and what the pointer operations do to it.
use diskmap_cpp.Common.{
  ℕ, ◌≡◌, refl, sym, subst, false, Option, none, some, List, [], ◌∷◌, ◌++◌, arith, ◌==◌, ==-self,
  append_assoc,
}
use diskmap_cpp.Replacer.{Lru, put, set_next, set_prev, cut_tail, cut_head, unlink, to_front}
use diskmap_cpp.Replacer.Segment.{
  Seg, mem, rev, NoRepeat, rev-append, NoRepeat-front, NoRepeat-back, NoRepeat-rev, NoRepeat-inner,
  Seg-append, Seg-split, Seg-put, Seg-last, Seg-skip,
}

-- From the head along `next` the nodes are `xs`, up to a null pointer; from the tail along `prev`
-- they are `xs` backwards. What the head's `prev` holds is of no account.
pub record Linked (s : Lru) (xs : List ℕ) : Type 0 where
  pub forward : Seg s.next s.head xs none
  pub back : Option ℕ
  pub backward : Seg s.prev s.tail (rev xs) back
  pub distinct : NoRepeat xs

-- The map and the size are as they were.
abbrev pub SameMap : Lru → Lru → Type 0
SameMap s s' = (s'.mapped ≡ s.mapped) × (s'.size ≡ s.size)

rev_middle :
    (us ws : List ℕ) (a v b : ℕ) → rev (us ++ a ∷ v ∷ b ∷ ws) ≡ rev ws ++ b ∷ v ∷ a ∷ rev us
unfolding rev
rev_middle us ws a v b = rw (rev-append us (a ∷ v ∷ b ∷ ws)) (simp append_assoc)

rev_short : (us ws : List ℕ) (a b : ℕ) → rev (us ++ a ∷ b ∷ ws) ≡ rev ws ++ b ∷ a ∷ rev us
unfolding rev
rev_short us ws a b = rw (rev-append us (a ∷ b ∷ ws)) (simp append_assoc)

rev_end : (us : List ℕ) (a v : ℕ) → rev (us ++ a ∷ v ∷ []) ≡ v ∷ a ∷ rev us
unfolding rev
rev_end us a v = rev-append us (a ∷ v ∷ [])

Seg-after :
    (f : ℕ → Option ℕ) (us ws : List ℕ) (v b : ℕ) (o p : Option ℕ)
    → Seg f o (us ++ v ∷ b ∷ ws) p
    → f v ≡ some b
Seg-after f us ws v b o p h = let (q, front, rest) = Seg-split f us (v ∷ b ∷ ws) o p h in rest.1.0

pub to_front-Linked :
    (s : Lru) (v h : ℕ) (ws : List ℕ)
    → Linked s (h ∷ ws)
    → mem v (h ∷ ws) ≡ false
    → (s' : Lru) × (to_front v s ≡ some s') × Linked s' (v ∷ h ∷ ws) × SameMap s s'
unfolding to_front set_prev
to_front-Linked s v h ws l fresh =
    let next' = put v s.head s.next in
    let prev' = put h (some v) s.prev in
    let at_head = Seg-put s.next v s.head (h ∷ ws) s.head none fresh l.forward in
    (
      record s { next = next'; prev = prev'; head = some v },
      rw (l.forward.0),
      (record {
        forward = (refl, rw (==-self v) at_head);
        back = prev' v;
        backward =
            (unfold rev in
              Seg-append prev' (rev ws ++ h ∷ []) (v ∷ []) s.tail (some v) (prev' v)
                (Seg-last s.prev (rev ws) h (some v) s.tail l.back
                  (NoRepeat-rev (h ∷ ws) l.distinct) l.backward)
                (refl, refl));
        distinct = (fresh, l.distinct);
      }),
      (refl, refl),
    )

pub unlink-Linked :
    (s : Lru) (us ws : List ℕ) (a v b : ℕ)
    → Linked s (us ++ a ∷ v ∷ b ∷ ws)
    → (s' : Lru) × (unlink v s ≡ some s') × Linked s' (us ++ a ∷ b ∷ ws) × SameMap s s'
unfolding unlink set_next set_prev
unlink-Linked s us ws a v b l =
    let backwards = subst (λ ys. Seg s.prev s.tail ys l.back) (rev_middle us ws a v b) l.backward in
    let apart =
      subst NoRepeat (rev_middle us ws a v b) (NoRepeat-rev (us ++ a ∷ v ∷ b ∷ ws) l.distinct) in
    let (to_v, forward) = Seg-skip s.next us (b ∷ ws) a v s.head none l.distinct l.forward in
    let (from_v, backward) =
      Seg-skip s.prev (rev ws) (a ∷ rev us) b v s.tail l.back apart backwards in
    let next_v : s.next v ≡ some b = Seg-after s.next (us ++ a ∷ []) ws v b s.head none (
      subst (λ ys. Seg s.next s.head ys none) (sym (append_assoc us (a ∷ []) (v ∷ b ∷ ws)))
        l.forward) in
    let prev_v : s.prev v ≡ some a =
      Seg-after s.prev (rev ws ++ b ∷ []) (rev us) v a s.tail l.back (
        subst (λ ys. Seg s.prev s.tail ys l.back)
          (sym (append_assoc (rev ws) (b ∷ []) (v ∷ a ∷ rev us))) backwards) in
    let d = NoRepeat-back us (a ∷ v ∷ b ∷ ws) l.distinct in
    let other : (v == a) ≡ false = (unfold mem in ground (arith, d.0)) in
    let short : rev ws ++ b ∷ a ∷ rev us ≡ rev (us ++ a ∷ b ∷ ws) = sym (rev_short us ws a b) in
    (
      record s { next = put a (s.next v) s.next; prev = put b (s.prev v) s.prev },
      rw (prev_v, other, next_v, prev_v),
      (record {
        forward = forward;
        back = l.back;
        backward = subst (λ ys. Seg (put b (s.prev v) s.prev) s.tail ys l.back) short backward;
        distinct = subst NoRepeat (append_assoc us (a ∷ []) (b ∷ ws)) (
            NoRepeat-inner (us ++ a ∷ []) (b ∷ ws) v
              (subst NoRepeat (sym (append_assoc us (a ∷ []) (v ∷ b ∷ ws))) l.distinct));
      }),
      (refl, refl),
    )

pub cut_tail-Linked :
    (s : Lru) (us : List ℕ) (a v : ℕ)
    → Linked s (us ++ a ∷ v ∷ [])
    → (s' : Lru) × (cut_tail v s ≡ some s') × Linked s' (us ++ a ∷ []) × SameMap s s'
unfolding cut_tail set_next rev
cut_tail-Linked s us a v l =
    let backwards = subst (λ ys. Seg s.prev s.tail ys l.back) (rev_end us a v) l.backward in
    let whole = sym (append_assoc us (a ∷ []) (v ∷ [])) in
    let (q, front, rest) =
      Seg-split s.next (us ++ a ∷ []) (v ∷ []) s.head none
        (subst (λ ys. Seg s.next s.head ys none) whole l.forward) in
    let d = NoRepeat-front (us ++ a ∷ []) (v ∷ []) (subst NoRepeat whole l.distinct) in
    (
      record s { tail = s.prev v; next = put a none s.next },
      rw (backwards.1.0),
      (record {
        forward = Seg-last s.next us a none s.head q d front;
        back = l.back;
        backward =
            subst (λ ys. Seg s.prev (s.prev v) ys l.back) (sym (rev-append us (a ∷ [])))
              backwards.1;
        distinct = d;
      }),
      (refl, refl),
    )

pub cut_head-Linked :
    (s : Lru) (ws : List ℕ) (v b : ℕ)
    → Linked s (v ∷ b ∷ ws)
    → (s' : Lru) × (cut_head v s ≡ some s') × Linked s' (b ∷ ws) × SameMap s s'
unfolding cut_head set_prev
cut_head-Linked s ws v b l =
    let (q, front, rest) =
      Seg-split s.prev (rev ws ++ b ∷ []) (v ∷ []) s.tail l.back (unfold rev in l.backward) in
    (
      record s { head = s.next v; prev = put b none s.prev },
      rw (l.forward.1.0),
      (record {
        forward = l.forward.1;
        back = none;
        backward =
            (unfold rev in
              Seg-last s.prev (rev ws) b none s.tail q (NoRepeat-rev (b ∷ ws) l.distinct.1) front);
        distinct = l.distinct.1;
      }),
      (refl, refl),
    )
