-- ===== src/Replacer/Queue.antt =====
-- `LRUReplacer` on its list: taking a node out of its place, and moving it to the front.
use diskmap_cpp.Common.{
  ℕ, ◌≡◌, ◌≢◌, refl, sym, ap, ◌∙◌, subst, inl, inr, true, false, none, some, List, [], ◌∷◌, ◌++◌,
  arith, ◌==◌, ==-self, Bool-cases, if◌then◌else◌, append_assoc,
}
use diskmap_cpp.Replacer.{Lru, is_node, to_front, move_to_front, take_out, cut_tail, unlink}
use diskmap_cpp.Replacer.Segment.{
  Seg, mem, rev, NoRepeat, mem-append, rev-append, NoRepeat-back, mem_front,
}
use diskmap_cpp.Replacer.Linked.{
  Linked, SameMap, to_front-Linked, unlink-Linked, cut_tail-Linked, cut_head-Linked,
}

unfoldable pub erase : ℕ → List ℕ → List ℕ
erase v [] = []
erase v (x ∷ xs) = let rest = erase v xs in if x == v then xs else x ∷ rest

-- A list is empty, or has a last element.
pub data Ends : List ℕ → Type 0 where
  nothing : Ends []
  ending : (us : List ℕ) (a : ℕ) (xs : List ℕ) → xs ≡ us ++ a ∷ [] → Ends xs

pub false≢true : false ≢ true
false≢true h = cc

Ends-cons : (x : ℕ) {xs : List ℕ} → Ends xs → Ends (x ∷ xs)
Ends-cons x nothing = ending [] x (x ∷ []) refl
Ends-cons x (ending us a xs h) = ending (x ∷ us) a (x ∷ xs) (ap (λ ys. x ∷ ys) h)

pub ends : (xs : List ℕ) → Ends xs
ends [] = nothing
ends (x ∷ xs) = Ends-cons x (ends xs)

pub mem_split :
    (v : ℕ) (xs : List ℕ) → mem v xs ≡ true → (us : List ℕ) × (ws : List ℕ) × (xs ≡ us ++ v ∷ ws)
unfolding mem
mem_split v [] h = absurd (false≢true h)
mem_split v (x ∷ xs) h = elim (Bool-cases (v == x)) [
  | inl e ↦ let same : x ≡ v = ground arith in ([], xs, ap (λ y. y ∷ xs) same)
  | inr e ↦
      let (us, ws, split) = mem_split v xs (ground arith) in (x ∷ us, ws, ap (λ ys. x ∷ ys) split)
]

pub erase_middle : (v : ℕ) (us ws : List ℕ) → mem v us ≡ false → erase v (us ++ v ∷ ws) ≡ us ++ ws
unfolding erase mem
erase_middle v [] ws h = rw (==-self v)
erase_middle v (u ∷ us) ws h =
    let other : (u == v) ≡ false = ground arith in
    let later : mem v us ≡ false = ground arith in
    rw other (ap (λ xs. u ∷ xs) (erase_middle v us ws later))

pub erase_fresh : (v : ℕ) (xs : List ℕ) → mem v xs ≡ false → erase v xs ≡ xs
unfolding erase mem
erase_fresh v [] h = refl
erase_fresh v (x ∷ xs) h =
    let other : (x == v) ≡ false = ground arith in
    let later : mem v xs ≡ false = ground arith in
    rw other (ap (λ ys. x ∷ ys) (erase_fresh v xs later))

pub tail_is : (s : Lru) (us : List ℕ) (t : ℕ) → Linked s (us ++ t ∷ []) → s.tail ≡ some t
unfolding rev
tail_is s us t l = (subst (λ ys. Seg s.prev s.tail ys l.back) (rev-append us (t ∷ [])) l.backward).0

-- Behind the node there are others, so it is not the tail.
not_tail :
    (s : Lru) (us ws : List ℕ) (v b : ℕ)
    → Linked s (us ++ v ∷ b ∷ ws)
    → Ends (b ∷ ws)
    → is_node s.tail v ≡ false
unfolding is_node
not_tail s us ws v b l (ending zs t xs e) =
    let longer = ap (λ ys. us ++ v ∷ ys) e ∙ sym (append_assoc us (v ∷ zs) (t ∷ [])) in
    let at_end = tail_is s (us ++ v ∷ zs) t (subst (Linked s) longer l) in
    let fresh : mem v (zs ++ t ∷ []) ≡ false =
      subst (λ ys. mem v ys ≡ false) e (NoRepeat-back us (v ∷ b ∷ ws) l.distinct).0 in
    rw at_end (unfold mem in ground (arith, fresh, mem-append v zs (t ∷ [])))

-- In front of the node there are others, so it is not the head.
not_head :
    (s : Lru) (us ws : List ℕ) (a v : ℕ) → Linked s (us ++ a ∷ v ∷ ws) → is_node s.head v ≡ false
unfolding is_node mem
not_head s [] ws a v l = rw (l.forward.0) (ground (arith, l.distinct.0))
not_head s (u ∷ us) ws a v l = rw (l.forward.0) (
    ground
      (arith, l.distinct.0, mem-append v us (a ∷ v ∷ ws), ==-self v, mem-append u us (a ∷ v ∷ ws)))

take_out_first :
    (s : Lru) (ws : List ℕ) (v : ℕ)
    → Linked s (v ∷ ws)
    → (s' : Lru) × (take_out v s ≡ some s') × Linked s' ws × SameMap s s'
unfolding take_out is_node
take_out_first s [] v l =
    let at_end = tail_is s [] v l in
    (
      record s { head = none; tail = none },
      rw (l.forward.0, at_end, ==-self v),
      record { forward = refl; back = none; backward = (unfold rev in refl); distinct = tt },
      (refl, refl),
    )
take_out_first s (b ∷ ws) v l =
    let (s', run, linked, same) = cut_head-Linked s ws v b l in
    (s', rw (not_tail s [] ws v b l (ends (b ∷ ws)), l.forward.0, ==-self v) run, linked, same)

take_out_inner :
    (s : Lru) (us ws : List ℕ) (a v : ℕ)
    → Linked s (us ++ a ∷ v ∷ ws)
    → (s' : Lru) × (take_out v s ≡ some s') × Linked s' (us ++ a ∷ ws) × SameMap s s'
unfolding take_out
take_out_inner s us [] a v l =
    let at_end =
      tail_is s (us ++ a ∷ []) v (subst (Linked s) (sym (append_assoc us (a ∷ []) (v ∷ []))) l) in
    let is_end : is_node s.tail v ≡ true = rw at_end (unfold is_node in ==-self v) in
    let (s', run, linked, same) = cut_tail-Linked s us a v l in
    (s', rw (not_head s us [] a v l, is_end) run, linked, same)
take_out_inner s us (b ∷ ws) a v l =
    let not_end =
      not_tail s (us ++ a ∷ []) ws v b
        (subst (Linked s) (sym (append_assoc us (a ∷ []) (v ∷ b ∷ ws))) l) (ends (b ∷ ws)) in
    let (s', run, linked, same) = unlink-Linked s us ws a v b l in
    (s', rw (not_head s us (b ∷ ws) a v l, not_end) run, linked, same)

-- Taking a node out of the list.
pub take_out-Linked :
    (s : Lru) (us ws : List ℕ) (v : ℕ)
    → Ends us
    → Linked s (us ++ v ∷ ws)
    → (s' : Lru) × (take_out v s ≡ some s') × Linked s' (us ++ ws) × SameMap s s'
take_out-Linked s us ws v nothing l = take_out_first s ws v l
take_out-Linked s us ws v (ending zs a ys e) l =
    let longer : ys ++ v ∷ ws ≡ zs ++ a ∷ v ∷ ws =
      ap (λ us. us ++ v ∷ ws) e ∙ append_assoc zs (a ∷ []) (v ∷ ws) in
    let shorter : ys ++ ws ≡ zs ++ a ∷ ws = ap (λ us. us ++ ws) e ∙ append_assoc zs (a ∷ []) ws in
    let (s', run, linked, same) = take_out_inner s zs ws a v (subst (Linked s) longer l) in
    (s', run, subst (Linked s') (sym shorter) linked, same)

to_front_any :
    (s : Lru) (us ws : List ℕ) (a v : ℕ)
    → Linked s (us ++ a ∷ ws)
    → mem v (us ++ a ∷ ws) ≡ false
    → (s' : Lru) × (to_front v s ≡ some s') × Linked s' (v ∷ us ++ a ∷ ws) × SameMap s s'
to_front_any s [] ws a v l fresh = to_front-Linked s v a ws l fresh
to_front_any s (u ∷ us) ws a v l fresh = to_front-Linked s v u (us ++ a ∷ ws) l fresh

-- The middle element is not among the others.
pub mem_without : (us ws : List ℕ) (v : ℕ) → NoRepeat (us ++ v ∷ ws) → mem v (us ++ ws) ≡ false
unfolding mem
mem_without us ws v d =
    ground (arith, mem-append v us ws, mem_front us ws v d, NoRepeat-back us (v ∷ ws) d)

-- `move_to_front` takes the node out and puts it in front of the others.
move_to_front_inner :
    (s : Lru) (us ws : List ℕ) (a v : ℕ)
    → Linked s (us ++ a ∷ v ∷ ws)
    → (s' : Lru) × (move_to_front v s ≡ some s') × Linked s' (v ∷ us ++ a ∷ ws) × SameMap s s'
unfolding move_to_front take_out
move_to_front_inner s us ws a v l =
    let (s1, run, linked, same) = take_out_inner s us ws a v l in
    let other = not_head s us ws a v l in
    let step : take_out v s ≡ (if is_node s.tail v then cut_tail v s else unlink v s) = rw other in
    let fresh : mem v (us ++ a ∷ ws) ≡ false =
      subst (λ ys. mem v ys ≡ false) (append_assoc us (a ∷ []) ws)
        (mem_without (us ++ a ∷ []) ws v
          (subst NoRepeat (sym (append_assoc us (a ∷ []) (v ∷ ws))) l.distinct)) in
    let (s', run', linked', same') = to_front_any s1 us ws a v linked fresh in
    (s', rw (other, ← step, run) run', linked', (same'.0 ∙ same.0, same'.1 ∙ same.1))

pub move_to_front-Linked :
    (s : Lru) (us ws : List ℕ) (v : ℕ)
    → Ends us
    → Linked s (us ++ v ∷ ws)
    → (s' : Lru) × (move_to_front v s ≡ some s') × Linked s' (v ∷ us ++ ws) × SameMap s s'
unfolding move_to_front is_node
move_to_front-Linked s us ws v nothing l = (s, rw (l.forward.0, ==-self v), l, (refl, refl))
move_to_front-Linked s us ws v (ending zs a ys e) l =
    let longer : ys ++ v ∷ ws ≡ zs ++ a ∷ v ∷ ws =
      ap (λ us. us ++ v ∷ ws) e ∙ append_assoc zs (a ∷ []) (v ∷ ws) in
    let shorter : ys ++ ws ≡ zs ++ a ∷ ws = ap (λ us. us ++ ws) e ∙ append_assoc zs (a ∷ []) ws in
    let (s', run, linked, same) = move_to_front_inner s zs ws a v (subst (Linked s) longer l) in
    (s', run, subst (λ ys. Linked s' (v ∷ ys)) (sym shorter) linked, same)
