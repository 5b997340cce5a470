-- ===== src/BufferPool/Evict.antt =====
-- How `retain` makes room: it takes a slot that was never used, or evicts a page that nobody uses.
use diskmap_cpp.Common.{
  ℕ, ◌+◌, ◌<◌, ◌≡◌, ◌≢◌, refl, sym, ap, ap₂, ◌∙◌, subst, inl, inr, false, ◌&&◌, Option, none, some,
  ◌==◌, ==-self, ltb, arith, Bool-cases,
}
use diskmap_cpp.Replacer.{put}
use diskmap_cpp.Replacer.Dual.{Dual}
use diskmap_cpp.Replacer.Held.{IsReplacer, held, Without}
use diskmap_cpp.BufferPool.{BufferPool, PageMetadata, unused_page, write_back}
use diskmap_cpp.BufferPool.View.{file_page, view_at, view, IsPool, IsRoom}
use diskmap_cpp.BufferPool.Room.{
  file_page-pwrite_page, put_other, put_same, none≢some, some-injective,
}

-- A slot that was never used.
pub next_slot-IsRoom :
    (s : BufferPool)
    → IsPool s
    → s.next_pool_index < s.pool_size
    → IsRoom (record s { next_pool_index = s.next_pool_index + 1 }) s.next_pool_index
unfolding unused_page
next_slot-IsRoom s p h = record {
  below = omega arith;
  bounded = omega arith;
  replacer = p.replacer;
  mapped = λ x i k.
      let (inside, same) = p.mapped x i k in
      (λ e. omega (arith, inside, e), omega (arith, inside), same);
  resident = λ i k l. p.resident i (omega (arith, k, l));
  idle = λ i k. p.idle i ∙ ground (arith, k);
  absent = p.idle s.next_pool_index ∙ ground arith;
  clean = λ i k l d. p.clean i (omega (arith, k, l)) d;
  empty = p.unused s.next_pool_index (omega arith);
  unused = λ i k. p.unused i (omega (arith, k));
}

next_slot_view_at :
    (s : BufferPool) (n y : ℕ) (o : Option ℕ)
    → view_at o (record s { next_pool_index = n }) y ≡ view_at o s y
unfolding view_at
next_slot_view_at s n y none = refl
next_slot_view_at s n y (some i) = refl

pub next_slot_view :
    (s : BufferPool) (n y : ℕ) → view (record s { next_pool_index = n }) y ≡ view s y
unfolding view
next_slot_view s n y = next_slot_view_at s n y (s.file_to_pool_index y)

-- Slot `n` lost its page, which is in the file as it was in the pool.
pub record Vacated (s s' : BufferPool) (d : Dual) (n : ℕ) : Type 0 where
  pub pool_size : s'.pool_size ≡ s.pool_size
  pub next_pool_index : s'.next_pool_index ≡ s.next_pool_index
  pub replacer : s'.replacer ≡ d
  pub empty : s'.metadata n ≡ unused_page
  pub metadata : (i : ℕ) → i ≢ n → s'.metadata i ≡ s.metadata i
  pub absent : s'.file_to_pool_index (s.metadata n).file_index ≡ none
  pub others :
      (y : ℕ) → y ≢ (s.metadata n).file_index → s'.file_to_pool_index y ≡ s.file_to_pool_index y
  pub pages : (i : ℕ) → s'.pages i ≡ s.pages i
  pub saved : file_page s'.file (s.metadata n).file_index ≡ s.pages n
  pub file : (y : ℕ) → y ≢ (s.metadata n).file_index → file_page s'.file y ≡ file_page s.file y

-- The steps that free the slot, where the page is dirty and where it is not.
abbrev pub forget : ℕ → Dual → BufferPool → BufferPool
forget n d s = record s {
  replacer = d;
  file_to_pool_index = put (s.metadata n).file_index none s.file_to_pool_index;
  metadata = put n unused_page s.metadata;
}

pub written-Vacated :
    (s : BufferPool) (d : Dual) (n : ℕ)
    → Vacated s
        (write_back (some ((s.metadata n).file_index, (s.metadata n).page_lsn)) n (forget n d s))
        d
        n
unfolding write_back
written-Vacated s d n =
    let x = (s.metadata n).file_index in
    let written = file_page-pwrite_page s.file x in
    record {
      pool_size = refl;
      next_pool_index = refl;
      replacer = refl;
      empty = put_same n unused_page s.metadata;
      metadata = λ i k. put_other n i unused_page s.metadata k;
      absent = put_same x none s.file_to_pool_index;
      others = λ y k. put_other x y none s.file_to_pool_index k;
      pages = λ i. refl;
      saved = written x (s.pages n) ∙ rw (==-self x);
      file = λ y k. let e : (y == x) ≡ false = ground (arith, k) in written y (s.pages n) ∙ rw e;
    }

pub clean-Vacated :
    (s : BufferPool) (d : Dual) (n : ℕ)
    → s.pages n ≡ file_page s.file (s.metadata n).file_index
    → Vacated s (write_back none n (forget n d s)) d n
unfolding write_back
clean-Vacated s d n h =
    let x = (s.metadata n).file_index in
    record {
      pool_size = refl;
      next_pool_index = refl;
      replacer = refl;
      empty = put_same n unused_page s.metadata;
      metadata = λ i k. put_other n i unused_page s.metadata k;
      absent = put_same x none s.file_to_pool_index;
      others = λ y k. put_other x y none s.file_to_pool_index k;
      pages = λ i. refl;
      saved = sym h;
      file = λ y k. refl;
    }

pub Vacated-IsRoom :
    (s s' : BufferPool) (d : Dual) (n : ℕ)
    → IsPool s
    → n < s.next_pool_index
    → IsReplacer d
    → Without n s.replacer d
    → Vacated s s' d n
    → IsRoom s' n
Vacated-IsRoom s s' d n p h q w v = record {
  below = omega (arith, v.next_pool_index, h);
  bounded = omega (arith, v.next_pool_index, v.pool_size, p.bounded);
  replacer = subst IsReplacer (sym v.replacer) q;
  mapped = λ x i k.
      let away : x ≢ (s.metadata n).file_index =
        λ e. none≢some (sym v.absent ∙ ap s'.file_to_pool_index (sym e) ∙ k) in
      let (inside, same) = p.mapped x i (sym (v.others x away) ∙ k) in
      let other : i ≢ n = λ e. away (sym same ∙ ap (λ j. (s.metadata j).file_index) e) in
      (
        other,
        omega (arith, v.next_pool_index, inside),
        ap (λ (m : PageMetadata). m.file_index) (v.metadata i other) ∙ same,
      );
  resident = λ i k l.
      let there = p.resident i (omega (arith, v.next_pool_index, l)) in
      let away : (s.metadata i).file_index ≢ (s.metadata n).file_index =
        λ e. k (some-injective (sym there ∙ ap s.file_to_pool_index e ∙ p.resident n h)) in
      ap (λ (m : PageMetadata). s'.file_to_pool_index m.file_index) (v.metadata i k)
      ∙ v.others (s.metadata i).file_index away
      ∙ there;
  idle = λ i k.
      let e : (i == n) ≡ false = ground (arith, k) in
      ap (λ d. held d i) v.replacer
      ∙ w i
      ∙ rw e (p.idle i)
      ∙ ap₂ (λ m c. ltb i m && c == 0) (sym v.next_pool_index)
          (ap (λ (m : PageMetadata). m.refcount) (sym (v.metadata i k)));
  absent = ap (λ d. held d n) v.replacer ∙ w n ∙ rw (==-self n);
  clean = λ i k l dirty.
      let same = v.metadata i k in
      let inside : i < s.next_pool_index = omega (arith, v.next_pool_index, l) in
      let there = p.resident i inside in
      let away : (s.metadata i).file_index ≢ (s.metadata n).file_index =
        λ e. k (some-injective (sym there ∙ ap s.file_to_pool_index e ∙ p.resident n h)) in
      v.pages i
      ∙ p.clean i inside (sym (ap (λ (m : PageMetadata). m.dirty) same) ∙ dirty)
      ∙ sym (v.file (s.metadata i).file_index away)
      ∙ ap (λ (m : PageMetadata). file_page s'.file m.file_index) (sym same);
  empty = v.empty;
  unused = λ i k.
      v.metadata i (omega (arith, k, h, v.next_pool_index))
      ∙ p.unused i (omega (arith, k, v.next_pool_index));
}

view_away :
    (s s' : BufferPool) {d : Dual} {n : ℕ}
    → Vacated s s' d n
    → (y : ℕ) → y ≢ (s.metadata n).file_index
    → (o : Option ℕ) → view_at o s' y ≡ view_at o s y
unfolding view_at
view_away s s' v y away none = v.file y away
view_away s s' v y away (some i) = v.pages i

pub Vacated-view :
    (s s' : BufferPool) (d : Dual) (n : ℕ)
    → IsPool s
    → n < s.next_pool_index
    → Vacated s s' d n
    → (y : ℕ) → view s' y ≡ view s y
unfolding view view_at
Vacated-view s s' d n p h v y = elim (Bool-cases (y == (s.metadata n).file_index)) [
  | inl e ↦
      let same : y ≡ (s.metadata n).file_index = ground arith in
      let there : s.file_to_pool_index y ≡ some n = ap s.file_to_pool_index same ∙ p.resident n h in
      let gone : s'.file_to_pool_index y ≡ none = ap s'.file_to_pool_index same ∙ v.absent in
      ap (λ o. view_at o s' y) gone
      ∙ ap (file_page s'.file) same
      ∙ v.saved
      ∙ ap (λ o. view_at o s y) (sym there)
  | inr e ↦
      let away : y ≢ (s.metadata n).file_index = ground (arith, e) in
      ap (λ o. view_at o s' y) (v.others y away) ∙ view_away s s' v y away (s.file_to_pool_index y)
]
