-- ===== src/Replacer.antt =====
-- replacer.h, replacer.cpp. A node of the LRU list is named by its value: `map` leads from a value to
-- its one node. A null pointer is `none`; following one is the result `none` of the function, and so
-- is nothing else: the result -1 of `evict` is `some (none, …)`.
pub mod Segment
pub mod Linked
pub mod Queue
pub mod Refines
pub mod Dual
pub mod Policy
pub mod Held
mod Tests
use diskmap_cpp.Common.{
  ℕ, ◌+◌, ◌-◌, Bool, true, false, ◌&&◌, not, Option, none, some, ◌==◌, if◌then◌else◌, ◌>>=◌,
}

-- A field of a node is set.
abbrev pub put {ℓ} : {A : Type ℓ} → ℕ → A → (ℕ → A) → ℕ → A
put k v f x = if x == k then v else f x

-- `LRUReplacer`; `mapped` says which values the map has, `next` and `prev` are the nodes' fields.
pub record Lru : Type 0 where
  pub head : Option ℕ
  pub tail : Option ℕ
  pub next : ℕ → Option ℕ
  pub prev : ℕ → Option ℕ
  pub mapped : ℕ → Bool
  pub size : ℕ

unfoldable pub empty_lru : Lru
empty_lru = record {
  head = none;
  tail = none;
  next = λ x. none;
  prev = λ x. none;
  mapped = λ x. false;
  size = 0;
}

unfoldable pub is_node : Option ℕ → ℕ → Bool
is_node none val = false
is_node (some x) val = x == val

-- `p->next = q`, `p->prev = q`
unfoldable pub set_next : Option ℕ → Option ℕ → Lru → Option Lru
set_next none q s = none
set_next (some p) q s = some (record s { next = put p q s.next })

unfoldable pub set_prev : Option ℕ → Option ℕ → Lru → Option Lru
set_prev none q s = none
set_prev (some p) q s = some (record s { prev = put p q s.prev })

-- The node is the tail: `tail = node->prev; tail->next = nullptr`.
unfoldable pub cut_tail : ℕ → Lru → Option Lru
unfolding set_next
cut_tail val s = set_next (s.prev val) none (record s { tail = s.prev val })

-- The node is the head, and not the tail.
unfoldable pub cut_head : ℕ → Lru → Option Lru
unfolding set_prev
cut_head val s = set_prev (s.next val) none (record s { head = s.next val })

-- The node is between two others.
unfoldable pub unlink : ℕ → Lru → Option Lru
unfolding set_next set_prev
unlink val s =
    set_next (s.prev val) (s.next val) s >>= λ s1. set_prev (s1.next val) (s1.prev val) s1

-- `node->next = head; head->prev = node; head = node`
unfoldable pub to_front : ℕ → Lru → Option Lru
unfolding set_prev
to_front val s = set_prev s.head (some val) (record s { next = put val s.head s.next }) >>= λ s1.
    some (record s1 { head = some val })

-- `insert` of a value that the map does not have.
unfoldable pub insert_new : ℕ → Lru → Option Lru
unfolding to_front
insert_new val s =
    let s1 : Lru = record s {
      next = put val none s.next;
      prev = put val none s.prev;
      mapped = put val true s.mapped;
    } in
    let linked = elim (s.head) as (λ h. Option Lru) [
      | none ↦ some (record s1 { head = some val; tail = some val })
      | some h ↦ to_front val s1
    ] in
    linked >>= λ s2. some (record s2 { size = s2.size + 1 })

unfoldable pub move_to_front : ℕ → Lru → Option Lru
unfolding is_node cut_tail unlink to_front
move_to_front val s =
    if is_node s.head val
    then some s
    else ((if is_node s.tail val then cut_tail val s else unlink val s) >>= λ s1. to_front val s1)

-- `LRUReplacer::insert`
unfoldable pub insert : ℕ → Lru → Option Lru
unfolding insert_new move_to_front
insert val s = if s.mapped val then move_to_front val s else insert_new val s

unfoldable pub take_out : ℕ → Lru → Option Lru
unfolding is_node cut_head cut_tail unlink
take_out val s =
    if is_node s.head val && is_node s.tail val
    then some (record s { head = none; tail = none })
    else if is_node s.head val
    then cut_head val s
    else if is_node s.tail val
    then cut_tail val s
    else unlink val s

-- `LRUReplacer::remove`
unfoldable pub remove : ℕ → Lru → Option (Bool × Lru)
unfolding take_out
remove val s =
    if not (s.mapped val)
    then some (false, s)
    else (take_out val s >>= λ s1.
        some (true, record s1 { mapped = put val false s1.mapped; size = s1.size - 1 }))

unfoldable pub evict_tail : Option ℕ → Lru → Option (Option ℕ × Lru)
unfolding remove
evict_tail none s = none
evict_tail (some val) s = remove val s >>= λ (r : Bool × Lru). some (some val, r.1)

unfoldable pub evict_from : Option ℕ → Lru → Option (Option ℕ × Lru)
unfolding evict_tail
evict_from none s = some (none, s)
evict_from (some h) s = evict_tail s.tail s

-- `LRUReplacer::evict`
unfoldable pub evict : Lru → Option (Option ℕ × Lru)
unfolding evict_from
evict s = evict_from s.head s
