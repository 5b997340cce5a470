-- ===== src/Page/Logged.antt =====
-- The writes of a transaction: what `WAL::set` does to the data file is the write to the page.
use diskmap_cpp.Common.{
  ℕ, ◌+◌, ◌-◌, ◌≤◌, ◌≡◌, ◌∙◌, List, [], ◌++◌, arith, length, replicate, append-nil,
}
use diskmap_cpp.Memory.{page_size, copy}
use diskmap_cpp.Bytes.{le_bytes, length-le_bytes}
use diskmap_cpp.Wal.{Wal, set_bytes}
use diskmap_cpp.Wal.Apply.{IsWrite, redo-copy}
use diskmap_cpp.Page.{address, write_field, clear}

pub mem-set_bytes :
    (txn_id loc n : ℕ) (bytes : List ℕ) (w : Wal)
    → IsWrite loc n bytes
    → (set_bytes txn_id loc n bytes w).mem
      ≡ copy w.mem loc (bytes ++ replicate (n - length bytes) 0)
unfolding set_bytes
mem-set_bytes txn_id loc n bytes w h = redo-copy h w.mem w.next_lsn txn_id w.mem

-- A field written in a transaction, inside its page: the data file is then the one with just this
-- field written.
pub set_bytes-write_field :
    (txn_id n page offset value : ℕ) (w : Wal)
    → offset + n ≤ page_size
    → (set_bytes txn_id (address page offset) n (le_bytes n value) w).mem
      ≡ write_field n page offset value w.mem
unfolding write_field
set_bytes-write_field txn_id n page offset value w h =
    let fill : n - length (le_bytes n value) ≡ 0 = omega (arith, length-le_bytes n value) in
    mem-set_bytes txn_id (address page offset) n (le_bytes n value) w
      (record { in_page = omega arith; covers = omega (arith, length-le_bytes n value) })
    ∙ rw (fill, append-nil (le_bytes n value))

-- A page cleared in a transaction.
pub set_bytes-clear :
    (txn_id page : ℕ) (w : Wal)
    → (set_bytes txn_id (address page 0) page_size [] w).mem ≡ clear page w.mem
unfolding clear
set_bytes-clear txn_id page w =
    mem-set_bytes txn_id (address page 0) page_size [] w
      (record { in_page = omega arith; covers = omega arith })
