-- ===== src/Leaf/Edit.antt =====
-- The branches of `write_at_node`, `update_value_trivially` and `remove` that change the entries of
-- one leaf in place.
pub mod Buffer
pub mod Holds
pub mod Append
pub mod Remove
pub mod Update
pub mod Shrink
use diskmap_cpp.Common.{
  ℕ, suc, ◌+◌, ◌-◌, ◌%◌, ◌^◌, Option, none, some, List, ◌++◌, ◌==◌, ltb, leb, if◌then◌else◌, ◌>>=◌,
  length, take, drop, replicate,
}
use diskmap_cpp.Bytes.{le_bytes}
use diskmap_cpp.LogRecord.{u16_mod}
use diskmap_cpp.Checksum.{u64_mod}
use diskmap_cpp.Leaf.{KvEntry, LeafPage, capacity, read_u64, entry_bytes, splice, usage_after}

-- `write_at_node`, a new entry that fits behind the others.
unfoldable pub append_entry : KvEntry → LeafPage → LeafPage
append_entry e leaf =
    let entry_size = length e.key + 1 + 8 + length e.value in
    record leaf {
      contents = splice leaf.contents leaf.usage (entry_bytes e);
      usage = leaf.usage + entry_size;
      entry_count = (leaf.entry_count + 1) % u16_mod;
    }

-- `write_at_node`, for a key that the leaf does not have. `none` is a leaf without room, which the
-- code goes on to rebuild. The value is in memory, so the sum does not wrap around.
unfoldable pub append_if_fits : KvEntry → LeafPage → Option LeafPage
append_if_fits e leaf =
    let entry_size = length e.key + 1 + 8 + length e.value in
    if leb (leaf.usage + entry_size) capacity then some (append_entry e leaf) else none

-- The buffer of `update_value_trivially`: the bytes from the value length on, the entries behind the
-- value moved, the new length and the new value.
unfoldable pub update_buffer : List ℕ → ℕ → ℕ → List ℕ → List ℕ
update_buffer old current bytes_to_move value =
    let moved = splice old (8 + length value) (take bytes_to_move (drop (8 + current) old)) in
    splice (splice moved 0 (le_bytes 8 (length value))) 8 value

unfoldable pub resize_value : ℕ → ℕ → List ℕ → LeafPage → LeafPage
resize_value value_length_offset current value leaf =
    let growing = ltb current (length value) in
    let update_end = leaf.usage + (if growing then length value - current else 0) in
    let old = take (update_end - value_length_offset) (drop value_length_offset leaf.contents) in
    let bytes_to_move = leaf.usage - (value_length_offset + 8 + current) in
    record leaf {
      usage = usage_after leaf.usage (length value) current;
      contents =
          splice leaf.contents value_length_offset (update_buffer old current bytes_to_move value);
    }

-- `none` is the exception of an update that does not fit, or a value length outside the page.
unfoldable pub update_value_trivially : ℕ → List ℕ → List ℕ → LeafPage → Option LeafPage
update_value_trivially entry_offset key value leaf =
    let value_length_offset = entry_offset + length key + 1 in
    read_u64 (drop value_length_offset leaf.contents) >>= λ current.
    if ltb capacity (usage_after leaf.usage (length value) current)
    then none
    else if length value == current
    then some (record leaf { contents = splice leaf.contents (value_length_offset + 8) value })
    else some (resize_value value_length_offset current value leaf)

-- `remove`, from a leaf with more than one entry: the bytes behind the entry move left, and the last
-- `entry_size` bytes become zero.
unfoldable pub remove_bytes : ℕ → ℕ → LeafPage → LeafPage
remove_bytes entry_offset entry_size leaf =
    let next_entry_offset = entry_offset + entry_size in
    let bytes_to_move = leaf.usage - next_entry_offset in
    let write_buffer =
      take bytes_to_move (drop next_entry_offset leaf.contents) ++ replicate entry_size 0 in
    record leaf {
      contents = splice leaf.contents entry_offset write_buffer;
      usage = usage_after leaf.usage 0 entry_size;
      entry_count = (leaf.entry_count + u16_mod - 1) % u16_mod;
    }

unfoldable pub remove_entry : ℕ → List ℕ → LeafPage → Option LeafPage
unfolding remove_bytes
remove_entry entry_offset key leaf =
    read_u64 (drop (entry_offset + length key + 1) leaf.contents) >>= λ value_length.
    some (remove_bytes entry_offset (length key + 1 + 8 + value_length) leaf)
