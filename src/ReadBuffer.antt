-- ===== src/ReadBuffer.antt =====
-- include/nativepg/protocol/detail/read_buffer.hpp: one block of memory with a consumed, a
-- committed and a prepared area. The buffer has its block: the test of prepare for a null pointer,
-- which only a buffer that was moved from has, is left out.
pub mod Powers
pub mod Areas
pub mod History
mod Tests
use nativepg.Prelude.{
  ℕ, zero, suc, ◌+◌, ◌-◌, ◌*◌, ◌%◌, ◌^◌, ◌≤◌, ◌≡◌, Bool, List, [], ◌∷◌, ◌++◌, if◌then◌else◌, length,
  take, drop, leb, min,
}

-- std::bit_ceil: the first power of two from `p` on that is not below `n`, in at most `fuel`
-- doublings.
unfoldable pub bit_ceil_from : ℕ → ℕ → ℕ → ℕ
bit_ceil_from zero p n = p
bit_ceil_from (suc fuel) p n =
    let rest = bit_ceil_from fuel (2 * p) n in if leb n p then p else rest

-- A std::size_t has 64 bits, so that 64 doublings of 1 are enough.
unfoldable pub next_power_of_2 : ℕ → ℕ
next_power_of_2 n = if leb n (2 ^ 63) then bit_ceil_from 64 1 n else 2 ^ 64 - 1

-- `memory` is the block that buffer_ points to.
pub record ReadBuffer : Type 0 where
  pub size : ℕ
  pub committed_offset : ℕ
  pub prepared_offset : ℕ
  pub memory : List ℕ

abbrev pub committed_area : ReadBuffer → List ℕ
committed_area b = take (b.prepared_offset - b.committed_offset) (drop b.committed_offset b.memory)

-- The size of the prepared area. Its contents are not defined.
abbrev pub prepared_size : ReadBuffer → ℕ
prepared_size b = b.size - b.prepared_offset

unfoldable pub reset : ReadBuffer → ReadBuffer
reset b = record b { committed_offset = 0; prepared_offset = 0 }

-- std::memmove and std::memcpy to the front of a block.
abbrev pub copy_to_front : List ℕ → List ℕ → List ℕ
copy_to_front bytes block = bytes ++ drop (length bytes) block

-- Sums of std::size_t.
abbrev pub size_add : ℕ → ℕ → ℕ
size_add a b = (a + b) % 2 ^ 64

-- What `new unsigned char[n]` hands out, with whatever it holds.
module _ (new_block : ℕ → List ℕ) where
  unfoldable pub make_read_buffer : ℕ → ReadBuffer
  make_read_buffer initial_size = record {
    size = next_power_of_2 initial_size;
    committed_offset = 0;
    prepared_offset = 0;
    memory = new_block (next_power_of_2 initial_size);
  }

  unfoldable pub prepare : ReadBuffer → ℕ → ReadBuffer
  prepare b required =
      let committed = committed_area b in
      let new_size = next_power_of_2 (size_add (length committed) required) in
      let moved : ReadBuffer = record b {
        committed_offset = 0;
        prepared_offset = b.prepared_offset - b.committed_offset;
        memory = copy_to_front committed b.memory;
      } in
      let reallocated : ReadBuffer = record {
        size = new_size;
        committed_offset = 0;
        prepared_offset = length committed;
        memory = copy_to_front committed (new_block new_size);
      } in
      if leb required (prepared_size b)
      then b
      else if leb required (size_add b.committed_offset (prepared_size b))
      then moved
      else reallocated

unfoldable pub commit : ReadBuffer → ℕ → ReadBuffer
commit b n = record b { prepared_offset = b.prepared_offset + min n (prepared_size b) }

unfoldable pub consume : ReadBuffer → ℕ → ReadBuffer
consume b n = record b { committed_offset = b.committed_offset + min n (length (committed_area b)) }

-- The read that the caller makes into the prepared area, of bytes that fit.
unfoldable pub receive : ReadBuffer → List ℕ → ReadBuffer
receive b bytes = record b {
  memory =
      take b.prepared_offset b.memory
      ++ (bytes ++ drop (b.prepared_offset + length bytes) b.memory);
}
