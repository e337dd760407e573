-- ===== src/Shard/Bytes.antt =====
-- modules/token_shard.cpp, `put_u32` to `get_u64` and `write_zeros`, and
-- detail/little_endian_io.hpp: numbers as bytes, the lowest byte first.
pub mod Codec
pub mod Streams
use sparse_branch_machine.Base.{
  ℕ, zero, suc, ◌+◌, ◌-◌, ◌*◌, ◌/◌, ◌%◌, ◌^◌, ◌<◌, ◌≡◌, min, bit_or, List, [], ◌∷◌, ◌++◌, length,
  get_or, set, replicate, take, drop, Result, ok, diverge, ◌>>=◌, if◌then◌else◌, ltb, ◌==◌,
}

-- The byte at a position; a `uint8_t` is below 256.
abbrev pub byte_at : List ℕ → ℕ → ℕ
byte_at bytes k = get_or bytes k 0 % 256

-- The loops of `put_u32` and `put_u64`: `rounds` bytes are left, from `index` on.
unfoldable pub put_loop : ℕ → ℕ → List ℕ → ℕ → ℕ → List ℕ
put_loop zero index header offset value = header
put_loop (suc rounds) index header offset value =
    put_loop rounds (index + 1) (set header (offset + index) ((value / 2 ^ (index * 8)) % 256))
      offset value

abbrev pub put_u32 : List ℕ → ℕ → ℕ → List ℕ
put_u32 header offset value = put_loop 4 0 header offset value

abbrev pub put_u64 : List ℕ → ℕ → ℕ → List ℕ
put_u64 header offset value = put_loop 8 0 header offset value

-- The loops of `get_u32` and `get_u64`, at a pointer into the bytes.
unfoldable pub get_loop : ℕ → ℕ → List ℕ → ℕ → ℕ → ℕ
get_loop zero index bytes offset value = value
get_loop (suc rounds) index bytes offset value =
    get_loop rounds (index + 1) bytes offset
      (bit_or value (byte_at bytes (offset + index) * 2 ^ (index * 8)))

abbrev pub get_u32 : List ℕ → ℕ → ℕ
get_u32 bytes offset = get_loop 4 0 bytes offset 0

abbrev pub get_u64 : List ℕ → ℕ → ℕ
get_u64 bytes offset = get_loop 8 0 bytes offset 0

-- `write_little_endian`: the bytes of one value, and the buffer of a run of values.
unfoldable pub value_bytes : ℕ → ℕ → ℕ → List ℕ
value_bytes zero byte value = []
value_bytes (suc rounds) byte value =
    ((value / 2 ^ (byte * 8)) % 256) ∷ value_bytes rounds (byte + 1) value

unfoldable pub buffer_of : ℕ → List ℕ → List ℕ
buffer_of width [] = []
buffer_of width (x ∷ xs) = value_bytes width 0 x ++ buffer_of width xs

-- Its loop over full buffers of `16 * 1024` bytes. The position rises in each round.
unfoldable pub write_loop : ℕ → ℕ → List ℕ → List ℕ → Result (List ℕ)
write_loop zero width values output = diverge
write_loop (suc fuel) width values output =
    let count = min (16384 / width) (length values) in
    let rest =
      write_loop fuel width (drop count values) (output ++ buffer_of width (take count values)) in
    if ltb 0 (length values) then rest else ok output

unfoldable pub write_little_endian : ℕ → List ℕ → List ℕ → Result (List ℕ)
unfolding write_loop
write_little_endian width values output = write_loop (suc (length values)) width values output

-- `write_zeros`, by chunks of at most 64 bytes.
unfoldable pub zeros_loop : ℕ → ℕ → List ℕ → Result (List ℕ)
zeros_loop zero count output = diverge
zeros_loop (suc fuel) count output =
    let chunk = min count 64 in
    let rest = zeros_loop fuel (count - chunk) (output ++ replicate chunk 0) in
    if ltb 0 count then rest else ok output

unfoldable pub write_zeros : ℕ → List ℕ → Result (List ℕ)
unfolding zeros_loop
write_zeros count output = zeros_loop (suc count) count output
