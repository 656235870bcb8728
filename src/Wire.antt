-- ===== src/Wire.antt =====
-- The bytes of the protocol: include/nativepg/protocol/detail/serialization_context.hpp, the
-- serialize functions of src/messages.cpp for the messages that a client sends, and the framing of
-- the messages that it gets. A string is its bytes. Integers are big-endian.
pub mod Messages
pub mod Bind
pub mod Framing
pub mod Integers
pub mod Frames
pub mod BindFrames
pub mod Delimiting
pub mod Headless
pub mod Oversized
mod Tests
use nativepg.Prelude.{
  ℕ, suc, ◌+◌, ◌-◌, ◌*◌, ◌/◌, ◌%◌, ◌^◌, ℤ, pos, negsuc, Bool, true, false, List, [], ◌∷◌, ◌++◌,
  Option, none, some, if◌then◌else◌, length, take, drop, ltb, leb, ◌>>=◌, ◌<◌, ◌≡◌,
}
use nativepg.Protocol.{ErrorCode, client, value_too_big}

-- A conversion of a number of 32 bits to its unsigned type.
abbrev pub to_unsigned : ℕ → ℤ → ℕ
to_unsigned bound (pos n) = n % bound
to_unsigned bound (negsuc n) = bound - 1 - n % bound

-- The functions of boost::endian that are called; a store writes into bytes that are there.
pub record Endian : Type 0 where
  pub store_big_s16 : ℤ → List ℕ
  pub store_big_s32 : ℤ → List ℕ
  pub load_big_s16 : ℕ → ℕ → ℤ
  pub load_big_s32 : ℕ → ℕ → ℕ → ℕ → ℤ

-- The numbers of std::int16_t.
abbrev pub IsInt16 : ℤ → Type 0
IsInt16 (pos n) = n < 2 ^ 15
IsInt16 (negsuc n) = n < 2 ^ 15

-- The numbers of std::int32_t.
abbrev pub IsInt32 : ℤ → Type 0
IsInt32 (pos n) = n < 2 ^ 31
IsInt32 (negsuc n) = n < 2 ^ 31

-- What is documented of them: two or four bytes are written, and they are read back.
pub record EndianLaws (endian : Endian) : Type 0 where
  pub store_size : (z : ℤ) → length (endian.store_big_s32 z) ≡ 4
  pub read_back :
      (z : ℤ)
      → IsInt32 z
      → (a b c d : ℕ) × (endian.store_big_s32 z ≡ a ∷ b ∷ c ∷ d ∷ [])
        × (endian.load_big_s32 a b c d ≡ z)
  pub read_back_16 :
      (z : ℤ)
      → IsInt16 z
      → (a b : ℕ) × (endian.store_big_s16 z ≡ a ∷ b ∷ []) × (endian.load_big_s16 a b ≡ z)
  pub load_range :
      (a b c d : ℕ) → a < 256 → b < 256 → c < 256 → d < 256 → IsInt32 (endian.load_big_s32 a b c d)

-- serialization_context, with the buffer that it writes to.
pub record SerializationContext : Type 0 where
  pub buffer : List ℕ
  pub header_offset : ℕ
  pub err : ErrorCode

abbrev pub no_header : ℕ
no_header = 2 ^ 64 - 1

unfoldable pub serialization_context : List ℕ → SerializationContext
serialization_context buff = record { buffer = buff; header_offset = no_header; err = none }

unfoldable pub add_error : ErrorCode → SerializationContext → SerializationContext
add_error ec c = record c { err = elim c.err [ some e ↦ some e | none ↦ ec ] }

abbrev pub add_bytes : List ℕ → SerializationContext → SerializationContext
add_bytes contents c = record c { buffer = c.buffer ++ contents }

abbrev pub add_byte : ℕ → SerializationContext → SerializationContext
add_byte byte = add_bytes (byte ∷ [])

abbrev pub add_string : List ℕ → SerializationContext → SerializationContext
add_string s c = add_byte 0 (add_bytes s c)

abbrev pub add_header : ℕ → SerializationContext → SerializationContext
add_header msg_type c =
    add_bytes (0 ∷ 0 ∷ 0 ∷ 0 ∷ [])
      (add_byte msg_type (record c { header_offset = length c.buffer }))

-- A store into the buffer: none where it is outside.
unfoldable pub overwrite : ℕ → List ℕ → List ℕ → Option (List ℕ)
overwrite offset bytes buffer =
    if leb (offset + length bytes) (length buffer)
    then some (take offset buffer ++ (bytes ++ drop (offset + length bytes) buffer))
    else none

abbrev pub int32_max : ℕ
int32_max = 2 ^ 31 - 1

-- The code, and what is in the buffer. The offsets are of std::size_t.
abbrev pub Serialized : Type 0
Serialized = Option (ErrorCode × List ℕ)

module _ (endian : Endian) where
  abbrev pub add_int16 : ℤ → SerializationContext → SerializationContext
  add_int16 z = add_bytes (endian.store_big_s16 z)

  abbrev pub add_int32 : ℤ → SerializationContext → SerializationContext
  add_int32 z = add_bytes (endian.store_big_s32 z)

  unfoldable pub finalize_message : SerializationContext → Serialized
  finalize_message c =
      let size = (length c.buffer + (2 ^ 64 - c.header_offset) + (2 ^ 64 - 1)) % 2 ^ 64 in
      let stored : Serialized = do
        buffer ←
            overwrite ((c.header_offset + 1) % 2 ^ 64) (endian.store_big_s32 (pos size)) c.buffer
        some (none, buffer)
      in let sized : Serialized = if ltb int32_max size then some (c.err, c.buffer) else stored in
        elim c.err [ some e ↦ some (some e, c.buffer) | none ↦ sized ]
