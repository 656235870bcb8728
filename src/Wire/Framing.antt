-- ===== src/Wire/Framing.antt =====
-- parse_header and message_missing_bytes of src/messages.cpp: where a message of the server ends.
use nativepg.Prelude.{
  Bool, true, ℕ, ◌+◌, ◌-◌, ◌%◌, ◌^◌, ℤ, pos, negsuc, List, ◌∷◌, ◌⊎◌, inl, inr, if◌then◌else◌,
  length, ltb,
}
use nativepg.Protocol.{Error, client, protocol_value_error}
use nativepg.Wire.{Endian, to_unsigned}

-- message_header
pub record MessageHeader : Type 0 where
  pub type : ℕ
  pub size : ℤ

-- `size < 4`
abbrev pub is_below_4 : ℤ → Bool
is_below_4 (pos n) = ltb n 4
is_below_4 (negsuc n) = true

-- The length of the message without its type, as the unsigned 32-bit `header.size + 1u`.
abbrev pub required_size : MessageHeader → ℕ
required_size h = (to_unsigned (2 ^ 32) h.size + 1) % 2 ^ 32

unfoldable pub missing_of : ℕ → Error ⊎ MessageHeader → ℕ
missing_of size (inl e) = 0
missing_of size (inr h) = if ltb size (required_size h) then required_size h - size else 0

module _ (endian : Endian) where
  unfoldable pub parse_header : ℕ → ℕ → ℕ → ℕ → ℕ → Error ⊎ MessageHeader
  parse_header msg_type a b c d =
      let size = endian.load_big_s32 a b c d in
      if is_below_4 size
      then inl (client protocol_value_error)
      else inr (record { type = msg_type; size = size })

  unfoldable pub message_missing_bytes : List ℕ → ℕ
  unfolding missing_of
  message_missing_bytes (t ∷ a ∷ b ∷ c ∷ d ∷ rest) =
      missing_of (length rest + 5) (parse_header t a b c d)
  message_missing_bytes bytes = 5 - length bytes
