-- ===== src/Scram/Messages.antt =====
-- src/nativepg_internal/scram_sha256_messages.hpp: the messages of SCRAM. `none` as the whole result
-- is a store outside of the buffer, or a read outside of the table of base64.
use nativepg.Prelude.{
  codes, ℕ, ◌-◌, ◌^◌, pos, Bool, ◌&&◌, ◌||◌, List, [], ◌∷◌, Option, none, some, ◌⊎◌, inl, inr,
  if◌then◌else◌, length, drop, ltb, leb, ◌==◌, ◌>>=◌,
}
use nativepg.Protocol.{
  Error, ErrorCode, client, value_too_big, invalid_scram_message,
  mandatory_scram_extension_not_supported,
}
use nativepg.CharConv.{Chars, number, from_chars}
use nativepg.Base64.{base64_encode, base64_decode}
use nativepg.Wire.{
  Endian, SerializationContext, serialization_context, add_error, add_bytes, add_string, add_header,
  overwrite, int32_max, finalize_message,
}

-- A span: where it begins and ends in the buffer that it points into.
abbrev pub Span : Type 0
Span = ℕ × ℕ

abbrev pub gs2_header : List ℕ
gs2_header = codes "n,,"

abbrev pub user_and_nonce : List ℕ
user_and_nonce = codes "n=,r="

abbrev pub binding_and_nonce : List ℕ
binding_and_nonce = codes "c=biws,r="

abbrev pub proof_name : List ℕ
proof_name = codes ",p="

module _ (endian : Endian) where
  -- What was written of client_first_message, with the size of its SASL part filled in.
  abbrev pub fill_size : ℕ → SerializationContext → Option SerializationContext
  fill_size length_offset c =
      let data_length = length c.buffer - length_offset - 4 in
      let stored : Option SerializationContext = do
        b ← overwrite length_offset (endian.store_big_s32 (pos data_length)) c.buffer
        some (record c { buffer = b })
      in if ltb int32_max data_length
        then some (add_error (some (client value_too_big)) c)
        else stored

  -- serialize(client_first_message): the code, the buffer, and client-first-message-bare, which is
  -- set where there is no error.
  unfoldable pub serialize_client_first :
      List ℕ → List ℕ → List ℕ → Option (ErrorCode × List ℕ × Span)
  serialize_client_first mechanism nonce to =
      let named = add_string mechanism (add_header b'p' (serialization_context to)) in
      let headed = add_bytes gs2_header (add_bytes (0 ∷ 0 ∷ 0 ∷ 0 ∷ []) named) in
      let all = add_bytes nonce (add_bytes user_and_nonce headed) in
      do
        sized ← fill_size (length named.buffer) all
        r ← finalize_message endian sized
        some (r.0, r.1, (length headed.buffer, length all.buffer))

  -- client_final_message_serializer: the header, and the message but for the proof.
  abbrev pub serialize_without_proof : List ℕ → SerializationContext → SerializationContext
  serialize_without_proof nonce ctx =
      add_bytes nonce (add_bytes binding_and_nonce (add_header b'p' ctx))

  -- client-final-message-without-proof, of the buffer that it was written to.
  abbrev pub without_proof_of : SerializationContext → SerializationContext → List ℕ
  without_proof_of before after = drop (length (add_header b'p' before).buffer) after.buffer

  unfoldable pub serialize_proof : List ℕ → SerializationContext → Option (ErrorCode × List ℕ)
  serialize_proof proof ctx =
      let named = add_bytes proof_name ctx in
      do
        encoded ← base64_encode proof named.buffer
        finalize_message endian (record named { buffer = encoded })

unfoldable pub scram_is_printable : ℕ → Bool
scram_is_printable c = (leb 33 c && leb c 43) || (leb 45 c && leb c 126)

-- `p == last || *p++ != c`: what is behind the character, if it is there.
unfoldable pub expect : ℕ → List ℕ → Option (List ℕ)
expect c [] = none
expect c (x ∷ xs) = if x == c then some xs else none

abbrev pub with_first : ℕ → Option (List ℕ × List ℕ) → Option (List ℕ × List ℕ)
with_first c r = do t ← r; some (c ∷ t.0, t.1)

-- The loops over the nonce and the salt, up to a comma that must be there, and what is behind it.
unfoldable pub take_nonce : List ℕ → Option (List ℕ × List ℕ)
take_nonce [] = none
take_nonce (c ∷ cs) =
    let rest = with_first c (take_nonce cs) in
    if c == b',' then some ([], cs) else if scram_is_printable c then rest else none

unfoldable pub take_salt : List ℕ → Option (List ℕ × List ℕ)
take_salt [] = none
take_salt (c ∷ cs) =
    let rest = with_first c (take_salt cs) in if c == b',' then some ([], cs) else rest

-- std::find of a comma.
unfoldable pub up_to_comma : List ℕ → List ℕ
up_to_comma [] = []
up_to_comma (c ∷ cs) = let rest = up_to_comma cs in if c == b',' then [] else c ∷ rest

-- server_first_message
pub record ServerFirstMessage : Type 0 where
  pub nonce : List ℕ
  pub salt : List ℕ
  pub iteration_count : ℕ

abbrev pub invalid : {A : Type 0} → Error ⊎ A
invalid = inl (client invalid_scram_message)

unfoldable pub nonce_part : List ℕ → Option (List ℕ × List ℕ)
nonce_part bytes = do a ← expect b'r' bytes; b ← expect b'=' a; take_nonce b

unfoldable pub salt_part : List ℕ → Option (List ℕ × List ℕ)
salt_part bytes = do a ← expect b's' bytes; b ← expect b'=' a; take_salt b

abbrev pub whole : Chars → Option ℕ
whole (number n []) = some n
whole _ = none

unfoldable pub iteration_part : List ℕ → Option ℕ
iteration_part bytes = do
  a ← expect b'i' bytes
  b ← expect b'=' a
  whole (from_chars (2 ^ 32) (up_to_comma b))

unfoldable pub signature_part : List ℕ → Option (List ℕ)
signature_part bytes = do a ← expect b'v' bytes; expect b'=' a

-- A message that begins with an 'm'.
abbrev pub reserved_mext : List ℕ → Error
reserved_mext bytes = elim (expect b',' bytes) [
  | none ↦ client invalid_scram_message
  | some rest ↦ client mandatory_scram_extension_not_supported
]

abbrev pub after_salt : List ℕ → List ℕ → ErrorCode × List ℕ → Error ⊎ ServerFirstMessage
after_salt nonce rest (some e, salt) = inl e
after_salt nonce rest (none, salt) = elim (iteration_part rest) [
  | none ↦ invalid
  | some count ↦ inr (record { nonce = nonce; salt = salt; iteration_count = count })
]

abbrev pub decoded_signature : ErrorCode × List ℕ → Error ⊎ List ℕ
decoded_signature (some e, signature) = inl e
decoded_signature (none, signature) = inr signature

module _ (signed_char : Bool) where
  abbrev pub after_nonce : List ℕ × List ℕ → Option (Error ⊎ ServerFirstMessage)
  after_nonce (nonce, rest) = elim (salt_part rest) [
    | none ↦ some invalid
    | some (encoded, more) ↦ do
      salt ← base64_decode signed_char encoded []
      some (after_salt nonce more salt)
  ]

  -- parse(server_first_message)
  unfoldable pub parse_server_first : List ℕ → Option (Error ⊎ ServerFirstMessage)
  parse_server_first bytes =
      let plain : Option (Error ⊎ ServerFirstMessage) = elim (nonce_part bytes) [
        | none ↦ some invalid
        | some r ↦ after_nonce r
      ] in
      elim (expect b'm' bytes) [ some rest ↦ some (inl (reserved_mext rest)) | none ↦ plain ]

  -- parse(server_final_message): the server's signature.
  unfoldable pub parse_server_final : List ℕ → Option (Error ⊎ List ℕ)
  parse_server_final bytes = elim (signature_part bytes) [
    | none ↦ some invalid
    | some rest ↦ do r ← base64_decode signed_char (up_to_comma rest) []; some (decoded_signature r)
  ]
