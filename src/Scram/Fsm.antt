-- ===== src/Scram/Fsm.antt =====
-- src/scram_sha256_fsm.cpp and include/nativepg/protocol/detail/scram_sha256_fsm.hpp:
-- scram_sha256_fsm, with the write buffer that it shares with its caller, and the state of OpenSSL.
use nativepg.Prelude.{
  ℕ, ◌-◌, Bool, true, false, ◌&&◌, ◌||◌, not, List, [], ◌∷◌, ◌++◌, Option, none, some, ◌⊎◌, inl,
  inr, if◌then◌else◌, length, take, drop, ltb, leb, ◌==◌, ◌>>=◌,
}
use nativepg.Protocol.{
  Error, ErrorCode, client, protocol_value_error, scram_invalid_nonce,
  scram_invalid_server_signature,
}
use nativepg.Wire.{Endian, SerializationContext, serialization_context}
use nativepg.Startup.{ScramFsm, scram_sha256_name}
use nativepg.Scram.{OpenSsl}
use nativepg.Scram.Crypt.{compute_proofs, generate_nonce, crypto_equal}
use nativepg.Scram.Messages.{
  Span, serialize_client_first, serialize_without_proof, without_proof_of, serialize_proof,
  ServerFirstMessage, parse_server_first, parse_server_final,
}

-- scram_sha256_fsm. client_first_msg_ points into the write buffer.
pub record ScramSha256Fsm : Type 0 where
  pub nonce : List ℕ
  pub client_first_msg : Span
  pub server_signature : List ℕ

-- The bytes of a span, as the buffer that it points into is now.
unfoldable pub span_bytes : Span → List ℕ → Option (List ℕ)
span_bytes (first, last) buffer =
    if leb first last && leb last (length buffer)
    then some (take (last - first) (drop first buffer))
    else none

abbrev pub nonce_is_empty : List ℕ → Bool
nonce_is_empty [] = true
nonce_is_empty (c ∷ cs) = false

-- Whether the second begins with the first.
unfoldable pub starts_with : List ℕ → List ℕ → Bool
starts_with [] s = true
starts_with (p ∷ ps) [] = false
starts_with (p ∷ ps) (c ∷ cs) = (p == c) && starts_with ps cs

-- AuthMessage
abbrev pub auth_message_of : List ℕ → List ℕ → List ℕ → List ℕ
auth_message_of bare bytes without_proof = bare ++ (b',' ∷ (bytes ++ (b',' ∷ without_proof)))

-- What on_server_first makes of a message: an error, or none.
unfoldable pub check_server_first : ScramSha256Fsm → ServerFirstMessage → ErrorCode
check_server_first f msg =
    if nonce_is_empty msg.nonce || not (starts_with f.nonce msg.nonce)
    then some (client scram_invalid_nonce)
    else if (msg.iteration_count == 0) || ltb 65535 msg.iteration_count
    then some (client protocol_value_error)
    else none

module _ {C : Type 0} (o : OpenSsl C) (endian : Endian) (signed_char : Bool) where
  -- What a function of the machine leaves: the code, the write buffer, the machine and OpenSSL.
  abbrev pub Left : Type 0
  Left = ErrorCode × List ℕ × (ScramSha256Fsm × C)

  abbrev pub with_client_first : ScramSha256Fsm → C → ErrorCode × List ℕ × Span → Left
  with_client_first f c (none, b, s) = (none, b, (record f { client_first_msg = s }, c))
  with_client_first f c (some e, b, s) = (some e, b, (f, c))

  -- on_init with a nonce generator.
  unfoldable pub on_init_with :
      (C → Option ((Error ⊎ List ℕ) × C)) → List ℕ → ScramSha256Fsm × C → Option Left
  on_init_with nonce_gen write_buffer (f, c) = do
    generated ← nonce_gen c
    elim generated.0 [
      | inl e ↦ some (some e, write_buffer, (f, generated.1))
      | inr n ↦ do
        r ← serialize_client_first endian scram_sha256_name n []
        some (with_client_first (record f { nonce = n }) generated.1 r)
    ]

  abbrev pub on_init : List ℕ → ScramSha256Fsm × C → Option Left
  on_init = on_init_with (generate_nonce o)

  -- From the proofs on, with the buffer as it is before them.
  abbrev pub with_proofs :
      SerializationContext → ScramSha256Fsm → (Error ⊎ (List ℕ × List ℕ)) × C → Option Left
  with_proofs ctx f (inl e, c) = some (some e, ctx.buffer, (f, c))
  with_proofs ctx f (inr (proof, signature), c) = do
    r ← serialize_proof endian proof ctx
    some (r.0, r.1, (record f { server_signature = signature }, c))

  -- A server-first message whose nonce and count were checked.
  unfoldable pub answer :
      List ℕ → List ℕ → List ℕ → ServerFirstMessage → ScramSha256Fsm × C → Option Left
  answer bytes password write_buffer msg (f, c) = do
    bare ← span_bytes f.client_first_msg write_buffer
    let before = serialization_context []
    let ctx = serialize_without_proof endian msg.nonce before
    let auth_message = auth_message_of bare bytes (without_proof_of endian before ctx)
    elim ctx.err [
      | some e ↦ some (some e, ctx.buffer, (f, c))
      | none ↦
          with_proofs ctx f
            (compute_proofs o endian password msg.salt msg.iteration_count auth_message c)
    ]

  unfoldable pub on_server_first : List ℕ → List ℕ → List ℕ → ScramSha256Fsm × C → Option Left
  on_server_first bytes password write_buffer (f, c) = do
    parsed ← parse_server_first signed_char bytes
    elim parsed [
      | inl e ↦ some (some e, write_buffer, (f, c))
      | inr msg ↦ elim (check_server_first f msg) [
        | some e ↦ some (some e, write_buffer, (f, c))
        | none ↦ answer bytes password write_buffer msg (f, c)
      ]
    ]

  abbrev pub judge : ScramSha256Fsm → List ℕ → ErrorCode
  judge f signature =
      if crypto_equal o signature f.server_signature
      then none
      else some (client scram_invalid_server_signature)

  unfoldable pub on_server_final : List ℕ → ScramSha256Fsm × C → Option ErrorCode
  on_server_final bytes (f, c) = do
    parsed ← parse_server_final signed_char bytes
    some (elim parsed [ inl e ↦ some e | inr signature ↦ judge f signature ])

  -- The machine as startup_fsm_impl uses it.
  abbrev pub scram_sha256_fsm : ScramFsm (ScramSha256Fsm × C)
  scram_sha256_fsm = record {
    on_init = on_init;
    on_server_first = on_server_first;
    on_server_final = on_server_final;
  }
