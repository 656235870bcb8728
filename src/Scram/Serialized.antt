-- ===== src/Scram/Serialized.antt =====
-- src/nativepg_internal/scram_sha256_messages.hpp: the messages of the client are frames, with the
-- parts that RFC 5802 defines.
use nativepg.Prelude.{
  ℕ, ◌+◌, ◌-◌, ◌^◌, ◌<◌, ◌≤◌, ◌≡◌, ◌∙◌, refl, sym, ap, ap₂, pos, List, [], ◌∷◌, ◌++◌, none, some,
  true, false, All, length, length-append, take, take-append_length, drop-append_length, append-nil,
  append_assoc, ltb, le→leb, arith,
}
use nativepg.Base64.{encode}
use nativepg.Base64.RoundTrip.{IsByte, base64_decode-encode}
use nativepg.Wire.{
  Endian, EndianLaws, SerializationContext, serialization_context, int32_max, overwrite,
}
use nativepg.Wire.Frames.{frame, c_string, finalize-frame, overwrite-append}
use nativepg.Scram.Messages.{
  Span, gs2_header, user_and_nonce, binding_and_nonce, proof_name, serialize_client_first,
  fill_size, serialize_without_proof, serialize_proof, without_proof_of,
}
use nativepg.Scram.Fsm.{span_bytes}

-- client-first-message-bare and client-final-message-without-proof.
abbrev pub bare_text : List ℕ → List ℕ
bare_text nonce = user_and_nonce ++ nonce

abbrev pub without_proof_text : List ℕ → List ℕ
without_proof_text nonce = binding_and_nonce ++ nonce

-- The body of the message that carries a proof.
abbrev pub client_final_text : List ℕ → List ℕ → List ℕ
client_final_text nonce proof = without_proof_text nonce ++ (proof_name ++ encode proof)

-- The span of a buffer between what is in front of it and what is behind it.
pub span_bytes-append :
    (front bytes : List ℕ)
    → span_bytes (length front, length (front ++ bytes)) (front ++ bytes) ≡ some bytes
unfolding span_bytes
span_bytes-append front bytes =
    rw
      (
        le→leb (length front) (length (front ++ bytes)) (omega (arith, length-append front bytes)),
        le→leb (length (front ++ bytes)) (length (front ++ bytes)) (omega arith),
        drop-append_length front bytes,
        size,
      )
      (ap some (ap (take (length bytes)) (sym (append-nil bytes)) ∙ take-append_length bytes []))
  where
    size : length (front ++ bytes) - length front ≡ length bytes
    size = omega (arith, length-append front bytes)

module _ (endian : Endian) (laws : EndianLaws endian) where
  -- The body of the first message.
  abbrev pub client_first_text : List ℕ → List ℕ → List ℕ
  client_first_text mechanism nonce =
      c_string mechanism
      ++ (endian.store_big_s32 (pos (length (gs2_header ++ bare_text nonce)))
          ++ (gs2_header ++ bare_text nonce))

  abbrev without_proof_context : List ℕ → SerializationContext
  without_proof_context nonce = serialize_without_proof endian nonce (serialization_context [])

  pub without_proof_lem :
      (nonce : List ℕ)
      → without_proof_of endian (serialization_context []) (without_proof_context nonce)
        ≡ without_proof_text nonce
  unfolding serialization_context
  without_proof_lem nonce = refl

  -- The last message of the client is a frame of a password message, with the nonce and the proof
  -- in base64.
  pub serialize_proof_lem :
      (nonce proof : List ℕ)
      → All IsByte proof
      → length proof < 2 ^ 60
      → 4 + length (client_final_text nonce proof) ≤ int32_max
      → serialize_proof endian proof (without_proof_context nonce)
        ≡ some (none, frame endian b'p' (client_final_text nonce proof))
  unfolding serialize_proof serialization_context
  serialize_proof_lem nonce proof h size small =
      rw
        ((base64_decode-encode true proof ((without_proof_context nonce).buffer ++ proof_name) [] h
          size).0)
        (finalize-frame endian laws _ [] (client_final_text nonce proof) b'p' (simp append_assoc)
          (omega arith) small)

  -- What stands in front of client-first-message-bare.
  abbrev pub front : List ℕ → List ℕ → List ℕ
  front mechanism nonce =
      b'p'
      ∷ (endian.store_big_s32 (pos (4 + length (client_first_text mechanism nonce)))
          ++ (c_string mechanism
              ++ (endian.store_big_s32 (pos (length (gs2_header ++ bare_text nonce)))
                  ++ gs2_header)))

  pub front-frame :
      (mechanism nonce : List ℕ)
      → frame endian b'p' (client_first_text mechanism nonce)
        ≡ front mechanism nonce ++ bare_text nonce
  front-frame mechanism nonce = simp append_assoc refl

  abbrev named_buffer : List ℕ → List ℕ
  named_buffer mechanism = b'p' ∷ 0 ∷ 0 ∷ 0 ∷ 0 ∷ c_string mechanism

  abbrev zeros : List ℕ
  zeros = 0 ∷ 0 ∷ 0 ∷ 0 ∷ []

  abbrev headed_buffer : List ℕ → List ℕ
  headed_buffer mechanism = (named_buffer mechanism ++ zeros) ++ gs2_header

  abbrev all_buffer : List ℕ → List ℕ → List ℕ
  all_buffer mechanism nonce = (headed_buffer mechanism ++ user_and_nonce) ++ nonce

  abbrev context_of : List ℕ → SerializationContext
  context_of b = record { buffer = b; header_offset = 0; err = none }

  abbrev filled_buffer : List ℕ → List ℕ → List ℕ
  filled_buffer mechanism nonce =
      named_buffer mechanism
      ++ (endian.store_big_s32 (pos (length (gs2_header ++ bare_text nonce)))
          ++ (gs2_header ++ bare_text nonce))

  all_lem :
      (mechanism nonce : List ℕ)
      → all_buffer mechanism nonce
        ≡ named_buffer mechanism ++ (zeros ++ (gs2_header ++ bare_text nonce))
  all_lem mechanism nonce = simp append_assoc refl

  -- The size is filled in, whatever is around it.
  fill_size_lem :
      (c : SerializationContext) (named rest : List ℕ)
      → c.buffer ≡ named ++ (zeros ++ rest)
      → length rest ≤ int32_max
      → fill_size endian (length named) c
        ≡ some (record c { buffer = named ++ (endian.store_big_s32 (pos (length rest)) ++ rest) })
  fill_size_lem c named rest e small = rw (size, fits, stored) refl
    where
      size : length c.buffer - length named - 4 ≡ length rest
      size = omega (arith, ap length e, length-append named (zeros ++ rest))

      fits : ltb int32_max (length rest) ≡ false
      fits = ground (arith, small)

      stored :
          overwrite (length named) (endian.store_big_s32 (pos (length rest))) c.buffer
          ≡ some (named ++ (endian.store_big_s32 (pos (length rest)) ++ rest))
      stored =
          ap (overwrite (length named) (endian.store_big_s32 (pos (length rest)))) e
          ∙ overwrite-append named zeros (endian.store_big_s32 (pos (length rest))) rest
              (sym (laws.store_size (pos (length rest))))

  length-headed :
      (mechanism nonce : List ℕ) → length (headed_buffer mechanism) ≡ length (front mechanism nonce)
  length-headed mechanism nonce = omega (
    arith,
    length-append (named_buffer mechanism ++ zeros) gs2_header,
    length-append (named_buffer mechanism) zeros,
    length-append (endian.store_big_s32 (pos (4 + length (client_first_text mechanism nonce)))) (
        c_string mechanism
        ++ (endian.store_big_s32 (pos (length (gs2_header ++ bare_text nonce))) ++ gs2_header)),
    length-append (c_string mechanism)
        (endian.store_big_s32 (pos (length (gs2_header ++ bare_text nonce))) ++ gs2_header),
    length-append (endian.store_big_s32 (pos (length (gs2_header ++ bare_text nonce)))) gs2_header,
    laws.store_size (pos (4 + length (client_first_text mechanism nonce))),
    laws.store_size (pos (length (gs2_header ++ bare_text nonce))),
  )

  length-all :
      (mechanism nonce : List ℕ)
      → length (all_buffer mechanism nonce) ≡ length (front mechanism nonce ++ bare_text nonce)
  length-all mechanism nonce = omega (
    arith,
    length-append (headed_buffer mechanism ++ user_and_nonce) nonce,
    length-append (headed_buffer mechanism) user_and_nonce,
    length-append (front mechanism nonce) (bare_text nonce),
    length-append user_and_nonce nonce,
    length-headed mechanism nonce,
  )

  rest_small :
      (mechanism nonce : List ℕ)
      → 4 + length (client_first_text mechanism nonce) ≤ int32_max
      → length (gs2_header ++ bare_text nonce) ≤ int32_max
  rest_small mechanism nonce small = omega (
    arith,
    length-append (c_string mechanism) (
        endian.store_big_s32 (pos (length (gs2_header ++ bare_text nonce)))
        ++ (gs2_header ++ bare_text nonce)),
    length-append (endian.store_big_s32 (pos (length (gs2_header ++ bare_text nonce))))
        (gs2_header ++ bare_text nonce),
  )

  -- The first message of the client is a frame of a password message, with the mechanism and its
  -- SASL part behind that part's size; the span that is handed out is client-first-message-bare.
  pub serialize_client_first_lem :
      (mechanism nonce : List ℕ)
      → 4 + length (client_first_text mechanism nonce) ≤ int32_max
      → serialize_client_first endian mechanism nonce []
        ≡ some (
          none,
          front mechanism nonce ++ bare_text nonce,
          (length (front mechanism nonce), length (front mechanism nonce ++ bare_text nonce)),
        )
  unfolding serialize_client_first serialization_context
  serialize_client_first_lem mechanism nonce small =
      rw
        (
          fill_size_lem (context_of (all_buffer mechanism nonce)) (named_buffer mechanism)
              (gs2_header ++ bare_text nonce) (all_lem mechanism nonce)
              (rest_small mechanism nonce small),
          finalize-frame endian laws (filled_buffer mechanism nonce) []
              (client_first_text mechanism nonce) b'p' refl (omega arith) small,
        )
        (ap₂ (λ b (s : Span). some (none, b, s)) (front-frame mechanism nonce)
          (ap₂ (λ (x y : ℕ). (x, y)) (length-headed mechanism nonce) (length-all mechanism nonce)))
