-- ===== src/Scram/InMemory.antt =====
-- src/scram_sha256_fsm.cpp: scram_sha256_fsm stays inside of memory, whatever the server sends and
-- whichever calls of OpenSSL fail.
use nativepg.Prelude.{
  pos, ℕ, ◌+◌, ◌^◌, ◌<◌, ◌≤◌, ◌≡◌, Bool, true, false, List, [], ◌∷◌, ◌++◌, Option, none, some, ◌⊎◌,
  inl, inr, All, length, length-append, arith, le→leb, if◌then◌else◌, ◌>>=◌, Bool-cases,
}
use nativepg.Protocol.{Error, ErrorCode}
use nativepg.Base64.{encode}
use nativepg.Base64.RoundTrip.{length-encode, base64_encode_lem}
use nativepg.Base64.Safety.{IsSafe}
use nativepg.Wire.{
  Endian, EndianLaws, serialization_context, overwrite, int32_max, finalize_message,
}
use nativepg.Startup.{scram_sha256_name}
use nativepg.Connect.Defined.{IsSome, IsSome_lem, bind-IsSome, Leaves, IsDefined}
use nativepg.Scram.{OpenSsl}
use nativepg.Scram.Crypt.{generate_nonce}
use nativepg.Scram.Messages.{
  gs2_header, serialize_client_first, serialize_proof, serialize_without_proof, ServerFirstMessage,
  parse_server_first, parse_server_final,
}
use nativepg.Scram.Serialized.{
  front, bare_text, client_first_text, serialize_client_first_lem, span_bytes-append,
}
use nativepg.Scram.Fsm.{
  ScramSha256Fsm, Left, span_bytes, with_proofs, answer, check_server_first, on_init, on_init_with,
  with_client_first, on_server_first, on_server_final, scram_sha256_fsm,
}
use nativepg.Scram.ProofSizes.{WritesSizes, Results, IsShort, compute_proofs-ShortProof}
use nativepg.Scram.ReadInside.{parse_server_first-IsSome, parse_server_final-IsSome}

abbrev no_error : ErrorCode
no_error = none

module _ (endian : Endian) (laws : EndianLaws endian) where
  stored-IsSome :
      (a b c d t n : ℕ) (rest : List ℕ)
      → IsSome {A = ErrorCode × List ℕ} (
          overwrite 1 (endian.store_big_s32 (pos n)) (t ∷ a ∷ b ∷ c ∷ d ∷ rest) >>= λ buffer.
          some (no_error, buffer))
  unfolding overwrite
  stored-IsSome a b c d t n rest =
      rw (laws.store_size (pos n), le→leb 5 (length (t ∷ a ∷ b ∷ c ∷ d ∷ rest)) (omega arith)) tt

  choice-IsSome :
      {A : Type 0} (b : Bool) (x : A) (o : Option A) → IsSome o → IsSome (if b then some x else o)
  choice-IsSome true x o h = tt
  choice-IsSome false x o h = h

  finalize-IsSome :
      (e : ErrorCode) (a b c d t : ℕ) (rest : List ℕ)
      → IsSome (
          finalize_message endian
            (record { buffer = t ∷ a ∷ b ∷ c ∷ d ∷ rest; header_offset = 0; err = e }))
  unfolding finalize_message
  finalize-IsSome (some e) a b c d t rest = tt
  finalize-IsSome none a b c d t rest = choice-IsSome _ _ _ (stored-IsSome a b c d t _ rest)

  serialize_proof-IsSome :
      (nonce proof : List ℕ)
      → IsShort proof
      → IsSome (
          serialize_proof endian proof
            (serialize_without_proof endian nonce (serialization_context [])))
  unfolding serialize_proof serialization_context
  serialize_proof-IsSome nonce proof short =
      rw (base64_encode_lem proof _ (omega (arith, short)), IsSome)
        (finalize-IsSome none 0 0 0 0 b'p' _)

module _ {C : Type 0} (o : OpenSsl C) (sizes : WritesSizes o) (endian : Endian)
    (laws : EndianLaws endian) (signed_char : Bool) where
  -- The span that the machine keeps is inside of the write buffer.
  abbrev pub Kept : List ℕ → ScramSha256Fsm × C → Type 0
  Kept buffer (f, c) = IsSome (span_bytes f.client_first_msg buffer)

  greeted :
      (raw : List ℕ) (f : ScramSha256Fsm) (c : C)
      → length raw ≡ 18
      → Leaves Kept (do
        r ← serialize_client_first endian scram_sha256_name (encode raw) []
        some (with_client_first o endian signed_char (record f { nonce = encode raw }) c r))
  greeted raw f c size =
      let nonce = encode raw in
      let small : 4 + length (client_first_text endian laws scram_sha256_name nonce) ≤ int32_max =
        omega (
          arith,
          size,
          length-encode raw,
          length-append (endian.store_big_s32 (pos (length (gs2_header ++ bare_text nonce))))
              (gs2_header ++ bare_text nonce),
          laws.store_size (pos (length (gs2_header ++ bare_text nonce))),
        ) in
      let f1 = front endian laws scram_sha256_name nonce in
      let kept : IsSome
          (span_bytes (length f1, length (f1 ++ bare_text nonce)) (f1 ++ bare_text nonce)) =
        (rw (span_bytes-append f1 (bare_text nonce), IsSome) tt) in
      rw (serialize_client_first_lem endian laws scram_sha256_name nonce small, Leaves) kept

  pub on_init_greets :
      (buffer : List ℕ) (s : ScramSha256Fsm × C)
      → Leaves Kept (on_init o endian signed_char buffer s)
  unfolding on_init_with generate_nonce
  on_init_greets buffer (f, c) = elim (Bool-cases (o.rand_bytes 18 c).0) [
    | inl y ↦
        let size = sizes.rand_bytes_size 18 c in
        rw (y, base64_encode_lem (o.rand_bytes 18 c).1 [] (omega (arith, size)))
          (greeted (o.rand_bytes 18 c).1 f (o.rand_bytes 18 c).2 size)
    | inr n ↦ rw n tt
  ]

  proofs-IsSome :
      (nonce : List ℕ) (f : ScramSha256Fsm) (r : (Error ⊎ (List ℕ × List ℕ)) × C)
      → Results (λ p. IsShort p.0) r
      → IsSome (
          with_proofs o endian signed_char
            (serialize_without_proof endian nonce (serialization_context []))
            f
            r)
  proofs-IsSome nonce f (inl e, c) h = tt
  proofs-IsSome nonce f (inr (proof, signature), c) h =
      bind-IsSome (serialize_proof endian proof _) _
        (serialize_proof-IsSome endian laws nonce proof h)

  answer-IsSome :
      (bytes password buffer : List ℕ) (msg : ServerFirstMessage) (f : ScramSha256Fsm) (c : C)
      → Kept buffer (f, c)
      → IsSome (answer o endian signed_char bytes password buffer msg (f, c))
  unfolding answer serialization_context
  answer-IsSome bytes password buffer msg f c kept =
      let (bare, e) = IsSome_lem (span_bytes f.client_first_msg buffer) kept in
      rw (e, IsSome)
        (proofs-IsSome msg.nonce f _
          (compute_proofs-ShortProof o sizes endian password msg.salt msg.iteration_count _ c))

  checked-IsSome :
      (bytes password buffer : List ℕ) (msg : ServerFirstMessage) (f : ScramSha256Fsm) (c : C)
      (ec : ErrorCode)
      → Kept buffer (f, c)
      → IsSome (elim ec [
        | some e ↦ some (some e, buffer, (f, c))
        | none ↦ answer o endian signed_char bytes password buffer msg (f, c)
      ])
  checked-IsSome bytes password buffer msg f c none kept =
      answer-IsSome bytes password buffer msg f c kept
  checked-IsSome bytes password buffer msg f c (some e) kept = tt

  pub first-IsSome :
      (bytes password buffer : List ℕ) (s : ScramSha256Fsm × C)
      → length bytes < 2 ^ 62
      → All (IsSafe signed_char) bytes
      → Kept buffer s
      → IsSome (on_server_first o endian signed_char bytes password buffer s)
  unfolding on_server_first
  first-IsSome bytes password buffer (f, c) small safe kept =
      by_parse (parse_server_first signed_char bytes)
        (parse_server_first-IsSome signed_char bytes (safe, small))
    where
      by_parse :
          (p : Option (Error ⊎ ServerFirstMessage))
          → IsSome p
          → IsSome {A = Left o endian signed_char} (
              p >>= λ parsed. elim parsed [
                | inl e ↦ some (some e, buffer, (f, c))
                | inr msg ↦ elim (check_server_first f msg) [
                  | some e ↦ some (some e, buffer, (f, c))
                  | none ↦ answer o endian signed_char bytes password buffer msg (f, c)
                ]
              ])
      by_parse none h = h
      by_parse (some (inl e)) h = tt
      by_parse (some (inr msg)) h =
          checked-IsSome bytes password buffer msg f c (check_server_first f msg) kept

  pub final-IsSome :
      (bytes : List ℕ) (s : ScramSha256Fsm × C)
      → length bytes < 2 ^ 62
      → All (IsSafe signed_char) bytes
      → IsSome (on_server_final o endian signed_char bytes s)
  unfolding on_server_final
  final-IsSome bytes (f, c) small safe =
      bind-IsSome (parse_server_final signed_char bytes) _
        (parse_server_final-IsSome signed_char bytes (safe, small))

  -- scram_sha256_fsm never leaves its memory, where OpenSSL writes what it is asked for, on
  -- characters that are ASCII where char is signed.
  abbrev pub stays_in_memory : IsDefined (scram_sha256_fsm o endian signed_char)
  stays_in_memory = record {
    Greeted = Kept;
    IsSafe = IsSafe signed_char;
    on_init_greets = on_init_greets;
    on_server_first_some = λ m p b s small safe kept. first-IsSome m p b s small safe kept;
    on_server_final_some = final-IsSome;
  }
