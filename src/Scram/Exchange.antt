-- ===== src/Scram/Exchange.antt =====
-- src/scram_sha256_fsm.cpp: the exchange with a server that follows RFC 5802.
use nativepg.Prelude.{
  ℕ, ◌+◌, ◌^◌, ◌<◌, ◌≤◌, ◌≡◌, refl, pos, Bool, true, false, List, [], ◌∷◌, ◌++◌, Option, none, some,
  ◌⊎◌, inl, inr, length, length-append, arith, ltb, ◌==◌, ==_iff,
}
use nativepg.Protocol.{Error}
use nativepg.Base64.{encode}
use nativepg.Base64.RoundTrip.{length-encode}
use nativepg.Wire.{Endian, EndianLaws, SerializationContext, serialization_context, int32_max}
use nativepg.Wire.Frames.{frame, c_string}
use nativepg.Startup.{scram_sha256_name}
use nativepg.Scram.{OpenSsl, CryptLaws}
use nativepg.Scram.Crypt.{compute_xor, compute_proofs}
use nativepg.Scram.Messages.{gs2_header, binding_and_nonce, serialize_proof, proof_name}
use nativepg.Scram.Fsm.{
  ScramSha256Fsm, auth_message_of, on_init_with, with_proofs, answer, check_server_first,
  starts_with, nonce_is_empty,
}
use nativepg.Scram.Xor.{IsDigest, compute_xor-IsDigest}
use nativepg.Scram.Proofs.{int_one, client_proof, server_signature, compute_proofs-Returns}
use nativepg.Scram.Serialized.{
  bare_text, without_proof_text, client_final_text, client_first_text, front, span_bytes-append,
  serialize_proof_lem, serialize_client_first_lem,
}

-- What the server checks of a proof, with the key that it has stored.
abbrev pub ServerAccepts :
    (List ℕ → List ℕ → List ℕ) → (List ℕ → List ℕ) → List ℕ → List ℕ → List ℕ → Type 0
ServerAccepts hmac sha256 stored auth_message proof =
    sha256 (compute_xor proof (hmac stored auth_message)) ≡ stored

starts_with-append : (s t : List ℕ) → starts_with s (s ++ t) ≡ true
unfolding starts_with
starts_with-append [] t = refl
starts_with-append (c ∷ s) t = rw ((==_iff c c).1 refl) (starts_with-append s t)

nonce_is_empty-append : (s t : List ℕ) (x : ℕ) → nonce_is_empty (s ++ (x ∷ t)) ≡ false
nonce_is_empty-append [] t x = refl
nonce_is_empty-append (c ∷ s) t x = refl

-- A message with the client's nonce in front, and a count that is in range, passes.
pub check_lem :
    (f : ScramSha256Fsm) (x : ℕ) (suffix salt : List ℕ) (i : ℕ)
    → 0 < i
    → i < 2 ^ 16
    → check_server_first f
        (record { nonce = f.nonce ++ (x ∷ suffix); salt = salt; iteration_count = i })
      ≡ none
unfolding check_server_first
check_lem f x suffix salt i low high =
    rw
      (
        nonce_is_empty-append f.nonce suffix x,
        starts_with-append f.nonce (x ∷ suffix),
        positive,
        small,
      )
      refl
  where
    positive : (i == 0) ≡ false
    positive = ground (arith, low)

    small : ltb 65535 i ≡ false
    small = ground (arith, high)

-- The write buffer behind on_init, and the machine.
module _ (endian : Endian) (endian_laws : EndianLaws endian) where
  abbrev pub first_buffer : List ℕ → List ℕ
  first_buffer nonce = front endian endian_laws scram_sha256_name nonce ++ bare_text nonce

  abbrev pub begun : List ℕ → ScramSha256Fsm → ScramSha256Fsm
  begun n f = record f {
    nonce = n;
    client_first_msg =
        (length (front endian endian_laws scram_sha256_name n), length (first_buffer n));
  }

-- The message on which both sides compute.
abbrev pub auth_message_for : List ℕ → List ℕ → List ℕ → List ℕ
auth_message_for n nonce text = auth_message_of (bare_text n) text (without_proof_text nonce)

module _ {C : Type 0} (o : OpenSsl C) (hmac : List ℕ → List ℕ → List ℕ) (sha256 : List ℕ → List ℕ)
    (laws : CryptLaws o hmac sha256) (digests : (key bytes : List ℕ) → IsDigest (hmac key bytes))
    (endian : Endian) (endian_laws : EndianLaws endian) (signed_char : Bool) where
  first_small :
      (nonce : List ℕ)
      → length nonce ≤ 2 ^ 20
      → 4 + length (client_first_text endian endian_laws scram_sha256_name nonce) ≤ int32_max
  first_small nonce h = omega (
    arith,
    length-append (c_string scram_sha256_name) (
        endian.store_big_s32 (pos (length (gs2_header ++ bare_text nonce)))
        ++ (gs2_header ++ bare_text nonce)),
    length-append (endian.store_big_s32 (pos (length (gs2_header ++ bare_text nonce))))
        (gs2_header ++ bare_text nonce),
    endian_laws.store_size (pos (length (gs2_header ++ bare_text nonce))),
  )

  pub on_init_lem :
      (nonce_gen : C → Option ((Error ⊎ List ℕ) × C)) (buffer n : List ℕ) (f : ScramSha256Fsm)
      (c c1 : C)
      → nonce_gen c ≡ some (inr n, c1)
      → length n ≤ 2 ^ 20
      → on_init_with o endian signed_char nonce_gen buffer (f, c)
        ≡ some (none, first_buffer endian endian_laws n, (begun endian endian_laws n f, c1))
  unfolding on_init_with
  on_init_lem nonce_gen buffer n f c c1 generated small =
      rw
        (
          generated,
          serialize_client_first_lem endian endian_laws scram_sha256_name n (first_small n small),
        )
        refl

  proof_small :
      (nonce proof : List ℕ)
      → length nonce ≤ 2 ^ 20
      → length proof ≡ 32
      → 4 + length (client_final_text nonce proof) ≤ int32_max
  proof_small nonce proof h l = omega (
    arith,
    length-append nonce (proof_name ++ encode proof),
    length-append (without_proof_text nonce) (proof_name ++ encode proof),
    length-append binding_and_nonce nonce,
    length-encode proof,
  )

  with_proofs_lem :
      (ctx : SerializationContext) (f : ScramSha256Fsm) (r : (Error ⊎ (List ℕ × List ℕ)) × C)
      (proof signature bytes : List ℕ)
      → r.0 ≡ inr (proof, signature)
      → serialize_proof endian proof ctx ≡ some (none, bytes)
      → with_proofs o endian signed_char ctx f r
        ≡ some (none, bytes, (record f { server_signature = signature }, r.1))
  with_proofs_lem ctx f (inl e, c) proof signature bytes h s = absurd cc
  with_proofs_lem ctx f (inr (p, q), c) proof signature bytes h s =
      let hp : p ≡ proof = cc in let hq : q ≡ signature = cc in rw (hp, hq, s) refl

  pub proof-IsDigest :
      (password salt : List ℕ) (i : ℕ) (auth_message : List ℕ)
      → IsDigest (client_proof hmac sha256 (int_one endian) password salt i auth_message)
  proof-IsDigest password salt i auth_message =
      compute_xor-IsDigest _ _ (digests _ _) (digests _ auth_message)

  pub answer_lem :
      (text password n nonce salt : List ℕ) (i : ℕ) (f : ScramSha256Fsm) (c : C)
      → length nonce ≤ 2 ^ 20
      → (c2 : C) × (answer o endian signed_char text password
            (first_buffer endian endian_laws n)
            (record { nonce = nonce; salt = salt; iteration_count = i })
            (begun endian endian_laws n f, c)
          ≡ some (
            none,
            frame endian 112 (
                client_final_text nonce (
                  client_proof hmac sha256
                    (int_one endian)
                    password
                    salt
                    i
                    (auth_message_for n nonce text))),
            (
              record (begun endian endian_laws n f) {
                server_signature =
                    server_signature hmac sha256
                      (int_one endian)
                      password
                      salt
                      i
                      (auth_message_for n nonce text);
              },
              c2,
            ),
          ))
  unfolding answer serialization_context
  answer_lem text password n nonce salt i f c small =
      let auth = auth_message_for n nonce text in
      let proof = client_proof hmac sha256 (int_one endian) password salt i auth in
      let digest = proof-IsDigest password salt i auth in
      let run = compute_proofs o endian password salt i auth c in
      (
        run.1,
        rw (span_bytes-append (front endian endian_laws scram_sha256_name n) (bare_text n)) (
            with_proofs_lem _ (begun endian endian_laws n f) run proof _ _
              ((compute_proofs-Returns o hmac sha256 laws endian password salt i auth c).0)
              (serialize_proof_lem endian endian_laws nonce proof digest.1 (omega (arith, digest.0))
                (proof_small nonce proof small digest.0))),
      )
