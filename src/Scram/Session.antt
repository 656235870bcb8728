-- ===== src/Scram/Session.antt =====
-- src/startup_fsm.cpp with src/scram_sha256_fsm.cpp: a whole authentication with SCRAM, from the
-- server's demand to the first ready_for_query.
use nativepg.Prelude.{
  ℕ, ◌^◌, ◌<◌, ◌≡◌, refl, ap, Bool, true, List, [], ◌∷◌, ◌++◌, Option, none, some, inr, All, length,
  arith, ◌>>=◌, ◌∙◌,
}
use nativepg.Protocol.{ErrorCode, BackendMessage, Kind}
use nativepg.Base64.{encode}
use nativepg.Base64.RoundTrip.{IsByte, base64_decode-encode, length-encode}
use nativepg.Wire.{Endian, EndianLaws}
use nativepg.Wire.Frames.{frame}
use nativepg.Startup.{
  scram_sha256_name, supports_scram_sha256, ScramFsm, ConnectParams, ResumePoint, StartupFsm,
  StartupResult, done, read, write, resume, handle_auth_response,
}
use nativepg.CharConv.{IsDigit, value_of}
use nativepg.Scram.{OpenSsl, CryptLaws, ComparesBytes}
use nativepg.Scram.Crypt.{generate_nonce, encoded_nonce, output}
use nativepg.Scram.Fsm.{ScramSha256Fsm, scram_sha256_fsm}
use nativepg.Scram.Xor.{IsDigest}
use nativepg.Scram.Proofs.{int_one, stored_key, server_signature}
use nativepg.Scram.Numbers.{IsPrintable, IsBehind, encode-IsPrintable}
use nativepg.Scram.Printed.{server_first_text, server_final_text}
use nativepg.Scram.Serialized.{client_first_text, client_final_text}
use nativepg.Scram.Exchange.{ServerAccepts, auth_message_for}
use nativepg.Scram.Login.{login-Succeeds}

-- What the machine asks of its caller.
pub data Event : Type 0 where
  sent : List ℕ → Event
  asked : Event
  ended : ErrorCode → Event

abbrev event : {S : Type 0} → StartupResult × StartupFsm S → Event
event (done ec, f) = ended ec
event (read, f) = asked
event (write, f) = sent f.write_buffer

abbrev message : Kind → List ℕ → BackendMessage
message kind body = record { kind = kind; body = body }

abbrev no_message : BackendMessage
no_message = message Kind.none_kind []

module _ {S : Type 0} (scram_fsm : ScramFsm S) (endian : Endian) (params : ConnectParams) where
  -- The events of a machine that is handed one message after the other.
  abbrev pub events : List BackendMessage → StartupFsm S → Option (List Event)
  events [] f = some []
  events (m ∷ ms) f = do
    r ← resume scram_fsm endian params m f
    es ← events ms r.1
    some (event r ∷ es)

-- The messages that the machine is handed: those of the server, and none behind a write.
abbrev pub session : List ℕ → List ℕ → List ℕ → List ℕ → List BackendMessage
session mechanisms server_first server_final status =
    message Kind.authentication_sasl mechanisms
    ∷ no_message
    ∷ message Kind.authentication_sasl_continue server_first
    ∷ no_message
    ∷ message Kind.authentication_sasl_final server_final
    ∷ message Kind.authentication_ok []
    ∷ message Kind.ready_for_query status
    ∷ []

module _ {C : Type 0} (o : OpenSsl C) where
  random_lem :
      (raw : List ℕ) (c c1 : C)
      → o.rand_bytes 18 c ≡ (true, raw, c1)
      → output o (o.rand_bytes 18) c ≡ (inr raw, c1)
  random_lem raw c c1 h = rw (h, output) refl

  nonce_lem :
      (raw : List ℕ) (c c1 : C)
      → o.rand_bytes 18 c ≡ (true, raw, c1)
      → length raw ≡ 18
      → All IsByte raw
      → generate_nonce o c ≡ some (inr (encode raw), c1)
  unfolding generate_nonce
  nonce_lem raw c c1 h l b =
      ap encoded_nonce (random_lem raw c c1 h)
      ∙ rw ((base64_decode-encode true raw [] [] b (omega (arith, l))).0) refl

module _ {S : Type 0} (scram_fsm : ScramFsm S) (endian : Endian) (params : ConnectParams) where
  -- A machine whose SCRAM goes well.
  session-events :
      (mechanisms server_first server_final status first b1 b2 : List ℕ) (f : StartupFsm S)
      (s1 s2 : S)
      → b1 ≡ first
      → supports_scram_sha256 mechanisms ≡ true
      → scram_fsm.on_init f.write_buffer f.scram ≡ some (none, b1, s1)
      → scram_fsm.on_server_first server_first params.password b1 s1 ≡ some (none, b2, s2)
      → scram_fsm.on_server_final server_final s2 ≡ some none
      → events scram_fsm endian params
          (session mechanisms server_first server_final status)
          (record f { point = ResumePoint.read_first })
        ≡ some (sent first ∷ asked ∷ sent b2 ∷ asked ∷ asked ∷ asked ∷ ended none ∷ [])
  unfolding resume handle_auth_response
  session-events mechanisms server_first server_final status first b1 b2 f s1 s2 e h e1 e2 e3 =
      rw (h, e1, e2, e3)
        (ap (λ l. some (sent l ∷ asked ∷ sent b2 ∷ asked ∷ asked ∷ asked ∷ ended none ∷ [])) e)

module _ {C : Type 0} (o : OpenSsl C) (hmac : List ℕ → List ℕ → List ℕ) (sha256 : List ℕ → List ℕ)
    (laws : CryptLaws o hmac sha256) (digests : (key bytes : List ℕ) → IsDigest (hmac key bytes))
    (compares : ComparesBytes o) (endian : Endian) (endian_laws : EndianLaws endian)
    (signed_char : Bool) where
  -- The events of a login, with the proof that the machine sends.
  abbrev pub SessionSucceeds :
      ConnectParams
      → List ℕ
      → List ℕ
      → List ℕ
      → ℕ
      → List ℕ
      → List ℕ
      → List ℕ
      → List ℕ
      → StartupFsm (ScramSha256Fsm × C)
      → Type 0
  SessionSucceeds params n nonce salt i server_first mechanisms more status f =
      (proof : List ℕ) × ServerAccepts hmac sha256
        (stored_key hmac sha256 (int_one endian) params.password salt i)
        (auth_message_for n nonce server_first) proof
      × (events (scram_sha256_fsm o endian signed_char) endian params
            (session mechanisms server_first
              (server_final_text
                (server_signature hmac sha256 (int_one endian) params.password salt i
                  (auth_message_for n nonce server_first))
                more)
              status)
            (record f { point = ResumePoint.read_first })
          ≡ some (
              sent (frame endian 112 (client_first_text endian endian_laws scram_sha256_name n))
              ∷ asked
              ∷ sent (frame endian 112 (client_final_text nonce proof))
              ∷ asked
              ∷ asked
              ∷ asked
              ∷ ended none
              ∷ []))

  -- A whole login. Where the calls of OpenSSL succeed, write 18 random bytes, and are HMAC-SHA-256,
  -- SHA-256 and a comparison of bytes, and integers are stored as documented: startup_fsm_impl, from
  -- the server's demand for SASL with SCRAM-SHA-256 among its mechanisms on, with any password, at a
  -- server that follows RFC 5802, has stored the keys of that password, appends a printable nonce
  -- of at least one character and of a sensible size, and asks for 1 to 2 ^ 16 - 1 rounds. It sends
  -- two messages, the first with a nonce of its own and the second with a proof that the server
  -- accepts, finds the server's signature right, and ends with success at ready_for_query.
  pub session-Succeeds :
      (params : ConnectParams) (raw salt : List ℕ) (x : ℕ) (suffix : List ℕ) (d : ℕ)
      (ds behind more mechanisms status : List ℕ) (f : StartupFsm (ScramSha256Fsm × C)) (c1 : C)
      → supports_scram_sha256 mechanisms ≡ true
      → o.rand_bytes 18 f.scram.1 ≡ (true, raw, c1)
      → length raw ≡ 18
      → All IsByte raw
      → All IsPrintable (x ∷ suffix)
      → length (x ∷ suffix) < 2 ^ 19
      → All IsByte salt
      → length salt < 2 ^ 60
      → All IsDigit (d ∷ ds)
      → 0 < value_of 0 (d ∷ ds)
      → value_of 0 (d ∷ ds) < 2 ^ 16
      → IsBehind behind
      → IsBehind more
      → SessionSucceeds params
          (encode raw)
          (encode raw ++ (x ∷ suffix))
          salt
          (value_of 0 (d ∷ ds))
          (server_first_text (encode raw ++ (x ∷ suffix)) salt (d ∷ ds) behind)
          mechanisms
          more
          status
          f
  session-Succeeds params raw salt x suffix d ds behind more mechanisms status f c1 supported random
        size bytes hx small hs salt_size hd low high b m =
      let (b1, proof, s1, s2, sent_first, e1, e2, accepted, e3) =
        login-Succeeds o hmac sha256 laws digests compares endian endian_laws signed_char
          (generate_nonce o) params.password (encode raw) salt x suffix d ds behind more
          f.write_buffer f.scram.0 f.scram.1 c1 (nonce_lem o raw f.scram.1 c1 random size bytes)
          (encode-IsPrintable raw bytes) hx (omega (arith, length-encode raw, size, small)) hs
          salt_size hd low high b m in
      (
        proof,
        accepted,
        session-events (scram_sha256_fsm o endian signed_char) endian params mechanisms
            (server_first_text (encode raw ++ (x ∷ suffix)) salt (d ∷ ds) behind) _ status _ b1 _ f
            s1 s2 sent_first supported e1 e2 e3,
      )
