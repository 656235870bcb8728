-- ===== src/Scram/Login.antt =====
-- src/scram_sha256_fsm.cpp: a login at a server that knows the password, as RFC 5802 has it.
use nativepg.Prelude.{
  ℕ, ◌+◌, ◌^◌, ◌<◌, ◌≤◌, ◌≡◌, refl, ap, sym, ◌∙◌, Bool, List, ◌∷◌, ◌++◌, Option, none, some, ◌⊎◌,
  inr, All, All-append, length, length-append, arith, ◌>>=◌,
}
use nativepg.Protocol.{Error}
use nativepg.Base64.RoundTrip.{IsByte}
use nativepg.Wire.{Endian, EndianLaws}
use nativepg.Wire.Frames.{frame}
use nativepg.Startup.{scram_sha256_name}
use nativepg.CharConv.{IsDigit, value_of}
use nativepg.Scram.{OpenSsl, CryptLaws, ComparesBytes}
use nativepg.Scram.Messages.{ServerFirstMessage, parse_server_first}
use nativepg.Scram.Fsm.{
  ScramSha256Fsm, answer, check_server_first, on_init_with, on_server_first, on_server_final,
}
use nativepg.Scram.Xor.{IsDigest, compute_xor_twice}
use nativepg.Scram.Proofs.{int_one, client_key, stored_key, client_proof, server_signature}
use nativepg.Scram.Numbers.{IsPrintable, IsBehind}
use nativepg.Scram.Printed.{server_first_text, server_final_text, parse_server_first_lem}
use nativepg.Scram.Serialized.{client_first_text, client_final_text, front-frame}
use nativepg.Scram.Exchange.{
  ServerAccepts, first_buffer, begun, on_init_lem, check_lem, answer_lem, auth_message_for,
}
use nativepg.Scram.Verified.{on_server_final_lem}

module _ {C : Type 0} (o : OpenSsl C) (hmac : List ℕ → List ℕ → List ℕ) (sha256 : List ℕ → List ℕ)
    (laws : CryptLaws o hmac sha256) (digests : (key bytes : List ℕ) → IsDigest (hmac key bytes))
    (compares : ComparesBytes o) (endian : Endian) (endian_laws : EndianLaws endian)
    (signed_char : Bool) where
  answers :
      (bytes password buffer : List ℕ) (f : ScramSha256Fsm) (c : C) (msg : ServerFirstMessage)
      → parse_server_first signed_char bytes ≡ some (inr msg)
      → check_server_first f msg ≡ none
      → on_server_first o endian signed_char bytes password buffer (f, c)
        ≡ answer o endian signed_char bytes password buffer msg (f, c)
  unfolding on_server_first
  answers bytes password buffer f c msg p h = rw p (rw (h, ◌>>=◌) refl)

  first_lem :
      (password n salt : List ℕ) (x : ℕ) (suffix : List ℕ) (d : ℕ) (ds behind : List ℕ)
      (f : ScramSha256Fsm) (c : C)
      → All IsPrintable n
      → All IsPrintable (x ∷ suffix)
      → All IsByte salt
      → length salt < 2 ^ 60
      → All IsDigit (d ∷ ds)
      → 0 < value_of 0 (d ∷ ds)
      → value_of 0 (d ∷ ds) < 2 ^ 16
      → IsBehind behind
      → on_server_first o endian signed_char
          (server_first_text (n ++ (x ∷ suffix)) salt (d ∷ ds) behind)
          password
          (first_buffer endian endian_laws n)
          (begun endian endian_laws n f, c)
        ≡ answer o endian signed_char
            (server_first_text (n ++ (x ∷ suffix)) salt (d ∷ ds) behind)
            password
            (first_buffer endian endian_laws n)
            (record {
              nonce = n ++ (x ∷ suffix);
              salt = salt;
              iteration_count = value_of 0 (d ∷ ds);
            })
            (begun endian endian_laws n f, c)
  first_lem password n salt x suffix d ds behind f c hn hx hs size hd low high b =
      answers _ password (first_buffer endian endian_laws n) (begun endian endian_laws n f) c _
        (parse_server_first_lem signed_char (n ++ (x ∷ suffix)) salt d ds behind
          (All-append IsPrintable n (x ∷ suffix) hn hx) hs size hd (omega (arith, high)) b)
        (check_lem (begun endian endian_laws n f) x suffix salt (value_of 0 (d ∷ ds)) low high)

  accepted :
      (password salt auth_message : List ℕ) (i : ℕ)
      → IsDigest (client_key hmac sha256 (int_one endian) password salt i)
      → ServerAccepts hmac sha256
          (stored_key hmac sha256 (int_one endian) password salt i)
          auth_message
          (client_proof hmac sha256 (int_one endian) password salt i auth_message)
  accepted password salt auth_message i (l, h) =
      let (l', h') =
        digests (stored_key hmac sha256 (int_one endian) password salt i) auth_message in
      ap sha256 (compute_xor_twice _ _ h h' (omega (arith, l, l')))

  -- A run of the machine from a buffer, and what the server makes of it: the nonce of the client and
  -- that of both, the server's first message, and what is behind its signature.
  abbrev pub RunSucceeds :
      (C → Option ((Error ⊎ List ℕ) × C))
      → List ℕ
      → List ℕ
      → List ℕ
      → List ℕ
      → ℕ
      → List ℕ
      → List ℕ
      → List ℕ
      → ScramSha256Fsm
      → C
      → Type 0
  RunSucceeds nonce_gen password n nonce salt i text more buffer f c =
      (b1 proof : List ℕ) × (s1 s2 : ScramSha256Fsm × C) × (b1
        ≡ frame endian b'p' (client_first_text endian endian_laws scram_sha256_name n))
      × (on_init_with o endian signed_char nonce_gen buffer (f, c) ≡ some (none, b1, s1))
      × (on_server_first o endian signed_char text password b1 s1
          ≡ some (none, frame endian b'p' (client_final_text nonce proof), s2))
      × ServerAccepts hmac sha256 (stored_key hmac sha256 (int_one endian) password salt i)
          (auth_message_for n nonce text) proof
      × (on_server_final o endian signed_char
            (server_final_text
              (server_signature hmac sha256 (int_one endian) password salt i
                (auth_message_for n nonce text))
              more)
            s2
          ≡ some none)

  -- The exchange, whatever the nonce generator, at a server that follows RFC 5802.
  pub login-Succeeds :
      (nonce_gen : C → Option ((Error ⊎ List ℕ) × C)) (password n salt : List ℕ) (x : ℕ)
      (suffix : List ℕ) (d : ℕ) (ds behind more buffer : List ℕ) (f : ScramSha256Fsm) (c c1 : C)
      → nonce_gen c ≡ some (inr n, c1)
      → All IsPrintable n
      → All IsPrintable (x ∷ suffix)
      → length n + length (x ∷ suffix) ≤ 2 ^ 20
      → All IsByte salt
      → length salt < 2 ^ 60
      → All IsDigit (d ∷ ds)
      → 0 < value_of 0 (d ∷ ds)
      → value_of 0 (d ∷ ds) < 2 ^ 16
      → IsBehind behind
      → IsBehind more
      → RunSucceeds nonce_gen password n
          (n ++ (x ∷ suffix))
          salt
          (value_of 0 (d ∷ ds))
          (server_first_text (n ++ (x ∷ suffix)) salt (d ∷ ds) behind)
          more
          buffer
          f
          c
  login-Succeeds nonce_gen password n salt x suffix d ds behind more buffer f c c1 g hn hx small hs
        size hd low high b m =
      let text = server_first_text (n ++ (x ∷ suffix)) salt (d ∷ ds) behind in
      let i = value_of 0 (d ∷ ds) in
      let auth = auth_message_for n (n ++ (x ∷ suffix)) text in
      let signature = server_signature hmac sha256 (int_one endian) password salt i auth in
      let digest : IsDigest signature = digests _ auth in
      let (c2, answered) =
        answer_lem o hmac sha256 laws digests endian endian_laws signed_char text password n
          (n ++ (x ∷ suffix)) salt i f c1 (omega (arith, length-append n (x ∷ suffix))) in
      (
        _,
        _,
        _,
        _,
        sym (front-frame endian endian_laws scram_sha256_name n),
        on_init_lem o hmac sha256 laws digests endian endian_laws signed_char nonce_gen buffer n f c
            c1 g (omega arith),
        first_lem password n salt x suffix d ds behind f c1 hn hx hs size hd low high b ∙ answered,
        accepted password salt auth i (digests _ _),
        (on_server_final_lem o endian signed_char compares _ c2 signature more digest.1
              (omega (arith, digest.0)) m).0
            refl,
      )
