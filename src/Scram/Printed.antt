-- ===== src/Scram/Printed.antt =====
-- src/nativepg_internal/scram_sha256_messages.hpp: what the server's messages, written as RFC 5802
-- says, are parsed to.
use nativepg.Prelude.{ℕ, ◌^◌, ◌<◌, ◌≡◌, refl, Bool, List, [], ◌∷◌, ◌++◌, some, inr, All, length}
use nativepg.Base64.{encode}
use nativepg.Base64.RoundTrip.{IsByte, base64_decode-encode}
use nativepg.CharConv.{IsDigit, value_of, from_chars-digits}
use nativepg.Scram.Messages.{
  expect, nonce_part, salt_part, iteration_part, signature_part, after_nonce, after_salt,
  parse_server_first, parse_server_final,
}
use nativepg.Scram.Numbers.{
  IsPrintable, IsBehind, take_nonce-append, take_salt-append, up_to_comma-append, digits-NotComma,
  encode-NotComma,
}

-- "i=" and the count, with what is behind it.
abbrev count_text : List ℕ → List ℕ → List ℕ
count_text digits behind = b'i' ∷ b'=' ∷ (digits ++ behind)

abbrev salt_text : List ℕ → List ℕ → List ℕ
salt_text salt more = b's' ∷ b'=' ∷ (encode salt ++ (b',' ∷ more))

abbrev nonce_text : List ℕ → List ℕ → List ℕ
nonce_text nonce rest = b'r' ∷ b'=' ∷ (nonce ++ (b',' ∷ rest))

-- "r=<nonce>,s=<salt>,i=<count>"
abbrev pub server_first_text : List ℕ → List ℕ → List ℕ → List ℕ → List ℕ
server_first_text nonce salt digits behind =
    nonce_text nonce (salt_text salt (count_text digits behind))

-- "v=<signature>"
abbrev pub server_final_text : List ℕ → List ℕ → List ℕ
server_final_text signature behind = b'v' ∷ b'=' ∷ (encode signature ++ behind)

iteration_lem :
    (d : ℕ) (ds behind : List ℕ)
    → All IsDigit (d ∷ ds)
    → value_of 0 (d ∷ ds) < 2 ^ 32
    → IsBehind behind
    → iteration_part (count_text (d ∷ ds) behind) ≡ some (value_of 0 (d ∷ ds))
unfolding iteration_part expect
iteration_lem d ds behind h small b =
    rw
      (
        up_to_comma-append (d ∷ ds) behind (digits-NotComma (d ∷ ds) h) b,
        from_chars-digits (2 ^ 32) d ds h small,
      )
      refl

salt_lem :
    (salt more : List ℕ)
    → All IsByte salt
    → salt_part (salt_text salt more) ≡ some (encode salt, more)
unfolding salt_part expect
salt_lem salt more h = take_salt-append (encode salt) more (encode-NotComma salt h)

nonce_lem :
    (nonce rest : List ℕ)
    → All IsPrintable nonce
    → nonce_part (nonce_text nonce rest) ≡ some (nonce, rest)
unfolding nonce_part expect
nonce_lem nonce rest h = take_nonce-append nonce rest h

module _ (signed_char : Bool) where
  -- A server-first message as RFC 5802 writes it, extensions behind it included, with a count that
  -- has 32 bits, is parsed to its nonce, its salt and its count, whether char is signed or not.
  pub parse_server_first_lem :
      (nonce salt : List ℕ) (d : ℕ) (ds behind : List ℕ)
      → All IsPrintable nonce
      → All IsByte salt
      → length salt < 2 ^ 60
      → All IsDigit (d ∷ ds)
      → value_of 0 (d ∷ ds) < 2 ^ 32
      → IsBehind behind
      → parse_server_first signed_char (server_first_text nonce salt (d ∷ ds) behind)
        ≡ some (inr (record { nonce = nonce; salt = salt; iteration_count = value_of 0 (d ∷ ds) }))
  unfolding parse_server_first expect
  parse_server_first_lem nonce salt d ds behind hn hs size hd small b =
      rw (nonce_lem nonce (salt_text salt (count_text (d ∷ ds) behind)) hn, parse_server_first)
        (rw (salt_lem salt (count_text (d ∷ ds) behind) hs, after_nonce)
          (rw ((base64_decode-encode signed_char salt [] [] hs size).1)
            (rw (iteration_lem d ds behind hd small b, after_salt) refl)))

  pub parse_server_final_lem :
      (signature behind : List ℕ)
      → All IsByte signature
      → length signature < 2 ^ 60
      → IsBehind behind
      → parse_server_final signed_char (server_final_text signature behind) ≡ some (inr signature)
  unfolding parse_server_final signature_part expect
  parse_server_final_lem signature behind h size b =
      rw
        (
          up_to_comma-append (encode signature) behind (encode-NotComma signature h) b,
          (base64_decode-encode signed_char signature [] [] h size).1,
        )
        refl
