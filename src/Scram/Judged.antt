-- ===== src/Scram/Judged.antt =====
-- src/scram_sha256_fsm.cpp: what scram_sha256_fsm makes of any final message.
use nativepg.Prelude.{
  ℕ, ◌≡◌, ◌≢◌, ◌⊎◌, refl, ◌∙◌, ap, ap₂, Bool, List, [], ◌∷◌, ◌++◌, Option, none, some, inl, inr,
  All, ◌==◌, ==_iff, ◌>>=◌, >>=-eq-some, Bool-cases, subst,
}
use nativepg.Protocol.{Error, ErrorCode, client, scram_invalid_server_signature}
use nativepg.Base64.{base64_decode}
use nativepg.Wire.{Endian}
use nativepg.Scram.{OpenSsl, ComparesBytes}
use nativepg.Scram.Crypt.{crypto_equal}
use nativepg.Scram.Messages.{
  expect, signature_part, up_to_comma, decoded_signature, parse_server_final, invalid,
}
use nativepg.Scram.Fsm.{ScramSha256Fsm, on_server_final, judge}
use nativepg.Scram.Numbers.{NotComma, IsBehind, up_to_comma-append}
use nativepg.Scram.Verified.{crypto_equal_lem}

-- A final message that carries a signature: "v=", its base64 up to a comma or the end, and nothing
-- or extensions behind it.
abbrev pub Signed : Bool → List ℕ → List ℕ → Type 0
Signed signed_char signature bytes =
    (text : List ℕ) × (behind : List ℕ) × (bytes ≡ b'v' ∷ b'=' ∷ (text ++ behind))
    × All NotComma text
    × IsBehind behind
    × (base64_decode signed_char text [] ≡ some (none, signature))

pub expect_lem : (c : ℕ) (xs : List ℕ) {ys : List ℕ} → expect c xs ≡ some ys → xs ≡ c ∷ ys
unfolding expect
expect_lem c [] h = cc
expect_lem c (x ∷ xs) {ys} h = elim (Bool-cases (x == c)) [
  | inl y ↦
      let e : ◌≡◌ {A = Option (List ℕ)} (some xs) (some ys) = (rw y at h) in
      ap₂ (λ a l. a ∷ l) ((==_iff x c).0 y) (cc)
  | inr n ↦ let e : ◌≡◌ {A = Option (List ℕ)} none (some ys) = (rw n at h) in cc
]

pub signature_part_lem :
    (bytes : List ℕ) {rest : List ℕ} → signature_part bytes ≡ some rest → bytes ≡ b'v' ∷ b'=' ∷ rest
unfolding signature_part
signature_part_lem bytes h =
    let (a, v, e) = >>=-eq-some (expect b'v' bytes) (expect b'=') h in
    expect_lem b'v' bytes v ∙ ap (λ l. b'v' ∷ l) (expect_lem b'=' a e)

pub up_to_comma-split :
    (rest : List ℕ)
    → (behind : List ℕ) × (rest ≡ up_to_comma rest ++ behind)
      × All NotComma (up_to_comma rest)
      × IsBehind behind
unfolding up_to_comma
up_to_comma-split [] = ([], refl, tt, tt)
up_to_comma-split (c ∷ rest) =
    let (behind, split, others, b) = up_to_comma-split rest in
    elim (Bool-cases (c == b',')) [
      | inl y ↦ rw y (c ∷ rest, refl, tt, (==_iff c b',').0 y)
      | inr n ↦ rw n (behind, ap (λ l. c ∷ l) split, (n, others), b)
    ]

module _ (signed_char : Bool) where
  Signed-parsed :
      (signature bytes : List ℕ)
      → Signed signed_char signature bytes
      → parse_server_final signed_char bytes ≡ some (inr signature)
  unfolding parse_server_final signature_part expect
  Signed-parsed signature bytes (text, behind, split, others, b, decoded) =
      rw (split, up_to_comma-append text behind others b, decoded) refl

  decoded_lem :
      (r : ErrorCode × List ℕ) {signature : List ℕ}
      → ◌≡◌ {A = Error ⊎ List ℕ} (decoded_signature r) (inr signature)
      → r ≡ (none, signature)
  decoded_lem (none, s) h = ap₂ (λ (a : ErrorCode) (b : List ℕ). (a, b)) refl cc
  decoded_lem (some e, s) h = cc

  parsed-Signed :
      (bytes : List ℕ) {signature : List ℕ}
      → parse_server_final signed_char bytes ≡ some (inr signature)
      → Signed signed_char signature bytes
  unfolding parse_server_final
  parsed-Signed bytes {signature} h = by_part (signature_part bytes) refl h
    where
      by_part :
          (part : Option (List ℕ))
          → signature_part bytes ≡ part
          → ◌≡◌ {A = Option (Error ⊎ List ℕ)}
              (elim part [
                | none ↦ some invalid
                | some rest ↦ base64_decode signed_char (up_to_comma rest) [] >>= λ r.
                    some (decoded_signature r)
              ])
              (some (inr signature))
          → Signed signed_char signature bytes
      by_part none e g = cc
      by_part (some rest) e g =
          let (r, decoded, e') =
            >>=-eq-some (base64_decode signed_char (up_to_comma rest) []) _ g in
          let (behind, split, others, b) = up_to_comma-split rest in
          (
            up_to_comma rest,
            behind,
            signature_part_lem bytes e ∙ ap (λ l. b'v' ∷ b'=' ∷ l) split,
            others,
            b,
            decoded ∙ ap some (decoded_lem r (cc)),
          )

  -- What an answer says of the message.
  abbrev pub Judged : List ℕ → List ℕ → Option ErrorCode → Type 0
  Judged expected bytes none = (signature : List ℕ) → ¬ Signed signed_char signature bytes
  Judged expected bytes (some none) = Signed signed_char expected bytes
  Judged expected bytes (some (some e)) =
      ((signature : List ℕ) × Signed signed_char signature bytes
        × (signature ≢ expected)
        × (e ≡ client scram_invalid_server_signature))
      ⊎ ((signature : List ℕ) → ¬ Signed signed_char signature bytes)

module _ {C : Type 0} (o : OpenSsl C) (endian : Endian) (signed_char : Bool)
    (compares : ComparesBytes o) where
  judge-Judged :
      (f : ScramSha256Fsm) (bytes signature : List ℕ)
      → Signed signed_char signature bytes
      → Judged signed_char f.server_signature bytes (some (judge o endian signed_char f signature))
  judge-Judged f bytes signature s =
      let same = crypto_equal_lem o endian signed_char compares signature f.server_signature in
      elim (Bool-cases (crypto_equal o signature f.server_signature)) [
        | inl y ↦ rw y (subst (λ l. Signed signed_char l bytes) (same.0 y) s)
        | inr n ↦ rw n (inl (signature, s, (λ e. cc (same.1 e)), refl))
      ]

  -- Any final message at all, where CRYPTO_memcmp compares as documented: on_server_final reports
  -- success exactly where the message carries the signature that was computed; that the signature
  -- is invalid where it carries another; and an error for every message that carries none. A read
  -- outside of the table of base64 is possible for such a message only.
  pub on_server_final-Judged :
      (f : ScramSha256Fsm) (c : C) (bytes : List ℕ)
      → Judged signed_char f.server_signature bytes
          (on_server_final o endian signed_char bytes (f, c))
  unfolding on_server_final
  on_server_final-Judged f c bytes = by_parse (parse_server_final signed_char bytes) refl
    where
      by_parse :
          (p : Option (Error ⊎ List ℕ))
          → parse_server_final signed_char bytes ≡ p
          → Judged signed_char f.server_signature bytes (
              p >>= λ parsed. some (elim parsed [
                | inl e ↦ some e
                | inr signature ↦ judge o endian signed_char f signature
              ]))
      by_parse none e = λ s h. cc (Signed-parsed signed_char s bytes h)
      by_parse (some (inl x)) e = inr (λ s h. cc (Signed-parsed signed_char s bytes h))
      by_parse (some (inr s)) e = judge-Judged f bytes s (parsed-Signed signed_char bytes e)
