-- ===== src/Scram/ReadInside.antt =====
-- src/nativepg_internal/scram_sha256_messages.hpp: the parsers stay inside of the server's messages and
-- of the table of base64.
use nativepg.Prelude.{
  ℕ, ◌^◌, ◌<◌, ◌≡◌, refl, ap, ◌∙◌, subst, Bool, true, List, [], ◌∷◌, ◌++◌, Option, none, some, inl,
  inr, All, length, length-append, arith, ◌>>=◌, Bool-cases, Option-cases, >>=-eq-some, some_inj,
  ◌==◌, ==_iff, All-append_left, All-append_right,
}
use nativepg.Protocol.{ErrorCode}
use nativepg.Base64.{base64_decode}
use nativepg.Base64.Safety.{IsSafe, base64_decode-Answered}
use nativepg.Base64.Safety
use nativepg.Connect.Defined.{IsSome}
use nativepg.Scram.Messages.{
  gs2_header, serialize_client_first, serialize_proof, serialize_without_proof, ServerFirstMessage,
  expect, nonce_part, salt_part, take_nonce, take_salt, with_first, scram_is_printable, after_nonce,
  after_salt, parse_server_first, signature_part, up_to_comma, parse_server_final,
}
use nativepg.Scram.Messages
use nativepg.Scram.Judged.{expect_lem, signature_part_lem, up_to_comma-split}
use nativepg.Scram.Serialized.{front}

-- The pieces that the loops take are pieces of the message.
first_split :
    (c : ℕ) (cs : List ℕ) (o : Option (List ℕ × List ℕ)) {r : List ℕ × List ℕ}
    → with_first c o ≡ some r
    → ((t : List ℕ × List ℕ) → o ≡ some t → cs ≡ t.0 ++ (b',' ∷ t.1))
    → c ∷ cs ≡ r.0 ++ (b',' ∷ r.1)
first_split c cs none h later = cc
first_split c cs (some t) h later =
    ap (λ l. c ∷ l) (later t refl) ∙ ap (λ t. t.0 ++ (b',' ∷ t.1)) (some_inj h)

comma_split :
    (c : ℕ) (cs : List ℕ) {r : List ℕ × List ℕ}
    → (c == b',') ≡ true
    → ◌≡◌ {A = Option (List ℕ × List ℕ)} (some ([], cs)) (some r)
    → c ∷ cs ≡ r.0 ++ (b',' ∷ r.1)
comma_split c cs y h =
    ap (λ x. x ∷ cs) ((==_iff c b',').0 y) ∙ ap (λ t. t.0 ++ (b',' ∷ t.1)) (some_inj h)

take_nonce-split :
    (cs : List ℕ) {r : List ℕ × List ℕ} → take_nonce cs ≡ some r → cs ≡ r.0 ++ (b',' ∷ r.1)
unfolding take_nonce
take_nonce-split [] h = cc
take_nonce-split (c ∷ cs) {r} h = elim (Bool-cases (c == b',')) [
  | inl y ↦ comma_split c cs y (rw y at h)
  | inr n ↦ elim (Bool-cases (scram_is_printable c)) [
    | inl p ↦ first_split c cs (take_nonce cs) (rw (n, p) at h) (λ t e. take_nonce-split cs e)
    | inr p ↦ let q : ◌≡◌ {A = Option (List ℕ × List ℕ)} none (some r) = (rw (n, p) at h) in cc
  ]
]

take_salt-split :
    (cs : List ℕ) {r : List ℕ × List ℕ} → take_salt cs ≡ some r → cs ≡ r.0 ++ (b',' ∷ r.1)
unfolding take_salt
take_salt-split [] h = cc
take_salt-split (c ∷ cs) {r} h = elim (Bool-cases (c == b',')) [
  | inl y ↦ comma_split c cs y (rw y at h)
  | inr n ↦ first_split c cs (take_salt cs) (rw n at h) (λ t e. take_salt-split cs e)
]

nonce_part-split :
    (bytes : List ℕ) {r : List ℕ × List ℕ}
    → nonce_part bytes ≡ some r
    → bytes ≡ b'r' ∷ b'=' ∷ (r.0 ++ (b',' ∷ r.1))
unfolding nonce_part
nonce_part-split bytes h =
    let (a, ea, g) = >>=-eq-some (expect b'r' bytes) _ h in
    let (b, eb, k) = >>=-eq-some (expect b'=' a) _ g in
    expect_lem b'r' bytes ea
    ∙ ap (λ l. b'r' ∷ l) (expect_lem b'=' a eb)
    ∙ ap (λ l. b'r' ∷ b'=' ∷ l) (take_nonce-split b k)

salt_part-split :
    (bytes : List ℕ) {r : List ℕ × List ℕ}
    → salt_part bytes ≡ some r
    → bytes ≡ b's' ∷ b'=' ∷ (r.0 ++ (b',' ∷ r.1))
unfolding salt_part
salt_part-split bytes h =
    let (a, ea, g) = >>=-eq-some (expect b's' bytes) _ h in
    let (b, eb, k) = >>=-eq-some (expect b'=' a) _ g in
    expect_lem b's' bytes ea
    ∙ ap (λ l. b's' ∷ l) (expect_lem b'=' a eb)
    ∙ ap (λ l. b's' ∷ b'=' ∷ l) (take_salt-split b k)

module _ (signed_char : Bool) where
  -- Text that base64_decode may be given.
  abbrev IsFine : List ℕ → Type 0
  IsFine text = All (IsSafe signed_char) text × (length text < 2 ^ 62)

  IsFine-prefix : (front behind : List ℕ) → IsFine (front ++ behind) → IsFine front
  IsFine-prefix front behind (safe, small) = (
    All-append_left (IsSafe signed_char) front behind safe,
    omega (arith, length-append front behind, small),
  )

  IsFine-suffix : (front behind : List ℕ) → IsFine (front ++ behind) → IsFine behind
  IsFine-suffix front behind (safe, small) = (
    All-append_right (IsSafe signed_char) front behind safe,
    omega (arith, length-append front behind, small),
  )

  decoded-IsSome :
      {A : Type 0} (text : List ℕ) (f : ErrorCode × List ℕ → A)
      → IsFine text
      → IsSome (base64_decode signed_char text [] >>= λ r. some (f r))
  decoded-IsSome text f (safe, small) =
      there (base64_decode signed_char text [])
        (base64_decode-Answered signed_char text [] safe small)
    where
      there :
          (o : Option (ErrorCode × List ℕ))
          → Safety.Answered text [] o
          → IsSome (o >>= λ r. some (f r))
      there none h = h
      there (some r) h = tt

  after_nonce-IsSome :
      (nonce rest : List ℕ) → IsFine rest → IsSome (after_nonce signed_char (nonce, rest))
  after_nonce-IsSome nonce rest fine = elim (Option-cases (salt_part rest)) [
    | inl e ↦ rw (e, IsSome) tt
    | inr (r, e) ↦
        rw (e, IsSome)
          (let all = subst IsFine (salt_part-split rest e) fine in
            decoded-IsSome r.0 _
              (IsFine-prefix r.0 (b',' ∷ r.1) (IsFine-suffix (b's' ∷ b'=' ∷ []) _ all)))
  ]

  plain-IsSome :
      (bytes : List ℕ) (o : Option (List ℕ × List ℕ))
      → nonce_part bytes ≡ o
      → IsFine bytes
      → IsSome (elim o [
        | none ↦ some (Messages.invalid {A = ServerFirstMessage})
        | some r ↦ after_nonce signed_char r
      ])
  plain-IsSome bytes none e fine = tt
  plain-IsSome bytes (some (nonce, rest)) e fine =
      let all = subst IsFine (nonce_part-split bytes e) fine in
      after_nonce-IsSome nonce rest (
        IsFine-suffix (b',' ∷ []) rest
          (IsFine-suffix nonce (b',' ∷ rest) (IsFine-suffix (b'r' ∷ b'=' ∷ []) _ all)))

  pub parse_server_first-IsSome :
      (bytes : List ℕ) → IsFine bytes → IsSome (parse_server_first signed_char bytes)
  unfolding parse_server_first
  parse_server_first-IsSome bytes fine = elim (Option-cases (expect b'm' bytes)) [
    | inl e ↦ rw (e, IsSome) (plain-IsSome bytes (nonce_part bytes) refl fine)
    | inr (r, e) ↦ rw (e, IsSome) tt
  ]

  pub parse_server_final-IsSome :
      (bytes : List ℕ) → IsFine bytes → IsSome (parse_server_final signed_char bytes)
  unfolding parse_server_final
  parse_server_final-IsSome bytes fine = elim (Option-cases (signature_part bytes)) [
    | inl e ↦ rw (e, IsSome) tt
    | inr (rest, e) ↦
        rw (e, IsSome)
          (let (behind, split, others, b) = up_to_comma-split rest in
            decoded-IsSome (up_to_comma rest) _ (
              IsFine-prefix (up_to_comma rest) behind (
                subst IsFine split (
                  IsFine-suffix (b'v' ∷ b'=' ∷ []) rest
                    (subst IsFine (signature_part_lem bytes e) fine)))))
  ]
