-- ===== src/Scram/Verified.antt =====
-- src/scram_sha256_fsm.cpp: what the server must have sent for a step to be taken.
use nativepg.Prelude.{
  ℕ, ◌^◌, ◌<◌, ◌≡◌, ◌≢◌, ◌↔◌, refl, sym, ap, ap₂, subst, Bool, true, false, List, [], ◌∷◌, ◌++◌,
  Option, none, some, ◌⊎◌, inl, inr, All, length, arith, ltb, ◌==◌, ==_iff, ◌>>=◌, Bool-cases,
  if◌then◌else◌, not, ◌||◌,
}
use nativepg.Protocol.{
  Error, ErrorCode, client, scram_invalid_nonce, protocol_value_error,
  scram_invalid_server_signature,
}
use nativepg.Base64.Tables.{&&-true}
use nativepg.Base64.RoundTrip.{IsByte}
use nativepg.Wire.{Endian}
use nativepg.Scram.{OpenSsl, ComparesBytes}
use nativepg.Scram.Crypt.{crypto_equal}
use nativepg.Scram.Messages.{ServerFirstMessage, parse_server_first}
use nativepg.Scram.Fsm.{
  ScramSha256Fsm, Left, answer, check_server_first, on_server_first, on_server_final, starts_with,
  nonce_is_empty,
}
use nativepg.Scram.Numbers.{IsBehind}
use nativepg.Scram.Printed.{server_final_text, parse_server_final_lem}

-- A message that a server may answer the client's nonce with.
pub record IsAnswer (f : ScramSha256Fsm) (msg : ServerFirstMessage) : Type 0 where
  pub extends : (rest : List ℕ) × (msg.nonce ≡ f.nonce ++ rest)
  pub nonce_ne : msg.nonce ≢ []
  pub count_positive : 0 < msg.iteration_count
  pub count_lt : msg.iteration_count < 2 ^ 16

starts_with_lem : (s t : List ℕ) → starts_with s t ≡ true → (rest : List ℕ) × (t ≡ s ++ rest)
unfolding starts_with
starts_with_lem [] t h = (t, refl)
starts_with_lem (p ∷ s) [] h = absurd cc
starts_with_lem (p ∷ s) (c ∷ t) h =
    let both = &&-true (p == c) (starts_with s t) h in
    let (rest, e) = starts_with_lem s t both.1 in
    (rest, ap₂ (λ x xs. x ∷ xs) (sym ((==_iff p c).0 both.0)) e)

nonce_is_empty_lem : (s : List ℕ) → nonce_is_empty s ≡ false → s ≢ []
nonce_is_empty_lem [] h e = absurd cc
nonce_is_empty_lem (c ∷ s) h e = absurd cc

or_false : (a b : Bool) → (a || not b) ≡ false → (a ≡ false) × (b ≡ true)
or_false true b h = absurd cc
or_false false true h = (refl, refl)
or_false false false h = absurd cc

passed :
    (empty starts zero large : Bool)
    → (if empty || not starts
        then some (client scram_invalid_nonce)
        else if zero || large
        then some (client protocol_value_error)
        else none)
      ≡ none
    → (empty ≡ false) × (starts ≡ true) × (zero ≡ false) × (large ≡ false)
passed false true false false h = (refl, refl, refl, refl)
passed false true true large h = absurd cc
passed false true false true h = absurd cc
passed false false zero large h = absurd cc
passed true starts zero large h = absurd cc

check-IsAnswer :
    (f : ScramSha256Fsm) (msg : ServerFirstMessage)
    → check_server_first f msg ≡ none
    → IsAnswer f msg
unfolding check_server_first
check-IsAnswer f msg h =
    let (e, s, z, l) =
      passed (nonce_is_empty msg.nonce) (starts_with f.nonce msg.nonce) (msg.iteration_count == 0)
        (ltb 65535 msg.iteration_count) h in
    record {
      extends = starts_with_lem f.nonce msg.nonce s;
      nonce_ne = nonce_is_empty_lem msg.nonce e;
      count_positive = ground (arith, z);
      count_lt = ground (arith, l);
    }

module _ {C : Type 0} (o : OpenSsl C) (endian : Endian) (signed_char : Bool) where
  abbrev Outcome : List ℕ → ScramSha256Fsm → C → Option (Left o endian signed_char) → Type 0
  Outcome bytes f c none = Unit {0}
  Outcome bytes f c (some (none, b, m)) =
      (msg : ServerFirstMessage) × (parse_server_first signed_char bytes ≡ some (inr msg))
      × IsAnswer f msg
  Outcome bytes f c (some (some e, b, m)) = Unit {0}

  judged-Outcome :
      (bytes : List ℕ) (f : ScramSha256Fsm) (c : C) (msg : ServerFirstMessage)
      (r : Option (Left o endian signed_char))
      → parse_server_first signed_char bytes ≡ some (inr msg)
      → IsAnswer f msg
      → Outcome bytes f c r
  judged-Outcome bytes f c msg none p a = tt
  judged-Outcome bytes f c msg (some (none, b, m)) p a = (msg, p, a)
  judged-Outcome bytes f c msg (some (some e, b, m)) p a = tt

  checked-Outcome :
      (bytes password buffer : List ℕ) (f : ScramSha256Fsm) (c : C) (msg : ServerFirstMessage)
      (ec : ErrorCode)
      → parse_server_first signed_char bytes ≡ some (inr msg)
      → check_server_first f msg ≡ ec
      → Outcome bytes f c (elim ec [
        | some e ↦ some (some e, buffer, (f, c))
        | none ↦ answer o endian signed_char bytes password buffer msg (f, c)
      ])
  checked-Outcome bytes password buffer f c msg none p h =
      judged-Outcome bytes f c msg (answer o endian signed_char bytes password buffer msg (f, c)) p
        (check-IsAnswer f msg h)
  checked-Outcome bytes password buffer f c msg (some e) p h = tt

  parsed-Outcome :
      (bytes password buffer : List ℕ) (f : ScramSha256Fsm) (c : C)
      (p : Option (Error ⊎ ServerFirstMessage))
      → parse_server_first signed_char bytes ≡ p
      → Outcome bytes f c (
          p >>= λ parsed. elim parsed [
            | inl e ↦ some (some e, buffer, (f, c))
            | inr msg ↦ elim (check_server_first f msg) [
              | some e ↦ some (some e, buffer, (f, c))
              | none ↦ answer o endian signed_char bytes password buffer msg (f, c)
            ]
          ])
  parsed-Outcome bytes password buffer f c none e = tt
  parsed-Outcome bytes password buffer f c (some (inl x)) e = tt
  parsed-Outcome bytes password buffer f c (some (inr msg)) e =
      checked-Outcome bytes password buffer f c msg (check_server_first f msg) e refl

  -- Whatever the server sends: where on_server_first ends without error, so that a proof is sent,
  -- the message was well-formed, its nonce is not empty and begins with the client's, and its
  -- iteration count is at least 1 and less than 2 ^ 16.
  pub on_server_first-IsAnswer :
      (bytes password buffer written : List ℕ) (f g : ScramSha256Fsm) (c d : C)
      → on_server_first o endian signed_char bytes password buffer (f, c)
        ≡ some (none, written, (g, d))
      → (msg : ServerFirstMessage) × (parse_server_first signed_char bytes ≡ some (inr msg))
        × IsAnswer f msg
  unfolding on_server_first
  on_server_first-IsAnswer bytes password buffer written f g c d h =
      subst (Outcome bytes f c) h
        (parsed-Outcome bytes password buffer f c (parse_server_first signed_char bytes) refl)

  module _ (compares : ComparesBytes o) where
    pub crypto_equal_lem : (s t : List ℕ) → (crypto_equal o s t ≡ true) ↔ (s ≡ t)
    unfolding crypto_equal
    crypto_equal_lem s t = (
      λ h.
          let both = &&-true (length s == length t) (o.memcmp s t == 0) h in
          (compares s t ((==_iff _ _).0 both.0)).0 ((==_iff _ 0).0 both.1),
      λ e.
          rw
            (
              (==_iff (length s) (length t)).1 (ap length e),
              (==_iff (o.memcmp s t) 0).1 ((compares s t (ap length e)).1 e),
            )
            refl,
    )

    -- A final message of the server with any bytes for a signature: on_server_final reports success
    -- where they are the signature that was computed, and otherwise that they are not.
    pub on_server_final_lem :
        (f : ScramSha256Fsm) (c : C) (signature behind : List ℕ)
        → All IsByte signature
        → length signature < 2 ^ 60
        → IsBehind behind
        → (signature ≡ f.server_signature
            → on_server_final o endian signed_char (server_final_text signature behind) (f, c)
              ≡ some none)
          × (signature ≢ f.server_signature
              → on_server_final o endian signed_char (server_final_text signature behind) (f, c)
                ≡ some (some (client scram_invalid_server_signature)))
    unfolding on_server_final
    on_server_final_lem f c signature behind h size b = (
      λ e.
          rw
            (
              parse_server_final_lem signed_char signature behind h size b,
              (crypto_equal_lem signature f.server_signature).1 e,
            )
            refl,
      λ n. elim (Bool-cases (crypto_equal o signature f.server_signature)) [
        | inl y ↦ absurd (n ((crypto_equal_lem signature f.server_signature).0 y))
        | inr y ↦ rw (parse_server_final_lem signed_char signature behind h size b, y) refl
      ],
    )
