-- ===== src/Scram/Numbers.antt =====
-- src/nativepg_internal/scram_sha256_messages.hpp: the pieces of text that its parse functions read,
-- each of which ends at a comma or at the end of the message.
use nativepg.Prelude.{
  ℕ, ◌+◌, ◌*◌, ◌/◌, ◌%◌, ◌<◌, ◌≡◌, refl, ap, true, false, List, [], ◌∷◌, ◌++◌, some, All, ◌==◌,
  arith,
}
use nativepg.CharConv.{IsDigit}
use nativepg.Base64.{encode, tab, equals_sign}
use nativepg.Base64.Tables.{tab-no_comma, tab-printable}
use nativepg.Base64.RoundTrip.{IsByte}
use nativepg.Scram.Messages.{take_nonce, take_salt, with_first, up_to_comma, scram_is_printable}

abbrev pub NotComma : ℕ → Type 0
NotComma c = (c == b',') ≡ false

-- The characters that a nonce may have.
abbrev pub IsPrintable : ℕ → Type 0
IsPrintable c = scram_is_printable c ≡ true

-- What stands behind the last part of a message: nothing, or extensions.
abbrev pub IsBehind : List ℕ → Type 0
IsBehind [] = Unit {0}
IsBehind (c ∷ cs) = c ≡ b','

printable-NotComma : (c : ℕ) → IsPrintable c → NotComma c
unfolding scram_is_printable
printable-NotComma c h = ground arith

pub take_nonce-append :
    (nonce rest : List ℕ)
    → All IsPrintable nonce
    → take_nonce (nonce ++ (b',' ∷ rest)) ≡ some (nonce, rest)
unfolding take_nonce
take_nonce-append [] rest h = refl
take_nonce-append (c ∷ nonce) rest (hc, h) =
    rw (printable-NotComma c hc, hc) (ap (with_first c) (take_nonce-append nonce rest h))

pub take_salt-append :
    (salt rest : List ℕ) → All NotComma salt → take_salt (salt ++ (b',' ∷ rest)) ≡ some (salt, rest)
unfolding take_salt
take_salt-append [] rest h = refl
take_salt-append (c ∷ salt) rest (hc, h) = rw hc (ap (with_first c) (take_salt-append salt rest h))

pub up_to_comma-append :
    (text behind : List ℕ)
    → All NotComma text
    → IsBehind behind
    → up_to_comma (text ++ behind) ≡ text
unfolding up_to_comma
up_to_comma-append [] [] h b = refl
up_to_comma-append [] (c ∷ behind) h b = rw b refl
up_to_comma-append (c ∷ text) behind (hc, h) b =
    rw hc (ap (λ l. c ∷ l) (up_to_comma-append text behind h b))

pub digits-NotComma : (ds : List ℕ) → All IsDigit ds → All NotComma ds
digits-NotComma [] h = tt
digits-NotComma (d ∷ ds) ((low, high), h) = (ground (arith, low), digits-NotComma ds h)

-- What holds of the characters of the alphabet and of the padding holds of what is encoded.
encode-All :
    (P : ℕ → Type 0)
    → ((i : ℕ) → i < 64 → P (tab i))
    → P equals_sign
    → (input : List ℕ) → All IsByte input
    → All P (encode input)
unfolding encode
encode-All P t e [] h = tt
encode-All P t e (a ∷ []) (ha, h) =
    (t (a / 4) (omega arith), (t (a % 4 * 16) (omega arith), (e, (e, tt))))
encode-All P t e (a ∷ b ∷ []) (ha, (hb, h)) = (
  t (a / 4) (omega arith),
  (t (a % 4 * 16 + b / 16) (omega arith), (t (b % 16 * 4) (omega arith), (e, tt))),
)
encode-All P t e (a ∷ b ∷ c ∷ bytes) (ha, (hb, (hc, h))) = (
  t (a / 4) (omega arith),
  (
    t (a % 4 * 16 + b / 16) (omega arith),
    (t (c / 64 + b % 16 * 4) (omega arith), (t (c % 64) (omega arith), encode-All P t e bytes h)),
  ),
)

pub encode-NotComma : (input : List ℕ) → All IsByte input → All NotComma (encode input)
encode-NotComma input h = encode-All NotComma tab-no_comma refl input h

pub encode-IsPrintable : (input : List ℕ) → All IsByte input → All IsPrintable (encode input)
unfolding scram_is_printable
encode-IsPrintable input h = encode-All IsPrintable tab-printable refl input h
