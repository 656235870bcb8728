-- ===== src/Base64/RoundTrip.antt =====
-- base64.cpp: what was encoded decodes to itself.
use nativepg.Prelude.{
  ℕ, ◌<◌, ◌+◌, ◌-◌, ◌*◌, ◌/◌, ◌%◌, ◌^◌, ◌≡◌, refl, ap, ap₂, subst, Bool, true, none, some, arith,
  length, List, [], ◌∷◌, ◌++◌, All, append-nil, le→leb, ==_iff,
}
use nativepg.Base64.{
  tab, encode, decode, decode_group, decode_last, write_group, write_last, and_then, get_padding,
  store, encoded_size, decoded_size, base64_encode, base64_decode, first_byte, second_byte,
  third_byte,
}
use nativepg.Base64.Tables.{lookup-tab, tab-no_padding}

abbrev pub IsByte : ℕ → Type 0
IsByte b = b < 256

-- The bytes that the four values of three bytes make.
first_lem : (a b : ℕ) → IsByte a → IsByte b → first_byte (a / 4) (a % 4 * 16 + b / 16) ≡ a
first_lem a b ha hb = omega arith

second_lem :
    (a b c : ℕ) → IsByte b → IsByte c → second_byte (a % 4 * 16 + b / 16) (c / 64 + b % 16 * 4) ≡ b
second_lem a b c hb hc = omega arith

third_lem : (b c : ℕ) → IsByte c → third_byte (c / 64 + b % 16 * 4) (c % 64) ≡ c
third_lem b c hc = omega arith

encode-cons : (d : ℕ) (ds : List ℕ) → (e e' : ℕ) × (cs : List ℕ) × (encode (d ∷ ds) ≡ e ∷ e' ∷ cs)
unfolding encode
encode-cons a [] = (_, _, _, refl)
encode-cons a (b ∷ []) = (_, _, _, refl)
encode-cons a (b ∷ c ∷ ds) = (_, _, _, refl)

module _ (s : Bool) where
  group-encode :
      (a b c : ℕ)
      → IsByte a
      → IsByte b
      → IsByte c
      → decode_group s
          (tab (a / 4))
          (tab (a % 4 * 16 + b / 16))
          (tab (c / 64 + b % 16 * 4))
          (tab (c % 64))
        ≡ some (true, a ∷ b ∷ c ∷ [])
  unfolding decode_group write_group
  group-encode a b c ha hb hc =
      rw
        (
          lookup-tab s (a / 4) (omega arith),
          lookup-tab s (a % 4 * 16 + b / 16) (omega arith),
          lookup-tab s (c / 64 + b % 16 * 4) (omega arith),
          lookup-tab s (c % 64) (omega arith),
          first_lem a b ha hb,
          second_lem a b c hb hc,
          third_lem b c hc,
        )
        refl

  decode-encode : (input : List ℕ) → All IsByte input → decode s (encode input) ≡ some (true, input)
  unfolding decode encode decode_last write_last get_padding and_then
  decode-encode [] h = refl
  decode-encode (a ∷ []) (ha, h) =
      rw (lookup-tab s (a / 4) (omega arith), lookup-tab s (a % 4 * 16) (omega arith))
        (ap (λ x. some (true, x ∷ [])) (omega arith))
  decode-encode (a ∷ b ∷ []) (ha, (hb, h)) =
      rw
        (
          tab-no_padding (b % 16 * 4) (omega arith),
          lookup-tab s (a / 4) (omega arith),
          lookup-tab s (a % 4 * 16 + b / 16) (omega arith),
          lookup-tab s (b % 16 * 4) (omega arith),
        )
        (ap₂ (λ x y. some (true, x ∷ y ∷ [])) (first_lem a b ha hb) (omega arith))
  decode-encode (a ∷ b ∷ c ∷ []) (ha, (hb, (hc, h))) =
      rw
        (
          tab-no_padding (c / 64 + b % 16 * 4) (omega arith),
          tab-no_padding (c % 64) (omega arith),
          lookup-tab s (a / 4) (omega arith),
          lookup-tab s (a % 4 * 16 + b / 16) (omega arith),
          lookup-tab s (c / 64 + b % 16 * 4) (omega arith),
          lookup-tab s (c % 64) (omega arith),
        )
        (ap₂ (λ x ys. some (true, x ∷ ys)) (first_lem a b ha hb)
          (ap₂ (λ y z. y ∷ z ∷ []) (second_lem a b c hb hc) (third_lem b c hc)))
  decode-encode (a ∷ b ∷ c ∷ d ∷ ds) (ha, (hb, (hc, h))) =
      let (e, e', cs, q) = encode-cons d ds in
      rw
        (
          q,
          group-encode a b c ha hb hc,
          subst (λ l. decode s l ≡ some (true, d ∷ ds)) q (decode-encode (d ∷ ds) h),
        )
        refl

pub length-encode : (input : List ℕ) → length (encode input) ≡ 4 * ((length input + 2) / 3)
unfolding encode
length-encode [] = refl
length-encode (a ∷ []) = refl
length-encode (a ∷ b ∷ []) = refl
length-encode (a ∷ b ∷ c ∷ bytes) = omega (arith, length-encode bytes)

get_padding-skip :
    (x y : ℕ) {l cs : List ℕ} {e e' : ℕ} → l ≡ e ∷ e' ∷ cs → get_padding (x ∷ y ∷ l) ≡ get_padding l
unfolding get_padding
get_padding-skip x y q = rw q refl

padding_lem :
    (a : ℕ) (input : List ℕ)
    → All IsByte (a ∷ input)
    → get_padding (encode (a ∷ input)) + length (a ∷ input) ≡ length (encode (a ∷ input)) * 3 / 4
unfolding encode get_padding
padding_lem a [] h = refl
padding_lem a (b ∷ []) h = rw (tab-no_padding (b % 16 * 4) (omega arith)) refl
padding_lem a (b ∷ c ∷ []) (ha, (hb, (hc, h))) =
    rw (tab-no_padding (c / 64 + b % 16 * 4) (omega arith), tab-no_padding (c % 64) (omega arith))
      refl
padding_lem a (b ∷ c ∷ d ∷ ds) (ha, (hb, (hc, h))) =
    let (e, e', cs, q) = encode-cons d ds in
    omega (arith, get_padding-skip (tab (c / 64 + b % 16 * 4)) (tab (c % 64)) q, padding_lem d ds h)

decoded_size-cons :
    (cs : List ℕ) {e : ℕ} {l : List ℕ}
    → cs ≡ e ∷ l
    → length cs < 2 ^ 62
    → decoded_size cs ≡ length cs * 3 / 4 - get_padding cs
unfolding decoded_size
decoded_size-cons [] q h = cc
decoded_size-cons (c ∷ cs) q h = omega arith

decoded_size-encode :
    (input : List ℕ)
    → All IsByte input
    → length input < 2 ^ 60
    → decoded_size (encode input) ≡ length input
decoded_size-encode [] h s = unfold decoded_size encode in refl
decoded_size-encode (a ∷ input) h s =
    let (e, e', cs, q) = encode-cons a input in
    omega (
      arith,
      decoded_size-cons (encode (a ∷ input)) q (omega (arith, length-encode (a ∷ input))),
      padding_lem a input h,
    )

-- Bytes that fit exactly.
pub store-exact :
    (to bytes : List ℕ) (n : ℕ) → length bytes ≡ n → store to n bytes ≡ some (to ++ bytes)
unfolding store
store-exact to bytes n h =
    rw (le→leb (length bytes) n (omega (arith, h)), subtract)
      (ap (λ x. some (to ++ x)) (append-nil bytes))
  where
    subtract : n - length bytes ≡ 0
    subtract = omega (arith, h)

-- Encoding writes exactly what it has made room for.
pub base64_encode_lem :
    (input to : List ℕ) → length input < 2 ^ 60 → base64_encode input to ≡ some (to ++ encode input)
unfolding base64_encode encoded_size
base64_encode_lem input to size =
    store-exact to (encode input) _ (omega (arith, length-encode input))

-- Every list of bytes, of a size that memory can hold, survives the trip, whether char is signed
-- or not. Encoding writes exactly the characters that it has made room for, behind what the vector
-- holds; decoding them reads both tables within their bounds, reports success and appends exactly
-- the bytes.
pub base64_decode-encode :
    (signed_char : Bool) (input to output : List ℕ)
    → All IsByte input
    → length input < 2 ^ 60
    → (base64_encode input to ≡ some (to ++ encode input))
      × (base64_decode signed_char (encode input) output ≡ some (none, output ++ input))
unfolding base64_decode
base64_decode-encode s input to output h size = (
  base64_encode_lem input to size,
  rw
      (
        (==_iff (length (encode input) % 4) 0).1 (omega (arith, length-encode input)),
        decode-encode s input h,
        decoded_size-encode input h size,
        store-exact output input (length input) refl,
      )
      refl,
)
