-- ===== src/Base64/Safety.antt =====
-- base64.cpp on input from outside: where decoding reads its table, and what it leaves.
use nativepg.Prelude.{
  ℕ, zero, suc, ◌<◌, ◌≤◌, ◌+◌, ◌-◌, ◌*◌, ◌/◌, ◌%◌, ◌^◌, ◌≡◌, refl, sym, subst, Bool, true, false,
  Option, none, some, arith, ltb, ltb→lt, ◌==◌, length, List, [], ◌∷◌, ◌++◌, All, All-append, ◌>>=◌,
  get_elem?, append-nil, replicate, le→leb, lt→ltb, ==_iff, if◌then◌else◌, Bool-cases, inl, inr,
  length-append, length-replicate,
}
use nativepg.Protocol.{ErrorCode, client, invalid_base64}
use nativepg.Base64.{
  Decoded, inverse_tab, lookup, decode, decode_group, decode_last, write_group, write_last,
  and_then, get_padding, bit, store, decoded_size, base64_decode, equals_sign,
}
use nativepg.Base64.RoundTrip.{IsByte}

-- A character whose conversion stays within the table.
abbrev pub IsSafe : Bool → ℕ → Type 0
IsSafe true c = c < 128
IsSafe false c = c < 256

get_elem?-lt :
    (xs : List (Option ℕ)) (i : ℕ) → i < length xs → (x : Option ℕ) × (get_elem? xs i ≡ some x)
get_elem?-lt [] i h = absurd (omega arith)
get_elem?-lt (x ∷ xs) zero h = (x, refl)
get_elem?-lt (x ∷ xs) (suc i) h = get_elem?-lt xs i (omega arith)

get_elem?-ge : (xs : List (Option ℕ)) (i : ℕ) → length xs ≤ i → get_elem? xs i ≡ none
get_elem?-ge [] i h = refl
get_elem?-ge (x ∷ xs) zero h = absurd (omega arith)
get_elem?-ge (x ∷ xs) (suc i) h = get_elem?-ge xs i (omega arith)

table_size : length inverse_tab ≡ 256
unfolding inverse_tab
table_size = refl

lookup-safe : (s : Bool) (c : ℕ) → IsSafe s c → (v : Option ℕ) × (lookup s c ≡ some v)
unfolding lookup
lookup-safe true c h =
    rw (lt→ltb c 128 h) (get_elem?-lt inverse_tab c (omega (arith, h, table_size)))
lookup-safe false c h = get_elem?-lt inverse_tab c (omega (arith, h, table_size))

-- What decoding leaves of a number of bytes that it has room for.
abbrev Written : ℕ → Option Decoded → Type 0
Written n none = ⊥
Written n (some (true, bytes)) = (length bytes ≡ n) × All IsByte bytes
Written n (some (false, bytes)) = length bytes ≤ n

write_group-Written : (v0 v1 v2 v3 : Option ℕ) → Written 3 (some (write_group v0 v1 v2 v3))
unfolding write_group
write_group-Written (some a) (some b) (some c) (some d) =
    (refl, (omega arith, (omega arith, (omega arith, tt))))
write_group-Written none b c d = omega arith
write_group-Written (some a) none c d = omega arith
write_group-Written (some a) (some b) none d = omega arith
write_group-Written (some a) (some b) (some c) none = omega arith

write_last-Written :
    (p : ℕ) (v0 v1 v2 v3 : Option ℕ) → p ≤ 2 → Written (3 - p) (some (write_last p v0 v1 v2 v3))
unfolding write_last
write_last-Written zero (some a) (some b) (some c) (some d) h =
    (refl, (omega arith, (omega arith, (omega arith, tt))))
write_last-Written (suc zero) (some a) (some b) (some c) (some d) h =
    (refl, (omega arith, (omega arith, tt)))
write_last-Written (suc (suc zero)) (some a) (some b) (some c) (some d) h =
    (refl, (omega arith, tt))
write_last-Written (suc (suc (suc p))) (some a) (some b) (some c) (some d) h = absurd (omega arith)
write_last-Written p none b c d h = omega arith
write_last-Written p (some a) none c d h = omega arith
write_last-Written p (some a) (some b) none d h = omega arith
write_last-Written p (some a) (some b) (some c) none h = omega arith

-- The number of bytes of a non-empty input.
abbrev count : List ℕ → ℕ
count cs = length cs * 3 / 4 - get_padding cs

bit-le : (b : Bool) → bit b ≤ 1
bit-le true = omega arith
bit-le false = omega arith

get_padding-le : (cs : List ℕ) → get_padding cs ≤ 2
unfolding get_padding
get_padding-le [] = omega arith
get_padding-le (c ∷ []) = omega arith
get_padding-le (c ∷ d ∷ []) = omega (arith, bit-le (d == equals_sign), bit-le (c == equals_sign))
get_padding-le (c ∷ d ∷ e ∷ cs) = get_padding-le (d ∷ e ∷ cs)

count-group :
    (a b c d e : ℕ) (cs : List ℕ)
    → length (a ∷ b ∷ c ∷ d ∷ e ∷ cs) % 4 ≡ 0
    → 3 + count (e ∷ cs) ≡ count (a ∷ b ∷ c ∷ d ∷ e ∷ cs)
unfolding get_padding
count-group a b c d e [] m = absurd (omega arith)
count-group a b c d e (f ∷ cs) m = omega (arith, get_padding-le (e ∷ f ∷ cs))

module _ (s : Bool) where
  -- The value of a character, or 0 where it is padding.
  chosen :
      (padded : Bool) (c : ℕ)
      → IsSafe s c
      → (v : Option ℕ) × ((if padded then some (some 0) else lookup s c) ≡ some v)
  chosen true c h = (some 0, refl)
  chosen false c h = lookup-safe s c h

  decode_last-Written :
      (a b c d : ℕ)
      → All (IsSafe s) (a ∷ b ∷ c ∷ d ∷ [])
      → Written (count (a ∷ b ∷ c ∷ d ∷ [])) (decode_last s a b c d)
  unfolding decode_last get_padding
  decode_last-Written a b c d (ha, (hb, (hc, (hd, h)))) =
      let p = bit (d == equals_sign) + bit (c == equals_sign) in
      let (v0, q0) = lookup-safe s a ha in
      let (v1, q1) = lookup-safe s b hb in
      let (v2, q2) = chosen (p == 2) c hc in
      let (v3, q3) = chosen (ltb 0 p) d hd in
      rw (q0, q1, q2, q3)
        (write_last-Written p v0 v1 v2 v3
          (omega (arith, bit-le (d == equals_sign), bit-le (c == equals_sign))))

  decode_group-Written :
      (a b c d : ℕ)
      → All (IsSafe s) (a ∷ b ∷ c ∷ d ∷ [])
      → (r : Decoded) × (decode_group s a b c d ≡ some r) × Written 3 (some r)
  unfolding decode_group
  decode_group-Written a b c d (ha, (hb, (hc, (hd, h)))) =
      let (v0, q0) = lookup-safe s a ha in
      let (v1, q1) = lookup-safe s b hb in
      let (v2, q2) = lookup-safe s c hc in
      let (v3, q3) = lookup-safe s d hd in
      (write_group v0 v1 v2 v3, rw (q0, q1, q2, q3) refl, write_group-Written v0 v1 v2 v3)

  and_then-Written :
      (n m : ℕ) (r : Decoded) (o : Option Decoded)
      → Written n (some r)
      → Written m o
      → Written (n + m) (and_then r o)
  unfolding and_then
  and_then-Written n m (false, bytes) o h k = omega (arith, h)
  and_then-Written n m (true, bytes) none h k = k
  and_then-Written n m (true, bytes) (some (true, more)) h k =
      (omega (arith, length-append bytes more, h.0, k.0), All-append IsByte bytes more h.1 k.1)
  and_then-Written n m (true, bytes) (some (false, more)) h k =
      omega (arith, length-append bytes more, h.0, k)

  decode-Written :
      (cs : List ℕ) → All (IsSafe s) cs → length cs % 4 ≡ 0 → Written (count cs) (decode s cs)
  unfolding decode
  decode-Written [] h m = unfold get_padding in (refl, tt)
  decode-Written (a ∷ []) h m = absurd (omega arith)
  decode-Written (a ∷ b ∷ []) h m = absurd (omega arith)
  decode-Written (a ∷ b ∷ c ∷ []) h m = absurd (omega arith)
  decode-Written (a ∷ b ∷ c ∷ d ∷ []) h m = decode_last-Written a b c d h
  decode-Written (a ∷ b ∷ c ∷ d ∷ e ∷ cs) (ha, (hb, (hc, (hd, h)))) m =
      let (r, q, w) = decode_group-Written a b c d (ha, (hb, (hc, (hd, tt)))) in
      rw q (
        subst (λ n. Written n (and_then r (decode s (e ∷ cs)))) (count-group a b c d e cs m)
          (and_then-Written 3 (count (e ∷ cs)) r _ w (decode-Written (e ∷ cs) h (omega arith))))

abbrev pub Answered : List ℕ → List ℕ → Option (ErrorCode × List ℕ) → Type 0
Answered input output none = ⊥
Answered input output (some (none, result)) =
    (bytes : List ℕ) × (result ≡ output ++ bytes)
    × (length bytes ≡ decoded_size input)
    × All IsByte bytes
Answered input output (some (some e, result)) =
    (e ≡ client invalid_base64) × (bytes : List ℕ) × (result ≡ output ++ bytes)

zeros-IsByte : (n : ℕ) → All IsByte (replicate n 0)
zeros-IsByte zero = tt
zeros-IsByte (suc n) = (omega arith, zeros-IsByte n)

decoded_size-count : (cs : List ℕ) → length cs < 2 ^ 62 → decoded_size cs ≡ count cs
unfolding decoded_size
decoded_size-count [] h = unfold get_padding in refl
decoded_size-count (c ∷ cs) h = omega arith

decoded-Answered :
    (input output : List ℕ) (o : Option Decoded)
    → Written (decoded_size input) o
    → Answered input output (do
      r ← o
      stored ← store output (decoded_size input) r.1
      some (if r.0 then none else some (client invalid_base64), stored))
unfolding store
decoded-Answered input output none w = w
decoded-Answered input output (some (true, bytes)) w =
    rw (le→leb (length bytes) (decoded_size input) (omega (arith, w.0))) (
      bytes ++ replicate (decoded_size input - length bytes) 0,
      refl,
      omega (
        arith,
        length-append bytes (replicate (decoded_size input - length bytes) 0),
        length-replicate {A = ℕ} (decoded_size input - length bytes) 0,
        w.0,
      ),
      All-append IsByte bytes _ w.1 (zeros-IsByte (decoded_size input - length bytes)),
    )
decoded-Answered input output (some (false, bytes)) w =
    rw (le→leb (length bytes) (decoded_size input) w) (refl, _, refl)

-- Characters that come from outside, of an input that memory can hold, where char is unsigned or
-- the characters are ASCII: no read is outside the table and no write outside the vector. Either
-- the code is success, and as many bytes as the size announced are appended; or it is
-- invalid_base64, and what the vector held before is still there.
pub base64_decode-Answered :
    (signed_char : Bool) (input output : List ℕ)
    → All (IsSafe signed_char) input
    → length input < 2 ^ 62
    → Answered input output (base64_decode signed_char input output)
unfolding base64_decode
base64_decode-Answered s input output h size = elim (Bool-cases (length input % 4 == 0)) [
  | inl e ↦ rw e (
      decoded-Answered input output (decode s input) (
        subst (λ n. Written n (decode s input)) (sym (decoded_size-count input size))
          (decode-Written s input h ((==_iff (length input % 4) 0).0 e))))
  | inr e ↦ rw e (refl, [], sym (append-nil output))
]

lookup-outside : (a : ℕ) → 128 ≤ a → lookup true a ≡ none
unfolding lookup
lookup-outside a h = elim (Bool-cases (ltb a 128)) [
  | inl e ↦ absurd (omega (arith, ltb→lt a 128 e))
  | inr e ↦ rw e (get_elem?-ge inverse_tab _ (omega (arith, table_size, h)))
]

decode_outside :
    (a b c d : ℕ) (cs : List ℕ) → lookup true a ≡ none → decode true (a ∷ b ∷ c ∷ d ∷ cs) ≡ none
unfolding decode decode_group decode_last
decode_outside a b c d [] h = rw h refl
decode_outside a b c d (e ∷ cs) h = rw h refl

-- Where char is signed, the index of a character from 128 on is a huge number: an input of a
-- correct size that begins with such a character makes decode read outside inverse_tab.
pub high_character_leaves_table :
    (a b c d : ℕ) (cs output : List ℕ)
    → 128 ≤ a
    → a < 256
    → length (a ∷ b ∷ c ∷ d ∷ cs) % 4 ≡ 0
    → base64_decode true (a ∷ b ∷ c ∷ d ∷ cs) output ≡ none
unfolding base64_decode
high_character_leaves_table a b c d cs output h k m =
    rw
      (
        (==_iff (length (a ∷ b ∷ c ∷ d ∷ cs) % 4) 0).1 m,
        decode_outside a b c d cs (lookup-outside a h),
      )
      refl
