-- ===== src/CharConv.antt =====
-- std::from_chars into an unsigned integer, which src/messages.cpp and
-- src/nativepg_internal/scram_sha256_messages.hpp call.
use nativepg.Prelude.{
  ℕ, ◌+◌, ◌-◌, ◌*◌, ◌<◌, ◌≤◌, ◌≡◌, ◌≢◌, refl, Bool, true, Bool-cases, List, [], ◌∷◌, All, inl, inr,
  arith, ltb, leb, ap, ◌&&◌, if◌then◌else◌, lt→ltb, ltb→lt, subst,
}

abbrev pub is_digit : ℕ → Bool
is_digit c = leb b'0' c && leb c b'9'

-- The digits that begin a text, behind those that made `value`, and what is behind them.
unfoldable pub read_digits : ℕ → List ℕ → ℕ × List ℕ
read_digits value [] = (value, [])
read_digits value (c ∷ cs) =
    let rest = read_digits (value * 10 + (c - b'0')) cs in
    if is_digit c then rest else (value, c ∷ cs)

-- The number and where it ends, or the code of std::errc.
pub data Chars : Type 0 where
  number : ℕ → List ℕ → Chars
  invalid_argument result_out_of_range : Chars

unfoldable pub from_chars : ℕ → List ℕ → Chars
from_chars bound [] = invalid_argument
from_chars bound (c ∷ cs) =
    let r = read_digits 0 (c ∷ cs) in
    if is_digit c
    then (if ltb r.0 bound then number r.0 r.1 else result_out_of_range)
    else invalid_argument

abbrev pub IsDigit : ℕ → Type 0
IsDigit c = (b'0' ≤ c) × (c ≤ b'9')

-- The number that decimal digits are, behind those that made `v`.
abbrev pub value_of : ℕ → List ℕ → ℕ
value_of v [] = v
value_of v (d ∷ ds) = value_of (v * 10 + (d - b'0')) ds

digit_lem : (d : ℕ) → IsDigit d → is_digit d ≡ true
digit_lem d (low, high) = ground (arith, low, high)

read_digits-All : (v : ℕ) (ds : List ℕ) → All IsDigit ds → read_digits v ds ≡ (value_of v ds, [])
unfolding read_digits
read_digits-All v [] h = refl
read_digits-All v (d ∷ ds) (hd, h) =
    rw (digit_lem d hd) (read_digits-All (v * 10 + (d - b'0')) ds h)

pub from_chars-digits :
    (bound d : ℕ) (ds : List ℕ)
    → All IsDigit (d ∷ ds)
    → value_of 0 (d ∷ ds) < bound
    → from_chars bound (d ∷ ds) ≡ number (value_of 0 (d ∷ ds)) []
unfolding from_chars
from_chars-digits bound d ds h small =
    rw (digit_lem d h.0, read_digits-All 0 (d ∷ ds) h, lt→ltb _ bound small) refl

-- Digits are all that can be read.
read_digits-whole :
    (v w : ℕ) (ds : List ℕ) → read_digits v ds ≡ (w, []) → All IsDigit ds × (w ≡ value_of v ds)
unfolding read_digits
read_digits-whole v w [] h = (tt, cc)
read_digits-whole v w (d ∷ ds) h = elim (Bool-cases (is_digit d)) [
  | inl y ↦
      let (digits, e) = read_digits-whole (v * 10 + (d - b'0')) w ds (rw y at h) in
      ((ground (arith, y), digits), e)
  | inr n ↦
      let stopped : ◌≡◌ {A = ℕ × List ℕ} (v, d ∷ ds) (w, []) = (rw n at h) in
      let left : d ∷ ds ≡ [] = ap (λ p. p.1) stopped in absurd (cc)
]

pub from_chars-number :
    (bound v : ℕ) (ds : List ℕ)
    → from_chars bound ds ≡ number v []
    → (ds ≢ []) × All IsDigit ds × (v ≡ value_of 0 ds) × (v < bound)
unfolding from_chars
from_chars-number bound v [] h = cc
from_chars-number bound v (d ∷ ds) h = elim (Bool-cases (is_digit d)) [
  | inr n ↦ let e : invalid_argument ≡ number v [] = (rw n at h) in cc
  | inl y ↦
      let r : ℕ × List ℕ = read_digits 0 (d ∷ ds) in
      let g : (if ltb r.0 bound then number r.0 r.1 else result_out_of_range) ≡ number v [] =
        (rw y at h) in
      elim (Bool-cases (ltb r.0 bound)) [
        | inr n ↦ let e : result_out_of_range ≡ number v [] = (rw n at g) in cc
        | inl small ↦
            let e : number r.0 r.1 ≡ number v [] = (rw small at g) in
            let ends : r ≡ (v, []) = cc in
            let (digits, value) = read_digits-whole 0 v (d ∷ ds) ends in
            (
              (λ e. cc),
              digits,
              value,
              subst (λ n. n < bound) (ap (λ p. p.0) ends) (ltb→lt r.0 bound small),
            )
      ]
]
