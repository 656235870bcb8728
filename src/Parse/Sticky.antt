-- ===== src/Parse/Sticky.antt =====
-- The error of a parse_context stays: every method of src/parse_context.hpp keeps the one it finds.
use nativepg.Prelude.{
  ℕ, ◌≡◌, refl, ◌≢◌, ℤ, pos, negsuc, List, [], ◌∷◌, none, some, length, ltb, Bool-cases, inl, inr,
  drop,
}
use nativepg.Protocol.{Error, ErrorCode}
use nativepg.Wire.{Endian}
use nativepg.Parse.{
  ParseContext, add_error, get_byte, get_int16, get_int32, check_nonnegative, get_string,
  check_size_and_advance, check, keep_first,
}

abbrev pub HasFailed : ParseContext → Type 0
HasFailed c = c.err ≢ none

pub kept : (e : Error) (rest : List ℕ) → HasFailed (record { rest = rest; err = some e })
kept e rest h = cc

pub added : (ec : ErrorCode) (e : Error) → keep_first ec (some e) ≢ none
added none e h = cc
added (some e') e h = cc

-- A method by its clauses, from an error on.
from_error :
    (P : ParseContext → Type 0)
    → ((e : Error) (rest : List ℕ) → P (record { rest = rest; err = some e }))
    → (c : ParseContext) → HasFailed c
    → P c
from_error P some_case c h = known c.err c.rest h
  where
    known : (err : ErrorCode) (rest : List ℕ) → err ≢ none → P (record { rest = rest; err = err })
    known none rest g = absurd (g refl)
    known (some e) rest g = some_case e rest

pub add_error_failed :
    (ec : ErrorCode) (c : ParseContext) → HasFailed c → HasFailed (add_error ec c).1
unfolding add_error
add_error_failed ec = from_error (λ c. HasFailed (add_error ec c).1) (λ e rest. kept e rest)

get_byte_kept :
    (e : Error) (rest : List ℕ) → HasFailed (get_byte (record { rest = rest; err = some e })).1
unfolding get_byte
get_byte_kept e [] = kept e []
get_byte_kept e (b ∷ rest) = kept e (b ∷ rest)

pub get_byte_failed : (c : ParseContext) → HasFailed c → HasFailed (get_byte c).1
get_byte_failed = from_error (λ c. HasFailed (get_byte c).1) get_byte_kept

pub get_string_failed : (c : ParseContext) → HasFailed c → HasFailed (get_string c).1
unfolding get_string
get_string_failed = from_error (λ c. HasFailed (get_string c).1) (λ e rest. kept e rest)

check_size_kept :
    (n : ℕ) (e : Error) (rest : List ℕ)
    → HasFailed (check_size_and_advance n (record { rest = rest; err = some e })).1
unfolding check_size_and_advance
check_size_kept n e rest = elim (Bool-cases (ltb (length rest) n)) [
  | inl short ↦ rw short (kept e rest)
  | inr long ↦ rw long (kept e (drop n rest))
]

pub check_size_failed :
    (n : ℕ) (c : ParseContext) → HasFailed c → HasFailed (check_size_and_advance n c).1
check_size_failed n = from_error (λ c. HasFailed (check_size_and_advance n c).1) (check_size_kept n)

check_kept : (e : Error) (rest : List ℕ) → check (record { rest = rest; err = some e }) ≢ none
unfolding check
check_kept e [] = kept e []
check_kept e (b ∷ rest) = kept e rest

pub check_failed : (c : ParseContext) → HasFailed c → check c ≢ none
check_failed = from_error (λ c. check c ≢ none) check_kept

pub check_nonnegative_failed :
    (z : ℤ) (c : ParseContext) → HasFailed c → HasFailed (check_nonnegative z c).1
check_nonnegative_failed (pos n) c h = h
check_nonnegative_failed (negsuc n) c h =
    from_error (λ c. HasFailed (check_nonnegative (negsuc n) c).1) (λ e rest. kept e rest) c h

module _ (endian : Endian) where
  get_int16_kept :
      (e : Error) (rest : List ℕ)
      → HasFailed (get_int16 endian (record { rest = rest; err = some e })).1
  unfolding get_int16
  get_int16_kept e (a ∷ b ∷ rest) = kept e rest
  get_int16_kept e rest = kept e rest

  get_int32_kept :
      (e : Error) (rest : List ℕ)
      → HasFailed (get_int32 endian (record { rest = rest; err = some e })).1
  unfolding get_int32
  get_int32_kept e (a ∷ b ∷ c ∷ d ∷ rest) = kept e rest
  get_int32_kept e rest = kept e rest

  pub get_int16_failed : (c : ParseContext) → HasFailed c → HasFailed (get_int16 endian c).1
  get_int16_failed = from_error (λ c. HasFailed (get_int16 endian c).1) get_int16_kept

  pub get_int32_failed : (c : ParseContext) → HasFailed c → HasFailed (get_int32 endian c).1
  get_int32_failed = from_error (λ c. HasFailed (get_int32 endian c).1) get_int32_kept

-- Success: every byte was taken, and nothing failed.
pub check-eq-none : (c : ParseContext) → check c ≡ none → (c.rest ≡ []) × (c.err ≡ none)
unfolding check
check-eq-none c h = by_parts c.rest c.err h
  where
    by_parts :
        (rest : List ℕ) (err : ErrorCode)
        → check (record { rest = rest; err = err }) ≡ none
        → (rest ≡ []) × (err ≡ none)
    by_parts [] err g = (refl, g)
    by_parts (b ∷ rest) none g = cc
    by_parts (b ∷ rest) (some e) g = cc
