-- ===== src/Parse.antt =====
-- src/parse_context.hpp: the reader that parses a message from its bytes, and keeps the first error.
-- The children hold the messages of the server (include/nativepg/protocol/any_backend_message.hpp),
-- their parse functions and parse_message (src/messages.cpp), and the views of a message's items
-- (include/nativepg/protocol/views.hpp).

pub mod Messages
pub mod Fields
pub mod Bodies
pub mod Dispatch
pub mod Views
pub mod Strings
pub mod Sticky
pub mod Walks
pub mod Described
pub mod Lists
pub mod Accepted
pub mod Readable
pub mod Answers
pub mod Encoded
pub mod Rows
pub mod Descriptions
pub mod RoundTrip
pub mod Unknown
pub mod Contained
pub mod CommandTag
pub mod Counted
mod Tests
use nativepg.Prelude.{
  ℕ, zero, suc, ◌-◌, ◌<◌, ℤ, pos, negsuc, Bool, true, false, List, [], ◌∷◌, ◌++◌, Option, none,
  some, if◌then◌else◌, length, take, drop, ltb, is_negative,
}
use nativepg.Protocol.{ErrorCode, client, incomplete_message, protocol_value_error, extra_bytes}
use nativepg.Wire.{Endian}

-- parse_context: the bytes from first_ to last_, and ec_.
pub record ParseContext : Type 0 where
  pub rest : List ℕ
  pub err : ErrorCode

abbrev pub parse_context : List ℕ → ParseContext
parse_context range = record { rest = range; err = none }

-- A method that returns a value, and what it leaves.
abbrev pub Parser : Type 0 → Type 0
Parser A = ParseContext → A × ParseContext

infixl 5 ◌>>=◌ ◌>>◌
abbrev pub ◌>>=◌ : {A B : Type 0} → Parser A → (A → Parser B) → Parser B
◌>>=◌ m f c = let (a, c') = m c in f a c'

abbrev pub ◌>>◌ : {A B : Type 0} → Parser A → Parser B → Parser B
◌>>◌ m k c = k (m c).1

abbrev pub return : {A : Type 0} → A → Parser A
return a c = (a, c)

-- `first()`, as the bytes that are there.
abbrev pub first : Parser (List ℕ)
first c = (c.rest, c)

abbrev pub keep_first : ErrorCode → ErrorCode → ErrorCode
keep_first none ec = ec
keep_first (some e) ec = some e

unfoldable pub add_error : ErrorCode → Parser (Unit {0})
add_error ec c = (tt, record c { err = keep_first c.err ec })

abbrev pub incomplete : ParseContext → ParseContext
incomplete c = record c { err = keep_first c.err (some (client incomplete_message)) }

-- What a getter does once it has an error, or has none.
abbrev pub unless_failed {ℓ} : {A : Type ℓ} → ErrorCode → A → A → A
unless_failed none failed good = good
unless_failed (some e) failed good = failed

abbrev take_byte : List ℕ → ErrorCode → ℕ × ParseContext
take_byte [] err = (0, incomplete (record { rest = []; err = err }))
take_byte (b ∷ bytes) none = (b, record { rest = bytes; err = none })
take_byte (b ∷ bytes) (some e) = (0, record { rest = b ∷ bytes; err = some e })

unfoldable pub get_byte : Parser ℕ
get_byte c = take_byte c.rest c.err

-- Where there are too few bytes for a number, and where there are enough but an error came before.
abbrev too_few : List ℕ → ErrorCode → ℤ × ParseContext
too_few rest err = (pos 0, incomplete (record { rest = rest; err = err }))

abbrev already : List ℕ → ErrorCode → ℤ × ParseContext
already rest err = (pos 0, record { rest = rest; err = err })

module _ (endian : Endian) where
  abbrev take_int16 : List ℕ → ErrorCode → ℤ × ParseContext
  take_int16 (a ∷ b ∷ bytes) none = (endian.load_big_s16 a b, record { rest = bytes; err = none })
  take_int16 (a ∷ b ∷ bytes) (some e) = already (a ∷ b ∷ bytes) (some e)
  take_int16 rest err = too_few rest err

  abbrev take_int32 : List ℕ → ErrorCode → ℤ × ParseContext
  take_int32 (a ∷ b ∷ c ∷ d ∷ bytes) none =
      (endian.load_big_s32 a b c d, record { rest = bytes; err = none })
  take_int32 (a ∷ b ∷ c ∷ d ∷ bytes) (some e) = already (a ∷ b ∷ c ∷ d ∷ bytes) (some e)
  take_int32 rest err = too_few rest err

  -- get_integral, of std::int16_t and of std::int32_t
  unfoldable pub get_int16 : Parser ℤ
  get_int16 c = take_int16 c.rest c.err

  unfoldable pub get_int32 : Parser ℤ
  get_int32 c = take_int32 c.rest c.err

-- The end of get_nonnegative_integral.
abbrev pub check_nonnegative : ℤ → Parser ℕ
check_nonnegative (pos n) c = (n, c)
check_nonnegative (negsuc n) c =
    (0, record c { err = keep_first c.err (some (client protocol_value_error)) })

module _ (endian : Endian) where
  unfoldable pub get_nonnegative_int16 : Parser ℕ
  get_nonnegative_int16 c = let (n, c') = get_int16 endian c in check_nonnegative n c'

  unfoldable pub get_nonnegative_int32 : Parser ℕ
  get_nonnegative_int32 c = let (n, c') = get_int32 endian c in check_nonnegative n c'

-- std::find of the terminator: the string before it and the bytes behind it.
unfoldable pub split_string : List ℕ → Option (List ℕ × List ℕ)
split_string [] = none
split_string (zero ∷ bytes) = some ([], bytes)
split_string (suc b ∷ bytes) = elim (split_string bytes) [
  | none ↦ none
  | some (s, rest) ↦ some (suc b ∷ s, rest)
]

abbrev pub take_string : Option (List ℕ × List ℕ) → Parser (List ℕ)
take_string none c = ([], incomplete c)
take_string (some (s, rest)) c = (s, record c { rest = rest })

unfoldable pub get_string : Parser (List ℕ)
get_string c = unless_failed c.err ([], c) (take_string (split_string c.rest) c)

unfoldable pub check_size_and_advance : ℕ → Parser (Unit {0})
check_size_and_advance n c =
    (tt, if ltb (length c.rest) n then incomplete c else record c { rest = drop n c.rest })

-- get_bytes; get_byte_array has zeros in place of the bytes that it lacks.
abbrev pub take_bytes : ℕ → List ℕ → Parser (List ℕ)
take_bytes n missing c =
    let d = if ltb (length c.rest) n then incomplete c else c in
    unless_failed d.err (missing, d) (take n d.rest, record d { rest = drop n d.rest })

unfoldable pub check_extra_bytes : ParseContext → ParseContext
check_extra_bytes c = elim c.rest [
  | [] ↦ c
  | (b ∷ bytes) ↦ record c { err = keep_first c.err (some (client extra_bytes)) }
]

unfoldable pub check : ParseContext → ErrorCode
unfolding check_extra_bytes
check c = (check_extra_bytes c).err
