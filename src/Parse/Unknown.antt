-- ===== src/Parse/Unknown.antt =====
-- populate_field of src/messages.cpp on a field whose type it does not know.
use nativepg.Prelude.{ℕ, ◌≡◌, ◌≢◌, refl, List, ◌∷◌, ◌++◌, some, none, arith, ◌==◌, false}
use nativepg.Protocol.{client, extra_bytes}
use nativepg.Parse.{get_byte, check, check_extra_bytes}
use nativepg.Parse.Messages.{no_error_fields}
use nativepg.Parse.Fields.{error_field_type, parse_error_notice}

not_zero : (t : ℕ) → t ≢ 0 → (t == 0) ≡ false
not_zero t h = ground arith

-- A field of an error or a notice whose type is not known, in front of any others: the type alone is
-- passed over, and its value is read as if it were more fields. So where the value is empty, the
-- message is refused for the bytes behind it.
pub unknown_field_is_read :
    (t : ℕ)
    → t ≢ 0
    → error_field_type t ≡ none
    → (value : List ℕ) (b : ℕ) (rest : List ℕ)
    → (parse_error_notice (t ∷ (value ++ (0 ∷ b ∷ rest)))
        ≡ parse_error_notice (value ++ (0 ∷ b ∷ rest)))
      × (parse_error_notice (t ∷ 0 ∷ b ∷ rest) ≡ (some (client extra_bytes), no_error_fields))
unfolding parse_error_notice get_byte check check_extra_bytes
unknown_field_is_read t nz unknown value b rest =
    (rw (not_zero t nz, unknown) refl, rw (not_zero t nz, unknown) refl)
