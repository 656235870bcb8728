-- ===== src/Parse/Tests.antt =====
-- Messages of the server, parsed.
use nativepg.Prelude.{
  codes, ℕ, ◌+◌, ◌≤◌, ◌^◌, ◌≡◌, refl, List, [], ◌∷◌, ◌++◌, Option, none, some, inl, inr, length,
  arith,
}
use nativepg.Protocol.{client, extra_bytes, incomplete_message, protocol_value_error}
use nativepg.Wire.Framing.{message_missing_bytes, parse_header}
use nativepg.Wire.Frames.{frame}
use nativepg.Wire.Integers.{big_endian, big_endian-EndianLaws}
use nativepg.Parse.{
  check_size_and_advance, get_int16, get_int32, get_nonnegative_int16, check, check_extra_bytes,
  get_byte, get_string, split_string, add_error,
}
use nativepg.Parse.Messages.{AnyBackendMessage, Parsed, no_error_fields}
use nativepg.Parse.Bodies.{parse_data_row, parse_parameter_description}
use nativepg.Parse.Fields.{error_field_type, parse_error_notice}
use nativepg.Parse.Dispatch.{
  backend_message_type, parse_as, parse_any_message, parse_rest, parse_message, complete, more,
}
use nativepg.Parse.Accepted.{IsReadable}
use nativepg.Parse.Readable.{parse_any_message-IsReadable}
use nativepg.Parse.Answers.{Answered, parse_message-Answered}
use nativepg.Parse.RoundTrip.{row, server_body, Says, parse_message-Says}
use nativepg.CharConv.{from_chars, read_digits}
use nativepg.Parse.CommandTag.{parse_affected_rows, parse_command_complete_tag, parsed_line_number}
use nativepg.Parse.Counted.{Counts, parse_command_complete_tag-Counts}
use nativepg.Parse.Unknown.{unknown_field_is_read}

-- NULL and "A".
abbrev two_columns : List ℕ
two_columns = 0 ∷ 2 ∷ 255 ∷ 255 ∷ 255 ∷ 255 ∷ 0 ∷ 0 ∷ 0 ∷ 1 ∷ 65 ∷ []

abbrev parsed_row : Parsed
parsed_row = record {
  message =
      AnyBackendMessage.data_row
        (record { size = 2; span = 255 ∷ 255 ∷ 255 ∷ 255 ∷ 0 ∷ 0 ∷ 0 ∷ 1 ∷ 65 ∷ [] });
  body = two_columns;
}

row_is_parsed : parse_any_message big_endian 68 two_columns ≡ inr parsed_row
unfolding parse_any_message backend_message_type parse_as parse_data_row get_nonnegative_int16
    get_int16 get_int32 check_size_and_advance check check_extra_bytes big_endian
row_is_parsed = refl

parse_any_message-IsReadable_example : IsReadable big_endian parsed_row.message
parse_any_message-IsReadable_example =
    parse_any_message-IsReadable big_endian 68 two_columns row_is_parsed

-- A size behind the end, and a size below -1.
row_too_short :
    parse_data_row big_endian (0 ∷ 1 ∷ 0 ∷ 0 ∷ 0 ∷ 2 ∷ 65 ∷ []) ≡ inl (client incomplete_message)
unfolding parse_data_row get_nonnegative_int16 get_int16 get_int32 check_size_and_advance check
    check_extra_bytes big_endian
row_too_short = refl

row_negative :
    parse_data_row big_endian (0 ∷ 1 ∷ 255 ∷ 255 ∷ 255 ∷ 254 ∷ [])
    ≡ inl (client protocol_value_error)
unfolding parse_data_row get_nonnegative_int16 get_int16 get_int32 add_error check check_extra_bytes
    big_endian
row_negative = refl

-- One parameter is announced and there, and the view of the message has none.
parameters_are_lost :
    parse_parameter_description big_endian (0 ∷ 1 ∷ 0 ∷ 0 ∷ 0 ∷ 23 ∷ [])
    ≡ inr (record { memory = []; size = 0 })
unfolding parse_parameter_description get_nonnegative_int16 get_int16 check_size_and_advance check
    check_extra_bytes big_endian
parameters_are_lost = refl

abbrev cut_row : List ℕ
cut_row = 68 ∷ 0 ∷ 0 ∷ 0 ∷ 15 ∷ 0 ∷ []

parse_message-Answered_example :
    Answered
      (parse_message big_endian)
      cut_row
      (message_missing_bytes big_endian cut_row)
      (parse_message big_endian cut_row)
parse_message-Answered_example =
    parse_message-Answered big_endian big_endian-EndianLaws cut_row (omega arith)

ten_are_missing : parse_message big_endian cut_row ≡ more 10
unfolding parse_message parse_rest parse_header big_endian
ten_are_missing = refl

abbrev columns : List (Option (List ℕ))
columns = none ∷ some (65 ∷ []) ∷ []

fits : 4 + length (server_body big_endian (row columns)) ≤ 2147483647
unfolding big_endian
fits = omega arith

parse_message-Says_example :
    (m : AnyBackendMessage) × (parse_message big_endian
        (frame big_endian 68 (server_body big_endian (row columns)) ++ cut_row)
      ≡ complete
          (record { message = m; body = server_body big_endian (row columns) })
          (5 + length (server_body big_endian (row columns))))
    × Says big_endian (row columns) m
parse_message-Says_example =
    parse_message-Says big_endian big_endian-EndianLaws (row columns) cut_row
      (omega arith, (tt, (omega arith, tt))) fits

x_is_unknown : error_field_type 88 ≡ none
unfolding error_field_type
x_is_unknown = refl

unknown_field_is_read_example :
    (parse_error_notice (88 ∷ ((codes "C99") ++ (0 ∷ 77 ∷ 0 ∷ 0 ∷ [])))
      ≡ parse_error_notice ((codes "C99") ++ (0 ∷ 77 ∷ 0 ∷ 0 ∷ [])))
    × (parse_error_notice (88 ∷ 0 ∷ 77 ∷ 0 ∷ 0 ∷ []) ≡ (some (client extra_bytes), no_error_fields))
unknown_field_is_read_example =
    unknown_field_is_read 88 (omega arith) x_is_unknown (codes "C99") 77 (0 ∷ 0 ∷ [])

-- The value of the unknown field is taken for the SQLSTATE "99".
value_is_taken :
    (parse_error_notice (88 ∷ 67 ∷ 57 ∷ 57 ∷ 0 ∷ 0 ∷ [])).1.sqlstate ≡ some (57 ∷ 57 ∷ [])
unfolding parse_error_notice error_field_type get_byte get_string split_string
value_is_taken = refl

-- "INSERT 0 12" and "SELECT 7x".
abbrev inserted_tag : List ℕ
inserted_tag = codes "INSERT 0 12"

abbrev selected_tag : List ℕ
selected_tag = codes "SELECT 7x"

rows_inserted : parse_command_complete_tag inserted_tag ≡ (none, some 12)
unfolding parse_command_complete_tag parse_affected_rows from_chars read_digits
rows_inserted = refl

no_rows_selected : parse_command_complete_tag selected_tag ≡ (some (client extra_bytes), none)
unfolding parse_command_complete_tag parse_affected_rows from_chars read_digits
no_rows_selected = refl

-- Line 12, and line "12," of which something is left.
lines_read :
    (parsed_line_number (from_chars (2 ^ 64)) (some (49 ∷ 50 ∷ [])) ≡ some 12)
    × (parsed_line_number (from_chars (2 ^ 64)) (some (codes "12,")) ≡ none)
unfolding from_chars read_digits
lines_read = (refl, refl)

parse_command_complete_tag-Counts_example :
    ((parse_command_complete_tag inserted_tag).1 ≡ some 12 → Counts 12 inserted_tag)
    × (Counts 12 inserted_tag → parse_command_complete_tag inserted_tag ≡ (none, some 12))
parse_command_complete_tag-Counts_example = parse_command_complete_tag-Counts inserted_tag 12
