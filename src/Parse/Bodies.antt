-- ===== src/Parse/Bodies.antt =====
-- The parse functions of src/messages.cpp, one for each message of the server that has fields.
-- What a parse that fails leaves in its output is not modelled: all callers drop it.
use nativepg.Prelude.{
  ℕ, zero, suc, ◌+◌, ◌-◌, ◌*◌, ℤ, pos, negsuc, Bool, true, false, not, ◌&&◌, ◌||◌, List, [], ◌∷◌,
  Option, none, some, ◌⊎◌, inl, inr, if◌then◌else◌, length, take, ◌==◌,
}
use nativepg.Protocol.{Error, ErrorCode, client, protocol_value_error, extra_bytes}
use nativepg.Wire.{Endian}
use nativepg.Wire.Bind.{FormatCode, text, binary}
use nativepg.Parse.{
  Parser, parse_context, ◌>>=◌, ◌>>◌, return, first, add_error, get_byte, get_int16, get_int32,
  get_nonnegative_int16, get_nonnegative_int32, get_string, check_size_and_advance, take_bytes,
  check,
}
use nativepg.Parse.Messages.{
  ForwardView, RandomAccessView, TransactionStatus, idle, in_transaction, failed, other,
  BackendKeyData, CopyResponse, NegotiateProtocolVersion, NotificationResponse, ParameterStatus,
}

-- `return ctx.check()`
abbrev pub finish_with : {A : Type 0} → ErrorCode → A → Error ⊎ A
finish_with none a = inr a
finish_with (some e) a = inl e

abbrev pub run_parser : {A : Type 0} → Parser A → List ℕ → Error ⊎ A
run_parser m body = let (a, c) = m (parse_context body) in finish_with (check c) a

-- check_empty
unfoldable pub check_empty : {A : Type 0} → A → List ℕ → Error ⊎ A
check_empty a [] = inr a
check_empty a (b ∷ bytes) = inl (client extra_bytes)

-- The span between two calls of first(), of which the second is what is left of the first.
abbrev pub span_between : List ℕ → List ℕ → List ℕ
span_between begin rest = take (length begin - length rest) begin

abbrev pub add_error_if : Bool → Parser (Unit {0})
add_error_if true = add_error (some (client protocol_value_error))
add_error_if false = return tt

unfoldable pub transaction_status : ℕ → TransactionStatus
transaction_status b =
    if b == b'I'
    then idle
    else if b == b'T'
    then in_transaction
    else if b == b'E'
    then failed
    else other b

unfoldable pub is_valid_status : TransactionStatus → Bool
is_valid_status (other b) = false
is_valid_status _ = true

unfoldable pub parse_ready_for_query : List ℕ → Error ⊎ TransactionStatus
unfolding transaction_status is_valid_status
parse_ready_for_query = run_parser (do
  b ← get_byte
  let status = transaction_status b
  add_error_if (not (is_valid_status status))
  return status)

unfoldable pub parse_authentication_md5_password : List ℕ → Error ⊎ List ℕ
parse_authentication_md5_password = run_parser (take_bytes 4 (0 ∷ 0 ∷ 0 ∷ 0 ∷ []))

abbrev pub is_empty : List ℕ → Bool
is_empty [] = true
is_empty (b ∷ bytes) = false

-- `while (!ctx.get_string().empty()) ++num_items`. Each round but the last takes a byte, so that as
-- many rounds as there are bytes leave only the last one.
unfoldable pub strings_loop : ℕ → ℕ → Parser ℕ
strings_loop zero num_items = do s ← get_string; return num_items
strings_loop (suc fuel) num_items = do
  s ← get_string
  let rest = strings_loop fuel (num_items + 1)
  if is_empty s then return num_items else rest

unfoldable pub sasl_parser : ℕ → Parser ForwardView
unfolding strings_loop
sasl_parser fuel = do
  mechanisms_first ← first
  num_items ← strings_loop fuel 0
  current ← first
  let used : ℕ = length mechanisms_first - length current
  return (record { size = num_items; span = take (used - 1) mechanisms_first })

unfoldable pub parse_authentication_sasl : List ℕ → Error ⊎ ForwardView
unfolding sasl_parser
parse_authentication_sasl body = run_parser (sasl_parser (length body)) body

unfoldable pub parse_command_complete : List ℕ → Error ⊎ List ℕ
parse_command_complete = run_parser get_string

abbrev pub get_strings : ℕ → Parser (Unit {0})
get_strings zero = return tt
get_strings (suc n) = do s ← get_string; get_strings n

-- A format code, if it is one.
unfoldable pub format_code : ℤ → Option FormatCode
format_code (pos zero) = some text
format_code (pos (suc zero)) = some binary
format_code _ = none

abbrev pub is_text : Option FormatCode → Bool
is_text (some text) = true
is_text _ = false

abbrev pub is_valid_format_code : Option FormatCode → Bool
is_valid_format_code none = false
is_valid_format_code (some c) = true

abbrev pub no_copy_response : CopyResponse
no_copy_response = record { overall_fmt_code = text; fmt_codes = record { memory = []; size = 0 } }

module _ (endian : Endian) where
  unfoldable pub parse_backend_key_data : List ℕ → Error ⊎ BackendKeyData
  parse_backend_key_data = run_parser (do
    p ← get_int32 endian
    k ← get_int32 endian
    return (record { process_id = p; secret_key = k }))

  unfoldable pub fmt_codes_loop : Bool → ℕ → Parser (Unit {0})
  unfolding format_code
  fmt_codes_loop should_be_text zero = return tt
  fmt_codes_loop should_be_text (suc n) = do
    z ← get_int16 endian
    let code = format_code z
    add_error_if (should_be_text && not (is_text code) || not (is_valid_format_code code))
    fmt_codes_loop should_be_text n

  unfoldable pub copy_response_of : Option FormatCode → Parser CopyResponse
  unfolding fmt_codes_loop
  copy_response_of none = do add_error (some (client protocol_value_error)); return no_copy_response
  copy_response_of (some overall_code) = do
    num_items ← get_nonnegative_int16 endian
    fmt_codes_first ← first
    fmt_codes_loop (is_text (some overall_code)) num_items
    return (record {
      overall_fmt_code = overall_code;
      fmt_codes = record { memory = fmt_codes_first; size = num_items };
    })

  unfoldable pub copy_parser : Parser CopyResponse
  unfolding copy_response_of
  copy_parser = do b ← get_byte; copy_response_of (format_code (pos b))

  unfoldable pub parse_copy_response : List ℕ → Error ⊎ CopyResponse
  unfolding copy_parser
  parse_copy_response = run_parser copy_parser

  abbrev pub check_column : ℤ → Parser (Unit {0})
  check_column (pos n) = check_size_and_advance n
  check_column (negsuc zero) = return tt
  check_column (negsuc (suc n)) = add_error (some (client protocol_value_error))

  unfoldable pub columns_loop : ℕ → Parser (Unit {0})
  columns_loop zero = return tt
  columns_loop (suc n) = do value_size ← get_int32 endian; check_column value_size; columns_loop n

  unfoldable pub data_row_parser : Parser ForwardView
  unfolding columns_loop
  data_row_parser = do
    num_columns ← get_nonnegative_int16 endian
    values_begin ← first
    columns_loop num_columns
    values_end ← first
    return (record { size = num_columns; span = span_between values_begin values_end })

  unfoldable pub parse_data_row : List ℕ → Error ⊎ ForwardView
  unfolding data_row_parser
  parse_data_row = run_parser data_row_parser

  unfoldable pub negotiate_parser : Parser NegotiateProtocolVersion
  negotiate_parser = do
    minor ← get_nonnegative_int32 endian
    num_ops ← get_nonnegative_int32 endian
    opts_first ← first
    get_strings num_ops
    opts_last ← first
    return (record {
      minor_version = minor;
      non_recognized_options = record { size = num_ops; span = span_between opts_first opts_last };
    })

  unfoldable pub parse_negotiate_protocol_version : List ℕ → Error ⊎ NegotiateProtocolVersion
  unfolding negotiate_parser
  parse_negotiate_protocol_version = run_parser negotiate_parser

  unfoldable pub parse_notification_response : List ℕ → Error ⊎ NotificationResponse
  parse_notification_response = run_parser (do
    p ← get_int32 endian
    c ← get_string
    s ← get_string
    return (record { process_id = p; channel_name = c; payload = s }))

  -- The output has no name in the source: its view stays the empty one.
  unfoldable pub parse_parameter_description : List ℕ → Error ⊎ RandomAccessView
  parse_parameter_description = run_parser (do
    num_params ← get_nonnegative_int16 endian
    check_size_and_advance (num_params * 4)
    return (record { memory = []; size = 0 }))

  -- A field description: its name, the fixed fields up to the format code, and that.
  unfoldable pub descriptions_loop : ℕ → Parser (Unit {0})
  unfolding format_code
  descriptions_loop zero = return tt
  descriptions_loop (suc n) = do
    s ← get_string
    check_size_and_advance 16
    z ← get_int16 endian
    add_error_if (not (is_valid_format_code (format_code z)))
    descriptions_loop n

  unfoldable pub row_description_parser : Parser ForwardView
  unfolding descriptions_loop
  row_description_parser = do
    num_items ← get_nonnegative_int16 endian
    data_first ← first
    descriptions_loop num_items
    data_last ← first
    return (record { size = num_items; span = span_between data_first data_last })

  unfoldable pub parse_row_description : List ℕ → Error ⊎ ForwardView
  unfolding row_description_parser
  parse_row_description = run_parser row_description_parser

unfoldable pub parse_parameter_status : List ℕ → Error ⊎ ParameterStatus
parse_parameter_status =
    run_parser (do n ← get_string; v ← get_string; return (record { name = n; value = v }))
