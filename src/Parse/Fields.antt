-- ===== src/Parse/Fields.antt =====
-- The fields of an error or a notice (src/messages.cpp): populate_field and parse_error_notice.
use nativepg.Prelude.{ℕ, zero, suc, List, Option, none, some, if◌then◌else◌, length, ◌==◌}
use nativepg.Protocol.{ErrorCode}
use nativepg.Parse.{Parser, parse_context, ◌>>=◌, return, get_byte, get_string, check}
use nativepg.Parse.Messages.{ErrorNoticeFields, no_error_fields}

-- error_field_type; `none` for any other byte.
pub data ErrorFieldType : Type 0 where
  severity_i18n severity sqlstate message detail hint position internal_position : ErrorFieldType
  internal_query where_field schema_name table_name column_name data_type_name : ErrorFieldType
  constraint_name file_name line_number routine : ErrorFieldType

unfoldable pub error_field_type : ℕ → Option ErrorFieldType
error_field_type b =
    if b == b'S'
    then some severity_i18n
    else if b == b'V'
    then some severity
    else if b == b'C'
    then some sqlstate
    else if b == b'M'
    then some message
    else if b == b'D'
    then some detail
    else if b == b'H'
    then some hint
    else if b == b'P'
    then some position
    else if b == b'p'
    then some internal_position
    else if b == b'q'
    then some internal_query
    else if b == b'W'
    then some where_field
    else if b == b's'
    then some schema_name
    else if b == b't'
    then some table_name
    else if b == b'c'
    then some column_name
    else if b == b'd'
    then some data_type_name
    else if b == b'n'
    then some constraint_name
    else if b == b'F'
    then some file_name
    else if b == b'L'
    then some line_number
    else if b == b'R'
    then some routine
    else none

abbrev pub store_field : ErrorFieldType → List ℕ → ErrorNoticeFields → ErrorNoticeFields
store_field severity_i18n s to = record to { localized_severity = some s }
store_field severity s to = record to { severity = some s }
store_field sqlstate s to = record to { sqlstate = some s }
store_field message s to = record to { message = some s }
store_field detail s to = record to { detail = some s }
store_field hint s to = record to { hint = some s }
store_field position s to = record to { position = some s }
store_field internal_position s to = record to { internal_position = some s }
store_field internal_query s to = record to { internal_query = some s }
store_field where_field s to = record to { where_field = some s }
store_field schema_name s to = record to { schema_name = some s }
store_field table_name s to = record to { table_name = some s }
store_field column_name s to = record to { column_name = some s }
store_field data_type_name s to = record to { data_type_name = some s }
store_field constraint_name s to = record to { constraint_name = some s }
store_field file_name s to = record to { file_name = some s }
store_field line_number s to = record to { line_number = some s }
store_field routine s to = record to { routine = some s }

-- Nothing is read for a byte that is no type.
abbrev pub populate_field : Option ErrorFieldType → ErrorNoticeFields → Parser ErrorNoticeFields
populate_field none to = return to
populate_field (some t) to = do s ← get_string; return (store_field t s to)

-- The loop of parse_error_notice. Each round but the last takes a byte, so that as many rounds as
-- there are bytes leave only the last one, which reads a 0.
unfoldable pub fields_loop : ℕ → ErrorNoticeFields → Parser ErrorNoticeFields
fields_loop zero to = do type_byte ← get_byte; return to
fields_loop (suc fuel) to = do
  type_byte ← get_byte
  let rest = do fields ← populate_field (error_field_type type_byte) to; fields_loop fuel fields
  if type_byte == 0 then return to else rest

unfoldable pub parse_error_notice : List ℕ → ErrorCode × ErrorNoticeFields
unfolding fields_loop
parse_error_notice body =
    let (to, c) = fields_loop (length body) no_error_fields (parse_context body) in (check c, to)
