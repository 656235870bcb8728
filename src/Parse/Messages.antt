-- ===== src/Parse/Messages.antt =====
-- The messages of the server (include/nativepg/protocol: startup.hpp, async.hpp, copy.hpp,
-- data_row.hpp, describe.hpp, notice_error.hpp, ready_for_query.hpp) and any_backend_message, the
-- union of them. A view is the bytes that it looks at.
use nativepg.Prelude.{ℕ, ℤ, List, Option, none}
use nativepg.Protocol.{Kind, BackendMessage}
use nativepg.Wire.Bind.{FormatCode}

-- forward_parsing_view: a number of items and the span of their bytes.
pub record ForwardView : Type 0 where
  pub size : ℕ
  pub span : List ℕ

-- random_access_parsing_view: what stands in memory from the first item on, and a number of items.
pub record RandomAccessView : Type 0 where
  pub memory : List ℕ
  pub size : ℕ

-- transaction_status; a character that is no status is kept.
pub data TransactionStatus : Type 0 where
  idle in_transaction failed : TransactionStatus
  other : ℕ → TransactionStatus

pub record BackendKeyData : Type 0 where
  pub process_id : ℤ
  pub secret_key : ℤ

pub record CopyResponse : Type 0 where
  pub overall_fmt_code : FormatCode
  pub fmt_codes : RandomAccessView

pub record NegotiateProtocolVersion : Type 0 where
  pub minor_version : ℕ
  pub non_recognized_options : ForwardView

pub record NotificationResponse : Type 0 where
  pub process_id : ℤ
  pub channel_name : List ℕ
  pub payload : List ℕ

pub record ParameterStatus : Type 0 where
  pub name : List ℕ
  pub value : List ℕ

-- error_notice_fields
pub record ErrorNoticeFields : Type 0 where
  pub severity : Option (List ℕ)
  pub localized_severity : Option (List ℕ)
  pub sqlstate : Option (List ℕ)
  pub message : Option (List ℕ)
  pub detail : Option (List ℕ)
  pub hint : Option (List ℕ)
  pub position : Option (List ℕ)
  pub internal_position : Option (List ℕ)
  pub internal_query : Option (List ℕ)
  pub where_field : Option (List ℕ)
  pub schema_name : Option (List ℕ)
  pub table_name : Option (List ℕ)
  pub column_name : Option (List ℕ)
  pub data_type_name : Option (List ℕ)
  pub constraint_name : Option (List ℕ)
  pub file_name : Option (List ℕ)
  pub line_number : Option (List ℕ)
  pub routine : Option (List ℕ)

abbrev pub no_error_fields : ErrorNoticeFields
no_error_fields = record {
  severity = none;
  localized_severity = none;
  sqlstate = none;
  message = none;
  detail = none;
  hint = none;
  position = none;
  internal_position = none;
  internal_query = none;
  where_field = none;
  schema_name = none;
  table_name = none;
  column_name = none;
  data_type_name = none;
  constraint_name = none;
  file_name = none;
  line_number = none;
  routine = none;
}

-- any_backend_message. The union's members that parse_any_message never makes are left out, and so
-- are the accessors, which throw where the kind is another.
pub data AnyBackendMessage : Type 0 where
  authentication_ok authentication_kerberos_v5 : AnyBackendMessage
  authentication_cleartext_password authentication_gss authentication_sspi : AnyBackendMessage
  authentication_md5_password authentication_gss_continue : List ℕ → AnyBackendMessage
  authentication_sasl : ForwardView → AnyBackendMessage
  authentication_sasl_continue authentication_sasl_final : List ℕ → AnyBackendMessage
  backend_key_data : BackendKeyData → AnyBackendMessage
  bind_complete close_complete copy_done empty_query_response no_data : AnyBackendMessage
  parse_complete portal_suspended : AnyBackendMessage
  command_complete copy_data : List ℕ → AnyBackendMessage
  copy_in_response copy_out_response copy_both_response : CopyResponse → AnyBackendMessage
  data_row row_description : ForwardView → AnyBackendMessage
  error_response notice_response : ErrorNoticeFields → AnyBackendMessage
  negotiate_protocol_version : NegotiateProtocolVersion → AnyBackendMessage
  notification_response : NotificationResponse → AnyBackendMessage
  parameter_description : RandomAccessView → AnyBackendMessage
  parameter_status : ParameterStatus → AnyBackendMessage
  ready_for_query : TransactionStatus → AnyBackendMessage

-- any_backend_message::type
unfoldable pub type : AnyBackendMessage → Kind
type authentication_ok = Kind.authentication_ok
type authentication_kerberos_v5 = Kind.authentication_kerberos_v5
type authentication_cleartext_password = Kind.authentication_cleartext_password
type authentication_gss = Kind.authentication_gss
type authentication_sspi = Kind.authentication_sspi
type (authentication_md5_password s) = Kind.authentication_md5_password
type (authentication_gss_continue s) = Kind.authentication_gss_continue
type (authentication_sasl v) = Kind.authentication_sasl
type (authentication_sasl_continue s) = Kind.authentication_sasl_continue
type (authentication_sasl_final s) = Kind.authentication_sasl_final
type (backend_key_data v) = Kind.backend_key_data
type bind_complete = Kind.bind_complete
type close_complete = Kind.close_complete
type copy_done = Kind.copy_done
type empty_query_response = Kind.empty_query_response
type no_data = Kind.no_data
type parse_complete = Kind.parse_complete
type portal_suspended = Kind.portal_suspended
type (command_complete s) = Kind.command_complete
type (copy_data s) = Kind.copy_data
type (copy_in_response v) = Kind.copy_in_response
type (copy_out_response v) = Kind.copy_out_response
type (copy_both_response v) = Kind.copy_both_response
type (data_row v) = Kind.data_row
type (row_description v) = Kind.row_description
type (error_response v) = Kind.error_response
type (notice_response v) = Kind.notice_response
type (negotiate_protocol_version v) = Kind.negotiate_protocol_version
type (notification_response v) = Kind.notification_response
type (parameter_description v) = Kind.parameter_description
type (parameter_status v) = Kind.parameter_status
type (ready_for_query s) = Kind.ready_for_query

-- A parsed message with the bytes that its views look at.
pub record Parsed : Type 0 where
  pub message : AnyBackendMessage
  pub body : List ℕ

-- What the state machines are handed.
abbrev pub as_backend : Parsed → BackendMessage
as_backend p = record { kind = type p.message; body = p.body }
