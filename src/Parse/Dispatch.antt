-- ===== src/Parse/Dispatch.antt =====
-- parse_any_message and parse_message of src/messages.cpp: a message of the server from its bytes.
use nativepg.Prelude.{
  ℕ, ◌+◌, ◌-◌, ℤ, pos, negsuc, List, ◌∷◌, Option, none, some, ◌⊎◌, inl, inr, if◌then◌else◌, length,
  take, ltb, ◌==◌,
}
use nativepg.Protocol.{Error, client, incomplete_message, protocol_value_error}
use nativepg.Wire.{Endian}
use nativepg.Wire.Framing.{MessageHeader, parse_header, required_size}
use nativepg.Parse.Messages.{AnyBackendMessage, ErrorNoticeFields, Parsed}
use nativepg.Parse.Fields.{parse_error_notice}
use nativepg.Parse.Bodies.{
  finish_with, check_empty, parse_ready_for_query, parse_authentication_md5_password,
  parse_authentication_sasl, parse_command_complete, parse_backend_key_data, parse_copy_response,
  parse_data_row, parse_negotiate_protocol_version, parse_notification_response,
  parse_parameter_description, parse_row_description, parse_parameter_status,
}

-- backend_message_type
pub data BackendMessageType : Type 0 where
  authentication_request backend_key_data bind_complete close_complete : BackendMessageType
  command_complete copy_data copy_done copy_in_response copy_out_response : BackendMessageType
  copy_both_response data_row empty_query_response error_response : BackendMessageType
  negotiate_protocol_version no_data notice_response notification_response : BackendMessageType
  parameter_description parameter_status parse_complete portal_suspended : BackendMessageType
  ready_for_query row_description : BackendMessageType

-- The cast of a byte; `none` for any other.
unfoldable pub backend_message_type : ℕ → Option BackendMessageType
backend_message_type b =
    if b == b'R'
    then some authentication_request
    else if b == b'K'
    then some backend_key_data
    else if b == b'2'
    then some bind_complete
    else if b == b'3'
    then some close_complete
    else if b == b'C'
    then some command_complete
    else if b == b'd'
    then some copy_data
    else if b == b'c'
    then some copy_done
    else if b == b'G'
    then some copy_in_response
    else if b == b'H'
    then some copy_out_response
    else if b == b'W'
    then some copy_both_response
    else if b == b'D'
    then some data_row
    else if b == b'I'
    then some empty_query_response
    else if b == b'E'
    then some error_response
    else if b == b'v'
    then some negotiate_protocol_version
    else if b == b'n'
    then some no_data
    else if b == b'N'
    then some notice_response
    else if b == b'A'
    then some notification_response
    else if b == b't'
    then some parameter_description
    else if b == b'S'
    then some parameter_status
    else if b == b'1'
    then some parse_complete
    else if b == b's'
    then some portal_suspended
    else if b == b'Z'
    then some ready_for_query
    else if b == b'T'
    then some row_description
    else none

-- authentication_message_type
pub data AuthenticationMessageType : Type 0 where
  ok kerberos_v5 cleartext_password md5_password gss : AuthenticationMessageType
  gss_continue sspi sasl sasl_continue sasl_final : AuthenticationMessageType

unfoldable pub authentication_message_type : ℤ → Option AuthenticationMessageType
authentication_message_type (negsuc n) = none
authentication_message_type (pos n) =
    if n == 0
    then some ok
    else if n == 2
    then some kerberos_v5
    else if n == 3
    then some cleartext_password
    else if n == 5
    then some md5_password
    else if n == 7
    then some gss
    else if n == 8
    then some gss_continue
    else if n == 9
    then some sspi
    else if n == 10
    then some sasl
    else if n == 11
    then some sasl_continue
    else if n == 12
    then some sasl_final
    else none

-- parse_any_message_impl, of a message that was parsed from `from`.
abbrev pub any_message :
    {A : Type 0} → (A → AnyBackendMessage) → List ℕ → Error ⊎ A → Error ⊎ Parsed
any_message make from (inl e) = inl e
any_message make from (inr a) = inr (record { message = make a; body = from })

abbrev pub no_fields_message : AnyBackendMessage → List ℕ → Error ⊎ Parsed
no_fields_message m from = any_message (λ x. x) from (check_empty m from)

-- A message that is all of its bytes.
abbrev pub bytes_message : (List ℕ → AnyBackendMessage) → List ℕ → Error ⊎ Parsed
bytes_message make from = inr (record { message = make from; body = from })

abbrev pub notice_message : (ErrorNoticeFields → AnyBackendMessage) → List ℕ → Error ⊎ Parsed
notice_message make from =
    let (ec, to) = parse_error_notice from in any_message make from (finish_with ec to)

unfoldable pub parse_authentication : Option AuthenticationMessageType → List ℕ → Error ⊎ Parsed
parse_authentication none from = inl (client protocol_value_error)
parse_authentication (some ok) from = no_fields_message AnyBackendMessage.authentication_ok from
parse_authentication (some kerberos_v5) from =
    no_fields_message AnyBackendMessage.authentication_kerberos_v5 from
parse_authentication (some cleartext_password) from =
    no_fields_message AnyBackendMessage.authentication_cleartext_password from
parse_authentication (some md5_password) from =
    any_message AnyBackendMessage.authentication_md5_password from
      (parse_authentication_md5_password from)
parse_authentication (some gss) from = no_fields_message AnyBackendMessage.authentication_gss from
parse_authentication (some gss_continue) from =
    bytes_message AnyBackendMessage.authentication_gss_continue from
parse_authentication (some sspi) from = no_fields_message AnyBackendMessage.authentication_sspi from
parse_authentication (some sasl) from =
    any_message AnyBackendMessage.authentication_sasl from (parse_authentication_sasl from)
parse_authentication (some sasl_continue) from =
    bytes_message AnyBackendMessage.authentication_sasl_continue from
parse_authentication (some sasl_final) from =
    bytes_message AnyBackendMessage.authentication_sasl_final from

module _ (endian : Endian) where
  unfoldable pub parse_authentication_request : List ℕ → Error ⊎ Parsed
  unfolding parse_authentication authentication_message_type
  parse_authentication_request (a ∷ b ∷ c ∷ d ∷ from) =
      parse_authentication (authentication_message_type (endian.load_big_s32 a b c d)) from
  parse_authentication_request from = inl (client incomplete_message)

  -- The switch of parse_any_message.
  unfoldable pub parse_as : Option BackendMessageType → List ℕ → Error ⊎ Parsed
  unfolding parse_authentication_request
  parse_as none body = inl (client protocol_value_error)
  parse_as (some authentication_request) body = parse_authentication_request body
  parse_as (some backend_key_data) body =
      any_message AnyBackendMessage.backend_key_data body (parse_backend_key_data endian body)
  parse_as (some bind_complete) body = no_fields_message AnyBackendMessage.bind_complete body
  parse_as (some close_complete) body = no_fields_message AnyBackendMessage.close_complete body
  parse_as (some command_complete) body =
      any_message AnyBackendMessage.command_complete body (parse_command_complete body)
  parse_as (some copy_data) body = bytes_message AnyBackendMessage.copy_data body
  parse_as (some copy_done) body = no_fields_message AnyBackendMessage.copy_done body
  parse_as (some copy_in_response) body =
      any_message AnyBackendMessage.copy_in_response body (parse_copy_response endian body)
  parse_as (some copy_out_response) body =
      any_message AnyBackendMessage.copy_out_response body (parse_copy_response endian body)
  parse_as (some copy_both_response) body =
      any_message AnyBackendMessage.copy_both_response body (parse_copy_response endian body)
  parse_as (some data_row) body =
      any_message AnyBackendMessage.data_row body (parse_data_row endian body)
  parse_as (some empty_query_response) body =
      no_fields_message AnyBackendMessage.empty_query_response body
  parse_as (some error_response) body = notice_message AnyBackendMessage.error_response body
  parse_as (some negotiate_protocol_version) body =
      any_message AnyBackendMessage.negotiate_protocol_version body
        (parse_negotiate_protocol_version endian body)
  parse_as (some no_data) body = no_fields_message AnyBackendMessage.no_data body
  parse_as (some notice_response) body = notice_message AnyBackendMessage.notice_response body
  parse_as (some notification_response) body =
      any_message AnyBackendMessage.notification_response body
        (parse_notification_response endian body)
  parse_as (some parameter_description) body =
      any_message AnyBackendMessage.parameter_description body
        (parse_parameter_description endian body)
  parse_as (some parameter_status) body =
      any_message AnyBackendMessage.parameter_status body (parse_parameter_status body)
  parse_as (some parse_complete) body = no_fields_message AnyBackendMessage.parse_complete body
  parse_as (some portal_suspended) body = no_fields_message AnyBackendMessage.portal_suspended body
  parse_as (some ready_for_query) body =
      any_message AnyBackendMessage.ready_for_query body (parse_ready_for_query body)
  parse_as (some row_description) body =
      any_message AnyBackendMessage.row_description body (parse_row_description endian body)

  unfoldable pub parse_any_message : ℕ → List ℕ → Error ⊎ Parsed
  unfolding parse_as backend_message_type
  parse_any_message message_type body = parse_as (backend_message_type message_type) body

-- parse_message_result: an error, the number of bytes that are missing, or a message and its size.
pub data ParseMessageResult : Type 0 where
  failed : Error → ParseMessageResult
  more : ℕ → ParseMessageResult
  complete : Parsed → ℕ → ParseMessageResult

abbrev pub with_size : ℕ → Error ⊎ Parsed → ParseMessageResult
with_size required (inl e) = failed e
with_size required (inr msg) = complete msg required

module _ (endian : Endian) where
  -- What is done with a header; `rest` are the bytes behind it.
  unfoldable pub parse_rest : List ℕ → Error ⊎ MessageHeader → ParseMessageResult
  parse_rest rest (inl e) = failed e
  parse_rest rest (inr h) =
      if ltb (length rest + 5) (required_size h)
      then more (required_size h - (length rest + 5))
      else with_size (required_size h)
          (parse_any_message endian h.type (take (required_size h - 5) rest))

  unfoldable pub parse_message : List ℕ → ParseMessageResult
  unfolding parse_rest
  parse_message (t ∷ a ∷ b ∷ c ∷ d ∷ rest) = parse_rest rest (parse_header endian t a b c d)
  parse_message bytes = more (5 - length bytes)
