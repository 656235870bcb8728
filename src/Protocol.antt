-- ===== src/Protocol.antt =====
-- include/nativepg/client_errc.hpp, include/nativepg/protocol/any_backend_message.hpp,
-- include/nativepg/request.hpp (the message types) and
-- include/nativepg/responses/response_handler.hpp: the vocabulary of the protocol.
use nativepg.Prelude.{ℕ, List, [], ◌∷◌, Option}

-- The library's own error codes.
pub data ClientErrc : Type 0 where
  incomplete_message protocol_value_error extra_bytes value_too_big invalid_base64 : ClientErrc
  invalid_scram_message mandatory_scram_extension_not_supported : ClientErrc
  scram_mechanisms_unsupported scram_invalid_nonce scram_invalid_server_signature : ClientErrc
  unexpected_message incompatible_response_length incompatible_response_type : ClientErrc
  unexpected_null incompatible_field_type field_not_found : ClientErrc
  auth_kerberos_v5_unsupported auth_cleartext_password_unsupported : ClientErrc
  auth_md5_password_unsupported auth_gss_unsupported auth_sspi_unsupported : ClientErrc
  empty_request request_ends_without_sync request_mixes_simple_advanced_protocols : ClientErrc
  step_skipped unknown_openssl_error unmatched_request needs_more copy_not_allowed : ClientErrc

-- A set std::error_code: one of the library's, or one of another category by its number.
pub data Error : Type 0 where
  client : ClientErrc → Error
  foreign : ℕ → Error

-- std::error_code; `none` is success.
abbrev pub ErrorCode : Type 0
ErrorCode = Option Error

-- any_backend_message::kind
pub data Kind : Type 0 where
  none_kind authentication_ok authentication_kerberos_v5 authentication_cleartext_password : Kind
  authentication_md5_password authentication_gss authentication_gss_continue : Kind
  authentication_sspi authentication_sasl authentication_sasl_continue : Kind
  authentication_sasl_final backend_key_data bind_complete close_complete command_complete : Kind
  copy_data copy_done copy_fail copy_in_response copy_out_response copy_both_response : Kind
  data_row empty_query_response error_response negotiate_protocol_version no_data : Kind
  notice_response notification_response parameter_description parameter_status : Kind
  parse_complete portal_suspended ready_for_query field_description row_description : Kind

-- A parsed message is a view of the bytes of its body; `kind` is the union's tag.
pub record BackendMessage : Type 0 where
  pub kind : Kind
  pub body : List ℕ

-- request_message_type
pub data RequestMessageType : Type 0 where
  bind close describe execute flush parse query sync : RequestMessageType

-- any_request_message: what a response handler is told. The views carry the body of the message.
pub data HandlerMessage : Type 0 where
  bind_complete close_complete parse_complete empty_query_response : HandlerMessage
  portal_suspended message_skipped : HandlerMessage
  command_complete data_row row_description error_response : List ℕ → HandlerMessage

-- The body that a default constructed row_description stands for: no fields.
abbrev pub no_fields : List ℕ
no_fields = 0 ∷ 0 ∷ []
