-- ===== src/Parse/Readable.antt =====
-- parse_any_message of src/messages.cpp, for every type of message: what is accepted is readable.
use nativepg.Prelude.{ℕ, ◌≡◌, refl, subst, List, [], ◌∷◌, Option, none, some, ◌⊎◌, inl, inr}
use nativepg.Protocol.{Error}
use nativepg.Wire.{Endian}
use nativepg.Parse.Messages.{AnyBackendMessage, Parsed}
use nativepg.Parse.Bodies.{check_empty}
use nativepg.Parse.Dispatch.{
  AuthenticationMessageType, authentication_message_type, parse_authentication,
  parse_authentication_request, BackendMessageType, backend_message_type, parse_as,
  parse_any_message, any_message, no_fields_message, bytes_message,
}
use nativepg.Parse.Accepted.{
  IsReadable, sasl-IsWalkable, data_row-IsWalkable, row_description-IsWalkable,
  negotiate-IsWalkable, copy-AllCodes,
}

inr_inj : {a b : Parsed} → ◌≡◌ {A = Error ⊎ Parsed} (inr a) (inr b) → a ≡ b
inr_inj h = cc

module _ (endian : Endian) where
  -- A message made of what was parsed.
  any_message-IsReadable :
      {A : Type 0} (make : A → AnyBackendMessage) (from : List ℕ) (r : Error ⊎ A) {p : Parsed}
      → ((a : A) → r ≡ inr a → IsReadable endian (make a))
      → any_message make from r ≡ inr p
      → IsReadable endian p.message
  any_message-IsReadable make from (inl e) parts h = cc
  any_message-IsReadable make from (inr a) parts h =
      subst (λ p. IsReadable endian p.message) (inr_inj h) (parts a refl)

  no_fields-IsReadable :
      (m : AnyBackendMessage) (body : List ℕ) {p : Parsed}
      → IsReadable endian m
      → no_fields_message m body ≡ inr p
      → IsReadable endian p.message
  unfolding check_empty
  no_fields-IsReadable m [] there h = subst (λ p. IsReadable endian p.message) (inr_inj h) there
  no_fields-IsReadable m (b ∷ body) there h = cc

  bytes-IsReadable :
      (make : List ℕ → AnyBackendMessage) (body : List ℕ) {p : Parsed}
      → IsReadable endian (make body)
      → bytes_message make body ≡ inr p
      → IsReadable endian p.message
  bytes-IsReadable make body there h = subst (λ p. IsReadable endian p.message) (inr_inj h) there

  authentication-IsReadable :
      (o : Option AuthenticationMessageType) (body : List ℕ) {p : Parsed}
      → parse_authentication o body ≡ inr p
      → IsReadable endian p.message
  unfolding parse_authentication
  authentication-IsReadable none body h = cc
  authentication-IsReadable (some AuthenticationMessageType.ok) body h =
      no_fields-IsReadable AnyBackendMessage.authentication_ok body tt h
  authentication-IsReadable (some AuthenticationMessageType.kerberos_v5) body h =
      no_fields-IsReadable AnyBackendMessage.authentication_kerberos_v5 body tt h
  authentication-IsReadable (some AuthenticationMessageType.cleartext_password) body h =
      no_fields-IsReadable AnyBackendMessage.authentication_cleartext_password body tt h
  authentication-IsReadable (some AuthenticationMessageType.md5_password) body h =
      any_message-IsReadable AnyBackendMessage.authentication_md5_password body _ (λ a e. tt) h
  authentication-IsReadable (some AuthenticationMessageType.gss) body h =
      no_fields-IsReadable AnyBackendMessage.authentication_gss body tt h
  authentication-IsReadable (some AuthenticationMessageType.gss_continue) body h =
      bytes-IsReadable AnyBackendMessage.authentication_gss_continue body tt h
  authentication-IsReadable (some AuthenticationMessageType.sspi) body h =
      no_fields-IsReadable AnyBackendMessage.authentication_sspi body tt h
  authentication-IsReadable (some AuthenticationMessageType.sasl) body h =
      any_message-IsReadable AnyBackendMessage.authentication_sasl body _
        (λ a e. sasl-IsWalkable body e) h
  authentication-IsReadable (some AuthenticationMessageType.sasl_continue) body h =
      bytes-IsReadable AnyBackendMessage.authentication_sasl_continue body tt h
  authentication-IsReadable (some AuthenticationMessageType.sasl_final) body h =
      bytes-IsReadable AnyBackendMessage.authentication_sasl_final body tt h

  request-IsReadable :
      (body : List ℕ) {p : Parsed}
      → parse_authentication_request endian body ≡ inr p
      → IsReadable endian p.message
  unfolding parse_authentication_request
  request-IsReadable (a ∷ b ∷ c ∷ d ∷ body) h =
      authentication-IsReadable (authentication_message_type (endian.load_big_s32 a b c d)) body h
  request-IsReadable body h = cc

  parse_as-IsReadable :
      (o : Option BackendMessageType) (body : List ℕ) {p : Parsed}
      → parse_as endian o body ≡ inr p
      → IsReadable endian p.message
  unfolding parse_as
  parse_as-IsReadable none body h = cc
  parse_as-IsReadable (some BackendMessageType.authentication_request) body h =
      request-IsReadable body h
  parse_as-IsReadable (some BackendMessageType.bind_complete) body h =
      no_fields-IsReadable AnyBackendMessage.bind_complete body tt h
  parse_as-IsReadable (some BackendMessageType.close_complete) body h =
      no_fields-IsReadable AnyBackendMessage.close_complete body tt h
  parse_as-IsReadable (some BackendMessageType.command_complete) body h =
      any_message-IsReadable AnyBackendMessage.command_complete body _ (λ a e. tt) h
  parse_as-IsReadable (some BackendMessageType.copy_data) body h =
      bytes-IsReadable AnyBackendMessage.copy_data body tt h
  parse_as-IsReadable (some BackendMessageType.copy_done) body h =
      no_fields-IsReadable AnyBackendMessage.copy_done body tt h
  parse_as-IsReadable (some BackendMessageType.copy_in_response) body h =
      any_message-IsReadable AnyBackendMessage.copy_in_response body _
        (λ a e. copy-AllCodes endian body e) h
  parse_as-IsReadable (some BackendMessageType.copy_out_response) body h =
      any_message-IsReadable AnyBackendMessage.copy_out_response body _
        (λ a e. copy-AllCodes endian body e) h
  parse_as-IsReadable (some BackendMessageType.copy_both_response) body h =
      any_message-IsReadable AnyBackendMessage.copy_both_response body _
        (λ a e. copy-AllCodes endian body e) h
  parse_as-IsReadable (some BackendMessageType.data_row) body h =
      any_message-IsReadable AnyBackendMessage.data_row body _
        (λ a e. data_row-IsWalkable endian body e) h
  parse_as-IsReadable (some BackendMessageType.empty_query_response) body h =
      no_fields-IsReadable AnyBackendMessage.empty_query_response body tt h
  parse_as-IsReadable (some BackendMessageType.error_response) body h =
      any_message-IsReadable AnyBackendMessage.error_response body _ (λ a e. tt) h
  parse_as-IsReadable (some BackendMessageType.negotiate_protocol_version) body h =
      any_message-IsReadable AnyBackendMessage.negotiate_protocol_version body _
        (λ a e. negotiate-IsWalkable endian body e) h
  parse_as-IsReadable (some BackendMessageType.no_data) body h =
      no_fields-IsReadable AnyBackendMessage.no_data body tt h
  parse_as-IsReadable (some BackendMessageType.notice_response) body h =
      any_message-IsReadable AnyBackendMessage.notice_response body _ (λ a e. tt) h
  parse_as-IsReadable (some BackendMessageType.notification_response) body h =
      any_message-IsReadable AnyBackendMessage.notification_response body _ (λ a e. tt) h
  parse_as-IsReadable (some BackendMessageType.parameter_description) body h =
      any_message-IsReadable AnyBackendMessage.parameter_description body _ (λ a e. tt) h
  parse_as-IsReadable (some BackendMessageType.parameter_status) body h =
      any_message-IsReadable AnyBackendMessage.parameter_status body _ (λ a e. tt) h
  parse_as-IsReadable (some BackendMessageType.parse_complete) body h =
      no_fields-IsReadable AnyBackendMessage.parse_complete body tt h
  parse_as-IsReadable (some BackendMessageType.portal_suspended) body h =
      no_fields-IsReadable AnyBackendMessage.portal_suspended body tt h
  parse_as-IsReadable (some BackendMessageType.ready_for_query) body h =
      any_message-IsReadable AnyBackendMessage.ready_for_query body _ (λ a e. tt) h
  parse_as-IsReadable (some BackendMessageType.row_description) body h =
      any_message-IsReadable AnyBackendMessage.row_description body _
        (λ a e. row_description-IsWalkable endian body e) h
  parse_as-IsReadable (some BackendMessageType.backend_key_data) body h =
      any_message-IsReadable AnyBackendMessage.backend_key_data body _ (λ a e. tt) h

-- Whatever the type and the bytes of a message that parse_any_message accepts, its items can be
-- read by the functions that check nothing: each view of columns, descriptions, options or
-- mechanisms is walked from begin() to end() within its bytes, in exactly size() steps, and each
-- format code of a copy response is there, is text or binary, and is text where the whole is text.
pub parse_any_message-IsReadable :
    (endian : Endian) (message_type : ℕ) (body : List ℕ) {p : Parsed}
    → parse_any_message endian message_type body ≡ inr p
    → IsReadable endian p.message
unfolding parse_any_message
parse_any_message-IsReadable endian message_type body h =
    parse_as-IsReadable endian (backend_message_type message_type) body h
