-- ===== src/Wire/Messages.antt =====
-- The serialize functions of src/messages.cpp, for all messages of the client but bind.
use nativepg.Prelude.{
  codes, ℕ, ◌-◌, ◌^◌, ℤ, pos, List, [], ◌∷◌, ◌++◌, Option, none, some, if◌then◌else◌, length, ltb,
  ◌>>=◌,
}
use nativepg.Protocol.{client, value_too_big}
use nativepg.Wire.{
  SerializationContext, serialization_context, add_error, add_bytes, add_byte, add_string,
  add_int16, add_int32, add_header, overwrite, int32_max, Serialized, finalize_message, Endian,
}

-- portal_or_statement
pub data PortalOrStatement : Type 0 where
  statement portal : PortalOrStatement

abbrev pub portal_or_statement_char : PortalOrStatement → ℕ
portal_or_statement_char statement = b'S'
portal_or_statement_char portal = b'P'

-- The messages that serialize is overloaded for, with their fields. A message without fields is
-- its name.
pub data FrontendMessage : Type 0 where
  describe close : PortalOrStatement → List ℕ → FrontendMessage
  parse : List ℕ → List ℕ → List ℤ → FrontendMessage
  copy_fail : List ℕ → FrontendMessage
  copy_done flush sync terminate : FrontendMessage
  execute : List ℕ → ℤ → FrontendMessage
  password : List ℕ → FrontendMessage
  query : List ℕ → FrontendMessage

module _ (endian : Endian) where
  abbrev pub add_oids : List ℤ → SerializationContext → SerializationContext
  add_oids [] c = c
  add_oids (code ∷ codes) c = add_oids codes (add_int32 endian code c)

  -- serialize_header, of a length in range, and serialize_header_only.
  unfoldable pub serialize_header_only : ℕ → List ℕ → Serialized
  serialize_header_only header to = some (none, to ++ (header ∷ endian.store_big_s32 (pos 4)))

  unfoldable pub serialize_parse : List ℕ → List ℕ → List ℤ → List ℕ → Serialized
  serialize_parse statement_name sql parameter_type_oids to =
      let fixed =
        add_string sql (add_string statement_name (add_header b'P' (serialization_context to))) in
      let failed = add_error (some (client value_too_big)) fixed in
      if ltb (2 ^ 15 - 1) (length parameter_type_oids)
      then some (failed.err, failed.buffer)
      else finalize_message endian
          (add_oids parameter_type_oids (add_int16 endian (pos (length parameter_type_oids)) fixed))

  unfoldable pub serialize_query : List ℕ → List ℕ → Serialized
  serialize_query sql to =
      finalize_message endian (add_string sql (add_header b'Q' (serialization_context to)))

  unfoldable pub serialize : FrontendMessage → List ℕ → Serialized
  unfolding serialize_parse serialize_query
  serialize (describe type name) to = finalize_message endian (
      add_string name
        (add_byte (portal_or_statement_char type) (add_header b'D' (serialization_context to))))
  serialize (close type name) to = finalize_message endian (
      add_string name
        (add_byte (portal_or_statement_char type) (add_header b'C' (serialization_context to))))
  serialize (parse statement_name sql oids) to = serialize_parse statement_name sql oids to
  serialize (copy_fail error_message) to =
      finalize_message endian
        (add_string error_message (add_header b'f' (serialization_context to)))
  serialize copy_done to = finalize_message endian (add_header b'c' (serialization_context to))
  serialize (execute portal_name max_num_rows) to = finalize_message endian (
      add_int32 endian max_num_rows
        (add_string portal_name (add_header b'E' (serialization_context to))))
  serialize flush to = serialize_header_only b'H' to
  serialize sync to = serialize_header_only b'S' to
  serialize terminate to = serialize_header_only b'X' to
  serialize (password secret) to =
      finalize_message endian (add_string secret (add_header b'p' (serialization_context to)))
  serialize (query sql) to = serialize_query sql to

-- startup_message: the user, the database, if there is one, and the other parameters.
pub record StartupMessage : Type 0 where
  pub user : List ℕ
  pub database : Option (List ℕ)
  pub params : List (List ℕ × List ℕ)

abbrev pub user_key : List ℕ
user_key = codes "user"

abbrev pub database_key : List ℕ
database_key = codes "database"

abbrev pub add_database : Option (List ℕ) → SerializationContext → SerializationContext
add_database none c = c
add_database (some d) c = add_string d (add_string database_key c)

abbrev pub add_params : List (List ℕ × List ℕ) → SerializationContext → SerializationContext
add_params [] c = c
add_params ((key, value) ∷ params) c = add_params params (add_string value (add_string key c))

-- 3.0, as the two halves of an int32.
abbrev pub protocol_version : ℤ
protocol_version = pos 196608

module _ (endian : Endian) where
  unfoldable pub serialize_startup : StartupMessage → List ℕ → Serialized
  serialize_startup msg to =
      let c = add_byte 0 (
        add_params msg.params (
          add_database msg.database (
            add_string msg.user (
              add_string user_key (
                add_int32 endian protocol_version
                  (add_bytes (0 ∷ 0 ∷ 0 ∷ 0 ∷ []) (serialization_context to))))))) in
      let msg_length = length c.buffer - length to in
      let stored : Serialized = do
        buffer ← overwrite (length to) (endian.store_big_s32 (pos msg_length)) c.buffer
        some (none, buffer)
      in if ltb int32_max msg_length then some (some (client value_too_big), c.buffer) else stored

  -- cancel_request and ssl_request have no type, and no call of add_header.
  unfoldable pub serialize_cancel_request : ℤ → ℤ → List ℕ → Serialized
  serialize_cancel_request process_id secret_key to = finalize_message endian (
      add_int32 endian secret_key (
        add_int32 endian process_id
          (add_int32 endian (pos 80877102) (add_int32 endian (pos 16) (serialization_context to)))))

  unfoldable pub serialize_ssl_request : List ℕ → Serialized
  serialize_ssl_request to =
      finalize_message endian (add_int32 endian (pos 80877103) (serialization_context to))
