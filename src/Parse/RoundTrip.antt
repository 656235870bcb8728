-- ===== src/Parse/RoundTrip.antt =====
-- The messages of a result as the protocol lays them out, each in its frame, read by parse_message
-- of src/messages.cpp.
use nativepg.Prelude.{
  ℕ, ◌+◌, ◌-◌, ◌^◌, ◌≤◌, ◌<◌, ◌≡◌, refl, ap, ◌∙◌, ℤ, pos, false, List, [], ◌∷◌, ◌++◌, Option, some,
  inr, length, take, ltb, All, arith, length-append, take-append_length,
}
use nativepg.Wire.{Endian, EndianLaws, IsInt32, int32_max}
use nativepg.Wire.Frames.{frame, c_string}
use nativepg.Wire.Framing.{required_size}
use nativepg.Wire.Delimiting.{header_lem}
use nativepg.Parse.{get_byte, check, check_extra_bytes, add_error}
use nativepg.Parse.Strings.{NoZero}
use nativepg.Parse.Messages.{
  AnyBackendMessage, ForwardView, TransactionStatus, idle, in_transaction, failed,
}
use nativepg.Parse.Bodies.{
  parse_command_complete, parse_ready_for_query, parse_parameter_status,
  parse_notification_response, parse_backend_key_data,
}
use nativepg.Parse.Views.{field_traits, description_traits, view_items, FieldDescription}
use nativepg.Parse.Dispatch.{
  complete, with_size, backend_message_type, parse_as, parse_any_message, parse_rest, parse_message,
}
use nativepg.Parse.Encoded.{get_int32_read, get_string_read}
use nativepg.Parse.Rows.{IsColumn, row_body, parse_data_row-row_body}
use nativepg.Parse.Descriptions.{
  IsDescription, description_body, parse_row_description-description_body,
}

-- What a server says.
pub data ServerMessage : Type 0 where
  row : List (Option (List ℕ)) → ServerMessage
  description : List FieldDescription → ServerMessage
  tag : List ℕ → ServerMessage
  ready : TransactionStatus → ServerMessage
  parameter : List ℕ → List ℕ → ServerMessage
  notification : ℤ → List ℕ → List ℕ → ServerMessage
  key : ℤ → ℤ → ServerMessage

abbrev pub server_type : ServerMessage → ℕ
server_type (row cs) = b'D'
server_type (description ds) = b'T'
server_type (tag t) = b'C'
server_type (ready s) = b'Z'
server_type (parameter n v) = b'S'
server_type (notification p c s) = b'A'
server_type (key p k) = b'K'

-- A status that the server has, by its character.
abbrev pub status_char : TransactionStatus → ℕ
status_char idle = b'I'
status_char in_transaction = b'T'
status_char failed = b'E'
status_char (TransactionStatus.other b) = b

abbrev pub server_body : Endian → ServerMessage → List ℕ
server_body endian (row cs) = row_body endian cs
server_body endian (description ds) = description_body endian ds
server_body endian (tag t) = c_string t
server_body endian (ready s) = status_char s ∷ []
server_body endian (parameter n v) = n ++ (0 ∷ c_string v)
server_body endian (notification p c s) = endian.store_big_s32 p ++ (c ++ (0 ∷ c_string s))
server_body endian (key p k) = endian.store_big_s32 p ++ (endian.store_big_s32 k ++ [])

abbrev pub IsStatus : TransactionStatus → Type 0
IsStatus (TransactionStatus.other b) = ⊥
IsStatus _ = Unit {0}

-- What the fields of the message can hold.
abbrev pub IsSayable : ServerMessage → Type 0
IsSayable (row cs) = (length cs < 2 ^ 15) × All IsColumn cs
IsSayable (description ds) = (length ds < 2 ^ 15) × All IsDescription ds
IsSayable (tag t) = NoZero t
IsSayable (ready s) = IsStatus s
IsSayable (parameter n v) = NoZero n × NoZero v
IsSayable (notification p c s) = IsInt32 p × NoZero c × NoZero s
IsSayable (key p k) = IsInt32 p × IsInt32 k

-- A parsed message says the same, views by their items.
abbrev pub Says : Endian → ServerMessage → AnyBackendMessage → Type 0
Says endian (row cs) m =
    (v : ForwardView) × (m ≡ AnyBackendMessage.data_row v)
    × (view_items (field_traits endian) v ≡ some cs)
Says endian (description ds) m =
    (v : ForwardView) × (m ≡ AnyBackendMessage.row_description v)
    × (view_items (description_traits endian) v ≡ some ds)
Says endian (tag t) m = m ≡ AnyBackendMessage.command_complete t
Says endian (ready s) m = m ≡ AnyBackendMessage.ready_for_query s
Says endian (parameter n v) m =
    m ≡ AnyBackendMessage.parameter_status (record { name = n; value = v })
Says endian (notification p c s) m =
    m
    ≡ AnyBackendMessage.notification_response
        (record { process_id = p; channel_name = c; payload = s })
Says endian (key p k) m =
    m ≡ AnyBackendMessage.backend_key_data (record { process_id = p; secret_key = k })

module _ (endian : Endian) (laws : EndianLaws endian) where
  -- What parse_any_message makes of a body.
  abbrev Read : ServerMessage → Type 0
  Read s =
      (m : AnyBackendMessage) × (parse_any_message endian (server_type s) (server_body endian s)
        ≡ inr (record { message = m; body = server_body endian s }))
      × Says endian s m

  status_read :
      (s : TransactionStatus) → IsStatus s → parse_ready_for_query (status_char s ∷ []) ≡ inr s
  unfolding parse_ready_for_query get_byte check check_extra_bytes add_error
  status_read idle h = refl
  status_read in_transaction h = refl
  status_read failed h = refl
  status_read (TransactionStatus.other b) h = elim h [ ]

  tag_read : (t : List ℕ) → NoZero t → parse_command_complete (c_string t) ≡ inr t
  unfolding parse_command_complete check check_extra_bytes
  tag_read t h = rw (get_string_read t [] h) refl

  parameter_read :
      (n v : List ℕ)
      → NoZero n
      → NoZero v
      → parse_parameter_status (n ++ (0 ∷ c_string v)) ≡ inr (record { name = n; value = v })
  unfolding parse_parameter_status check check_extra_bytes
  parameter_read n v hn hv =
      rw (get_string_read n (c_string v) hn) (rw (get_string_read v [] hv) refl)

  notification_read :
      (p : ℤ) (c s : List ℕ)
      → IsInt32 p
      → NoZero c
      → NoZero s
      → parse_notification_response endian (endian.store_big_s32 p ++ (c ++ (0 ∷ c_string s)))
        ≡ inr (record { process_id = p; channel_name = c; payload = s })
  unfolding parse_notification_response check check_extra_bytes
  notification_read p c s hp hc hs =
      rw (get_int32_read endian laws p (c ++ (0 ∷ c_string s)) hp).0
        (rw (get_string_read c (c_string s) hc) (rw (get_string_read s [] hs) refl))

  key_read :
      (p k : ℤ)
      → IsInt32 p
      → IsInt32 k
      → parse_backend_key_data endian (endian.store_big_s32 p ++ (endian.store_big_s32 k ++ []))
        ≡ inr (record { process_id = p; secret_key = k })
  unfolding parse_backend_key_data check check_extra_bytes
  key_read p k hp hk =
      rw (get_int32_read endian laws p (endian.store_big_s32 k ++ []) hp).0
        (rw (get_int32_read endian laws k [] hk).0 refl)

  body-Read : (s : ServerMessage) → IsSayable s → Read s
  unfolding parse_any_message parse_as backend_message_type
  body-Read (row cs) h =
      let (v, p, items) = parse_data_row-row_body endian laws cs h.0 h.1 in
      (AnyBackendMessage.data_row v, rw p refl, (v, refl, items))
  body-Read (description ds) h =
      let (v, p, items) = parse_row_description-description_body endian laws ds h.0 h.1 in
      (AnyBackendMessage.row_description v, rw p refl, (v, refl, items))
  body-Read (tag t) h = (_, rw (tag_read t h) refl, refl)
  body-Read (ready s) h = (_, rw (status_read s h) refl, refl)
  body-Read (parameter n v) h = (_, rw (parameter_read n v h.0 h.1) refl, refl)
  body-Read (notification p c s) h = (_, rw (notification_read p c s h.0 h.1 h.2) refl, refl)
  body-Read (key p k) h = (_, rw (key_read p k h.0 h.1) refl, refl)

  -- A frame, whatever its body is.
  pub parse_message-frame :
      (t : ℕ) (body rest : List ℕ)
      → 4 + length body ≤ int32_max
      → parse_message endian (frame endian t body ++ rest)
        ≡ with_size (5 + length body) (parse_any_message endian t body)
  unfolding parse_message parse_rest
  parse_message-frame t body rest h =
      let n = 4 + length body in
      let (a, b, c, d, stored, loaded) = laws.read_back (pos n) (omega (arith, h)) in
      let header = header_lem endian laws t a b c d (length body) loaded in
      let size : required_size (record { type = t; size = pos n }) ≡ 5 + length body =
        omega (arith, h) in
      let there : ltb (length (body ++ rest) + 5) (5 + length body) ≡ false =
        ground (arith, length-append body rest) in
      let cut : take (5 + length body - 5) (body ++ rest) ≡ body =
        ap (λ k. take k (body ++ rest)) (omega arith) ∙ take-append_length body rest in
      rw stored (rw header (rw size (rw (there, cut) refl)))

-- A row, a row description, a command tag, the transaction status, a parameter, a notification or
-- the backend's key, that its fields can hold, laid out as the protocol documents it, in a frame
-- that an int32 can measure, with any bytes behind it: parse_message takes exactly the frame, and
-- the message says the same; the views, walked by their iterators, give the same columns and the
-- same field descriptions.
pub parse_message-Says :
    (endian : Endian)
    → EndianLaws endian
    → (s : ServerMessage) (rest : List ℕ) → IsSayable s
    → 4 + length (server_body endian s) ≤ int32_max
    → (m : AnyBackendMessage) × (parse_message endian
          (frame endian (server_type s) (server_body endian s) ++ rest)
        ≡ complete
            (record { message = m; body = server_body endian s })
            (5 + length (server_body endian s)))
      × Says endian s m
parse_message-Says endian laws s rest h fits =
    let (m, p, says) = body-Read endian laws s h in
    (
      m,
      parse_message-frame endian laws (server_type s) (server_body endian s) rest fits
          ∙ ap (with_size (5 + length (server_body endian s))) p,
      says,
    )
