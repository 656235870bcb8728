-- ===== src/Startup.antt =====
-- src/startup_fsm.cpp and include/nativepg/protocol/startup_fsm.hpp: startup_fsm_impl, the exchange
-- of messages that authenticates a connection; with parse_sqlstate of
-- include/nativepg/sqlstate.hpp, which says what an error response means.
pub mod Guards
mod Tests
use nativepg.Prelude.{
  codes, zero, ℕ, suc, ◌+◌, ◌-◌, ◌*◌, ◌^◌, ℤ, pos, Bool, true, false, ◌&&◌, ◌||◌, List, [], ◌∷◌,
  ◌++◌, Option, none, some, ◌⊎◌, inl, inr, if◌then◌else◌, ltb, leb, ◌==◌, ◌>>=◌,
}
use nativepg.Protocol.{
  Error, ErrorCode, client, foreign, BackendMessage, Kind, unexpected_message,
  scram_mechanisms_unsupported, auth_kerberos_v5_unsupported, auth_cleartext_password_unsupported,
  auth_md5_password_unsupported, auth_gss_unsupported, auth_sspi_unsupported,
}
use nativepg.Parse.Bodies.{parse_authentication_sasl}
use nativepg.Parse.Fields.{parse_error_notice}
use nativepg.Parse.Messages.{ForwardView}
use nativepg.Parse.Views.{string_traits, view_items}
use nativepg.Wire.{Endian, to_unsigned}
use nativepg.Wire.Messages.{StartupMessage, serialize_startup}

abbrev pub same_bytes : List ℕ → List ℕ → Bool
same_bytes [] [] = true
same_bytes (a ∷ s) (b ∷ t) = (a == b) && same_bytes s t
same_bytes _ _ = false

-- "SCRAM-SHA-256"
abbrev pub scram_sha256_name : List ℕ
scram_sha256_name = codes "SCRAM-SHA-256"

abbrev pub contains : List ℕ → List (List ℕ) → Bool
contains s [] = false
contains s (t ∷ ts) = same_bytes t s || contains s ts

-- The mechanisms of a message that was parsed from its body, by the iterators of its view.
abbrev pub mechanisms : Error ⊎ ForwardView → List (List ℕ)
mechanisms (inl e) = []
mechanisms (inr view) = elim (view_items string_traits view) [ none ↦ [] | some names ↦ names ]

unfoldable pub supports_scram_sha256 : List ℕ → Bool
supports_scram_sha256 body =
    contains scram_sha256_name (mechanisms (parse_authentication_sasl body))

-- parse_sqlstate_char; `none` for -1.
unfoldable pub parse_sqlstate_char : ℕ → Option ℕ
parse_sqlstate_char c =
    if leb b'0' c && leb c b'9'
    then some (c - b'0')
    else if leb b'A' c && leb c b'Z'
    then some (c - b'A' + 10)
    else none

-- Five digits of six bits; `none` for -1.
unfoldable pub sqlstate_as_int : List ℕ → Option ℕ
sqlstate_as_int (a ∷ b ∷ c ∷ d ∷ e ∷ []) = do
  c0 ← parse_sqlstate_char a
  c1 ← parse_sqlstate_char b
  c2 ← parse_sqlstate_char c
  c3 ← parse_sqlstate_char d
  c4 ← parse_sqlstate_char e
  some (c0 * 2 ^ 24 + c1 * 2 ^ 18 + c2 * 2 ^ 12 + c3 * 2 ^ 6 + c4)
sqlstate_as_int chars = none

-- An error_code of the value 0 is no error, in every category. The code -1 is written unsigned.
unfoldable pub code_of : Option ℕ → ErrorCode
code_of none = some (foreign (2 ^ 32 - 1))
code_of (some zero) = none
code_of (some (suc n)) = some (foreign (suc n))

unfoldable pub parse_sqlstate : List ℕ → ErrorCode
unfolding code_of
parse_sqlstate s = code_of (sqlstate_as_int s)

-- The SQLSTATE of an error response that was parsed from its body; empty if there is none.
unfoldable pub sqlstate_field : List ℕ → List ℕ
sqlstate_field body = elim (parse_error_notice body).1.sqlstate [ none ↦ [] | some s ↦ s ]

-- The code of process_error. The diagnostics are not modelled.
unfoldable pub process_error : BackendMessage → ErrorCode
process_error msg = parse_sqlstate (sqlstate_field msg.body)

unfoldable pub check_unknown_auth_methods : Kind → ErrorCode
check_unknown_auth_methods Kind.authentication_kerberos_v5 =
    some (client auth_kerberos_v5_unsupported)
check_unknown_auth_methods Kind.authentication_cleartext_password =
    some (client auth_cleartext_password_unsupported)
check_unknown_auth_methods Kind.authentication_md5_password =
    some (client auth_md5_password_unsupported)
check_unknown_auth_methods Kind.authentication_gss = some (client auth_gss_unsupported)
check_unknown_auth_methods Kind.authentication_sspi = some (client auth_sspi_unsupported)
check_unknown_auth_methods _ = none

unfoldable pub handle_auth_response : BackendMessage → ErrorCode
handle_auth_response msg = elim msg.kind [
  | Kind.error_response ↦ process_error msg
  | Kind.authentication_ok ↦ none
  | _ ↦ some (client unexpected_message)
]

-- The functions of scram_sha256_fsm, over a state of its own and the write buffer: the code, what
-- the write buffer then holds and the state. `none` is a read or a store outside of memory.
pub record ScramFsm (S : Type 0) : Type 0 where
  pub on_init : List ℕ → S → Option (ErrorCode × List ℕ × S)
  pub on_server_first : List ℕ → List ℕ → List ℕ → S → Option (ErrorCode × List ℕ × S)
  pub on_server_final : List ℕ → S → Option ErrorCode

pub record ConnectParams : Type 0 where
  pub username : List ℕ
  pub password : List ℕ
  pub database : List ℕ

-- make_startup_message
abbrev pub make_startup_message : ConnectParams → StartupMessage
make_startup_message params = record {
  user = params.username;
  database = elim params.database [ [] ↦ none | (c ∷ cs) ↦ some (c ∷ cs) ];
  params = [];
}

-- The points where startup_fsm_impl::resume goes on, by what was done last.
pub data ResumePoint : Type 0 where
  initial wrote_startup read_first wrote_sasl read_continue wrote_final read_final read_ok
        read_more :
      ResumePoint

-- startup_fsm_impl, with what it uses of connection_state.
pub record StartupFsm (S : Type 0) : Type 0 where
  pub point : ResumePoint
  pub scram : S
  pub write_buffer : List ℕ
  pub backend_process_id : ℕ
  pub backend_secret_key : ℕ

pub data StartupResult : Type 0 where
  done : ErrorCode → StartupResult
  read write : StartupResult

module _ {S : Type 0} (scram_fsm : ScramFsm S) (endian : Endian) (params : ConnectParams) where
  abbrev pub Resumed : Type 0
  Resumed = StartupResult × StartupFsm S

  abbrev pub yield_read : ResumePoint → StartupFsm S → Resumed
  yield_read p f = (read, record f { point = p })

  abbrev pub unexpected : StartupFsm S → Resumed
  unexpected f = (done (some (client unexpected_message)), f)

  -- A message that was made is written, or the code ends everything.
  abbrev pub written : ResumePoint → StartupFsm S → ErrorCode × List ℕ × S → Resumed
  written p f r =
      let g : StartupFsm S = record f { write_buffer = r.1; scram = r.2 } in
      elim r.0 [ some e ↦ (done (some e), g) | none ↦ (write, record g { point = p }) ]

  abbrev pub attempt : ResumePoint → StartupFsm S → Option (ErrorCode × List ℕ × S) → Option Resumed
  attempt p f o = do r ← o; some (written p f r)

  abbrev pub after_authentication : BackendMessage → StartupFsm S → Resumed
  after_authentication msg f = elim (handle_auth_response msg) [
    | some e ↦ (done (some e), f)
    | none ↦ yield_read read_more f
  ]

  abbrev pub on_sasl : BackendMessage → StartupFsm S → Option Resumed
  on_sasl msg f =
      if supports_scram_sha256 msg.body
      then attempt wrote_sasl f (scram_fsm.on_init f.write_buffer f.scram)
      else some (done (some (client scram_mechanisms_unsupported)), f)

  abbrev pub on_first_response : BackendMessage → StartupFsm S → Option Resumed
  on_first_response msg f =
      let other : Resumed = elim (check_unknown_auth_methods msg.kind) [
        | some e ↦ (done (some e), f)
        | none ↦ after_authentication msg f
      ] in
      elim msg.kind [ Kind.authentication_sasl ↦ on_sasl msg f | _ ↦ some other ]

  abbrev pub on_continue : BackendMessage → StartupFsm S → Option Resumed
  on_continue msg f = elim msg.kind [
    | Kind.error_response ↦ some (done (process_error msg), f)
    | Kind.authentication_sasl_continue ↦
        attempt wrote_final f
          (scram_fsm.on_server_first msg.body params.password f.write_buffer f.scram)
    | _ ↦ some (unexpected f)
  ]

  abbrev pub checked : StartupFsm S → ErrorCode → Resumed
  checked f (some e) = (done (some e), f)
  checked f none = yield_read read_ok f

  abbrev pub on_final : BackendMessage → StartupFsm S → Option Resumed
  on_final msg f =
      let answered : Option Resumed = do
        ec ← scram_fsm.on_server_final msg.body f.scram
        some (checked f ec)
      in elim msg.kind [
        | Kind.error_response ↦ some (done (process_error msg), f)
        | Kind.authentication_sasl_final ↦ answered
        | _ ↦ some (unexpected f)
      ]

  -- backend_key_data, whose eight bytes were checked when it was parsed.
  abbrev pub record_key : List ℕ → StartupFsm S → StartupFsm S
  record_key (a ∷ b ∷ c ∷ d ∷ a' ∷ b' ∷ c' ∷ d' ∷ []) f = record f {
    backend_process_id = to_unsigned (2 ^ 32) (endian.load_big_s32 a b c d);
    backend_secret_key = to_unsigned (2 ^ 32) (endian.load_big_s32 a' b' c' d');
  }
  record_key _ f = f

  abbrev pub on_more : BackendMessage → StartupFsm S → Resumed
  on_more msg f = elim msg.kind [
    | Kind.backend_key_data ↦ yield_read read_more (record_key msg.body f)
    | Kind.parameter_status ↦ yield_read read_more f
    | Kind.error_response ↦ (done (process_error msg), f)
    | Kind.notice_response ↦ yield_read read_more f
    | Kind.ready_for_query ↦ (done none, f)
    | _ ↦ unexpected f
  ]

  -- The startup message; `none` is a store outside the buffer.
  abbrev pub on_start : StartupFsm S → Option Resumed
  on_start f = do
    s ← serialize_startup endian (make_startup_message params) []
    let g : StartupFsm S = record f { write_buffer = s.1 }
    some (elim s.0 [
      | some e ↦ (done (some e), g)
      | none ↦ (write, record g { point = wrote_startup })
    ])

  unfoldable pub resume : BackendMessage → StartupFsm S → Option Resumed
  resume msg f =
      let start = on_start f in
      elim f.point [
        | initial ↦ start
        | wrote_startup ↦ some (yield_read read_first f)
        | read_first ↦ on_first_response msg f
        | wrote_sasl ↦ some (yield_read read_continue f)
        | read_continue ↦ on_continue msg f
        | wrote_final ↦ some (yield_read read_final f)
        | read_final ↦ on_final msg f
        | read_ok ↦ some (after_authentication msg f)
        | read_more ↦ some (on_more msg f)
      ]
