-- ===== src/Startup/Tests.antt =====
-- A run of startup_fsm_impl.
use nativepg.Prelude.{codes, ℕ, ◌≡◌, refl, List, [], ◌∷◌, none, some, ◌⊎◌}
use nativepg.Protocol.{BackendMessage, Kind}
use nativepg.Wire.{overwrite, serialization_context}
use nativepg.Wire.Integers.{big_endian}
use nativepg.Wire.Messages.{serialize_startup}
use nativepg.Parse.{get_byte, get_string, split_string}
use nativepg.Parse.Fields.{parse_error_notice, error_field_type}
use nativepg.Startup.{
  ScramFsm, ConnectParams, ResumePoint, StartupFsm, done, read, write, resume,
  check_unknown_auth_methods, handle_auth_response, sqlstate_field,
}
use nativepg.Startup.Guards.{
  Any, IsZeroError, Accepted, History, begun, later, success-Accepted, zero_error_succeeds,
}

-- A SCRAM whose state is the number of messages it has made, and that accepts one signature.
abbrev counting : ScramFsm ℕ
counting = record {
  on_init = λ b s. some (none, 1 ∷ [], 1);
  on_server_first = λ m p b s. some (none, 2 ∷ [], 2);
  on_server_final = λ m s. some none;
}

abbrev params : ConnectParams
params = record { username = 117 ∷ []; password = []; database = [] }

abbrev message : Kind → BackendMessage
message k = record { kind = k; body = [] }

abbrev at : ResumePoint → List ℕ → StartupFsm ℕ
at p b = record {
  point = p;
  scram = 0;
  write_buffer = b;
  backend_process_id = 0;
  backend_secret_key = 0;
}

-- The startup message for the user "u".
abbrev greeting : List ℕ
greeting = 0 ∷ 0 ∷ 0 ∷ 16 ∷ 0 ∷ 3 ∷ 0 ∷ 0 ∷ 117 ∷ 115 ∷ 101 ∷ 114 ∷ 0 ∷ 117 ∷ 0 ∷ 0 ∷ []

greets :
    resume counting big_endian params (message Kind.none_kind) (at ResumePoint.initial [])
    ≡ some (write, at ResumePoint.wrote_startup greeting)
unfolding resume serialize_startup overwrite serialization_context big_endian
greets = refl

waits :
    resume counting big_endian params
      (message Kind.none_kind)
      (at ResumePoint.wrote_startup greeting)
    ≡ some (read, at ResumePoint.read_first greeting)
unfolding resume
waits = refl

accepts :
    resume counting big_endian params
      (message Kind.authentication_ok)
      (at ResumePoint.read_first greeting)
    ≡ some (read, at ResumePoint.read_more greeting)
unfolding resume check_unknown_auth_methods handle_auth_response
accepts = refl

ends :
    resume counting big_endian params
      (message Kind.ready_for_query)
      (at ResumePoint.read_more greeting)
    ≡ some (done none, at ResumePoint.read_more greeting)
unfolding resume
ends = refl

abbrev received : List BackendMessage
received = message Kind.authentication_ok ∷ message Kind.none_kind ∷ message Kind.none_kind ∷ []

trusted : History counting big_endian params received (at ResumePoint.read_more greeting)
trusted =
    later (message Kind.authentication_ok)
      (later (message Kind.none_kind)
        (later (message Kind.none_kind) (begun (at ResumePoint.initial []) refl) refl greets tt)
        refl waits tt)
      tt accepts tt

success-Accepted_example :
    Any IsZeroError (message Kind.ready_for_query ∷ received)
    ⊎ (Accepted counting big_endian params (message Kind.ready_for_query ∷ received)
        × (Kind.ready_for_query ≡ Kind.ready_for_query))
success-Accepted_example =
    success-Accepted counting big_endian params received (at ResumePoint.read_more greeting)
      (at ResumePoint.read_more greeting) (message Kind.ready_for_query) trusted tt ends

-- "C00000", and the end of the fields.
abbrev zero_error : List ℕ
zero_error = 67 ∷ 48 ∷ 48 ∷ 48 ∷ 48 ∷ 48 ∷ 0 ∷ 0 ∷ []

zero_field : sqlstate_field zero_error ≡ codes "00000"
unfolding sqlstate_field parse_error_notice error_field_type get_byte get_string split_string
zero_field = refl

zero_error_succeeds_example :
    resume counting big_endian params
      (record { kind = Kind.error_response; body = zero_error })
      (at ResumePoint.read_final [])
    ≡ some (done none, at ResumePoint.read_final [])
zero_error_succeeds_example =
    zero_error_succeeds counting big_endian params (at ResumePoint.read_final []) zero_error
      zero_field
