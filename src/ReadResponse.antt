-- ===== src/ReadResponse.antt =====
-- src/read_response_fsm.cpp and include/nativepg/protocol/read_response_fsm.hpp: the state machine
-- that matches the server's messages with the messages of a request.
pub mod Accounting
pub mod Handlers
pub mod Conversation
mod Tests
use nativepg.Prelude.{
  ℕ, suc, Bool, true, false, List, [], ◌∷◌, ◌++◌, none, some, if◌then◌else◌, length, drop, leb,
}
use nativepg.Protocol.{
  ErrorCode, client, RequestMessageType, bind, close, describe, execute, flush, parse, query, sync,
  BackendMessage, Kind, HandlerMessage, no_fields, unexpected_message, copy_not_allowed,
  request_ends_without_sync,
}

-- read_response_fsm::state_t
pub data State : Type 0 where
  msg_first query_first query_needs_ready query_rows exec_copy_out : State
  exec_copy_out_needs_command_complete query_copy_out : State
  query_copy_out_needs_command_complete : State

-- The machine, with the calls that it has made to the handler, oldest first.
pub record ReadResponseFsm : Type 0 where
  pub req : List RequestMessageType
  pub allow_copy : Bool
  pub current : ℕ
  pub state : State
  pub calls : List (HandlerMessage × ℕ)

-- read_response_fsm::result. `out_of_range` is no value of the source: a read of `messages()`
-- behind its end.
pub data Result : Type 0 where
  done : ErrorCode → Result
  read : Result
  out_of_range : Result

abbrev pub Outcome : Type 0
Outcome = Result × ReadResponseFsm

unfoldable pub start : List RequestMessageType → Bool → ReadResponseFsm
start req allow_copy = record {
  req = req;
  allow_copy = allow_copy;
  current = 0;
  state = State.msg_first;
  calls = [];
}

abbrev pub get_remaining_messages : ReadResponseFsm → List RequestMessageType
get_remaining_messages f = drop f.current f.req

abbrev pub call_handler : HandlerMessage → ReadResponseFsm → ReadResponseFsm
call_handler m f = record f { calls = f.calls ++ ((m, f.current) ∷ []) }

abbrev pub set_state : State → ReadResponseFsm → ReadResponseFsm
set_state s f = record f { state = s }

abbrev pub unexpected : ReadResponseFsm → Outcome
unexpected f = (done (some (client unexpected_message)), f)

abbrev next_message : ReadResponseFsm → ReadResponseFsm
next_message f = record f { current = suc f.current }

-- The loop of handle_error: the list holds the messages from `current_` on.
unfoldable pub skip_to_sync : List RequestMessageType → ReadResponseFsm → Outcome
skip_to_sync [] f = (done (some (client request_ends_without_sync)), f)
skip_to_sync (sync ∷ ms) f = (read, f)
skip_to_sync (flush ∷ ms) f = skip_to_sync ms (next_message f)
skip_to_sync (_ ∷ ms) f =
    skip_to_sync ms (next_message (call_handler HandlerMessage.message_skipped f))

unfoldable pub handle_error : BackendMessage → ReadResponseFsm → Outcome
handle_error msg f =
    let g =
      set_state State.msg_first
        (next_message (call_handler (HandlerMessage.error_response msg.body) f)) in
    skip_to_sync (get_remaining_messages g) g

unfoldable pub advance : ReadResponseFsm → Outcome
advance f = (if leb (length f.req) (suc f.current) then done none else read, next_message f)

unfoldable pub handle_bind : BackendMessage → ReadResponseFsm → Outcome
handle_bind msg f = elim msg.kind [
  | Kind.error_response ↦ handle_error msg f
  | Kind.bind_complete ↦ advance (call_handler HandlerMessage.bind_complete f)
  | _ ↦ unexpected f
]

unfoldable pub handle_close : BackendMessage → ReadResponseFsm → Outcome
handle_close msg f = elim msg.kind [
  | Kind.error_response ↦ handle_error msg f
  | Kind.close_complete ↦ advance (call_handler HandlerMessage.close_complete f)
  | _ ↦ unexpected f
]

unfoldable pub handle_describe : BackendMessage → ReadResponseFsm → Outcome
handle_describe msg f = elim msg.kind [
  | Kind.error_response ↦ handle_error msg f
  | Kind.row_description ↦ advance (call_handler (HandlerMessage.row_description msg.body) f)
  | Kind.no_data ↦ advance (call_handler (HandlerMessage.row_description no_fields) f)
  | _ ↦ unexpected f
]

unfoldable pub handle_parse : BackendMessage → ReadResponseFsm → Outcome
handle_parse msg f = elim msg.kind [
  | Kind.error_response ↦ handle_error msg f
  | Kind.parse_complete ↦ advance (call_handler HandlerMessage.parse_complete f)
  | _ ↦ unexpected f
]

unfoldable pub handle_sync : BackendMessage → ReadResponseFsm → Outcome
handle_sync msg f = elim msg.kind [ Kind.ready_for_query ↦ advance f | _ ↦ unexpected f ]

-- The start of COPY OUT, for execute and for query.
unfoldable pub start_copy : State → ReadResponseFsm → Outcome
start_copy s f =
    if f.allow_copy
    then (read, set_state s (call_handler (HandlerMessage.row_description no_fields) f))
    else (done (some (client copy_not_allowed)), f)

-- handle_execute, by the case labels of its switch over the state.
execute_first : BackendMessage → ReadResponseFsm → Outcome
execute_first msg f = elim msg.kind [
  | Kind.copy_out_response ↦ start_copy State.exec_copy_out f
  | Kind.error_response ↦ handle_error msg f
  | Kind.command_complete ↦ advance (call_handler (HandlerMessage.command_complete msg.body) f)
  | Kind.empty_query_response ↦ advance (call_handler HandlerMessage.empty_query_response f)
  | Kind.portal_suspended ↦ advance (call_handler HandlerMessage.portal_suspended f)
  | Kind.data_row ↦ (read, call_handler (HandlerMessage.data_row msg.body) f)
  | _ ↦ unexpected f
]

execute_copy_out : BackendMessage → ReadResponseFsm → Outcome
execute_copy_out msg f = elim msg.kind [
  | Kind.copy_data ↦ (read, f)
  | Kind.error_response ↦ handle_error msg f
  | Kind.copy_done ↦ (read, set_state State.exec_copy_out_needs_command_complete f)
  | _ ↦ unexpected f
]

execute_copy_done : BackendMessage → ReadResponseFsm → Outcome
execute_copy_done msg f = elim msg.kind [
  | Kind.error_response ↦ handle_error msg f
  | Kind.command_complete ↦
      advance
        (set_state State.msg_first (call_handler (HandlerMessage.command_complete msg.body) f))
  | _ ↦ unexpected f
]

unfoldable pub handle_execute : BackendMessage → ReadResponseFsm → Outcome
unfolding execute_first execute_copy_out execute_copy_done
handle_execute msg f = elim f.state [
  | State.msg_first ↦ execute_first msg f
  | State.exec_copy_out ↦ execute_copy_out msg f
  | State.exec_copy_out_needs_command_complete ↦ execute_copy_done msg f
  | _ ↦ unexpected f
]

-- An error in a simple query: only ready_for_query may follow.
query_error : BackendMessage → ReadResponseFsm → Outcome
query_error msg f = (
  read,
  call_handler (HandlerMessage.error_response msg.body) (set_state State.query_needs_ready f),
)

query_empty : State → ReadResponseFsm → Outcome
query_empty State.msg_first f =
    (read, call_handler HandlerMessage.empty_query_response (set_state State.query_needs_ready f))
query_empty _ f = unexpected f

query_ready : State → ReadResponseFsm → Outcome
query_ready State.query_first f = advance (set_state State.msg_first f)
query_ready _ f = unexpected f

query_start : BackendMessage → ReadResponseFsm → Outcome
unfolding query_error query_empty query_ready
query_start msg f = elim msg.kind [
  | Kind.copy_out_response ↦ start_copy State.query_copy_out f
  | Kind.error_response ↦ query_error msg f
  | Kind.row_description ↦
      (read, call_handler (HandlerMessage.row_description msg.body) (set_state State.query_rows f))
  | Kind.command_complete ↦ (
    read,
    call_handler (HandlerMessage.command_complete msg.body)
        (call_handler (HandlerMessage.row_description no_fields) (set_state State.query_first f)),
  )
  | Kind.empty_query_response ↦ query_empty f.state f
  | Kind.ready_for_query ↦ query_ready f.state f
  | _ ↦ unexpected f
]

query_in_rows : BackendMessage → ReadResponseFsm → Outcome
unfolding query_error
query_in_rows msg f = elim msg.kind [
  | Kind.error_response ↦ query_error msg f
  | Kind.data_row ↦ (read, call_handler (HandlerMessage.data_row msg.body) f)
  | Kind.command_complete ↦ (
    read,
    call_handler (HandlerMessage.command_complete msg.body) (set_state State.query_first f),
  )
  | _ ↦ unexpected f
]

query_ended : BackendMessage → ReadResponseFsm → Outcome
query_ended msg f = elim msg.kind [
  | Kind.ready_for_query ↦ advance (set_state State.msg_first f)
  | _ ↦ unexpected f
]

query_in_copy : BackendMessage → ReadResponseFsm → Outcome
unfolding query_error
query_in_copy msg f = elim msg.kind [
  | Kind.copy_data ↦ (read, f)
  | Kind.error_response ↦ query_error msg f
  | Kind.copy_done ↦ (read, set_state State.query_copy_out_needs_command_complete f)
  | _ ↦ unexpected f
]

query_copy_done : BackendMessage → ReadResponseFsm → Outcome
unfolding query_error
query_copy_done msg f = elim msg.kind [
  | Kind.error_response ↦ query_error msg f
  | Kind.command_complete ↦ (
    read,
    set_state State.query_first (call_handler (HandlerMessage.command_complete msg.body) f),
  )
  | _ ↦ unexpected f
]

unfoldable pub handle_query : BackendMessage → ReadResponseFsm → Outcome
unfolding query_start query_in_rows query_ended query_in_copy query_copy_done
handle_query msg f = elim f.state [
  | State.msg_first ↦ query_start msg f
  | State.query_first ↦ query_start msg f
  | State.query_rows ↦ query_in_rows msg f
  | State.query_needs_ready ↦ query_ended msg f
  | State.query_copy_out ↦ query_in_copy msg f
  | State.query_copy_out_needs_command_complete ↦ query_copy_done msg f
  | _ ↦ unexpected f
]

-- The loop of resume, which passes over flushes: the list holds the messages from `current_` on.
unfoldable pub dispatch : List RequestMessageType → BackendMessage → ReadResponseFsm → Outcome
dispatch [] msg f = (out_of_range, f)
dispatch (bind ∷ ms) msg f = handle_bind msg f
dispatch (close ∷ ms) msg f = handle_close msg f
dispatch (describe ∷ ms) msg f = handle_describe msg f
dispatch (execute ∷ ms) msg f = handle_execute msg f
dispatch (flush ∷ ms) msg f = dispatch ms msg (next_message f)
dispatch (parse ∷ ms) msg f = handle_parse msg f
dispatch (query ∷ ms) msg f = handle_query msg f
dispatch (sync ∷ ms) msg f = handle_sync msg f

-- Notices, notifications and parameter changes come at any time and are passed over.
unfoldable pub is_async : Kind → Bool
is_async Kind.notice_response = true
is_async Kind.notification_response = true
is_async Kind.parameter_status = true
is_async _ = false

unfoldable pub resume : ReadResponseFsm → BackendMessage → Outcome
unfolding is_async
resume f msg = if is_async msg.kind then (read, f) else dispatch (get_remaining_messages f) msg f
