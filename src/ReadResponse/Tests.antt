-- ===== src/ReadResponse/Tests.antt =====
-- Runs of read_response_fsm.
use nativepg.Prelude.{◌≡◌, refl, false, List, [], ◌∷◌, none}
use nativepg.Protocol.{
  RequestMessageType, parse, bind, execute, flush, query, sync, BackendMessage, Kind,
  HandlerMessage,
}
use nativepg.CheckRequest.{check_batches, check_request}
use nativepg.ReadResponse.{
  State, read, start, resume, is_async, dispatch, handle_parse, handle_error, skip_to_sync,
}
use nativepg.ReadResponse.Accounting.{Stepped}
use nativepg.ReadResponse.Conversation.{
  resume-Stepped, start-Inv, feed, Balanced, feed-start-Balanced,
}

-- A batch, and a simple query behind it.
abbrev batch_and_query : List RequestMessageType
batch_and_query = parse ∷ bind ∷ flush ∷ execute ∷ sync ∷ query ∷ []

abbrev message : Kind → BackendMessage
message k = record { kind = k; body = [] }

batch_and_query_checked : check_request batch_and_query ≡ none
unfolding check_request check_batches
batch_and_query_checked = refl

-- A failed parse skips the bind and the execute, and the sync comes next.
failed_parse : resume (start batch_and_query false) (message Kind.error_response) ≡ (
  read,
  record {
    req = batch_and_query;
    allow_copy = false;
    current = 4;
    state = State.msg_first;
    calls =
        (HandlerMessage.error_response [], 0)
        ∷ (HandlerMessage.message_skipped, 1)
        ∷ (HandlerMessage.message_skipped, 3)
        ∷ [];
  },
)
unfolding resume is_async dispatch handle_parse handle_error skip_to_sync start
failed_parse = refl

abbrev failed_answer : List BackendMessage
failed_answer =
    message Kind.error_response
    ∷ message Kind.ready_for_query
    ∷ message Kind.command_complete
    ∷ message Kind.ready_for_query
    ∷ []

resume-Stepped_example :
    Stepped
      (start batch_and_query false)
      Kind.error_response
      (resume (start batch_and_query false) (message Kind.error_response))
resume-Stepped_example =
    resume-Stepped (start batch_and_query false) (message Kind.error_response)
      (start-Inv batch_and_query false batch_and_query_checked)

feed-start-Balanced_example :
    Balanced
      (start batch_and_query false)
      failed_answer
      (feed failed_answer (start batch_and_query false))
feed-start-Balanced_example =
    feed-start-Balanced batch_and_query false failed_answer batch_and_query_checked
