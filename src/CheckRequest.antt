-- ===== src/CheckRequest.antt =====
-- src/nativepg_internal/check_request.hpp: which requests may be sent, and the count of the
-- answers that multiplexer.hpp expects of one.
pub mod Batches
use nativepg.Prelude.{
  ℕ, suc, ◌≡◌, Bool, true, false, List, [], ◌∷◌, some, none, if◌then◌else◌, length, ◌==◌,
}
use nativepg.Protocol.{
  ErrorCode, client, RequestMessageType, bind, close, describe, execute, flush, parse, query, sync,
  empty_request, request_mixes_simple_advanced_protocols, request_ends_without_sync,
  incompatible_response_length,
}

-- The loop over the messages and the test behind it. The flag is `is_extended_batch`.
unfoldable pub check_batches : Bool → List RequestMessageType → ErrorCode
check_batches true [] = some (client request_ends_without_sync)
check_batches false [] = none
check_batches true (query ∷ ms) = some (client request_mixes_simple_advanced_protocols)
check_batches false (query ∷ ms) = check_batches false ms
check_batches b (sync ∷ ms) = check_batches false ms
check_batches b (_ ∷ ms) = check_batches true ms

unfoldable pub check_request : List RequestMessageType → ErrorCode
check_request [] = some (client empty_request)
check_request (m ∷ ms) = check_batches false (m ∷ ms)

-- handler_setup_result: the code, and the number of messages that the handler takes.
pub record SetupResult : Type 0 where
  pub ec : ErrorCode
  pub offset : ℕ

-- `setup` is the handler's own function, already given the request and the offset 0.
finish_setup : SetupResult → List RequestMessageType → ErrorCode
finish_setup r req =
    let sized : ErrorCode =
      if r.offset == length req then none else some (client incompatible_response_length) in
    elim r.ec [ some e ↦ some e | none ↦ sized ]

unfoldable pub setup_request :
    (List RequestMessageType → SetupResult) → List RequestMessageType → ErrorCode
unfolding finish_setup
setup_request setup req = elim (check_request req) [
  | some e ↦ some e
  | none ↦ finish_setup (setup req) req
]

-- How many ready_for_query messages a request is answered with.
unfoldable pub get_expected_rfqs : List RequestMessageType → ℕ
get_expected_rfqs [] = 0
get_expected_rfqs (query ∷ ms) = suc (get_expected_rfqs ms)
get_expected_rfqs (sync ∷ ms) = suc (get_expected_rfqs ms)
get_expected_rfqs (_ ∷ ms) = get_expected_rfqs ms
