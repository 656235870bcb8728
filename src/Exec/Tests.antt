-- ===== src/Exec/Tests.antt =====
-- Runs of exec_fsm: one answer in two reads, and the same in one.
use nativepg.Prelude.{
  ℕ, ◌+◌, ◌^◌, ◌<◌, ◌≡◌, refl, false, List, [], ◌∷◌, ◌++◌, length, length-replicate, replicate,
  none, some, Option, All, arith,
}
use nativepg.Protocol.{RequestMessageType, query}
use nativepg.CheckRequest.{SetupResult, check_batches, check_request, setup_request}
use nativepg.ReadResponse.{ReadResponseFsm, start, is_async, dispatch, handle_query}
use nativepg.ReadResponse
use nativepg.ReadBuffer.{
  ReadBuffer, committed_area, make_read_buffer, next_power_of_2, bit_ceil_from, prepare, commit,
  consume, receive,
}
use nativepg.ReadBuffer.Areas.{BufferInv, make-BufferInv}
use nativepg.Wire.Integers.{big_endian, big_endian-EndianLaws}
use nativepg.Wire.Framing.{parse_header}
use nativepg.Parse.{get_byte, get_string, split_string, check, check_extra_bytes, add_error}
use nativepg.Parse.Bodies.{parse_command_complete, parse_ready_for_query}
use nativepg.Parse.Messages.{type}
use nativepg.Parse.Dispatch.{
  backend_message_type, parse_as, parse_any_message, parse_rest, parse_message,
}
use nativepg.Parse.Answers.{IsByte}
use nativepg.Exec.{ExecFsm, done, read, Resumed, resume, read_loop}
use nativepg.Exec.Chunks.{Reads, written, answered, Reads_alike, end_of}
use nativepg.Exec.Progress.{behind_read, Reads-Progress, Progress}

abbrev zeros : ℕ → List ℕ
zeros n = replicate n 0

abbrev accepts : List RequestMessageType → SetupResult
accepts req = record { ec = none; offset = length req }

abbrev one_query : List RequestMessageType
one_query = query ∷ []

abbrev query_bytes : List ℕ
query_bytes = 81 ∷ 0 ∷ 0 ∷ 0 ∷ 5 ∷ 0 ∷ []

abbrev buffer : ReadBuffer
buffer = make_read_buffer zeros 16

-- command_complete with "OK", cut in the tag; and ready_for_query.
abbrev front : List ℕ
front = 67 ∷ 0 ∷ 0 ∷ 0 ∷ 7 ∷ 79 ∷ []

abbrev back : List ℕ
back = 75 ∷ 0 ∷ 90 ∷ 0 ∷ 0 ∷ 0 ∷ 5 ∷ 73 ∷ []

abbrev call : ExecFsm → ReadBuffer → ℕ → Option Resumed
call x b n = resume big_endian zeros accepts query_bytes x b none n

asks_first :
    (x : ExecFsm) × (b : ReadBuffer) × Reads big_endian zeros accepts query_bytes
      (start one_query false)
      buffer
      []
      (read 16, x, b)
unfolding resume setup_request check_request check_batches read_loop parse_message prepare
    make_read_buffer next_power_of_2 bit_ceil_from start
asks_first = (_, _, written none 0 0 _ _ _ refl refl)

asks_again :
    (x : ExecFsm) × (b : ReadBuffer) × Reads big_endian zeros accepts query_bytes
      (start one_query false)
      buffer
      front
      (read 10, x, b)
unfolding resume setup_request check_request check_batches read_loop parse_message prepare
    make_read_buffer next_power_of_2 bit_ceil_from start commit receive parse_header parse_rest
    big_endian
asks_again =
    (_, _, answered [] front 16 _ _ _ (written none 0 0 _ _ _ refl refl) (omega arith) refl)

in_two :
    (x : ExecFsm) × (b : ReadBuffer) × Reads big_endian zeros accepts query_bytes
      (start one_query false)
      buffer
      (front ++ back)
      (done none, x, b)
unfolding resume setup_request check_request check_batches read_loop parse_message prepare
    make_read_buffer next_power_of_2 bit_ceil_from start commit receive consume parse_header
    parse_rest big_endian ReadResponse.resume is_async dispatch handle_query parse_any_message
    parse_as backend_message_type parse_command_complete parse_ready_for_query get_byte get_string
    split_string check check_extra_bytes add_error type ReadResponse.advance
in_two = (
  _,
  _,
  answered front back 10 _ _ _
      (answered [] front 16 _ _ _ (written none 0 0 _ _ _ refl refl) (omega arith) refl)
      (omega arith) refl,
)

in_one :
    (x : ExecFsm) × (b : ReadBuffer) × Reads big_endian zeros accepts query_bytes
      (start one_query false)
      buffer
      (front ++ back)
      (done none, x, b)
unfolding resume setup_request check_request check_batches read_loop parse_message prepare
    make_read_buffer next_power_of_2 bit_ceil_from start commit receive consume parse_header
    parse_rest big_endian ReadResponse.resume is_async dispatch handle_query parse_any_message
    parse_as backend_message_type parse_command_complete parse_ready_for_query get_byte get_string
    split_string check check_extra_bytes add_error type ReadResponse.advance
in_one = (
  _,
  _,
  answered [] (front ++ back) 16 _ _ _ (written none 0 0 _ _ _ refl refl) (omega arith) refl,
)

buffer-BufferInv : BufferInv buffer
buffer-BufferInv = (make-BufferInv zeros (λ n. length-replicate n 0) 16 (omega arith)).0

nothing_committed : committed_area buffer ≡ []
nothing_committed = (make-BufferInv zeros (λ n. length-replicate n 0) 16 (omega arith)).1

answer_IsByte : All IsByte (committed_area buffer ++ (front ++ back))
answer_IsByte = rw nothing_committed (omega arith)

answer_small : length (committed_area buffer ++ (front ++ back)) + 2 ^ 32 < 2 ^ 64
answer_small = rw nothing_committed (omega arith)

Reads_alike_example :
    (end_of (done none) ≡ end_of (done none))
    × (in_two.0.read_fsm ≡ in_one.0.read_fsm)
    × (committed_area in_two.1 ≡ committed_area in_one.1)
Reads_alike_example =
    Reads_alike big_endian big_endian-EndianLaws zeros zeros (λ n. length-replicate n 0)
      (λ n. length-replicate n 0) accepts query_bytes (start one_query false) buffer buffer
      buffer-BufferInv buffer-BufferInv refl answer_IsByte answer_small in_two.2 in_one.2

Reads-Progress_example :
    (o : Resumed) × (resume big_endian zeros accepts query_bytes asks_again.0
        (receive asks_again.1 back)
        none
        (length back)
      ≡ some o)
    × Progress accepts query_bytes one_query o
Reads-Progress_example =
    Reads-Progress big_endian big_endian-EndianLaws zeros (λ n. length-replicate n 0) accepts
      query_bytes one_query buffer-BufferInv answer_IsByte answer_small
      (behind_read none front back 10 asks_again.0 asks_again.1 asks_again.2 (omega arith))
