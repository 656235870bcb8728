-- ===== src/Exec.antt =====
-- src/exec_fsm.cpp and include/nativepg/protocol/detail/exec_fsm.hpp: exec_fsm, which writes a
-- request and reads its answer: it checks the request, and hands read_response_fsm the messages
-- that parse_message finds in the read buffer, reading more where they are not complete.
pub mod Stream
pub mod Loop
pub mod Order
pub mod Chunks
pub mod Progress
mod Tests
use nativepg.Prelude.{ℕ, zero, suc, List, Option, none, some, length}
use nativepg.Protocol.{ErrorCode, RequestMessageType}
use nativepg.CheckRequest.{SetupResult, setup_request}
use nativepg.ReadResponse.{ReadResponseFsm, Result, Outcome}
use nativepg.ReadResponse
use nativepg.ReadBuffer.{ReadBuffer, committed_area, prepared_size, prepare, commit, consume}
use nativepg.Wire.{Endian}
use nativepg.Parse.Messages.{as_backend}
use nativepg.Parse.Dispatch.{ParseMessageResult, failed, more, complete, parse_message}

-- The points where exec_fsm::resume goes on, by what was done last.
pub data ExecPoint : Type 0 where
  initial wrote received : ExecPoint

pub record ExecFsm : Type 0 where
  pub point : ExecPoint
  pub read_fsm : ReadResponseFsm

-- exec_fsm::result; a read is into an area of some size. `out_of_range` is no value of the source:
-- read_response_fsm has read behind its request.
pub data ExecResult : Type 0 where
  done : ErrorCode → ExecResult
  write : List ℕ → ExecResult
  read : ℕ → ExecResult
  out_of_range : ExecResult

abbrev pub Resumed : Type 0
Resumed = ExecResult × ExecFsm × ReadBuffer

-- What `operator new` hands out, the handler's setup and the request's bytes are arguments.
module _ (endian : Endian) (new_block : ℕ → List ℕ) (setup : List RequestMessageType → SetupResult)
    (payload : List ℕ) where
  -- What read_response_fsm answered; `next` is the next round of the loop.
  abbrev pub after_message :
      (ReadResponseFsm → ReadBuffer → Option Resumed)
      → ExecPoint
      → Outcome
      → ReadBuffer
      → Option Resumed
  after_message next p (Result.done ec, f) b = some (done ec, record { point = p; read_fsm = f }, b)
  after_message next p (Result.read, f) b = next f b
  after_message next p (Result.out_of_range, f) b =
      some (out_of_range, record { point = p; read_fsm = f }, b)

  abbrev pub on_parsed :
      (ReadResponseFsm → ReadBuffer → Option Resumed)
      → ExecPoint
      → ParseMessageResult
      → ReadResponseFsm
      → ReadBuffer
      → Option Resumed
  on_parsed next p (failed e) f b = some (done (some e), record { point = p; read_fsm = f }, b)
  on_parsed next p (more n) f b =
      let b' = prepare new_block b n in
      some (read (prepared_size b'), record { point = received; read_fsm = f }, b')
  on_parsed next p (complete msg size) f b =
      after_message next p (ReadResponse.resume f (as_backend msg)) (consume b size)

  -- The loop over the messages that are there. Each takes bytes, so that there are fewer rounds
  -- than committed bytes and one; `none` is where the fuel runs out.
  unfoldable pub read_loop : ExecPoint → ℕ → ReadResponseFsm → ReadBuffer → Option Resumed
  read_loop p zero f b = none
  read_loop p (suc fuel) f b =
      on_parsed (read_loop p fuel) p (parse_message endian (committed_area b)) f b

  abbrev pub read_messages : ExecPoint → ReadResponseFsm → ReadBuffer → Option Resumed
  read_messages p f b = read_loop p (suc (length (committed_area b))) f b

  -- The first call, by the code of setup_request.
  abbrev pub after_setup : ErrorCode → ExecFsm → ReadBuffer → Resumed
  after_setup (some e) x b = (done (some e), x, b)
  after_setup none x b = (write payload, record x { point = wrote }, b)

  abbrev pub resume_at : ExecPoint → ExecFsm → ReadBuffer → ErrorCode → ℕ → Option Resumed
  resume_at initial x b ec n = some (after_setup (setup_request setup x.read_fsm.req) x b)
  resume_at wrote x b (some e) n = some (done (some e), x, b)
  resume_at wrote x b none n = read_messages wrote x.read_fsm b
  resume_at received x b (some e) n = some (done (some e), x, b)
  resume_at received x b none n = read_messages received x.read_fsm (commit b n)

  -- exec_fsm::resume, with the code of the last operation and the number of bytes it read.
  unfoldable pub resume : ExecFsm → ReadBuffer → ErrorCode → ℕ → Option Resumed
  unfolding read_loop
  resume x b ec bytes_transferred = resume_at x.point x b ec bytes_transferred
