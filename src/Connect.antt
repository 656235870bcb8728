-- ===== src/Connect.antt =====
-- How a connection is made: startup_fsm of src/startup_fsm.cpp, which gives startup_fsm_impl the
-- messages that parse_message finds in the read buffer, and connect_fsm of src/connect_fsm.cpp
-- around it.
pub mod Defined
pub mod Progress
pub mod Closing
mod Tests
use nativepg.Prelude.{ℕ, zero, suc, List, [], Option, none, some, length, ◌>>=◌}
use nativepg.Protocol.{ErrorCode, BackendMessage, Kind}
use nativepg.ReadBuffer.{ReadBuffer, committed_area, prepared_size, prepare, commit, consume}
use nativepg.Wire.{Endian}
use nativepg.Parse.Messages.{as_backend}
use nativepg.Parse.Dispatch.{ParseMessageResult, failed, more, complete, parse_message}
use nativepg.Startup.{ScramFsm, ConnectParams, StartupFsm, StartupResult}
use nativepg.Startup

-- The points where startup_fsm::resume goes on, by what was done last.
pub data DriverPoint : Type 0 where
  initial wrote received : DriverPoint

-- startup_fsm
pub record Driver (S : Type 0) : Type 0 where
  pub point : DriverPoint
  pub impl : StartupFsm S

-- startup_fsm::result; a read is into an area of some size.
pub data DriverResult : Type 0 where
  done : ErrorCode → DriverResult
  write : List ℕ → DriverResult
  read : ℕ → DriverResult

-- The points of connect_fsm::resume.
pub data ConnectPoint : Type 0 where
  not_started connecting starting closing : ConnectPoint

-- connect_fsm
pub record ConnectFsm (S : Type 0) : Type 0 where
  pub point : ConnectPoint
  pub startup : Driver S
  pub stored_ec : ErrorCode

-- connect_fsm::result
pub data ConnectResult : Type 0 where
  ended : ErrorCode → ConnectResult
  connect close : ConnectResult
  transfer : DriverResult → ConnectResult

abbrev pub no_message : BackendMessage
no_message = record { kind = Kind.none_kind; body = [] }

-- What `operator new` hands out is an argument. `none` is a read or a store outside of memory in
-- SCRAM, or where the fuel runs out.
module _ {S : Type 0} (scram_fsm : ScramFsm S) (endian : Endian) (params : ConnectParams)
    (new_block : ℕ → List ℕ) where
  abbrev pub Driven : Type 0
  Driven = DriverResult × Driver S × ReadBuffer

  -- What startup_fsm_impl impl_answered; `next` reads a message.
  abbrev pub after_impl :
      (StartupFsm S → ReadBuffer → Option Driven)
      → DriverPoint
      → StartupResult × StartupFsm S
      → ReadBuffer
      → Option Driven
  after_impl next p (StartupResult.done ec, i) b = some (done ec, record { point = p; impl = i }, b)
  after_impl next p (StartupResult.write, i) b =
      some (write i.write_buffer, record { point = wrote; impl = i }, b)
  after_impl next p (StartupResult.read, i) b = next i b

  abbrev pub impl_answered :
      (StartupFsm S → ReadBuffer → Option Driven)
      → DriverPoint
      → Option (StartupResult × StartupFsm S)
      → ReadBuffer
      → Option Driven
  impl_answered next p r b = r >>= λ a. after_impl next p a b

  abbrev pub startup_parsed :
      (StartupFsm S → ReadBuffer → Option Driven)
      → DriverPoint
      → ParseMessageResult
      → StartupFsm S
      → ReadBuffer
      → Option Driven
  startup_parsed next p (failed e) i b = some (done (some e), record { point = p; impl = i }, b)
  startup_parsed next p (more n) i b =
      let b' = prepare new_block b n in
      some (read (prepared_size b'), record { point = received; impl = i }, b')
  startup_parsed next p (complete msg size) i b =
      impl_answered next p (Startup.resume scram_fsm endian params (as_backend msg) i)
        (consume b size)

  -- The loop over the messages that are there. Each takes bytes, so that there are fewer rounds
  -- than committed bytes and one.
  unfoldable pub message_loop : DriverPoint → ℕ → StartupFsm S → ReadBuffer → Option Driven
  message_loop p zero i b = none
  message_loop p (suc fuel) i b =
      startup_parsed (message_loop p fuel) p (parse_message endian (committed_area b)) i b

  abbrev pub read_message : DriverPoint → StartupFsm S → ReadBuffer → Option Driven
  read_message p i b = message_loop p (suc (length (committed_area b))) i b

  -- startup_fsm_impl is called without a message, at first and after a write.
  abbrev pub call_impl : DriverPoint → StartupFsm S → ReadBuffer → Option Driven
  call_impl p i b =
      impl_answered (read_message p) p (Startup.resume scram_fsm endian params no_message i) b

  abbrev pub drive_at : DriverPoint → Driver S → ReadBuffer → ErrorCode → ℕ → Option Driven
  drive_at initial x b io_error n = call_impl initial x.impl b
  drive_at wrote x b (some e) n = some (done (some e), x, b)
  drive_at wrote x b none n = call_impl wrote x.impl b
  drive_at received x b (some e) n = some (done (some e), x, b)
  drive_at received x b none n = read_message received x.impl (commit b n)

  -- startup_fsm::resume, with the code of the last operation and the number of bytes it read.
  unfoldable pub drive : Driver S → ReadBuffer → ErrorCode → ℕ → Option Driven
  unfolding message_loop
  drive x b io_error bytes_read = drive_at x.point x b io_error bytes_read

  abbrev pub Connected : Type 0
  Connected = ConnectResult × ConnectFsm S × ReadBuffer

  -- A close is asked for, and the code kept for behind it.
  abbrev pub try_close : ErrorCode → ConnectFsm S → ReadBuffer → Connected
  try_close ec x b = (close, record x { point = closing; stored_ec = ec }, b)

  -- What startup_fsm impl_answered, with to_connect_result.
  abbrev pub after_startup : ConnectFsm S → Driven → Connected
  after_startup x (done none, d, b) = (ended none, record x { startup = d }, b)
  after_startup x (done (some e), d, b) = try_close (some e) (record x { startup = d }) b
  after_startup x (write bytes, d, b) =
      (transfer (write bytes), record x { point = starting; startup = d }, b)
  after_startup x (read n, d, b) =
      (transfer (read n), record x { point = starting; startup = d }, b)

  abbrev pub start_up : ConnectFsm S → ReadBuffer → ErrorCode → ℕ → Option Connected
  start_up x b ec n = do r ← drive x.startup b ec n; some (after_startup x r)

  abbrev pub connect_at :
      ConnectPoint → ConnectFsm S → ReadBuffer → ErrorCode → ℕ → Option Connected
  connect_at not_started x b ec n = some (connect, record x { point = connecting }, b)
  connect_at connecting x b (some e) n = some (try_close (some e) x b)
  connect_at connecting x b none n = start_up x b none n
  connect_at starting x b ec n = start_up x b ec n
  connect_at closing x b ec n = some (ended x.stored_ec, x, b)

  -- connect_fsm::resume
  unfoldable pub resume : ConnectFsm S → ReadBuffer → ErrorCode → ℕ → Option Connected
  resume x b ec bytes_transferred = connect_at x.point x b ec bytes_transferred
