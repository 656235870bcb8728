-- ===== src/Connect/Progress.antt =====
-- Each call of startup_fsm comes to an end (src/startup_fsm.cpp).
use nativepg.Prelude.{
  All-drop, ℕ, zero, suc, ◌+◌, ◌^◌, ◌<◌, ◌≡◌, refl, sym, ap, ◌∙◌, subst, List, length, Option, none,
  some, All, arith, length-drop,
}
use nativepg.Protocol.{ErrorCode, BackendMessage}
use nativepg.ReadBuffer.{ReadBuffer, committed_area, prepared_size, consume, commit}
use nativepg.ReadBuffer.Areas.{BufferInv, prepare-Prepared, consume_lem}
use nativepg.Wire.{Endian, EndianLaws}
use nativepg.Parse.Messages.{as_backend}
use nativepg.Parse.Dispatch.{ParseMessageResult, failed, more, complete, parse_message}
use nativepg.Parse.Contained.{parse_message-body}
use nativepg.Parse.Answers.{IsByte, Answered, parse_message-Answered}
use nativepg.Exec.Loop.{more_bound}
use nativepg.Startup.{
  ScramFsm, ConnectParams, StartupFsm, StartupResult, ResumePoint, Resumed, attempt, on_start,
  on_first_response, on_sasl, on_continue, on_final, make_startup_message, supports_scram_sha256,
}
use nativepg.Startup
use nativepg.Connect.{
  DriverPoint, initial, wrote, received, Driver, done, write, read, Driven, after_impl,
  impl_answered, startup_parsed, message_loop, read_message, drive_at, drive, no_message,
}
use nativepg.Connect.Defined.{IsDefined, StartupOk, Answers, resume_lem}

-- The buffer that a call finds behind the commit of what was read.
abbrev pub found : DriverPoint → ReadBuffer → ℕ → ReadBuffer
found received b n = commit b n
found _ b n = b

module _ {S : Type 0} (scram_fsm : ScramFsm S) (endian : Endian) (params : ConnectParams)
    (new_block : ℕ → List ℕ) (defined : IsDefined scram_fsm) (laws : EndianLaws endian)
    (blocks : (n : ℕ) → length (new_block n) ≡ n) where
  -- What a call answers: an end, a write, or a read of some room; and what it goes on from.
  abbrev pub Progress : Driven scram_fsm endian params new_block → Type 0
  Progress (done ec, x, b) = Unit {0}
  Progress (write bytes, x, b) =
      BufferInv b × (x.point ≡ wrote) × StartupOk scram_fsm endian params defined laws x.impl
  Progress (read k, x, b) =
      BufferInv b
      × (k ≡ prepared_size b)
      × (0 < k)
      × (x.point ≡ received)
      × StartupOk scram_fsm endian params defined laws x.impl

  abbrev Ok : StartupFsm S → Type 0
  Ok i = StartupOk scram_fsm endian params defined laws i

  abbrev Ends : Option (Driven scram_fsm endian params new_block) → Type 0
  Ends o = (r : Driven scram_fsm endian params new_block) × (o ≡ some r) × Progress r

  abbrev Fits : ReadBuffer → Type 0
  Fits b =
      BufferInv b
      × (All IsByte (committed_area b) × All defined.IsSafe (committed_area b))
      × (length (committed_area b) + 2 ^ 32 < 2 ^ 64)

  after-Ends :
      (p : DriverPoint)
      (next : StartupFsm S → ReadBuffer → Option (Driven scram_fsm endian params new_block))
      (a : StartupResult × StartupFsm S) (b : ReadBuffer)
      → BufferInv b
      → Answers scram_fsm endian params defined laws (some a)
      → ((i : StartupFsm S) → Ok i → Ends (next i b))
      → Ends (after_impl scram_fsm endian params new_block next p a b)
  after-Ends p next (StartupResult.done ec, i) b v ok k = (_, refl, tt)
  after-Ends p next (StartupResult.write, i) b v ok k = (_, refl, (v, refl, ok))
  after-Ends p next (StartupResult.read, i) b v ok k = k i ok

  impl_answered-Ends :
      (p : DriverPoint)
      (next : StartupFsm S → ReadBuffer → Option (Driven scram_fsm endian params new_block))
      (m : BackendMessage) (i : StartupFsm S) (b : ReadBuffer)
      → BufferInv b
      → length m.body < 2 ^ 62
      → All defined.IsSafe m.body
      → Ok i
      → ((i : StartupFsm S) → Ok i → Ends (next i b))
      → Ends (
          impl_answered scram_fsm endian params new_block next p
            (Startup.resume scram_fsm endian params m i)
            b)
  impl_answered-Ends p next m i b v small safe ok k =
      let (a, e, ok') = resume_lem scram_fsm endian params defined laws m i small safe ok in
      let (r, f, g) = after-Ends p next a b v ok' k in
      (r, ap (λ o. impl_answered scram_fsm endian params new_block next p o b) e ∙ f, g)

  abbrev Rounds : DriverPoint → ℕ → Type 0
  Rounds p fuel =
      (i : StartupFsm S) (b : ReadBuffer)
      → Ok i
      → Fits b
      → length (committed_area b) < fuel
      → Ends (message_loop scram_fsm endian params new_block p fuel i b)

  round :
      (p : DriverPoint) (fuel : ℕ)
      → Rounds p fuel
      → (q : ParseMessageResult) (i : StartupFsm S) (b : ReadBuffer) → Ok i
      → Fits b
      → length (committed_area b) < suc fuel
      → (missing : ℕ) → Answered (parse_message endian) (committed_area b) missing q
      → parse_message endian (committed_area b) ≡ q
      → Ends (
          startup_parsed scram_fsm endian params new_block
            (message_loop scram_fsm endian params new_block p fuel)
            p
            q
            i
            b)
  round p fuel ih (failed err) i b fine fits lt k a e = (_, refl, tt)
  round p fuel ih (more n) i b fine (v, ok, small) lt k a e =
      let (v', same, room) =
        prepare-Prepared new_block blocks b n v
          (omega (arith, more_bound endian (committed_area b) e, small)) in
      (_, refl, (v', refl, omega (arith, a.1, room), refl, fine))
  round p fuel ih (complete msg n) i b fine (v, (ok, safe), small) lt k a e =
      let (short, safe') = parse_message-body defined.IsSafe endian (committed_area b) safe e in
      let (v', left) = consume_lem b n v in
      let shorter = ap length left ∙ length-drop n (committed_area b) in
      impl_answered-Ends p (message_loop scram_fsm endian params new_block p fuel) (as_backend msg)
        i (consume b n) v' (omega (arith, short)) safe' fine
        (λ j fine'.
          ih j (consume b n) fine'
            (
              v',
              (
                subst (All IsByte) (sym left) (All-drop IsByte n _ ok),
                subst (All defined.IsSafe) (sym left) (All-drop defined.IsSafe n _ safe),
              ),
              omega (arith, shorter, small),
            )
            (omega (arith, shorter, lt, a.1, a.2)))

  rounds : (p : DriverPoint) (fuel : ℕ) → Rounds p fuel
  unfolding message_loop
  rounds p zero i b fine fits lt = elim lt [ ]
  rounds p (suc fuel) i b fine fits lt =
      round p fuel (rounds p fuel) (parse_message endian (committed_area b)) i b fine fits lt _
        (parse_message-Answered endian laws (committed_area b) fits.1.0) refl

  looped :
      (p : DriverPoint) (i : StartupFsm S) (b : ReadBuffer)
      → Ok i
      → Fits b
      → Ends (read_message scram_fsm endian params new_block p i b)
  looped p i b fine fits = rounds p (suc (length (committed_area b))) i b fine fits (omega arith)

  driven :
      (p : DriverPoint) (x : Driver S) (b : ReadBuffer) (io_error : ErrorCode) (n : ℕ)
      → Ok x.impl
      → Fits (found p b n)
      → Ends (drive_at scram_fsm endian params new_block p x b io_error n)
  driven initial x b io_error n fine fits =
      impl_answered-Ends initial (read_message scram_fsm endian params new_block initial) no_message
        x.impl b fits.0 (omega arith) tt fine (λ j fine'. looped initial j b fine' fits)
  driven wrote x b (some e) n fine fits = (_, refl, tt)
  driven wrote x b none n fine fits =
      impl_answered-Ends wrote (read_message scram_fsm endian params new_block wrote) no_message
        x.impl b fits.0 (omega arith) tt fine (λ j fine'. looped wrote j b fine' fits)
  driven received x b (some e) n fine fits = (_, refl, tt)
  driven received x b none n fine fits = looped received x.impl (commit b n) fine fits

  -- With a SCRAM that stays in memory where it goes on as on_init left it, integers that are read as
  -- documented and memory in blocks of the size asked for: every call of startup_fsm, at every point,
  -- on a startup_fsm_impl that is as its calls leave it and a buffer whose offsets are in order and
  -- whose bytes have 8 bits, are safe for SCRAM and have a total that memory can hold, comes to an
  -- end, since its loops over the messages that are there are finite. It answers with the end of the
  -- startup, with a write, or with a read that has room for one byte at least, and goes on from
  -- there, again as its calls leave it.
  pub drive-Progress :
      (x : Driver S) (b : ReadBuffer) (io_error : ErrorCode) (n : ℕ)
      → StartupOk scram_fsm endian params defined laws x.impl
      → BufferInv (found x.point b n)
      → All IsByte (committed_area (found x.point b n))
      → All defined.IsSafe (committed_area (found x.point b n))
      → length (committed_area (found x.point b n)) + 2 ^ 32 < 2 ^ 64
      → (r : Driven scram_fsm endian params new_block) × (drive scram_fsm endian params new_block x
            b io_error n
          ≡ some r)
        × Progress r
  unfolding drive
  drive-Progress x b io_error n fine v ok safe small =
      driven x.point x b io_error n fine (v, (ok, safe), small)
