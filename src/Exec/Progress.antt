-- ===== src/Exec/Progress.antt =====
-- exec_fsm comes to an end, call for call, and ends where its request does (src/exec_fsm.cpp).
use nativepg.Prelude.{
  All-append_left, ℕ, ◌+◌, ◌^◌, ◌≤◌, ◌<◌, ◌≡◌, refl, sym, ap, ◌∙◌, subst, List, [], ◌++◌,
  append-nil, ◌⊎◌, inl, inr, length, none, some, All, arith, append_assoc, length-append, false,
}
use nativepg.Protocol.{Error, ErrorCode, RequestMessageType}
use nativepg.CheckRequest.{SetupResult, setup_request}
use nativepg.ReadResponse.{ReadResponseFsm, start}
use nativepg.ReadBuffer.{ReadBuffer, committed_area, receive}
use nativepg.ReadBuffer.Areas.{BufferInv}
use nativepg.Wire.{Endian, EndianLaws}
use nativepg.Parse.Answers.{IsByte}
use nativepg.Exec.{
  initial, ExecFsm, wrote, received, done, write, read, out_of_range, Resumed, resume, after_setup,
  resume_at,
}
use nativepg.Exec.Loop.{Matched}
use nativepg.Exec.Order.{Sound, Streams-Sound, setup_request-checked}
use nativepg.ReadResponse.Conversation.{start-Inv}
use nativepg.Exec.Chunks.{
  Reads, written, answered, end_of, Matched-Streams, after_read, after_write, written_lem,
  Reads-Matched,
}

-- The first call writes what has been checked.
Reads-checked :
    (endian : Endian) (new_block : ℕ → List ℕ) (setup : List RequestMessageType → SetupResult)
    (payload : List ℕ) {f : ReadResponseFsm} {b : ReadBuffer} {bytes : List ℕ} {o : Resumed}
    → Reads endian new_block setup payload f b bytes o
    → setup_request setup f.req ≡ none
unfolding resume
Reads-checked endian new_block setup payload {f = f} {b = b} (written ec n m x b' o w r) =
    fine (setup_request setup f.req) w
  where
    fine :
        (code : ErrorCode)
        → some (
            after_setup endian new_block setup payload code
              (record { point = initial; read_fsm = f })
              b)
          ≡ some (write payload, x, b')
        → code ≡ none
    fine none w = refl
    fine (some e) w = cc
Reads-checked endian new_block setup payload (answered bytes chunk k x b' o past fits r) =
    Reads-checked endian new_block setup payload past

-- What a call answers: success behind the whole request, an error, the payload to write, once the
-- request was checked, or a read of some room.
abbrev pub Progress :
    (List RequestMessageType → SetupResult) → List ℕ → List RequestMessageType → Resumed → Type 0
Progress setup payload req (done none, x, b) =
    (x.read_fsm.current ≡ length req) × (x.read_fsm.req ≡ req)
Progress setup payload req (done (some e), x, b) = Unit {0}
Progress setup payload req (read k, x, b) = 0 < k
Progress setup payload req (write p, x, b) = (p ≡ payload) × (setup_request setup req ≡ none)
Progress setup payload req (out_of_range, x, b) = ⊥

Progress-of_Sound :
    (endian : Endian) (setup : List RequestMessageType → SetupResult) (payload : List ℕ)
    (f : ReadResponseFsm) (bytes : List ℕ) (o : Resumed)
    → Matched endian f bytes o
    → Sound f (end_of o.0) o.1.read_fsm
    → Progress setup payload f.req o
Progress-of_Sound endian setup payload f bytes (done none, x, b) m s = (s.0 ∙ ap length s.1, s.1)
Progress-of_Sound endian setup payload f bytes (done (some e), x, b) m s = tt
Progress-of_Sound endian setup payload f bytes (read k, x, b) m s = m.3
Progress-of_Sound endian setup payload f bytes (write p, x, b) m s = absurd m
Progress-of_Sound endian setup payload f bytes (out_of_range, x, b) m s = s

-- A call of exec_fsm in the life of a fresh machine: the first one, one that is told how the write
-- went, and one that is told how a read went. The list holds the bytes read so far.
pub data Call (endian : Endian) (new_block : ℕ → List ℕ)
    (setup : List RequestMessageType → SetupResult) (payload : List ℕ) (f : ReadResponseFsm)
    (b : ReadBuffer) : List ℕ → ExecFsm → ReadBuffer → ErrorCode → ℕ → Type 0 where
  first_call :
      (ec : ErrorCode) (n : ℕ)
      → Call endian new_block setup payload f b [] (record { point = initial; read_fsm = f }) b ec n
  behind_write :
      (ec io_error : ErrorCode) (n m : ℕ) (x : ExecFsm) (b' : ReadBuffer)
      → resume endian new_block setup payload (record { point = initial; read_fsm = f }) b ec n
        ≡ some (write payload, x, b')
      → Call endian new_block setup payload f b [] x b' io_error m
  behind_read :
      (io_error : ErrorCode) (bytes chunk : List ℕ) (k : ℕ) (x : ExecFsm) (b' : ReadBuffer)
      → Reads endian new_block setup payload f b bytes (read k, x, b')
      → length chunk ≤ k
      → Call endian new_block setup payload f b
          (bytes ++ chunk)
          x
          (receive b' chunk)
          io_error
          (length chunk)

module _ (endian : Endian) (laws : EndianLaws endian) (new_block : ℕ → List ℕ)
    (sized : (n : ℕ) → length (new_block n) ≡ n) (setup : List RequestMessageType → SetupResult)
    (payload : List ℕ) (req : List RequestMessageType) where
  machine : ReadResponseFsm
  machine = start req false

  Matched-Progress :
      (bytes : List ℕ) (o : Resumed)
      → setup_request setup req ≡ none
      → Matched endian machine bytes o
      → Progress setup payload req o
  unfolding start machine
  Matched-Progress bytes o h m =
      let f = start req false in
      let checked = setup_request-checked setup req h in
      Progress-of_Sound endian setup payload f bytes o m
        (Streams-Sound endian (start-Inv req false checked) (Matched-Streams endian f bytes o m))

  -- The call behind the write.
  written-Progress :
      (b b' : ReadBuffer) (ec : ErrorCode) (n m : ℕ) (x : ExecFsm)
      → resume endian new_block setup payload
          (record { point = initial; read_fsm = machine })
          b
          ec
          n
        ≡ some (write payload, x, b')
      → BufferInv b
      → All IsByte (committed_area b)
      → length (committed_area b) + 2 ^ 32 < 2 ^ 64
      → (o : Resumed) × (resume endian new_block setup payload x b' none m ≡ some o)
        × Progress setup payload req o
  unfolding start machine
  written-Progress b b' ec n m x w v ok small =
      let (o, r, matched) =
        after_write endian laws new_block sized setup payload machine b b' ec n m x w v ok small in
      let past : Reads endian new_block setup payload machine b [] o = written ec n m x b' o w r in
      (
        o,
        r,
        Matched-Progress (committed_area b) o (Reads-checked endian new_block setup payload past)
            matched,
      )

  -- The call behind a read.
  answered-Progress :
      (b b' : ReadBuffer) (bytes chunk : List ℕ) (k : ℕ) (x : ExecFsm)
      → BufferInv b
      → All IsByte (committed_area b ++ (bytes ++ chunk))
      → length (committed_area b ++ (bytes ++ chunk)) + 2 ^ 32 < 2 ^ 64
      → Reads endian new_block setup payload machine b bytes (read k, x, b')
      → length chunk ≤ k
      → (o : Resumed) × (resume endian new_block setup payload x
            (receive b' chunk)
            none
            (length chunk)
          ≡ some o)
        × Progress setup payload req o
  unfolding start machine
  answered-Progress b b' bytes chunk k x v ok small r fits =
      let front = committed_area b ++ bytes in
      let joined = append_assoc (committed_area b) bytes chunk in
      let all = subst (All IsByte) (sym joined) ok in
      let sizes = ap length joined in
      let m =
        Reads-Matched endian laws new_block sized setup payload r v
          (All-append_left IsByte front chunk all)
          (omega (arith, length-append front chunk, sizes, small)) in
      let (o, resumed_to, m') =
        after_read endian laws new_block sized setup payload machine front chunk k x b' m all
          (omega (arith, sizes, small)) fits in
      (
        o,
        resumed_to,
        Matched-Progress (front ++ chunk) o (Reads-checked endian new_block setup payload r) m',
      )

  -- A call that is told of an error ends with it.
  failed_lem :
      (e : Error) (n : ℕ) (x : ExecFsm) (b : ReadBuffer)
      → (x.point ≡ wrote) ⊎ (x.point ≡ received)
      → resume endian new_block setup payload x b (some e) n ≡ some (done (some e), x, b)
  unfolding resume
  failed_lem e n x b (inl at) =
      ap (λ q. resume_at endian new_block setup payload q x b (some e) n) at
  failed_lem e n x b (inr at) =
      ap (λ q. resume_at endian new_block setup payload q x b (some e) n) at

  first-Progress :
      (code : ErrorCode) (x : ExecFsm) (b : ReadBuffer)
      → setup_request setup req ≡ code
      → Progress setup payload req (after_setup endian new_block setup payload code x b)
  first-Progress none x b h = (refl, h)
  first-Progress (some e) x b h = tt

  -- Every call of exec_fsm in the life of a fresh machine, whatever the buffer holds at first,
  -- whatever the write and the reads end with, and however many bytes that fit a read brings, where
  -- the bytes have 8 bits and memory can hold their total, comes to an end: its loop over the messages
  -- that are there is finite. It never reads behind the request. It answers with success, and then
  -- stands behind the last message; with an error; with the payload to write, and then the request
  -- was checked; or with a read, and then has room for one byte at least.
  pub Reads-Progress :
      {b b' : ReadBuffer} {bytes : List ℕ} {x : ExecFsm} {ec : ErrorCode} {n : ℕ}
      → BufferInv b
      → All IsByte (committed_area b ++ bytes)
      → length (committed_area b ++ bytes) + 2 ^ 32 < 2 ^ 64
      → Call endian new_block setup payload (start req false) b bytes x b' ec n
      → (o : Resumed) × (resume endian new_block setup payload x b' ec n ≡ some o)
        × Progress setup payload req o
  unfolding start machine resume
  Reads-Progress {b} v ok small (first_call ec n) =
      let x : ExecFsm = record { point = initial; read_fsm = machine } in
      (_, refl, first-Progress (setup_request setup req) x b refl)
  Reads-Progress {b} v ok small (behind_write ec (some e) n m x b' w) =
      let same = written_lem endian new_block setup payload machine b b' ec n x w in
      (_, failed_lem e m x b' (inl (ap (λ q. q.0.point) (sym same))), tt)
  Reads-Progress {b} v ok small (behind_write ec none n m x b' w) =
      written-Progress b b' ec n m x w v (subst (All IsByte) (append-nil (committed_area b)) ok)
        (omega (arith, length-append (committed_area b) [], small))
  Reads-Progress {b} v ok small (behind_read (some e) bytes chunk k x b' r fits) =
      let front = committed_area b ++ bytes in
      let joined = append_assoc (committed_area b) bytes chunk in
      let m =
        Reads-Matched endian laws new_block sized setup payload r v
          (All-append_left IsByte front chunk (subst (All IsByte) (sym joined) ok))
          (omega (arith, length-append front chunk, ap length joined, small)) in
      (_, failed_lem e (length chunk) x (receive b' chunk) (inr m.4), tt)
  Reads-Progress {b} v ok small (behind_read none bytes chunk k x b' r fits) =
      answered-Progress b b' bytes chunk k x v ok small r fits
