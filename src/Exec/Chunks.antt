-- ===== src/Exec/Chunks.antt =====
-- exec_fsm over its whole life (src/exec_fsm.cpp), with the server's bytes arriving in parts.
use nativepg.Prelude.{
  All-drop, All-append_left, All-append_right, ℕ, suc, ◌+◌, ◌^◌, ◌≤◌, ◌<◌, ◌≡◌, refl, sym, ap, ◌∙◌,
  subst, List, [], ◌++◌, length, Option, none, some, some_inj, All, arith, append_assoc, append-nil,
  length-append, All-append, length-drop,
}
use nativepg.Protocol.{ErrorCode, RequestMessageType}
use nativepg.CheckRequest.{SetupResult, setup_request}
use nativepg.ReadResponse.{ReadResponseFsm}
use nativepg.ReadBuffer.{ReadBuffer, committed_area, prepared_size, commit, receive}
use nativepg.ReadBuffer.Areas.{BufferInv, commit-receive}
use nativepg.Wire.{Endian, EndianLaws}
use nativepg.Parse.Answers.{IsByte}
use nativepg.Exec.{
  ExecPoint, initial, wrote, received, ExecFsm, ExecResult, done, write, read, out_of_range,
  Resumed, read_messages, resume, after_setup, resume_at,
}
use nativepg.Exec.Stream.{
  End, ended, waiting, left_request, Streams, Streams-unique, Streams-append, Streams-rest,
}
use nativepg.Exec.Loop.{Matched, rounds}

module _ (endian : Endian) (new_block : ℕ → List ℕ) (setup : List RequestMessageType → SetupResult)
    (payload : List ℕ) where
  abbrev pub resumed : ExecFsm → ReadBuffer → ErrorCode → ℕ → Option Resumed
  resumed = resume endian new_block setup payload

  -- From the first call on: the request is written, and each read is answered with bytes that fit.
  -- The list holds the bytes read so far.
  pub data Reads (f : ReadResponseFsm) (b : ReadBuffer) : List ℕ → Resumed → Type 0 where
    written :
        (ec : ErrorCode) (n m : ℕ) (x : ExecFsm) (b' : ReadBuffer) (o : Resumed)
        → resumed (record { point = initial; read_fsm = f }) b ec n ≡ some (write payload, x, b')
        → resumed x b' none m ≡ some o
        → Reads f b [] o
    answered :
        (bytes chunk : List ℕ) (k : ℕ) (x : ExecFsm) (b' : ReadBuffer) (o : Resumed)
        → Reads f b bytes (read k, x, b')
        → length chunk ≤ k
        → resumed x (receive b' chunk) none (length chunk) ≡ some o
        → Reads f b (bytes ++ chunk) o

  after_setup_lem :
      (ec : ErrorCode) (y x : ExecFsm) (b b' : ReadBuffer)
      → some (after_setup endian new_block setup payload ec y b) ≡ some (write payload, x, b')
      → ◌≡◌ {A = ExecFsm × ReadBuffer} (record y { point = wrote }, b) (x, b')
  after_setup_lem (some e) y x b b' h = cc
  after_setup_lem none y x b b' h = cc

  -- Where the first call writes, it leaves the machine at the next point and the buffer alone.
  pub written_lem :
      (f : ReadResponseFsm) (b b' : ReadBuffer) (ec : ErrorCode) (n : ℕ) (x : ExecFsm)
      → resumed (record { point = initial; read_fsm = f }) b ec n ≡ some (write payload, x, b')
      → ◌≡◌ {A = ExecFsm × ReadBuffer} (record { point = wrote; read_fsm = f }, b) (x, b')
  unfolding resume
  written_lem f b b' ec n x h =
      after_setup_lem (setup_request setup f.req) (record { point = initial; read_fsm = f }) x b b'
        h

  wrote_lem :
      (f : ReadResponseFsm) (b : ReadBuffer) (n : ℕ)
      → resumed (record { point = wrote; read_fsm = f }) b none n
        ≡ read_messages endian new_block setup payload wrote f b
  unfolding resume
  wrote_lem f b n = refl

  received_lem :
      (x : ExecFsm) (b : ReadBuffer) (n : ℕ)
      → x.point ≡ received
      → resumed x b none n
        ≡ read_messages endian new_block setup payload received x.read_fsm (commit b n)
  unfolding resume
  received_lem x b n at = ap (λ q. resume_at endian new_block setup payload q x b none n) at

Matched-append :
    (endian : Endian) (laws : EndianLaws endian) (f g : ReadResponseFsm) (bytes rest chunk : List ℕ)
    (o : Resumed)
    → All IsByte bytes
    → Streams endian waiting g rest f bytes
    → Matched endian g (rest ++ chunk) o
    → Matched endian f (bytes ++ chunk) o
Matched-append endian laws f g bytes rest chunk (done ec, x, b) ok s (v, t) =
    (v, Streams-append endian laws chunk ok s t)
Matched-append endian laws f g bytes rest chunk (read k, x, b) ok s (v, t, k', pos', at) =
    (v, Streams-append endian laws chunk ok s t, k', pos', at)
Matched-append endian laws f g bytes rest chunk (out_of_range, x, b) ok s (v, t) =
    (v, Streams-append endian laws chunk ok s t)
Matched-append endian laws f g bytes rest chunk (write q, x, b) ok s m = m

module _ (endian : Endian) (laws : EndianLaws endian) (new_block : ℕ → List ℕ)
    (sized : (n : ℕ) → length (new_block n) ≡ n) (setup : List RequestMessageType → SetupResult)
    (payload : List ℕ) where
  -- A call that reads what is there.
  looped :
      (p : ExecPoint) (f : ReadResponseFsm) (b : ReadBuffer)
      → BufferInv b
      → All IsByte (committed_area b)
      → length (committed_area b) + 2 ^ 32 < 2 ^ 64
      → (o : Resumed) × (read_messages endian new_block setup payload p f b ≡ some o)
        × Matched endian f (committed_area b) o
  looped p f b v ok small =
      rounds endian laws new_block sized setup payload p (suc (length (committed_area b))) f b v ok
        (omega arith) small

  -- A read of a chunk that fits, and the call that it is handed to.
  chunk_Matched :
      (x : ExecFsm) (b : ReadBuffer) (chunk : List ℕ)
      → BufferInv b
      → All IsByte (committed_area b ++ chunk)
      → length (committed_area b ++ chunk) + 2 ^ 32 < 2 ^ 64
      → length chunk ≤ prepared_size b
      → x.point ≡ received
      → (o : Resumed) × (resumed endian new_block setup payload x
            (receive b chunk)
            none
            (length chunk)
          ≡ some o)
        × Matched endian x.read_fsm (committed_area b ++ chunk) o
  chunk_Matched x b chunk v ok small fits at =
      let (v', grown) = commit-receive b chunk v fits in
      let b' = commit (receive b chunk) (length chunk) in
      let (o, r, m) =
        looped received x.read_fsm b' v' (subst (All IsByte) (sym grown) ok)
          (omega (arith, ap length grown, small)) in
      (
        o,
        received_lem endian new_block setup payload x (receive b chunk) (length chunk) at ∙ r,
        subst (λ l. Matched endian x.read_fsm l o) grown m,
      )

  -- A read from a state that matches, and the next one that matches.
  pub after_read :
      (f : ReadResponseFsm) (front chunk : List ℕ) (k : ℕ) (x : ExecFsm) (b : ReadBuffer)
      → Matched endian f front (read k, x, b)
      → All IsByte (front ++ chunk)
      → length (front ++ chunk) + 2 ^ 32 < 2 ^ 64
      → length chunk ≤ k
      → (o : Resumed) × (resumed endian new_block setup payload x
            (receive b chunk)
            none
            (length chunk)
          ≡ some o)
        × Matched endian f (front ++ chunk) o
  after_read f front chunk k x b (v, s, k', pos', at) ok small fits =
      let ok' = All-append_left IsByte front chunk ok in
      let (n, left) = Streams-rest endian laws ok' s in
      let (o, r, matched) =
        chunk_Matched x b chunk v
          (All-append IsByte (committed_area b) chunk
            (subst (All IsByte) (sym left) (All-drop IsByte n front ok'))
            (All-append_right IsByte front chunk ok))
          (omega (
            arith,
            length-append front chunk,
            length-append (committed_area b) chunk,
            ap length left,
            length-drop n front,
            small,
          ))
          (omega (arith, fits, k')) at in
      (o, r, Matched-append endian laws f x.read_fsm front (committed_area b) chunk o ok' s matched)

  -- The call behind the write, which reads what the buffer holds from before.
  pub after_write :
      (f : ReadResponseFsm) (b b' : ReadBuffer) (ec : ErrorCode) (n m : ℕ) (x : ExecFsm)
      → resumed endian new_block setup payload (record { point = initial; read_fsm = f }) b ec n
        ≡ some (write payload, x, b')
      → BufferInv b
      → All IsByte (committed_area b)
      → length (committed_area b) + 2 ^ 32 < 2 ^ 64
      → (o : Resumed) × (resumed endian new_block setup payload x b' none m ≡ some o)
        × Matched endian f (committed_area b) o
  after_write f b b' ec n m x w v ok small =
      let same = written_lem endian new_block setup payload f b b' ec n x w in
      let (o, r, matched) = looped wrote f b v ok small in
      (
        o,
        subst (λ q. resumed endian new_block setup payload q.0 q.1 none m ≡ some o) same
            (wrote_lem endian new_block setup payload f b m ∙ r),
        matched,
      )

  -- Over any reads, what came back is where the stream stops.
  pub Reads-Matched :
      {f : ReadResponseFsm} {b : ReadBuffer} {bytes : List ℕ} {o : Resumed}
      → Reads endian new_block setup payload f b bytes o
      → BufferInv b
      → All IsByte (committed_area b ++ bytes)
      → length (committed_area b ++ bytes) + 2 ^ 32 < 2 ^ 64
      → Matched endian f (committed_area b ++ bytes) o
  Reads-Matched {f = f} {b = b} (written ec n m x b' o w r) v ok small =
      let (o', r', matched) =
        after_write f b b' ec n m x w v (subst (All IsByte) (append-nil (committed_area b)) ok)
          (omega (arith, length-append (committed_area b) [], small)) in
      subst (λ l. Matched endian f l o) (sym (append-nil (committed_area b)))
        (subst (Matched endian f (committed_area b)) (some_inj (sym r' ∙ r)) matched)
  Reads-Matched {f = f} {b = b} (answered bytes chunk k x b' o past fits r) v ok small =
      let front = committed_area b ++ bytes in
      let joined = append_assoc (committed_area b) bytes chunk in
      let all = subst (All IsByte) (sym joined) ok in
      let sizes = ap length joined in
      let m =
        Reads-Matched past v (All-append_left IsByte front chunk all)
          (omega (arith, length-append front chunk, sizes, small)) in
      let (o', r', matched) =
        after_read f front chunk k x b' m all (omega (arith, sizes, small)) fits in
      subst (λ l. Matched endian f l o) joined
        (subst (Matched endian f (front ++ chunk)) (some_inj (sym r' ∙ r)) matched)

-- How a call ends for the caller: with a code, or in need of bytes. The size of a read is the
-- buffer's own affair.
abbrev pub end_of : ExecResult → End
end_of (done ec) = ended ec
end_of (read k) = waiting
end_of (write p) = waiting
end_of out_of_range = left_request

pub Matched-Streams :
    (endian : Endian) (f : ReadResponseFsm) (bytes : List ℕ) (o : Resumed)
    → Matched endian f bytes o
    → Streams endian (end_of o.0) o.1.read_fsm (committed_area o.2) f bytes
Matched-Streams endian f bytes (done ec, x, b) m = m.1
Matched-Streams endian f bytes (read k, x, b) m = m.1
Matched-Streams endian f bytes (out_of_range, x, b) m = m.1
Matched-Streams endian f bytes (write p, x, b) m = absurd m

-- Two runs of exec_fsm over the same request and the same bytes of the server, in bytes of 8 bits
-- and of a total that memory can hold: however the bytes are cut into reads, and whatever the
-- buffers, if they hold the same at first, are and get from operator new: both end with the same
-- code, or both need bytes; the handler was told the same, in the same order, and the same bytes
-- are left over.
pub Reads_alike :
    (endian : Endian)
    → EndianLaws endian
    → (new_block new_block' : ℕ → List ℕ) → ((n : ℕ) → length (new_block n) ≡ n)
    → ((n : ℕ) → length (new_block' n) ≡ n)
    → (setup : List RequestMessageType → SetupResult) (payload : List ℕ) (f : ReadResponseFsm)
      (b b' : ReadBuffer) {bytes : List ℕ} {o o' : Resumed}
    → BufferInv b
    → BufferInv b'
    → committed_area b ≡ committed_area b'
    → All IsByte (committed_area b ++ bytes)
    → length (committed_area b ++ bytes) + 2 ^ 32 < 2 ^ 64
    → Reads endian new_block setup payload f b bytes o
    → Reads endian new_block' setup payload f b' bytes o'
    → (end_of o.0 ≡ end_of o'.0)
      × (o.1.read_fsm ≡ o'.1.read_fsm)
      × (committed_area o.2 ≡ committed_area o'.2)
Reads_alike endian laws blocks blocks' sized sized' setup payload f b b' {bytes} {o} {o'} v v' same
      ok small r r' =
    let m = Reads-Matched endian laws blocks sized setup payload r v ok small in
    let m' =
      Reads-Matched endian laws blocks' sized' setup payload r' v'
        (subst (λ l. All IsByte (l ++ bytes)) same ok)
        (subst (λ l. length (l ++ bytes) + 2 ^ 32 < 2 ^ 64) same small) in
    Streams-unique endian (Matched-Streams endian f _ o m) (
      subst (λ l. Streams endian (end_of o'.0) o'.1.read_fsm (committed_area o'.2) f (l ++ bytes))
        (sym same) (Matched-Streams endian f _ o' m'))
