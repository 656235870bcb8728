-- ===== src/Multiplexer/Received.antt =====
-- multiplexer.hpp: what a message leaves of the request at the front, which is read or ignored.
use nativepg.Prelude.{
  ℕ, ◌+◌, ◌-◌, ◌^◌, ◌<◌, ◌≡◌, refl, sym, ◌∙◌, Bool, true, false, List, [], ◌∷◌, ◌++◌, Option, none,
  some, All, arith, ◌==◌, ==_iff, ne_of_==, decrement,
}
use nativepg.Protocol.{Error, Kind, ErrorCode}
use nativepg.ReadResponse.{ReadResponseFsm, Outcome, done, read, out_of_range}
use nativepg.ReadResponse.Accounting.{Stepped, expected, rfqs_of, IsViolation}
use nativepg.ReadResponse.Conversation.{resume-Stepped}
use nativepg.Multiplexer.{
  Request, ElemStatus, MultiplexerElem, StreamStatus, StreamFsm, StreamResult, after_resume,
  on_reading, on_ignoring,
}
use nativepg.Multiplexer.Accounts.{
  Account, live, nobody, accounts_of, accounts_as, charge, closed, charge_open, charge_last,
}
use nativepg.Multiplexer.Invariant.{
  expected-pos, StreamOk, IsSent, Reads, IsValidRequest, owed_all, outstanding_as, expected_by,
}

-- What a message leaves of `n` owed messages and of the accounts, over a queue whose unwritten part
-- is `waiting`: the queue in order, and the calls of on_done.
abbrev InOrder : List MultiplexerElem → StreamResult → (List MultiplexerElem → Type 0) → Type 0
InOrder waiting r P =
    (sent : List MultiplexerElem) × (r.elems ≡ sent ++ waiting)
    × StreamOk r.stream.status r.stream sent
    × P sent

abbrev Settled : ℕ → List Account → Kind → StreamResult → List MultiplexerElem → Type 0
Settled n bill k r sent =
    (n ≡ outstanding_as r.stream.status r.stream sent + rfqs_of k)
    × (accounts_as r.stream.status r.stream sent ≡ charge (rfqs_of k) bill)
    × (r.completed ≡ closed (rfqs_of k) bill)

abbrev Broken : Error → List Account → StreamResult → List MultiplexerElem → Type 0
Broken e bill r sent =
    (a : Account) × (on_done : Option ℕ) × (res : Option ℕ) × (bill
      ≡ a ∷ accounts_as r.stream.status r.stream sent)
    × (a.caller ≡ live res on_done)
    × (r.completed ≡ (on_done, some e) ∷ [])

abbrev pub ReceivedAs :
    ErrorCode → ℕ → List Account → Kind → List MultiplexerElem → StreamResult → Type 0
ReceivedAs none n bill k waiting r = InOrder waiting r (Settled n bill k r)
ReceivedAs (some e) n bill k waiting r = IsViolation e × InOrder waiting r (Broken e bill r)

abbrev pub Received : ℕ → List Account → Kind → List MultiplexerElem → Option StreamResult → Type 0
Received n bill k waiting none = ⊥
Received n bill k waiting (some r) = ReceivedAs r.ec n bill k waiting r

abbrev read_account : StreamFsm → MultiplexerElem → ℕ → Account
read_account s e n = record { handle = e.handle; caller = live s.handler e.on_done; owed = n }

abbrev ignored_account : MultiplexerElem → ℕ → Account
ignored_account e n = record { handle = e.handle; caller = nobody; owed = n }

-- The front element is read.
module _ (s : StreamFsm) (e : MultiplexerElem) (es waiting : List MultiplexerElem) (k : Kind)
    (flying : e.status ≡ ElemStatus.in_flight) (ok : All IsSent es) where
  after_resume-Received :
      (f : ReadResponseFsm) (r : Request) (o : Outcome)
      → e.req ≡ some r
      → f.req ≡ r.messages
      → IsValidRequest r
      → Stepped f k o
      → Received
          (expected f + owed_all es)
          (read_account s e (expected f) ∷ accounts_of es)
          k
          waiting
          (after_resume
            (record s { status = StreamStatus.reading; fsm = some f })
            e
            (es ++ waiting)
            o)
  unfolding after_resume
  after_resume-Received f r (done none, g) q same valid st =
      let (left, called) =
        charge_last k e.handle (expected f) (live s.handler e.on_done) (accounts_of es) st.0 st.1 in
      (es, refl, ok, (omega (arith, st.0, st.1), sym left, sym called))
  after_resume-Received f r (done (some x), g) q same valid st =
      (st, (es, refl, ok, (read_account s e (expected f), e.on_done, s.handler, refl, refl, refl)))
  after_resume-Received f r (read, g) q same valid st =
      let (left, called) =
        charge_open k e.handle (expected f) (expected g) (live s.handler e.on_done) (accounts_of es)
          st.1 (expected-pos g st.0) in
      (
        e ∷ es,
        refl,
        (flying, rw q (st.0, st.2 ∙ same, valid), ok),
        (omega (arith, st.1), sym left, sym called),
      )
  after_resume-Received f r (out_of_range, g) q same valid st = st

  -- `q` and `n` are what the machine reads and expects.
  pub reading-Received :
      (q : Option ReadResponseFsm) (r : Option Request) (body : List ℕ)
      → e.req ≡ r
      → Reads q r
      → Received
          (expected_by q + owed_all es)
          (read_account s e (expected_by q) ∷ accounts_of es)
          k
          waiting
          (on_reading
            (record s { status = StreamStatus.reading; fsm = q })
            e
            (es ++ waiting)
            (record { kind = k; body = body }))
  unfolding on_reading
  reading-Received none r body h reads = elim reads [ ]
  reading-Received (some f) none body h reads = elim reads [ ]
  reading-Received (some f) (some r) body h (inv, same, valid) =
      after_resume-Received f r _ h same valid (resume-Stepped f _ inv)

decrement_lem : (n : ℕ) → 0 < n → n < 2 ^ 64 → decrement n ≡ n - 1
decrement_lem n pos fits = omega arith

-- The front element is ignored, and `n` messages of it are left.
module _ (s : StreamFsm) (n : ℕ) (e : MultiplexerElem) (es waiting : List MultiplexerElem)
    (gone : e.status ≡ ElemStatus.abandoned_in_flight) (pos : 0 < n) (fits : n < 2 ^ 64)
    (ok : All IsSent es) where
  ignored : StreamFsm
  ignored = record s { status = StreamStatus.ignoring; remaining_rfq = n }

  counted_down :
      (body : List ℕ) (b : Bool)
      → (decrement n == 0) ≡ b
      → Received
          (n + owed_all es)
          (ignored_account e n ∷ accounts_of es)
          Kind.ready_for_query
          waiting
          (on_ignoring ignored e
            (es ++ waiting)
            (record { kind = Kind.ready_for_query; body = body }))
  unfolding on_ignoring ignored
  counted_down body true z =
      let one : n ≡ 1 = omega (arith, (==_iff (decrement n) 0).0 z, decrement_lem n pos fits) in
      let (left, called) =
        charge_last Kind.ready_for_query e.handle n nobody (accounts_of es) one refl in
      rw z (es, refl, ok, (omega (arith, one), sym left, sym called))
  counted_down body false z =
      let left = decrement_lem n pos fits in
      let more = ne_of_== (decrement n) 0 z in
      let (rest, called) =
        charge_open Kind.ready_for_query e.handle n (decrement n) nobody (accounts_of es)
          (omega (arith, left)) (omega (arith, left, more)) in
      rw z (
        e ∷ es,
        refl,
        (gone, omega (arith, left, more), omega (arith, left), ok),
        (omega (arith, left), sym rest, sym called),
      )

  pub ignoring-Received :
      (k : Kind) (body : List ℕ)
      → Received (n + owed_all es) (ignored_account e n ∷ accounts_of es) k waiting (
          on_ignoring
            (record s { status = StreamStatus.ignoring; remaining_rfq = n })
            e
            (es ++ waiting)
            (record { kind = k; body = body }))
  unfolding on_ignoring ignored
  ignoring-Received Kind.ready_for_query body = counted_down body (decrement n == 0) refl
  ignoring-Received _ body = (e ∷ es, refl, (gone, pos, fits, ok), (omega arith, refl, refl))
