-- ===== src/Multiplexer/OnMessage.antt =====
-- multiplexer::on_message: each message of the server is charged to the request that it answers.
use nativepg.Prelude.{
  ℕ, ◌+◌, ◌<◌, ◌≡◌, refl, sym, ◌∙◌, ap, false, List, [], ◌∷◌, ◌++◌, Option, none, some, inl, inr,
  All, arith, Bool-cases, ◌≢◌, append-nil, ◌>>=◌,
}
use nativepg.Protocol.{BackendMessage, Kind, ErrorCode}
use nativepg.ReadResponse.{is_async, start}
use nativepg.ReadResponse.Accounting.{rfqs_of, IsViolation}
use nativepg.ReadResponse.Conversation.{start-Inv, async_no_rfq}
use nativepg.Multiplexer.{
  Request, ElemStatus, MultiplexerElem, StreamStatus, StreamFsm, StreamResult, Multiplexer,
  drop_abandoned, on_first, stream_on_message, on_message, MuxResult,
}
use nativepg.Multiplexer.Accounts.{
  Account, live, account_as, accounts_of, accounts_as, accounts, accounts_lem, charge, closed,
}
use nativepg.Multiplexer.Invariant.{
  waiting_part, waiting_part_lem, MuxInv, StreamOk, IsSent, owed, owed_all, outstanding_as,
  outstanding, outstanding_lem, SentAs,
}
use nativepg.Multiplexer.Received.{Received, ReceivedAs, reading-Received, ignoring-Received}

-- The front element is looked at for the first time.
on_first-Received :
    (s : StreamFsm) (es waiting : List MultiplexerElem) (k : Kind) (body : List ℕ) (h : ℕ)
    (r : Option Request) (res on_done : Option ℕ) (st : ElemStatus) (n : ℕ)
    → st ≢ ElemStatus.abandoned_pending
    → SentAs st r n
    → All IsSent es
    → let e : MultiplexerElem = record {
      handle = h;
      req = r;
      res = res;
      on_done = on_done;
      status = st;
      num_rfq = n;
    } in
      Received
        (owed e + owed_all es)
        (account_as e.status e ++ accounts_of es)
        k
        waiting
        (on_first s e (es ++ waiting) (record { kind = k; body = body }))
unfolding on_first start
on_first-Received s es waiting k body h r res d ElemStatus.pending n alive sent ok = elim sent [ ]
on_first-Received s es waiting k body h r res d ElemStatus.abandoned_pending n alive sent ok =
    absurd (alive refl)
on_first-Received s es waiting k body h none res d ElemStatus.in_flight n alive sent ok =
    elim sent [ ]
on_first-Received s es waiting k body h (some r) res d ElemStatus.in_flight n alive sent ok =
    reading-Received (record s { handler = res }) _ es waiting k refl ok
      (some (start r.messages false)) (some r) body refl
      (start-Inv r.messages false sent.0, refl, sent)
on_first-Received s es waiting k body h r res d ElemStatus.abandoned_in_flight n alive sent ok =
    ignoring-Received s n _ es waiting refl sent.0 sent.1 ok k body

-- The first request that is not abandoned unwritten, where something is owed.
abbrev FirstLive : List MultiplexerElem → List MultiplexerElem → Type 0
FirstLive es waiting =
    (e : MultiplexerElem) × (rest : List MultiplexerElem) × (drop_abandoned (es ++ waiting)
      ≡ e ∷ (rest ++ waiting))
    × (e.status ≢ ElemStatus.abandoned_pending)
    × IsSent e
    × All IsSent rest
    × (owed_all es ≡ owed e + owed_all rest)
    × (accounts_of es ≡ account_as e.status e ++ accounts_of rest)

FirstLive-cons :
    (st : ElemStatus) (e : MultiplexerElem) (es waiting : List MultiplexerElem)
    → SentAs st e.req e.num_rfq
    → All IsSent es
    → 0 < owed (record e { status = st }) + owed_all es
    → (0 < owed_all es → FirstLive es waiting)
    → FirstLive (record e { status = st } ∷ es) waiting
unfolding drop_abandoned
FirstLive-cons ElemStatus.pending e es waiting sent ok pos more = elim sent [ ]
FirstLive-cons ElemStatus.in_flight e es waiting sent ok pos more =
    (record e { status = ElemStatus.in_flight }, es, refl, (λ q. cc), sent, ok, refl, refl)
FirstLive-cons ElemStatus.abandoned_in_flight e es waiting sent ok pos more = (
  record e { status = ElemStatus.abandoned_in_flight },
  es,
  refl,
  (λ q. cc),
  sent,
  ok,
  refl,
  refl,
)
FirstLive-cons ElemStatus.abandoned_pending e es waiting sent ok pos more =
    let (g, rest, q, alive, s, r, n, bill) = more (omega arith) in
    (g, rest, q, alive, s, r, omega (arith, n), bill)

first_live :
    (es waiting : List MultiplexerElem) → All IsSent es → 0 < owed_all es → FirstLive es waiting
first_live [] waiting ok pos = absurd (omega arith)
first_live (e ∷ es) waiting (s, ok) pos =
    FirstLive-cons e.status e es waiting s ok pos (first_live es waiting ok)

stream-Received :
    (st : StreamStatus) (s : StreamFsm) (es waiting : List MultiplexerElem) (k : Kind)
    (body : List ℕ)
    → StreamOk st s es
    → 0 < outstanding_as st s es
    → Received (outstanding_as st s es) (accounts_as st s es) k waiting (
        stream_on_message
          (record s { status = st })
          (es ++ waiting)
          (record { kind = k; body = body }))
unfolding stream_on_message
stream-Received StreamStatus.initial s es waiting k body ok pos =
    let (e, rest, q, alive, sent, r, n, bill) = first_live es waiting ok pos in
    rw (q, n, bill)
      (on_first-Received (record s { status = StreamStatus.initial }) rest waiting k body e.handle
        e.req e.res e.on_done e.status e.num_rfq alive sent r)
stream-Received StreamStatus.reading s [] waiting k body ok pos = elim ok [ ]
stream-Received StreamStatus.reading s (e ∷ es) waiting k body (flying, reads, ok) pos =
    reading-Received s e es waiting k flying ok s.fsm e.req body refl reads
stream-Received StreamStatus.ignoring s [] waiting k body ok pos = elim ok [ ]
stream-Received StreamStatus.ignoring s (e ∷ es) waiting k body (gone, more, fits, ok) pos =
    ignoring-Received s s.remaining_rfq e es waiting gone more fits ok k body

-- The state after a message.
abbrev pub AfterMessage : Multiplexer → Kind → Option MuxResult → Type 0
AfterMessage m k none = ⊥
AfterMessage m k (some (none, m')) =
    MuxInv m'
    × (waiting_part m' ≡ waiting_part m)
    × (outstanding m ≡ outstanding m' + rfqs_of k)
    × (accounts m' ≡ charge (rfqs_of k) (accounts m))
    × (m'.completions ≡ m.completions ++ closed (rfqs_of k) (accounts m))
AfterMessage m k (some (some e, m')) =
    IsViolation e
    × MuxInv m'
    × (waiting_part m' ≡ waiting_part m)
    × ((a : Account) × (on_done : Option ℕ) × (res : Option ℕ) × (accounts m ≡ a ∷ accounts m')
        × (a.caller ≡ live res on_done)
        × (m'.completions ≡ m.completions ++ ((on_done, some e) ∷ [])))

abbrev pub settled : Multiplexer → StreamResult → Multiplexer
settled m r = record m {
  stream = r.stream;
  elems = r.elems;
  completions = m.completions ++ r.completed;
}

-- The queue in order, its waiting part as it was, and what is owed.
settled_lem :
    (m : Multiplexer) (v : MuxInv m) (r : StreamResult) (sent : List MultiplexerElem)
    → r.elems ≡ sent ++ v.waiting
    → StreamOk r.stream.status r.stream sent
    → MuxInv (settled m r)
      × (waiting_part (settled m r) ≡ waiting_part m)
      × (outstanding (settled m r) ≡ outstanding_as r.stream.status r.stream sent)
      × (accounts (settled m r) ≡ accounts_as r.stream.status r.stream sent)
settled_lem m v r sent split ok =
    let w : MuxInv (settled m r) = record {
      sent = sent;
      waiting = v.waiting;
      split = split;
      counted = v.counted;
      stream_ok = ok;
      waiting_ok = v.waiting_ok;
    } in
    (w, waiting_part_lem w ∙ sym (waiting_part_lem v), outstanding_lem w, accounts_lem w)

settle :
    (m : Multiplexer) (v : MuxInv m) (k : Kind) (r : StreamResult) (ec : ErrorCode)
    → ReceivedAs ec (outstanding m) (accounts m) k v.waiting r
    → AfterMessage m k (some (ec, settled m r))
settle m v k r none (sent, split, ok, (n, bill, called)) =
    let (w, waits, owes, left) = settled_lem m v r sent split ok in
    (
      w,
      waits,
      n ∙ ap (λ x. x + rfqs_of k) (sym owes),
      left ∙ bill,
      ap (λ l. m.completions ++ l) called,
    )
settle m v k r (some e) (bad, (sent, split, ok, (a, on_done, res, bill, alive, called))) =
    let (w, waits, owes, left) = settled_lem m v r sent split ok in
    (
      bad,
      w,
      waits,
      (
        a,
        on_done,
        res,
        bill ∙ ap (λ l. a ∷ l) (sym left),
        alive,
        ap (λ l. m.completions ++ l) called,
      ),
    )

settle_result :
    (m : Multiplexer) (v : MuxInv m) (k : Kind) (o : Option StreamResult)
    → Received (outstanding m) (accounts m) k v.waiting o
    → AfterMessage m k (o >>= λ r. some (r.ec, settled m r))
settle_result m v k none h = h
settle_result m v k (some r) h = settle m v k r r.ec h

-- On a queue in order, while the server owes something: a message is charged to the oldest written
-- request that is not answered yet, abandoned or not, where it is ready_for_query, and changes no
-- account otherwise. When nothing more is owed for that request, it is taken off, and its callback,
-- if it was not abandoned, is called with success, once; no other callback is called. Or the code
-- that comes back is a violation of the protocol: the oldest request is one that was not abandoned,
-- it is taken off, and its callback alone is called with the code. Either way the queue stays in
-- order, and the other requests and those that wait are as they were.
pub on_message-AfterMessage :
    (m : Multiplexer) (msg : BackendMessage)
    → MuxInv m
    → 0 < outstanding m
    → AfterMessage m msg.kind (on_message m msg)
unfolding on_message
on_message-AfterMessage m msg v pos = elim (Bool-cases (is_async msg.kind)) [
  | inl a ↦ rw a (
      let z : rfqs_of msg.kind ≡ 0 = omega (arith, async_no_rfq msg.kind a) in
      (
        v,
        refl,
        omega (arith, z),
        ap (λ n. charge n (accounts m)) (sym z),
        sym (ap (λ n. m.completions ++ closed n (accounts m)) z ∙ append-nil m.completions),
      ))
  | inr a ↦ rw a (settle_result m v msg.kind _ received)
]
  where
    received :
        Received
          (outstanding m)
          (accounts m)
          msg.kind
          v.waiting
          (stream_on_message m.stream m.elems msg)
    received =
        let n = outstanding_lem v in
        let bill = accounts_lem v in
        rw (n, bill, v.split)
          (stream-Received m.stream.status m.stream v.sent v.waiting msg.kind msg.body v.stream_ok
            (rw n at pos))
