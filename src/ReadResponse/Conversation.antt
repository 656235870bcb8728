-- ===== src/ReadResponse/Conversation.antt =====
-- Whole answers: the messages of the server handed to read_response_fsm::resume one by one, as
-- exec_fsm and multiplexer do, until it is done.
use nativepg.Prelude.{
  ℕ, ◌+◌, ◌≡◌, refl, sym, ◌∙◌, ap, Bool, true, false, List, [], ◌∷◌, none, some, inl, inr, arith,
  Bool-cases, drop-suc, length,
}
use nativepg.Protocol.{
  RequestMessageType, bind, close, describe, execute, flush, parse, query, sync, BackendMessage,
  Kind,
}
use nativepg.CheckRequest.{check_batches, check_request, get_expected_rfqs}
use nativepg.ReadResponse.{
  ReadResponseFsm, done, read, out_of_range, Outcome, get_remaining_messages, next_message,
  dispatch, is_async, resume, start,
}
use nativepg.ReadResponse.Accounting.{
  Inv, Stepped, Fits-batch, Fits-first, rfqs_of, expected, IsViolation,
}
use nativepg.ReadResponse.Handlers.{
  handle_bind-Stepped, handle_close-Stepped, handle_describe-Stepped, handle_parse-Stepped,
  handle_sync-Stepped, handle_execute-Stepped, handle_query-Stepped,
}

-- Whether a batch is open after a message of a valid request.
abbrev open_after : RequestMessageType → Bool
open_after query = false
open_after sync = false
open_after _ = true

check_batches-tail :
    (b : Bool) (m : RequestMessageType) (ms : List RequestMessageType)
    → check_batches b (m ∷ ms) ≡ none
    → check_batches (open_after m) ms ≡ none
unfolding check_batches
check_batches-tail true query ms h = cc
check_batches-tail false query ms h = h
check_batches-tail true sync ms h = h
check_batches-tail false sync ms h = h
check_batches-tail true _ ms h = h
check_batches-tail false _ ms h = h

-- What is known of the messages behind the current one.
checked_after :
    (f : ReadResponseFsm) (m : RequestMessageType) {ms : List RequestMessageType}
    → get_remaining_messages f ≡ m ∷ ms
    → Inv f
    → check_batches (open_after m) ms ≡ none
checked_after f m {ms} here v = check_batches-tail v.in_batch m ms (rw here at v.checked)

-- Passing over a flush changes nothing that the outcome is measured by.
Stepped-flush :
    (f : ReadResponseFsm) (k : Kind) (o : Outcome)
    → expected f ≡ expected (next_message f)
    → Stepped (next_message f) k o
    → Stepped f k o
Stepped-flush f k (done none, g) e s = (e ∙ s.0, s.1, s.2, s.3)
Stepped-flush f k (done (some x), g) e s = s
Stepped-flush f k (read, g) e s = (s.0, e ∙ s.1, s.2)
Stepped-flush f k (out_of_range, g) e s = s

flush-Inv :
    (f : ReadResponseFsm) {ms : List RequestMessageType}
    → get_remaining_messages f ≡ flush ∷ ms
    → Inv f
    → Inv (next_message f)
flush-Inv f {ms} here v =
    let rest = drop-suc f.current f.req here in
    let h = checked_after f flush here v in
    record {
      in_batch = true;
      checked = rw rest h;
      fits = rw (rest, rw here at v.fits) (Fits-batch ms h);
    }

flush_expects_nothing :
    (f : ReadResponseFsm) {ms : List RequestMessageType}
    → get_remaining_messages f ≡ flush ∷ ms
    → expected f ≡ expected (next_message f)
unfolding get_expected_rfqs
flush_expects_nothing f here =
    ap get_expected_rfqs here ∙ sym (ap get_expected_rfqs (drop-suc f.current f.req here))

dispatch-Stepped :
    (ms : List RequestMessageType) (k : Kind) (body : List ℕ) (f : ReadResponseFsm)
    → get_remaining_messages f ≡ ms
    → Inv f
    → Stepped f k (dispatch ms (record { kind = k; body = body }) f)
unfolding dispatch
dispatch-Stepped [] k body f here v = elim (rw here at v.fits) [ ]
dispatch-Stepped (bind ∷ ms) k body f here v =
    handle_bind-Stepped f ms (checked_after f bind here v) (rw here at v.fits) k body here
dispatch-Stepped (close ∷ ms) k body f here v =
    handle_close-Stepped f ms (checked_after f close here v) (rw here at v.fits) k body here
dispatch-Stepped (describe ∷ ms) k body f here v =
    handle_describe-Stepped f ms (checked_after f describe here v) (rw here at v.fits) k body here
dispatch-Stepped (execute ∷ ms) k body f here v =
    handle_execute-Stepped f.state k body f ms (checked_after f execute here v) here v
dispatch-Stepped (flush ∷ ms) k body f here v =
    let rest = drop-suc f.current f.req here in
    Stepped-flush f k _ (flush_expects_nothing f here)
      (dispatch-Stepped ms k body (next_message f) rest (flush-Inv f here v))
dispatch-Stepped (parse ∷ ms) k body f here v =
    handle_parse-Stepped f ms (checked_after f parse here v) (rw here at v.fits) k body here
dispatch-Stepped (query ∷ ms) k body f here v =
    handle_query-Stepped f.state k body f ms (checked_after f query here v) here v
dispatch-Stepped (sync ∷ ms) k body f here v =
    handle_sync-Stepped f ms k body (checked_after f sync here v) (rw here at v.fits) here

pub async_no_rfq : (k : Kind) → is_async k ≡ true → rfqs_of k ≡ 0
unfolding is_async
async_no_rfq Kind.ready_for_query e = cc
async_no_rfq _ e = refl

-- One message, handed to a machine in order: the machine never reads behind the request and never
-- misses the sync that ends a failed batch. It goes on in order, and what it still expects falls
-- by one exactly with ready_for_query; or it is done, with the last ready_for_query expected and
-- the whole request passed; or the message is a violation of the protocol.
pub resume-Stepped :
    (f : ReadResponseFsm) (msg : BackendMessage) → Inv f → Stepped f msg.kind (resume f msg)
unfolding resume
resume-Stepped f msg v = elim (Bool-cases (is_async msg.kind)) [
  | inl e ↦ rw e (v, omega (arith, async_no_rfq msg.kind e), refl)
  | inr e ↦ rw e (dispatch-Stepped (get_remaining_messages f) msg.kind msg.body f refl v)
]

pub start-Inv :
    (req : List RequestMessageType) (allow_copy : Bool)
    → check_request req ≡ none
    → Inv (start req allow_copy)
unfolding start check_request
start-Inv [] a h = cc
start-Inv (m ∷ ms) a h = record { in_batch = false; checked = h; fits = Fits-first m ms }

-- The messages of the server, until the machine is done; with what is left of them.
abbrev pub Fed : Type 0
Fed = Outcome × List BackendMessage

feed_next : (ReadResponseFsm → Fed) → List BackendMessage → Outcome → Fed
feed_next more ms (read, f) = more f
feed_next more ms (r, f) = ((r, f), ms)

unfoldable pub feed : List BackendMessage → ReadResponseFsm → Fed
unfolding feed_next
feed [] f = ((read, f), [])
feed (m ∷ ms) f = feed_next (feed ms) ms (resume f m)

unfoldable pub rfqs : List BackendMessage → ℕ
rfqs [] = 0
rfqs (m ∷ ms) = rfqs_of m.kind + rfqs ms

abbrev pub Balanced : ReadResponseFsm → List BackendMessage → Fed → Type 0
Balanced f ms ((done none, g), rest) =
    (rfqs ms ≡ expected f + rfqs rest) × (g.current ≡ length g.req) × (g.req ≡ f.req)
Balanced f ms ((done (some e), g), rest) = IsViolation e
Balanced f ms ((read, g), rest) = Inv g × (rest ≡ []) × (rfqs ms + expected g ≡ expected f)
Balanced f ms ((out_of_range, g), rest) = ⊥

-- One message put in front of a balanced rest.
Balanced-cons :
    (m : BackendMessage) (ms : List BackendMessage) (f g : ReadResponseFsm) (r : Fed)
    → expected f ≡ expected g + rfqs_of m.kind
    → g.req ≡ f.req
    → Balanced g ms r
    → Balanced f (m ∷ ms) r
unfolding rfqs
Balanced-cons m ms f g ((done none, h), rest) e s b = (omega arith, b.1, b.2 ∙ s)
Balanced-cons m ms f g ((done (some x), h), rest) e s b = b
Balanced-cons m ms f g ((read, h), rest) e s b = (b.0, b.1, omega arith)
Balanced-cons m ms f g ((out_of_range, h), rest) e s b = b

feed_next-Balanced :
    (m : BackendMessage) (ms : List BackendMessage) (f : ReadResponseFsm) (o : Outcome)
    → Stepped f m.kind o
    → ((g : ReadResponseFsm) → Inv g → Balanced g ms (feed ms g))
    → Balanced f (m ∷ ms) (feed_next (feed ms) ms o)
unfolding feed rfqs
feed_next-Balanced m ms f (read, g) s more = Balanced-cons m ms f g _ s.1 s.2 (more g s.0)
feed_next-Balanced m ms f (done none, g) s more = (omega arith, s.2, s.3)
feed_next-Balanced m ms f (done (some e), g) s more = s
feed_next-Balanced m ms f (out_of_range, g) s more = s

feed-Balanced : (ms : List BackendMessage) (f : ReadResponseFsm) → Inv f → Balanced f ms (feed ms f)
unfolding feed
feed-Balanced [] f v = unfold rfqs in (v, refl, omega arith)
feed-Balanced (m ∷ ms) f v =
    feed_next-Balanced m ms f (resume f m) (resume-Stepped f m v) (λ g w. feed-Balanced ms g w)

-- A whole answer, to a request that check_request accepts and from its first message on. If the
-- machine ends well, the messages that it has taken hold exactly the expected number of
-- ready_for_query, and it stands behind the last message of the request; while it reads, the
-- number taken and the number still expected make up that number; and else the server has
-- violated the protocol.
pub feed-start-Balanced :
    (req : List RequestMessageType) (allow_copy : Bool) (ms : List BackendMessage)
    → check_request req ≡ none
    → Balanced (start req allow_copy) ms (feed ms (start req allow_copy))
feed-start-Balanced req a ms h = feed-Balanced ms (start req a) (start-Inv req a h)
