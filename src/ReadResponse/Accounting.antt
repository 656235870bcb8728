-- ===== src/ReadResponse/Accounting.antt =====
-- The machine against the count of ready_for_query messages: what one message does to a valid
-- request, on every branch of read_response_fsm.cpp.
use nativepg.Prelude.{
  ℕ, suc, ◌+◌, ◌≡◌, refl, sym, ◌∙◌, ap, Bool, true, false, List, [], ◌∷◌, none, some, ◌⊎◌, le→leb,
  lt→leb, length, drop-suc, length-drop, arith,
}
use nativepg.Protocol.{
  client, RequestMessageType, bind, execute, flush, query, sync, BackendMessage, Kind,
  HandlerMessage, unexpected_message, copy_not_allowed, Error,
}
use nativepg.CheckRequest.{check_batches, get_expected_rfqs}
use nativepg.ReadResponse.{
  State, ReadResponseFsm, done, read, out_of_range, Outcome, get_remaining_messages, call_handler,
  set_state, skip_to_sync, handle_error, advance, next_message,
}

-- 1 for ready_for_query.
abbrev pub rfqs_of : Kind → ℕ
rfqs_of Kind.ready_for_query = 1
rfqs_of _ = 0

abbrev pub expected : ReadResponseFsm → ℕ
expected f = get_expected_rfqs (get_remaining_messages f)

abbrev pub IsQueryState : State → Type 0
IsQueryState State.exec_copy_out = ⊥
IsQueryState State.exec_copy_out_needs_command_complete = ⊥
IsQueryState _ = Unit {0}

abbrev pub IsExecuteState : State → Type 0
IsExecuteState State.msg_first = Unit {0}
IsExecuteState State.exec_copy_out = Unit {0}
IsExecuteState State.exec_copy_out_needs_command_complete = Unit {0}
IsExecuteState _ = ⊥

-- The states that the message in turn may be in; there is one.
abbrev pub Fits : List RequestMessageType → State → Type 0
Fits [] s = ⊥
Fits (query ∷ ms) s = IsQueryState s
Fits (execute ∷ ms) s = IsExecuteState s
Fits (_ ∷ ms) s = s ≡ State.msg_first

-- The messages from the current one on are units, the first perhaps cut, and the state fits.
pub record Inv (f : ReadResponseFsm) : Type 0 where
  pub in_batch : Bool
  pub checked : check_batches in_batch (get_remaining_messages f) ≡ none
  pub fits : Fits (get_remaining_messages f) f.state

-- The two ways in which a message of the server ends everything.
abbrev pub IsViolation : Error → Type 0
IsViolation e = (e ≡ client unexpected_message) ⊎ (e ≡ client copy_not_allowed)

abbrev pub Stepped : ReadResponseFsm → Kind → Outcome → Type 0
Stepped f k (done none, g) =
    (expected f ≡ 1) × (rfqs_of k ≡ 1) × (g.current ≡ length g.req) × (g.req ≡ f.req)
Stepped f k (done (some e), g) = IsViolation e
Stepped f k (read, g) = Inv g × (expected f ≡ expected g + rfqs_of k) × (g.req ≡ f.req)
Stepped f k (out_of_range, g) = ⊥

-- Any message that is there may be in its first state.
pub Fits-first :
    (m : RequestMessageType) (ms : List RequestMessageType) → Fits (m ∷ ms) State.msg_first
Fits-first bind ms = refl
Fits-first execute ms = tt
Fits-first query ms = tt
Fits-first _ ms = refl

-- Within a batch something is left, and the machine may start on it.
pub Fits-batch :
    (ms : List RequestMessageType) → check_batches true ms ≡ none → Fits ms State.msg_first
unfolding check_batches
Fits-batch [] h = cc
Fits-batch (m ∷ ms) h = Fits-first m ms

length-remaining :
    (f : ReadResponseFsm) {m : RequestMessageType} {ms : List RequestMessageType}
    → get_remaining_messages f ≡ m ∷ ms
    → length f.req ≡ suc (f.current + length ms)
length-remaining f e = omega (arith, ap length e, length-drop f.current f.req)

-- What skip_to_sync does within a batch.
abbrev Skipped : ReadResponseFsm → ℕ → Outcome → Type 0
Skipped f n (done e, g) = ⊥
Skipped f n (read, g) = Inv g × (n ≡ expected g) × (g.req ≡ f.req)
Skipped f n (out_of_range, g) = ⊥

skip_to_sync-Skipped :
    (ms : List RequestMessageType) (f : ReadResponseFsm)
    → get_remaining_messages f ≡ ms
    → f.state ≡ State.msg_first
    → check_batches true ms ≡ none
    → Skipped f (get_expected_rfqs ms) (skip_to_sync ms f)
unfolding skip_to_sync check_batches get_expected_rfqs
skip_to_sync-Skipped [] f here first h = cc
skip_to_sync-Skipped (query ∷ ms) f here first h = cc
skip_to_sync-Skipped (sync ∷ ms) f here first h =
    (record { in_batch = true; checked = rw here h; fits = rw here first }, rw here refl, refl)
skip_to_sync-Skipped (flush ∷ ms) f here first h =
    skip_to_sync-Skipped ms (next_message f) (drop-suc f.current f.req here) first h
skip_to_sync-Skipped (_ ∷ ms) f here first h =
    skip_to_sync-Skipped ms (next_message (call_handler HandlerMessage.message_skipped f))
      (drop-suc f.current f.req here) first h

Stepped-of_Skipped :
    (f g : ReadResponseFsm) (n : ℕ) (o : Outcome)
    → Skipped g n o
    → expected f ≡ n
    → g.req ≡ f.req
    → Stepped f Kind.error_response o
Stepped-of_Skipped f g n (done e, g') s h r = elim s [ ]
Stepped-of_Skipped f g n (read, g') (i, e, r') h r = (i, omega arith, r' ∙ r)
Stepped-of_Skipped f g n (out_of_range, g') s h r = elim s [ ]

-- An error in a batch ends at the sync of the batch.
pub handle_error-Stepped :
    (msg : BackendMessage) (f : ReadResponseFsm) {m : RequestMessageType}
    {ms : List RequestMessageType}
    → get_remaining_messages f ≡ m ∷ ms
    → get_expected_rfqs (m ∷ ms) ≡ get_expected_rfqs ms
    → check_batches true ms ≡ none
    → Stepped f Kind.error_response (handle_error msg f)
unfolding handle_error
handle_error-Stepped msg f {m} {ms} here same h =
    let rest = drop-suc f.current f.req here in
    let g =
      set_state State.msg_first
        (next_message (call_handler (HandlerMessage.error_response msg.body) f)) in
    Stepped-of_Skipped f g (get_expected_rfqs (get_remaining_messages g)) _
      (skip_to_sync-Skipped (get_remaining_messages g) g refl refl (rw rest h))
      (ap get_expected_rfqs here ∙ same ∙ sym (ap get_expected_rfqs rest)) refl

-- A message of the request is over. Only ready_for_query ends a unit.
pub advance-Stepped :
    (b : Bool) (k : Kind) (f : ReadResponseFsm) {m : RequestMessageType}
    (ms : List RequestMessageType)
    → get_remaining_messages f ≡ m ∷ ms
    → f.state ≡ State.msg_first
    → check_batches b ms ≡ none
    → get_expected_rfqs (m ∷ ms) ≡ get_expected_rfqs ms + rfqs_of k
    → (b ≡ false → rfqs_of k ≡ 1)
    → Stepped f k (advance f)
unfolding advance check_batches get_expected_rfqs
advance-Stepped true k f [] here first h n one = cc
advance-Stepped false k f [] here first h n one =
    rw (le→leb (length f.req) (suc f.current) (omega (arith, length-remaining f here))) (
      omega (arith, ap get_expected_rfqs here, n, one refl),
      one refl,
      omega (arith, length-remaining f here),
      refl,
    )
advance-Stepped b k f (x ∷ xs) here first h n one =
    let rest = drop-suc f.current f.req here in
    rw (lt→leb (length f.req) (suc f.current) (omega (arith, length-remaining f here))) (
      record { in_batch = b; checked = rw rest h; fits = rw (rest, first) (Fits-first x xs) },
      ap get_expected_rfqs here ∙ n ∙ ap (λ l. get_expected_rfqs l + rfqs_of k) (sym rest),
      refl,
    )

-- A message that leaves the machine on the same message of the request.
pub stay-Stepped :
    (k : Kind) (f g : ReadResponseFsm)
    → Inv f
    → get_remaining_messages g ≡ get_remaining_messages f
    → g.req ≡ f.req
    → Fits (get_remaining_messages f) g.state
    → rfqs_of k ≡ 0
    → Stepped f k (read, g)
stay-Stepped k f g v same r s z = (
  record { in_batch = v.in_batch; checked = rw same v.checked; fits = rw same s },
  omega (arith, z, ap get_expected_rfqs same),
  r,
)
