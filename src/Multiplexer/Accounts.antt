-- ===== src/Multiplexer/Accounts.antt =====
-- multiplexer.hpp: whom the server owes ready_for_query messages, request by request.
use nativepg.Prelude.{
  ℕ, zero, suc, ◌+◌, ◌-◌, ◌<◌, ◌≡◌, refl, List, [], ◌∷◌, ◌++◌, Option, none, ◌⊎◌, inl, inr,
  if◌then◌else◌, ◌==◌, false, ap, arith,
}
use nativepg.Protocol.{Kind, ErrorCode}
use nativepg.ReadResponse.Accounting.{rfqs_of}
use nativepg.Multiplexer.{
  ElemStatus, MultiplexerElem, StreamStatus, StreamFsm, Multiplexer, Completion,
}
use nativepg.Multiplexer.Invariant.{rfqs_of_request, expected_by, sent_part, sent_part_lem, MuxInv}

-- Who is told of an answer: the handler of its messages, and the callback for its end.
pub data Caller : Type 0 where
  live : Option ℕ → Option ℕ → Caller
  nobody : Caller

-- One written request: its element, its caller, and the ready_for_query messages to come.
pub record Account : Type 0 where
  pub handle : ℕ
  pub caller : Caller
  pub owed : ℕ

abbrev pub account_as : ElemStatus → MultiplexerElem → List Account
account_as ElemStatus.in_flight e =
    record { handle = e.handle; caller = live e.res e.on_done; owed = rfqs_of_request e.req } ∷ []
account_as ElemStatus.abandoned_in_flight e =
    record { handle = e.handle; caller = nobody; owed = e.num_rfq } ∷ []
account_as _ e = []

abbrev pub accounts_of : List MultiplexerElem → List Account
accounts_of [] = []
accounts_of (e ∷ es) = account_as e.status e ++ accounts_of es

-- The request at the front may be answered in part.
abbrev pub accounts_as : StreamStatus → StreamFsm → List MultiplexerElem → List Account
accounts_as StreamStatus.initial s es = accounts_of es
accounts_as StreamStatus.reading s [] = []
accounts_as StreamStatus.reading s (e ∷ es) =
    record { handle = e.handle; caller = live s.handler e.on_done; owed = expected_by s.fsm }
    ∷ accounts_of es
accounts_as StreamStatus.ignoring s [] = []
accounts_as StreamStatus.ignoring s (e ∷ es) =
    record { handle = e.handle; caller = nobody; owed = s.remaining_rfq } ∷ accounts_of es

abbrev pub accounts : Multiplexer → List Account
accounts m = accounts_as m.stream.status m.stream (sent_part m)

pub accounts_lem :
    {m : Multiplexer} (v : MuxInv m) → accounts m ≡ accounts_as m.stream.status m.stream v.sent
accounts_lem {m} v = ap (accounts_as m.stream.status m.stream) (sent_part_lem v)

abbrev pub told : ErrorCode → Caller → List Completion
told ec (live res on_done) = (on_done, ec) ∷ []
told ec nobody = []

-- What so many ready_for_query messages, one at most, leave of the accounts: the first is charged,
-- and it is closed when nothing more is owed.
abbrev pub charge : ℕ → List Account → List Account
charge zero rest = rest
charge (suc n) [] = []
charge (suc n) (a ∷ rest) = if a.owed == 1 then rest else record a { owed = a.owed - 1 } ∷ rest

-- The calls of on_done: that of the account that is closed.
abbrev pub closed : ℕ → List Account → List Completion
closed zero rest = []
closed (suc n) [] = []
closed (suc n) (a ∷ rest) = if a.owed == 1 then told none a.caller else []

rfqs_of-cases : (k : Kind) → (rfqs_of k ≡ 0) ⊎ (rfqs_of k ≡ 1)
rfqs_of-cases Kind.ready_for_query = inr refl
rfqs_of-cases _ = inl refl

more_owed : (y : ℕ) → 0 < y → (y + 1 == 1) ≡ false
more_owed y h = ground arith

-- Something more is owed behind the message.
pub charge_open :
    (k : Kind) (h x y : ℕ) (c : Caller) (rest : List Account)
    → x ≡ y + rfqs_of k
    → 0 < y
    → let a : Account = record { handle = h; caller = c; owed = x } in
      (charge (rfqs_of k) (a ∷ rest) ≡ record { handle = h; caller = c; owed = y } ∷ rest)
      × (closed (rfqs_of k) (a ∷ rest) ≡ [])
charge_open k h x y c rest e pos = elim (rfqs_of-cases k) [
  | inl z ↦ rw (z, e, z) (ap owing (omega arith), refl)
  | inr o ↦ rw (o, e, o) (rw (more_owed y pos) (ap owing (omega arith), refl))
]
  where
    owing : ℕ → List Account
    owing n = record { handle = h; caller = c; owed = n } ∷ rest

-- Nothing more is owed.
pub charge_last :
    (k : Kind) (h x : ℕ) (c : Caller) (rest : List Account)
    → x ≡ 1
    → rfqs_of k ≡ 1
    → let a : Account = record { handle = h; caller = c; owed = x } in
      (charge (rfqs_of k) (a ∷ rest) ≡ rest) × (closed (rfqs_of k) (a ∷ rest) ≡ told none c)
charge_last k h x c rest e o = rw (o, e) (refl, refl)
