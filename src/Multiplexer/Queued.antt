-- ===== src/Multiplexer/Queued.antt =====
-- cancel_elem and cancel_in of multiplexer: one request of the queue is abandoned, and what the
-- others and it owe stays.
use nativepg.Prelude.{
  ℕ, ◌≡◌, refl, Bool, false, List, [], ◌∷◌, ◌++◌, Option, none, some, ◌⊎◌, inl, inr, All, arith,
  Bool-cases, ◌==◌, ==_iff, ne_of_==, length,
}
use nativepg.CheckRequest.{get_expected_rfqs}
use nativepg.CheckRequest.Batches.{request_expects, get_expected_rfqs-le-length}
use nativepg.Multiplexer.{Request, ElemStatus, MultiplexerElem, forget, cancel_elem, cancel_in}
use nativepg.Multiplexer.Invariant.{IsSent, IsWaiting, SentAs, WaitingAs, owed_as, owed_all}

-- The pointer that was handed out is still that of an element.
abbrev pub Has : ℕ → List MultiplexerElem → Type 0
Has h [] = ⊥
Has h (e ∷ es) = (e.handle ≡ h) ⊎ Has h es

-- The element of that address calls nobody.
abbrev pub IsSilent : ℕ → List MultiplexerElem → Type 0
IsSilent h [] = ⊥
IsSilent h (e ∷ es) =
    ((e.handle ≡ h) × (e.on_done ≡ none) × (e.res ≡ none)) ⊎ (((e.handle ≡ h) → ⊥) × IsSilent h es)

-- One element that has been written: what it owes stays.
cancel_elem-sent :
    (st : ElemStatus) (r : Option Request) (e : MultiplexerElem)
    → SentAs st r e.num_rfq
    → (n : ℕ) × (t : ElemStatus) × (cancel_elem false (record e { status = st; req = r })
        ≡ some (forget (record e { status = t; num_rfq = n })))
      × SentAs t none n
      × (owed_as t none n ≡ owed_as st r e.num_rfq)
unfolding cancel_elem
cancel_elem-sent ElemStatus.pending r e s = elim s [ ]
cancel_elem-sent ElemStatus.in_flight none e s = elim s [ ]
cancel_elem-sent ElemStatus.in_flight (some r) e (valid, fits) = (
  get_expected_rfqs r.messages,
  ElemStatus.abandoned_in_flight,
  refl,
  (request_expects r.messages valid, omega (arith, get_expected_rfqs-le-length r.messages)),
  refl,
)
cancel_elem-sent ElemStatus.abandoned_pending r e s =
    (e.num_rfq, ElemStatus.abandoned_pending, refl, tt, refl)
cancel_elem-sent ElemStatus.abandoned_in_flight r e s =
    (e.num_rfq, ElemStatus.abandoned_in_flight, refl, s, refl)

-- One element that waits.
cancel_elem-waiting :
    (st : ElemStatus) (r : Option Request) (e : MultiplexerElem)
    → WaitingAs st r
    → cancel_elem false (record e { status = st; req = r })
      ≡ some (forget (record e { status = ElemStatus.abandoned_pending }))
unfolding cancel_elem
cancel_elem-waiting ElemStatus.pending r e s = refl
cancel_elem-waiting ElemStatus.in_flight r e s = elim s [ ]
cancel_elem-waiting ElemStatus.abandoned_pending r e s = refl
cancel_elem-waiting ElemStatus.abandoned_in_flight r e s = elim s [ ]

-- What cancel_in leaves of the two parts of the queue.
abbrev Canceled : ℕ → List MultiplexerElem → List MultiplexerElem → Type 0
Canceled h sent waiting =
    (sent' : List MultiplexerElem) × (waiting' : List MultiplexerElem) × (cancel_in false h
        (sent ++ waiting)
      ≡ some (sent' ++ waiting'))
    × All IsSent sent'
    × All IsWaiting waiting'
    × (length waiting' ≡ length waiting)
    × (owed_all sent' ≡ owed_all sent)
    × IsSilent h (sent' ++ waiting')

pub cancel_here :
    (h : ℕ) (e e' : MultiplexerElem) (es : List MultiplexerElem)
    → e.handle ≡ h
    → cancel_elem false e ≡ some e'
    → cancel_in false h (e ∷ es) ≡ some (e' ∷ es)
unfolding cancel_in
cancel_here h e e' es q c = rw ((==_iff e.handle h).1 q, c)

pub cancel_later :
    (b : Bool) (h : ℕ) (e : MultiplexerElem) (es es' : List MultiplexerElem)
    → (e.handle ≡ h → ⊥)
    → cancel_in false h es ≡ some es'
    → cancel_in b h (e ∷ es) ≡ some (e ∷ es')
unfolding cancel_in
cancel_later b h e es es' q c = elim (Bool-cases (e.handle == h)) [
  | inl y ↦ absurd (q ((==_iff e.handle h).0 y))
  | inr n ↦ rw (n, c)
]

pub Has-tail :
    (h : ℕ) (e : MultiplexerElem) (es : List MultiplexerElem)
    → (e.handle ≡ h → ⊥)
    → Has h (e ∷ es)
    → Has h es
Has-tail h e es q (inl y) = absurd (q y)
Has-tail h e es q (inr r) = r

pub handle_cases : (a b : ℕ) → (a ≡ b) ⊎ (a ≡ b → ⊥)
handle_cases a b = elim (Bool-cases (a == b)) [
  | inl y ↦ inl ((==_iff a b).0 y)
  | inr n ↦ inr (ne_of_== a b n)
]

cancel_in-IsWaiting :
    (h : ℕ) (ws : List MultiplexerElem)
    → All IsWaiting ws
    → Has h ws
    → (ws' : List MultiplexerElem) × (cancel_in false h ws ≡ some ws')
      × All IsWaiting ws'
      × (length ws' ≡ length ws)
      × IsSilent h ws'
cancel_in-IsWaiting h [] ok has = elim has [ ]
cancel_in-IsWaiting h (e ∷ ws) (w, ok) has = elim (handle_cases e.handle h) [
  | inl q ↦
      let e' : MultiplexerElem = forget (record e { status = ElemStatus.abandoned_pending }) in
      (
        e' ∷ ws,
        cancel_here h e e' ws q (cancel_elem-waiting e.status e.req e w),
        (tt, ok),
        refl,
        inl (q, refl, refl),
      )
  | inr n ↦
      let (ws', c, o, l, silent) = cancel_in-IsWaiting h ws ok (Has-tail h e ws n has) in
      (e ∷ ws', cancel_later false h e ws ws' n c, (w, o), omega (arith, l), inr (n, silent))
]

pub cancel_in-Canceled :
    (h : ℕ) (es ws : List MultiplexerElem)
    → All IsSent es
    → All IsWaiting ws
    → Has h (es ++ ws)
    → Canceled h es ws
cancel_in-Canceled h [] ws s w has =
    let (ws', c, o, l, silent) = cancel_in-IsWaiting h ws w has in
    ([], ws', c, tt, o, l, refl, silent)
cancel_in-Canceled h (e ∷ es) ws (s, ss) w has = elim (handle_cases e.handle h) [
  | inl q ↦
      let (n, t, c, sent, same) = cancel_elem-sent e.status e.req e s in
      let e' : MultiplexerElem = forget (record e { status = t; num_rfq = n }) in
      (
        e' ∷ es,
        ws,
        cancel_here h e e' (es ++ ws) q c,
        (sent, ss),
        w,
        refl,
        omega (arith, same),
        inl (q, refl, refl),
      )
  | inr n ↦
      let (es', ws', c, so, wo, l, same, silent) =
        cancel_in-Canceled h es ws ss w (Has-tail h e (es ++ ws) n has) in
      (
        e ∷ es',
        ws',
        cancel_later false h e (es ++ ws) (es' ++ ws') n c,
        (s, so),
        wo,
        l,
        omega (arith, same),
        inr (n, silent),
      )
]
