-- ===== src/Exec/Stream.antt =====
-- What exec_fsm stands for: messages cut from one stream of bytes and handed to read_response_fsm,
-- with no buffer and no reads in parts.
use nativepg.Prelude.{
  All-drop, ℕ, zero, suc, [], ◌∷◌, ◌+◌, ◌≤◌, ◌≡◌, refl, sym, ap, ◌∙◌, subst, List, ◌++◌, length,
  drop, drop-drop, some, All, arith,
}
use nativepg.Protocol.{ErrorCode}
use nativepg.ReadResponse.{ReadResponseFsm, Result, Outcome}
use nativepg.ReadResponse
use nativepg.Wire.{Endian, EndianLaws}
use nativepg.Parse.Messages.{as_backend}
use nativepg.Parse.Dispatch.{ParseMessageResult, failed, more, complete, parse_message}
use nativepg.Parse.Answers.{IsByte, Answered, parse_message-Answered}

-- How far the bytes carry: to the end with a code, to a message that is not complete, or out of
-- the request.
pub data End : Type 0 where
  ended : ErrorCode → End
  waiting : End
  left_request : End

-- One message: the machine stops, with the bytes that are left, or goes on with them.
pub data Step : Type 0 where
  stops : End → ReadResponseFsm → List ℕ → Step
  goes : ReadResponseFsm → List ℕ → Step

abbrev pub answer_step : Outcome → List ℕ → Step
answer_step (Result.done ec, g) rest = stops (ended ec) g rest
answer_step (Result.read, g) rest = goes g rest
answer_step (Result.out_of_range, g) rest = stops left_request g rest

abbrev pub parsed_step : ParseMessageResult → ReadResponseFsm → List ℕ → Step
parsed_step (failed e) f bytes = stops (ended (some e)) f bytes
parsed_step (more n) f bytes = stops waiting f bytes
parsed_step (complete msg n) f bytes =
    answer_step (ReadResponse.resume f (as_backend msg)) (drop n bytes)

stops_inj :
    {e e' : End} {h h' : ReadResponseFsm} {r r' : List ℕ}
    → stops e h r ≡ stops e' h' r'
    → (e ≡ e') × (h ≡ h') × (r ≡ r')
stops_inj p = (cc, cc, cc)

goes_inj :
    {g g' : ReadResponseFsm} {l l' : List ℕ}
    → goes g l ≡ goes g' l'
    → ◌≡◌ {A = ReadResponseFsm × List ℕ} (g, l) (g', l')
goes_inj p = cc

stops_ne_goes : {e : End} {h g : ReadResponseFsm} {r l : List ℕ} → ¬ (stops e h r ≡ goes g l)
stops_ne_goes p = cc

drop-append : (n : ℕ) (xs ys : List ℕ) → n ≤ length xs → drop n (xs ++ ys) ≡ drop n xs ++ ys
drop-append zero xs ys h = refl
drop-append (suc n) [] ys h = elim h [ ]
drop-append (suc n) (x ∷ xs) ys h = drop-append n xs ys (omega arith)

module _ (endian : Endian) where
  abbrev pub step : ReadResponseFsm → List ℕ → Step
  step f bytes = parsed_step (parse_message endian bytes) f bytes

  -- The machine over the bytes: how it stops, the machine that it is then, and the bytes left.
  pub data Streams (e : End) (h : ReadResponseFsm) (rest : List ℕ)
      : ReadResponseFsm → List ℕ → Type 0 where
    stop :
        (f : ReadResponseFsm) (bytes : List ℕ)
        → step f bytes ≡ stops e h rest
        → Streams e h rest f bytes
    next :
        (f g : ReadResponseFsm) (bytes left : List ℕ)
        → step f bytes ≡ goes g left
        → Streams e h rest g left
        → Streams e h rest f bytes

  -- There is one way to run over the same bytes.
  pub Streams-unique :
      {e e' : End} {h h' : ReadResponseFsm} {r r' : List ℕ} {f : ReadResponseFsm} {bytes : List ℕ}
      → Streams e h r f bytes
      → Streams e' h' r' f bytes
      → (e ≡ e') × (h ≡ h') × (r ≡ r')
  Streams-unique (stop f bytes p) (stop _ _ q) = stops_inj (sym p ∙ q)
  Streams-unique (stop f bytes p) (next _ g _ left q s) = absurd (stops_ne_goes (sym p ∙ q))
  Streams-unique (next f g bytes left p t) (stop _ _ q) = absurd (stops_ne_goes (sym q ∙ p))
  Streams-unique {e' = e'} {h' = h'} {r' = r'} (next f g bytes left p t) (next _ g' _ left' q s) =
      let same : ◌≡◌ {A = ReadResponseFsm × List ℕ} (g', left') (g, left) = goes_inj (sym q ∙ p) in
      Streams-unique t (subst (λ x. Streams e' h' r' x.0 x.1) same s)

-- A step that goes on has taken its message from the front.
abbrev pub Taken : Endian → ReadResponseFsm → List ℕ → List ℕ → ReadResponseFsm → List ℕ → Type 0
Taken endian f bytes ys g left =
    (step endian f (bytes ++ ys) ≡ goes g (left ++ ys)) × (n : ℕ) × (left ≡ drop n bytes)

answer_step-append :
    (o : Outcome) (front ys : List ℕ) {g : ReadResponseFsm} {left : List ℕ}
    → answer_step o front ≡ goes g left
    → (answer_step o (front ++ ys) ≡ goes g (left ++ ys)) × (left ≡ front)
answer_step-append (Result.done ec, g) front ys p = absurd (stops_ne_goes p)
answer_step-append (Result.read, g) front ys p =
    let same = goes_inj p in (ap (λ x. goes x.0 (x.1 ++ ys)) same, sym (ap (λ x. x.1) same))
answer_step-append (Result.out_of_range, g) front ys p = absurd (stops_ne_goes p)

parsed_step-append :
    (endian : Endian) (f : ReadResponseFsm) (bytes ys : List ℕ) (missing : ℕ)
    (r : ParseMessageResult) {g : ReadResponseFsm} {left : List ℕ}
    → Answered (parse_message endian) bytes missing r
    → parsed_step r f bytes ≡ goes g left
    → Taken endian f bytes ys g left
parsed_step-append endian f bytes ys m (failed e) a p = absurd (stops_ne_goes p)
parsed_step-append endian f bytes ys m (more n) a p = absurd (stops_ne_goes p)
parsed_step-append endian f bytes ys m (complete msg n) {g} {left} a p =
    let o = ReadResponse.resume f (as_backend msg) in
    let (stepped, taken) = answer_step-append o (drop n bytes) ys p in
    (
      ap (λ r. parsed_step r f (bytes ++ ys)) (a.3 ys)
          ∙ ap (answer_step o) (drop-append n bytes ys a.2)
          ∙ stepped,
      n,
      taken,
    )

-- What waits has taken nothing.
answered_waits :
    (o : Outcome) (front : List ℕ) {g : ReadResponseFsm} {rest : List ℕ}
    → ¬ (answer_step o front ≡ stops waiting g rest)
answered_waits (Result.done ec, h) front p = cc
answered_waits (Result.read, h) front p = cc
answered_waits (Result.out_of_range, h) front p = cc

waits_lem :
    (r : ParseMessageResult) (f : ReadResponseFsm) (bytes : List ℕ) {g : ReadResponseFsm}
    {rest : List ℕ}
    → parsed_step r f bytes ≡ stops waiting g rest
    → ◌≡◌ {A = ReadResponseFsm × List ℕ} (g, rest) (f, bytes)
waits_lem (failed e) f bytes p = cc
waits_lem (more n) f bytes p = cc
waits_lem (complete msg n) f bytes p = absurd (answered_waits _ (drop n bytes) p)

-- What waits for bytes goes on with them as if they had been there before.
pub Streams-append :
    (endian : Endian) (laws : EndianLaws endian) (ys : List ℕ) {g : ReadResponseFsm} {rest : List ℕ}
    {e : End} {h : ReadResponseFsm} {r : List ℕ} {f : ReadResponseFsm} {bytes : List ℕ}
    → All IsByte bytes
    → Streams endian waiting g rest f bytes
    → Streams endian e h r g (rest ++ ys)
    → Streams endian e h r f (bytes ++ ys)
Streams-append endian laws ys {e = e} {h = h} {r = r} ok (stop f bytes p) later =
    subst (λ x. Streams endian e h r x.0 (x.1 ++ ys))
      (waits_lem (parse_message endian bytes) f bytes p) later
Streams-append endian laws ys ok (next f g bytes left p t) later =
    let (stepped, n, taken) =
      parsed_step-append endian f bytes ys _ (parse_message endian bytes)
        (parse_message-Answered endian laws bytes ok) p in
    let ok' = subst (All IsByte) (sym taken) (All-drop IsByte n bytes ok) in
    next f g (bytes ++ ys) (left ++ ys) stepped (Streams-append endian laws ys ok' t later)

-- What is left waiting is the end of the bytes.
pub Streams-rest :
    (endian : Endian) (laws : EndianLaws endian) {g : ReadResponseFsm} {rest : List ℕ}
    {f : ReadResponseFsm} {bytes : List ℕ}
    → All IsByte bytes
    → Streams endian waiting g rest f bytes
    → (n : ℕ) × (rest ≡ drop n bytes)
Streams-rest endian laws ok (stop f bytes p) =
    (0, ap (λ x. x.1) (waits_lem (parse_message endian bytes) f bytes p))
Streams-rest endian laws ok (next f g bytes left p t) =
    let (stepped, n, taken) =
      parsed_step-append endian f bytes [] _ (parse_message endian bytes)
        (parse_message-Answered endian laws bytes ok) p in
    let ok' = subst (All IsByte) (sym taken) (All-drop IsByte n bytes ok) in
    let (m, left_over) = Streams-rest endian laws ok' t in
    (n + m, left_over ∙ ap (drop m) taken ∙ drop-drop m n bytes)
