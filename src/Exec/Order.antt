-- ===== src/Exec/Order.antt =====
-- The machine that exec_fsm drives stays in order over a whole stream (src/exec_fsm.cpp over
-- src/read_response_fsm.cpp).
use nativepg.Prelude.{
  ℕ, ◌≡◌, refl, ◌∙◌, subst, List, drop, length, none, some, Option-cases, inl, inr, arith,
}
use nativepg.Protocol.{Error, BackendMessage, RequestMessageType}
use nativepg.CheckRequest.{SetupResult, check_request, setup_request}
use nativepg.ReadResponse.{ReadResponseFsm, Result, Outcome}
use nativepg.ReadResponse.Accounting.{Inv, Stepped}
use nativepg.ReadResponse.Conversation.{resume-Stepped}
use nativepg.Wire.{Endian}
use nativepg.Parse.Messages.{as_backend}
use nativepg.Parse.Dispatch.{ParseMessageResult, failed, more, complete, parse_message}
use nativepg.Exec.Stream.{
  End, ended, waiting, left_request, Step, stops, goes, parsed_step, answer_step, Streams, stop,
  next,
}

-- How a machine in order stops: with success behind the whole request, or waiting, in order still;
-- and never outside the request.
abbrev pub Sound : ReadResponseFsm → End → ReadResponseFsm → Type 0
Sound f (ended none) h = (h.current ≡ length h.req) × (h.req ≡ f.req)
Sound f (ended (some e)) h = Unit {0}
Sound f waiting h = Inv h × (h.req ≡ f.req)
Sound f left_request h = ⊥

abbrev SoundStep : ReadResponseFsm → Step → Type 0
SoundStep f (stops e h rest) = Sound f e h
SoundStep f (goes g left) = Inv g × (g.req ≡ f.req)

answered_sound :
    (f : ReadResponseFsm) (m : BackendMessage) (o : Outcome) (left : List ℕ)
    → Stepped f m.kind o
    → SoundStep f (answer_step o left)
answered_sound f m (Result.done none, g) left s = (s.2, s.3)
answered_sound f m (Result.done (some e), g) left s = tt
answered_sound f m (Result.read, g) left s = (s.0, s.2)
answered_sound f m (Result.out_of_range, g) left s = s

step_sound :
    (r : ParseMessageResult) (f : ReadResponseFsm) (bytes : List ℕ)
    → Inv f
    → SoundStep f (parsed_step r f bytes)
step_sound (failed e) f bytes v = tt
step_sound (more n) f bytes v = (v, refl)
step_sound (complete msg n) f bytes v =
    answered_sound f (as_backend msg) _ (drop n bytes) (resume-Stepped f (as_backend msg) v)

Sound-req : (f g h : ReadResponseFsm) (e : End) → g.req ≡ f.req → Sound g e h → Sound f e h
Sound-req f g h (ended none) p s = (s.0, s.1 ∙ p)
Sound-req f g h (ended (some e)) p s = tt
Sound-req f g h waiting p s = (s.0, s.1 ∙ p)
Sound-req f g h left_request p s = s

pub Streams-Sound :
    (endian : Endian) {e : End} {h : ReadResponseFsm} {rest : List ℕ} {f : ReadResponseFsm}
    {bytes : List ℕ}
    → Inv f
    → Streams endian e h rest f bytes
    → Sound f e h
Streams-Sound endian v (stop f bytes p) =
    subst (SoundStep f) p (step_sound (parse_message endian bytes) f bytes v)
Streams-Sound endian {e = e} {h = h} v (next f g bytes left p t) =
    let (v', same) = subst (SoundStep f) p (step_sound (parse_message endian bytes) f bytes v) in
    Sound-req f g h e same (Streams-Sound endian v' t)

-- A request that is set up has been checked.
pub setup_request-checked :
    (setup : List RequestMessageType → SetupResult) (req : List RequestMessageType)
    → setup_request setup req ≡ none
    → check_request req ≡ none
unfolding setup_request
setup_request-checked setup req h = elim (Option-cases (check_request req)) [
  | inl fine ↦ fine
  | inr (e, bad) ↦ absurd (refused bad h)
]
  where
    refused : {e : Error} → check_request req ≡ some e → ¬ (setup_request setup req ≡ none)
    refused bad g = ground arith
