-- ===== src/Startup/Guards.antt =====
-- What a server must have sent before startup_fsm_impl reports success.
use nativepg.Prelude.{
  codes, ℕ, ◌≡◌, refl, sym, ap, subst, ◌>>=◌, List, [], ◌∷◌, Option, none, some, ◌⊎◌, inl, inr, All,
  Bool, true, false, if◌then◌else◌,
}
use nativepg.Protocol.{ErrorCode, client, BackendMessage, Kind, scram_mechanisms_unsupported}
use nativepg.Wire.{Endian, Serialized}
use nativepg.Wire.Messages.{serialize_startup}
use nativepg.Startup.{
  ScramFsm, ConnectParams, ResumePoint, initial, wrote_startup, read_first, wrote_sasl,
  read_continue, wrote_final, read_final, read_ok, read_more, StartupFsm, StartupResult, done, read,
  write, Resumed, resume, process_error, handle_auth_response, check_unknown_auth_methods,
  make_startup_message, sqlstate_field, parse_sqlstate, sqlstate_as_int, parse_sqlstate_char,
  code_of, on_continue, on_final, on_more, on_first_response, on_start, after_authentication,
  written, attempt, checked,
}

abbrev pub Any : (BackendMessage → Type 0) → List BackendMessage → Type 0
Any P [] = ⊥
Any P (m ∷ ms) = P m ⊎ Any P ms

-- An error response whose SQLSTATE makes a code that is no error.
abbrev pub IsZeroError : BackendMessage → Type 0
IsZeroError m = (m.kind ≡ Kind.error_response) × (process_error m ≡ none)

abbrev pub IsAuthOk : BackendMessage → Type 0
IsAuthOk m = m.kind ≡ Kind.authentication_ok

abbrev pub NotSaslAs : Kind → Type 0
NotSaslAs Kind.authentication_sasl = ⊥
NotSaslAs _ = Unit {0}

abbrev pub NotSasl : BackendMessage → Type 0
NotSasl m = NotSaslAs m.kind

module _ {S : Type 0} (scram_fsm : ScramFsm S) (endian : Endian) (params : ConnectParams) where
  -- A final message of the server whose signature was checked.
  abbrev pub IsVerified : BackendMessage → Type 0
  IsVerified m =
      (m.kind ≡ Kind.authentication_sasl_final)
      × (s : S) × (scram_fsm.on_server_final m.body s ≡ some none)

  -- What the messages received, the newest first, must hold once a login is accepted.
  abbrev pub Accepted : List BackendMessage → Type 0
  Accepted t = Any IsZeroError t ⊎ (Any IsAuthOk t × (All NotSasl t ⊎ Any IsVerified t))

  abbrev Phase : ResumePoint → List BackendMessage → Type 0
  Phase initial t = All NotSasl t
  Phase wrote_startup t = All NotSasl t
  Phase read_first t = All NotSasl t
  Phase read_ok t = Any IsVerified t
  Phase read_more t = Accepted t
  Phase _ t = Unit {0}

  abbrev Next : BackendMessage → List BackendMessage → Resumed scram_fsm endian params → Type 0
  Next m t (done none, g) =
      Any IsZeroError (m ∷ t) ⊎ (Accepted (m ∷ t) × (m.kind ≡ Kind.ready_for_query))
  Next m t (done (some e), g) = Unit {0}
  Next m t (read, g) = Phase g.point (m ∷ t)
  Next m t (write, g) = Phase g.point (m ∷ t)

  abbrev NextOf :
      BackendMessage → List BackendMessage → Option (Resumed scram_fsm endian params) → Type 0
  NextOf m t none = Unit {0}
  NextOf m t (some r) = Next m t r

  done_with :
      (m : BackendMessage) (t : List BackendMessage) (f : StartupFsm S) (ec : ErrorCode)
      → m.kind ≡ Kind.error_response
      → process_error m ≡ ec
      → Next m t (done ec, f)
  done_with m t f none k e = inl (inl (k, e))
  done_with m t f (some x) k e = tt

  Accepted-cons :
      (m : BackendMessage) (t : List BackendMessage) → NotSasl m → Accepted t → Accepted (m ∷ t)
  Accepted-cons m t n (inl z) = inl (inr z)
  Accepted-cons m t n (inr (ok, inl plain)) = inr (inr ok, inl (n, plain))
  Accepted-cons m t n (inr (ok, inr checked)) = inr (inr ok, inr (inr checked))

  more-Next :
      (k : Kind) (body : List ℕ) (t : List BackendMessage) (f : StartupFsm S)
      → Accepted t
      → Next
          (record { kind = k; body = body })
          t
          (on_more scram_fsm endian params (record { kind = k; body = body }) f)
  more-Next Kind.error_response body t f a = done_with _ t f _ refl refl
  more-Next Kind.ready_for_query body t f a = inr (Accepted-cons _ t tt a, refl)
  more-Next Kind.backend_key_data body t f a = Accepted-cons _ t tt a
  more-Next Kind.parameter_status body t f a = Accepted-cons _ t tt a
  more-Next Kind.notice_response body t f a = Accepted-cons _ t tt a
  more-Next _ body t f a = tt

  -- How the login was made, before the server says that it is accepted.
  abbrev Login : List BackendMessage → Type 0
  Login t = All NotSasl t ⊎ Any IsVerified t

  error-Next :
      (m : BackendMessage) (t : List BackendMessage) (f : StartupFsm S) (ec : ErrorCode)
      → m.kind ≡ Kind.error_response
      → process_error m ≡ ec
      → Next m t
          (elim ec [ some e ↦ (done (some e), f) | none ↦ (read, record f { point = read_more }) ])
  error-Next m t f none k e = inl (inl (k, e))
  error-Next m t f (some x) k e = tt

  auth-Next :
      (k : Kind) (body : List ℕ) (t : List BackendMessage) (f : StartupFsm S)
      → Login (record { kind = k; body = body } ∷ t)
      → Next
          (record { kind = k; body = body })
          t
          (after_authentication scram_fsm endian params (record { kind = k; body = body }) f)
  unfolding handle_auth_response
  auth-Next Kind.error_response body t f l = error-Next _ t f _ refl refl
  auth-Next Kind.authentication_ok body t f l = inr (inl refl, l)
  auth-Next _ body t f l = tt

  written-Next :
      (m : BackendMessage) (t : List BackendMessage) (p : ResumePoint) (f : StartupFsm S)
      (ec : ErrorCode) (bytes : List ℕ) (s : S)
      → Phase p (m ∷ t)
      → Next m t (written scram_fsm endian params p f (ec, bytes, s))
  written-Next m t p f none bytes s h = h
  written-Next m t p f (some e) bytes s h = tt

  attempt-Next :
      (m : BackendMessage) (t : List BackendMessage) (p : ResumePoint) (f : StartupFsm S)
      (o : Option (ErrorCode × List ℕ × S))
      → Phase p (m ∷ t)
      → NextOf m t (attempt scram_fsm endian params p f o)
  attempt-Next m t p f none h = tt
  attempt-Next m t p f (some (ec, bytes, s)) h = written-Next m t p f ec bytes s h

  sasl-Next :
      (m : BackendMessage) (t : List BackendMessage) (f : StartupFsm S) (supported : Bool)
      → NextOf m t (
          if supported
          then attempt scram_fsm endian params wrote_sasl f
              (scram_fsm.on_init f.write_buffer f.scram)
          else some (done (some (client scram_mechanisms_unsupported)), f))
  sasl-Next m t f true = attempt-Next m t wrote_sasl f (scram_fsm.on_init f.write_buffer f.scram) tt
  sasl-Next m t f false = tt

  first-Next :
      (k : Kind) (body : List ℕ) (t : List BackendMessage) (f : StartupFsm S)
      → All NotSasl t
      → NextOf
          (record { kind = k; body = body })
          t
          (on_first_response scram_fsm endian params (record { kind = k; body = body }) f)
  unfolding check_unknown_auth_methods handle_auth_response
  first-Next Kind.authentication_sasl body t f h = sasl-Next _ t f _
  first-Next Kind.error_response body t f h = error-Next _ t f _ refl refl
  first-Next Kind.authentication_ok body t f h = inr (inl refl, inl (tt, h))
  first-Next _ body t f h = tt

  continue-Next :
      (k : Kind) (body : List ℕ) (t : List BackendMessage) (f : StartupFsm S)
      → NextOf
          (record { kind = k; body = body })
          t
          (on_continue scram_fsm endian params (record { kind = k; body = body }) f)
  continue-Next Kind.error_response body t f = done_with _ t f _ refl refl
  continue-Next Kind.authentication_sasl_continue body t f =
      attempt-Next _ t wrote_final f
        (scram_fsm.on_server_first body params.password f.write_buffer f.scram) tt
  continue-Next _ body t f = tt

  checked-Next :
      (m : BackendMessage) (t : List BackendMessage) (f : StartupFsm S) (o : Option ErrorCode)
      → m.kind ≡ Kind.authentication_sasl_final
      → scram_fsm.on_server_final m.body f.scram ≡ o
      → NextOf m t (o >>= λ ec. some (checked scram_fsm endian params f ec))
  checked-Next m t f none k e = tt
  checked-Next m t f (some none) k e = inl (k, f.scram, e)
  checked-Next m t f (some (some x)) k e = tt

  final-Next :
      (k : Kind) (body : List ℕ) (t : List BackendMessage) (f : StartupFsm S)
      → NextOf
          (record { kind = k; body = body })
          t
          (on_final scram_fsm endian params (record { kind = k; body = body }) f)
  final-Next Kind.error_response body t f = done_with _ t f _ refl refl
  final-Next Kind.authentication_sasl_final body t f = checked-Next _ t f _ refl refl
  final-Next _ body t f = tt

  -- What startup_fsm hands in: no message, at the start and after a write.
  abbrev pub Given : ResumePoint → BackendMessage → Type 0
  Given initial m = m.kind ≡ Kind.none_kind
  Given wrote_startup m = m.kind ≡ Kind.none_kind
  Given wrote_sasl m = m.kind ≡ Kind.none_kind
  Given wrote_final m = m.kind ≡ Kind.none_kind
  Given _ m = Unit {0}

  abbrev pub IsMore : StartupResult → Type 0
  IsMore (done ec) = ⊥
  IsMore _ = Unit {0}

  -- The messages handed in so far, the newest first, and the machine that they have led to.
  pub data History : List BackendMessage → StartupFsm S → Type 0 where
    begun : (f : StartupFsm S) → f.point ≡ initial → History [] f
    later :
        {t : List BackendMessage} {f g : StartupFsm S} {a : StartupResult} (m : BackendMessage)
        → History t f
        → Given f.point m
        → resume scram_fsm endian params m f ≡ some (a, g)
        → IsMore a
        → History (m ∷ t) g

  not_sasl : (k : Kind) → k ≡ Kind.none_kind → NotSaslAs k
  not_sasl Kind.authentication_sasl h = cc
  not_sasl _ h = tt

  serialized-Next :
      (o : Serialized) (m : BackendMessage) (t : List BackendMessage) (f : StartupFsm S)
      → All NotSasl (m ∷ t)
      → NextOf m t (
          o >>= λ s. some (elim s.0 [
            | some e ↦ (done (some e), record f { write_buffer = s.1 })
            | none ↦ (write, record f { write_buffer = s.1; point = wrote_startup })
          ]))
  serialized-Next none m t f h = tt
  serialized-Next (some (none, b)) m t f h = h
  serialized-Next (some (some e, b)) m t f h = tt

  start-Next :
      (m : BackendMessage) (t : List BackendMessage) (f : StartupFsm S)
      → All NotSasl (m ∷ t)
      → NextOf m t (on_start scram_fsm endian params f)
  start-Next m t f h =
      serialized-Next (serialize_startup endian (make_startup_message params) []) m t f h

  at : ResumePoint → StartupFsm S → StartupFsm S
  at p f = record f { point = p }

  resume-Next :
      (p : ResumePoint) (m : BackendMessage) (t : List BackendMessage) (f : StartupFsm S)
      → Given p m
      → Phase p t
      → NextOf m t (resume scram_fsm endian params m (record f { point = p }))
  unfolding resume at
  resume-Next initial m t f given h = start-Next m t (at initial f) (not_sasl m.kind given, h)
  resume-Next wrote_startup m t f given h = (not_sasl m.kind given, h)
  resume-Next read_first m t f given h = first-Next m.kind m.body t (at read_first f) h
  resume-Next wrote_sasl m t f given h = tt
  resume-Next read_continue m t f given h = continue-Next m.kind m.body t (at read_continue f)
  resume-Next wrote_final m t f given h = tt
  resume-Next read_final m t f given h = final-Next m.kind m.body t (at read_final f)
  resume-Next read_ok m t f given h = auth-Next m.kind m.body t (at read_ok f) (inr (inr h))
  resume-Next read_more m t f given h = more-Next m.kind m.body t (at read_more f) h

  more-Phase :
      (m : BackendMessage) (t : List BackendMessage) (g : StartupFsm S) (a : StartupResult)
      → IsMore a
      → Next m t (a, g)
      → Phase g.point (m ∷ t)
  more-Phase m t g (done ec) i n = elim i [ ]
  more-Phase m t g read i n = n
  more-Phase m t g write i n = n

  History-Phase : (t : List BackendMessage) (f : StartupFsm S) → History t f → Phase f.point t
  History-Phase _ f (begun _ h) = subst (λ p. Phase p []) (sym h) tt
  History-Phase _ _ (later {t} {f} {g} {a} m past given h i) =
      more-Phase m t g a i
        (subst (NextOf m t) h (resume-Next f.point m t f given (History-Phase t f past)))

  -- When startup_fsm_impl reports success, over all messages that it was ever handed, with any
  -- implementation of SCRAM: the last message was ready_for_query, the server has said that
  -- authentication is over, and either it never asked for SASL or a final message of it was checked
  -- and found right; or else there was an error response whose SQLSTATE makes a code without error.
  pub success-Accepted :
      (t : List BackendMessage) (f g : StartupFsm S) (m : BackendMessage)
      → History t f
      → Given f.point m
      → resume scram_fsm endian params m f ≡ some (done none, g)
      → Any IsZeroError (m ∷ t) ⊎ (Accepted (m ∷ t) × (m.kind ≡ Kind.ready_for_query))
  success-Accepted t f g m past given h =
      subst (NextOf m t) h (resume-Next f.point m t f given (History-Phase t f past))

  -- An error response with the SQLSTATE 00000, in place of the final message of SCRAM, whose
  -- signature proves who the server is: startup_fsm_impl reports success.
  pub zero_error_succeeds :
      (f : StartupFsm S) (body : List ℕ)
      → sqlstate_field body ≡ codes "00000"
      → resume scram_fsm endian params
          (record { kind = Kind.error_response; body = body })
          (record f { point = read_final })
        ≡ some (done none, record f { point = read_final })
  unfolding resume process_error parse_sqlstate sqlstate_as_int parse_sqlstate_char code_of
  zero_error_succeeds f body s =
      ap (λ c. some (done (parse_sqlstate c), record f { point = read_final })) s
