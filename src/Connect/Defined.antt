-- ===== src/Connect/Defined.antt =====
-- Calls of startup_fsm_impl stay inside of memory where those of SCRAM do (src/startup_fsm.cpp).
use nativepg.Prelude.{
  All, ℕ, ◌≡◌, ◌<◌, ◌^◌, refl, Bool, true, false, pos, List, [], ◌∷◌, length, Option, none, some,
  arith, le→leb, if◌then◌else◌, ◌>>=◌,
}
use nativepg.Protocol.{ErrorCode, BackendMessage, Kind}
use nativepg.Wire.{Endian, EndianLaws, overwrite, serialization_context, Serialized}
use nativepg.Wire.Messages.{StartupMessage, serialize_startup}
use nativepg.Startup.{
  ScramFsm, ConnectParams, StartupFsm, StartupResult, ResumePoint, Resumed, attempt, on_start,
  on_first_response, on_sasl, on_continue, on_final, make_startup_message, supports_scram_sha256,
  after_authentication, handle_auth_response, check_unknown_auth_methods, process_error, yield_read,
  checked, on_more,
}
use nativepg.Startup

abbrev pub IsSome : {A : Type 0} → Option A → Type 0
IsSome none = ⊥
IsSome (some a) = Unit {0}

-- What a function of SCRAM leaves, where it ends without error.
abbrev pub Leaves : {S : Type 0} → (List ℕ → S → Type 0) → Option (ErrorCode × List ℕ × S) → Type 0
Leaves P none = ⊥
Leaves P (some (none, b, s)) = P b s
Leaves P (some (some e, b, s)) = Unit {0}

-- A SCRAM that never leaves its memory: in the state and with the write buffer that on_init left
-- it, and on messages that memory can hold, of characters that are safe.
pub record IsDefined {S : Type 0} (scram_fsm : ScramFsm S) : Type 1 where
  pub Greeted : List ℕ → S → Type 0
  pub IsSafe : ℕ → Type 0
  pub on_init_greets : (b : List ℕ) (s : S) → Leaves Greeted (scram_fsm.on_init b s)
  pub on_server_first_some :
      (m p b : List ℕ) (s : S)
      → length m < 2 ^ 62
      → All IsSafe m
      → Greeted b s
      → IsSome (scram_fsm.on_server_first m p b s)
  pub on_server_final_some :
      (m : List ℕ) (s : S)
      → length m < 2 ^ 62
      → All IsSafe m
      → IsSome (scram_fsm.on_server_final m s)

pub bind-IsSome :
    {A B : Type 0} (o : Option A) (f : A → B) → IsSome o → IsSome (o >>= λ a. some (f a))
bind-IsSome none f h = h
bind-IsSome (some a) f h = tt

pub IsSome_lem : {A : Type 0} (o : Option A) → IsSome o → (a : A) × (o ≡ some a)
IsSome_lem none h = elim h [ ]
IsSome_lem (some a) h = (a, refl)

module _ {S : Type 0} (scram_fsm : ScramFsm S) (endian : Endian) (params : ConnectParams)
    (defined : IsDefined scram_fsm) (laws : EndianLaws endian) where
  sized :
      (b : Bool) (x : ErrorCode × List ℕ) (rest : List ℕ) (n : ℕ)
      → IsSome (
          if b
          then some x
          else overwrite 0 (endian.store_big_s32 (pos n)) (0 ∷ 0 ∷ 0 ∷ 0 ∷ rest) >>= λ buffer.
              some (none, buffer))
  unfolding overwrite
  sized true x rest n = tt
  sized false x rest n =
      rw (laws.store_size (pos n), le→leb 4 (length (0 ∷ 0 ∷ 0 ∷ 0 ∷ rest)) (omega arith)) tt

  abbrev message_for : List ℕ → List ℕ → StartupMessage
  message_for user database = record {
    user = user;
    database = elim database [ [] ↦ none | (c ∷ cs) ↦ some (c ∷ cs) ];
    params = [];
  }

  serialized :
      (user database : List ℕ) → IsSome (serialize_startup endian (message_for user database) [])
  unfolding serialize_startup serialization_context
  serialized user [] = sized _ _ _ _
  serialized user (c ∷ cs) = sized _ _ _ _

  -- Between on_init and on_server_first, SCRAM is as on_init left it.
  abbrev pub OkAt : ResumePoint → StartupFsm S → Type 0
  OkAt ResumePoint.wrote_sasl i = defined.Greeted i.write_buffer i.scram
  OkAt ResumePoint.read_continue i = defined.Greeted i.write_buffer i.scram
  OkAt _ i = Unit {0}

  abbrev pub StartupOk : StartupFsm S → Type 0
  StartupOk i = OkAt i.point i

  -- A call that stays in memory, and goes on from a state that is in order.
  abbrev pub Answers : Option (Resumed scram_fsm endian params) → Type 0
  Answers none = ⊥
  Answers (some (StartupResult.done ec, i)) = Unit {0}
  Answers (some (_, i)) = StartupOk i

  init_attempted :
      (i : StartupFsm S) (o : Option (ErrorCode × List ℕ × S))
      → Leaves defined.Greeted o
      → Answers (attempt scram_fsm endian params ResumePoint.wrote_sasl i o)
  init_attempted i none h = h
  init_attempted i (some (none, b, s)) h = h
  init_attempted i (some (some e, b, s)) h = tt

  final_attempted :
      (i : StartupFsm S) (o : Option (ErrorCode × List ℕ × S))
      → IsSome o
      → Answers (attempt scram_fsm endian params ResumePoint.wrote_final i o)
  final_attempted i none h = h
  final_attempted i (some (none, b, s)) h = tt
  final_attempted i (some (some e, b, s)) h = tt

  sasl-Answers :
      (i : StartupFsm S) (supported : Bool) (e : ErrorCode)
      → Answers (
          if supported
          then attempt scram_fsm endian params ResumePoint.wrote_sasl i
              (scram_fsm.on_init i.write_buffer i.scram)
          else some (StartupResult.done e, i))
  sasl-Answers i true e =
      init_attempted i (scram_fsm.on_init i.write_buffer i.scram)
        (defined.on_init_greets i.write_buffer i.scram)
  sasl-Answers i false e = tt

  -- Messages that lead to nothing but an error or a read.
  auth-Answers :
      (k : Kind) (body : List ℕ) (i : StartupFsm S)
      → Answers
          (some (after_authentication scram_fsm endian params (record { kind = k; body = body }) i))
  unfolding handle_auth_response
  auth-Answers Kind.error_response body i = failed (process_error _)
    where
      failed :
          (ec : ErrorCode)
          → Answers (
              some (elim ec [
                | some e ↦ (StartupResult.done (some e), i)
                | none ↦ yield_read scram_fsm endian params ResumePoint.read_more i
              ]))
      failed none = tt
      failed (some e) = tt
  auth-Answers Kind.authentication_ok body i = tt
  auth-Answers _ body i = tt

  first-Answers :
      (k : Kind) (body : List ℕ) (i : StartupFsm S)
      → Answers (on_first_response scram_fsm endian params (record { kind = k; body = body }) i)
  unfolding check_unknown_auth_methods
  first-Answers Kind.authentication_sasl body i = sasl-Answers i (supports_scram_sha256 body) _
  first-Answers Kind.authentication_kerberos_v5 body i = tt
  first-Answers Kind.authentication_cleartext_password body i = tt
  first-Answers Kind.authentication_md5_password body i = tt
  first-Answers Kind.authentication_gss body i = tt
  first-Answers Kind.authentication_sspi body i = tt
  first-Answers Kind.error_response body i = auth-Answers Kind.error_response body i
  first-Answers k body i = auth-Answers k body i

  continue-Answers :
      (k : Kind) (body : List ℕ) (i : StartupFsm S)
      → length body < 2 ^ 62
      → All defined.IsSafe body
      → defined.Greeted i.write_buffer i.scram
      → Answers (on_continue scram_fsm endian params (record { kind = k; body = body }) i)
  continue-Answers Kind.authentication_sasl_continue body i small safe greeted =
      final_attempted i (scram_fsm.on_server_first body params.password i.write_buffer i.scram) (
        defined.on_server_first_some body params.password i.write_buffer i.scram small safe greeted)
  continue-Answers _ body i small safe greeted = tt

  checked-Answers :
      (i : StartupFsm S) (o : Option ErrorCode)
      → IsSome o
      → Answers (o >>= λ ec. some (checked scram_fsm endian params i ec))
  checked-Answers i none h = h
  checked-Answers i (some none) h = tt
  checked-Answers i (some (some e)) h = tt

  final-Answers :
      (k : Kind) (body : List ℕ) (i : StartupFsm S)
      → length body < 2 ^ 62
      → All defined.IsSafe body
      → Answers (on_final scram_fsm endian params (record { kind = k; body = body }) i)
  final-Answers Kind.authentication_sasl_final body i small safe =
      checked-Answers i (scram_fsm.on_server_final body i.scram)
        (defined.on_server_final_some body i.scram small safe)
  final-Answers _ body i small safe = tt

  more-Answers :
      (k : Kind) (body : List ℕ) (i : StartupFsm S)
      → Answers (some (on_more scram_fsm endian params (record { kind = k; body = body }) i))
  more-Answers Kind.backend_key_data body i = tt
  more-Answers _ body i = tt

  started :
      (i : StartupFsm S) (o : Serialized)
      → IsSome o
      → Answers (
          o >>= λ s.
          let g : StartupFsm S = record i { write_buffer = s.1 } in
          some (elim s.0 [
            | some e ↦ (StartupResult.done (some e), g)
            | none ↦ (StartupResult.write, record g { point = ResumePoint.wrote_startup })
          ]))
  started i none h = h
  started i (some (none, b)) h = tt
  started i (some (some e, b)) h = tt

  -- No call of startup_fsm_impl leaves its memory.
  at-Answers :
      (p : ResumePoint) (m : BackendMessage) (i : StartupFsm S)
      → length m.body < 2 ^ 62
      → All defined.IsSafe m.body
      → OkAt p i
      → Answers (Startup.resume scram_fsm endian params m (record i { point = p }))
  unfolding Startup.resume
  at-Answers ResumePoint.initial m i small safe ok =
      started (record i { point = ResumePoint.initial })
        (serialize_startup endian (message_for params.username params.database) [])
        (serialized params.username params.database)
  at-Answers ResumePoint.read_first m i small safe ok =
      first-Answers m.kind m.body (record i { point = ResumePoint.read_first })
  at-Answers ResumePoint.read_continue m i small safe ok =
      continue-Answers m.kind m.body (record i { point = ResumePoint.read_continue }) small safe ok
  at-Answers ResumePoint.read_final m i small safe ok =
      final-Answers m.kind m.body (record i { point = ResumePoint.read_final }) small safe
  at-Answers ResumePoint.wrote_startup m i small safe ok = tt
  at-Answers ResumePoint.wrote_sasl m i small safe ok = ok
  at-Answers ResumePoint.wrote_final m i small safe ok = tt
  at-Answers ResumePoint.read_ok m i small safe ok =
      auth-Answers m.kind m.body (record i { point = ResumePoint.read_ok })
  at-Answers ResumePoint.read_more m i small safe ok =
      more-Answers m.kind m.body (record i { point = ResumePoint.read_more })

  Answers_lem :
      (o : Option (Resumed scram_fsm endian params))
      → Answers o
      → (r : Resumed scram_fsm endian params) × (o ≡ some r) × Answers (some r)
  Answers_lem none h = absurd h
  Answers_lem (some r) h = (r, refl, h)

  pub resume_lem :
      (m : BackendMessage) (i : StartupFsm S)
      → length m.body < 2 ^ 62
      → All defined.IsSafe m.body
      → StartupOk i
      → (r : Resumed scram_fsm endian params) × (Startup.resume scram_fsm endian params m i
          ≡ some r)
        × Answers (some r)
  resume_lem m i small safe ok = Answers_lem _ (at-Answers i.point m i small safe ok)
