-- ===== src/Request/Payload.antt =====
-- The bytes of a request, against the messages that it says it has.
use nativepg.Prelude.{
  ℕ, ◌+◌, ◌^◌, ◌<◌, ◌≤◌, ◌≡◌, ◌∙◌, refl, sym, ap, ap₂, ℤ, Bool, true, false, List, [], ◌∷◌, ◌++◌,
  map, none, some, All, All-append_left, All-append_right, arith, length, length-append, append-nil,
  append_assoc, if◌then◌else◌,
}
use nativepg.Protocol.{RequestMessageType, bind, close, describe, execute, parse, query, sync}
use nativepg.Wire.{Endian, EndianLaws, Serialized, int32_max}
use nativepg.Wire.Messages.{PortalOrStatement, portal, FrontendMessage, serialize}
use nativepg.Wire.Bind.{FormatCode}
use nativepg.Wire.Frames.{frame, type_of, body_of, Counted, serialize-frame}
use nativepg.Wire.BindFrames.{Valued, AppendsValue, refs, bind_body, serialize_bind-frame}
use nativepg.Request.{
  Request, Added, then_add, add_advanced_impl, add_message, add_sync, maybe_add_sync,
  add_simple_query, add_prepare, add_describe, add_close, add_bind, add_execute, add_query,
}
use nativepg.Request.Autosync.{
  Call, simple_query, prepare, describes, closes, executes, queries, add_call, build,
}

-- A message as the protocol has it.
pub record Message : Type 0 where
  pub type : RequestMessageType
  pub tag : ℕ
  pub body : List ℕ

-- A call of a builder function, with what its parameters append.
pub data ValuedCall : Type 0 where
  simple : List ℕ → ValuedCall
  prepared : List ℕ → List ℕ → List ℤ → ValuedCall
  described closed : PortalOrStatement → List ℕ → ValuedCall
  executed queried : List ℕ → List Valued → FormatCode → FormatCode → ℤ → ValuedCall

abbrev pub call_of : ValuedCall → Call
call_of (simple q) = simple_query q
call_of (prepared q name oids) = prepare q name oids
call_of (described type name) = describes type name
call_of (closed type name) = closes type name
call_of (executed name ps f g n) = executes name (refs ps) f g n
call_of (queried q ps f g n) = queries q (refs ps) f g n

module _ (endian : Endian) where
  abbrev message : RequestMessageType → FrontendMessage → Message
  message t m = record { type = t; tag = type_of m; body = body_of endian m }

  abbrev syncs : Bool → List Message
  syncs true = message sync FrontendMessage.sync ∷ []
  syncs false = []

  abbrev execution : Bool → List ℕ → List Valued → FormatCode → FormatCode → ℤ → List Message
  execution autosync name ps f g n =
      record { type = bind; tag = b'B'; body = bind_body endian [] name f ps g }
      ∷ message describe (FrontendMessage.describe portal [])
      ∷ message execute (FrontendMessage.execute [] n)
      ∷ syncs autosync

  -- The messages of a call.
  abbrev pub messages_of : Bool → ValuedCall → List Message
  messages_of autosync (simple q) = message query (FrontendMessage.query q) ∷ []
  messages_of autosync (prepared q name oids) =
      message parse (FrontendMessage.parse name q oids) ∷ syncs autosync
  messages_of autosync (described type name) =
      message describe (FrontendMessage.describe type name) ∷ syncs autosync
  messages_of autosync (closed type name) =
      message close (FrontendMessage.close type name) ∷ syncs autosync
  messages_of autosync (executed name ps f g n) = execution autosync name ps f g n
  messages_of autosync (queried q ps f g n) =
      message parse (FrontendMessage.parse [] q (map (λ p. p.type_oid) (refs ps)))
      ∷ execution autosync [] ps f g n

  abbrev pub all_messages : Bool → List ValuedCall → List Message
  all_messages autosync [] = []
  all_messages autosync (c ∷ cs) = messages_of autosync c ++ all_messages autosync cs

  -- The frames of messages, one after the other.
  abbrev pub payload_of : List Message → List ℕ
  payload_of [] = []
  payload_of (m ∷ ms) = frame endian m.tag m.body ++ payload_of ms

  payload-append : (ms ns : List Message) → payload_of (ms ++ ns) ≡ payload_of ms ++ payload_of ns
  payload-append [] ns = refl
  payload-append (m ∷ ms) ns =
      ap (λ l. frame endian m.tag m.body ++ l) (payload-append ms ns)
      ∙ sym (append_assoc (frame endian m.tag m.body) (payload_of ms) (payload_of ns))

  -- A request with these messages more.
  abbrev grown : Request → List Message → Request
  grown r ms = record r {
    buffer = r.buffer ++ payload_of ms;
    types = r.types ++ map (λ m. m.type) ms;
  }

-- What a message and a call must keep to: sizes that an int32 can measure, at most 2 ^ 15 - 1
-- parameters, each of which appends its bytes.
abbrev pub Fits : Message → Type 0
Fits m = 4 + length m.body ≤ int32_max

abbrev pub IsFine : ValuedCall → Type 0
IsFine (prepared q name oids) = length oids < 2 ^ 15
IsFine (executed name ps f g n) = All (AppendsValue f) ps × (length ps < 2 ^ 15)
IsFine (queried q ps f g n) = All (AppendsValue f) ps × (length ps < 2 ^ 15)
IsFine _ = Unit {0}

map-append :
    (ms ns : List Message)
    → map (λ (m : Message). m.type) (ms ++ ns)
      ≡ map (λ (m : Message). m.type) ms ++ map (λ (m : Message). m.type) ns
map-append [] ns = refl
map-append (m ∷ ms) ns = ap (λ l. m.type ∷ l) (map-append ms ns)

length-refs : (ps : List Valued) → length (map (λ p. p.type_oid) (refs ps)) ≡ length ps
length-refs [] = refl
length-refs (p ∷ ps) = ap ℕ.suc (length-refs ps)

module _ (endian : Endian) (laws : EndianLaws endian) (autosync : Bool) where
  -- A function of the builder that adds these messages, where memory can hold them.
  abbrev Adds : List Message → (Request → Added) → Type 0
  Adds ms f =
      (r : Request)
      → r.autosync ≡ autosync
      → length r.buffer + length (payload_of endian ms) < 2 ^ 62
      → f r ≡ some (none, grown endian r ms)

  grown-grown :
      (r : Request) (ms ns : List Message)
      → grown endian (grown endian r ms) ns ≡ grown endian r (ms ++ ns)
  grown-grown r ms ns =
      ap₂ (λ b ts. record r { buffer = b; types = ts })
        (append_assoc r.buffer (payload_of endian ms) (payload_of endian ns)
          ∙ ap (λ l. r.buffer ++ l) (sym (payload-append endian ms ns)))
        (append_assoc r.types _ _ ∙ ap (λ l. r.types ++ l) (sym (map-append ms ns)))

  then-Adds :
      (ms ns : List Message) (f g : Request → Added)
      → Adds ms f
      → Adds ns g
      → Adds (ms ++ ns) (λ r. then_add (f r) g)
  unfolding then_add
  then-Adds ms ns f g hf hg r a s =
      let total =
        ap length (payload-append endian ms ns)
        ∙ length-append (payload_of endian ms) (payload_of endian ns) in
      rw (hf r a (omega (arith, s, total))) (
        hg (grown endian r ms) a
          (omega (arith, s, total, length-append r.buffer (payload_of endian ms)))
        ∙ ap (λ q. some (none, q)) (grown-grown r ms ns))

  impl-Adds :
      (f : List ℕ → Serialized) (m : Message)
      → ((b : List ℕ) → length b < 2 ^ 62 → f b ≡ some (none, b ++ frame endian m.tag m.body))
      → Adds (m ∷ []) (add_advanced_impl f m.type)
  unfolding add_advanced_impl
  impl-Adds f m h r a s = rw (h r.buffer (omega (arith, s))) (
      ap (λ l. some (none, record r { buffer = r.buffer ++ l; types = r.types ++ (m.type ∷ []) }))
        (sym (append-nil (frame endian m.tag m.body))))

  message-Adds :
      (t : RequestMessageType) (m : FrontendMessage)
      → Counted m
      → 4 + length (body_of endian m) ≤ int32_max
      → Adds (message endian t m ∷ []) (add_message endian m t)
  message-Adds t m k h =
      impl-Adds (serialize endian m) (message endian t m)
        (λ b s. serialize-frame endian laws m b k h s)

  sync_if :
      (a : Bool) (r : Request)
      → r.autosync ≡ a
      → length r.buffer + length (payload_of endian (syncs endian a)) < 2 ^ 62
      → a ≡ autosync
      → maybe_add_sync endian r ≡ some (none, grown endian r (syncs endian a))
  unfolding maybe_add_sync add_sync
  sync_if true r h s e =
      ap (λ b. if b then add_sync endian r else some (none, r)) h
      ∙ message-Adds sync FrontendMessage.sync tt (omega arith) r (h ∙ e) s
  sync_if false r h s e =
      ap (λ b. if b then add_sync endian r else some (none, r)) h
      ∙ ap₂ (λ b ts. some (none, record r { buffer = b; types = ts })) (sym (append-nil r.buffer))
          (sym (append-nil r.types))

  sync-Adds : Adds (syncs endian autosync) (maybe_add_sync endian)
  sync-Adds r h s = sync_if autosync r h s refl

  execute-Adds :
      (name : List ℕ) (ps : List Valued) (f g : FormatCode) (n : ℤ)
      → All (AppendsValue f) ps
      → length ps < 2 ^ 15
      → All Fits (execution endian autosync name ps f g n)
      → Adds (execution endian autosync name ps f g n) (add_execute endian name (refs ps) f g n)
  unfolding add_execute add_bind
  execute-Adds name ps f g n h few (fits_bind, (fits_describe, (fits_execute, fits))) =
      let bound : Message = record {
        type = bind;
        tag = b'B';
        body = bind_body endian [] name f ps g;
      } in
      let described = message endian describe (FrontendMessage.describe portal []) in
      let ran = message endian execute (FrontendMessage.execute [] n) in
      then-Adds (bound ∷ []) (described ∷ ran ∷ syncs endian autosync) _ _
        (impl-Adds _ bound
          (λ b s. serialize_bind-frame endian laws [] name b f ps g h few fits_bind s))
        (then-Adds (described ∷ []) (ran ∷ syncs endian autosync) _ _
          (message-Adds describe (FrontendMessage.describe portal []) tt fits_describe)
          (then-Adds (ran ∷ []) (syncs endian autosync) _ _
            (message-Adds execute (FrontendMessage.execute [] n) tt fits_execute) sync-Adds))

  and_sync :
      (t : RequestMessageType) (m : FrontendMessage)
      → Counted m
      → 4 + length (body_of endian m) ≤ int32_max
      → Adds
          (message endian t m ∷ syncs endian autosync)
          (λ r. then_add (add_message endian m t r) (maybe_add_sync endian))
  and_sync t m k h =
      then-Adds (message endian t m ∷ []) (syncs endian autosync) _ _ (message-Adds t m k h)
        sync-Adds

  call-Adds :
      (c : ValuedCall)
      → IsFine c
      → All Fits (messages_of endian autosync c)
      → Adds (messages_of endian autosync c) (add_call endian (call_of c))
  unfolding add_call add_simple_query add_prepare add_describe add_close add_query
  call-Adds (simple q) k (h, t) = message-Adds query (FrontendMessage.query q) tt h
  call-Adds (prepared q name oids) k (h, t) = and_sync parse (FrontendMessage.parse name q oids) k h
  call-Adds (described type name) k (h, t) =
      and_sync describe (FrontendMessage.describe type name) tt h
  call-Adds (closed type name) k (h, t) = and_sync close (FrontendMessage.close type name) tt h
  call-Adds (executed name ps f g n) (a, few) h = execute-Adds name ps f g n a few h
  call-Adds (queried q ps f g n) (a, few) (h, hs) =
      let m = FrontendMessage.parse [] q (map (λ p. p.type_oid) (refs ps)) in
      then-Adds (message endian parse m ∷ []) (execution endian autosync [] ps f g n) _ _
        (message-Adds parse m (omega (arith, few, length-refs ps)) h)
        (execute-Adds [] ps f g n a few hs)

  build-Adds :
      (cs : List ValuedCall)
      → All IsFine cs
      → All Fits (all_messages endian autosync cs)
      → Adds (all_messages endian autosync cs) (build endian (map call_of cs))
  unfolding build
  build-Adds [] k h = λ r a s.
      ap₂ (λ b ts. some (none, record r { buffer = b; types = ts })) (sym (append-nil r.buffer))
        (sym (append-nil r.types))
  build-Adds (c ∷ cs) (kc, k) h =
      then-Adds (messages_of endian autosync c) (all_messages endian autosync cs) _ _
        (call-Adds c kc (All-append_left Fits (messages_of endian autosync c) _ h))
        (build-Adds cs k (All-append_right Fits (messages_of endian autosync c) _ h))

module _ (endian : Endian) (laws : EndianLaws endian) where
  -- Calls of the high-level functions on any request, with or without autosync, with messages that
  -- an int32 can measure and at most 2 ^ 15 - 1 parameters each, of which every one appends its
  -- bytes, where memory can hold the payload: no call throws, the frames of the calls' messages, in
  -- order and with nothing else, are behind the payload that was there, and messages() names each
  -- of them behind those that were there.
  pub build-payload :
      (r : Request) (cs : List ValuedCall)
      → All IsFine cs
      → All Fits (all_messages endian r.autosync cs)
      → length r.buffer + length (payload_of endian (all_messages endian r.autosync cs)) < 2 ^ 62
      → build endian (map call_of cs) r
        ≡ some (
          none,
          record r {
            buffer = r.buffer ++ payload_of endian (all_messages endian r.autosync cs);
            types = r.types ++ map (λ (m : Message). m.type) (all_messages endian r.autosync cs);
          },
        )
  build-payload r cs k h s = build-Adds endian laws r.autosync cs k h r refl s
