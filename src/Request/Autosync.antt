-- ===== src/Request/Autosync.antt =====
-- Requests that are put together with autosync on, out of calls of request's high-level functions.
use nativepg.Prelude.{
  ℕ, subst, suc, ℤ, ◌≡◌, refl, sym, ap, ◌∙◌, true, false, List, [], ◌∷◌, ◌++◌, none, some, length,
  append-nil, append_assoc, ◌>>=◌,
}
use nativepg.Protocol.{RequestMessageType, bind, close, describe, execute, parse, query, sync}
use nativepg.CheckRequest.{check_batches, check_request, get_expected_rfqs}
use nativepg.Wire.{Endian, Serialized}
use nativepg.Wire.Messages.{PortalOrStatement, FrontendMessage, serialize}
use nativepg.Wire.Bind.{FormatCode, ParameterRef}
use nativepg.Request.{
  Request, request, Added, then_add, add_advanced_impl, add_sync, maybe_add_sync, add_simple_query,
  add_prepare, add_describe, add_close, add_bind, add_execute, add_query,
}

-- One call of a function that adds a whole unit.
pub data Call : Type 0 where
  simple_query : List ℕ → Call
  prepare : List ℕ → List ℕ → List ℤ → Call
  describes closes : PortalOrStatement → List ℕ → Call
  executes queries : List ℕ → List ParameterRef → FormatCode → FormatCode → ℤ → Call

module _ (endian : Endian) where
  unfoldable pub add_call : Call → Request → Added
  add_call (simple_query q) = add_simple_query endian q
  add_call (prepare q name oids) = add_prepare endian q name oids
  add_call (describes type name) = add_describe endian type name
  add_call (closes type name) = add_close endian type name
  add_call (executes name ps f g n) = add_execute endian name ps f g n
  add_call (queries q ps f g n) = add_query endian q ps f g n

  unfoldable pub build : List Call → Request → Added
  build [] r = some (none, r)
  build (c ∷ cs) r = then_add (add_call c r) (build cs)

-- The messages of a call, as the documentation of the functions has them.
abbrev unit_of : Call → List RequestMessageType
unit_of (simple_query q) = query ∷ []
unit_of (prepare q name oids) = parse ∷ sync ∷ []
unit_of (describes type name) = describe ∷ sync ∷ []
unit_of (closes type name) = close ∷ sync ∷ []
unit_of (executes name ps f g n) = bind ∷ describe ∷ execute ∷ sync ∷ []
unit_of (queries q ps f g n) = parse ∷ bind ∷ describe ∷ execute ∷ sync ∷ []

abbrev units : List Call → List RequestMessageType
units [] = []
units (c ∷ cs) = unit_of c ++ units cs

-- A successful result has these messages more.
unfoldable Grows : Request → List RequestMessageType → Added → Type 0
Grows r ts none = Unit {0}
Grows r ts (some (some e, q)) = Unit {0}
Grows r ts (some (none, q)) = (q.types ≡ r.types ++ ts) × (q.autosync ≡ r.autosync)

serialized-Grows :
    (o : Serialized) (t : RequestMessageType) (r : Request)
    → Grows r (t ∷ []) (
        o >>= λ s. some (elim s.0 [
          | none ↦ (none, record r { buffer = s.1; types = r.types ++ (t ∷ []) })
          | some e ↦ (some e, record r { buffer = s.1 })
        ]))
unfolding Grows
serialized-Grows none t r = tt
serialized-Grows (some (none, b)) t r = (refl, refl)
serialized-Grows (some (some e, b)) t r = tt

impl-Grows :
    (f : List ℕ → Serialized) (t : RequestMessageType) (r : Request)
    → Grows r (t ∷ []) (add_advanced_impl f t r)
unfolding add_advanced_impl
impl-Grows f t r = serialized-Grows (f r.buffer) t r

then_add-Grows :
    (r : Request) (ts us : List RequestMessageType) (a : Added) (next : Request → Added)
    → Grows r ts a
    → ((q : Request) → q.autosync ≡ r.autosync → Grows q us (next q))
    → Grows r (ts ++ us) (then_add a next)
unfolding Grows then_add
then_add-Grows r ts us none next h k = tt
then_add-Grows r ts us (some (some e, q)) next h k = tt
then_add-Grows r ts us (some (none, q)) next h k = regrow (next q) (k q h.1)
  where
    regrow : (o : Added) → Grows q us o → Grows r (ts ++ us) o
    regrow none g = tt
    regrow (some (some e, p)) g = tt
    regrow (some (none, p)) g =
        (g.0 ∙ ap (λ l. l ++ us) h.0 ∙ append_assoc r.types ts us, g.1 ∙ h.1)

module _ (endian : Endian) where
  sync-Grows : (r : Request) → r.autosync ≡ true → Grows r (sync ∷ []) (maybe_add_sync endian r)
  unfolding maybe_add_sync add_sync
  sync-Grows r h = simp h (impl-Grows (serialize endian FrontendMessage.sync) sync r)

  execute-Grows :
      (name : List ℕ) (ps : List ParameterRef) (f g : FormatCode) (n : ℤ) (r : Request)
      → r.autosync ≡ true
      → Grows r (bind ∷ describe ∷ execute ∷ sync ∷ []) (add_execute endian name ps f g n r)
  unfolding add_execute add_bind
  execute-Grows name ps f g n r h =
      then_add-Grows r (bind ∷ []) (describe ∷ execute ∷ sync ∷ []) _ _ (impl-Grows _ bind r)
        λ p hp.
          then_add-Grows p (describe ∷ []) (execute ∷ sync ∷ []) _ _ (impl-Grows _ describe p)
            λ q hq.
              then_add-Grows q (execute ∷ []) (sync ∷ []) _ _ (impl-Grows _ execute q)
                λ s hs. sync-Grows s (hs ∙ hq ∙ hp ∙ h)

  call-Grows :
      (c : Call) (r : Request) → r.autosync ≡ true → Grows r (unit_of c) (add_call endian c r)
  unfolding add_call add_simple_query add_prepare add_describe add_close add_query
  call-Grows (simple_query q) r h = impl-Grows _ query r
  call-Grows (prepare q name oids) r h =
      then_add-Grows r (parse ∷ []) (sync ∷ []) _ _ (impl-Grows _ parse r)
        λ p hp. sync-Grows p (hp ∙ h)
  call-Grows (describes type name) r h =
      then_add-Grows r (describe ∷ []) (sync ∷ []) _ _ (impl-Grows _ describe r)
        λ p hp. sync-Grows p (hp ∙ h)
  call-Grows (closes type name) r h =
      then_add-Grows r (close ∷ []) (sync ∷ []) _ _ (impl-Grows _ close r)
        λ p hp. sync-Grows p (hp ∙ h)
  call-Grows (executes name ps f g n) r h = execute-Grows name ps f g n r h
  call-Grows (queries q ps f g n) r h =
      then_add-Grows r (parse ∷ []) (bind ∷ describe ∷ execute ∷ sync ∷ []) _ _
        (impl-Grows _ parse r) λ p hp. execute-Grows [] ps f g n p (hp ∙ h)

  build-Grows :
      (cs : List Call) (r : Request) → r.autosync ≡ true → Grows r (units cs) (build endian cs r)
  unfolding build Grows
  build-Grows [] r h = (sym (append-nil r.types), refl)
  build-Grows (c ∷ cs) r h =
      then_add-Grows r (unit_of c) (units cs) _ _ (call-Grows c r h)
        λ q hq. build-Grows cs q (hq ∙ h)

unit_checked :
    (c : Call) (ts : List RequestMessageType)
    → check_batches false (unit_of c ++ ts) ≡ check_batches false ts
unfolding check_batches
unit_checked (simple_query q) ts = refl
unit_checked (prepare q name oids) ts = refl
unit_checked (describes type name) ts = refl
unit_checked (closes type name) ts = refl
unit_checked (executes name ps f g n) ts = refl
unit_checked (queries q ps f g n) ts = refl

units_checked : (cs : List Call) → check_batches false (units cs) ≡ none
units_checked [] = unfold check_batches in refl
units_checked (c ∷ cs) = unit_checked c (units cs) ∙ units_checked cs

unit_expects :
    (c : Call) (ts : List RequestMessageType)
    → get_expected_rfqs (unit_of c ++ ts) ≡ suc (get_expected_rfqs ts)
unfolding get_expected_rfqs
unit_expects (simple_query q) ts = refl
unit_expects (prepare q name oids) ts = refl
unit_expects (describes type name) ts = refl
unit_expects (closes type name) ts = refl
unit_expects (executes name ps f g n) ts = refl
unit_expects (queries q ps f g n) ts = refl

units_expect : (cs : List Call) → get_expected_rfqs (units cs) ≡ length cs
units_expect [] = unfold get_expected_rfqs in refl
units_expect (c ∷ cs) = unit_expects c (units cs) ∙ ap suc (units_expect cs)

nonempty_checked :
    (c : Call) (ts : List RequestMessageType)
    → check_request (unit_of c ++ ts) ≡ check_batches false (unit_of c ++ ts)
unfolding check_request
nonempty_checked (simple_query q) ts = refl
nonempty_checked (prepare q name oids) ts = refl
nonempty_checked (describes type name) ts = refl
nonempty_checked (closes type name) ts = refl
nonempty_checked (executes name ps f g n) ts = refl
nonempty_checked (queries q ps f g n) ts = refl

-- A request with autosync on that calls of the high-level functions have put together, at least
-- one and none of them with an exception: check_request accepts it, and it is answered with exactly
-- one ready_for_query for each call.
pub build-check_request :
    (endian : Endian) (c : Call) (cs : List Call) (q : Request)
    → build endian (c ∷ cs) (request true) ≡ some (none, q)
    → (check_request q.types ≡ none) × (get_expected_rfqs q.types ≡ length (c ∷ cs))
unfolding request Grows
build-check_request endian c cs q h =
    let grown =
      subst (Grows (request true) (units (c ∷ cs))) h
        (build-Grows endian (c ∷ cs) (request true) refl) in
    (
      ap check_request grown.0 ∙ nonempty_checked c (units cs) ∙ units_checked (c ∷ cs),
      ap get_expected_rfqs grown.0 ∙ units_expect (c ∷ cs),
    )
