-- ===== src/Parse/Contained.antt =====
-- src/messages.cpp: a message that was parsed looks at bytes that were there.
use nativepg.Prelude.{
  ℕ, ◌+◌, ◌-◌, ◌^◌, ◌<◌, ◌≤◌, ◌≡◌, false, List, [], ◌∷◌, Option, none, some, ◌⊎◌, inl, inr, arith,
  length, length-take, subst, take, All, All-take, ltb, Bool-cases,
}
use nativepg.Protocol.{Error}
use nativepg.Wire.{Endian}
use nativepg.Wire.Framing.{MessageHeader, required_size, parse_header}
use nativepg.Parse.Messages.{AnyBackendMessage, Parsed}
use nativepg.Parse.Dispatch.{
  BackendMessageType, backend_message_type, AuthenticationMessageType, authentication_message_type,
  any_message, parse_authentication, parse_authentication_request, parse_as, parse_any_message,
  ParseMessageResult, complete, with_size, parse_rest, parse_message,
}

ltb→le : (a b : ℕ) → ltb a b ≡ false → b ≤ a
ltb→le a b h = ground arith

module _ (P : ℕ → Type 0) where
  -- The body of the message, if there is one, is no longer than that, and its bytes have P.
  abbrev Within : ℕ → Error ⊎ Parsed → Type 0
  Within n (inl e) = Unit {0}
  Within n (inr p) = (length p.body ≤ n) × All P p.body

  any_message-Within :
      {A : Type 0} (make : A → AnyBackendMessage) (from : List ℕ) (n : ℕ) (r : Error ⊎ A)
      → (length from ≤ n) × All P from
      → Within n (any_message make from r)
  any_message-Within make from n (inl e) h = tt
  any_message-Within make from n (inr a) h = h

  authentication-Within :
      (t : Option AuthenticationMessageType) (from : List ℕ) (n : ℕ)
      → (length from ≤ n) × All P from
      → Within n (parse_authentication t from)
  unfolding parse_authentication
  authentication-Within none from n h = tt
  authentication-Within (some AuthenticationMessageType.gss_continue) from n h = h
  authentication-Within (some AuthenticationMessageType.sasl_continue) from n h = h
  authentication-Within (some AuthenticationMessageType.sasl_final) from n h = h
  authentication-Within (some _) from n h = any_message-Within _ from n _ h

  module _ (endian : Endian) where
    request-Within :
        (body : List ℕ)
        → All P body
        → Within (length body) (parse_authentication_request endian body)
    unfolding parse_authentication_request
    request-Within (a ∷ b ∷ c ∷ d ∷ from) (ha, (hb, (hc, (hd, h)))) =
        authentication-Within (authentication_message_type (endian.load_big_s32 a b c d)) from _
          (omega arith, h)
    request-Within [] h = tt
    request-Within (a ∷ []) h = tt
    request-Within (a ∷ b ∷ []) h = tt
    request-Within (a ∷ b ∷ c ∷ []) h = tt

    as-Within :
        (t : Option BackendMessageType) (body : List ℕ)
        → All P body
        → Within (length body) (parse_as endian t body)
    unfolding parse_as
    as-Within none body h = tt
    as-Within (some BackendMessageType.authentication_request) body h = request-Within body h
    as-Within (some BackendMessageType.copy_data) body h = (omega arith, h)
    as-Within (some _) body h = any_message-Within _ body (length body) _ (omega arith, h)

    abbrev Bounded : ParseMessageResult → Type 0
    Bounded (complete p n) = (length p.body < 2 ^ 32) × All P p.body
    Bounded _ = Unit {0}

    sized-Bounded :
        (n k : ℕ) (r : Error ⊎ Parsed) → k < 2 ^ 32 → Within k r → Bounded (with_size n r)
    sized-Bounded n k (inl e) h w = tt
    sized-Bounded n k (inr p) h (w, all) = (omega (arith, h, w), all)

    rest-Bounded :
        (rest : List ℕ) (r : Error ⊎ MessageHeader)
        → All P rest
        → Bounded (parse_rest endian rest r)
    unfolding parse_rest parse_any_message
    rest-Bounded rest (inl e) ok = tt
    rest-Bounded rest (inr h) ok = elim (Bool-cases (ltb (length rest + 5) (required_size h))) [
      | inl y ↦ rw y tt
      | inr n ↦ rw n (
          let body = take (required_size h - 5) rest in
          let there : required_size h ≤ length rest + 5 =
            ltb→le (length rest + 5) (required_size h) n in
          let size = length-take (required_size h - 5) rest (omega (arith, there)) in
          sized-Bounded (required_size h) (length body) _ (omega (arith, size)) (
            as-Within (backend_message_type h.type) body
              (All-take P (required_size h - 5) rest ok)))
    ]

    parsed-Bounded : (bytes : List ℕ) → All P bytes → Bounded (parse_message endian bytes)
    unfolding parse_message
    parsed-Bounded (t ∷ a ∷ b ∷ c ∷ d ∷ rest) (ht, (ha, (hb, (hc, (hd, h))))) =
        rest-Bounded rest (parse_header endian t a b c d) h
    parsed-Bounded [] h = tt
    parsed-Bounded (t ∷ []) h = tt
    parsed-Bounded (t ∷ a ∷ []) h = tt
    parsed-Bounded (t ∷ a ∷ b ∷ []) h = tt
    parsed-Bounded (t ∷ a ∷ b ∷ c ∷ []) h = tt

    -- A message is shorter than its 32 bits of length can tell, and its bytes are from those that
    -- were there.
    pub parse_message-body :
        (bytes : List ℕ) {p : Parsed} {n : ℕ}
        → All P bytes
        → parse_message endian bytes ≡ complete p n
        → (length p.body < 2 ^ 32) × All P p.body
    parse_message-body bytes h e = subst Bounded e (parsed-Bounded bytes h)
