-- ===== src/Parse/Answers.antt =====
-- parse_message against message_missing_bytes (src/messages.cpp), and against bytes that come later.
use nativepg.Prelude.{
  ℕ, zero, suc, ◌+◌, ◌-◌, ◌<◌, ◌≤◌, ◌≡◌, refl, ap, subst, ℤ, pos, negsuc, Bool, true, false, List,
  [], ◌∷◌, ◌++◌, ◌⊎◌, inl, inr, if◌then◌else◌, length, take, ltb, All, arith, Bool-cases,
  length-append, ltb→lt, lt→ltb,
}
use nativepg.Protocol.{Error, client, protocol_value_error}
use nativepg.Wire.{Endian, EndianLaws, IsInt32}
use nativepg.Wire.Framing.{
  MessageHeader, is_below_4, parse_header, required_size, missing_of, message_missing_bytes,
}
use nativepg.Parse.Messages.{Parsed}
use nativepg.Parse.Dispatch.{
  ParseMessageResult, failed, more, complete, with_size, parse_any_message, parse_rest,
  parse_message,
}

abbrev pub IsByte : ℕ → Type 0
IsByte b = b < 256

take_prefix : (n : ℕ) (xs ys : List ℕ) → n ≤ length xs → take n (xs ++ ys) ≡ take n xs
take_prefix zero xs ys h = refl
take_prefix (suc n) [] ys h = elim h [ ]
take_prefix (suc n) (x ∷ xs) ys h = ap (λ l. x ∷ l) (take_prefix n xs ys (omega arith))

ltb→ge : (a b : ℕ) → ltb a b ≡ false → b ≤ a
ltb→ge a b h = ground arith

ge→ltb : (a b : ℕ) → b ≤ a → ltb a b ≡ false
ge→ltb a b h = ground arith

-- What an answer says, of the number that is missing and of more bytes.
abbrev pub Answered : (List ℕ → ParseMessageResult) → List ℕ → ℕ → ParseMessageResult → Type 0
Answered parse bytes missing (failed e) =
    (missing ≡ 0) × ((extra : List ℕ) → parse (bytes ++ extra) ≡ failed e)
Answered parse bytes missing (complete p n) =
    (missing ≡ 0)
    × (5 ≤ n)
    × (n ≤ length bytes)
    × ((extra : List ℕ) → parse (bytes ++ extra) ≡ complete p n)
Answered parse bytes missing (more n) =
    (missing ≡ n)
    × (0 < n)
    × ((extra : List ℕ) → length extra < n → (k : ℕ) × (parse (bytes ++ extra) ≡ more k))

module _ (endian : Endian) (laws : EndianLaws endian) where
  -- A header that is accepted counts its own four bytes.
  header_size :
      (t a b c d : ℕ) {h : MessageHeader}
      → a < 256
      → b < 256
      → c < 256
      → d < 256
      → parse_header endian t a b c d ≡ inr h
      → 5 ≤ required_size h
  unfolding parse_header
  header_size t a b c d {h} ha hb hc hd e =
      by_size (endian.load_big_s32 a b c d) (laws.load_range a b c d ha hb hc hd) e
    where
      header_of : Bool → ℤ → Error ⊎ MessageHeader
      header_of v z =
          if v then inl (client protocol_value_error) else inr (record { type = t; size = z })

      header_eq : {k : MessageHeader} → ◌≡◌ {A = Error ⊎ MessageHeader} (inr k) (inr h) → k ≡ h
      header_eq g = cc

      header_ne : ¬ ◌≡◌ {A = Error ⊎ MessageHeader} (inl (client protocol_value_error)) (inr h)
      header_ne g = cc

      by_size : (z : ℤ) → IsInt32 z → header_of (is_below_4 z) z ≡ inr h → 5 ≤ required_size h
      by_size (negsuc n) r g = cc
      by_size (pos n) r g = elim (Bool-cases (ltb n 4)) [
        | inl small ↦ absurd (header_ne (subst (λ v. header_of v (pos n) ≡ inr h) small g))
        | inr big ↦
            subst (λ k. 5 ≤ required_size k)
              (header_eq (subst (λ v. header_of v (pos n) ≡ inr h) big g))
              (omega (arith, ltb→ge n 4 big, r))
      ]

  -- parse_message once the header is known.
  abbrev rest_of : Error ⊎ MessageHeader → List ℕ → ParseMessageResult
  rest_of r (t ∷ a ∷ b ∷ c ∷ d ∷ rest) = parse_rest endian rest r
  rest_of r bytes = more 0

  -- A body that is there, for whatever comes behind it.
  whole_Answered :
      (f : List ℕ → ParseMessageResult) (rest : List ℕ) (n missing : ℕ) (q : Error ⊎ Parsed)
      → missing ≡ 0
      → 5 ≤ n
      → n ≤ length rest
      → ((extra : List ℕ) → f (rest ++ extra) ≡ with_size n q)
      → Answered f rest missing (with_size n q)
  whole_Answered f rest n missing (inl e) m le fits same = (m, same)
  whole_Answered f rest n missing (inr p) m le fits same = (m, le, fits, same)

  rest_lem :
      (t a b c d : ℕ) (rest : List ℕ) (r : Error ⊎ MessageHeader)
      → ((h : MessageHeader) → r ≡ inr h → 5 ≤ required_size h)
      → Answered
          (rest_of r)
          (t ∷ a ∷ b ∷ c ∷ d ∷ rest)
          (missing_of (length rest + 5) r)
          (parse_rest endian rest r)
  unfolding parse_rest missing_of
  rest_lem t a b c d rest (inl e) h = (refl, λ extra. refl)
  rest_lem t a b c d rest (inr h) ok =
      let n = required_size h in
      elim (Bool-cases (ltb (length rest + 5) n)) [
        | inl short ↦ rw short (
          refl,
          omega (arith, ltb→lt _ _ short),
          λ extra lt.
              let still : ltb (length (rest ++ extra) + 5) n ≡ true =
                lt→ltb _ _ (omega (arith, length-append rest extra, lt, ltb→lt _ _ short)) in
              (n - (length (rest ++ extra) + 5), rw still refl),
        )
        | inr long ↦
            let fits = ltb→ge _ _ long in
            rw long (
              whole_Answered (rest_of (inr h)) (t ∷ a ∷ b ∷ c ∷ d ∷ rest) n 0
                (parse_any_message endian h.type (take (n - 5) rest)) refl (ok h refl)
                (omega (arith, fits))
                (λ extra.
                  let over : ltb (length (rest ++ extra) + 5) n ≡ false =
                    ge→ltb _ _ (omega (arith, length-append rest extra, fits)) in
                  let cut = take_prefix (n - 5) rest extra (omega (arith, fits)) in
                  rw (over, cut) refl))
      ]

-- Too few bytes for a header.
few :
    (endian : Endian) (bytes : List ℕ)
    → length bytes < 5
    → (k : ℕ) × (parse_message endian bytes ≡ more k)
unfolding parse_message
few endian (t ∷ a ∷ b ∷ c ∷ d ∷ rest) h = absurd (omega arith)
few endian bytes h = (_, refl)

-- An answer of parse_message, on bytes of which the header is laid out as documented. A message
-- that is complete has five bytes at least and lies within the bytes; it, or the error, stays the
-- same whatever comes behind; message_missing_bytes has nothing to add. Where more bytes are
-- needed, message_missing_bytes says the same number, and with fewer than that, more are needed still.
pub parse_message-Answered :
    (endian : Endian) (laws : EndianLaws endian) (bytes : List ℕ)
    → All IsByte bytes
    → Answered
        (parse_message endian)
        bytes
        (message_missing_bytes endian bytes)
        (parse_message endian bytes)
unfolding parse_message message_missing_bytes
parse_message-Answered endian laws [] h =
    (refl, omega arith, λ extra lt. few endian ([] ++ extra) (omega arith))
parse_message-Answered endian laws (t ∷ []) h =
    (refl, omega arith, λ extra lt. few endian ((t ∷ []) ++ extra) (omega arith))
parse_message-Answered endian laws (t ∷ a ∷ []) h =
    (refl, omega arith, λ extra lt. few endian ((t ∷ a ∷ []) ++ extra) (omega arith))
parse_message-Answered endian laws (t ∷ a ∷ b ∷ []) h =
    (refl, omega arith, λ extra lt. few endian ((t ∷ a ∷ b ∷ []) ++ extra) (omega arith))
parse_message-Answered endian laws (t ∷ a ∷ b ∷ c ∷ []) h =
    (refl, omega arith, λ extra lt. few endian ((t ∷ a ∷ b ∷ c ∷ []) ++ extra) (omega arith))
parse_message-Answered endian laws (t ∷ a ∷ b ∷ c ∷ d ∷ rest) h =
    rest_lem endian laws t a b c d rest (parse_header endian t a b c d)
      (λ k e. header_size endian laws t a b c d h.1.0 h.1.1.0 h.1.1.1.0 h.1.1.1.1.0 e)
