-- ===== src/Wire/Frames.antt =====
-- What a serialized message is: a frame of a type, a length and a body.
use nativepg.Prelude.{
  ℕ, ◌+◌, ◌-◌, ◌%◌, ◌^◌, ◌<◌, ◌≤◌, ◌≡◌, ◌∙◌, refl, sym, ap, ap₂, ℤ, pos, List, [], ◌∷◌, ◌++◌, none,
  some, arith, length, length-append, drop, take-append_length, drop-append_length, drop-drop, true,
  false, append_assoc, append-nil, ltb, leb, le→leb,
}
use nativepg.Wire.{
  SerializationContext, add_int32, serialization_context, overwrite, Endian, EndianLaws,
  finalize_message, int32_max,
}
use nativepg.Wire.Messages.{
  FrontendMessage, describe, close, parse, copy_fail, copy_done, flush, sync, terminate, execute,
  password, query, portal_or_statement_char, serialize, serialize_query, serialize_parse,
  serialize_header_only, add_oids,
}

-- The type of a message, and its body, as the protocol describes them.
abbrev pub type_of : FrontendMessage → ℕ
type_of (describe t n) = b'D'
type_of (close t n) = b'C'
type_of (parse n q o) = b'P'
type_of (copy_fail m) = b'f'
type_of copy_done = b'c'
type_of flush = b'H'
type_of sync = b'S'
type_of terminate = b'X'
type_of (execute p n) = b'E'
type_of (password p) = b'p'
type_of (query q) = b'Q'

abbrev pub c_string : List ℕ → List ℕ
c_string s = s ++ (0 ∷ [])

-- A parse message has at most 2 ^ 15 - 1 parameters.
abbrev pub Counted : FrontendMessage → Type 0
Counted (parse n q oids) = length oids < 2 ^ 15
Counted _ = Unit {0}

pub overwrite-append :
    (xs old bytes ys : List ℕ)
    → length old ≡ length bytes
    → overwrite (length xs) bytes (xs ++ (old ++ ys)) ≡ some (xs ++ (bytes ++ ys))
unfolding overwrite
overwrite-append xs old bytes ys h = rw (fits, take-append_length xs (old ++ ys), behind) refl
  where
    fits : leb (length xs + length bytes) (length (xs ++ (old ++ ys))) ≡ true
    fits = le→leb _ _ (omega (arith, length-append xs (old ++ ys), length-append old ys, h))

    behind : drop (length xs + length bytes) (xs ++ (old ++ ys)) ≡ ys
    behind =
        sym (drop-drop (length bytes) (length xs) (xs ++ (old ++ ys)))
        ∙ ap (drop (length bytes)) (drop-append_length xs (old ++ ys))
        ∙ ap (λ n. drop n (old ++ ys)) (sym h)
        ∙ drop-append_length old ys

abbrev zeros : List ℕ
zeros = 0 ∷ 0 ∷ 0 ∷ 0 ∷ []

abbrev pub blank : List ℕ → List ℕ
blank body = 0 ∷ 0 ∷ 0 ∷ 0 ∷ body

few : (n : ℕ) → n < 2 ^ 15 → ltb (2 ^ 15 - 1) n ≡ false
few n h = ground arith

module _ (endian : Endian) where
  abbrev pub frame : ℕ → List ℕ → List ℕ
  frame t body = t ∷ (endian.store_big_s32 (pos (4 + length body)) ++ body)

  abbrev pub int32s : List ℤ → List ℕ
  int32s [] = []
  int32s (z ∷ zs) = endian.store_big_s32 z ++ int32s zs

  abbrev pub body_of : FrontendMessage → List ℕ
  body_of (describe t n) = portal_or_statement_char t ∷ c_string n
  body_of (close t n) = portal_or_statement_char t ∷ c_string n
  body_of (parse n q oids) =
      c_string n ++ (c_string q ++ (endian.store_big_s16 (pos (length oids)) ++ int32s oids))
  body_of (copy_fail m) = c_string m
  body_of copy_done = []
  body_of flush = []
  body_of sync = []
  body_of terminate = []
  body_of (execute p n) = c_string p ++ endian.store_big_s32 n
  body_of (password p) = c_string p
  body_of (query q) = c_string q

module _ (endian : Endian) (laws : EndianLaws endian) where
  store_length :
      (to body : List ℕ) (t : ℕ) (z : ℤ)
      → overwrite (length to + 1) (endian.store_big_s32 z) (to ++ (t ∷ blank body))
        ≡ some (to ++ (t ∷ (endian.store_big_s32 z ++ body)))
  store_length to body t z =
      ap₂ (λ n l. overwrite n (endian.store_big_s32 z) l) (omega (arith, length-append to (t ∷ [])))
        (sym (append_assoc to (t ∷ []) (blank body)))
      ∙ overwrite-append (to ++ (t ∷ [])) zeros (endian.store_big_s32 z) body
          (sym (laws.store_size z))
      ∙ ap some (append_assoc to (t ∷ []) (endian.store_big_s32 z ++ body))

  pub finalize-frame :
      (buffer to body : List ℕ) (t : ℕ)
      → buffer ≡ to ++ (t ∷ blank body)
      → length to < 2 ^ 62
      → 4 + length body ≤ int32_max
      → finalize_message endian (record { buffer = buffer; header_offset = length to; err = none })
        ≡ some (none, to ++ frame endian t body)
  unfolding finalize_message
  finalize-frame buffer to body t h hs hl =
      rw (h, size, at, small, store_length to body t (pos (4 + length body))) refl
    where
      at : (length to + 1) % 2 ^ 64 ≡ length to + 1
      at = omega arith

      size :
          (length (to ++ (t ∷ blank body)) + (2 ^ 64 - length to) + (2 ^ 64 - 1)) % 2 ^ 64
          ≡ 4 + length body
      size = omega (arith, length-append to (t ∷ blank body))

      small : ltb int32_max (4 + length body) ≡ false
      small = ground arith

  header_frame :
      (t : ℕ) (to : List ℕ)
      → serialize_header_only endian t to ≡ some (none, to ++ frame endian t [])
  unfolding serialize_header_only
  header_frame t to =
      ap (λ l. some (none, to ++ (t ∷ l))) (sym (append-nil (endian.store_big_s32 (pos 4))))

  oids_lem :
      (zs : List ℤ) (c : SerializationContext)
      → add_oids endian zs c ≡ record c { buffer = c.buffer ++ int32s endian zs }
  oids_lem [] c = ap (λ b. record c { buffer = b }) (sym (append-nil c.buffer))
  oids_lem (z ∷ zs) c =
      oids_lem zs (add_int32 endian z c)
      ∙ ap (λ b. record c { buffer = b })
          (append_assoc c.buffer (endian.store_big_s32 z) (int32s endian zs))

  parse-frame :
      (n q : List ℕ) (oids : List ℤ) (to : List ℕ)
      → length oids < 2 ^ 15
      → 4 + length (body_of endian (parse n q oids)) ≤ int32_max
      → length to < 2 ^ 62
      → serialize_parse endian n q oids to
        ≡ some (none, to ++ frame endian b'P' (body_of endian (parse n q oids)))
  unfolding serialize_parse serialization_context
  parse-frame n q oids to k h s =
      rw (few (length oids) k, oids_lem)
        (finalize-frame _ to (body_of endian (parse n q oids)) b'P' (simp append_assoc) s h)

  -- Where integers are stored as documented, for a describe, close, parse, copy_fail, copy_done,
  -- flush, sync, terminate, execute, password or query message of the client whose body and number
  -- of parameter types fit, and a buffer that memory can hold: serialize reports success and appends
  -- the frame of the message's type, its length and its body, and keeps what the buffer held.
  pub serialize-frame :
      (m : FrontendMessage) (to : List ℕ)
      → Counted m
      → 4 + length (body_of endian m) ≤ int32_max
      → length to < 2 ^ 62
      → serialize endian m to ≡ some (none, to ++ frame endian (type_of m) (body_of endian m))
  unfolding serialize serialize_query serialization_context
  serialize-frame (describe t n) to k h s =
      finalize-frame _ to (body_of endian (describe t n)) b'D' (simp append_assoc) s h
  serialize-frame (close t n) to k h s =
      finalize-frame _ to (body_of endian (close t n)) b'C' (simp append_assoc) s h
  serialize-frame (parse n q oids) to k h s = parse-frame n q oids to k h s
  serialize-frame (copy_fail m) to k h s =
      finalize-frame _ to (body_of endian (copy_fail m)) b'f' (simp append_assoc) s h
  serialize-frame copy_done to k h s =
      finalize-frame _ to [] b'c' (append_assoc to (b'c' ∷ []) zeros) s h
  serialize-frame flush to k h s = header_frame b'H' to
  serialize-frame sync to k h s = header_frame b'S' to
  serialize-frame terminate to k h s = header_frame b'X' to
  serialize-frame (execute p n) to k h s =
      finalize-frame _ to (body_of endian (execute p n)) b'E' (simp append_assoc) s h
  serialize-frame (password p) to k h s =
      finalize-frame _ to (body_of endian (password p)) b'p' (simp append_assoc) s h
  serialize-frame (query q) to k h s =
      finalize-frame _ to (body_of endian (query q)) b'Q' (simp append_assoc) s h
