-- ===== src/Parse/Accepted.antt =====
-- parse_any_message of src/messages.cpp against the views: whatever bytes come from the server, a
-- message that is accepted can be read by the unchecked functions.
use nativepg.Prelude.{
  ℕ, ◌-◌, ◌<◌, ◌≤◌, ◌≡◌, refl, ap, sym, ◌∙◌, subst, ℤ, pos, true, List, [], ◌∷◌, ◌++◌, Option, none,
  some, inr, length, take, arith, take-append_length, length-append, ltb, lt→ltb,
}
use nativepg.Protocol.{ErrorCode}
use nativepg.Wire.{Endian}
use nativepg.Wire.Bind.{FormatCode, text}
use nativepg.Parse.{
  ParseContext, Parser, parse_context, check, get_byte, get_nonnegative_int16,
  get_nonnegative_int32,
}
use nativepg.Parse.Messages.{AnyBackendMessage, ForwardView, NegotiateProtocolVersion, CopyResponse}
use nativepg.Parse.Views.{
  ForwardTraits, field_traits, description_traits, string_traits, format_code_at,
}
use nativepg.Parse.Sticky.{HasFailed, kept, check_failed, check-eq-none}
use nativepg.Parse.Bodies.{
  data_row_parser, row_description_parser, negotiate_parser, sasl_parser, copy_parser, run_parser,
  finish_with, span_between, columns_loop, parse_data_row, descriptions_loop, parse_row_description,
  get_strings, parse_negotiate_protocol_version, parse_authentication_sasl, strings_loop,
  parse_copy_response, copy_response_of, format_code, is_text,
}
use nativepg.Parse.Walks.{Walks, columns_walk, columns_loop_failed}
use nativepg.Parse.Described.{
  strings_walk, get_strings_failed, descriptions_walk, descriptions_loop_failed,
}
use nativepg.Parse.Lists.{strings_loop_lem, codes_checked}

-- A view is walked from begin() to end(), within its bytes, in size() steps.
abbrev pub IsWalkable : {T : Type 0} → ForwardTraits T → ForwardView → Type 0
IsWalkable traits view = Walks traits (length view.span) view.span view.size

run_parser-eq-inr :
    {A : Type 0} (m : Parser A) (body : List ℕ) {v : A}
    → run_parser m body ≡ inr v
    → (check (m (parse_context body)).1 ≡ none) × ((m (parse_context body)).0 ≡ v)
run_parser-eq-inr {A} m body {v} h =
    finished (check (m (parse_context body)).1) (m (parse_context body)).0 h
  where
    finished : (ec : ErrorCode) (a : A) → finish_with ec a ≡ inr v → (ec ≡ none) × (a ≡ v)
    finished none a g = ground arith
    finished (some e) a g = cc

take-length : {A : Type 0} (xs : List A) → take (length xs) xs ≡ xs
take-length [] = refl
take-length (x ∷ xs) = ap (λ l. x ∷ l) (take-length xs)

-- A span up to the end.
pub span_all : (begin end : List ℕ) → end ≡ [] → span_between begin end ≡ begin
span_all begin end e =
    ap (λ l. span_between begin l) e ∙ ap (λ n. take n begin) (omega arith) ∙ take-length begin

-- The span of the mechanisms stops in front of the last byte.
before_end :
    (body span rest : List ℕ)
    → rest ≡ []
    → body ≡ span ++ (0 ∷ [])
    → take (length body - length rest - 1) body ≡ span
before_end body span rest e eq =
    ap (λ l. take (length body - length l - 1) body) e
    ∙ ap (λ b. take (length b - 0 - 1) b) eq
    ∙ ap (λ n. take n (span ++ (0 ∷ []))) (omega (arith, length-append span (0 ∷ [])))
    ∙ take-append_length span (0 ∷ [])

module _ {T : Type 0} (traits : ForwardTraits T) (loop : ℕ → Parser (Unit {0}))
    (sticky : (n : ℕ) (c : ParseContext) → HasFailed c → HasFailed (loop n c).1)
    (walked : (n fuel : ℕ) (rest : List ℕ)
      → length rest ≤ fuel
      → check (loop n (parse_context rest)).1 ≡ none
      → Walks traits fuel rest n) where
  -- The view that is made of what a checked loop has passed.
  counted_view :
      (n : ℕ) (c : ParseContext)
      → check (loop n c).1 ≡ none
      → IsWalkable traits (record { size = n; span = span_between c.rest (loop n c).1.rest })
  counted_view n c h = by_error c.err c.rest h
    where
      by_error :
          (err : ErrorCode) (rest : List ℕ)
          → check (loop n (record { rest = rest; err = err })).1 ≡ none
          → IsWalkable traits (record {
            size = n;
            span = span_between rest (loop n (record { rest = rest; err = err })).1.rest;
          })
      by_error none rest g =
          let (ended, ok) = check-eq-none _ g in
          subst (λ l. Walks traits (length l) l n) (sym (span_all rest _ ended))
            (walked n (length rest) rest (omega arith) g)
      by_error (some e) rest g = absurd (check_failed _ (sticky n _ (kept e rest)) g)

-- The items of a message can be read: a view is walked in size() steps, and each format code is
-- there, is valid, and is text where the whole is text.
abbrev pub AllCodes : Endian → CopyResponse → Type 0
AllCodes endian r =
    (i : ℕ)
    → i < r.fmt_codes.size
    → (z : ℤ) × (code : FormatCode) × (format_code_at endian r.fmt_codes i ≡ some (some z))
      × (format_code z ≡ some code)
      × (r.overall_fmt_code ≡ text → code ≡ text)

abbrev pub IsReadable : Endian → AnyBackendMessage → Type 0
IsReadable endian (AnyBackendMessage.data_row v) = IsWalkable (field_traits endian) v
IsReadable endian (AnyBackendMessage.row_description v) = IsWalkable (description_traits endian) v
IsReadable endian (AnyBackendMessage.authentication_sasl v) = IsWalkable string_traits v
IsReadable endian (AnyBackendMessage.negotiate_protocol_version r) =
    IsWalkable string_traits r.non_recognized_options
IsReadable endian (AnyBackendMessage.copy_in_response r) = AllCodes endian r
IsReadable endian (AnyBackendMessage.copy_out_response r) = AllCodes endian r
IsReadable endian (AnyBackendMessage.copy_both_response r) = AllCodes endian r
IsReadable endian _ = Unit {0}

pub sasl-IsWalkable :
    (body : List ℕ) {v : ForwardView}
    → parse_authentication_sasl body ≡ inr v
    → IsWalkable string_traits v
unfolding parse_authentication_sasl sasl_parser
sasl-IsWalkable body h =
    let (g, made) = run_parser-eq-inr (sasl_parser (length body)) body h in
    let (ended, ok) = check-eq-none _ g in
    let (span, n, eq, counted, w) = strings_loop_lem (length body) 0 body (omega arith) g in
    let (xs, walked, len) = w (length span) (omega arith) in
    subst (IsWalkable string_traits) made (
      subst
        (λ l.
          Walks string_traits (length l) l (strings_loop (length body) 0 (parse_context body)).0)
        (sym (before_end body span _ ended eq)) (xs, walked, len ∙ omega (arith, counted)))

module _ (endian : Endian) where
  pub data_row-IsWalkable :
      (body : List ℕ) {v : ForwardView}
      → parse_data_row endian body ≡ inr v
      → IsWalkable (field_traits endian) v
  unfolding parse_data_row data_row_parser
  data_row-IsWalkable body h =
      let (g, made) = run_parser-eq-inr (data_row_parser endian) body h in
      let (n, c) = get_nonnegative_int16 endian (parse_context body) in
      subst (IsWalkable (field_traits endian)) made (
        counted_view (field_traits endian) (columns_loop endian) (columns_loop_failed endian)
          (columns_walk endian) n c g)

  pub row_description-IsWalkable :
      (body : List ℕ) {v : ForwardView}
      → parse_row_description endian body ≡ inr v
      → IsWalkable (description_traits endian) v
  unfolding parse_row_description row_description_parser
  row_description-IsWalkable body h =
      let (g, made) = run_parser-eq-inr (row_description_parser endian) body h in
      let (n, c) = get_nonnegative_int16 endian (parse_context body) in
      subst (IsWalkable (description_traits endian)) made (
        counted_view (description_traits endian) (descriptions_loop endian)
          (descriptions_loop_failed endian) (descriptions_walk endian) n c g)

  pub negotiate-IsWalkable :
      (body : List ℕ) {v : NegotiateProtocolVersion}
      → parse_negotiate_protocol_version endian body ≡ inr v
      → IsWalkable string_traits v.non_recognized_options
  unfolding parse_negotiate_protocol_version negotiate_parser
  negotiate-IsWalkable body h =
      let (g, made) = run_parser-eq-inr (negotiate_parser endian) body h in
      let (minor, c) = get_nonnegative_int32 endian (parse_context body) in
      let (n, c') = get_nonnegative_int32 endian c in
      subst (λ r. IsWalkable string_traits r.non_recognized_options) made
        (counted_view string_traits get_strings get_strings_failed strings_walk n c' g)

  pub copy-AllCodes :
      (body : List ℕ) {r : CopyResponse}
      → parse_copy_response endian body ≡ inr r
      → AllCodes endian r
  unfolding parse_copy_response copy_parser copy_response_of format_code_at
  copy-AllCodes body h =
      let (g, made) = run_parser-eq-inr (copy_parser endian) body h in
      let (b, c) = get_byte (parse_context body) in
      subst (AllCodes endian) made (response-AllCodes (format_code (pos b)) c g)
    where
      response-AllCodes :
          (o : Option FormatCode) (c : ParseContext)
          → check (copy_response_of endian o c).1 ≡ none
          → AllCodes endian (copy_response_of endian o c).0
      response-AllCodes none c g i lt = elim lt [ ]
      response-AllCodes (some code) c g i lt =
          let (n, c') = get_nonnegative_int16 endian c in
          let (z, more, found, u, f, is) = codes_checked endian (is_text (some code)) n c' g i lt in
          let inside : ltb i n ≡ true = lt→ltb i n lt in
          (z, found, rw (inside, u) refl, f, λ e. is (ap (λ k. is_text (some k)) e))
