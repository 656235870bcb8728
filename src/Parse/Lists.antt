-- ===== src/Parse/Lists.antt =====
-- The two lists of other shapes: the mechanisms of authentication_sasl, which an empty string ends,
-- and the format codes of the copy responses, which random_access_parsing_view reads (src/messages.cpp).
use nativepg.Prelude.{
  ℕ, zero, suc, ◌+◌, ◌-◌, ◌*◌, ◌<◌, ◌≤◌, ◌≡◌, ◌≢◌, refl, ap, sym, ◌∙◌, subst, ℤ, pos, Bool, true,
  false, not, ◌&&◌, ◌||◌, List, [], ◌∷◌, ◌++◌, none, some, inl, inr, if◌then◌else◌, length, drop,
  drop-drop, length-append, append_assoc, arith, Bool-cases,
}
use nativepg.Protocol.{ErrorCode, client, protocol_value_error, incomplete_message}
use nativepg.Wire.{Endian}
use nativepg.Wire.Bind.{FormatCode, text, binary}
use nativepg.Parse.{
  ParseContext, parse_context, return, incomplete, add_error, get_int16, get_string, check,
  split_string,
}
use nativepg.Parse.Strings.{NoZero, split_string-cases, split_string-append, length-split_string}
use nativepg.Parse.Views.{walk, string_traits, unchecked_int16}
use nativepg.Parse.Sticky.{HasFailed, added, kept, check_failed, check-eq-none, get_int16_failed}
use nativepg.Parse.Bodies.{
  is_empty, strings_loop, fmt_codes_loop, add_error_if, format_code, is_text, is_valid_format_code,
}
use nativepg.Parse.Walks.{Walks}
use nativepg.Parse.Described.{
  get_string-some, get_string-none, string_walk-cons, add_error_if_failed,
}

-- The strings in front of the empty one, and what was counted.
abbrev pub Listed : List ℕ → ℕ → ℕ → Type 0
Listed rest before counted =
    (span : List ℕ) × (n : ℕ) × (rest ≡ span ++ (0 ∷ []))
    × (counted ≡ before + n)
    × ((f : ℕ) → length span ≤ f → Walks string_traits f span n)

-- What a round makes of the string that it got.
abbrev after : ℕ → ℕ → List ℕ × ParseContext → ℕ × ParseContext
after fuel k p = (if is_empty p.0 then return k else strings_loop fuel (k + 1)) p.1

loop_missing :
    (fuel k : ℕ) (rest : List ℕ)
    → split_string rest ≡ none
    → check (strings_loop fuel k (parse_context rest)).1 ≢ none
unfolding strings_loop
loop_missing zero k rest e h =
    check_failed (incomplete (parse_context rest)) (added none (client incomplete_message))
      (subst (λ p. check p.1 ≡ none) (get_string-none rest e) h)
loop_missing (suc fuel) k rest e h =
    check_failed (incomplete (parse_context rest)) (added none (client incomplete_message))
      (subst (λ p. check (after fuel k p).1 ≡ none) (get_string-none rest e) h)

strings_end : (r : List ℕ) (k : ℕ) → r ≡ [] → Listed (0 ∷ r) k k
unfolding walk
strings_end r k e = ([], 0, ap (λ l. 0 ∷ l) e, omega arith, λ f le. ([], walked f, refl))
  where
    walked : (f : ℕ) → walk string_traits f [] ≡ some []
    walked f = refl

strings_more :
    (s r : List ℕ) (k counted : ℕ)
    → NoZero s
    → Listed r (k + 1) counted
    → Listed (s ++ (0 ∷ r)) k counted
strings_more s r k counted nz (span, n, eq, c, w) = (
  s ++ (0 ∷ span),
  suc n,
  ap (λ l. s ++ (0 ∷ l)) eq ∙ sym (append_assoc s (0 ∷ span) (0 ∷ [])),
  omega (arith, c),
  λ f le.
      let len = length-append s (0 ∷ span) in
      let rest_walk = w (f - 1) (omega (arith, le, len)) in
      let more : f ≡ suc (f - 1) = omega (arith, le, len) in
      rw more
        (string_walk-cons (f - 1) n (s ++ (0 ∷ span)) (split_string-append s span nz) rest_walk),
)

module _ (fuel k : ℕ) (rest : List ℕ) where
  -- A round that found a string.
  loop_found :
      (s r : List ℕ)
      → length rest ≤ suc fuel
      → split_string rest ≡ some (s, r)
      → rest ≡ s ++ (0 ∷ r)
      → NoZero s
      → ((k' : ℕ)
          → length r ≤ fuel
          → check (strings_loop fuel k' (parse_context r)).1 ≡ none
          → Listed r k' (strings_loop fuel k' (parse_context r)).0)
      → check (strings_loop (suc fuel) k (parse_context rest)).1 ≡ none
      → Listed rest k (strings_loop (suc fuel) k (parse_context rest)).0
  unfolding strings_loop
  loop_found [] r le e eq nz ih h =
      let g = get_string-some rest e in
      let done =
        check-eq-none (parse_context r) (subst (λ p. check (after fuel k p).1 ≡ none) g h) in
      subst (λ l. Listed l k (after fuel k (get_string (parse_context rest))).0) (sym eq)
        (subst (λ p. Listed (0 ∷ r) k (after fuel k p).0) (sym g) (strings_end r k done.0))
  loop_found (b ∷ s) r le e eq nz ih h =
      let g = get_string-some rest e in
      let there =
        ih (k + 1) (omega (arith, length-split_string rest e))
          (subst (λ p. check (after fuel k p).1 ≡ none) g h) in
      subst (λ l. Listed l k (after fuel k (get_string (parse_context rest))).0) (sym eq)
        (subst (λ p. Listed ((b ∷ s) ++ (0 ∷ r)) k (after fuel k p).0) (sym g)
          (strings_more (b ∷ s) r k _ nz there))

pub strings_loop_lem :
    (fuel k : ℕ) (rest : List ℕ)
    → length rest ≤ fuel
    → check (strings_loop fuel k (parse_context rest)).1 ≡ none
    → Listed rest k (strings_loop fuel k (parse_context rest)).0
strings_loop_lem zero k [] le h = absurd (loop_missing 0 k [] (unfold split_string in refl) h)
strings_loop_lem zero k (b ∷ rest) le h = elim le [ ]
strings_loop_lem (suc fuel) k rest le h = elim (split_string-cases rest) [
  | inl e ↦ absurd (loop_missing (suc fuel) k rest e h)
  | inr (s, r, e, eq, nz) ↦
      loop_found fuel k rest s r le e eq nz (λ k' le' h'. strings_loop_lem fuel k' r le' h') h
]

module _ (endian : Endian) where
  pub fmt_codes_loop_failed :
      (t : Bool) (n : ℕ) (c : ParseContext)
      → HasFailed c
      → HasFailed (fmt_codes_loop endian t n c).1
  unfolding fmt_codes_loop
  fmt_codes_loop_failed t zero c h = h
  fmt_codes_loop_failed t (suc n) c h =
      fmt_codes_loop_failed t n _ (add_error_if_failed endian _ _ (get_int16_failed endian c h))

  -- A code that is there and is valid, and text where it should be.
  abbrev pub CodeAt : Bool → ℕ → List ℕ → Type 0
  CodeAt should_be_text i bytes =
      (z : ℤ) × (more : List ℕ) × (code : FormatCode) × (unchecked_int16 endian (drop (2 * i) bytes)
        ≡ some (z, more))
      × (format_code z ≡ some code)
      × (should_be_text ≡ true → code ≡ text)

  abbrev bad_code : Bool → ℤ → Bool
  bad_code t z = t && not (is_text (format_code z)) || not (is_valid_format_code (format_code z))

  code_good :
      (t : Bool) (z : ℤ)
      → bad_code t z ≡ false
      → (code : FormatCode) × (format_code z ≡ some code) × (t ≡ true → code ≡ text)
  unfolding format_code
  code_good t (pos zero) h = (text, refl, λ e. refl)
  code_good true (pos (suc zero)) h = cc
  code_good false (pos (suc zero)) h = (binary, refl, λ e. cc)
  code_good true z h = cc
  code_good false z h = cc

  fmt_codes_not_failed :
      (t : Bool) (n : ℕ) (c : ParseContext)
      → check (fmt_codes_loop endian t n c).1 ≡ none
      → ¬ HasFailed c
  fmt_codes_not_failed t n c h f = check_failed _ (fmt_codes_loop_failed t n c f) h

  -- One round: a code is there and is good, and the loop goes on behind it.
  codes_round :
      (t : Bool) (n : ℕ) (rest : List ℕ)
      → check (fmt_codes_loop endian t (suc n) (parse_context rest)).1 ≡ none
      → CodeAt t 0 rest × (check (fmt_codes_loop endian t n (parse_context (drop 2 rest))).1 ≡ none)
  unfolding fmt_codes_loop get_int16 add_error
  codes_round t n (a ∷ b ∷ rest) h =
      let z = endian.load_big_s16 a b in
      elim (Bool-cases (bad_code t z)) [
        | inl bad ↦ absurd (
            fmt_codes_not_failed t n (add_error_if true (parse_context rest)).1
              (subst
                (λ v.
                  check (fmt_codes_loop endian t n (add_error_if v (parse_context rest)).1).1
                  ≡ none)
                bad h)
              (added none (client protocol_value_error)))
        | inr good ↦
            let (code, f, is) = code_good t z good in
            (
              (z, rest, code, refl, f, is),
              subst
                  (λ v.
                    check (fmt_codes_loop endian t n (add_error_if v (parse_context rest)).1).1
                    ≡ none)
                  good h,
            )
      ]
  codes_round t n rest h = absurd (
      fmt_codes_not_failed t n _ h
        (add_error_if_failed endian _ _ (added none (client incomplete_message))))

  pub codes_there :
      (t : Bool) (n : ℕ) (rest : List ℕ)
      → check (fmt_codes_loop endian t n (parse_context rest)).1 ≡ none
      → (i : ℕ) → i < n
      → CodeAt t i rest
  codes_there t zero rest h i lt = elim lt [ ]
  codes_there t (suc n) rest h zero lt = (codes_round t n rest h).0
  codes_there t (suc n) rest h (suc i) lt =
      let there = codes_there t n (drop 2 rest) (codes_round t n rest h).1 i (omega arith) in
      let moved : drop (2 * i) (drop 2 rest) ≡ drop (2 * suc i) rest =
        drop-drop (2 * i) 2 rest ∙ ap (λ m. drop m rest) (omega arith) in
      let (z, more, code, u, f, is) = there in (z, more, code, rw (← moved) u, f, is)

  pub codes_checked :
      (t : Bool) (n : ℕ) (c : ParseContext)
      → check (fmt_codes_loop endian t n c).1 ≡ none
      → (i : ℕ) → i < n
      → CodeAt t i c.rest
  codes_checked t n c h i lt = by_error c.err c.rest h
    where
      by_error :
          (err : ErrorCode) (rest : List ℕ)
          → check (fmt_codes_loop endian t n (record { rest = rest; err = err })).1 ≡ none
          → CodeAt t i rest
      by_error none rest g = codes_there t n rest g i lt
      by_error (some e) rest g = absurd (fmt_codes_not_failed t n _ g (kept e rest))
