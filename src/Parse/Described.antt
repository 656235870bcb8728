-- ===== src/Parse/Described.antt =====
-- The field descriptions of a row and the strings of a list, walked: row_description and
-- negotiate_protocol_version of src/messages.cpp.
use nativepg.Prelude.{
  ℕ, zero, suc, ◌-◌, ◌≤◌, ◌≡◌, refl, ap, subst, ℤ, Bool, true, false, not, List, [], ◌∷◌, none,
  some, inl, inr, if◌then◌else◌, length, drop, ltb, leb, length-drop, drop-drop, arith, Bool-cases,
}
use nativepg.Protocol.{client, protocol_value_error, incomplete_message}
use nativepg.Wire.{Endian}
use nativepg.Parse.{
  ParseContext, parse_context, incomplete, add_error, get_int16, get_string, check_size_and_advance,
  check, split_string,
}
use nativepg.Parse.Strings.{split_string-cases, length-split_string}
use nativepg.Parse.Views.{
  walk, string_traits, description_traits, description_at, FieldDescription, unchecked_int16,
  unchecked_int32, description_dereference, description_advance, behind_string, skip,
}
use nativepg.Parse.Sticky.{
  HasFailed, added, check_failed, get_int16_failed, get_string_failed, check_size_failed,
  add_error_failed,
}
use nativepg.Parse.Bodies.{
  get_strings, descriptions_loop, add_error_if, is_valid_format_code, format_code,
}
use nativepg.Parse.Walks.{Walks, walk-cons}

pub get_strings_failed : (n : ℕ) (c : ParseContext) → HasFailed c → HasFailed (get_strings n c).1
get_strings_failed zero c h = h
get_strings_failed (suc n) c h = get_strings_failed n _ (get_string_failed c h)

strings_not_failed : (n : ℕ) (c : ParseContext) → check (get_strings n c).1 ≡ none → ¬ HasFailed c
strings_not_failed n c h f = check_failed _ (get_strings_failed n c f) h

-- What get_string does, by what split_string finds.
pub get_string-some :
    (rest : List ℕ) {s r : List ℕ}
    → split_string rest ≡ some (s, r)
    → get_string (parse_context rest) ≡ (s, parse_context r)
unfolding get_string
get_string-some rest e = rw e refl

pub get_string-none :
    (rest : List ℕ)
    → split_string rest ≡ none
    → get_string (parse_context rest) ≡ ([], incomplete (parse_context rest))
unfolding get_string
get_string-none rest e = rw e refl

dereferenced :
    (bytes : List ℕ) {s r : List ℕ}
    → split_string bytes ≡ some (s, r)
    → string_traits.dereference bytes ≡ some s
unfolding string_traits
dereferenced bytes e = ground arith

advanced :
    (bytes : List ℕ) {s r : List ℕ}
    → split_string bytes ≡ some (s, r)
    → string_traits.advance bytes ≡ some r
unfolding string_traits
advanced bytes e = ground arith

pub string_walk-cons :
    (fuel n : ℕ) (rest : List ℕ) {s r : List ℕ}
    → split_string rest ≡ some (s, r)
    → Walks string_traits fuel r n
    → Walks string_traits (suc fuel) rest (suc n)
unfolding string_traits
string_walk-cons fuel n rest {s} {r} e (xs, w, len) = (
  s ∷ xs,
  walk-cons string_traits fuel rest r s xs (omega (arith, length-split_string rest e))
      (dereferenced rest e) (advanced rest e) w,
  ap suc len,
)

pub strings_walk :
    (n fuel : ℕ) (rest : List ℕ)
    → length rest ≤ fuel
    → check (get_strings n (parse_context rest)).1 ≡ none
    → Walks string_traits fuel rest n
unfolding walk check
strings_walk zero fuel [] le h = ([], refl, refl)
strings_walk zero fuel (b ∷ rest) le h = cc
strings_walk (suc n) fuel rest le h = elim (split_string-cases rest) [
  | inl e ↦ absurd (
      strings_not_failed n (incomplete (parse_context rest))
        (subst (λ p. check (get_strings n p.1).1 ≡ none) (get_string-none rest e) h)
        (added none (client incomplete_message)))
  | inr (s, r, e, eq, nz) ↦
      let h' = subst (λ p. check (get_strings n p.1).1 ≡ none) (get_string-some rest e) h in
      let len = length-split_string rest e in
      let w = strings_walk n (fuel - 1) r (omega (arith, len)) h' in
      let more : fuel ≡ suc (fuel - 1) = omega (arith, len) in
      rw more (string_walk-cons (fuel - 1) n rest e w)
]

module _ (endian : Endian) where
  pub add_error_if_failed :
      (b : Bool) (c : ParseContext) → HasFailed c → HasFailed (add_error_if b c).1
  add_error_if_failed true c h = add_error_failed _ c h
  add_error_if_failed false c h = h

  pub descriptions_loop_failed :
      (n : ℕ) (c : ParseContext) → HasFailed c → HasFailed (descriptions_loop endian n c).1
  unfolding descriptions_loop
  descriptions_loop_failed zero c h = h
  descriptions_loop_failed (suc n) c h = descriptions_loop_failed n _ (
      add_error_if_failed _ _
        (get_int16_failed endian _ (check_size_failed 16 _ (get_string_failed c h))))

  descriptions_not_failed :
      (n : ℕ) (c : ParseContext) → check (descriptions_loop endian n c).1 ≡ none → ¬ HasFailed c
  descriptions_not_failed n c h f = check_failed _ (descriptions_loop_failed n c f) h

  -- The rest of a round, from the format code on.
  from_code : ℕ → ParseContext → ParseContext
  from_code n c =
      let (z, c') = get_int16 endian c in
      (descriptions_loop endian n
        (add_error_if (not (is_valid_format_code (format_code z))) c').1).1

  from_code_failed : (n : ℕ) (c : ParseContext) → HasFailed c → HasFailed (from_code n c)
  unfolding from_code
  from_code_failed n c h =
      descriptions_loop_failed n _ (add_error_if_failed _ _ (get_int16_failed endian c h))

  code_lem :
      (n : ℕ) (q : List ℕ)
      → check (from_code n (parse_context q)) ≡ none
      → (2 ≤ length q) × (check (descriptions_loop endian n (parse_context (drop 2 q))).1 ≡ none)
  unfolding from_code get_int16 add_error
  code_lem n (a ∷ b ∷ q) h =
      let z = endian.load_big_s16 a b in
      elim (Bool-cases (not (is_valid_format_code (format_code z)))) [
        | inl bad ↦ absurd (
            descriptions_not_failed n (add_error_if true (parse_context q)).1
              (subst
                (λ v.
                  check (descriptions_loop endian n (add_error_if v (parse_context q)).1).1 ≡ none)
                bad h)
              (added none (client protocol_value_error)))
        | inr good ↦ (
          omega arith,
          subst
              (λ v.
                check (descriptions_loop endian n (add_error_if v (parse_context q)).1).1 ≡ none)
              good h,
        )
      ]
  code_lem n q h = absurd (
      descriptions_not_failed n _ h
        (add_error_if_failed _ _ (added none (client incomplete_message))))

  fixed_lem :
      (n : ℕ) (r : List ℕ)
      → check (from_code n (check_size_and_advance 16 (parse_context r)).1) ≡ none
      → (18 ≤ length r) × (check (descriptions_loop endian n (parse_context (drop 18 r))).1 ≡ none)
  unfolding check_size_and_advance
  fixed_lem n r h = elim (Bool-cases (ltb (length r) 16)) [
    | inl short ↦ absurd (
        check_failed _
          (from_code_failed n (incomplete (parse_context r))
            (added none (client incomplete_message)))
          (subst
            (λ b.
              check (
                from_code n (if b then incomplete (parse_context r) else parse_context (drop 16 r)))
              ≡ none)
            short h))
    | inr long ↦
        let (two, h') = code_lem n (drop 16 r) (
          subst
            (λ b.
              check (
                from_code n (if b then incomplete (parse_context r) else parse_context (drop 16 r)))
              ≡ none)
            long h) in
        (
          omega (arith, length-drop 16 r),
          subst (λ q. check (descriptions_loop endian n (parse_context q)).1 ≡ none)
              (drop-drop 2 16 r) h',
        )
  ]

  -- A description is there where its bytes are.
  int32_there :
      (bytes : List ℕ)
      → 4 ≤ length bytes
      → (z : ℤ) × (unchecked_int32 endian bytes ≡ some (z, drop 4 bytes))
  int32_there (a ∷ b ∷ c ∷ d ∷ bytes) h = (_, refl)
  int32_there bytes h = absurd (omega arith)

  int16_there :
      (bytes : List ℕ)
      → 2 ≤ length bytes
      → (z : ℤ) × (unchecked_int16 endian bytes ≡ some (z, drop 2 bytes))
  int16_there (a ∷ b ∷ bytes) h = (_, refl)
  int16_there bytes h = absurd (omega arith)

  description_there :
      (s r : List ℕ)
      → 18 ≤ length r
      → (x : FieldDescription) × (description_at endian (s, r) ≡ some x)
  description_there s r h =
      let (z0, e0) = int32_there r (omega arith) in
      let r1 = drop 4 r in
      let l1 = length-drop 4 r in
      let (z1, e1) = int16_there r1 (omega (arith, l1)) in
      let r2 = drop 2 r1 in
      let l2 = length-drop 2 r1 in
      let (z2, e2) = int32_there r2 (omega (arith, l1, l2)) in
      let r3 = drop 4 r2 in
      let l3 = length-drop 4 r2 in
      let (z3, e3) = int16_there r3 (omega (arith, l1, l2, l3)) in
      let r4 = drop 2 r3 in
      let l4 = length-drop 2 r3 in
      let (z4, e4) = int32_there r4 (omega (arith, l1, l2, l3, l4)) in
      let r5 = drop 4 r4 in
      let l5 = length-drop 4 r4 in
      let (z5, e5) = int16_there r5 (omega (arith, l1, l2, l3, l4, l5)) in
      (
        record {
          name = s;
          table_oid = z0;
          column_attribute = z1;
          type_oid = z2;
          type_length = z3;
          type_modifier = z4;
          fmt_code = z5;
        },
        rw (e0, e1, e2, e3, e4, e5) refl,
      )

  pub descriptions_walk :
      (n fuel : ℕ) (rest : List ℕ)
      → length rest ≤ fuel
      → check (descriptions_loop endian n (parse_context rest)).1 ≡ none
      → Walks (description_traits endian) fuel rest n
  unfolding walk check descriptions_loop description_traits from_code
  descriptions_walk zero fuel [] le h = ([], refl, refl)
  descriptions_walk zero fuel (b ∷ rest) le h = cc
  descriptions_walk (suc n) fuel rest le h = elim (split_string-cases rest) [
    | inl e ↦ absurd (
        check_failed (from_code n (check_size_and_advance 16 (incomplete (parse_context rest))).1)
          (from_code_failed n ((check_size_and_advance 16 (incomplete (parse_context rest))).1) (
            check_size_failed 16 (incomplete (parse_context rest))
              (added none (client incomplete_message))))
          (subst (λ p. check (from_code n (check_size_and_advance 16 p.1).1) ≡ none)
            (get_string-none rest e) h))
    | inr (s, r, e, eq, nz) ↦
        let (there, h') = fixed_lem n r (
          subst (λ p. check (from_code n (check_size_and_advance 16 p.1).1) ≡ none)
            (get_string-some rest e) h) in
        let len = length-split_string rest e in
        let (xs, w, count) =
          descriptions_walk n (fuel - 1) (drop 18 r) (omega (arith, len, length-drop 18 r)) h' in
        let (x, d) = description_there s r there in
        let fits : leb 18 (length r) ≡ true = ground arith in
        let more : fuel ≡ suc (fuel - 1) = omega (arith, len) in
        rw more (
          x ∷ xs,
          walk-cons (description_traits endian) (fuel - 1) rest (drop 18 r) x xs
              (omega (arith, len)) (rw (description_dereference, e) d)
              (rw (description_advance, behind_string, e) (rw (skip, fits) refl)) w,
          ap suc count,
        )
  ]
