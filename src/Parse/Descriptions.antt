-- ===== src/Parse/Descriptions.antt =====
-- Row descriptions as the protocol lays them out, read by parse and by the iterators of
-- row_description::field_descriptions (src/messages.cpp).
use nativepg.Prelude.{
  ℕ, suc, ◌-◌, ◌^◌, ◌≤◌, ◌<◌, ◌≡◌, refl, sym, ap, ◌∙◌, subst, ℤ, pos, true, false, not, List, [],
  ◌∷◌, ◌++◌, some, ◌⊎◌, inl, inr, length, drop, leb, All, arith, length-append, append_assoc,
  drop-append_length,
}
use nativepg.Wire.{Endian, EndianLaws, IsInt16, IsInt32}
use nativepg.Parse.{parse_context, check, check_extra_bytes, check_size_and_advance}
use nativepg.Parse.Strings.{NoZero, split_string-append}
use nativepg.Parse.Messages.{ForwardView}
use nativepg.Parse.Bodies.{
  descriptions_loop, row_description_parser, parse_row_description, format_code,
  is_valid_format_code,
}
use nativepg.Parse.Views.{
  walk, description_traits, description_at, description_dereference, description_advance,
  behind_string, skip, view_items, FieldDescription,
}
use nativepg.Parse.Walks.{walk-cons}
use nativepg.Parse.Accepted.{span_all}
use nativepg.Parse.Encoded.{
  get_int32_read, get_int16_read, get_count_read, check_size_read, get_string_read,
}

-- A description that the fields of the message can hold.
pub record IsDescription (d : FieldDescription) : Type 0 where
  pub name : NoZero d.name
  pub table_oid : IsInt32 d.table_oid
  pub column_attribute : IsInt16 d.column_attribute
  pub type_oid : IsInt32 d.type_oid
  pub type_length : IsInt16 d.type_length
  pub type_modifier : IsInt32 d.type_modifier
  pub fmt_code : (d.fmt_code ≡ pos 0) ⊎ (d.fmt_code ≡ pos 1)

module _ (endian : Endian) where
  abbrev pub fixed_fields : FieldDescription → List ℕ
  fixed_fields d =
      endian.store_big_s32 d.table_oid
      ++ (endian.store_big_s16 d.column_attribute
          ++ (endian.store_big_s32 d.type_oid
              ++ (endian.store_big_s16 d.type_length ++ endian.store_big_s32 d.type_modifier)))

  abbrev pub descriptions : List FieldDescription → List ℕ
  descriptions [] = []
  descriptions (d ∷ ds) =
      d.name ++ (0 ∷ (fixed_fields d ++ (endian.store_big_s16 d.fmt_code ++ descriptions ds)))

  abbrev pub description_body : List FieldDescription → List ℕ
  description_body ds = endian.store_big_s16 (pos (length ds)) ++ descriptions ds

module _ (endian : Endian) (laws : EndianLaws endian) where
  store_size_16 : (z : ℤ) → IsInt16 z → length (endian.store_big_s16 z) ≡ 2
  store_size_16 z h = let (a, b, stored, loaded) = laws.read_back_16 z h in rw stored refl

  length-fixed_fields :
      (d : FieldDescription) → IsDescription d → length (fixed_fields endian d) ≡ 16
  length-fixed_fields d h = omega (
    arith,
    length-append (endian.store_big_s32 d.table_oid) _,
    length-append (endian.store_big_s16 d.column_attribute) _,
    length-append (endian.store_big_s32 d.type_oid) _,
    length-append (endian.store_big_s16 d.type_length) (endian.store_big_s32 d.type_modifier),
    laws.store_size d.table_oid,
    laws.store_size d.type_oid,
    laws.store_size d.type_modifier,
    store_size_16 d.column_attribute h.column_attribute,
    store_size_16 d.type_length h.type_length,
  )

  fixed_read :
      (d : FieldDescription) (rest : List ℕ)
      → IsDescription d
      → check_size_and_advance 16 (parse_context (fixed_fields endian d ++ rest))
        ≡ (tt, parse_context rest)
  fixed_read d rest h =
      subst
        (λ n.
          check_size_and_advance n (parse_context (fixed_fields endian d ++ rest))
          ≡ (tt, parse_context rest))
        (length-fixed_fields d h) (check_size_read (fixed_fields endian d) rest)

  code_is_valid :
      (z : ℤ) → (z ≡ pos 0) ⊎ (z ≡ pos 1) → not (is_valid_format_code (format_code z)) ≡ false
  unfolding format_code
  code_is_valid z (inl e) = rw e refl
  code_is_valid z (inr e) = rw e refl

  code_range : (z : ℤ) → (z ≡ pos 0) ⊎ (z ≡ pos 1) → IsInt16 z
  code_range z (inl e) = subst IsInt16 (sym e) (omega arith)
  code_range z (inr e) = subst IsInt16 (sym e) (omega arith)

  descriptions_read :
      (ds : List FieldDescription)
      → All IsDescription ds
      → descriptions_loop endian (length ds) (parse_context (descriptions endian ds))
        ≡ (tt, parse_context [])
  unfolding descriptions_loop
  descriptions_read [] h = refl
  descriptions_read (d ∷ ds) h =
      let rest = endian.store_big_s16 d.fmt_code ++ descriptions endian ds in
      rw (get_string_read d.name (fixed_fields endian d ++ rest) h.0.name) (
        rw (fixed_read d rest h.0) (
          rw
            (get_int16_read endian laws d.fmt_code (descriptions endian ds)
              (code_range d.fmt_code h.0.fmt_code)).0
            (rw (code_is_valid d.fmt_code h.0.fmt_code) (descriptions_read ds h.1))))

  description_read :
      (d : FieldDescription) (rest : List ℕ)
      → IsDescription d
      → description_at endian
          (d.name, fixed_fields endian d ++ (endian.store_big_s16 d.fmt_code ++ rest))
        ≡ some d
  description_read d rest h =
      let code = endian.store_big_s16 d.fmt_code ++ rest in
      let modifier = endian.store_big_s32 d.type_modifier ++ code in
      let len = endian.store_big_s16 d.type_length ++ modifier in
      let oid = endian.store_big_s32 d.type_oid ++ len in
      let attribute = endian.store_big_s16 d.column_attribute ++ oid in
      simp append_assoc (
        rw (get_int32_read endian laws d.table_oid attribute h.table_oid).1 (
          rw (get_int16_read endian laws d.column_attribute oid h.column_attribute).1 (
            rw (get_int32_read endian laws d.type_oid len h.type_oid).1 (
              rw (get_int16_read endian laws d.type_length modifier h.type_length).1 (
                rw (get_int32_read endian laws d.type_modifier code h.type_modifier).1 (
                  rw
                    (get_int16_read endian laws d.fmt_code rest
                      (code_range d.fmt_code h.fmt_code)).1
                    refl))))))

  -- The eighteen bytes behind a name.
  behind_fixed :
      (d : FieldDescription) (rest : List ℕ)
      → IsDescription d
      → drop 18 (fixed_fields endian d ++ (endian.store_big_s16 d.fmt_code ++ rest)) ≡ rest
  behind_fixed d rest h =
      let front = fixed_fields endian d ++ endian.store_big_s16 d.fmt_code in
      let sizes = length-append (fixed_fields endian d) (endian.store_big_s16 d.fmt_code) in
      let sixteen = length-fixed_fields d h in
      let two = store_size_16 d.fmt_code (code_range d.fmt_code h.fmt_code) in
      let eighteen : 18 ≡ length front = omega (arith, sizes, sixteen, two) in
      ap (drop 18)
        (sym (append_assoc (fixed_fields endian d) (endian.store_big_s16 d.fmt_code) rest))
      ∙ ap (λ n. drop n (front ++ rest)) eighteen
      ∙ drop-append_length front rest

  descriptions_walked :
      (ds : List FieldDescription) (fuel : ℕ)
      → All IsDescription ds
      → length (descriptions endian ds) ≤ fuel
      → walk (description_traits endian) fuel (descriptions endian ds) ≡ some ds
  unfolding description_traits
  descriptions_walked [] fuel h le = unfold walk in refl
  descriptions_walked (d ∷ ds) fuel h le =
      let rest = descriptions endian ds in
      let coded = endian.store_big_s16 d.fmt_code ++ rest in
      let fixed = fixed_fields endian d ++ coded in
      let found = split_string-append d.name fixed h.0.name in
      let sizes = length-append d.name (0 ∷ fixed) in
      let sizes' = length-append (fixed_fields endian d) coded in
      let sizes'' = length-append (endian.store_big_s16 d.fmt_code) rest in
      let sixteen = length-fixed_fields d h.0 in
      let two = store_size_16 d.fmt_code (code_range d.fmt_code h.0.fmt_code) in
      let more : fuel ≡ suc (fuel - 1) = omega (arith, sizes, le) in
      let fits : leb 18 (length fixed) ≡ true = ground (arith, sizes', sizes'', sixteen, two) in
      rw more (
        walk-cons (description_traits endian) (fuel - 1) (d.name ++ (0 ∷ fixed)) rest d ds
          (omega (arith, sizes)) (rw (description_dereference, found) (description_read d rest h.0))
          (rw (description_advance, behind_string, found)
            (rw (skip, fits) (ap some (behind_fixed d rest h.0))))
          (descriptions_walked ds (fuel - 1) h.1 (omega (arith, sizes, sizes', sizes'', le))))

  pub parse_row_description-description_body :
      (ds : List FieldDescription)
      → length ds < 2 ^ 15
      → All IsDescription ds
      → (v : ForwardView) × (parse_row_description endian (description_body endian ds) ≡ inr v)
        × (view_items (description_traits endian) v ≡ some ds)
  unfolding parse_row_description row_description_parser check check_extra_bytes
  parse_row_description-description_body ds n h = (
    record { size = length ds; span = descriptions endian ds },
    rw (get_count_read endian laws (length ds) (descriptions endian ds) n) (
        rw (descriptions_read ds h) (
          ap (λ l. inr (record { size = length ds; span = l }))
            (span_all (descriptions endian ds) [] refl))),
    descriptions_walked ds (length (descriptions endian ds)) h (omega arith),
  )
