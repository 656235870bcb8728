-- ===== src/Parse/Rows.antt =====
-- Rows as the protocol lays them out, read by parse and by the iterators of data_row::columns
-- (src/messages.cpp).
use nativepg.Prelude.{
  ℕ, suc, ◌+◌, ◌-◌, ◌^◌, ◌≤◌, ◌<◌, ◌≡◌, refl, ap, ◌∙◌, ℤ, pos, negsuc, true, List, [], ◌∷◌, ◌++◌,
  Option, none, some, inr, length, leb, All, arith, length-append, take-append_length,
  drop-append_length,
}
use nativepg.Wire.{Endian, EndianLaws, IsInt32}
use nativepg.Parse.{parse_context, check, check_extra_bytes}
use nativepg.Parse.Messages.{ForwardView}
use nativepg.Parse.Bodies.{columns_loop, data_row_parser, parse_data_row}
use nativepg.Parse.Views.{walk, field_traits, column_value, column_end, view_items}
use nativepg.Parse.Walks.{walk-cons}
use nativepg.Parse.Accepted.{span_all}
use nativepg.Parse.Encoded.{get_int32_read, get_count_read, check_size_read}

-- A value that an int32 can announce.
abbrev pub IsColumn : Option (List ℕ) → Type 0
IsColumn none = Unit {0}
IsColumn (some s) = length s < 2 ^ 31

module _ (endian : Endian) where
  abbrev pub columns : List (Option (List ℕ)) → List ℕ
  columns [] = []
  columns (none ∷ cs) = endian.store_big_s32 (negsuc 0) ++ columns cs
  columns (some s ∷ cs) = endian.store_big_s32 (pos (length s)) ++ (s ++ columns cs)

  abbrev pub row_body : List (Option (List ℕ)) → List ℕ
  row_body cs = endian.store_big_s16 (pos (length cs)) ++ columns cs

module _ (endian : Endian) (laws : EndianLaws endian) where
  columns_read :
      (cs : List (Option (List ℕ)))
      → All IsColumn cs
      → columns_loop endian (length cs) (parse_context (columns endian cs)) ≡ (tt, parse_context [])
  unfolding columns_loop
  columns_read [] h = refl
  columns_read (none ∷ cs) h =
      rw (get_int32_read endian laws (negsuc 0) (columns endian cs) (omega arith)).0
        (columns_read cs h.1)
  columns_read (some s ∷ cs) h =
      rw (get_int32_read endian laws (pos (length s)) (s ++ columns endian cs) h.0).0
        (rw (check_size_read s (columns endian cs)) (columns_read cs h.1))

  -- The iterator at a column whose size is z.
  column_there :
      (z : ℤ) (rest : List ℕ)
      → IsInt32 z
      → ((field_traits endian).dereference (endian.store_big_s32 z ++ rest) ≡ column_value z rest)
        × ((field_traits endian).advance (endian.store_big_s32 z ++ rest) ≡ column_end z rest)
        × (length (endian.store_big_s32 z ++ rest) ≡ 4 + length rest)
  unfolding field_traits
  column_there z rest h =
      let (a, b, c, d, stored, loaded) = laws.read_back z h in
      rw stored (rw loaded (refl, refl, omega arith))

  columns_walked :
      (cs : List (Option (List ℕ))) (fuel : ℕ)
      → All IsColumn cs
      → length (columns endian cs) ≤ fuel
      → walk (field_traits endian) fuel (columns endian cs) ≡ some cs
  columns_walked [] fuel h le = unfold walk in refl
  columns_walked (none ∷ cs) fuel h le =
      let (d, a, len) = column_there (negsuc 0) (columns endian cs) (omega arith) in
      let more : fuel ≡ suc (fuel - 1) = omega (arith, len, le) in
      rw more (
        walk-cons (field_traits endian) (fuel - 1) _ (columns endian cs) none cs
          (omega (arith, len)) d a (columns_walked cs (fuel - 1) h.1 (omega (arith, len, le))))
  columns_walked (some s ∷ cs) fuel h le =
      let rest = s ++ columns endian cs in
      let (d, a, len) = column_there (pos (length s)) rest h.0 in
      let len' = length-append s (columns endian cs) in
      let more : fuel ≡ suc (fuel - 1) = omega (arith, len, le) in
      let fits : leb (length s) (length rest) ≡ true = ground (arith, len') in
      let value : column_value (pos (length s)) rest ≡ some (some s) =
        rw (fits, take-append_length s (columns endian cs)) refl in
      let behind : column_end (pos (length s)) rest ≡ some (columns endian cs) =
        rw (fits, drop-append_length s (columns endian cs)) refl in
      rw more (
        walk-cons (field_traits endian) (fuel - 1) _ (columns endian cs) (some s) cs
          (omega (arith, len)) (d ∙ value) (a ∙ behind)
          (columns_walked cs (fuel - 1) h.1 (omega (arith, len, len', le))))

  pub parse_data_row-row_body :
      (cs : List (Option (List ℕ)))
      → length cs < 2 ^ 15
      → All IsColumn cs
      → (v : ForwardView) × (parse_data_row endian (row_body endian cs) ≡ inr v)
        × (view_items (field_traits endian) v ≡ some cs)
  unfolding parse_data_row data_row_parser check check_extra_bytes
  parse_data_row-row_body cs n h = (
    record { size = length cs; span = columns endian cs },
    rw (get_count_read endian laws (length cs) (columns endian cs) n) (
        rw (columns_read cs h) (
          ap (λ l. inr (record { size = length cs; span = l }))
            (span_all (columns endian cs) [] refl))),
    columns_walked cs (length (columns endian cs)) h (omega arith),
  )
