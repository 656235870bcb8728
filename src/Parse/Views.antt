-- ===== src/Parse/Views.antt =====
-- The views of a parsed message (include/nativepg/protocol/views.hpp), with the forward_traits and
-- random_access_traits of src/messages.cpp. They read without checks; a read outside the view's
-- bytes is none.
use nativepg.Prelude.{
  ℕ, zero, suc, ◌*◌, ℤ, pos, negsuc, List, [], ◌∷◌, Option, none, some, if◌then◌else◌, length, take,
  drop, ltb, leb, ◌>>=◌,
}
use nativepg.Wire.{Endian}
use nativepg.Parse.{split_string}
use nativepg.Parse.Messages.{ForwardView, RandomAccessView}

-- Bytes behind a pointer, and the pointer moved on.
abbrev pub read_span : ℕ → List ℕ → Option (List ℕ)
read_span n bytes = if leb n (length bytes) then some (take n bytes) else none

abbrev pub skip : ℕ → List ℕ → Option (List ℕ)
skip n bytes = if leb n (length bytes) then some (drop n bytes) else none

-- forward_traits: the item at a pointer, and the pointer to the next.
pub record ForwardTraits (T : Type 0) : Type 0 where
  pub dereference : List ℕ → Option T
  pub advance : List ℕ → Option (List ℕ)

-- From begin() to end(). Items take bytes, so that as many rounds as there are bytes are enough.
unfoldable pub walk : {T : Type 0} → ForwardTraits T → ℕ → List ℕ → Option (List T)
walk traits fuel [] = some []
walk traits zero (b ∷ bytes) = none
walk traits (suc fuel) (b ∷ bytes) = do
  x ← traits.dereference (b ∷ bytes)
  rest ← traits.advance (b ∷ bytes)
  xs ← walk traits fuel rest
  some (x ∷ xs)

abbrev pub view_items : {T : Type 0} → ForwardTraits T → ForwardView → Option (List T)
view_items traits view = walk traits (length view.span) view.span

-- unchecked_get_string, which is std::strlen
abbrev pub string_item : List ℕ → Option (List ℕ)
string_item bytes = elim (split_string bytes) [ none ↦ none | some (s, rest) ↦ some s ]

abbrev pub behind_string : List ℕ → Option (List ℕ)
behind_string bytes = elim (split_string bytes) [ none ↦ none | some (s, rest) ↦ some rest ]

unfoldable pub string_traits : ForwardTraits (List ℕ)
string_traits = record { dereference = string_item; advance = behind_string }

-- The value of a column; none for NULL. A negative size is a std::size_t that no span has.
abbrev pub column_value : ℤ → List ℕ → Option (Option (List ℕ))
column_value (pos n) bytes = do s ← read_span n bytes; some (some s)
column_value (negsuc zero) bytes = some none
column_value (negsuc (suc n)) bytes = none

abbrev pub column_end : ℤ → List ℕ → Option (List ℕ)
column_end (pos n) bytes = skip n bytes
column_end (negsuc n) bytes = some bytes

pub record FieldDescription : Type 0 where
  pub name : List ℕ
  pub table_oid : ℤ
  pub column_attribute : ℤ
  pub type_oid : ℤ
  pub type_length : ℤ
  pub type_modifier : ℤ
  pub fmt_code : ℤ

module _ (endian : Endian) where
  abbrev pub field_dereference : List ℕ → Option (Option (List ℕ))
  field_dereference (a ∷ b ∷ c ∷ d ∷ bytes) = column_value (endian.load_big_s32 a b c d) bytes
  field_dereference bytes = none

  abbrev pub field_advance : List ℕ → Option (List ℕ)
  field_advance (a ∷ b ∷ c ∷ d ∷ bytes) = column_end (endian.load_big_s32 a b c d) bytes
  field_advance bytes = none

  -- forward_traits<field_view>
  unfoldable pub field_traits : ForwardTraits (Option (List ℕ))
  field_traits = record { dereference = field_dereference; advance = field_advance }

  -- unchecked_get_integral
  abbrev pub unchecked_int16 : List ℕ → Option (ℤ × List ℕ)
  unchecked_int16 (a ∷ b ∷ bytes) = some (endian.load_big_s16 a b, bytes)
  unchecked_int16 bytes = none

  abbrev pub unchecked_int32 : List ℕ → Option (ℤ × List ℕ)
  unchecked_int32 (a ∷ b ∷ c ∷ d ∷ bytes) = some (endian.load_big_s32 a b c d, bytes)
  unchecked_int32 bytes = none

  abbrev pub description_at : List ℕ × List ℕ → Option FieldDescription
  description_at (s, r0) = do
    (table, r1) ← unchecked_int32 r0
    (attribute, r2) ← unchecked_int16 r1
    (oid, r3) ← unchecked_int32 r2
    (len, r4) ← unchecked_int16 r3
    (modifier, r5) ← unchecked_int32 r4
    (code, r6) ← unchecked_int16 r5
    some (record {
      name = s;
      table_oid = table;
      column_attribute = attribute;
      type_oid = oid;
      type_length = len;
      type_modifier = modifier;
      fmt_code = code;
    })

  abbrev pub description_dereference : List ℕ → Option FieldDescription
  description_dereference bytes = do sr ← split_string bytes; description_at sr

  abbrev pub description_advance : List ℕ → Option (List ℕ)
  description_advance bytes = do rest ← behind_string bytes; skip 18 rest

  -- forward_traits<field_description>
  unfoldable pub description_traits : ForwardTraits FieldDescription
  description_traits = record {
    dereference = description_dereference;
    advance = description_advance;
  }

  -- random_access_traits<format_code>, with unchecked_access; `none` where `at` throws.
  unfoldable pub format_code_at : RandomAccessView → ℕ → Option (Option ℤ)
  format_code_at view i =
      if ltb i view.size
      then some (elim (unchecked_int16 (drop (2 * i) view.memory)) [
        | none ↦ none
        | some (z, rest) ↦ some z
      ])
      else none
