-- ===== src/Parse/Encoded.antt =====
-- What the getters of src/parse_context.hpp take from bytes that were laid out for them.
use nativepg.Prelude.{
  ℕ, ◌^◌, ◌<◌, ◌≡◌, refl, ℤ, pos, false, List, ◌∷◌, ◌++◌, some, length, ltb, arith, length-append,
  drop-append_length,
}
use nativepg.Wire.{Endian, EndianLaws, IsInt16, IsInt32}
use nativepg.Parse.{
  parse_context, get_int16, get_int32, get_nonnegative_int16, get_string, check_size_and_advance,
}
use nativepg.Parse.Strings.{NoZero, split_string-append}
use nativepg.Parse.Described.{get_string-some}
use nativepg.Parse.Views.{unchecked_int16, unchecked_int32}

pub get_string_read :
    (s rest : List ℕ)
    → NoZero s
    → get_string (parse_context (s ++ (0 ∷ rest))) ≡ (s, parse_context rest)
get_string_read s rest h = get_string-some (s ++ (0 ∷ rest)) (split_string-append s rest h)

-- The same, of a string that is written with its terminator as one.
pub check_size_read :
    (s rest : List ℕ)
    → check_size_and_advance (length s) (parse_context (s ++ rest)) ≡ (tt, parse_context rest)
unfolding check_size_and_advance
check_size_read s rest = rw (enough, drop-append_length s rest) refl
  where
    enough : ltb (length (s ++ rest)) (length s) ≡ false
    enough = ground (arith, length-append s rest)

module _ (endian : Endian) (laws : EndianLaws endian) where
  pub get_int32_read :
      (z : ℤ) (rest : List ℕ)
      → IsInt32 z
      → (get_int32 endian (parse_context (endian.store_big_s32 z ++ rest))
          ≡ (z, parse_context rest))
        × (unchecked_int32 endian (endian.store_big_s32 z ++ rest) ≡ some (z, rest))
  unfolding get_int32
  get_int32_read z rest h =
      let (a, b, c, d, stored, loaded) = laws.read_back z h in rw stored (rw loaded (refl, refl))

  pub get_int16_read :
      (z : ℤ) (rest : List ℕ)
      → IsInt16 z
      → (get_int16 endian (parse_context (endian.store_big_s16 z ++ rest))
          ≡ (z, parse_context rest))
        × (unchecked_int16 endian (endian.store_big_s16 z ++ rest) ≡ some (z, rest))
  unfolding get_int16
  get_int16_read z rest h =
      let (a, b, stored, loaded) = laws.read_back_16 z h in rw stored (rw loaded (refl, refl))

  pub get_count_read :
      (n : ℕ) (rest : List ℕ)
      → n < 2 ^ 15
      → get_nonnegative_int16 endian (parse_context (endian.store_big_s16 (pos n) ++ rest))
        ≡ (n, parse_context rest)
  unfolding get_nonnegative_int16
  get_count_read n rest h = rw (get_int16_read (pos n) rest h).0 refl
