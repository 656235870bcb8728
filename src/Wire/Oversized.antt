-- ===== src/Wire/Oversized.antt =====
-- finalize_message on a message that is too long for its length field.
use nativepg.Prelude.{
  ℕ, true, ◌+◌, ◌-◌, ◌%◌, ◌^◌, ◌<◌, ◌≡◌, refl, List, [], ◌∷◌, ◌++◌, none, some, arith, length,
  length-append, append_assoc, ltb, lt→ltb,
}
use nativepg.Wire.{Endian, serialization_context, finalize_message, int32_max}
use nativepg.Wire.Messages.{query, serialize, serialize_query}
use nativepg.Wire.Frames.{blank, c_string}

module _ (endian : Endian) where
  -- A query that is too long for an int32, in memory that can hold it: serialize reports success, and
  -- the message that it leaves has the length 0 in its header.
  pub oversized_query_succeeds :
      (sql to : List ℕ)
      → int32_max < 5 + length sql
      → length sql < 2 ^ 62
      → length to < 2 ^ 62
      → serialize endian (query sql) to ≡ some (none, to ++ (81 ∷ blank (c_string sql)))
  unfolding serialize serialize_query serialization_context finalize_message
  oversized_query_succeeds sql to h k s = rw (regroup, size, large) refl
    where
      regroup :
          (((to ++ (81 ∷ [])) ++ (0 ∷ 0 ∷ 0 ∷ 0 ∷ [])) ++ sql) ++ (0 ∷ [])
          ≡ to ++ (81 ∷ blank (c_string sql))
      regroup = simp append_assoc

      n : ℕ
      n = 5 + length sql

      size :
          (length (to ++ (81 ∷ blank (c_string sql))) + (2 ^ 64 - length to) + (2 ^ 64 - 1))
            % 2 ^ 64
          ≡ n
      size = omega (arith, length-append to (81 ∷ blank (c_string sql)), length-append sql (0 ∷ []))

      large : ltb int32_max n ≡ true
      large = lt→ltb int32_max n h
