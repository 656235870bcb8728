-- ===== src/Request/Failure.antt =====
-- request's builder functions where a message cannot be serialized.
use nativepg.Prelude.{
  ℕ, ◌-◌, ◌^◌, ◌≤◌, ◌≡◌, ap, ℤ, List, [], ◌∷◌, ◌++◌, some, length, lt→ltb, append_assoc, arith,
}
use nativepg.Protocol.{client, value_too_big}
use nativepg.Wire.{Endian, serialization_context, add_error}
use nativepg.Wire.Messages.{serialize, serialize_parse}
use nativepg.Wire.Frames.{blank, c_string}
use nativepg.Request.{Request, then_add, add_advanced_impl, add_prepare}

-- A statement with more than 2 ^ 15 - 1 parameters: add_prepare throws, and does not leave the
-- request as it was: the payload has the beginning of a message more, with the length 0, that
-- messages() does not tell of.
pub failed_prepare_leaves_bytes :
    (endian : Endian) (sql name : List ℕ) (oids : List ℤ) (r : Request)
    → 2 ^ 15 ≤ length oids
    → add_prepare endian sql name oids r
      ≡ some (
        some (client value_too_big),
        record r { buffer = r.buffer ++ (80 ∷ blank (c_string name ++ c_string sql)) },
      )
unfolding add_prepare then_add add_advanced_impl serialize serialize_parse serialization_context
    add_error
failed_prepare_leaves_bytes endian sql name oids r h =
    rw (lt→ltb (2 ^ 15 - 1) (length oids) (omega (arith, h)))
      (ap (λ b. some (some (client value_too_big), record r { buffer = b })) regroup)
  where
    regroup :
        (((((r.buffer ++ (80 ∷ [])) ++ (0 ∷ 0 ∷ 0 ∷ 0 ∷ [])) ++ name) ++ (0 ∷ [])) ++ sql)
          ++ (0 ∷ [])
        ≡ r.buffer ++ (80 ∷ blank (c_string name ++ c_string sql))
    regroup = simp append_assoc
