-- ===== src/Wire/Tests.antt =====
-- Runs of the serialization and of the framing.
use nativepg.Prelude.{
  ℕ, ◌^◌, ◌≡◌, pos, List, [], ◌∷◌, ◌++◌, none, some, arith, length, take, drop, replicate,
  length-replicate,
}
use nativepg.Wire.Messages.{
  execute, query, serialize, serialize_ssl_request, serialize_cancel_request,
}
use nativepg.Wire.Framing.{message_missing_bytes}
use nativepg.Wire.Integers.{big_endian, big_endian-EndianLaws}
use nativepg.Wire.Frames.{frame, body_of, serialize-frame, blank, c_string}
use nativepg.Wire.Delimiting.{Missing, message_missing_bytes_lem}
use nativepg.Wire.Headless.{headless_overwrites_front}
use nativepg.Wire.Oversized.{oversized_query_succeeds}

serialize-frame_example :
    serialize big_endian (execute (65 ∷ []) (pos 7)) (9 ∷ [])
    ≡ some (none, 9 ∷ frame big_endian 69 (body_of big_endian (execute (65 ∷ []) (pos 7))))
unfolding big_endian
serialize-frame_example =
    serialize-frame big_endian big_endian-EndianLaws (execute (65 ∷ []) (pos 7)) (9 ∷ []) tt
      (omega arith) (omega arith)

-- Six of the seven bytes of a message with a body of two.
message_missing_bytes_lem_example :
    Missing 7 6 (message_missing_bytes big_endian (take 6 (frame big_endian 68 (0 ∷ 0 ∷ []))))
unfolding big_endian
message_missing_bytes_lem_example =
    message_missing_bytes_lem big_endian big_endian-EndianLaws 68 (0 ∷ 0 ∷ []) 6 (omega arith)
      (omega arith)

headless_overwrites_front_example :
    (serialize_ssl_request big_endian []
      ≡ some (
        none,
        big_endian.store_big_s32 (pos 4) ++ drop 4 (big_endian.store_big_s32 (pos 80877103)),
      ))
    × (serialize_cancel_request big_endian (pos 1) (pos 2) []
        ≡ some (
          none,
          big_endian.store_big_s32 (pos 16)
              ++ drop 4 (
                  ((big_endian.store_big_s32 (pos 16) ++ big_endian.store_big_s32 (pos 80877102))
                    ++ big_endian.store_big_s32 (pos 1))
                  ++ big_endian.store_big_s32 (pos 2)),
        ))
headless_overwrites_front_example =
    headless_overwrites_front big_endian big_endian-EndianLaws (pos 1) (pos 2) [] (omega arith)

-- 2 GiB of the letter A.
unfoldable huge : List ℕ
huge = replicate (2 ^ 31) 65

huge_size : length huge ≡ 2 ^ 31
unfolding huge
huge_size = length-replicate {A = ℕ} (2 ^ 31) 65

oversized_query_succeeds_example :
    serialize big_endian (query huge) [] ≡ some (none, 81 ∷ blank (c_string huge))
oversized_query_succeeds_example =
    oversized_query_succeeds big_endian huge [] (omega (arith, huge_size))
      (omega (arith, huge_size)) (omega arith)
