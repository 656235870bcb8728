-- ===== src/Wire/Headless.antt =====
-- finalize_message without a header: cancel_request and ssl_request.
use nativepg.Prelude.{
  ℕ, false, true, ◌+◌, ◌-◌, ◌%◌, ◌^◌, ◌≤◌, ◌≡◌, refl, ap, ◌∙◌, ℤ, pos, List, ◌++◌, none, some,
  arith, length, length-append, drop, ltb, leb, le→leb,
}
use nativepg.Wire.{
  serialization_context, overwrite, Endian, EndianLaws, finalize_message, int32_max, no_header,
}
use nativepg.Wire.Messages.{serialize_cancel_request, serialize_ssl_request}

module _ (endian : Endian) (laws : EndianLaws endian) where
  finalize-headless :
      (buffer : List ℕ) (n : ℕ)
      → length buffer ≡ n
      → 4 ≤ n
      → n ≤ int32_max
      → finalize_message endian (record { buffer = buffer; header_offset = no_header; err = none })
        ≡ some (none, endian.store_big_s32 (pos n) ++ drop 4 buffer)
  unfolding finalize_message overwrite
  finalize-headless buffer n e h k = rw (size, small, laws.store_size (pos n), fits) refl
    where
      size : (length buffer + (2 ^ 64 - no_header) + (2 ^ 64 - 1)) % 2 ^ 64 ≡ n
      size = omega (arith, e)

      small : ltb int32_max n ≡ false
      small = ground arith

      fits : leb 4 (length buffer) ≡ true
      fits = le→leb 4 (length buffer) (omega (arith, e))

  four :
      (to : List ℕ) (a b c d : ℤ)
      → length (
          (((to ++ endian.store_big_s32 a) ++ endian.store_big_s32 b) ++ endian.store_big_s32 c)
          ++ endian.store_big_s32 d)
        ≡ length to + 16
  four to a b c d =
      let x = to ++ endian.store_big_s32 a in
      let y = x ++ endian.store_big_s32 b in
      let z = y ++ endian.store_big_s32 c in
      omega (
        arith,
        length-append to (endian.store_big_s32 a),
        length-append x (endian.store_big_s32 b),
        length-append y (endian.store_big_s32 c),
        length-append z (endian.store_big_s32 d),
        laws.store_size a,
        laws.store_size b,
        laws.store_size c,
        laws.store_size d,
      )

  -- Where four bytes are stored for an integer, and the buffer is not too long: the two messages
  -- without a header do not leave what the buffer held: the length of the whole
  -- buffer is stored over its first four bytes. So a cancel request is right only in an empty buffer,
  -- where the length is stored over itself; and an ssl request never is: in an empty buffer it is the
  -- length 4 and not the request code.
  pub headless_overwrites_front :
      (process_id secret_key : ℤ) (to : List ℕ)
      → length to + 16 ≤ int32_max
      → (serialize_ssl_request endian to
          ≡ some (
            none,
            endian.store_big_s32 (pos (length to + 4))
                ++ drop 4 (to ++ endian.store_big_s32 (pos 80877103)),
          ))
        × (serialize_cancel_request endian process_id secret_key to
            ≡ some (
              none,
              endian.store_big_s32 (pos (length to + 16))
                  ++ drop 4 (
                      (((to ++ endian.store_big_s32 (pos 16))
                          ++ endian.store_big_s32 (pos 80877102))
                        ++ endian.store_big_s32 process_id)
                      ++ endian.store_big_s32 secret_key),
            ))
  unfolding serialize_ssl_request serialize_cancel_request serialization_context
  headless_overwrites_front p s to h = (
    finalize-headless _ (length to + 4)
        (length-append to (endian.store_big_s32 (pos 80877103))
          ∙ ap (λ n. length to + n) (laws.store_size (pos 80877103)))
        (omega arith) (omega (arith, h)),
    finalize-headless _ (length to + 16) (four to (pos 16) (pos 80877102) p s) (omega arith) h,
  )
