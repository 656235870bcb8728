-- ===== src/Wire/BindFrames.antt =====
-- What a serialized bind message is: the frame of its two names, its format codes and its
-- parameters, each with its size in front (src/messages.cpp, include/nativepg/protocol/bind.hpp).
use nativepg.Prelude.{
  ℕ, suc, ◌+◌, ◌-◌, ◌%◌, ◌^◌, ◌<◌, ◌≤◌, ◌≡◌, ◌∙◌, refl, sym, ap, ap₂, subst, pos, false, List, [],
  ◌∷◌, ◌++◌, map, none, some, All, arith, length, length-append, append_assoc, append-nil, ltb,
  ◌==◌,
}
use nativepg.Wire.{
  SerializationContext, Endian, EndianLaws, add_error, serialization_context, overwrite, int32_max,
  add_string, add_header,
}
use nativepg.Wire.Bind.{
  FormatCode, text, binary, all_of, ParameterRef, BindContext, no_offset, bind_context, int16_max,
  maybe_finish_parameter, start_parameter, serialize_parameter, add_parameters, serialize_fmt_codes,
  serialize_params, serialize_bind,
}
use nativepg.Wire.Frames.{frame, c_string, blank, finalize-frame, overwrite-append}

-- A parameter and the bytes that its function appends, in the format asked for.
abbrev pub Appends : FormatCode → ParameterRef → List ℕ → Type 0
Appends text p v = (b : List ℕ) → p.serialize_text b ≡ (none, b ++ v)
Appends binary p v = (b : List ℕ) → p.serialize_binary b ≡ (none, b ++ v)

-- Parameters with what they append.
abbrev pub Valued : Type 0
Valued = ParameterRef × List ℕ

abbrev pub AppendsValue : FormatCode → Valued → Type 0
AppendsValue fmt (p, v) = Appends fmt p v

abbrev pub refs : List Valued → List ParameterRef
refs ps = map (λ (q : Valued). q.0) ps

module _ (endian : Endian) where
  abbrev pub codes_of : FormatCode → List ℕ
  codes_of text = endian.store_big_s16 (pos 0)
  codes_of binary = endian.store_big_s16 (pos 1) ++ endian.store_big_s16 (pos 1)

  abbrev pub sized : List ℕ → List ℕ
  sized v = endian.store_big_s32 (pos (length v)) ++ v

  abbrev pub params_of : List Valued → List ℕ
  params_of [] = []
  params_of ((p, v) ∷ ps) = sized v ++ params_of ps

  -- The body of a bind message, as the protocol describes it.
  abbrev pub bind_body : List ℕ → List ℕ → FormatCode → List Valued → FormatCode → List ℕ
  bind_body portal_name statement_name fmt ps result =
      c_string portal_name
      ++ (c_string statement_name
          ++ (codes_of fmt
              ++ (endian.store_big_s16 (pos (length ps)) ++ (params_of ps ++ codes_of result))))

abbrev zeros : List ℕ
zeros = 0 ∷ 0 ∷ 0 ∷ 0 ∷ []

-- The context when the parameter that was written last has its size.
abbrev closed : ℕ → List ℕ → BindContext
closed n b = record { num_params = n; param_offset = no_offset; buff = b; err = none }

module _ (endian : Endian) (laws : EndianLaws endian) where
  serialize_parameter_lem :
      (fmt : FormatCode) (p : ParameterRef) (v : List ℕ) (n o : ℕ) (b : List ℕ)
      → Appends fmt p v
      → serialize_parameter endian fmt p
          (record { num_params = n; param_offset = o; buff = b; err = none })
        ≡ record { num_params = n; param_offset = o; buff = b ++ v; err = none }
  serialize_parameter_lem text p v n o b h = rw (h b) refl
  serialize_parameter_lem binary p v n o b h = rw (h b) refl

  finish_lem :
      (n : ℕ) (front v : List ℕ)
      → length front < 2 ^ 63
      → length v ≤ int32_max
      → maybe_finish_parameter endian (record {
        num_params = n;
        param_offset = length front;
        buff = (front ++ zeros) ++ v;
        err = none;
      })
        ≡ some (closed n (front ++ sized endian v))
  unfolding maybe_finish_parameter
  finish_lem n front v f h = rw (has_offset, size, small, stored) refl
    where
      has_offset : (length front == no_offset) ≡ false
      has_offset = ground (arith, f)

      size :
          (length ((front ++ zeros) ++ v) + (2 ^ 64 - length front) + (2 ^ 64 - 4)) % 2 ^ 64
          ≡ length v
      size = omega (arith, f, h, length-append (front ++ zeros) v, length-append front zeros)

      small : ltb int32_max (length v) ≡ false
      small = ground (arith, h)

      stored :
          overwrite (length front) (endian.store_big_s32 (pos (length v))) ((front ++ zeros) ++ v)
          ≡ some (front ++ sized endian v)
      stored =
          ap (overwrite (length front) (endian.store_big_s32 (pos (length v))))
            (append_assoc front zeros v)
          ∙ overwrite-append front zeros (endian.store_big_s32 (pos (length v))) v
              (sym (laws.store_size (pos (length v))))

  -- The parameters, over a context whose last parameter is still to get its size.
  add_parameters_lem :
      (fmt : FormatCode) (ps : List Valued) (c : BindContext) (n : ℕ) (b : List ℕ)
      → All (AppendsValue fmt) ps
      → maybe_finish_parameter endian c ≡ some (closed n b)
      → length b + length (params_of endian ps) < 2 ^ 63
      → length (params_of endian ps) ≤ int32_max
      → (d : BindContext) × (add_parameters endian fmt (refs ps) c ≡ some d)
        × (maybe_finish_parameter endian d
            ≡ some (closed (n + length ps) (b ++ params_of endian ps)))
  unfolding add_parameters start_parameter
  add_parameters_lem fmt [] c n b h e s t =
      (c, refl, e ∙ ap₂ (λ m l. some (closed m l)) (omega arith) (sym (append-nil b)))
  add_parameters_lem fmt ((p, v) ∷ ps) c n b (hp, h) e s t =
      let rest : List ℕ = params_of endian ps in
      let total = length-append (sized endian v) rest in
      let one = length-append (endian.store_big_s32 (pos (length v))) v in
      let (d, added, finished) =
        add_parameters_lem fmt ps
          (record {
            num_params = suc n;
            param_offset = length b;
            buff = (b ++ zeros) ++ v;
            err = none;
          })
          (suc n) (b ++ sized endian v) h
          (finish_lem (suc n) b v (omega (arith, s)) (omega (arith, t, total, one)))
          (omega (arith, s, total, length-append b (sized endian v))) (omega (arith, t, total)) in
      (
        d,
        rw (e, serialize_parameter_lem fmt p v (suc n) (length b) (b ++ zeros) hp) added,
        finished
            ∙ ap₂ (λ m l. some (closed m l)) (omega arith) (append_assoc b (sized endian v) rest),
      )

  fmt_codes_lem :
      (fmt : FormatCode) (c : SerializationContext)
      → serialize_fmt_codes endian (all_of fmt) c
        ≡ record c { buffer = c.buffer ++ codes_of endian fmt }
  unfolding serialize_fmt_codes
  fmt_codes_lem text c = refl
  fmt_codes_lem binary c = ap (λ b. record c { buffer = b }) (append_assoc c.buffer _ _)

  length-store_16 : (n : ℕ) → n < 2 ^ 15 → 2 ≡ length (endian.store_big_s16 (pos n))
  length-store_16 n h = let (a, b, e, q) = laws.read_back_16 (pos n) h in sym (ap length e)

  params_lem :
      (fmt : FormatCode) (ps : List Valued) (c : SerializationContext)
      → All (AppendsValue fmt) ps
      → c.err ≡ none
      → length ps < 2 ^ 15
      → length c.buffer < 2 ^ 62 + 2 ^ 32
      → length (params_of endian ps) ≤ int32_max
      → serialize_params endian (add_parameters endian fmt (refs ps)) c
        ≡ some (record c {
          buffer = c.buffer ++ (endian.store_big_s16 (pos (length ps)) ++ params_of endian ps);
          err = none;
        })
  unfolding serialize_params add_error
  params_lem fmt ps c h e few s t =
      let b : List ℕ = c.buffer ++ (0 ∷ 0 ∷ []) in
      let (d, added, finished) =
        add_parameters_lem fmt ps (bind_context b) 0 b h (fresh b)
          (omega (arith, s, t, length-append c.buffer (0 ∷ 0 ∷ []))) t in
      rw (added, finished, counted, few_enough, e) refl
    where
      fresh : (b : List ℕ) → maybe_finish_parameter endian (bind_context b) ≡ some (closed 0 b)
      fresh b = unfold maybe_finish_parameter in refl

      few_enough : ltb int16_max (0 + length ps) ≡ false
      few_enough = ground (arith, few)

      none_before : 0 + length ps ≡ length ps
      none_before = omega arith

      counted :
          overwrite
            (length c.buffer)
            (endian.store_big_s16 (pos (0 + length ps)))
            ((c.buffer ++ (0 ∷ 0 ∷ [])) ++ params_of endian ps)
          ≡ some (c.buffer ++ (endian.store_big_s16 (pos (length ps)) ++ params_of endian ps))
      counted =
          ap₂ (λ (m : ℕ) l. overwrite (length c.buffer) (endian.store_big_s16 (pos m)) l)
            none_before (append_assoc c.buffer (0 ∷ 0 ∷ []) (params_of endian ps))
          ∙ overwrite-append c.buffer (0 ∷ 0 ∷ []) (endian.store_big_s16 (pos (length ps)))
              (params_of endian ps) (length-store_16 (length ps) few)

  -- What is in front of the parameters, and the parameters, of a message that fits.
  front_small :
      (to portal_name statement_name : List ℕ) (fmt : FormatCode) (ps : List Valued)
      (result : FormatCode)
      → 4 + length (bind_body endian portal_name statement_name fmt ps result) ≤ int32_max
      → length to < 2 ^ 62
      → (length (
            (to ++ (b'B' ∷ blank (c_string portal_name ++ c_string statement_name)))
            ++ codes_of endian fmt)
          < 2 ^ 62 + 2 ^ 32)
        × (length (params_of endian ps) ≤ int32_max)
  front_small to portal_name statement_name fmt ps result h s =
      let names = c_string portal_name ++ c_string statement_name in
      let tail = params_of endian ps ++ codes_of endian result in
      let counted = endian.store_big_s16 (pos (length ps)) ++ tail in
      let behind = codes_of endian fmt ++ counted in
      let l1 = length-append (to ++ (b'B' ∷ blank names)) (codes_of endian fmt) in
      let l2 = length-append to (b'B' ∷ blank names) in
      let l3 = length-append (c_string portal_name) (c_string statement_name) in
      let l4 = length-append (c_string portal_name) (c_string statement_name ++ behind) in
      let l5 = length-append (c_string statement_name) behind in
      let l6 = length-append (codes_of endian fmt) counted in
      let l7 = length-append (endian.store_big_s16 (pos (length ps))) tail in
      let l8 = length-append (params_of endian ps) (codes_of endian result) in
      (omega (arith, h, s, l1, l2, l3, l4, l5, l6), omega (arith, h, l4, l5, l6, l7, l8))

  abbrev named_context : List ℕ → List ℕ → List ℕ → SerializationContext
  named_context to portal_name statement_name = add_string statement_name (
      add_string portal_name
        (add_header b'B' (record { buffer = to; header_offset = no_offset; err = none })))

  named_lem :
      (to portal_name statement_name : List ℕ)
      → (named_context to portal_name statement_name).buffer
        ≡ to ++ (b'B' ∷ blank (c_string portal_name ++ c_string statement_name))
  named_lem to portal_name statement_name = simp append_assoc

  -- A bind message with at most 2 ^ 15 - 1 parameters, whose functions append some bytes each, that
  -- fits: it is appended as the frame of its body.
  pub serialize_bind-frame :
      (portal_name statement_name to : List ℕ) (fmt : FormatCode) (ps : List Valued)
      (result : FormatCode)
      → All (AppendsValue fmt) ps
      → length ps < 2 ^ 15
      → 4 + length (bind_body endian portal_name statement_name fmt ps result) ≤ int32_max
      → length to < 2 ^ 62
      → serialize_bind endian portal_name statement_name
          (all_of fmt)
          (add_parameters endian fmt (refs ps))
          (all_of result)
          to
        ≡ some (
          none,
          to ++ frame endian b'B' (bind_body endian portal_name statement_name fmt ps result),
        )
  unfolding serialize_bind serialization_context
  serialize_bind-frame portal_name statement_name to fmt ps result h few fits s =
      let (front, rest) = front_small to portal_name statement_name fmt ps result fits s in
      rw
        (
          fmt_codes_lem fmt (named_context to portal_name statement_name),
          params_lem fmt ps
              (record (named_context to portal_name statement_name) {
                buffer =
                    (named_context to portal_name statement_name).buffer ++ codes_of endian fmt;
              })
              h refl few
              (subst (λ b. length (b ++ codes_of endian fmt) < 2 ^ 62 + 2 ^ 32)
                (sym (named_lem to portal_name statement_name)) front)
              rest,
          fmt_codes_lem result,
        )
        (finalize-frame endian laws _ to (bind_body endian portal_name statement_name fmt ps result)
          b'B' (simp append_assoc) s fits)
