-- ===== src/Wire/Bind.antt =====
-- bind: bind_context of include/nativepg/protocol/bind.hpp, the format codes of
-- include/nativepg/protocol/format_codes.hpp, and the serialization in src/messages.cpp.
use nativepg.Prelude.{
  ℕ, suc, ◌+◌, ◌-◌, ◌%◌, ◌^◌, ℤ, pos, List, [], ◌∷◌, ◌++◌, Option, none, some, if◌then◌else◌,
  length, ltb, ◌==◌, ◌>>=◌,
}
use nativepg.Protocol.{ErrorCode, client, value_too_big}
use nativepg.Wire.{
  Endian, SerializationContext, serialization_context, add_error, add_string, add_int16, add_header,
  overwrite, int32_max, Serialized, finalize_message,
}

-- format_code and format_codes
pub data FormatCode : Type 0 where
  text binary : FormatCode

pub data FormatCodes : Type 0 where
  all_text all_binary : FormatCodes
  each : List FormatCode → FormatCodes

-- The conversion of one code, to be applied to all elements.
abbrev pub all_of : FormatCode → FormatCodes
all_of text = all_text
all_of binary = all_binary

abbrev pub format_code_value : FormatCode → ℤ
format_code_value text = pos 0
format_code_value binary = pos 1

abbrev pub int16_max : ℕ
int16_max = 2 ^ 15 - 1

-- parameter_ref: the type, and what its two functions do to the buffer, with their code.
pub record ParameterRef : Type 0 where
  pub type_oid : ℤ
  pub serialize_text : List ℕ → ErrorCode × List ℕ
  pub serialize_binary : List ℕ → ErrorCode × List ℕ

pub record BindContext : Type 0 where
  pub num_params : ℕ
  pub param_offset : ℕ
  pub buff : List ℕ
  pub err : ErrorCode

abbrev pub no_offset : ℕ
no_offset = 2 ^ 64 - 1

abbrev pub bind_context : List ℕ → BindContext
bind_context buff = record { num_params = 0; param_offset = no_offset; buff = buff; err = none }

abbrev pub add_bind_error : ErrorCode → BindContext → BindContext
add_bind_error ec c = record c { err = elim c.err [ some e ↦ some e | none ↦ ec ] }

module _ (endian : Endian) where
  unfoldable pub maybe_finish_parameter : BindContext → Option BindContext
  maybe_finish_parameter c =
      let param_size = (length c.buff + (2 ^ 64 - c.param_offset) + (2 ^ 64 - 4)) % 2 ^ 64 in
      let stored : Option BindContext = do
        buffer ← overwrite c.param_offset (endian.store_big_s32 (pos param_size)) c.buff
        some (record c { buff = buffer; param_offset = no_offset })
      in if c.param_offset == no_offset
        then some c
        else if ltb int32_max param_size
        then some (add_bind_error (some (client value_too_big)) c)
        else stored

  unfoldable pub start_parameter : BindContext → Option BindContext
  start_parameter c = do
    d ← maybe_finish_parameter c
    some (record d {
      num_params = suc d.num_params;
      param_offset = length d.buff;
      buff = d.buff ++ (0 ∷ 0 ∷ 0 ∷ 0 ∷ []);
    })

  abbrev pub serialize_parameter : FormatCode → ParameterRef → BindContext → BindContext
  serialize_parameter text p c =
      let r = p.serialize_text c.buff in add_bind_error r.0 (record c { buff = r.1 })
  serialize_parameter binary p c =
      let r = p.serialize_binary c.buff in add_bind_error r.0 (record c { buff = r.1 })

  -- The parameters_fn that request::add_bind makes.
  unfoldable pub add_parameters : FormatCode → List ParameterRef → BindContext → Option BindContext
  add_parameters fmt [] c = some c
  add_parameters fmt (p ∷ ps) c = do
    d ← start_parameter c
    add_parameters fmt ps (serialize_parameter fmt p d)

  abbrev pub add_fmt_codes : List FormatCode → SerializationContext → SerializationContext
  add_fmt_codes [] c = c
  add_fmt_codes (code ∷ codes) c = add_fmt_codes codes (add_int16 endian (format_code_value code) c)

  unfoldable pub serialize_fmt_codes : FormatCodes → SerializationContext → SerializationContext
  serialize_fmt_codes all_text c = add_int16 endian (pos 0) c
  serialize_fmt_codes all_binary c = add_int16 endian (pos 1) (add_int16 endian (pos 1) c)
  serialize_fmt_codes (each codes) c =
      if ltb int16_max (length codes)
      then add_error (some (client value_too_big)) c
      else add_fmt_codes codes (add_int16 endian (pos (length codes)) c)

  unfoldable pub serialize_params :
      (BindContext → Option BindContext) → SerializationContext → Option SerializationContext
  serialize_params parameters_fn c = do
    added ← parameters_fn (bind_context (c.buffer ++ (0 ∷ 0 ∷ [])))
    finished ← maybe_finish_parameter added
    let d : SerializationContext = add_error finished.err (record c { buffer = finished.buff })
    counted ← overwrite (length c.buffer) (endian.store_big_s16 (pos finished.num_params)) d.buffer
    some (
        if ltb int16_max finished.num_params
        then add_error (some (client value_too_big)) d
        else record d { buffer = counted })

  unfoldable pub serialize_bind :
      List ℕ
      → List ℕ
      → FormatCodes
      → (BindContext → Option BindContext)
      → FormatCodes
      → List ℕ
      → Serialized
  serialize_bind portal_name statement_name parameter_fmt_codes parameters_fn result_fmt_codes to =
      do
        c ← serialize_params parameters_fn (
            serialize_fmt_codes parameter_fmt_codes (
              add_string statement_name
                (add_string portal_name (add_header b'B' (serialization_context to)))))
        finalize_message endian (serialize_fmt_codes result_fmt_codes c)
