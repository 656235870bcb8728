-- ===== src/Request/Tests.antt =====
-- Runs of the request builder.
use nativepg.Prelude.{
  ◌^◌, ◌≡◌, refl, ℤ, pos, true, false, List, [], ◌∷◌, ◌++◌, map, none, some, length, replicate,
  length-replicate, arith,
}
use nativepg.Protocol.{parse, sync, query, bind, describe, execute, client, value_too_big}
use nativepg.CheckRequest.{check_request, get_expected_rfqs}
use nativepg.Wire.{serialization_context, finalize_message, overwrite, add_error}
use nativepg.Wire.Integers.{big_endian, big_endian-EndianLaws}
use nativepg.Wire.Messages.{serialize, serialize_parse, serialize_query, serialize_header_only}
use nativepg.Wire.Bind.{
  FormatCode, ParameterRef, maybe_finish_parameter, start_parameter, add_parameters,
  serialize_fmt_codes, serialize_params, serialize_bind,
}
use nativepg.Wire.Frames.{blank}
use nativepg.Request.{
  Request, request, set_autosync, add_prepare, then_add, add_advanced_impl, add_simple_query,
  add_query, add_execute, add_bind, maybe_add_sync, add_sync,
}
use nativepg.Request.Autosync.{Call, simple_query, queries, add_call, build, build-check_request}
use nativepg.Request.Payload.{
  ValuedCall, simple, queried, call_of, all_messages, payload_of, build-payload,
}
use nativepg.Request.Failure.{failed_prepare_leaves_bytes}

-- A parameter whose text and binary form is one byte.
abbrev seven : ParameterRef
seven = record {
  type_oid = pos 23;
  serialize_text = λ b. (none, b ++ (55 ∷ []));
  serialize_binary = λ b. (none, b ++ (7 ∷ []));
}

-- "S", and "Q" with one parameter.
abbrev calls : List Call
calls = queries (81 ∷ []) (seven ∷ []) FormatCode.binary FormatCode.text (pos 0) ∷ []

abbrev built : Request
built = record {
  buffer =
      (81 ∷ 0 ∷ 0 ∷ 0 ∷ 6 ∷ 83 ∷ 0 ∷ [])
      ++ ((80 ∷ 0 ∷ 0 ∷ 0 ∷ 13 ∷ 0 ∷ 81 ∷ 0 ∷ 0 ∷ 1 ∷ 0 ∷ 0 ∷ 0 ∷ 23 ∷ [])
          ++ ((66 ∷ 0 ∷ 0 ∷ 0 ∷ 19 ∷ 0 ∷ 0 ∷ 0 ∷ 1 ∷ 0 ∷ 1 ∷ 0 ∷ 1 ∷ 0 ∷ 0 ∷ 0 ∷ 1 ∷ 7 ∷ 0 ∷ 0 ∷ [])
              ++ ((68 ∷ 0 ∷ 0 ∷ 0 ∷ 6 ∷ 80 ∷ 0 ∷ [])
                  ++ ((69 ∷ 0 ∷ 0 ∷ 0 ∷ 9 ∷ 0 ∷ 0 ∷ 0 ∷ 0 ∷ 0 ∷ [])
                      ++ (83 ∷ 0 ∷ 0 ∷ 0 ∷ 4 ∷ [])))));
  types = query ∷ parse ∷ bind ∷ describe ∷ execute ∷ sync ∷ [];
  autosync = true;
}

builds : build big_endian (simple_query (83 ∷ []) ∷ calls) (request true) ≡ some (none, built)
unfolding build add_call request then_add add_advanced_impl add_simple_query add_query add_execute
    add_bind maybe_add_sync add_sync serialize serialize_parse serialize_query serialize_header_only
    serialize_bind serialize_params serialize_fmt_codes add_parameters start_parameter
    maybe_finish_parameter finalize_message overwrite add_error serialization_context big_endian
builds = refl

build-check_request_example :
    (check_request built.types ≡ none) × (get_expected_rfqs built.types ≡ 2)
build-check_request_example =
    build-check_request big_endian (simple_query (83 ∷ [])) calls built builds

-- The same calls, with what the parameter appends in binary.
abbrev valued : List ValuedCall
valued =
    simple (83 ∷ [])
    ∷ queried (81 ∷ []) ((seven, 7 ∷ []) ∷ []) FormatCode.binary FormatCode.text (pos 0)
    ∷ []

build-payload_example :
    build big_endian (map call_of valued) built
    ≡ some (
      none,
      record {
        buffer = built.buffer ++ payload_of big_endian (all_messages big_endian true valued);
        types = built.types ++ (query ∷ parse ∷ bind ∷ describe ∷ execute ∷ sync ∷ []);
        autosync = true;
      },
    )
unfolding big_endian
build-payload_example =
    build-payload big_endian big_endian-EndianLaws built valued
      (tt, ((((λ b. refl), tt), omega arith), tt))
      (omega arith, (omega arith, (omega arith, (omega arith, (omega arith, (omega arith, tt))))))
      (omega arith)

-- Without autosync the sync is not there.
no_sync :
    build big_endian (map call_of valued) (set_autosync false (request true))
    ≡ some (
      none,
      record {
        buffer = payload_of big_endian (all_messages big_endian false valued);
        types = query ∷ parse ∷ bind ∷ describe ∷ execute ∷ [];
        autosync = false;
      },
    )
unfolding big_endian request
no_sync =
    build-payload big_endian big_endian-EndianLaws (set_autosync false (request true)) valued
      (tt, ((((λ b. refl), tt), omega arith), tt))
      (omega arith, (omega arith, (omega arith, (omega arith, (omega arith, tt))))) (omega arith)

-- The documented frames are the bytes.
payload_agrees : payload_of big_endian (all_messages big_endian true valued) ≡ built.buffer
unfolding big_endian
payload_agrees = refl

-- 2 ^ 15 types of parameters.
unfoldable many : List ℤ
many = replicate (2 ^ 15) (pos 23)

many_size : length many ≡ 2 ^ 15
unfolding many
many_size = length-replicate (2 ^ 15) (pos 23)

failed_prepare_leaves_bytes_example :
    add_prepare big_endian (83 ∷ []) [] many built
    ≡ some (
      some (client value_too_big),
      record built { buffer = built.buffer ++ (80 ∷ blank (0 ∷ 83 ∷ 0 ∷ [])) },
    )
failed_prepare_leaves_bytes_example =
    failed_prepare_leaves_bytes big_endian (83 ∷ []) [] many built (omega (arith, many_size))
