-- ===== src/Request.antt =====
-- include/nativepg/request.hpp and src/request.cpp: how a request is put together.
pub mod Autosync
pub mod Payload
pub mod Failure
mod Tests
use nativepg.Prelude.{
  ℕ, ℤ, Bool, true, false, List, [], ◌∷◌, ◌++◌, Option, none, some, map, if◌then◌else◌, ◌>>=◌, ◌≡◌,
}
use nativepg.Protocol.{
  Error, ErrorCode, RequestMessageType, bind, close, describe, execute, flush, parse, query, sync,
}
use nativepg.Wire.{Endian, Serialized}
use nativepg.Wire.Messages.{PortalOrStatement, statement, portal, FrontendMessage, serialize}
use nativepg.Wire.Bind.{FormatCode, all_of, ParameterRef, add_parameters, serialize_bind}

pub record Request : Type 0 where
  pub buffer : List ℕ
  pub types : List RequestMessageType
  pub autosync : Bool

unfoldable pub request : Bool → Request
request autosync = record { buffer = []; types = []; autosync = autosync }

abbrev pub set_autosync : Bool → Request → Request
set_autosync value r = record r { autosync = value }

-- What a builder function leaves: the request, after an exception with the code that was thrown.
abbrev pub Added : Type 0
Added = Option (ErrorCode × Request)

unfoldable pub then_add : Added → (Request → Added) → Added
then_add none next = none
then_add (some (none, r)) next = next r
then_add (some (some e, r)) next = some (some e, r)

-- The exception of check leaves what serialize has written.
unfoldable pub add_advanced_impl : (List ℕ → Serialized) → RequestMessageType → Request → Added
add_advanced_impl serialized type r = do
  s ← serialized r.buffer
  some (elim s.0 [
    | none ↦ (none, record r { buffer = s.1; types = r.types ++ (type ∷ []) })
    | some e ↦ (some e, record r { buffer = s.1 })
  ])

module _ (endian : Endian) where
  abbrev pub add_message : FrontendMessage → RequestMessageType → Request → Added
  add_message m type = add_advanced_impl (serialize endian m) type

  unfoldable pub add_sync : Request → Added
  add_sync = add_message FrontendMessage.sync sync

  unfoldable pub maybe_add_sync : Request → Added
  maybe_add_sync r = let synced = add_sync r in if r.autosync then synced else some (none, r)

  unfoldable pub add_simple_query : List ℕ → Request → Added
  add_simple_query q = add_message (FrontendMessage.query q) query

  unfoldable pub add_prepare : List ℕ → List ℕ → List ℤ → Request → Added
  add_prepare sql statement_name oids r =
      then_add (add_message (FrontendMessage.parse statement_name sql oids) parse r) maybe_add_sync

  unfoldable pub add_describe : PortalOrStatement → List ℕ → Request → Added
  add_describe type name r =
      then_add (add_message (FrontendMessage.describe type name) describe r) maybe_add_sync

  unfoldable pub add_close : PortalOrStatement → List ℕ → Request → Added
  add_close type name r =
      then_add (add_message (FrontendMessage.close type name) close r) maybe_add_sync

  unfoldable pub add_bind :
      List ℕ → List ParameterRef → FormatCode → List ℕ → FormatCode → Request → Added
  add_bind statement_name params param_format portal_name result_format =
      add_advanced_impl
        (serialize_bind endian portal_name statement_name (all_of param_format)
          (add_parameters endian param_format params) (all_of result_format))
        bind

  unfoldable pub add_execute :
      List ℕ → List ParameterRef → FormatCode → FormatCode → ℤ → Request → Added
  add_execute statement_name params param_format result_format max_num_rows r =
      then_add (add_bind statement_name params param_format [] result_format r) λ bound.
        then_add (add_message (FrontendMessage.describe portal []) describe bound) λ described.
          then_add (add_message (FrontendMessage.execute [] max_num_rows) execute described)
            maybe_add_sync

  unfoldable pub add_query :
      List ℕ → List ParameterRef → FormatCode → FormatCode → ℤ → Request → Added
  add_query q params param_format result_format max_num_rows r =
      then_add (add_message (FrontendMessage.parse [] q (map (λ p. p.type_oid) params)) parse r)
        (add_execute [] params param_format result_format max_num_rows)
