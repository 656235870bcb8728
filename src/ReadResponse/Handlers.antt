-- ===== src/ReadResponse/Handlers.antt =====
-- What each handler of read_response_fsm.cpp does to a valid request: one lemma for each.
use nativepg.Prelude.{ℕ, ◌≡◌, refl, true, false, List, ◌∷◌, none, inl, inr, arith, Bool-cases}
use nativepg.Protocol.{
  RequestMessageType, bind, close, describe, execute, parse, query, sync, BackendMessage, Kind,
}
use nativepg.CheckRequest.{check_batches, get_expected_rfqs}
use nativepg.ReadResponse.{
  State, ReadResponseFsm, get_remaining_messages, handle_bind, handle_close, handle_describe,
  handle_parse, handle_sync, handle_execute, handle_query, start_copy, execute_first,
  execute_copy_out, execute_copy_done, query_start, query_in_rows, query_ended, query_in_copy,
  query_copy_done, query_empty, query_ready, read,
}
use nativepg.ReadResponse.Accounting.{
  Inv, Stepped, Fits, rfqs_of, handle_error-Stepped, advance-Stepped, stay-Stepped, IsQueryState,
}

abbrev message : Kind → List ℕ → BackendMessage
message k body = record { kind = k; body = body }

abbrev in_state : State → ReadResponseFsm → ReadResponseFsm
in_state s f = record f { state = s }

-- The messages of the extended protocol that are answered once.
module _ (f : ReadResponseFsm) (ms : List RequestMessageType) (h : check_batches true ms ≡ none)
    (first : f.state ≡ State.msg_first) where
  pub handle_bind-Stepped :
      (k : Kind) (body : List ℕ)
      → get_remaining_messages f ≡ bind ∷ ms
      → Stepped f k (handle_bind (message k body) f)
  unfolding handle_bind get_expected_rfqs
  handle_bind-Stepped Kind.error_response body here = handle_error-Stepped _ f here refl h
  handle_bind-Stepped Kind.bind_complete body here =
      advance-Stepped true Kind.bind_complete _ ms here first h (omega arith) (λ e. cc)
  handle_bind-Stepped _ body here = inl refl

  pub handle_close-Stepped :
      (k : Kind) (body : List ℕ)
      → get_remaining_messages f ≡ close ∷ ms
      → Stepped f k (handle_close (message k body) f)
  unfolding handle_close get_expected_rfqs
  handle_close-Stepped Kind.error_response body here = handle_error-Stepped _ f here refl h
  handle_close-Stepped Kind.close_complete body here =
      advance-Stepped true Kind.close_complete _ ms here first h (omega arith) (λ e. cc)
  handle_close-Stepped _ body here = inl refl

  pub handle_parse-Stepped :
      (k : Kind) (body : List ℕ)
      → get_remaining_messages f ≡ parse ∷ ms
      → Stepped f k (handle_parse (message k body) f)
  unfolding handle_parse get_expected_rfqs
  handle_parse-Stepped Kind.error_response body here = handle_error-Stepped _ f here refl h
  handle_parse-Stepped Kind.parse_complete body here =
      advance-Stepped true Kind.parse_complete _ ms here first h (omega arith) (λ e. cc)
  handle_parse-Stepped _ body here = inl refl

  pub handle_describe-Stepped :
      (k : Kind) (body : List ℕ)
      → get_remaining_messages f ≡ describe ∷ ms
      → Stepped f k (handle_describe (message k body) f)
  unfolding handle_describe get_expected_rfqs
  handle_describe-Stepped Kind.error_response body here = handle_error-Stepped _ f here refl h
  handle_describe-Stepped Kind.row_description body here =
      advance-Stepped true Kind.row_description _ ms here first h (omega arith) (λ e. cc)
  handle_describe-Stepped Kind.no_data body here =
      advance-Stepped true Kind.no_data _ ms here first h (omega arith) (λ e. cc)
  handle_describe-Stepped _ body here = inl refl

pub handle_sync-Stepped :
    (f : ReadResponseFsm) (ms : List RequestMessageType) (k : Kind) (body : List ℕ)
    → check_batches false ms ≡ none
    → f.state ≡ State.msg_first
    → get_remaining_messages f ≡ sync ∷ ms
    → Stepped f k (handle_sync (message k body) f)
unfolding handle_sync get_expected_rfqs
handle_sync-Stepped f ms Kind.ready_for_query body h first here =
    advance-Stepped false Kind.ready_for_query f ms here first h (omega arith) (λ _. refl)
handle_sync-Stepped f ms Kind.data_row body h first here = inl refl
handle_sync-Stepped f ms _ body h first here = inl refl

start_copy-Stepped :
    (s : State) (f : ReadResponseFsm)
    → Inv f
    → Fits (get_remaining_messages f) s
    → Stepped f Kind.copy_out_response (start_copy s f)
unfolding start_copy
start_copy-Stepped s f v fits = elim (Bool-cases f.allow_copy) [
  | inl e ↦ simp e (stay-Stepped Kind.copy_out_response f _ v refl refl fits refl)
  | inr e ↦ simp e (inr refl)
]

-- execute, in each of its states.
module _ (f : ReadResponseFsm) (ms : List RequestMessageType) (h : check_batches true ms ≡ none)
    (here : get_remaining_messages f ≡ execute ∷ ms) (v : Inv f) where
  execute_first-Stepped :
      (k : Kind) (body : List ℕ)
      → f.state ≡ State.msg_first
      → Stepped f k (execute_first (message k body) f)
  unfolding execute_first get_expected_rfqs
  execute_first-Stepped Kind.copy_out_response body first =
      start_copy-Stepped State.exec_copy_out f v (rw here tt)
  execute_first-Stepped Kind.error_response body first = handle_error-Stepped _ f here refl h
  execute_first-Stepped Kind.command_complete body first =
      advance-Stepped true Kind.command_complete _ ms here first h (omega arith) (λ e. cc)
  execute_first-Stepped Kind.empty_query_response body first =
      advance-Stepped true Kind.empty_query_response _ ms here first h (omega arith) (λ e. cc)
  execute_first-Stepped Kind.portal_suspended body first =
      advance-Stepped true Kind.portal_suspended _ ms here first h (omega arith) (λ e. cc)
  execute_first-Stepped Kind.data_row body first =
      stay-Stepped Kind.data_row f _ v refl refl v.fits refl
  execute_first-Stepped _ body first = inl refl

  execute_copy_out-Stepped :
      (k : Kind) (body : List ℕ) → Stepped f k (execute_copy_out (message k body) f)
  unfolding execute_copy_out get_expected_rfqs
  execute_copy_out-Stepped Kind.copy_data body =
      stay-Stepped Kind.copy_data f f v refl refl v.fits refl
  execute_copy_out-Stepped Kind.error_response body = handle_error-Stepped _ f here refl h
  execute_copy_out-Stepped Kind.copy_done body =
      stay-Stepped Kind.copy_done f _ v refl refl (rw here tt) refl
  execute_copy_out-Stepped _ body = inl refl

  execute_copy_done-Stepped :
      (k : Kind) (body : List ℕ) → Stepped f k (execute_copy_done (message k body) f)
  unfolding execute_copy_done get_expected_rfqs
  execute_copy_done-Stepped Kind.error_response body = handle_error-Stepped _ f here refl h
  execute_copy_done-Stepped Kind.command_complete body =
      advance-Stepped true Kind.command_complete _ ms here refl h (omega arith) (λ e. cc)
  execute_copy_done-Stepped _ body = inl refl

pub handle_execute-Stepped :
    (s : State) (k : Kind) (body : List ℕ) (f : ReadResponseFsm) (ms : List RequestMessageType)
    → check_batches true ms ≡ none
    → get_remaining_messages f ≡ execute ∷ ms
    → Inv (in_state s f)
    → Stepped (in_state s f) k (handle_execute (message k body) (in_state s f))
unfolding handle_execute
handle_execute-Stepped State.msg_first k body f ms h here v =
    execute_first-Stepped (in_state State.msg_first f) ms h here v k body refl
handle_execute-Stepped State.exec_copy_out k body f ms h here v =
    execute_copy_out-Stepped (in_state State.exec_copy_out f) ms h here v k body
handle_execute-Stepped State.exec_copy_out_needs_command_complete k body f ms h here v =
    execute_copy_done-Stepped (in_state State.exec_copy_out_needs_command_complete f) ms h here v k
      body
handle_execute-Stepped _ k body f ms h here v = inl refl

-- query, in each of its states.
module _ (f : ReadResponseFsm) (ms : List RequestMessageType) (h : check_batches false ms ≡ none)
    (here : get_remaining_messages f ≡ query ∷ ms) (v : Inv f) where
  query_stays :
      (k : Kind) (g : ReadResponseFsm)
      → get_remaining_messages g ≡ get_remaining_messages f
      → g.req ≡ f.req
      → IsQueryState g.state
      → rfqs_of k ≡ 0
      → Stepped f k (read, g)
  query_stays k g same r s z = stay-Stepped k f g v same r (rw here s) z

  query_empty-Stepped : (s : State) → Stepped f Kind.empty_query_response (query_empty s f)
  unfolding query_empty
  query_empty-Stepped State.msg_first = query_stays Kind.empty_query_response _ refl refl tt refl
  query_empty-Stepped _ = inl refl

  query_ready-Stepped : (s : State) → Stepped f Kind.ready_for_query (query_ready s f)
  unfolding query_ready get_expected_rfqs
  query_ready-Stepped State.query_first =
      advance-Stepped false Kind.ready_for_query (in_state State.msg_first f) ms here refl h
        (omega arith) (λ _. refl)
  query_ready-Stepped _ = inl refl

  query_start-Stepped : (k : Kind) (body : List ℕ) → Stepped f k (query_start (message k body) f)
  unfolding query_start
  query_start-Stepped Kind.copy_out_response body =
      start_copy-Stepped State.query_copy_out f v (rw here tt)
  query_start-Stepped Kind.error_response body = query_stays Kind.error_response _ refl refl tt refl
  query_start-Stepped Kind.row_description body =
      query_stays Kind.row_description _ refl refl tt refl
  query_start-Stepped Kind.command_complete body =
      query_stays Kind.command_complete _ refl refl tt refl
  query_start-Stepped Kind.empty_query_response body = query_empty-Stepped f.state
  query_start-Stepped Kind.ready_for_query body = query_ready-Stepped f.state
  query_start-Stepped _ body = inl refl

  query_in_rows-Stepped :
      (k : Kind) (body : List ℕ) → Stepped f k (query_in_rows (message k body) f)
  unfolding query_in_rows
  query_in_rows-Stepped Kind.error_response body =
      query_stays Kind.error_response _ refl refl tt refl
  query_in_rows-Stepped Kind.data_row body = stay-Stepped Kind.data_row f _ v refl refl v.fits refl
  query_in_rows-Stepped Kind.command_complete body =
      query_stays Kind.command_complete _ refl refl tt refl
  query_in_rows-Stepped _ body = inl refl

  query_ended-Stepped : (k : Kind) (body : List ℕ) → Stepped f k (query_ended (message k body) f)
  unfolding query_ended get_expected_rfqs
  query_ended-Stepped Kind.ready_for_query body =
      advance-Stepped false Kind.ready_for_query (in_state State.msg_first f) ms here refl h
        (omega arith) (λ _. refl)
  query_ended-Stepped _ body = inl refl

  query_in_copy-Stepped :
      (k : Kind) (body : List ℕ) → Stepped f k (query_in_copy (message k body) f)
  unfolding query_in_copy
  query_in_copy-Stepped Kind.copy_data body =
      stay-Stepped Kind.copy_data f f v refl refl v.fits refl
  query_in_copy-Stepped Kind.error_response body =
      query_stays Kind.error_response _ refl refl tt refl
  query_in_copy-Stepped Kind.copy_done body = query_stays Kind.copy_done _ refl refl tt refl
  query_in_copy-Stepped _ body = inl refl

  query_copy_done-Stepped :
      (k : Kind) (body : List ℕ) → Stepped f k (query_copy_done (message k body) f)
  unfolding query_copy_done
  query_copy_done-Stepped Kind.error_response body =
      query_stays Kind.error_response _ refl refl tt refl
  query_copy_done-Stepped Kind.command_complete body =
      query_stays Kind.command_complete _ refl refl tt refl
  query_copy_done-Stepped _ body = inl refl

pub handle_query-Stepped :
    (s : State) (k : Kind) (body : List ℕ) (f : ReadResponseFsm) (ms : List RequestMessageType)
    → check_batches false ms ≡ none
    → get_remaining_messages f ≡ query ∷ ms
    → Inv (in_state s f)
    → Stepped (in_state s f) k (handle_query (message k body) (in_state s f))
unfolding handle_query
handle_query-Stepped State.msg_first k body f ms h here v =
    query_start-Stepped (in_state State.msg_first f) ms h here v k body
handle_query-Stepped State.query_first k body f ms h here v =
    query_start-Stepped (in_state State.query_first f) ms h here v k body
handle_query-Stepped State.query_rows k body f ms h here v =
    query_in_rows-Stepped (in_state State.query_rows f) ms h here v k body
handle_query-Stepped State.query_needs_ready k body f ms h here v =
    query_ended-Stepped (in_state State.query_needs_ready f) ms h here v k body
handle_query-Stepped State.query_copy_out k body f ms h here v =
    query_in_copy-Stepped (in_state State.query_copy_out f) ms h here v k body
handle_query-Stepped State.query_copy_out_needs_command_complete k body f ms h here v =
    query_copy_done-Stepped (in_state State.query_copy_out_needs_command_complete f) ms h here v k
      body
handle_query-Stepped _ k body f ms h here v = inl refl
