-- ===== src/Pool.antt =====
-- src/nativepg_internal/connection_pool: the connection pool. sansio_connection_node.hpp is the
-- child Node; this file has connection_node.hpp, connection_pool_impl.hpp and
-- check_pool_params.hpp. Coroutines are cut at their waits: each piece between two waits is a
-- function on the state of the pool.
pub mod Node
pub mod Sizing
pub mod Invariant
pub mod Operations
pub mod Waiting
pub mod Lifetime
mod Tests
use nativepg.Prelude.{
  ℤ, is_negative, is_positive, ℕ, zero, suc, ◌+◌, ◌-◌, ◌≡◌, Bool, true, false, not, List, [], ◌∷◌,
  ◌++◌, Option, none, some, if◌then◌else◌, length, get_elem?, set, replicate, ◌==◌, ltb, leb, ◌>>=◌,
  decrement, increment,
}
use nativepg.Protocol.{ErrorCode}
use nativepg.Pool.Node.{
  NodeStatus, CollectionState, NextAction, Hook, entering_idle, exiting_idle, entering_pending,
  exiting_pending, Transition, status_to_action, set_status, resume, num_connections_to_create,
}

-- pool_params, without the transport. A std::chrono duration is its number of ticks.
pub record PoolParams : Type 0 where
  pub initial_size : ℕ
  pub max_size : ℕ
  pub connect_timeout : ℤ
  pub retry_interval : ℤ
  pub ping_interval : ℤ
  pub ping_timeout : ℤ

-- The guards of check_pool_params; a failure is std::invalid_argument.
unfoldable pub check_pool_params : PoolParams → Bool
check_pool_params p =
    if p.max_size == 0
    then false
    else if ltb p.max_size p.initial_size
    then false
    else if is_negative p.connect_timeout
    then false
    else if not (is_positive p.retry_interval)
    then false
    else if is_negative p.ping_interval
    then false
    else if is_negative p.ping_timeout
    then false
    else true

-- connection_node: its status, and the notice that it was returned, with its event.
pub record PoolNode : Type 0 where
  pub status : NodeStatus
  pub collection : CollectionState
  pub collection_set : Bool

pub data PoolState : Type 0 where
  initial running cancelled : PoolState

-- co_connection_pool_impl with conn_shared_state. A connection is its place in all_conns_;
-- `wakeups` counts the calls of idle_connections_cv.cancel_one.
pub record Pool : Type 0 where
  pub params : PoolParams
  pub state : PoolState
  pub nodes : List PoolNode
  pub idle_list : List ℕ
  pub wakeups : ℕ
  pub num_pending_connections : ℕ
  pub num_pending_requests : ℕ
  pub connections_needed : Bool

unfoldable pub make_pool : PoolParams → Option Pool
make_pool params =
    if check_pool_params params
    then some (record {
      params = params;
      state = PoolState.initial;
      nodes = [];
      idle_list = [];
      wakeups = 0;
      num_pending_connections = 0;
      num_pending_requests = 0;
      connections_needed = false;
    })
    else none

-- idle_list.erase at the element's own hook.
unfoldable pub erase : ℕ → List ℕ → List ℕ
erase i [] = []
erase i (j ∷ js) = if i == j then js else j ∷ erase i js

-- The hooks of connection_node.
unfoldable pub apply_hook : ℕ → Hook → Pool → Pool
apply_hook i entering_idle p = record p {
  idle_list = p.idle_list ++ (i ∷ []);
  wakeups = suc p.wakeups;
}
apply_hook i exiting_idle p = record p { idle_list = erase i p.idle_list }
apply_hook i entering_pending p = record p {
  num_pending_connections = increment p.num_pending_connections;
}
apply_hook i exiting_pending p = record p {
  num_pending_connections = decrement p.num_pending_connections;
}

unfoldable pub apply_hooks : ℕ → List Hook → Pool → Pool
apply_hooks i [] p = p
apply_hooks i (h ∷ hs) p = apply_hooks i hs (apply_hook i h p)

-- The hooks run first, then the status is stored.
unfoldable pub apply_transition : ℕ → PoolNode → Transition → Pool → Pool
apply_transition i node t p =
    let q = apply_hooks i t.hooks p in
    record q { nodes = set q.nodes i (record node { status = t.status }) }

-- One round of the loop of connection_node::run, after the wait of the action that the node is in
-- has ended with the code `ec`; at first, before any. A reset does nothing and cannot fail. The
-- idle wait takes the notice of a return.
resume_node : NextAction → ErrorCode → ℕ → PoolNode → Pool → Pool
resume_node NextAction.idle_wait ec i node p =
    apply_transition i
      (record node { collection = CollectionState.not_returned; collection_set = false })
      (resume node.status ec node.collection) p
resume_node NextAction.reset ec i node p =
    apply_transition i node (resume node.status none CollectionState.not_returned) p
resume_node _ ec i node p =
    apply_transition i node (resume node.status ec CollectionState.not_returned) p

unfoldable pub step_node : ℕ → ErrorCode → Pool → Option Pool
unfolding resume_node
step_node i ec p = do
  node ← get_elem? p.nodes i
  some (resume_node (status_to_action node.status) ec i node p)

abbrev pub new_node : PoolNode
new_node = record {
  status = NodeStatus.initial;
  collection = CollectionState.not_returned;
  collection_set = false;
}

-- How many connections create_connections opens.
abbrev pub to_create : Pool → ℕ
to_create p =
    num_connections_to_create p.params.initial_size p.params.max_size (length p.nodes)
      p.num_pending_connections p.num_pending_requests

-- The tasks of the new connections run later, each from its first step_node on.
unfoldable pub create_connections : Pool → Pool
create_connections p = record p { nodes = p.nodes ++ replicate (to_create p) new_node }

-- co_connection_pool_impl::run: up to its first wait, after a wait, and after cancellation.
unfoldable pub run_start : Pool → Pool
unfolding create_connections
run_start p = create_connections (record p { state = PoolState.running })

unfoldable pub run_more : Pool → Pool
unfolding create_connections
run_more p = create_connections (record p { connections_needed = false })

unfoldable pub run_cancel : Pool → Pool
run_cancel p = record p { state = PoolState.cancelled }

unfoldable pub enter_request_pending : Pool → Pool
enter_request_pending p = record p {
  num_pending_requests = increment p.num_pending_requests;
  connections_needed = true;
}

unfoldable pub exit_request_pending : Pool → Pool
exit_request_pending p = record p { num_pending_requests = decrement p.num_pending_requests }

mark_as_in_use : ℕ → PoolNode → Pool → Pool
mark_as_in_use i node p = apply_transition i node (set_status node.status NodeStatus.in_use) p

-- try_get_connection: the connection handed out, if there is one, and the pool.
try_front : List ℕ → Pool → Option ℕ × Pool
unfolding mark_as_in_use
try_front [] p = (none, p)
try_front (i ∷ is) p = elim (get_elem? p.nodes i) [
  | none ↦ (none, p)
  | some node ↦ (some i, mark_as_in_use i node p)
]

unfoldable pub try_get_connection : Pool → Option ℕ × Pool
unfolding try_front
try_get_connection p = try_front p.idle_list p

-- get_connection, between its waits: it ends with a connection or with `canceled`, or it waits.
pub data GetResult : Type 0 where
  canceled waiting : GetResult
  connection : ℕ → GetResult

got : Option ℕ × Pool → GetResult × Pool → GetResult × Pool
got (some i, p) other = (connection i, p)
got (none, p) other = other

unfoldable pub get_connection : Pool → GetResult × Pool
unfolding got
get_connection p = elim p.state [
  | PoolState.cancelled ↦ (canceled, p)
  | _ ↦ got (try_get_connection p) (waiting, enter_request_pending p)
]

-- The wait is over; the flag says that a stop was requested.
unfoldable pub get_connection_woken : Bool → Pool → GetResult × Pool
unfolding got
get_connection_woken stopped p =
    let q = exit_request_pending p in
    let again = if stopped then (canceled, q) else (waiting, enter_request_pending q) in
    elim q.state [ PoolState.cancelled ↦ (canceled, q) | _ ↦ got (try_get_connection q) again ]

-- return_connection, which the destructor of pooled_connection calls with a reset.
unfoldable pub return_connection : ℕ → Bool → Pool → Option Pool
return_connection i should_reset p = do
  node ← get_elem? p.nodes i
  some (record p {
    nodes = set p.nodes i (record node {
      collection =
          if should_reset
          then CollectionState.needs_collect_with_reset
          else CollectionState.needs_collect;
      collection_set = true;
    });
  })
