-- ===== src/Pool/Node.antt =====
-- src/nativepg_internal/connection_pool/sansio_connection_node.hpp: the state machine of one
-- connection, and the number of connections that a pool should open.
use nativepg.Prelude.{
  ℕ, ◌-◌, Bool, true, false, not, ◌&&◌, List, [], ◌∷◌, ◌++◌, none, some, if◌then◌else◌, ltb, min,
  max,
}
use nativepg.Protocol.{ErrorCode}

-- node_status
pub data NodeStatus : Type 0 where
  initial connect_in_progress sleep_connect_failed_in_progress reset_in_progress : NodeStatus
  ping_in_progress idle in_use terminated : NodeStatus

-- next_connection_action
pub data NextAction : Type 0 where
  stop connect sleep_connect_failed idle_wait reset ping : NextAction

-- collection_state
pub data CollectionState : Type 0 where
  not_returned needs_collect needs_collect_with_reset : CollectionState

-- The calls that the node makes to its derived class.
pub data Hook : Type 0 where
  entering_idle exiting_idle entering_pending exiting_pending : Hook

unfoldable pub is_pending : NodeStatus → Bool
is_pending NodeStatus.initial = false
is_pending NodeStatus.idle = false
is_pending NodeStatus.in_use = false
is_pending NodeStatus.terminated = false
is_pending _ = true

unfoldable pub is_idle : NodeStatus → Bool
is_idle NodeStatus.idle = true
is_idle _ = false

unfoldable pub status_to_action : NodeStatus → NextAction
status_to_action NodeStatus.connect_in_progress = NextAction.connect
status_to_action NodeStatus.sleep_connect_failed_in_progress = NextAction.sleep_connect_failed
status_to_action NodeStatus.ping_in_progress = NextAction.ping
status_to_action NodeStatus.reset_in_progress = NextAction.reset
status_to_action NodeStatus.idle = NextAction.idle_wait
status_to_action NodeStatus.in_use = NextAction.idle_wait
status_to_action _ = NextAction.stop

-- The two notifications of set_status, by whether the old status and the new one are idle, and
-- whether they are pending.
unfoldable pub idle_hooks : Bool → Bool → List Hook
idle_hooks was is =
    if is && not was then entering_idle ∷ [] else if not is && was then exiting_idle ∷ [] else []

unfoldable pub pending_hooks : Bool → Bool → List Hook
pending_hooks was is =
    if not was && is
    then entering_pending ∷ []
    else if was && not is
    then exiting_pending ∷ []
    else []

-- What set_status and resume leave: the status, the hooks called, in order, and the action.
pub record Transition : Type 0 where
  pub status : NodeStatus
  pub hooks : List Hook
  pub action : NextAction

unfoldable pub set_status : NodeStatus → NodeStatus → Transition
unfolding status_to_action
set_status old new = record {
  status = new;
  hooks = idle_hooks (is_idle old) (is_idle new) ++ pending_hooks (is_pending old) (is_pending new);
  action = status_to_action new;
}

unfoldable pub cancel : NodeStatus → Transition
unfolding set_status
cancel old = set_status old NodeStatus.terminated

on_result : NodeStatus → NodeStatus → ErrorCode → Transition
unfolding set_status
on_result old failed (some e) = set_status old failed
on_result old failed none = set_status old NodeStatus.idle

on_collect : CollectionState → Transition
unfolding set_status
on_collect CollectionState.needs_collect = set_status NodeStatus.in_use NodeStatus.idle
on_collect CollectionState.needs_collect_with_reset =
    set_status NodeStatus.in_use NodeStatus.reset_in_progress
on_collect CollectionState.not_returned = record {
  status = NodeStatus.in_use;
  hooks = [];
  action = NextAction.idle_wait;
}

unfoldable pub resume : NodeStatus → ErrorCode → CollectionState → Transition
unfolding set_status on_result on_collect
resume NodeStatus.initial ec st = set_status NodeStatus.initial NodeStatus.connect_in_progress
resume NodeStatus.connect_in_progress ec st =
    on_result NodeStatus.connect_in_progress NodeStatus.sleep_connect_failed_in_progress ec
resume NodeStatus.sleep_connect_failed_in_progress ec st =
    set_status NodeStatus.sleep_connect_failed_in_progress NodeStatus.connect_in_progress
resume NodeStatus.idle ec st = set_status NodeStatus.idle NodeStatus.ping_in_progress
resume NodeStatus.in_use ec st = on_collect st
resume NodeStatus.ping_in_progress ec st =
    on_result NodeStatus.ping_in_progress NodeStatus.connect_in_progress ec
resume NodeStatus.reset_in_progress ec st =
    on_result NodeStatus.reset_in_progress NodeStatus.connect_in_progress ec
resume NodeStatus.terminated ec st = record {
  status = NodeStatus.terminated;
  hooks = [];
  action = NextAction.stop;
}

-- The differences are taken where they are not negative, and max_size is not exceeded.
unfoldable pub num_connections_to_create : ℕ → ℕ → ℕ → ℕ → ℕ → ℕ
num_connections_to_create initial_size max_size current pending_connections pending_requests =
    let required_by_requests =
      if ltb pending_connections pending_requests
      then pending_requests - pending_connections
      else 0 in
    let required_by_min = if ltb current initial_size then initial_size - current else 0 in
    min (max required_by_requests required_by_min) (max_size - current)
