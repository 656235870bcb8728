-- ===== src/Pool/Tests.antt =====
-- Runs of the connection pool.
use nativepg.Prelude.{pos, ◌+◌, ◌≤◌, ◌≡◌, ◌⊎◌, refl, Bool, false, [], some, arith}
use nativepg.Pool.Node.{num_connections_to_create}
use nativepg.Pool.{
  PoolParams, PoolState, Pool, check_pool_params, make_pool, run_start, get_connection,
  create_connections, try_get_connection, try_front, got, exit_request_pending,
  get_connection_woken,
}
use nativepg.Pool.Invariant.{PoolInv}
use nativepg.Pool.Operations.{make_pool-PoolInv}
use nativepg.Pool.Lifetime.{PoolStep, Reachable, Reachable-PoolInv, Served, get_connection-Served}
use nativepg.Pool.Sizing.{num_connections_to_create_lem}

abbrev params : PoolParams
params = record {
  initial_size = 1;
  max_size = 2;
  connect_timeout = pos 20;
  retry_interval = pos 30;
  ping_interval = pos 30;
  ping_timeout = pos 10;
}

abbrev fresh : Pool
fresh = record {
  params = params;
  state = PoolState.initial;
  nodes = [];
  idle_list = [];
  wakeups = 0;
  num_pending_connections = 0;
  num_pending_requests = 0;
  connections_needed = false;
}

made_fresh : make_pool params ≡ some fresh
unfolding make_pool check_pool_params
made_fresh = refl

-- A call that waits.
one_waits : Reachable params (get_connection (run_start fresh)).1 1
unfolding get_connection got run_start create_connections try_get_connection try_front
one_waits =
    Reachable.later (Reachable.later (Reachable.made made_fresh) (PoolStep.starts refl))
      PoolStep.gets

Reachable-PoolInv_example :
    PoolInv (get_connection (run_start fresh)).1
    × ((get_connection (run_start fresh)).1.num_pending_requests ≡ 1)
Reachable-PoolInv_example = Reachable-PoolInv params (omega arith) (omega arith) one_waits

get_connection-Served_example :
    Served false fresh (get_connection fresh)
    × ((stopped : Bool)
        → Served stopped (exit_request_pending fresh) (get_connection_woken stopped fresh))
get_connection-Served_example =
    get_connection-Served fresh (make_pool-PoolInv params (omega arith) made_fresh)

num_connections_to_create_lem_example :
    (1 + num_connections_to_create 2 5 1 1 3 ≤ 5)
    × (2 ≤ 1 + num_connections_to_create 2 5 1 1 3)
    × ((3 ≤ 1 + num_connections_to_create 2 5 1 1 3)
        ⊎ (1 + num_connections_to_create 2 5 1 1 3 ≡ 5))
    × ((num_connections_to_create 2 5 1 1 3 ≡ 0)
        ⊎ (1 + num_connections_to_create 2 5 1 1 3 ≤ 3)
        ⊎ (1 + num_connections_to_create 2 5 1 1 3 ≤ 2))
num_connections_to_create_lem_example =
    num_connections_to_create_lem 2 5 1 1 3 (omega arith) (omega arith) (omega arith)
