-- ===== src/Pool/Sizing.antt =====
-- num_connections_to_create of sansio_connection_node.hpp.
use nativepg.Prelude.{ℕ, ◌+◌, ◌≤◌, ◌≡◌, ◌⊎◌, arith}
use nativepg.Pool.Node.{num_connections_to_create}

-- For a pool within its limits: the pool never grows over max_size; it has at least initial_size connections; each waiting
-- request has a pending connection of its own unless the pool is full; and no connection is opened
-- that neither the requests nor initial_size ask for.
pub num_connections_to_create_lem :
    (initial_size max_size current pending requests : ℕ)
    → initial_size ≤ max_size
    → current ≤ max_size
    → pending ≤ current
    → let n = num_connections_to_create initial_size max_size current pending requests in
      (current + n ≤ max_size)
      × (initial_size ≤ current + n)
      × ((requests ≤ pending + n) ⊎ (current + n ≡ max_size))
      × ((n ≡ 0) ⊎ (pending + n ≤ requests) ⊎ (current + n ≤ initial_size))
unfolding num_connections_to_create
num_connections_to_create_lem i m c p r hi hc hp = ground arith
