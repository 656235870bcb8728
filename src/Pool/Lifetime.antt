-- ===== src/Pool/Lifetime.antt =====
-- The pool from its construction on, under every order of its tasks; and whom get_connection
-- serves.
use nativepg.Prelude.{
  ℕ, suc, ◌^◌, ◌<◌, ◌≡◌, refl, sym, ◌∙◌, ap, Bool, true, false, List, [], ◌∷◌, Option, none, some,
  ◌≢◌, ◌⊎◌, inl, inr, increment, some_inj, Bool-cases, if◌then◌else◌, arith, subst, get_elem?,
  get_elem?-set_self, ==_iff,
}
use nativepg.Protocol.{ErrorCode}
use nativepg.Pool.Node.{NodeStatus, is_idle}
use nativepg.Pool.Invariant.{PoolInv, bit, occurrences, idle_at, apply_transition_lem}
use nativepg.Pool.Waiting.{
  waits_of, Counts, step_node-Counts, return_connection-Counts, get_connection-Counts,
  get_connection_woken-Counts,
}
use nativepg.Pool.Operations.{
  exit-PoolInv, make_pool-PoolInv, create_connections-PoolInv, step_node-PoolInv,
  get_connection-PoolInv, get_connection_woken-PoolInv, return_connection-PoolInv, same_pool,
  try_get-PoolInv,
}
use nativepg.Pool.{
  PoolNode, Pool, PoolParams, PoolState, make_pool, step_node, run_start, run_more, run_cancel,
  GetResult, canceled, waiting, connection, got, get_connection, get_connection_woken,
  return_connection, try_get_connection, try_front, mark_as_in_use, enter_request_pending,
  exit_request_pending, check_pool_params, create_connections,
}

-- One piece of one of the tasks, between two of its waits, where so many calls of get_connection
-- wait before it and so many behind it.
pub data PoolStep (p : Pool) (w : ℕ) : Pool → ℕ → Type 0 where
  starts : p.state ≡ PoolState.initial → PoolStep p w (run_start p) w
  grows : p.state ≡ PoolState.running → PoolStep p w (run_more p) w
  cancels : p.state ≡ PoolState.running → PoolStep p w (run_cancel p) w
  steps : {q : Pool} (i : ℕ) (ec : ErrorCode) → step_node i ec p ≡ some q → PoolStep p w q w
  gets : PoolStep p w (get_connection p).1 (waits_of (get_connection p).0 w)
  wakes :
      (stopped : Bool) (others : ℕ)
      → w ≡ suc others
      → PoolStep p w
          (get_connection_woken stopped p).1
          (waits_of (get_connection_woken stopped p).0 others)
  returns :
      {q : Pool} (i : ℕ) (should_reset : Bool)
      → return_connection i should_reset p ≡ some q
      → PoolStep p w q w

pub data Reachable (params : PoolParams) : Pool → ℕ → Type 0 where
  made : {p : Pool} → make_pool params ≡ some p → Reachable params p 0
  later : {p q : Pool} {w u : ℕ} → Reachable params p w → PoolStep p w q u → Reachable params q u

PoolStep-PoolInv : {p q : Pool} {w u : ℕ} → PoolStep p w q u → PoolInv p → PoolInv q
PoolStep-PoolInv {p} (starts h) v =
    unfold run_start in
    create_connections-PoolInv (record p { state = PoolState.running })
      (same_pool p _ v refl refl refl refl)
PoolStep-PoolInv {p} (grows h) v =
    unfold run_more in
    create_connections-PoolInv (record p { connections_needed = false })
      (same_pool p _ v refl refl refl refl)
PoolStep-PoolInv {p} (cancels h) v = unfold run_cancel in same_pool p _ v refl refl refl refl
PoolStep-PoolInv {p} (steps i ec h) v = step_node-PoolInv i ec p v h
PoolStep-PoolInv {p} gets v = get_connection-PoolInv p v
PoolStep-PoolInv {p} (wakes stopped others h) v = get_connection_woken-PoolInv stopped p v
PoolStep-PoolInv {p} (returns i b h) v = return_connection-PoolInv i b p v h

PoolStep-Counts : {p q : Pool} {w u : ℕ} → PoolStep p w q u → Counts p w → Counts q u
unfolding run_start run_more run_cancel create_connections
PoolStep-Counts (starts h) c = c
PoolStep-Counts (grows h) c = c
PoolStep-Counts (cancels h) c = c
PoolStep-Counts {p} {w = w} (steps i ec h) c = step_node-Counts i ec p w h c
PoolStep-Counts {p} {w = w} gets c = get_connection-Counts p w c
PoolStep-Counts {p} (wakes stopped others h) c =
    get_connection_woken-Counts stopped p others (subst (Counts p) h c)
PoolStep-Counts {p} {w = w} (returns i b h) c = return_connection-Counts i b p w h c

made-Counts : (params : PoolParams) {p : Pool} → make_pool params ≡ some p → Counts p 0
unfolding make_pool
made-Counts params {p} h = elim (Bool-cases (check_pool_params params)) [
  | inl ok ↦ ap (λ (q : Pool). q.num_pending_requests) (sym (some_inj (rw ok at h)))
  | inr bad ↦ cc (rw bad at h)
]

Reachable-Counts : (params : PoolParams) {p : Pool} {w : ℕ} → Reachable params p w → Counts p w
Reachable-Counts params (made h) = made-Counts params h
Reachable-Counts params (later r st) = PoolStep-Counts st (Reachable-Counts params r)

in_order :
    (params : PoolParams) {p : Pool} {w : ℕ}
    → params.max_size < 2 ^ 64
    → Reachable params p w
    → PoolInv p
in_order params s (made h) = make_pool-PoolInv params s h
in_order params s (later r st) = PoolStep-PoolInv st (in_order params s r)

-- Whatever the tasks of the pool do and in whatever order, from its construction on: the idle list
-- holds exactly the idle connections, each once; num_pending_connections is the number of pending
-- connections; num_pending_requests is the number of calls of get_connection that wait, where fewer
-- than 2 ^ 64 do; and there are never more connections than max_size, which is a std::size_t.
pub Reachable-PoolInv :
    (params : PoolParams) {p : Pool} {w : ℕ}
    → params.max_size < 2 ^ 64
    → w < 2 ^ 64
    → Reachable params p w
    → PoolInv p × (p.num_pending_requests ≡ w)
Reachable-PoolInv params s few r = (in_order params s r, omega (arith, Reachable-Counts params r))

-- What an answer of get_connection says, from the pool as it is looked at. The flag says that a
-- stop was requested of a call that has waited.
abbrev pub NoneIdle : Pool → Type 0
NoneIdle p = (i : ℕ) → idle_at (get_elem? p.nodes i) ≡ 0

abbrev pub Served : Bool → Pool → GetResult × Pool → Type 0
Served stopped p (canceled, q) =
    ((p.state ≡ PoolState.cancelled) ⊎ ((stopped ≡ true) × NoneIdle p)) × (q ≡ p)
Served stopped p (waiting, q) =
    (p.state ≢ PoolState.cancelled)
    × (stopped ≡ false)
    × NoneIdle p
    × (q.num_pending_requests ≡ increment p.num_pending_requests)
    × (q.connections_needed ≡ true)
    × (q.nodes ≡ p.nodes)
Served stopped p (connection i, q) =
    (p.state ≢ PoolState.cancelled)
    × (old : PoolNode) × (new : PoolNode) × (get_elem? p.nodes i ≡ some old)
    × (old.status ≡ NodeStatus.idle)
    × (get_elem? q.nodes i ≡ some new)
    × (new.status ≡ NodeStatus.in_use)
    × (occurrences i q.idle_list ≡ 0)

idle_of_bit : (s : NodeStatus) → 0 < bit (is_idle s) → s ≡ NodeStatus.idle
unfolding is_idle
idle_of_bit NodeStatus.idle h = refl
idle_of_bit _ h = absurd (omega arith)

listed_is_idle :
    (p : Pool) (i : ℕ) (is : List ℕ)
    → PoolInv p
    → p.idle_list ≡ i ∷ is
    → 0 < idle_at (get_elem? p.nodes i)
listed_is_idle p i is v e =
    omega (arith, v.idle_exact i, ap (occurrences i) e, ap bit ((==_iff i i).1 refl))

node_of_idle :
    (o : Option PoolNode)
    → 0 < idle_at o
    → (n : PoolNode) × (o ≡ some n) × (n.status ≡ NodeStatus.idle)
node_of_idle none h = absurd (omega arith)
node_of_idle (some n) h = (n, refl, idle_of_bit n.status h)

-- The front of the idle list is handed out.
module _ (p : Pool) (v : PoolInv p) where
  handed : ℕ → PoolNode → Pool
  handed i w = mark_as_in_use i w p

  handed_node :
      (i : ℕ) (w : PoolNode)
      → get_elem? p.nodes i ≡ some w
      → get_elem? (handed i w).nodes i ≡ some (record w { status = NodeStatus.in_use })
  unfolding handed mark_as_in_use
  handed_node i w e =
      rw (apply_transition_lem i w w.status NodeStatus.in_use p) (get_elem?-set_self p.nodes i _ e)

  try_handed :
      (i : ℕ) (is : List ℕ) (w : PoolNode)
      → p.idle_list ≡ i ∷ is
      → get_elem? p.nodes i ≡ some w
      → try_get_connection p ≡ (some i, handed i w)
  unfolding try_get_connection try_front handed
  try_handed i is w e there = rw (e, there, try_front)

  handed_unlisted :
      (i : ℕ) (is : List ℕ) (w : PoolNode)
      → p.idle_list ≡ i ∷ is
      → get_elem? p.nodes i ≡ some w
      → occurrences i (handed i w).idle_list ≡ 0
  handed_unlisted i is w e there =
      (subst PoolInv (ap (λ r. r.1) (try_handed i is w e there)) (try_get-PoolInv p v)).idle_exact i
      ∙ ap idle_at (handed_node i w there)
      ∙ unfold is_idle in refl

  try_empty : p.idle_list ≡ [] → try_get_connection p ≡ (none, p)
  unfolding try_get_connection try_front
  try_empty e = rw (e, try_front)

  -- Where the pool is not cancelled, and `other` is the answer where none is idle.
  serve :
      (stopped : Bool) (other : GetResult × Pool) (l : List ℕ)
      → p.state ≢ PoolState.cancelled
      → (NoneIdle p → Served stopped p other)
      → p.idle_list ≡ l
      → Served stopped p (got (try_get_connection p) other)
  unfolding got
  serve stopped other [] on otherwise e =
      rw (try_empty e) (otherwise (λ i. sym (v.idle_exact i) ∙ ap (occurrences i) e))
  serve stopped other (i ∷ is) on otherwise e =
      let (w, there, idle) = node_of_idle (get_elem? p.nodes i) (listed_is_idle p i is v e) in
      rw (try_handed i is w e there) (
        on,
        w,
        record w { status = NodeStatus.in_use },
        there,
        idle,
        handed_node i w there,
        refl,
        handed_unlisted i is w e there,
      )

  -- A call that has not been stopped waits.
  waits_again :
      p.state ≢ PoolState.cancelled → NoneIdle p → Served false p (waiting, enter_request_pending p)
  unfolding enter_request_pending
  waits_again on none_idle = (on, refl, none_idle, refl, refl, refl)

  again :
      (stopped : Bool)
      → p.state ≢ PoolState.cancelled
      → NoneIdle p
      → Served stopped p (
          if◌then◌else◌ {A = GetResult × Pool} stopped
            (canceled, p)
            (waiting, enter_request_pending p))
  again true on none_idle = (inr (refl, none_idle), refl)
  again false on none_idle = waits_again on none_idle

serve_as :
    (s : PoolState) (p : Pool)
    → PoolInv (record p { state = s })
    → Served false (record p { state = s }) (get_connection (record p { state = s }))
unfolding get_connection
serve_as PoolState.cancelled p v = (inl refl, refl)
serve_as PoolState.initial p v =
    let q = record p { state = PoolState.initial } in
    serve q v false _ p.idle_list (λ e. cc) (waits_again q v (λ e. cc)) refl
serve_as PoolState.running p v =
    let q = record p { state = PoolState.running } in
    serve q v false _ p.idle_list (λ e. cc) (waits_again q v (λ e. cc)) refl

woken_as :
    (s : PoolState) (stopped : Bool) (p : Pool)
    → PoolInv (exit_request_pending (record p { state = s }))
    → Served stopped
        (exit_request_pending (record p { state = s }))
        (get_connection_woken stopped (record p { state = s }))
unfolding get_connection_woken exit_request_pending
woken_as PoolState.cancelled stopped p v = (inl refl, refl)
woken_as PoolState.initial stopped p v =
    let q = exit_request_pending (record p { state = PoolState.initial }) in
    serve q v stopped _ p.idle_list (λ e. cc) (again q v stopped (λ e. cc)) refl
woken_as PoolState.running stopped p v =
    let q = exit_request_pending (record p { state = PoolState.running }) in
    serve q v stopped _ p.idle_list (λ e. cc) (again q v stopped (λ e. cc)) refl

-- A call of get_connection on a pool in order, up to its first wait and behind each wait. It fails
-- only where the pool is cancelled or, behind a wait, where a stop was requested and no connection
-- is idle; where the pool is cancelled it does nothing else. It hands out only a connection that
-- was idle, which is in use from then on and not in the idle list, so that no other call gets it
-- before it comes back. And it waits, for the first time or again, only where no connection is idle
-- and no stop was requested; it is counted then, and the pool is told that connections are needed.
pub get_connection-Served :
    (p : Pool)
    → PoolInv p
    → Served false p (get_connection p)
      × ((stopped : Bool)
          → Served stopped (exit_request_pending p) (get_connection_woken stopped p))
get_connection-Served p v =
    (serve_as p.state p v, λ stopped. woken_as p.state stopped p (exit-PoolInv p v))
