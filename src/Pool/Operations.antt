-- ===== src/Pool/Operations.antt =====
-- Every operation of the pool keeps the pool in order.
use nativepg.Prelude.{
  ◌^◌, ℕ, zero, suc, ◌+◌, ◌≤◌, ◌<◌, ◌≡◌, refl, sym, ◌∙◌, ap, subst, Bool, true, false, List, [],
  ◌∷◌, ◌++◌, Option, none, some, ◌⊎◌, inl, inr, arith, length, length-append, length-replicate,
  get_elem?, replicate, Bool-cases, Option-cases, if◌then◌else◌, >>=-eq-some, some_inj,
}
use nativepg.Protocol.{ErrorCode}
use nativepg.Pool.Node.{
  NodeStatus, CollectionState, NextAction, is_idle, is_pending, status_to_action, set_status,
  resume, idle_hooks, pending_hooks,
}
use nativepg.Pool.Sizing.{num_connections_to_create_lem}
use nativepg.Pool.Invariant.{
  PoolInv, occurrences, idle_at, count_pending, count_pending-le, placed, placed-PoolInv,
  apply_transition_lem, idle_after, pending_after,
}
use nativepg.Pool.{
  PoolNode, Pool, PoolParams, PoolState, check_pool_params, make_pool, apply_transition,
  resume_node, step_node, new_node, to_create, create_connections, enter_request_pending,
  exit_request_pending, mark_as_in_use, try_front, try_get_connection, GetResult, canceled, waiting,
  got, get_connection, get_connection_woken, return_connection,
}

pub params_sound :
    (c : PoolParams) → check_pool_params c ≡ true → (0 < c.max_size) × (c.initial_size ≤ c.max_size)
unfolding check_pool_params
params_sound c h = ground arith

pub make_pool-PoolInv :
    (c : PoolParams) {p : Pool} → c.max_size < 2 ^ 64 → make_pool c ≡ some p → PoolInv p
unfolding make_pool
make_pool-PoolInv c {p} s h = elim (Bool-cases (check_pool_params c)) [
  | inl ok ↦ subst PoolInv (some_inj (rw ok at h)) (record {
    idle_exact = λ i. refl;
    pending_exact = refl;
    bounded = omega arith;
    params_ok = ok;
    size_ok = s;
  })
  | inr bad ↦ cc (rw bad at h)
]

-- New connections are neither idle nor pending.
grown_idle :
    (ns : List PoolNode) (k i : ℕ)
    → idle_at (get_elem? (ns ++ replicate k new_node) i) ≡ idle_at (get_elem? ns i)
unfolding is_idle
grown_idle [] zero i = refl
grown_idle [] (suc k) zero = refl
grown_idle [] (suc k) (suc i) = grown_idle [] k i
grown_idle (n ∷ ns) k zero = refl
grown_idle (n ∷ ns) k (suc i) = grown_idle ns k i

grown_pending :
    (ns : List PoolNode) (k : ℕ) → count_pending (ns ++ replicate k new_node) ≡ count_pending ns
unfolding is_pending
grown_pending [] zero = refl
grown_pending [] (suc k) = omega (arith, grown_pending [] k)
grown_pending (n ∷ ns) k = omega (arith, grown_pending ns k)

-- The preconditions that num_connections_to_create asserts hold, and so does what it promises.
abbrev pub Sized : Pool → ℕ → Type 0
Sized p n =
    (length p.nodes + n ≤ p.params.max_size)
    × (p.params.initial_size ≤ length p.nodes + n)
    × ((p.num_pending_requests ≤ p.num_pending_connections + n)
        ⊎ (length p.nodes + n ≡ p.params.max_size))

pub to_create-Sized : (p : Pool) → PoolInv p → Sized p (to_create p)
to_create-Sized p v =
    let (a, b, c, d) =
      num_connections_to_create_lem p.params.initial_size p.params.max_size (length p.nodes)
        p.num_pending_connections p.num_pending_requests (params_sound p.params v.params_ok).1
        v.bounded (omega (arith, v.pending_exact, count_pending-le p.nodes)) in
    (a, b, c)

pub create_connections-PoolInv : (p : Pool) → PoolInv p → PoolInv (create_connections p)
unfolding create_connections
create_connections-PoolInv p v = record {
  idle_exact = λ i. v.idle_exact i ∙ sym (grown_idle p.nodes (to_create p) i);
  pending_exact = v.pending_exact ∙ sym (grown_pending p.nodes (to_create p));
  bounded = omega (
    arith,
    length-append p.nodes (replicate (to_create p) new_node),
    length-replicate (to_create p) new_node,
    (to_create-Sized p v).0,
  );
  params_ok = v.params_ok;
  size_ok = v.size_ok;
}

-- Whatever the wait ended with, the node takes a status by set_status.
pub resume_is_set_status :
    (s : NodeStatus) (ec : ErrorCode) (c : CollectionState)
    → (t : NodeStatus) × (resume s ec c ≡ set_status s t)
unfolding resume set_status
resume_is_set_status NodeStatus.initial ec c = (NodeStatus.connect_in_progress, refl)
resume_is_set_status NodeStatus.connect_in_progress none c = (NodeStatus.idle, refl)
resume_is_set_status NodeStatus.connect_in_progress (some e) c =
    (NodeStatus.sleep_connect_failed_in_progress, refl)
resume_is_set_status NodeStatus.sleep_connect_failed_in_progress ec c =
    (NodeStatus.connect_in_progress, refl)
resume_is_set_status NodeStatus.reset_in_progress none c = (NodeStatus.idle, refl)
resume_is_set_status NodeStatus.reset_in_progress (some e) c =
    (NodeStatus.connect_in_progress, refl)
resume_is_set_status NodeStatus.ping_in_progress none c = (NodeStatus.idle, refl)
resume_is_set_status NodeStatus.ping_in_progress (some e) c = (NodeStatus.connect_in_progress, refl)
resume_is_set_status NodeStatus.idle ec c = (NodeStatus.ping_in_progress, refl)
resume_is_set_status NodeStatus.in_use ec CollectionState.not_returned =
    (NodeStatus.in_use, unfold idle_hooks pending_hooks is_idle is_pending status_to_action in refl)
resume_is_set_status NodeStatus.in_use ec CollectionState.needs_collect = (NodeStatus.idle, refl)
resume_is_set_status NodeStatus.in_use ec CollectionState.needs_collect_with_reset =
    (NodeStatus.reset_in_progress, refl)
resume_is_set_status NodeStatus.terminated ec c = (
  NodeStatus.terminated,
  unfold idle_hooks pending_hooks is_idle is_pending status_to_action in refl,
)

module _ (p : Pool) (v : PoolInv p) (i : ℕ) (w : PoolNode)
    (there : get_elem? p.nodes i ≡ some w) where
  set_status-PoolInv :
      (n : PoolNode) (t : NodeStatus) → PoolInv (apply_transition i n (set_status w.status t) p)
  set_status-PoolInv n t =
      rw (apply_transition_lem i n w.status t p)
        (placed-PoolInv p v i w there (record n { status = t }))

  resume-PoolInv :
      (n : PoolNode) (ec : ErrorCode) (c : CollectionState)
      → PoolInv (apply_transition i n (resume w.status ec c) p)
  resume-PoolInv n ec c =
      let (t, e) = resume_is_set_status w.status ec c in rw e (set_status-PoolInv n t)

  resume_node-PoolInv : (a : NextAction) (ec : ErrorCode) → PoolInv (resume_node a ec i w p)
  unfolding resume_node
  resume_node-PoolInv NextAction.idle_wait ec = resume-PoolInv _ ec w.collection
  resume_node-PoolInv NextAction.reset ec = resume-PoolInv w none CollectionState.not_returned
  resume_node-PoolInv _ ec = resume-PoolInv w ec CollectionState.not_returned

pub step_node-PoolInv :
    (i : ℕ) (ec : ErrorCode) (p : Pool) {q : Pool}
    → PoolInv p
    → step_node i ec p ≡ some q
    → PoolInv q
unfolding step_node
step_node-PoolInv i ec p v h =
    let (w, there, e) = >>=-eq-some (get_elem? p.nodes i) _ h in
    subst PoolInv (some_inj e) (resume_node-PoolInv p v i w there (status_to_action w.status) ec)

-- A pool that differs in what the invariant does not read.
pub same_pool :
    (p q : Pool)
    → PoolInv p
    → q.nodes ≡ p.nodes
    → q.idle_list ≡ p.idle_list
    → q.num_pending_connections ≡ p.num_pending_connections
    → q.params ≡ p.params
    → PoolInv q
same_pool p q v n i c r = record {
  idle_exact =
      λ j. ap (occurrences j) i ∙ v.idle_exact j ∙ ap (λ ns. idle_at (get_elem? ns j)) (sym n);
  pending_exact = c ∙ v.pending_exact ∙ ap count_pending (sym n);
  bounded = omega (arith, ap length n, ap (λ (x : PoolParams). x.max_size) r, v.bounded);
  params_ok = ap check_pool_params r ∙ v.params_ok;
  size_ok = omega (arith, ap (λ (x : PoolParams). x.max_size) r, v.size_ok);
}

try_front-PoolInv : (is : List ℕ) (p : Pool) → PoolInv p → PoolInv (try_front is p).1
unfolding try_front mark_as_in_use
try_front-PoolInv [] p v = v
try_front-PoolInv (i ∷ is) p v = elim (Option-cases (get_elem? p.nodes i)) [
  | inl e ↦ rw (e, try_front) v
  | inr (w, e) ↦ rw (e, try_front) (set_status-PoolInv p v i w e w NodeStatus.in_use)
]

got-PoolInv :
    (r : Option ℕ × Pool) (o : GetResult × Pool) → PoolInv r.1 → PoolInv o.1 → PoolInv (got r o).1
unfolding got
got-PoolInv (none, p) o a b = b
got-PoolInv (some i, p) o a b = a

enter-PoolInv : (p : Pool) → PoolInv p → PoolInv (enter_request_pending p)
unfolding enter_request_pending
enter-PoolInv p v = same_pool p _ v refl refl refl refl

pub try_get-PoolInv : (p : Pool) → PoolInv p → PoolInv (try_get_connection p).1
unfolding try_get_connection
try_get-PoolInv p v = try_front-PoolInv p.idle_list p v

get_connection_as :
    (s : PoolState) (p : Pool)
    → PoolInv (record p { state = s })
    → PoolInv (get_connection (record p { state = s })).1
unfolding get_connection
get_connection_as PoolState.cancelled p v = v
get_connection_as PoolState.initial p v =
    got-PoolInv (try_get_connection _) _ (try_get-PoolInv _ v) (enter-PoolInv _ v)
get_connection_as PoolState.running p v =
    got-PoolInv (try_get_connection _) _ (try_get-PoolInv _ v) (enter-PoolInv _ v)

pub get_connection-PoolInv : (p : Pool) → PoolInv p → PoolInv (get_connection p).1
get_connection-PoolInv p v = get_connection_as p.state p v

pub exit-PoolInv : (p : Pool) → PoolInv p → PoolInv (exit_request_pending p)
unfolding exit_request_pending
exit-PoolInv p v = same_pool p _ v refl refl refl refl

again-PoolInv :
    (stopped : Bool) (q : Pool)
    → PoolInv q
    → PoolInv
        (if◌then◌else◌ {A = GetResult × Pool} stopped
          (canceled, q)
          (waiting, enter_request_pending q)).1
again-PoolInv true q v = v
again-PoolInv false q v = enter-PoolInv q v

woken_as :
    (s : PoolState) (stopped : Bool) (p : Pool)
    → PoolInv (record p { state = s })
    → PoolInv (get_connection_woken stopped (record p { state = s })).1
unfolding get_connection_woken exit_request_pending
woken_as PoolState.cancelled stopped p v = exit-PoolInv _ v
woken_as PoolState.initial stopped p v =
    let w = exit-PoolInv _ v in
    got-PoolInv (try_get_connection _) _ (try_get-PoolInv _ w) (again-PoolInv stopped _ w)
woken_as PoolState.running stopped p v =
    let w = exit-PoolInv _ v in
    got-PoolInv (try_get_connection _) _ (try_get-PoolInv _ w) (again-PoolInv stopped _ w)

pub get_connection_woken-PoolInv :
    (stopped : Bool) (p : Pool) → PoolInv p → PoolInv (get_connection_woken stopped p).1
get_connection_woken-PoolInv stopped p v = woken_as p.state stopped p v

idle_same : (a : Bool) (i : ℕ) (l : List ℕ) → l ≡ idle_after a a i l
idle_same true i l = refl
idle_same false i l = refl

pending_same : (a : Bool) (n : ℕ) → n ≡ pending_after a a n
pending_same true n = refl
pending_same false n = refl

-- A return changes neither the status nor the counters: the connection's own task does.
pub return_connection-PoolInv :
    (i : ℕ) (b : Bool) (p : Pool) {q : Pool}
    → PoolInv p
    → return_connection i b p ≡ some q
    → PoolInv q
unfolding return_connection
return_connection-PoolInv i b p v h =
    let (w, there, e) = >>=-eq-some (get_elem? p.nodes i) _ h in
    subst PoolInv (some_inj e) (
      same_pool (placed p v i w there _) _ (placed-PoolInv p v i w there _) refl
        (idle_same (is_idle w.status) i p.idle_list)
        (pending_same (is_pending w.status) p.num_pending_connections) refl)
