-- ===== src/Pool/Waiting.antt =====
-- The calls of get_connection that wait, against the counter num_pending_requests of the pool.
use nativepg.Prelude.{
  ℕ, suc, ◌%◌, ◌^◌, ◌≡◌, refl, sym, ◌∙◌, ap, Bool, true, false, List, [], ◌∷◌, Option, none, some,
  inl, inr, arith, get_elem?, Option-cases, if◌then◌else◌, >>=-eq-some, some_inj,
}
use nativepg.Protocol.{ErrorCode}
use nativepg.Pool.Node.{
  NodeStatus, CollectionState, NextAction, status_to_action, set_status, resume,
}
use nativepg.Pool.Invariant.{apply_transition_lem}
use nativepg.Pool.Operations.{resume_is_set_status}
use nativepg.Pool.{
  PoolNode, Pool, PoolState, apply_transition, resume_node, step_node, enter_request_pending,
  exit_request_pending, mark_as_in_use, try_front, try_get_connection, GetResult, canceled, waiting,
  got, get_connection, get_connection_woken, return_connection,
}

-- How many calls wait behind one that has answered, with `w` others.
abbrev pub waits_of : GetResult → ℕ → ℕ
waits_of waiting w = suc w
waits_of _ w = w

-- The counter is a std::size_t, of 64 bits.
abbrev pub Counts : Pool → ℕ → Type 0
Counts p w = p.num_pending_requests ≡ w % 2 ^ 64

-- A change of status leaves the counter.
transition_requests :
    (i : ℕ) (n : PoolNode) (old new : NodeStatus) (p : Pool)
    → (apply_transition i n (set_status old new) p).num_pending_requests ≡ p.num_pending_requests
transition_requests i n old new p = rw (apply_transition_lem i n old new p) refl

resumed_requests :
    (i : ℕ) (n : PoolNode) (s : NodeStatus) (ec : ErrorCode) (c : CollectionState) (p : Pool)
    → (apply_transition i n (resume s ec c) p).num_pending_requests ≡ p.num_pending_requests
resumed_requests i n s ec c p =
    let (t, e) = resume_is_set_status s ec c in rw e (transition_requests i n s t p)

node_requests :
    (a : NextAction) (ec : ErrorCode) (i : ℕ) (w : PoolNode) (p : Pool)
    → (resume_node a ec i w p).num_pending_requests ≡ p.num_pending_requests
unfolding resume_node
node_requests NextAction.idle_wait ec i w p = resumed_requests i _ w.status ec w.collection p
node_requests NextAction.reset ec i w p =
    resumed_requests i w w.status none CollectionState.not_returned p
node_requests _ ec i w p = resumed_requests i w w.status ec CollectionState.not_returned p

pub step_node-Counts :
    (i : ℕ) (ec : ErrorCode) (p : Pool) (w : ℕ) {q : Pool}
    → step_node i ec p ≡ some q
    → Counts p w
    → Counts q w
unfolding step_node
step_node-Counts i ec p w h c =
    let (n, there, e) = >>=-eq-some (get_elem? p.nodes i) _ h in
    ap (λ (q : Pool). q.num_pending_requests) (sym (some_inj e))
    ∙ node_requests (status_to_action n.status) ec i n p
    ∙ c

pub return_connection-Counts :
    (i : ℕ) (b : Bool) (p : Pool) (w : ℕ) {q : Pool}
    → return_connection i b p ≡ some q
    → Counts p w
    → Counts q w
unfolding return_connection
return_connection-Counts i b p w h c =
    let (n, there, e) = >>=-eq-some (get_elem? p.nodes i) _ h in
    ap (λ (q : Pool). q.num_pending_requests) (sym (some_inj e)) ∙ c

front_requests :
    (is : List ℕ) (p : Pool) → (try_front is p).1.num_pending_requests ≡ p.num_pending_requests
unfolding try_front mark_as_in_use
front_requests [] p = refl
front_requests (i ∷ is) p = elim (Option-cases (get_elem? p.nodes i)) [
  | inl e ↦ rw (e, try_front) refl
  | inr (w, e) ↦ rw (e, try_front) (transition_requests i w w.status NodeStatus.in_use p)
]

tried_requests : (p : Pool) → (try_get_connection p).1.num_pending_requests ≡ p.num_pending_requests
unfolding try_get_connection
tried_requests p = front_requests p.idle_list p

abbrev AnswerCounts : ℕ → GetResult × Pool → Type 0
AnswerCounts w r = Counts r.1 (waits_of r.0 w)

got-Counts :
    (w : ℕ) (r : Option ℕ × Pool) (o : GetResult × Pool)
    → Counts r.1 w
    → AnswerCounts w o
    → AnswerCounts w (got r o)
unfolding got
got-Counts w (none, p) o a b = b
got-Counts w (some i, p) o a b = a

enter-Counts : (p : Pool) (w : ℕ) → Counts p w → Counts (enter_request_pending p) (suc w)
unfolding enter_request_pending
enter-Counts p w c = omega (arith, c)

exit-Counts : (p : Pool) (w : ℕ) → Counts p (suc w) → Counts (exit_request_pending p) w
unfolding exit_request_pending
exit-Counts p w c = omega (arith, c)

get_as :
    (s : PoolState) (p : Pool) (w : ℕ)
    → Counts p w
    → AnswerCounts w (get_connection (record p { state = s }))
unfolding get_connection
get_as PoolState.cancelled p w c = c
get_as PoolState.initial p w c =
    got-Counts w (try_get_connection _) _ (tried_requests _ ∙ c) (enter-Counts _ w c)
get_as PoolState.running p w c =
    got-Counts w (try_get_connection _) _ (tried_requests _ ∙ c) (enter-Counts _ w c)

pub get_connection-Counts :
    (p : Pool) (w : ℕ) → Counts p w → Counts (get_connection p).1 (waits_of (get_connection p).0 w)
get_connection-Counts p w c = get_as p.state p w c

again-Counts :
    (stopped : Bool) (q : Pool) (w : ℕ)
    → Counts q w
    → AnswerCounts w (
        if◌then◌else◌ {A = GetResult × Pool} stopped
          (canceled, q)
          (waiting, enter_request_pending q))
again-Counts true q w c = c
again-Counts false q w c = enter-Counts q w c

woken_as :
    (s : PoolState) (stopped : Bool) (p : Pool) (w : ℕ)
    → Counts (exit_request_pending (record p { state = s })) w
    → AnswerCounts w (get_connection_woken stopped (record p { state = s }))
unfolding get_connection_woken exit_request_pending
woken_as PoolState.cancelled stopped p w c = c
woken_as PoolState.initial stopped p w c =
    got-Counts w (try_get_connection _) _ (tried_requests _ ∙ c) (again-Counts stopped _ w c)
woken_as PoolState.running stopped p w c =
    got-Counts w (try_get_connection _) _ (tried_requests _ ∙ c) (again-Counts stopped _ w c)

pub get_connection_woken-Counts :
    (stopped : Bool) (p : Pool) (w : ℕ)
    → Counts p (suc w)
    → Counts (get_connection_woken stopped p).1 (waits_of (get_connection_woken stopped p).0 w)
get_connection_woken-Counts stopped p w c = woken_as p.state stopped p w (exit-Counts p w c)
