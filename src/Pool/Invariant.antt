-- ===== src/Pool/Invariant.antt =====
-- The pool's counters and its list of idle connections say what the connections themselves are.
use nativepg.Prelude.{
  ℕ, zero, suc, ◌+◌, ◌^◌, ◌≤◌, ◌<◌, ◌≡◌, ◌≢◌, refl, sym, ◌∙◌, ap, Bool, true, false, List, [], ◌∷◌,
  ◌++◌, Option, none, some, inl, inr, arith, length, length-set, get_elem?, get_elem?-set_self,
  get_elem?-set_ne, set, Bool-cases, ◌==◌, ==_iff, ne_of_==, decrement, increment,
}
use nativepg.Pool.Node.{NodeStatus, is_idle, is_pending, idle_hooks, pending_hooks, set_status}
use nativepg.Pool.{
  PoolNode, Pool, check_pool_params, erase, apply_hook, apply_hooks, apply_transition,
}

abbrev pub bit : Bool → ℕ
bit true = 1
bit false = 0

-- How often a connection stands in the list.
abbrev pub occurrences : ℕ → List ℕ → ℕ
occurrences i [] = 0
occurrences i (j ∷ js) = bit (i == j) + occurrences i js

abbrev pub idle_at : Option PoolNode → ℕ
idle_at none = 0
idle_at (some n) = bit (is_idle n.status)

abbrev pub count_pending : List PoolNode → ℕ
count_pending [] = 0
count_pending (n ∷ ns) = bit (is_pending n.status) + count_pending ns

-- The list holds exactly the idle connections, each once; the counter counts the pending ones; and
-- the pool has no more connections than its parameters allow.
pub record PoolInv (p : Pool) : Type 0 where
  pub idle_exact : (i : ℕ) → occurrences i p.idle_list ≡ idle_at (get_elem? p.nodes i)
  pub pending_exact : p.num_pending_connections ≡ count_pending p.nodes
  pub bounded : length p.nodes ≤ p.params.max_size
  pub params_ok : check_pool_params p.params ≡ true
  pub size_ok : p.params.max_size < 2 ^ 64

pub count_pending-le : (ns : List PoolNode) → count_pending ns ≤ length ns
count_pending-le [] = omega arith
count_pending-le (n ∷ ns) = ground (arith, count_pending-le ns)

occurrences-append :
    (j i : ℕ) (l : List ℕ) → occurrences j (l ++ (i ∷ [])) ≡ occurrences j l + bit (j == i)
occurrences-append j i [] = omega arith
occurrences-append j i (x ∷ l) = omega (arith, occurrences-append j i l)

occurrences-erase :
    (i j : ℕ) (l : List ℕ)
    → 0 < occurrences i l
    → occurrences j (erase i l) + bit (j == i) ≡ occurrences j l
unfolding erase
occurrences-erase i j [] h = absurd (omega arith)
occurrences-erase i j (x ∷ l) h = elim (Bool-cases (i == x)) [
  | inl e ↦ ground (arith, (==_iff i x).0 e)
  | inr e ↦ rw e (omega (arith, occurrences-erase i j l (omega (arith, ap bit e))))
]

abbrev pending_at : Option PoolNode → ℕ
pending_at none = 0
pending_at (some n) = bit (is_pending n.status)

count_pending-set :
    (ns : List PoolNode) (i : ℕ) (v : PoolNode) {w : PoolNode}
    → get_elem? ns i ≡ some w
    → count_pending (set ns i v) + bit (is_pending w.status)
      ≡ count_pending ns + bit (is_pending v.status)
count_pending-set [] i v e = cc
count_pending-set (n ∷ ns) zero v e = omega (arith, ap pending_at e)
count_pending-set (n ∷ ns) (suc i) v e = omega (arith, count_pending-set ns i v e)

-- The list and the counter after the hooks.
abbrev pub idle_after : Bool → Bool → ℕ → List ℕ → List ℕ
idle_after false true i l = l ++ (i ∷ [])
idle_after true false i l = erase i l
idle_after _ _ i l = l

abbrev pub wakeups_after : Bool → Bool → ℕ → ℕ
wakeups_after false true n = suc n
wakeups_after _ _ n = n

abbrev pub pending_after : Bool → Bool → ℕ → ℕ
pending_after false true n = increment n
pending_after true false n = decrement n
pending_after _ _ n = n

-- Both pairs of hooks, whatever the four tests say.
hooks_lem :
    (a b c d : Bool) (i : ℕ) (p : Pool)
    → apply_hooks i (idle_hooks a b ++ pending_hooks c d) p ≡ record p {
      idle_list = idle_after a b i p.idle_list;
      wakeups = wakeups_after a b p.wakeups;
      num_pending_connections = pending_after c d p.num_pending_connections;
    }
unfolding apply_hooks apply_hook idle_hooks pending_hooks
hooks_lem true true true true i p = refl
hooks_lem true true true false i p = refl
hooks_lem true true false true i p = refl
hooks_lem true true false false i p = refl
hooks_lem true false true true i p = refl
hooks_lem true false true false i p = refl
hooks_lem true false false true i p = refl
hooks_lem true false false false i p = refl
hooks_lem false true true true i p = refl
hooks_lem false true true false i p = refl
hooks_lem false true false true i p = refl
hooks_lem false true false false i p = refl
hooks_lem false false true true i p = refl
hooks_lem false false true false i p = refl
hooks_lem false false false true i p = refl
hooks_lem false false false false i p = refl

-- set_status on a connection in the status `old`, with all its hooks.
pub apply_transition_lem :
    (i : ℕ) (n : PoolNode) (old new : NodeStatus) (p : Pool)
    → apply_transition i n (set_status old new) p ≡ record p {
      idle_list = idle_after (is_idle old) (is_idle new) i p.idle_list;
      wakeups = wakeups_after (is_idle old) (is_idle new) p.wakeups;
      num_pending_connections =
          pending_after (is_pending old) (is_pending new) p.num_pending_connections;
      nodes = set p.nodes i (record n { status = new });
    }
unfolding apply_transition set_status
apply_transition_lem i n old new p =
    rw (hooks_lem (is_idle old) (is_idle new) (is_pending old) (is_pending new) i p)

-- The list stays exact: for the connection itself, and for another.
idle_after_self :
    (a b : Bool) (i : ℕ) (l : List ℕ)
    → occurrences i l ≡ bit a
    → occurrences i (idle_after a b i l) ≡ bit b
idle_after_self true true i l h = h
idle_after_self true false i l h =
    omega (arith, occurrences-erase i i l (omega arith), h, ap bit ((==_iff i i).1 refl))
idle_after_self false true i l h =
    omega (arith, occurrences-append i i l, h, ap bit ((==_iff i i).1 refl))
idle_after_self false false i l h = h

==_of_ne : (j i : ℕ) → j ≢ i → bit (j == i) ≡ 0
==_of_ne j i n = ground arith

idle_after-other :
    (a b : Bool) (i j : ℕ) (l : List ℕ)
    → occurrences i l ≡ bit a
    → j ≢ i
    → occurrences j (idle_after a b i l) ≡ occurrences j l
idle_after-other true true i j l h n = refl
idle_after-other true false i j l h n =
    omega (arith, occurrences-erase i j l (omega arith), ==_of_ne j i n)
idle_after-other false true i j l h n = omega (arith, occurrences-append j i l, ==_of_ne j i n)
idle_after-other false false i j l h n = refl

pending_after_lem :
    (c d : Bool) (n old new : ℕ)
    → n ≡ old
    → new + bit c ≡ old + bit d
    → old < 2 ^ 64
    → new < 2 ^ 64
    → pending_after c d n ≡ new
pending_after_lem true true n old new e h k l = omega arith
pending_after_lem true false n old new e h k l = omega arith
pending_after_lem false true n old new e h k l = omega arith
pending_after_lem false false n old new e h k l = omega arith

-- A connection `i` of a pool in order, in the status `old`, is set to a new status.
module _ (p : Pool) (v : PoolInv p) (i : ℕ) (w : PoolNode)
    (there : get_elem? p.nodes i ≡ some w) where
  abbrev pub placed : PoolNode → Pool
  placed n = record p {
    idle_list = idle_after (is_idle w.status) (is_idle n.status) i p.idle_list;
    wakeups = wakeups_after (is_idle w.status) (is_idle n.status) p.wakeups;
    num_pending_connections =
        pending_after (is_pending w.status) (is_pending n.status) p.num_pending_connections;
    nodes = set p.nodes i n;
  }

  pub idle_here : occurrences i p.idle_list ≡ bit (is_idle w.status)
  idle_here = v.idle_exact i ∙ ap idle_at there

  placed_idle :
      (n : PoolNode) (j : ℕ)
      → occurrences j (placed n).idle_list ≡ idle_at (get_elem? (set p.nodes i n) j)
  placed_idle n j = elim (Bool-cases (j == i)) [
    | inl e ↦ rw ((==_iff j i).0 e) (
        idle_after_self (is_idle w.status) (is_idle n.status) i p.idle_list idle_here
        ∙ sym (ap idle_at (get_elem?-set_self p.nodes i n there)))
    | inr e ↦
        idle_after-other (is_idle w.status) (is_idle n.status) i j p.idle_list idle_here
          (ne_of_== j i e)
        ∙ v.idle_exact j
        ∙ ap idle_at (sym (get_elem?-set_ne p.nodes i j n (λ q. ne_of_== j i e (sym q))))
  ]

  pub placed-PoolInv : (n : PoolNode) → PoolInv (placed n)
  placed-PoolInv n = record {
    idle_exact = placed_idle n;
    pending_exact =
        pending_after_lem (is_pending w.status) (is_pending n.status) p.num_pending_connections
          (count_pending p.nodes) (count_pending (set p.nodes i n)) v.pending_exact
          (count_pending-set p.nodes i n there)
          (omega (arith, count_pending-le p.nodes, v.bounded, v.size_ok))
          (omega (
            arith,
            count_pending-le (set p.nodes i n),
            length-set p.nodes i n,
            v.bounded,
            v.size_ok,
          ));
    bounded = omega (arith, length-set p.nodes i n, v.bounded);
    params_ok = v.params_ok;
    size_ok = v.size_ok;
  }
