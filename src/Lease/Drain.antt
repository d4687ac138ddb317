-- ===== src/Lease/Drain.antt =====
-- The count of users is the number of leases that hold the component, and a deactivated component
-- has no users.
use rtt_opcua.Base.{
  ℕ, zero, suc, ◌+◌, ◌≤◌, ◌<◌, ◌≡◌, refl, ap, ◌≢◌, ◌⊎◌, true, false, List, [], ◌∷◌, arith,
  if◌then◌else◌, length, All,
}
use rtt_opcua.Lease.{
  size_mod, ComponentState, ComponentLease, empty_lease, construct, holds, System, Operation,
  acquire, destroy, move_out, assign, begin_deactivate, end_deactivate, wake, close_admission,
  get_or_empty, remove_at, set, step, run,
}

abbrev pub weight : ComponentLease → ℕ
weight l = if l.state then 1 else 0

unfoldable pub held : List ComponentLease → ℕ
held [] = 0
held (l ∷ ls) = weight l + held ls

-- The two pointers of a lease are set and cleared together.
abbrev pub Paired : ComponentLease → Type 0
Paired l = l.state ≡ l.component

pub record IsValid (s : System) : Type 0 where
  pub counted : s.shared.users ≡ held s.leases
  pub bounded : length s.leases < size_mod
  pub paired : All Paired s.leases
  pub asleep : 0 < s.shared.sleeping → 0 < s.shared.users
  pub within : s.shared.sleeping ≤ s.deactivating
  pub waiting : 0 < s.deactivating → s.shared.is_active ≡ false
  pub gone : s.shared.has_component ≡ false → (held s.leases ≡ 0) × (s.shared.is_active ≡ false)

held_le : (ls : List ComponentLease) → held ls ≤ length ls
unfolding held
held_le [] = omega arith
held_le (l ∷ ls) = ground (arith, held_le ls)

held-remove_at :
    (ls : List ComponentLease) (i : ℕ)
    → held (remove_at ls i) + weight (get_or_empty ls i) ≡ held ls
unfolding held
held-remove_at [] i = omega arith
held-remove_at (l ∷ ls) zero = omega arith
held-remove_at (l ∷ ls) (suc i) = omega (arith, held-remove_at ls i)

length-remove_at : (ls : List ComponentLease) (i : ℕ) → length (remove_at ls i) ≤ length ls
length-remove_at [] i = omega arith
length-remove_at (l ∷ ls) zero = omega arith
length-remove_at (l ∷ ls) (suc i) = omega (arith, length-remove_at ls i)

Paired-remove_at : (ls : List ComponentLease) (i : ℕ) → All Paired ls → All Paired (remove_at ls i)
Paired-remove_at [] i h = tt
Paired-remove_at (l ∷ ls) zero h = h.1
Paired-remove_at (l ∷ ls) (suc i) h = (h.0, Paired-remove_at ls i h.1)

held-set :
    (ls : List ComponentLease) (i : ℕ) (v : ComponentLease)
    → i < length ls
    → held (set ls i v) + weight (get_or_empty ls i) ≡ held ls + weight v
unfolding held
held-set [] i v h = elim h [ ]
held-set (l ∷ ls) zero v h = omega arith
held-set (l ∷ ls) (suc i) v h = omega (arith, held-set ls i v (omega arith))

held-set_empty :
    (ls : List ComponentLease) (i : ℕ)
    → held (set ls i empty_lease) + weight (get_or_empty ls i) ≡ held ls
unfolding held
held-set_empty [] i = omega arith
held-set_empty (l ∷ ls) zero = omega arith
held-set_empty (l ∷ ls) (suc i) = omega (arith, held-set_empty ls i)

length-set :
    (ls : List ComponentLease) (i : ℕ) (v : ComponentLease) → length (set ls i v) ≡ length ls
length-set [] i v = refl
length-set (l ∷ ls) zero v = refl
length-set (l ∷ ls) (suc i) v = ap suc (length-set ls i v)

Paired-set :
    (ls : List ComponentLease) (i : ℕ) (v : ComponentLease)
    → Paired v
    → All Paired ls
    → All Paired (set ls i v)
Paired-set [] i v p h = tt
Paired-set (l ∷ ls) zero v p h = (p, h.1)
Paired-set (l ∷ ls) (suc i) v p h = (h.0, Paired-set ls i v p h.1)

Paired-get : (ls : List ComponentLease) (i : ℕ) → All Paired ls → Paired (get_or_empty ls i)
Paired-get [] i h = refl
Paired-get (l ∷ ls) zero h = h.0
Paired-get (l ∷ ls) (suc i) h = Paired-get ls i h.1

get-set_ne :
    (ls : List ComponentLease) (i j : ℕ) (v : ComponentLease)
    → i ≢ j
    → get_or_empty (set ls i v) j ≡ get_or_empty ls j
get-set_ne [] i j v h = refl
get-set_ne (l ∷ ls) zero zero v h = absurd (h refl)
get-set_ne (l ∷ ls) zero (suc j) v h = refl
get-set_ne (l ∷ ls) (suc i) zero v h = refl
get-set_ne (l ∷ ls) (suc i) (suc j) v h = get-set_ne ls i j v (λ e. h (ap suc e))

step_acquire : (s : System) → IsValid s → IsValid (step s acquire)
unfolding step held
step_acquire s v = ground (arith, held_le s.leases)

step_destroy : (s : System) (i : ℕ) → IsValid s → IsValid (step s (destroy i))
unfolding step
step_destroy s i v = ground (
  arith,
  held_le s.leases,
  held-remove_at s.leases i,
  length-remove_at s.leases i,
  Paired-remove_at s.leases i v.paired,
)

step_move_out : (s : System) (i : ℕ) → IsValid s → IsValid (step s (move_out i))
unfolding step held
step_move_out s i v = ground (
  arith,
  held-set_empty s.leases i,
  length-set s.leases i empty_lease,
  Paired-set s.leases i empty_lease refl v.paired,
  Paired-get s.leases i v.paired,
)

Paired-assign :
    (ls : List ComponentLease) (i j : ℕ)
    → All Paired ls
    → All Paired (set (set ls i (get_or_empty ls j)) j empty_lease)
Paired-assign ls i j h =
    Paired-set (set ls i (get_or_empty ls j)) j empty_lease refl
      (Paired-set ls i (get_or_empty ls j) (Paired-get ls j h) h)

step_assign : (s : System) (i j : ℕ) → IsValid s → IsValid (step s (assign i j))
unfolding step
step_assign s i j v = ground (
  arith,
  held_le s.leases,
  held-set s.leases i (get_or_empty s.leases j),
  held-set_empty (set s.leases i (get_or_empty s.leases j)) j,
  get-set_ne s.leases i j (get_or_empty s.leases j),
  length-set s.leases i (get_or_empty s.leases j),
  length-set (set s.leases i (get_or_empty s.leases j)) j empty_lease,
  Paired-assign s.leases i j v.paired,
)

-- Every operation keeps the invariant: the count of users is the number of leases that hold the
-- component, fewer than 2^64 leases exist, a thread sleeps in `deactivate` only while there are
-- users, a state that a thread waits to deactivate is not active, and a state whose component is withdrawn is not active and has no users.
pub step-IsValid : (s : System) (op : Operation) → IsValid s → IsValid (step s op)
step-IsValid s acquire v = step_acquire s v
step-IsValid s (destroy i) v = step_destroy s i v
step-IsValid s (move_out i) v = step_move_out s i v
step-IsValid s (assign i j) v = step_assign s i j v
step-IsValid s begin_deactivate v = unfold step in ground arith
step-IsValid s end_deactivate v = unfold step in ground arith
step-IsValid s wake v = unfold step in ground arith
step-IsValid s close_admission v = unfold step in ground arith

run-IsValid : (s : System) (ops : List Operation) → IsValid s → IsValid (run s ops)
unfolding run
run-IsValid s [] v = v
run-IsValid s (op ∷ ops) v = run-IsValid (step s op) ops (step-IsValid s op v)

weightless :
    (ls : List ComponentLease) → All Paired ls → held ls ≡ 0 → All (λ l. holds l ≡ false) ls
unfolding held holds
weightless [] h e = tt
weightless (l ∷ ls) h e = (ground arith, weightless ls h.1 (omega arith))

-- From a state with the invariant, whatever the threads do, and in whatever order: once
-- `deactivate` has withdrawn the component,
-- no lease holds it any more, so its owner may destroy it.
pub withdrawn_is_unused :
    (s : System) (ops : List Operation)
    → IsValid s
    → (run s ops).shared.has_component ≡ false
    → All (λ l. holds l ≡ false) (run s ops).leases
withdrawn_is_unused s ops v gone =
    let v' = run-IsValid s ops v in weightless (run s ops).leases v'.paired (v'.gone gone).0

-- The state refuses every new lease.
abbrev pub Refuses : ComponentState → Type 0
Refuses s = (s.admission_closed ≡ true) ⊎ (s.is_active ≡ false)

step-Refuses : (s : System) (op : Operation) → Refuses s.shared → Refuses (step s op).shared
unfolding step
step-Refuses s acquire h = ground arith
step-Refuses s (destroy i) h = ground arith
step-Refuses s (move_out i) h = ground arith
step-Refuses s (assign i j) h = ground arith
step-Refuses s begin_deactivate h = ground arith
step-Refuses s end_deactivate h = ground arith
step-Refuses s wake h = ground arith
step-Refuses s close_admission h = ground arith

run-Refuses : (s : System) (ops : List Operation) → Refuses s.shared → Refuses (run s ops).shared
unfolding run
run-Refuses s [] h = h
run-Refuses s (op ∷ ops) h = run-Refuses (step s op) ops (step-Refuses s op h)

-- From the moment that admission is closed or a deactivation begins, every lease that is
-- constructed later is empty and is not counted.
pub no_admission_after :
    (s : System) (ops : List Operation)
    → Refuses s.shared
    → construct (run s ops).shared ≡ ((run s ops).shared, empty_lease)
unfolding construct
no_admission_after s ops h = ground (arith, run-Refuses s ops h)

held_of_idle :
    (ls : List ComponentLease) → All Paired ls → All (λ l. holds l ≡ false) ls → held ls ≡ 0
unfolding held holds
held_of_idle [] p h = refl
held_of_idle (l ∷ ls) p h = ground (arith, held_of_idle ls p.1 h.1)

awake_finishes :
    (s : System)
    → IsValid s
    → held s.leases ≡ 0
    → 0 < s.deactivating
    → (s.shared.sleeping ≡ 0)
      × ((step s end_deactivate).shared.has_component ≡ false)
      × ((step s end_deactivate).deactivating + 1 ≡ s.deactivating)
unfolding step
awake_finishes s v idle waiting = ground (arith, v.counted, v.asleep)

-- From a state with the invariant, whatever the threads do, and in whatever order: when threads are in
-- the wait of `deactivate` and no lease holds the component any more, none of them sleeps, and the next
-- one that goes on withdraws the component and returns.
pub deactivate_finishes :
    (s : System) (ops : List Operation)
    → IsValid s
    → 0 < (run s ops).deactivating
    → All (λ l. holds l ≡ false) (run s ops).leases
    → ((run s ops).shared.sleeping ≡ 0)
      × ((step (run s ops) end_deactivate).shared.has_component ≡ false)
      × ((step (run s ops) end_deactivate).deactivating + 1 ≡ (run s ops).deactivating)
deactivate_finishes s ops v waiting idle =
    let v' = run-IsValid s ops v in
    let none_held = held_of_idle (run s ops).leases v'.paired idle in
    awake_finishes (run s ops) v' none_held waiting
