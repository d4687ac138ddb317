-- ===== src/Lease.antt =====
-- src/component_state.hpp: leases on a published component, and its deactivation.
-- Each operation holds the state's mutex, so an execution of several threads is a sequence of
-- operations; `deactivate` waits between its two critical sections.
pub mod Drain
use rtt_opcua.Base.{
  ℕ, zero, suc, ◌+◌, ◌-◌, ◌%◌, ◌^◌, Bool, true, false, not, ◌&&◌, ◌||◌, List, [], ◌∷◌, ltb, ◌==◌,
  if◌then◌else◌, length,
}

abbrev pub size_mod : ℕ
size_mod = 2 ^ 64

-- `sleeping` is the number of the threads that sleep on the condition.
pub record ComponentState : Type 0 where
  pub has_component : Bool
  pub admission_closed : Bool
  pub is_active : Bool
  pub users : ℕ
  pub sleeping : ℕ

-- A `ComponentLease`: whether its pointer to the state and its pointer to the component are set.
pub record ComponentLease : Type 0 where
  pub state : Bool
  pub component : Bool

abbrev pub empty_lease : ComponentLease
empty_lease = record { state = false; component = false }

-- `ComponentLease(state)`; the pointer to the state is not null, here and in `deactivate` and
-- `isActive`.
unfoldable pub construct : ComponentState → ComponentState × ComponentLease
construct s =
    if s.admission_closed || not s.is_active || not s.has_component
    then (s, empty_lease)
    else (record s { users = (s.users + 1) % size_mod }, record { state = true; component = true })

-- `release()`, also the destructor: `notify_all` wakes every thread that sleeps. It follows the critical
-- section and is one step with it here.
unfoldable pub release : ComponentState → ComponentLease → ComponentState × ComponentLease
release s l =
    if l.state
    then (record s { users = (s.users + size_mod - 1) % size_mod; sleeping = 0 }, empty_lease)
    else (s, l)

-- The move constructor: the new lease, and the one moved from.
unfoldable pub move_construct : ComponentLease → ComponentLease × ComponentLease
move_construct other = (record { state = other.state; component = other.component }, empty_lease)

-- The move assignment between two different leases: the state, the target, the source.
unfoldable pub move_assign :
    ComponentState
    → ComponentLease
    → ComponentLease
    → ComponentState × ComponentLease × ComponentLease
unfolding release
move_assign s target other =
    let (s', released) = release s target in
    (s', record { state = other.state; component = other.component }, empty_lease)

-- `deactivate` up to its wait, and the first look at the predicate of the wait: the thread sleeps unless
-- there are no users.
unfoldable pub deactivate_begin : ComponentState → ComponentState
deactivate_begin s = record s {
  is_active = false;
  sleeping = if s.users == 0 then s.sleeping else s.sleeping + 1;
}

-- A thread in the wait that is awake looks at the predicate, and ends `deactivate` or sleeps again.
unfoldable pub deactivate_end : ComponentState → ComponentState
deactivate_end s =
    if s.users == 0
    then record s { has_component = false }
    else record s { sleeping = s.sleeping + 1 }

-- `admission_closed->store(true)`, which the owner of the model does.
unfoldable pub close : ComponentState → ComponentState
close s = record s { admission_closed = true }

-- `isActive`
unfoldable pub is_active_component : ComponentState → Bool
is_active_component s = not s.admission_closed && s.is_active && s.has_component

-- `lease.get() != nullptr`
unfoldable pub holds : ComponentLease → Bool
holds l = l.component

-- The state with the leases on it that have not been destroyed, and the number of the threads in the
-- wait of `deactivate`, asleep or awake.
pub record System : Type 0 where
  pub shared : ComponentState
  pub leases : List ComponentLease
  pub deactivating : ℕ

pub data Operation : Type 0 where
  acquire : Operation
  destroy move_out : ℕ → Operation
  assign : ℕ → ℕ → Operation
  begin_deactivate end_deactivate wake close_admission : Operation

abbrev pub get_or_empty : List ComponentLease → ℕ → ComponentLease
get_or_empty [] i = empty_lease
get_or_empty (l ∷ ls) zero = l
get_or_empty (l ∷ ls) (suc i) = get_or_empty ls i

abbrev pub remove_at : List ComponentLease → ℕ → List ComponentLease
remove_at [] i = []
remove_at (l ∷ ls) zero = ls
remove_at (l ∷ ls) (suc i) = l ∷ remove_at ls i

abbrev pub set : List ComponentLease → ℕ → ComponentLease → List ComponentLease
set [] i v = []
set (l ∷ ls) zero v = v ∷ ls
set (l ∷ ls) (suc i) v = l ∷ set ls i v

-- Every lease occupies an address of its own, so fewer than 2^64 of them exist at a time. Only a thread
-- that is awake ends its deactivation; `wake` is the wake-up of a thread without a notification.
unfoldable pub step : System → Operation → System
unfolding construct release move_construct move_assign deactivate_begin deactivate_end close
step s acquire =
    if ltb (length s.leases + 1) size_mod
    then (let (shared', l) = construct s.shared in
        record s { shared = shared'; leases = l ∷ s.leases })
    else s
step s (destroy i) =
    let (shared', l) = release s.shared (get_or_empty s.leases i) in
    record s { shared = shared'; leases = remove_at s.leases i }
step s (move_out i) =
    if ltb (length s.leases + 1) size_mod
    then (let (l, other) = move_construct (get_or_empty s.leases i) in
        record s { leases = l ∷ set s.leases i other })
    else s
step s (assign i j) =
    if not (i == j) && ltb i (length s.leases) && ltb j (length s.leases)
    then (let (shared', target, other) =
          move_assign s.shared (get_or_empty s.leases i) (get_or_empty s.leases j) in
        record s { shared = shared'; leases = set (set s.leases i target) j other })
    else s
step s begin_deactivate = record s {
  shared = deactivate_begin s.shared;
  deactivating = s.deactivating + 1;
}
step s end_deactivate = if not (ltb s.shared.sleeping s.deactivating) then s else record s {
  shared = deactivate_end s.shared;
  deactivating = if s.shared.users == 0 then s.deactivating - 1 else s.deactivating;
}
step s wake = record s { shared = record s.shared { sleeping = s.shared.sleeping - 1 } }
step s close_admission = record s { shared = close s.shared }

unfoldable pub run : System → List Operation → System
run s [] = s
run s (op ∷ ops) = run (step s op) ops
