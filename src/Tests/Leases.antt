-- ===== src/Tests/Leases.antt =====
-- Leases on a component that is deactivated while one of them is held.
use rtt_opcua.Base.{◌+◌, ◌<◌, ◌≡◌, refl, inl, true, false, List, [], ◌∷◌, arith, All}
use rtt_opcua.Lease.{
  empty_lease, construct, holds, System, Operation, acquire, destroy, begin_deactivate,
  end_deactivate, step, run,
}
use rtt_opcua.Lease.Drain.{
  held, IsValid, step-IsValid, withdrawn_is_unused, no_admission_after, deactivate_finishes,
}

abbrev published : System
published = record {
  shared = record {
    has_component = true;
    admission_closed = false;
    is_active = true;
    users = 0;
    sleeping = 0;
  };
  leases = [];
  deactivating = 0;
}

published-IsValid : IsValid published
unfolding held
published-IsValid = record {
  counted = refl;
  bounded = omega arith;
  asleep = λ h. absurd (omega arith);
  within = omega arith;
  paired = tt;
  waiting = λ h. absurd (omega arith);
  gone = λ e. absurd cc;
}

-- The second call of `end_deactivate` finds no user and withdraws the component.
abbrev history : List Operation
history = acquire ∷ begin_deactivate ∷ end_deactivate ∷ acquire ∷ destroy 1 ∷ end_deactivate ∷ []

history_withdraws : (run published history).shared.has_component ≡ false
unfolding run step
history_withdraws = refl

step-IsValid_example : IsValid (step published acquire)
step-IsValid_example = step-IsValid published acquire published-IsValid

withdrawn_is_unused_example : All (λ l. holds l ≡ false) (run published history).leases
withdrawn_is_unused_example =
    withdrawn_is_unused published history published-IsValid history_withdraws

abbrev closing : System
closing = record published { shared = record published.shared { admission_closed = true } }

no_admission_after_example :
    construct (run closing history).shared ≡ ((run closing history).shared, empty_lease)
no_admission_after_example = no_admission_after closing history (inl refl)

-- A thread sleeps in `deactivate` until the lease is destroyed.
abbrev draining : List Operation
draining = acquire ∷ begin_deactivate ∷ destroy 0 ∷ []

run_draining : run published draining ≡ record {
  shared = record {
    has_component = true;
    admission_closed = false;
    is_active = false;
    users = 0;
    sleeping = 0;
  };
  leases = [];
  deactivating = 1;
}
unfolding run step
run_draining = refl

drained_waiting : 0 < (run published draining).deactivating
drained_waiting = rw run_draining (omega arith)

drained_idle : All (λ l. holds l ≡ false) (run published draining).leases
drained_idle = rw run_draining tt

deactivate_finishes_example :
    ((run published draining).shared.sleeping ≡ 0)
    × ((step (run published draining) end_deactivate).shared.has_component ≡ false)
    × ((step (run published draining) end_deactivate).deactivating + 1
        ≡ (run published draining).deactivating)
deactivate_finishes_example =
    deactivate_finishes published draining published-IsValid drained_waiting drained_idle
