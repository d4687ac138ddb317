-- ===== src/Dispatcher/Drained.antt =====
-- The drain of the dispatcher in src/operation_dispatcher.cpp.
use rtt_opcua.Base.{
  ℕ, ◌+◌, ◌≤◌, ◌<◌, ◌≡◌, refl, inl, inr, Bool, true, some, List, [], ◌∷◌, arith, Option-cases,
  is_some, length, Any, List-cases,
}
use rtt_opcua.Lease.{size_mod, ComponentState}
use rtt_opcua.Dispatcher.{Dispatcher, reap_once, drain_rounds, drain}

reap_balance :
    (done : ℕ → Bool) (state : ComponentState) (is : List ℕ)
    → length is ≤ state.users
    → state.users < size_mod
    → ((reap_once done state is).0.users + length is
        ≡ state.users + length (reap_once done state is).1)
      × (length (reap_once done state is).1 ≤ length is)
unfolding reap_once
reap_balance done state [] small h = (omega arith, omega arith)
reap_balance done state (i ∷ is) small h =
    let (a, b) = reap_balance done state is (omega (arith, small)) h in ground (arith, a, b, small)

reap_all :
    (done : ℕ → Bool) (state : ComponentState) (is : List ℕ)
    → ((i : ℕ) → done i ≡ true)
    → (reap_once done state is).1 ≡ []
unfolding reap_once
reap_all done state [] h = refl
reap_all done state (i ∷ is) h = ground (arith, h i, reap_all done state is h)

reap_users :
    (done : ℕ → Bool) (state : ComponentState) (is : List ℕ)
    → length is ≤ state.users
    → state.users < size_mod
    → (reap_once done state is).0.users ≤ state.users
reap_users done state is small h =
    let (a, b) = reap_balance done state is small h in omega (arith, a, b)

drain_rounds_ok :
    (rounds : List (ℕ → Bool)) (state : ComponentState) (is : List ℕ)
    (end : ComponentState × List ℕ)
    → length is ≤ state.users
    → state.users < size_mod
    → drain_rounds rounds state is ≡ some end
    → (end.1 ≡ []) × (end.0.users + length is ≡ state.users)
unfolding drain_rounds
drain_rounds_ok [] state is end small h e = absurd cc
drain_rounds_ok (done ∷ rounds) state is end small h e =
    let (a, b) = reap_balance done state is small h in
    let less = reap_users done state is small h in
    elim (List-cases (reap_once done state is).1) [
      | inl k ↦ ground (arith, k, e, a)
      | inr (i, js, k) ↦
          let (x, y) =
            drain_rounds_ok rounds (reap_once done state is).0 (reap_once done state is).1 end
              (omega (arith, a, b, small)) (omega (arith, less, h)) (ground (arith, k, e)) in
          (x, omega (arith, a, y))
    ]

drain_rounds_total :
    (rounds : List (ℕ → Bool)) (state : ComponentState) (is : List ℕ)
    → Any (λ (done : ℕ → Bool). (i : ℕ) → done i ≡ true) rounds
    → is_some (drain_rounds rounds state is) ≡ true
unfolding drain_rounds
drain_rounds_total [] state is h = absurd h
drain_rounds_total (done ∷ rounds) state is (inl h) = ground (arith, reap_all done state is h)
drain_rounds_total (done ∷ rounds) state is (inr h) =
    ground
      (arith, drain_rounds_total rounds (reap_once done state is).0 (reap_once done state is).1 h)

-- From a state that counts at least the retained invocations: the drain returns once a round finds
-- them all done, and whenever it returns, no invocation is retained and each has given its lease
-- back exactly once.
pub drain_releases :
    (rounds : List (ℕ → Bool)) (state : ComponentState) (d : Dispatcher)
    → length d.invocations ≤ state.users
    → state.users < size_mod
    → (Any (λ (done : ℕ → Bool). (i : ℕ) → done i ≡ true) rounds
        → is_some (drain rounds state d) ≡ true)
      × ((end : ComponentState × Dispatcher)
          → drain rounds state d ≡ some end
          → (end.1 ≡ record { invocations = []; draining = true })
            × (end.0.users + length d.invocations ≡ state.users))
unfolding drain
drain_releases rounds state d small h = (
  λ all. ground (arith, drain_rounds_total rounds state d.invocations all),
  λ end e. elim (Option-cases (drain_rounds rounds state d.invocations)) [
    | inl k ↦ absurd (ground (arith, k, e))
    | inr (last, k) ↦
        let (x, y) = drain_rounds_ok rounds state d.invocations last small h k in
        ground (arith, k, e, x, y)
  ],
)
