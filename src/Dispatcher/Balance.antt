-- ===== src/Dispatcher/Balance.antt =====
-- The leases of src/operation_dispatcher.cpp: none is lost and none is kept by a finished invocation.
use rtt_opcua.Base.{
  ℕ, ◌+◌, ◌<◌, ◌≡◌, refl, ◌⊎◌, inl, inr, Bool, Option, none, some, List, [], ◌∷◌, ◌++◌, arith,
  Bool-cases, length, length-append,
}
use rtt_opcua.Lease.{size_mod, ComponentState}
use rtt_opcua.Dispatcher.{StatusCode, bad_timeout, Dispatcher}
use rtt_opcua.Dispatcher.Invoke.{Answers, BodyEnd, replies, retains, invoke_body, Outcome, invoke}

length-snoc : (is : List ℕ) (i : ℕ) → length (is ++ (i ∷ [])) ≡ length is + 1
length-snoc is i = omega (arith, length-append is (i ∷ []))

-- The state has not changed but for the users.
abbrev pub SameFlags : ComponentState → ComponentState → Type 0
SameFlags s s' =
    (s'.has_component ≡ s.has_component)
    × (s'.admission_closed ≡ s.admission_closed)
    × (s'.is_active ≡ s.is_active)

pub BodyEnd-cases :
    {Variant : Type 0} (o : Option (BodyEnd Variant))
    → (o ≡ none)
      ⊎ ((status : StatusCode) × (outputs : List Variant) × (o ≡ some (replies status outputs)))
      ⊎ (o ≡ some retains)
BodyEnd-cases none = inl refl
BodyEnd-cases (some (replies status outputs)) = inr (inl (status, outputs, refl))
BodyEnd-cases (some retains) = inr (inr refl)

module _ {Source Variant : Type 0} (answers : Answers Source Variant) (has_timeout : Bool)
    (id : ℕ) where
  -- Whatever RTT answers: when an invocation returns, the count of users has grown by the number of
  -- retained invocations, which is none, or the invocation itself with the status of a time-out.
  pub invoke_balance :
      (state : ComponentState) (d : Dispatcher) (inputs outputs : List Variant)
      (o : Outcome Variant)
      → state.users + 1 < size_mod
      → invoke answers has_timeout id state d inputs outputs ≡ some o
      → SameFlags state o.state
        × (o.state.users + length d.invocations ≡ state.users + length o.dispatcher.invocations)
        × ((o.dispatcher.invocations ≡ d.invocations)
            ⊎ ((o.status ≡ bad_timeout) × (o.dispatcher.invocations ≡ d.invocations ++ (id ∷ []))))
  unfolding invoke
  invoke_balance state d inputs outputs o small h =
      elim (BodyEnd-cases (invoke_body answers has_timeout inputs outputs)) [
        | inl e ↦ ground (arith, e, h)
        | inr (inl (status, outputs', e)) ↦ ground (arith, e, h)
        | inr (inr e) ↦ ground (
          arith,
          e,
          h,
          length-snoc d.invocations id,
          Bool-cases d.draining,
          Bool-cases answers.wait_ends,
        )
      ]
