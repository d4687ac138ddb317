-- ===== src/RemotePort/Transfer.antt =====
-- Handing pending samples to a replacement adapter.
use rtt_opcua.Base.{
  ◌≡◌, refl, ◌↔◌, ◌⊎◌, inl, inr, true, false, List, [], ◌∷◌, arith, Bool-cases, Bytes, text_eq_iff,
}
use rtt_opcua.RemotePort.{
  PortDirection, RemotePortDescription, Adapter, Codec, direction_eq, path_eq, has_same_identity,
  transfer_pending_state_to,
}
use rtt_opcua.RemotePort.Delivery.{held_input, held_output}

direction_eq_iff : (a b : PortDirection) → (direction_eq a b ≡ true) ↔ (a ≡ b)
unfolding direction_eq
direction_eq_iff a b = ground arith

path_eq_iff : (s t : List Bytes) → (path_eq s t ≡ true) ↔ (s ≡ t)
unfolding path_eq
path_eq_iff [] [] = ground arith
path_eq_iff [] (b ∷ t) = ground arith
path_eq_iff (a ∷ s) [] = ground arith
path_eq_iff (a ∷ s) (b ∷ t) = ground (arith, text_eq_iff a b, path_eq_iff s t)

-- Two descriptions name the same remote port of the same type.
pub record SamePort (d e : RemotePortDescription) : Type 0 where
  pub same_name : d.name ≡ e.name
  pub same_type : d.type_name ≡ e.type_name
  pub same_path : d.service_path ≡ e.service_path
  pub same_direction : d.direction ≡ e.direction

module _ {Source Variant : Type 0} where
  has_same_identity_iff :
      (a b : Adapter Source Variant)
      → (has_same_identity a b ≡ true) ↔ SamePort a.description b.description
  unfolding has_same_identity
  has_same_identity_iff a b = ground (
    arith,
    text_eq_iff a.description.name b.description.name,
    text_eq_iff a.description.type_name b.description.type_name,
    path_eq_iff a.description.service_path b.description.service_path,
    direction_eq_iff a.description.direction b.description.direction,
  )

module _ {Source Variant : Type 0} (codec : Codec Source Variant) where
  -- A transfer succeeds exactly between adapters of the same port. Then the two adapters have
  -- exchanged the samples that they hold, in both directions of flow, and the replacement has the
  -- error; a transfer that fails changes neither adapter.
  pub transfer_pending_state_to_cases :
      (a b : Adapter Source Variant)
      → (((transfer_pending_state_to a b).2 ≡ true)
          × SamePort a.description b.description
          × (held_input codec (transfer_pending_state_to a b).1 ≡ held_input codec a)
          × (held_input codec (transfer_pending_state_to a b).0 ≡ held_input codec b)
          × (held_output codec (transfer_pending_state_to a b).1 ≡ held_output codec a)
          × (held_output codec (transfer_pending_state_to a b).0 ≡ held_output codec b)
          × ((transfer_pending_state_to a b).1.last_error ≡ a.last_error))
        ⊎ ((transfer_pending_state_to a b ≡ (a, b, false)) × ¬ SamePort a.description b.description)
  unfolding transfer_pending_state_to
  transfer_pending_state_to_cases a b = elim (Bool-cases (has_same_identity a b)) [
    | inl e ↦ rw e (inl (refl, (has_same_identity_iff a b).0 e, refl, refl, refl, refl, refl))
    | inr e ↦ rw e (inr (refl, λ same. cc ((has_same_identity_iff a b).1 same)))
  ]
