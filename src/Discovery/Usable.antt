-- ===== src/Discovery/Usable.antt =====
-- The way of an operation from the server to a proxy: src/operation_dispatcher.cpp describes it,
-- src/object_model.cpp publishes it, src/client_session.cpp reads it, and src/remote_operation.cpp
-- makes the proxy's operation.
use rtt_opcua.Schema.Mutable.{AreMutable}
use rtt_opcua.Base.{
  ℕ, ◌^◌, ◌≤◌, ◌≡◌, refl, ◌⊎◌, inl, inr, Bool, true, false, Option, some, List, ◌∷◌, map, length,
  All, In, Bytes, codes, negsuc,
}
use rtt_opcua.Schema.{TypeInfo, TypeCodec, ArgumentDescription, RttOperation}
use rtt_opcua.Schema.Outputs.{wanted}
use rtt_opcua.RemoteOperation.{RemoteOperation}
use rtt_opcua.Discovery.Types.{type_at, IsRegistered}

-- What RTT collects: the result, if there is one, and the arguments at the given indices.
abbrev pub collected_types :
    Bool → Option TypeInfo → List (Option TypeInfo) → List ℕ → List (Option TypeInfo)
collected_types true result types js = result ∷ map (type_at types) js
collected_types false result types js = map (type_at types) js

-- What RTT documents of an operation: it lists its arguments, and collects its result, if that has a
-- value, and the arguments that are references to values that are not constant, in their order.
pub record IsCoherent (codec_for : TypeInfo → Option TypeCodec) (operation : RttOperation)
    (arguments : List ArgumentDescription) (has_value : Bool) : Type 0 where
  pub listed : operation.argument_list ≡ some arguments
  pub counted : length arguments ≡ length operation.argument_types
  pub small : length arguments ≤ 2 ^ 31
  pub returns :
      (t : TypeInfo) × (c : TypeCodec) × (operation.result_type ≡ some t)
      × (codec_for t ≡ some c)
      × (c.has_value ≡ has_value)
  pub mutables : List ℕ
  pub mutable : AreMutable 0 arguments mutables
  pub collected :
      operation.collect_types
      ≡ collected_types has_value operation.result_type operation.argument_types mutables

-- The client knows every type of the operation, and the type of no value.
pub record IsKnown (types_named : Bytes → Option TypeInfo)
    (client_codec : TypeInfo → Option TypeCodec) (operation : RttOperation) : Type 0 where
  pub inputs : All (IsRegistered types_named client_codec) operation.argument_types
  pub outputs : All (IsRegistered types_named client_codec) operation.collect_types
  pub void : (t : TypeInfo) × (types_named (codes "Void") ≡ some t)

wanted_returns : (b : Bool) (js : List ℕ) → In (negsuc 0) (wanted b js) ⊎ (b ≡ false)
wanted_returns true js = inl (inl refl)
wanted_returns false js = inr refl
