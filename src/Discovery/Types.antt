-- ===== src/Discovery/Types.antt =====
-- The types of an operation on the server and in the proxy that reads its metadata.
use rtt_opcua.Base.{
  ℕ, zero, suc, ◌^◌, ◌≤◌, ◌<◌, ◌≡◌, refl, ap, inr, Option, none, some, List, [], ◌∷◌, map, arith,
  length, get_elem?, All, take, Bytes, ℤ, to_int32, to_int32_small,
}
use rtt_opcua.Schema.{TypeInfo, TypeCodec}
use rtt_opcua.Schema.Inputs.{name_of, HasValue}
use rtt_opcua.RemoteOperation.{}
use rtt_opcua.RemoteOperation.Consistent.{AllFit}
use rtt_opcua.RemoteOperation.Accepted.{Resolves}

abbrev pub types_of : List (Option TypeInfo) → List TypeInfo
types_of [] = []
types_of (none ∷ types) = types_of types
types_of (some type ∷ types) = type ∷ types_of types

-- The type of the argument at an index.
abbrev pub type_at : List (Option TypeInfo) → ℕ → Option TypeInfo
type_at [] j = none
type_at (type ∷ types) zero = type
type_at (type ∷ types) (suc j) = type_at types j

-- The client knows the type under its name, and has a codec for it.
abbrev pub IsRegistered :
    (Bytes → Option TypeInfo) → (TypeInfo → Option TypeCodec) → Option TypeInfo → Type 0
IsRegistered types_named client_codec type =
    (t : TypeInfo)
    → type ≡ some t
    → (types_named t.type_name ≡ some t) × ((c : TypeCodec) × (client_codec t ≡ some c))

module _ (codec_for : TypeInfo → Option TypeCodec) where
  pub length-types_of :
      (types : List (Option TypeInfo))
      → All (HasValue codec_for) types
      → length (types_of types) ≡ length types
  length-types_of [] h = refl
  length-types_of (none ∷ types) h = let (t, c, e, r, v) = h.0 in absurd cc
  length-types_of (some t ∷ types) h = ap suc (length-types_of types h.1)

  pub types_of-Resolves :
      (types_named : Bytes → Option TypeInfo) (client_codec : TypeInfo → Option TypeCodec)
      (types : List (Option TypeInfo))
      → All (HasValue codec_for) types
      → All (IsRegistered types_named client_codec) types
      → Resolves types_named client_codec (map name_of types) (types_of types)
  types_of-Resolves types_named client_codec [] h k = tt
  types_of-Resolves types_named client_codec (none ∷ types) h k =
      let (t, c, e, r, v) = h.0 in absurd cc
  types_of-Resolves types_named client_codec (some t ∷ types) h k =
      (k.0 t refl, types_of-Resolves types_named client_codec types h.1 k.1)

  type_at-some :
      (types : List (Option TypeInfo)) (j : ℕ)
      → All (HasValue codec_for) types
      → j < length types
      → (t : TypeInfo) × (type_at types j ≡ some t) × (get_elem? (types_of types) j ≡ some t)
  type_at-some [] j h lt = absurd (omega (arith, lt))
  type_at-some (none ∷ types) j h lt = let (t, c, e, r, v) = h.0 in absurd cc
  type_at-some (some t ∷ types) zero h lt = (t, refl, refl)
  type_at-some (some t ∷ types) (suc j) h lt = type_at-some types j h.1 (omega (arith, lt))

  pub mutables_fit :
      (types : List (Option TypeInfo)) (js : List ℕ)
      → length types ≤ 2 ^ 31
      → All (HasValue codec_for) types
      → All (λ j. (0 ≤ j) × (j < length types)) js
      → AllFit (types_of types) (map to_int32 js) (types_of (map (type_at types) js))
  mutables_fit types [] small h k = tt
  mutables_fit types (j ∷ js) small h k =
      let (t, e, f) = type_at-some types j h k.0.1 in
      rw e (
        inr (j, t, to_int32_small j (omega (arith, k.0.1, small)), f, refl),
        mutables_fit types js small h k.1,
      )

pub take_full : (n : ℕ) (xs : List ℤ) → length xs ≤ n → take n xs ≡ xs
take_full zero [] h = refl
take_full zero (x ∷ xs) h = absurd (omega (arith, h))
take_full (suc n) [] h = refl
take_full (suc n) (x ∷ xs) h = ap (λ ys. x ∷ ys) (take_full n xs (omega (arith, h)))

module _ (types_named : Bytes → Option TypeInfo) (codec_for : TypeInfo → Option TypeCodec) where
  pub Resolves-unique :
      (names : List Bytes) (types others : List TypeInfo)
      → Resolves types_named codec_for names types
      → Resolves types_named codec_for names others
      → types ≡ others
  Resolves-unique [] [] [] h k = refl
  Resolves-unique [] [] (o ∷ others) h k = absurd k
  Resolves-unique [] (t ∷ types) others h k = absurd h
  Resolves-unique (n ∷ names) [] others h k = absurd h
  Resolves-unique (n ∷ names) (t ∷ types) [] h k = absurd k
  Resolves-unique (n ∷ names) (t ∷ types) (o ∷ others) h k =
      let rest = Resolves-unique names types others h.1 k.1 in
      let first : t ≡ o = ground (arith, h.0.0, k.0.0) in cc
