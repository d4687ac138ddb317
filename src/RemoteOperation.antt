-- ===== src/RemoteOperation.antt =====
-- src/remote_operation.cpp: the operation that a proxy offers for a method of the server. The
-- constructor throws a `runtime_error`, which is the error of a `Result`.
pub mod Consistent
pub mod Accepted
pub mod Arguments
pub mod Built
pub mod Call
pub mod Collect
pub mod Settled
pub mod Valid
use rtt_opcua.Base.{
  ℕ, ◌+◌, ◌-◌, Bool, true, false, not, ◌||◌, Option, none, some, List, [], ◌∷◌, ◌++◌, ltb, ◌==◌,
  if◌then◌else◌, length, get_elem?, is_empty, Bytes, codes, decimal, Result, err, ok, ◌>>=◌, ℤ, pos,
  negsuc, int_eq,
}
use rtt_opcua.Schema.{TypeInfo, TypeCodec, ArgumentDescription}

pub record RemoteOperationDescription : Type 0 where
  pub name : Bytes
  pub description : Bytes
  pub input_types : List Bytes
  pub input_names : List Bytes
  pub input_descriptions : List Bytes
  pub output_types : List Bytes
  pub output_sources : List ℤ

pub record RemoteOperation : Type 0 where
  pub description : RemoteOperationDescription
  pub input_types : List TypeInfo
  pub output_types : List TypeInfo
  pub return_type : TypeInfo
  pub mutable_arguments : List ℕ
  pub arguments : List ArgumentDescription

-- A message about an operation or a type.
abbrev pub about : Bytes → Bytes → Bytes
about text name = text ++ (name ++ codes "'")

unfoldable pub has_index : ℕ → List ℕ → Bool
has_index j [] = false
has_index j (k ∷ ks) = j == k || has_index j ks

-- What the loop over the sources collects: the return type and the mutable arguments.
pub record Collected : Type 0 where
  pub return_type : Option TypeInfo
  pub mutables : List ℕ

-- The argument that a source names: `source >= 0` and in range.
unfoldable pub argument_at : List TypeInfo → ℤ → Option (ℕ × TypeInfo)
argument_at types (negsuc n) = none
argument_at types (pos j) = elim (get_elem? types j) [ none ↦ none | some type ↦ some (j, type) ]

-- One round of the loop over the sources.
unfoldable pub check_source :
    Bytes → List TypeInfo → ℤ → TypeInfo → Collected → Result Bytes Collected
unfolding argument_at
check_source name inputs source type c =
    if int_eq source (negsuc 0)
    then elim c.return_type [
      | some other ↦ err (about (codes "multiple return values for remote RTT operation '") name)
      | none ↦ ok (record c { return_type = some type })
    ]
    else elim (argument_at inputs source) [
      | none ↦ err (about (codes "invalid output source for remote RTT operation '") name)
      | some (j, input) ↦
          if not (type.address == input.address) || has_index j c.mutables
          then err (about (codes "inconsistent mutable output for remote RTT operation '") name)
          else ok (record c { mutables = j ∷ c.mutables })
    ]

unfoldable pub check_sources :
    Bytes → List TypeInfo → List ℤ → List TypeInfo → Collected → Result Bytes Collected
check_sources name inputs (source ∷ sources) (type ∷ types) c =
    check_source name inputs source type c >>= λ c'. check_sources name inputs sources types c'
check_sources name inputs [] types c = ok c
check_sources name inputs (source ∷ sources) [] c = ok c

-- The name and the description of an argument.
unfoldable pub remote_argument_name : List Bytes → ℕ → Bytes
remote_argument_name names index = elim (get_elem? names index) [
  | some name ↦ if is_empty name then codes "argument" ++ decimal 20 (index + 1) else name
  | none ↦ codes "argument" ++ decimal 20 (index + 1)
]

unfoldable pub remote_argument_description : List Bytes → ℕ → Bytes
remote_argument_description descriptions index = elim (get_elem? descriptions index) [
  | some description ↦ description
  | none ↦ []
]

-- The loop that makes the descriptions of the arguments.
unfoldable pub make_arguments :
    RemoteOperationDescription → List ℕ → ℕ → List TypeInfo → List ArgumentDescription
make_arguments d mutables index [] = []
make_arguments d mutables index (type ∷ types) =
    (record {
      name = remote_argument_name d.input_names index;
      description = remote_argument_description d.input_descriptions index;
      type_text = if has_index index mutables then type.type_name ++ codes " &" else type.type_name;
    })
    ∷ make_arguments d mutables (index + 1) types

module _ (types_named : Bytes → Option TypeInfo) (codec_for : TypeInfo → Option TypeCodec) where
  -- One name of a type: it is registered with RTT and has a codec.
  unfoldable pub resolve_type : Bytes → Bytes → Result Bytes TypeInfo
  resolve_type text name = elim (types_named name) [
    | none ↦ err (about text name)
    | some type ↦ elim (codec_for type) [ none ↦ err (about text name) | some codec ↦ ok type ]
  ]

  -- The loops over the names of the types.
  unfoldable pub resolve_types : Bytes → List Bytes → Result Bytes (List TypeInfo)
  resolve_types text [] = ok []
  resolve_types text (name ∷ names) =
      resolve_type text name >>= λ type. resolve_types text names >>= λ types. ok (type ∷ types)

  -- The return type: that of the source -1, or `Void`.
  unfoldable pub choose_return : Option TypeInfo → Result Bytes TypeInfo
  choose_return (some type) = ok type
  choose_return none = elim (types_named (codes "Void")) [
    | none ↦ err (codes "RTT Void type is not registered")
    | some type ↦ ok type
  ]

  unfoldable pub check_count : RemoteOperationDescription → List TypeInfo → Result Bytes (Unit {0})
  check_count d outputs =
      if not (length outputs == length d.output_sources)
      then err (about (codes "inconsistent output metadata for remote RTT operation '") d.name)
      else ok tt

  -- The constructor of `RemoteOperation`; the flag says that the session has a type registry.
  unfoldable pub make_remote_operation :
      Bool → RemoteOperationDescription → Result Bytes RemoteOperation
  unfolding resolve_types check_sources choose_return check_count make_arguments
  make_remote_operation false d = err (codes "OPC UA client type registry is unavailable")
  make_remote_operation true d =
      resolve_types (codes "unsupported remote RTT input type '") d.input_types >>= λ inputs.
      resolve_types (codes "unsupported remote RTT output type '") d.output_types >>= λ outputs.
      check_count d outputs >>= λ counted.
      check_sources d.name inputs d.output_sources outputs
        (record { return_type = none; mutables = [] })
      >>= λ c. choose_return c.return_type >>= λ return_type. ok (record {
        description = d;
        input_types = inputs;
        output_types = outputs;
        return_type = return_type;
        mutable_arguments = c.mutables;
        arguments = make_arguments d c.mutables 0 inputs;
      })

-- `getArgumentType` and `getCollectType`
unfoldable pub get_argument_type : RemoteOperation → ℕ → Option TypeInfo
get_argument_type o argument =
    if argument == 0
    then some o.return_type
    else if ltb (length o.input_types) argument
    then none
    else get_elem? o.input_types (argument - 1)

unfoldable pub get_collect_type : RemoteOperation → ℕ → Option TypeInfo
get_collect_type o argument =
    if argument == 0 || ltb (length o.output_types) argument
    then none
    else get_elem? o.output_types (argument - 1)
