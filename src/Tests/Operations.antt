-- ===== src/Tests/Operations.antt =====
-- An operation `int f(int, int &)`: its schema, the proxy's operation, and invocations of it.
use rtt_opcua.RemoteOperation.Built.{IsBuilt, make_remote_operation_iff}
use rtt_opcua.Base.{
  ℕ, ◌≡◌, refl, ◌≢◌, ◌↔◌, ◌⊎◌, inl, inr, Bool, true, false, Option, none, some, List, [], ◌∷◌, ◌++◌,
  map, arith, ◌==◌, if◌then◌else◌, length, All, Unique, Bytes, codes, text_eq, decimal, ok, pos,
  negsuc, int_eq,
}
use rtt_opcua.Schema.{
  TypeInfo, TypeCodec, ArgumentDescription, RttOperation, is_space, trim_back, trim_front,
  ends_with, starts_with, is_mutable_reference,
}
use rtt_opcua.Schema.Describe.{mutable_arguments, describe}
use rtt_opcua.Schema.Inputs.{name_of}
use rtt_opcua.Schema.Supported.{IsPublishable}
use rtt_opcua.Schema.Publishable.{describe_supported_iff, describe_sources}
use rtt_opcua.Schema.Sources.{IsSource}
use rtt_opcua.RemoteOperation.{
  RemoteOperationDescription, RemoteOperation, has_index, argument_at, check_source, check_sources,
  remote_argument_name, remote_argument_description, make_arguments, resolve_type, resolve_types,
  choose_return, check_count, make_remote_operation,
}
use rtt_opcua.RemoteOperation.Accepted.{IsConsistent}
use rtt_opcua.RemoteOperation.Call.{
  RemoteCallResult, Codecs, CallAction, encode_loop, encode_arguments, destination_of,
  assign_output, assign_outputs, assign_call_outputs, read_arguments, execute, Handed,
  check_argument, check_arguments, validate_arguments,
}
use rtt_opcua.RemoteOperation.Collect.{
  send_success, send_not_ready, Future, waiting, holds, CollectSource, get,
}
use rtt_opcua.RemoteOperation.Settled.{Assigns, get_success_iff, get_settles}

abbrev pub int_type : TypeInfo
int_type = record { address = 7; type_name = codes "int" }

abbrev pub int_codec : TypeCodec
int_codec = record { has_value = true; data_type_node_id = codes "i=6"; value_rank = negsuc 0 }

abbrev pub pointer_text : ℕ → Bytes
pointer_text address = codes "0x" ++ decimal 20 address

abbrev pub codec_for : TypeInfo → Option TypeCodec
codec_for type = if type.address == 7 then some int_codec else none

abbrev pub arguments : List ArgumentDescription
arguments =
    (record { name = codes "n"; description = []; type_text = codes "int" })
    ∷ (record { name = []; description = []; type_text = codes "int & " })
    ∷ []

abbrev pub operation : RttOperation
operation = record {
  address = 99;
  name = codes "f";
  description = codes "doc";
  argument_list = some arguments;
  argument_types = some int_type ∷ some int_type ∷ [];
  result_type = some int_type;
  collect_types = some int_type ∷ some int_type ∷ [];
}

pub mutable_second : mutable_arguments 0 arguments ≡ 1 ∷ []
unfolding mutable_arguments is_mutable_reference trim_back trim_front ends_with starts_with is_space
mutable_second = refl

operation-IsPublishable : IsPublishable pointer_text codec_for operation arguments true
operation-IsPublishable = record {
  listed_arguments = refl;
  input_values =
      ((int_type, int_codec, refl, refl, refl), ((int_type, int_codec, refl, refl, refl), tt));
  result = record {
    known = int_type;
    codec = int_codec;
    type_known = refl;
    codec_known = refl;
    same_value = refl;
    void = inl refl;
  };
  output_values =
      ((int_type, int_codec, refl, refl, refl), ((int_type, int_codec, refl, refl, refl), tt));
  enough = rw mutable_second (omega arith);
}

describe_supported_iff_example : ((describe pointer_text codec_for operation).supported ≡ true) ↔ (
    (arguments : List ArgumentDescription) × (has_value : Bool) × IsPublishable pointer_text
      codec_for operation arguments has_value)
describe_supported_iff_example = describe_supported_iff pointer_text codec_for operation

pub operation_supported : (describe pointer_text codec_for operation).supported ≡ true
operation_supported =
    (describe_supported_iff pointer_text codec_for operation).1
      (arguments, true, operation-IsPublishable)

describe_sources_example :
    ((describe pointer_text codec_for operation).input_type_names
      ≡ map name_of operation.argument_types)
    × ((describe pointer_text codec_for operation).output_type_names
        ≡ map name_of operation.collect_types)
    × (length (describe pointer_text codec_for operation).output_sources
        ≡ length operation.collect_types)
    × All (IsSource (length arguments)) (describe pointer_text codec_for operation).output_sources
    × Unique (describe pointer_text codec_for operation).output_sources
describe_sources_example =
    describe_sources pointer_text codec_for operation arguments refl (omega arith)
      operation_supported

abbrev pub types_named : Bytes → Option TypeInfo
types_named name = if text_eq name (codes "int") then some int_type else none

abbrev description : RemoteOperationDescription
description = record {
  name = codes "f";
  description = codes "doc";
  input_types = codes "int" ∷ codes "int" ∷ [];
  input_names = codes "n" ∷ codes "argument2" ∷ [];
  input_descriptions = [] ∷ [] ∷ [];
  output_types = codes "int" ∷ codes "int" ∷ [];
  output_sources = negsuc 0 ∷ pos 1 ∷ [];
}

make_remote_operation_iff_example :
    (((o : RemoteOperation) × (make_remote_operation types_named codec_for true description ≡ ok o))
      ↔ ((inputs outputs : List TypeInfo) × IsConsistent types_named codec_for description inputs
            outputs))
    × ((o : RemoteOperation)
        → make_remote_operation types_named codec_for true description ≡ ok o
        → IsBuilt types_named codec_for description o)
make_remote_operation_iff_example = make_remote_operation_iff types_named codec_for description

abbrev remote : RemoteOperation
remote = record {
  description = description;
  input_types = int_type ∷ int_type ∷ [];
  output_types = int_type ∷ int_type ∷ [];
  return_type = int_type;
  mutable_arguments = 1 ∷ [];
  arguments =
      (record { name = codes "n"; description = []; type_text = codes "int" })
      ∷ (record { name = codes "argument2"; description = []; type_text = codes "int &" })
      ∷ [];
}

remote_made : make_remote_operation types_named codec_for true description ≡ ok remote
unfolding make_remote_operation resolve_types resolve_type check_count check_sources check_source
    choose_return make_arguments remote_argument_name remote_argument_description argument_at
    has_index int_eq text_eq
remote_made = refl

abbrev handed : List (Option Handed)
handed =
    some (record { type_name = codes "int"; has_codec = true; is_assignable = false })
    ∷ some (record { type_name = codes "int"; has_codec = true; is_assignable = true })
    ∷ []

handed_valid : validate_arguments remote handed ≡ ok tt
unfolding validate_arguments check_arguments check_argument has_index text_eq
handed_valid = refl

-- A store of numbers: a source is the name of a cell, and a variant a number.
abbrev Cells : Type 0
Cells = ℕ → ℕ

abbrev write_cell : ℕ → ℕ → Cells → Cells × Bool
write_cell v place cells = ((λ k. if k == place then v else cells k), true)

abbrev codecs : Codecs Cells ℕ ℕ
codecs = record {
  to_variant = λ cells place. some (cells place);
  assign_variant = λ type. if text_eq type (codes "int") then some write_cell else none;
}

abbrev action : CallAction ℕ ℕ
action = record {
  arguments = 3 ∷ 4 ∷ [];
  output_types = codes "int" ∷ codes "int" ∷ [];
  output_sources = negsuc 0 ∷ pos 1 ∷ [];
  return_value = some 9;
  inputs = [];
  prepared = false;
}

abbrev call : List ℕ → RemoteCallResult ℕ
call inputs = record { success = true; outputs = 5 ∷ 6 ∷ []; error = [] }

abbrev cells : Cells
cells k = k

call_writes : (execute codecs true call (read_arguments codecs true cells action) cells).0 4 ≡ 6
unfolding execute read_arguments encode_arguments encode_loop assign_call_outputs assign_outputs
    assign_output destination_of text_eq
call_writes = refl

abbrev unfinished : CollectSource ℕ
unfinished = record {
  has_invocation = true;
  destinations = 1 ∷ [];
  output_types = codes "int" ∷ [];
  status = send_not_ready;
}

abbrev answer : RemoteCallResult ℕ
answer = record { success = true; outputs = 8 ∷ []; error = [] }

get_success_iff_example :
    (get codecs false (holds answer) unfinished cells
      ≡ some ((write_cell 8 1 cells).0, record unfinished { status = send_success }))
    ↔ ((result : RemoteCallResult ℕ) × (holds answer ≡ holds result)
        × (result.success ≡ true)
        × Assigns codecs unfinished.output_types unfinished.destinations result.outputs cells
            (write_cell 8 1 cells).0)
get_success_iff_example =
    get_success_iff codecs false (holds answer) unfinished cells (write_cell 8 1 cells).0 refl refl

get_settles_example :
    (after : Cells) × (c' : CollectSource ℕ) × (get codecs true (holds answer) unfinished cells
      ≡ some (after, c'))
    × ((holds answer ≢ waiting) ⊎ (unfinished.has_invocation ≡ false)
        → (blocking' : Bool) (future' : Future ℕ) (later : Cells)
        → get codecs blocking' future' c' later ≡ some (later, c'))
get_settles_example = get_settles codecs true (holds answer) unfinished cells (inr (λ e. cc))
