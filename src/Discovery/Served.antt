-- ===== src/Discovery/Served.antt =====
-- What a client reads of a published operation: src/object_model.cpp and src/client_session.cpp.
use rtt_opcua.Base.{
  suc, ◌≡◌, refl, ap, true, Option, none, some, List, [], ◌∷◌, ◌++◌, map, arith, length, Bytes,
  codes, text_eq, ok,
}
use rtt_opcua.Schema.{Argument, OperationSchema}
use rtt_opcua.RemoteOperation.{RemoteOperationDescription}
use rtt_opcua.Session.{Status, node_id_unknown, Reply, got, bad_status}
use rtt_opcua.Discovery.{
  PropertyNode, MethodNode, is_unknown, check_outputs, check_inputs, description_text,
  read_optional_array, read_arguments_value, read_property, read_properties, read_method_arguments,
  read_input_descriptions, read_operation,
}
use rtt_opcua.Discovery.Publish.{PublishedOperation, published, array_node, publish_operation}

-- The server's answer for a node that is there or not.
abbrev pub serve_array : {A : Type 0} → Option (List A) → Reply (List A)
serve_array none = bad_status node_id_unknown
serve_array (some values) = got values

-- The property of a method with arguments; without any the server adds none.
abbrev pub serve_arguments : Bytes → List Argument → List PropertyNode
serve_arguments name [] = []
serve_arguments name (a ∷ arguments) =
    (record { is_local = true; name = name; arguments = got (a ∷ arguments) }) ∷ []

-- The nodes of a published operation, as a client finds them.
abbrev pub serve : PublishedOperation → MethodNode
serve p = record {
  is_local = true;
  name = p.name;
  input_types = serve_array p.input_types;
  output_types = serve_array p.output_types;
  output_sources = serve_array p.output_sources;
  properties = got (
      serve_arguments (codes "InputArguments") p.inputs
      ++ serve_arguments (codes "OutputArguments") p.outputs);
  description = some p.description;
}

pub length-map : {A B : Type 0} (f : A → B) (xs : List A) → length (map f xs) ≡ length xs
length-map f [] = refl
length-map f (x ∷ xs) = ap suc (length-map f xs)

-- The description that a client reads of a published operation.
abbrev pub read_description : Bytes → Bytes → OperationSchema → RemoteOperationDescription
read_description name description schema = record {
  name = name;
  description = description;
  input_types = schema.input_type_names;
  input_names = map (λ a. a.name) schema.inputs;
  input_descriptions = map (λ a. a.description) schema.inputs;
  output_types = schema.output_type_names;
  output_sources = schema.output_sources;
}

module _ (status_name : Status → Bytes) where
  read_served :
      {A B : Type 0} (xs : List A) (ys : List B)
      → (length ys ≡ length xs)
      → read_optional_array status_name (serve_array (array_node xs ys)) ≡ ok ys
  unfolding read_optional_array is_unknown
  read_served [] [] h = refl
  read_served [] (y ∷ ys) h = absurd (omega (arith, h))
  read_served (x ∷ xs) ys h = refl

  read_served_arguments :
      (xs ys : List Argument)
      → read_input_descriptions status_name (
          got (
            serve_arguments (codes "InputArguments") xs
            ++ serve_arguments (codes "OutputArguments") ys))
        ≡ ok (map (λ a. a.name) xs, map (λ a. a.description) xs)
  unfolding read_input_descriptions read_method_arguments read_properties read_property
      read_arguments_value text_eq
  read_served_arguments [] [] = refl
  read_served_arguments [] (y ∷ ys) = refl
  read_served_arguments (x ∷ xs) [] = refl
  read_served_arguments (x ∷ xs) (y ∷ ys) = refl

  pub read_operation-serve :
      (mandatory_type name description : Bytes) (schema : OperationSchema) (p : PublishedOperation)
      → length schema.inputs ≡ length schema.input_type_names
      → length schema.output_sources ≡ length schema.output_type_names
      → publish_operation mandatory_type name description schema ≡ published p
      → read_operation status_name (serve p) ≡ ok (read_description name description schema)
  unfolding publish_operation read_operation check_outputs check_inputs description_text
  read_operation-serve mandatory_type name description schema p same counted h =
      let a = read_served schema.input_type_names schema.input_type_names refl in
      let b = read_served schema.output_type_names schema.output_type_names refl in
      let c = read_served schema.output_type_names schema.output_sources counted in
      let d = read_served_arguments schema.inputs schema.outputs in
      let e = length-map (λ (x : Argument). x.name) schema.inputs in
      let f = length-map (λ (x : Argument). x.description) schema.inputs in
      let k : p ≡ record {
        name = name;
        description = description;
        input_types = array_node schema.input_type_names schema.input_type_names;
        output_types = array_node schema.output_type_names schema.output_type_names;
        output_sources = array_node schema.output_type_names schema.output_sources;
        inputs = schema.inputs;
        outputs = schema.outputs;
      } =
        ground (arith, h) in
      rw k (ground (arith, a, b, c, d, e, f, same, counted))
