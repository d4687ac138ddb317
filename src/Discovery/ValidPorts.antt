-- ===== src/Discovery/ValidPorts.antt =====
-- What a discovery of ports in src/client_session.cpp gives.
use rtt_opcua.Base.Order.{text_ord, Ascending}
use rtt_opcua.Discovery.{sort_by_name, adjacent_names}
use rtt_opcua.Discovery.Sorted.{sort_by_name-In, sort_by_name-Ascending}
use rtt_opcua.Base.{
  ℕ, ◌≡◌, refl, ap, subst, ◌∙◌, ◌↔◌, ◌⊎◌, inl, inr, true, false, not, ◌||◌, Option, none, some,
  List, [], ◌∷◌, map, arith, Bool-cases, Option-cases, is_empty, In, Bytes, text_eq_iff, Result,
  err, ok, ◌>>=◌, Result-cases, bind_parts, pos, negsuc, int_eq_iff,
}
use rtt_opcua.Schema.{TypeCodec}
use rtt_opcua.RemotePort.{PortDirection, input, output, RemotePortDescription}
use rtt_opcua.Session.{Status, Reply, got, bad_status, threw}
use rtt_opcua.Discovery.Ports.{
  DirectionValue, not_int32, code, ValueAttributes, PortNode, is_input, bool_eq, access_matches,
  add_port, port_name, read_port_type, read_port_direction, read_port_description, check_attributes,
  validate_port_value, read_port, read_ports, discover_ports,
}

access_parts :
    (direction : PortDirection) (a : ValueAttributes)
    → access_matches direction a ≡ true
    → ((a.readable ≡ true) × (a.user_readable ≡ true))
      × ((a.writable ≡ true) ↔ (direction ≡ input))
      × ((a.user_writable ≡ true) ↔ (direction ≡ input))
unfolding access_matches is_input bool_eq
access_parts input a h = (
  (ground (arith, h), ground (arith, h)),
  (λ k. refl, λ k. ground (arith, h)),
  (λ k. refl, λ k. ground (arith, h)),
)
access_parts output a h = (
  (ground (arith, h), ground (arith, h)),
  (λ k. absurd (ground (arith, h, k)), λ k. absurd (cc k)),
  (λ k. absurd (ground (arith, h, k)), λ k. absurd (cc k)),
)

abbrev pub direction_code : PortDirection → ℕ
direction_code input = 0
direction_code output = 1

module _ (status_name : Status → Bytes) (codec_named : Bytes → Option TypeCodec)
    (service_path : List Bytes) where
  -- A port whose value can be mirrored: its type has a codec with a value, and the value's node is a
  -- variable of the type and the rank of the codec, can be read, and can be written exactly for an
  -- input port, by both access levels.
  pub record IsMirrored (n : PortNode) (p : RemotePortDescription) : Type 0 where
    pub codec : TypeCodec
    pub attributes : ValueAttributes
    pub codec_known : codec_named p.type_name ≡ some codec
    pub value : codec.has_value ≡ true
    pub attributes_known : n.attributes ≡ some attributes
    pub data_type : attributes.data_type ≡ codec.data_type_node_id
    pub value_rank : attributes.value_rank ≡ codec.value_rank
    pub variable : n.value_is_variable ≡ ok true
    pub readable : (attributes.readable ≡ true) × (attributes.user_readable ≡ true)
    pub writable : (attributes.writable ≡ true) ↔ (p.direction ≡ input)
    pub user_writable : (attributes.user_writable ≡ true) ↔ (p.direction ≡ input)

  -- The description is what the nodes of the port say; the code of an input port is 0, that of an
  -- output port 1.
  pub record IsReadFrom (n : PortNode) (p : RemotePortDescription) : Type 0 where
    pub name : p.name ≡ n.name
    pub type_name : n.type_name ≡ got p.type_name
    pub direction : n.direction ≡ ok (code (pos (direction_code p.direction)))
    pub description : n.description ≡ ok p.description
    pub path : p.service_path ≡ service_path

  -- The port is read of one of the nodes, a local one with a name.
  abbrev pub IsPortOf : List PortNode → RemotePortDescription → Type 0
  IsPortOf nodes p =
      (n : PortNode) × In n nodes
      × (n.is_local ≡ true)
      × (is_empty n.name ≡ false)
      × (read_port status_name codec_named service_path n ≡ ok (some p))

  validate_port_value_ok :
      (n : PortNode) (p : RemotePortDescription)
      → validate_port_value status_name codec_named p n.value_is_variable n.attributes ≡ ok false
      → IsMirrored n p
  unfolding validate_port_value check_attributes
  validate_port_value_ok n p h = elim (Option-cases (codec_named p.type_name)) [
    | inl e ↦ absurd (ground (arith, e, h))
    | inr (codec, e) ↦ elim (Bool-cases codec.has_value) [
      | inr f ↦ absurd (ground (arith, e, f, h))
      | inl f ↦ elim (Result-cases n.value_is_variable) [
        | inr (c, g) ↦ absurd (ground (arith, e, f, g, h))
        | inl (b, g) ↦ elim (Option-cases n.attributes) [
          | inl k ↦ absurd (ground (arith, e, f, g, k, h))
          | inr (a, k) ↦ record {
            codec = codec;
            attributes = a;
            codec_known = e;
            value = f;
            attributes_known = k;
            data_type =
                ground (arith, e, f, g, k, h, text_eq_iff a.data_type codec.data_type_node_id);
            value_rank = ground (arith, e, f, g, k, h, int_eq_iff a.value_rank codec.value_rank);
            variable = ground (arith, e, f, g, k, h);
            readable = (access_parts p.direction a (ground (arith, e, f, g, k, h))).0;
            writable = (access_parts p.direction a (ground (arith, e, f, g, k, h))).1;
            user_writable = (access_parts p.direction a (ground (arith, e, f, g, k, h))).2;
          }
        ]
      ]
    ]
  ]

  read_port_type_ok :
      (r : Reply Bytes) (name : Bytes)
      → read_port_type status_name codec_named r ≡ ok name
      → r ≡ got name
  unfolding read_port_type
  read_port_type_ok (got v) name h = cc
  read_port_type_ok (bad_status c) name h = absurd (ground (arith, h))
  read_port_type_ok (threw what) name h = absurd (ground (arith, h))

  read_port_direction_ok :
      (name : Bytes) (r : Result Status DirectionValue) (d : PortDirection)
      → read_port_direction status_name codec_named name r ≡ ok d
      → r ≡ ok (code (pos (direction_code d)))
  unfolding read_port_direction
  read_port_direction_ok name (err c) d h = absurd (ground (arith, h))
  read_port_direction_ok name (ok not_int32) d h = absurd (ground (arith, h))
  read_port_direction_ok name (ok (code (negsuc n))) d h = absurd (ground (arith, h))
  read_port_direction_ok name (ok (code (pos n))) input h = ground (arith, h)
  read_port_direction_ok name (ok (code (pos n))) output h = ground (arith, h)

  read_port_description_ok :
      (name : Bytes) (r : Result Status Bytes) (text : Bytes)
      → read_port_description status_name codec_named name r ≡ ok text
      → r ≡ ok text
  unfolding read_port_description
  read_port_description_ok name (ok t) text h = ground (arith, h)
  read_port_description_ok name (err c) text h = absurd (ground (arith, h))

  read_port-IsMirrored :
      (n : PortNode) (p : RemotePortDescription)
      → read_port status_name codec_named service_path n ≡ ok (some p)
      → IsReadFrom n p × IsMirrored n p
  unfolding read_port
  read_port-IsMirrored n p h =
      let (type_name, a, h1) =
        bind_parts (read_port_type status_name codec_named n.type_name) _ (some p) h in
      let (direction, b, h2) =
        bind_parts (read_port_direction status_name codec_named n.name n.direction) _ (some p) h1 in
      let (text, c, h3) =
        bind_parts (read_port_description status_name codec_named n.name n.description) _ (some p)
          h2 in
      let port : RemotePortDescription = record {
        name = n.name;
        type_name = type_name;
        service_path = service_path;
        description = text;
        direction = direction;
      } in
      let (missing, d, h4) =
        bind_parts
          (validate_port_value status_name codec_named port n.value_is_variable n.attributes) _
          (some p) h3 in
      let there : missing ≡ false = ground (arith, h4) in
      let same : port ≡ p = ground (arith, h4, there) in
      subst (λ q. IsReadFrom n q × IsMirrored n q) same
        (
          record {
            name = refl;
            type_name = read_port_type_ok n.type_name type_name a;
            direction = read_port_direction_ok n.name n.direction direction b;
            description = read_port_description_ok n.name n.description text c;
            path = refl;
          },
          validate_port_value_ok n port (d ∙ ap ok there),
        )

  read_ports-In :
      (nodes : List PortNode) (ps : List RemotePortDescription)
      → read_ports status_name codec_named service_path nodes ≡ ok ps
      → (p : RemotePortDescription) → In p ps ↔ IsPortOf nodes p
  unfolding read_ports
  read_ports-In [] ps h p = let e : ps ≡ [] = cc in (λ k. absurd (rw e at k), λ q. absurd q.1)
  read_ports-In (n ∷ ns) ps h p = elim (Bool-cases (not n.is_local || is_empty n.name)) [
    | inl skipped ↦
        let rest = read_ports-In ns ps (ground (arith, skipped, h)) p in
        (
          λ k. let q = rest.0 k in (q.0, inr q.1, q.2, q.3, q.4),
          λ (m, i, l, e, r). elim i [
            | inl same ↦ absurd (ground (arith, skipped, (rw same at l), (rw same at e)))
            | inr j ↦ rest.1 (m, j, l, e, r)
          ],
        )
    | inr kept ↦
        let both : (read_port status_name codec_named service_path n >>= λ port.
        read_ports status_name codec_named service_path ns >>= λ ports. ok (add_port port ports))
            ≡ ok ps =
          ground (arith, kept, h) in
        let (port, e, more) =
          bind_parts (read_port status_name codec_named service_path n) _ ps both in
        let (ports, f, last) =
          bind_parts (read_ports status_name codec_named service_path ns) _ ps more in
        let same : add_port port ports ≡ ps = ground (arith, last) in
        let rest = read_ports-In ns ports f p in
        let added = add_port-In port p ports in
        subst (λ xs. In p xs ↔ IsPortOf (n ∷ ns) p) same
          (
            λ k. elim (added.0 k) [
              | inl q ↦ (n, inl refl, ground (arith, kept), ground (arith, kept), rw q at e)
              | inr j ↦ (let q = rest.0 j in (q.0, inr q.1, q.2, q.3, q.4))
            ],
            λ (m, i, l, w, r). elim i [
              | inl q ↦ added.1 (inl (ground (arith, (rw q at r), e)))
              | inr j ↦ added.1 (inr (rest.1 (m, j, l, w, r)))
            ],
          )
  ]
    where
      add_port-In :
          (o : Option RemotePortDescription) (p : RemotePortDescription)
          (ports : List RemotePortDescription)
          → In p (add_port o ports) ↔ ((o ≡ some p) ⊎ In p ports)
      add_port-In none p ports = (λ k. inr k, λ k. elim k [ inl e ↦ absurd cc | inr j ↦ j ])
      add_port-In (some q) p ports = ground arith

  -- A discovery of ports that succeeds gives exactly the ports that are read of the local nodes with a
  -- name, in the order of their names, of which no two are the same. Each port has the name, the type,
  -- the direction and the description of its nodes, and can be mirrored: its type has a codec with a
  -- value, and its value's node is a variable of the codec's type and rank that can be read, and that
  -- can be written exactly for an input port, both by its access level and by the user's.
  pub discover_ports_ok :
      (nodes : List PortNode) (ps : List RemotePortDescription)
      → discover_ports status_name codec_named service_path nodes ≡ ok ps
      → Ascending (map port_name ps)
        × ((p : RemotePortDescription) → In p ps ↔ IsPortOf nodes p)
        × ((p : RemotePortDescription)
            → In p ps
            → (n : PortNode) × In n nodes × IsReadFrom n p × IsMirrored n p)
  unfolding discover_ports
  discover_ports_ok nodes ps h =
      let (all, e, rest) =
        bind_parts (read_ports status_name codec_named service_path nodes) _ ps h in
      let distinct : adjacent_names port_name (sort_by_name port_name all) ≡ false =
        ground (arith, rest) in
      let same : sort_by_name port_name all ≡ ps = ground (arith, rest, distinct) in
      let found : (p : RemotePortDescription) → In p ps ↔ IsPortOf nodes p = λ p.
        subst (λ xs. In p xs ↔ IsPortOf nodes p) same
          (let a = sort_by_name-In port_name p all in
            let b = read_ports-In nodes all e p in (λ k. b.0 (a.0 k), λ k. a.1 (b.1 k))) in
      (
        subst (λ xs. Ascending (map port_name xs)) same
            (sort_by_name-Ascending port_name all distinct),
        found,
        λ p k.
            let (n, i, l, w, r) = (found p).0 k in
            (let (from, good) = read_port-IsMirrored n p r in (n, i, from, good)),
      )
