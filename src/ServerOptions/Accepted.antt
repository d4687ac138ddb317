-- ===== src/ServerOptions/Accepted.antt =====
-- Which options of src/server_options.cpp are accepted.
use rtt_opcua.Base.{
  ℕ, ◌<◌, ◌≡◌, refl, sym, ap, subst, ◌≢◌, ◌↔◌, ◌⊎◌, inl, inr, true, false, not, ◌||◌, none, List,
  [], ◌∷◌, arith, ◌==◌, is_empty, All, In, Bytes, codes, text_eq, text_eq_iff, has_byte, Distinct,
  listed, not_listed, listed_of_not,
}
use rtt_opcua.ServerOptions.{
  ServerOptions, is_loopback_address, starts_with_slash, has_unsupported, check_uris,
  validate_server_options,
}

-- A character that an endpoint path may hold.
abbrev pub IsPathByte : ℕ → Type 0
IsPathByte c = (c ≢ b'?') × (c ≢ b'#') × (c ≢ 32) × (c ≢ 9) × (c ≢ 13) × (c ≢ 10)

abbrev pub IsUri : Bytes → Type 0
IsUri uri = (uri ≢ []) × All (λ c. c ≢ 0) uri

-- The options that a server may run with.
pub record IsAccepted (o : ServerOptions) : Type 0 where
  pub address :
      (o.bind_address ≡ codes "127.0.0.1")
      ⊎ (o.bind_address ≡ codes "::1")
      ⊎ (o.bind_address ≡ codes "0.0.0.0")
  pub port : 0 < o.port
  pub path : (rest : Bytes) × (o.endpoint_path ≡ b'/' ∷ rest) × All IsPathByte rest
  pub application : o.application_name ≢ []
  pub uris : All IsUri o.additional_namespace_uris
  pub unique : Distinct o.additional_namespace_uris

pub has_byte_iff : (c : ℕ) (s : Bytes) → (has_byte c s ≡ false) ↔ All (λ x. x ≢ c) s
unfolding has_byte
has_byte_iff c [] = ground arith
has_byte_iff c (x ∷ s) = ground (arith, has_byte_iff c s)

has_unsupported_iff : (s : Bytes) → (has_unsupported s ≡ false) ↔ All IsPathByte s
unfolding has_unsupported
has_unsupported_iff [] = ground arith
has_unsupported_iff (x ∷ s) = ground (arith, has_unsupported_iff s)

is_empty_iff : (s : Bytes) → (is_empty s ≡ false) ↔ (s ≢ [])
is_empty_iff [] = (λ e. absurd cc, λ h. absurd (h refl))
is_empty_iff (x ∷ s) = (λ e f. absurd cc, λ h. refl)

abbrev Fresh : List Bytes → List Bytes → Type 0
Fresh seen uris = (u : Bytes) → In u uris → ¬ In u seen

check_uris-cons :
    (uri : Bytes) (uris seen : List Bytes)
    → (check_uris seen (uri ∷ uris) ≡ none) ↔ (
        (is_empty uri ≡ false)
        × (has_byte 0 uri ≡ false)
        × (listed uri seen ≡ false)
        × (check_uris (uri ∷ seen) uris ≡ none))
unfolding check_uris
check_uris-cons uri uris seen = ground arith

check_uris_sound :
    (uris seen : List Bytes)
    → check_uris seen uris ≡ none
    → All IsUri uris × Distinct uris × Fresh seen uris
check_uris_sound [] seen e = (tt, tt, λ u h k. h)
check_uris_sound (uri ∷ uris) seen e =
    let (full, plain, new, rest) = (check_uris-cons uri uris seen).0 e in
    let (valid, distinct, fresh) = check_uris_sound uris (uri ∷ seen) rest in
    (
      (((is_empty_iff uri).0 full, (has_byte_iff 0 uri).0 plain), valid),
      (λ h. fresh uri h (inl refl), distinct),
      λ u h k. elim h [
        | inl f ↦ not_listed uri seen new (subst (λ (x : Bytes). In x seen) f k)
        | inr m ↦ fresh u m (inr k)
      ],
    )

check_uris_complete :
    (uris seen : List Bytes)
    → All IsUri uris
    → Distinct uris
    → Fresh seen uris
    → check_uris seen uris ≡ none
check_uris_complete [] seen v d f = unfold check_uris in refl
check_uris_complete (uri ∷ uris) seen v d f = (check_uris-cons uri uris seen).1 (
  (is_empty_iff uri).1 v.0.0,
  (has_byte_iff 0 uri).1 v.0.1,
  listed_of_not uri seen (f uri (inl refl)),
  check_uris_complete uris (uri ∷ seen) v.1 d.1 (λ u h k. elim k [
    | inl e ↦ d.0 (subst (λ (x : Bytes). In x uris) e h)
    | inr m ↦ f u (inr h) m
  ]),
)

slash-cases :
    (path : Bytes)
    → ((is_empty path || not (starts_with_slash path)) ≡ false)
      ↔ ((rest : Bytes) × (path ≡ b'/' ∷ rest))
unfolding starts_with_slash
slash-cases [] = (λ e. absurd cc, λ h. absurd cc)
slash-cases (c ∷ path) =
    (λ e. (path, ap (λ (x : ℕ). x ∷ path) (ground arith)), λ h. ground (arith, h.1))

validate_parts :
    (o : ServerOptions)
    → (validate_server_options o ≡ none) ↔ (
        (is_empty o.bind_address ≡ false)
        × ((o.port == 0) ≡ false)
        × ((is_empty o.endpoint_path || not (starts_with_slash o.endpoint_path)) ≡ false)
        × (has_unsupported o.endpoint_path ≡ false)
        × (is_empty o.application_name ≡ false)
        × ((is_loopback_address o.bind_address || text_eq o.bind_address (codes "0.0.0.0")) ≡ true)
        × (check_uris [] o.additional_namespace_uris ≡ none))
unfolding validate_server_options
validate_parts o = ground arith

abbrev pub IsServed : Bytes → Type 0
IsServed address =
    (address ≡ codes "127.0.0.1") ⊎ (address ≡ codes "::1") ⊎ (address ≡ codes "0.0.0.0")

address_iff :
    (address : Bytes)
    → ((is_loopback_address address || text_eq address (codes "0.0.0.0")) ≡ true) ↔ IsServed address
unfolding is_loopback_address
address_iff address = ground (
  arith,
  text_eq_iff address (codes "127.0.0.1"),
  text_eq_iff address (codes "::1"),
  text_eq_iff address (codes "0.0.0.0"),
)

address_filled : (address : Bytes) → IsServed address → is_empty address ≡ false
address_filled address (inl e) = ap is_empty e
address_filled address (inr (inl e)) = ap is_empty e
address_filled address (inr (inr e)) = ap is_empty e

slash_IsPathByte : IsPathByte b'/'
slash_IsPathByte = omega arith

-- Options are accepted exactly when the address is one of the three that are served, the port is
-- not zero, the path starts with a slash and has none of the six excluded characters, the name of
-- the application is not empty, and the namespace URIs are nonempty, without NUL and distinct.
pub validate_server_options_iff :
    (o : ServerOptions) → (validate_server_options o ≡ none) ↔ IsAccepted o
validate_server_options_iff o = (
  λ e.
      let (filled, port, slash, path, application, address, uris) = (validate_parts o).0 e in
      let (rest, split) = (slash-cases o.endpoint_path).0 slash in
      let (valid, distinct, fresh) = check_uris_sound o.additional_namespace_uris [] uris in
      record {
        address = (address_iff o.bind_address).0 address;
        port = ground arith;
        path = (
          rest,
          split,
          (subst (λ (p : Bytes). All IsPathByte p) split
              ((has_unsupported_iff o.endpoint_path).0 path)).1,
        );
        application = (is_empty_iff o.application_name).0 application;
        uris = valid;
        unique = distinct;
      },
  λ a. (validate_parts o).1 (
    address_filled o.bind_address a.address,
    ground (arith, a.port),
    (slash-cases o.endpoint_path).1 (a.path.0, a.path.1),
    (has_unsupported_iff o.endpoint_path).1
        (subst (λ (p : Bytes). All IsPathByte p) (sym a.path.1) (slash_IsPathByte, a.path.2)),
    (is_empty_iff o.application_name).1 a.application,
    (address_iff o.bind_address).1 a.address,
    check_uris_complete o.additional_namespace_uris [] a.uris a.unique (λ u h k. k),
  ),
)
