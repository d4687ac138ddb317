-- ===== src/ProviderOrder/Edges.antt =====
-- Dependencies and dependents of the providers, counted.
use rtt_opcua.Base.{
  ◌+◌, ◌≡◌, refl, ap, ◌∙◌, ◌⊎◌, inl, inr, List, [], ◌∷◌, ◌++◌, map, arith, if◌then◌else◌,
  Bool-cases, In, Bytes, text_eq, text_eq_iff, Distinct, listed, listed_iff, not_listed,
}
use rtt_opcua.Base.Order.{text_ord, insert_sorted, sort}
use rtt_opcua.ProviderOrder.{Graph, listed_by, dependents}
use rtt_opcua.ProviderOrder.Relax.{occurrences}

occurrences-append :
    (x : Bytes) (ds es : List Bytes)
    → occurrences x (ds ++ es) ≡ occurrences x ds + occurrences x es
unfolding occurrences
occurrences-append x [] es = omega arith
occurrences-append x (d ∷ ds) es = omega (arith, occurrences-append x ds es)

occurrences-insert :
    (x a : Bytes) (ds : List Bytes) → occurrences x (insert_sorted a ds) ≡ occurrences x (a ∷ ds)
unfolding occurrences insert_sorted
occurrences-insert x a [] = refl
occurrences-insert x a (d ∷ ds) = ground (arith, occurrences-insert x a ds)

pub occurrences-sort : (x : Bytes) (ds : List Bytes) → occurrences x (sort ds) ≡ occurrences x ds
unfolding sort occurrences
occurrences-sort x [] = refl
occurrences-sort x (d ∷ ds) =
    occurrences-insert x d (sort ds) ∙ omega (arith, occurrences-sort x ds)

occurrences-listed_by :
    (y name n : Bytes) (ds : List Bytes)
    → occurrences y (listed_by name n ds) ≡ (if text_eq n y then occurrences name ds else 0)
unfolding occurrences listed_by
occurrences-listed_by y name n [] = ground arith
occurrences-listed_by y name n (d ∷ ds) =
    ground (arith, occurrences-listed_by y name n ds, text_eq_iff n y)

abbrev pub names : Graph → List Bytes
names g = map (λ e. e.0) g

pub In-names : (g : Graph) (x : Bytes) (ds : List Bytes) → In (x, ds) g → In x (names g)
In-names [] x ds h = elim h [ ]
In-names (e ∷ g) x ds (inl p) = inl (ap (λ (t : Bytes × List Bytes). t.0) p)
In-names (e ∷ g) x ds (inr h) = inr (In-names g x ds h)

pub names-In : (g : Graph) (x : Bytes) → In x (names g) → (ds : List Bytes) × In (x, ds) g
names-In [] x h = elim h [ ]
names-In ((n, ds) ∷ g) x (inl e) = (ds, inl (ground arith))
names-In (e ∷ g) x (inr h) = let (ds, k) = names-In g x h in (ds, inr k)

pub dependents_absent :
    (g : Graph) (name y : Bytes) → (¬ In y (names g)) → occurrences y (dependents g name) ≡ 0
unfolding dependents
dependents_absent [] name y h = unfold occurrences in refl
dependents_absent ((n, ds) ∷ g) name y h = ground (
  arith,
  occurrences-append y (listed_by name n ds) (dependents g name),
  occurrences-listed_by y name n ds,
  text_eq_iff n y,
  h,
  dependents_absent g name y (λ k. h (inr k)),
)

-- A provider is listed as a dependent once for each time that it lists the dependency.
pub dependents_present :
    (g : Graph) (name y : Bytes) (ds : List Bytes)
    → Distinct (names g)
    → In (y, ds) g
    → occurrences y (dependents g name) ≡ occurrences name ds
unfolding dependents
dependents_present [] name y ds d h = elim h [ ]
dependents_present ((n, es) ∷ g) name y ds d (inl e) = ground (
  arith,
  e,
  occurrences-append y (listed_by name n es) (dependents g name),
  occurrences-listed_by y name n es,
  text_eq_iff n y,
  dependents_absent g name y,
)
dependents_present ((n, es) ∷ g) name y ds d (inr h) = ground (
  arith,
  occurrences-append y (listed_by name n es) (dependents g name),
  occurrences-listed_by y name n es,
  text_eq_iff n y,
  In-names g y ds h,
  dependents_present g name y ds d.1 h,
)

pub provider_cases :
    (g : Graph) (y : Bytes) → ((ds : List Bytes) × In (y, ds) g) ⊎ (¬ In y (names g))
provider_cases g y = elim (Bool-cases (listed y (names g))) [
  | inl e ↦ inl (names-In g y ((listed_iff y (names g)).0 e))
  | inr e ↦ inr (not_listed y (names g) e)
]

-- The names of the providers differ, so a provider has one list of dependencies.
pub same_dependencies :
    (g : Graph) (x : Bytes) (ds es : List Bytes)
    → Distinct (names g)
    → In (x, ds) g
    → In (x, es) g
    → ds ≡ es
same_dependencies [] x ds es d h k = elim h [ ]
same_dependencies (e ∷ g) x ds es d (inl p) (inl q) = cc
same_dependencies (e ∷ g) x ds es d (inl p) (inr k) = ground (arith, d.0, In-names g x es k)
same_dependencies (e ∷ g) x ds es d (inr h) (inl q) = ground (arith, d.0, In-names g x ds h)
same_dependencies (e ∷ g) x ds es d (inr h) (inr k) = same_dependencies g x ds es d.1 h k
