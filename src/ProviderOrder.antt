-- ===== src/ProviderOrder.antt =====
-- src/datatype_registry.cpp, `computeProviderOrder`: the providers in an order in which each
-- stands behind its dependencies. Of the providers only names and dependencies matter here: the
-- argument is a list of these, in the order of the names, as the source's map iterates.
pub mod Relax
pub mod Edges
pub mod Invariant
pub mod Start
pub mod Order
pub mod Complete
use rtt_opcua.Base.{
  ℕ, zero, suc, ◌+◌, ◌-◌, ◌%◌, ◌^◌, Bool, false, ◌||◌, Option, none, some, List, [], ◌∷◌, ◌++◌,
  ◌==◌, if◌then◌else◌, length, Bytes, codes, text_eq,
}
use rtt_opcua.Base.Order.{text_ord, set_insert, sort}

abbrev pub Graph : Type 0
Graph = List (Bytes × List Bytes)

-- `std::map<std::string, std::size_t>` as a function.
abbrev pub Counts : Type 0
Counts = Bytes → ℕ

abbrev pub size_mod : ℕ
size_mod = 2 ^ 64

unfoldable pub contains_name : Bytes → Graph → Bool
contains_name name [] = false
contains_name name ((n, ds) ∷ rest) = text_eq n name || contains_name name rest

-- The first dependency of the list that is no provider.
unfoldable pub missing_in : Graph → List Bytes → Option Bytes
missing_in graph [] = none
missing_in graph (d ∷ ds) = if contains_name d graph then missing_in graph ds else some d

-- The first provider that has such a dependency, and the dependency.
unfoldable pub find_missing : Graph → Graph → Option (Bytes × Bytes)
unfolding missing_in
find_missing graph [] = none
find_missing graph ((n, ds) ∷ rest) = elim (missing_in graph ds) [
  | some d ↦ some (n, d)
  | none ↦ find_missing graph rest
]

-- `indegree.emplace(name, provider.dependencies.size())`
unfoldable pub indegree : Graph → Counts
indegree [] name = 0
indegree ((n, ds) ∷ rest) name = if text_eq n name then length ds else indegree rest name

-- `dependents[name]`: one entry for each time that a provider lists the name.
unfoldable pub listed_by : Bytes → Bytes → List Bytes → List Bytes
listed_by name n [] = []
listed_by name n (d ∷ ds) =
    let rest = listed_by name n ds in if text_eq d name then n ∷ rest else rest

unfoldable pub dependents : Graph → Bytes → List Bytes
unfolding listed_by
dependents [] name = []
dependents ((n, ds) ∷ rest) name = listed_by name n ds ++ dependents rest name

-- The providers whose count is zero.
unfoldable pub initial_ready : Graph → Counts → List Bytes → List Bytes
initial_ready [] counts ready = ready
initial_ready ((n, ds) ∷ rest) counts ready =
    initial_ready rest counts (if counts n == 0 then set_insert n ready else ready)

abbrev pub update : Counts → Bytes → ℕ → Counts
update counts name v other = if text_eq name other then v else counts other

-- `--count`
unfoldable pub decrement : ℕ → ℕ
decrement n = (n + size_mod - 1) % size_mod

-- The loop over the dependents of the provider that was taken.
unfoldable pub relax : List Bytes → List Bytes → Counts → List Bytes × Counts
relax [] ready counts = (ready, counts)
relax (d ∷ ds) ready counts =
    let count = decrement (counts d) in
    relax ds (if count == 0 then set_insert d ready else ready) (update counts d count)

-- The outer loop, with one round of fuel for each provider: the names in the order of their
-- `push_back`, and the counts at the end.
unfoldable pub drain_ready : ℕ → Graph → List Bytes → Counts → List Bytes × Counts
drain_ready zero graph ready counts = ([], counts)
drain_ready (suc fuel) graph [] counts = ([], counts)
drain_ready (suc fuel) graph (name ∷ ready) counts =
    let (ready', counts') = relax (sort (dependents graph name)) ready counts in
    let (order, end) = drain_ready fuel graph ready' counts' in (name ∷ order, end)

unfoldable pub unresolved : Graph → Counts → Bytes
unresolved [] counts = []
unresolved ((n, ds) ∷ rest) counts =
    let more = unresolved rest counts in if counts n == 0 then more else b' ' ∷ (n ++ more)

pub data OrderResult : Type 0 where
  ordered : List Bytes → OrderResult
  order_error : Bytes → OrderResult

unfoldable pub missing_message : Bytes → Bytes → Bytes
missing_message name dependency =
    codes "missing OPC UA datatype provider dependency: provider '"
    ++ (name ++ (codes "' requires '" ++ (dependency ++ codes "'")))

unfoldable pub cyclic_message : Bytes → Bytes
cyclic_message names = codes "cyclic OPC UA datatype provider dependency:" ++ names

-- The part of `computeProviderOrder` behind the search for missing dependencies.
unfoldable pub order_present : Graph → OrderResult
order_present graph =
    let counts = indegree graph in
    let (order, end) = drain_ready (length graph) graph (initial_ready graph counts []) counts in
    if length order == length graph
    then ordered order
    else order_error (cyclic_message (unresolved graph end))

-- `computeProviderOrder`
unfoldable pub compute_provider_order : Graph → OrderResult
unfolding order_present
compute_provider_order graph = elim (find_missing graph graph) [
  | some (name, dependency) ↦ order_error (missing_message name dependency)
  | none ↦ order_present graph
]
