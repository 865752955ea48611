-- ===== src/Storage/Memory/Laws.antt =====
-- What MemoryStorageManager of crates/runtime/icn-storage/src/lib.rs keeps.
use icn.Prelude.{
  ◌≡◌, inl, inr, true, ◌&&◌, some, String, [], Option-cases, arith, if◌then◌else◌, ◌==◌, ==_iff,
  string_eq,
}
use icn.Prelude.Map.{Map, get, insert, contains_key, get-insert}
use icn.Identity.{Bytes}
use icn.Storage.Memory.{insert_in, get_in, with_namespace}

abbrev pub Nodes : Type 0
Nodes = Map String (Map String Bytes)

-- A write into a namespace changes one entry of one namespace.
pub get_in-insert_in :
    (namespace key n k : String) (bytes : Bytes) (nodes nodes' : Nodes)
    → insert_in namespace key bytes nodes ≡ some nodes'
    → get_in n k nodes' ≡ (if (namespace == n) && (key == k) then some bytes else get_in n k nodes)
unfolding insert_in get_in
get_in-insert_in namespace key n k bytes nodes nodes' written =
    elim (Option-cases (get namespace nodes)) [
      | inl missing ↦ ground (arith, missing, written)
      | inr (ns, held) ↦
          let outer = get-insert n namespace (insert key bytes ns) nodes in
          let inner = get-insert k key bytes ns in
          let same : some (insert namespace (insert key bytes ns) nodes) ≡ some nodes' =
            ground (arith, held, written) in
          ground (arith, held, same, outer, inner, ==_iff namespace n)
    ]

-- A new namespace is empty, and no entry changes.
pub get_in-with_namespace :
    (namespace n k : String) (nodes : Nodes)
    → get_in n k (with_namespace namespace nodes) ≡ get_in n k nodes
unfolding get_in with_namespace get
get_in-with_namespace namespace n k nodes =
    ground (arith, get-insert n namespace [] nodes, ==_iff namespace n)

pub with_namespace-exists :
    (namespace : String) (nodes : Nodes)
    → contains_key namespace (with_namespace namespace nodes) ≡ true
unfolding with_namespace
with_namespace-exists namespace nodes =
    ground (arith, get-insert namespace namespace [] nodes, ==_iff namespace namespace)

pub insert_in-succeeds :
    (namespace key : String) (bytes : Bytes) (nodes : Nodes)
    → contains_key namespace nodes ≡ true
    → (nodes' : Nodes) × (insert_in namespace key bytes nodes ≡ some nodes')
unfolding insert_in
insert_in-succeeds namespace key bytes nodes exists = elim (Option-cases (get namespace nodes)) [
  | inl missing ↦ ground (arith, missing, exists)
  | inr (ns, held) ↦ (insert namespace (insert key bytes ns) nodes, ground (arith, held))
]

pub insert_in-exists :
    (namespace key : String) (bytes : Bytes) (nodes nodes' : Nodes)
    → insert_in namespace key bytes nodes ≡ some nodes'
    → contains_key namespace nodes' ≡ true
unfolding insert_in
insert_in-exists namespace key bytes nodes nodes' written =
    elim (Option-cases (get namespace nodes)) [
      | inl missing ↦ ground (arith, missing, written)
      | inr (ns, held) ↦
          let same : some (insert namespace (insert key bytes ns) nodes) ≡ some nodes' =
            ground (arith, held, written) in
          ground (
            arith,
            same,
            get-insert namespace namespace (insert key bytes ns) nodes,
            ==_iff namespace namespace,
          )
    ]
