-- ===== src/Storage/Tests.antt =====
-- Runs and witnesses for crates/runtime/icn-storage/src: CIDs are numbers, and the codec knows the
-- nodes `first` and `second`.
use Prim.Native.String.{[] as []ˢ, ◌∷◌ as ◌∷ˢ◌}
use text.Mathlib.TextLemmas.{tail-eq_of_cons-eq, cons-ne-nil}
use icn.Prelude.{
  ℕ, zero, suc, ◌≡◌, ◌≢◌, ◌⊎◌, inl, inr, refl, ◌∙◌, sym, Bool-cases, ap, Bool, true, false, ◌&&◌,
  none, some, String, List, [], ◌∷◌, ok, err, arith, if◌then◌else◌, list_beq, list_beq_iff, ◌==◌,
  ==_iff, string_eq, nat_eq,
}
use icn.Prelude.Map.{get, insert}
use icn.Identity.{Bytes}
use icn.Storage.Types.{
  DagNode, serialization_error, no_entity_namespace, Builder, Codec, LawfulCodec,
}
use icn.Storage.Memory as Memory
use icn.Storage.Memory.{MemoryStorageManager, insert_in, get_in, with_namespace}
use icn.Storage.Memory.Keeping.{get_node-store_node}
use icn.Storage.Cached as Cached
use icn.Storage.Cached.{InMemoryStorageManager}
use icn.Storage.Cached.Coherence.{Call, new_root, new_node, read_node}
use icn.Storage.Cached.Sharing.{get_node_any_entity, refused_node_answered}
use icn.Storage.Joined as Joined
use icn.Storage.Joined.{AsyncInMemoryStorage, full_key, dag_namespace}
use icn.Storage.Joined.Separation.{has_slash, get_from_namespace_crosses, get_joined-store_joined}

unfoldable pub tally : ℕ → String
tally zero = []ˢ
tally (suc n) = "1" ∷ˢ tally n

tally_inj : (a b : ℕ) → tally a ≡ tally b → a ≡ b
unfolding tally
tally_inj zero zero h = refl
tally_inj zero (suc b) h = absurd (cons-ne-nil _ _ (sym h))
tally_inj (suc a) zero h = absurd (cons-ne-nil _ _ h)
tally_inj (suc a) (suc b) h = ap suc (tally_inj a b (tail-eq_of_cons-eq h))

tally_plain : (n : ℕ) → has_slash (tally n) ≡ false
unfolding tally has_slash
tally_plain zero = refl
tally_plain (suc n) = tally_plain n

abbrev pub node : (cid payload : ℕ) → DagNode ℕ ℕ
node cid payload = record {
  cid = cid;
  parents = [];
  issuer = "ada";
  signature = 7 ∷ [];
  payload = payload;
  metadata = record { timestamp = 5; sequence = 1; content_type = none; tags = [] };
}

abbrev pub same : DagNode ℕ ℕ → DagNode ℕ ℕ → Bool
same n m =
    n.cid == m.cid
    && (list_beq n.parents m.parents
        && (n.issuer == m.issuer
            && (list_beq n.signature m.signature
                && (n.payload == m.payload
                    && (n.metadata.timestamp == m.metadata.timestamp
                        && (n.metadata.sequence == m.metadata.sequence
                            && (list_beq n.metadata.tags m.metadata.tags
                                && elim n.metadata.content_type [
                                  | none ↦ elim m.metadata.content_type [
                                    | none ↦ true
                                    | some _ ↦ false
                                  ]
                                  | some _ ↦ false
                                ])))))))

same_eq : (n m : DagNode ℕ ℕ) → same n m ≡ true → n ≡ m
same_eq n m h =
    let e1 = (==_iff n.cid m.cid).0 (ground (arith, h)) in
    let e2 = (list_beq_iff n.parents m.parents).0 (ground (arith, h)) in
    let e3 = (==_iff n.issuer m.issuer).0 (ground (arith, h)) in
    let e4 = (list_beq_iff n.signature m.signature).0 (ground (arith, h)) in
    let e5 = (==_iff n.payload m.payload).0 (ground (arith, h)) in
    let e6 = (==_iff n.metadata.timestamp m.metadata.timestamp).0 (ground (arith, h)) in
    let e7 = (==_iff n.metadata.sequence m.metadata.sequence).0 (ground (arith, h)) in
    let e8 = (list_beq_iff n.metadata.tags m.metadata.tags).0 (ground (arith, h)) in
    let e9 : n.metadata.content_type ≡ m.metadata.content_type = ground (arith, h) in
    λ i. record {
      cid = e1 i;
      parents = e2 i;
      issuer = e3 i;
      signature = e4 i;
      payload = e5 i;
      metadata = record { timestamp = e6 i; sequence = e7 i; tags = e8 i; content_type = e9 i };
    }

abbrev pub codec : Codec ℕ ℕ
codec = record {
  encode = λ n.
      if same n (node 1 10)
      then ok (1 ∷ [])
      else if same n (node 2 20)
      then ok (2 ∷ [])
      else err "unknown";
  decode = λ d.
      if list_beq d (1 ∷ [])
      then ok (node 1 10)
      else if list_beq d (2 ∷ [])
      then ok (node 2 20)
      else err "unknown";
  encode_bytes = λ d. ok d;
  raw_cid = λ d. elim d [ [] ↦ 0 | b ∷ bs ↦ b ];
  to_string = tally;
}

decode-encode : (n : DagNode ℕ ℕ) (d : Bytes) → codec.encode n ≡ ok d → codec.decode d ≡ ok n
unfolding list_beq
decode-encode n d h = elim (Bool-cases (same n (node 1 10))) [
  | inl one ↦
      let e : d ≡ 1 ∷ [] = ground (arith, one, h) in
      ap codec.decode e ∙ ap ok (sym (same_eq n (node 1 10) one))
  | inr not_one ↦ elim (Bool-cases (same n (node 2 20))) [
    | inl two ↦
        let e : d ≡ 2 ∷ [] = ground (arith, not_one, two, h) in
        ap codec.decode e ∙ ap ok (sym (same_eq n (node 2 20) two))
    | inr neither ↦ ground (arith, not_one, neither, h)
  ]
]

codec-LawfulCodec : LawfulCodec codec
codec-LawfulCodec = record { decode-encode = decode-encode; to_string_inj = tally_inj }

-- A root for "ada" and a second node.
abbrev pub rooted : MemoryStorageManager
rooted = (Memory.store_new_dag_root codec "ada" (ok (node 1 10)) Memory.new_storage).1

abbrev stored : MemoryStorageManager
stored = (Memory.store_node codec "ada" (ok (node 2 20)) rooted).1

reads_stored :
    ((Memory.get_node codec "ada" 2 stored).0 ≡ ok (some (node 2 20)))
    × ((Memory.get_node codec "ada" 1 stored).0 ≡ ok (some (node 1 10)))
    × ((Memory.get_node codec "bob" 1 stored).0 ≡ ok none)
    × ((Memory.store_node codec "bob" (ok (node 2 20)) rooted).0 ≡ err (no_entity_namespace "bob"))
unfolding Memory.get_node Memory.get_node_bytes Memory.store_node Memory.store_new_dag_root
    Memory.encoded Memory.store_blob Memory.write_in Memory.new_storage insert_in get_in
    with_namespace get insert list_beq tally
reads_stored = (refl, refl, refl, refl)

get_node-store_node_example :
    (Memory.get_node codec "ada" 2 stored ≡ (ok (some (node 2 20)), stored))
    × ((other : String) (c : ℕ)
        → (other ≢ "ada") ⊎ (c ≢ 2)
        → (Memory.get_node codec other c stored).0 ≡ (Memory.get_node codec other c rooted).0)
unfolding Memory.store_node Memory.store_new_dag_root Memory.encoded Memory.store_blob
    Memory.write_in Memory.new_storage insert_in with_namespace get insert list_beq tally
get_node-store_node_example =
    get_node-store_node codec codec-LawfulCodec "ada" (ok (node 2 20)) 2 (node 2 20) rooted stored
      refl

-- The second of three nodes cannot be encoded.
abbrev batch : List (Builder ℕ ℕ)
batch = ok (node 2 20) ∷ ok (node 3 30) ∷ ok (node 1 10) ∷ []

abbrev half : MemoryStorageManager
half = (Memory.store_nodes_batch codec "ada" batch rooted).1

abbrev calls : List (Call ℕ ℕ)
calls =
    new_root "ada" (ok (node 1 10))
    ∷ new_node "ada" (ok (node 2 20))
    ∷ new_node "bob" (ok (node 2 20))
    ∷ read_node "ada" 1
    ∷ []

abbrev cached : InMemoryStorageManager ℕ ℕ
cached = (Cached.store_new_dag_root codec "ada" (ok (node 1 10)) Cached.new_storage).1

abbrev cached_two : InMemoryStorageManager ℕ ℕ
cached_two = (Cached.store_node codec "ada" (ok (node 2 20)) cached).1

get_node_any_entity_example :
    (Cached.get_node codec "bob" 2 cached_two ≡ (ok (some (node 2 20)), cached_two))
    × (Cached.contains_node codec "bob" 2 cached_two ≡ (ok true, cached_two))
unfolding Cached.new_storage Cached.store_new_dag_root Cached.store_node Cached.cache_and_encode
    Cached.store_blob Cached.namespace_exists Cached.write_in insert_in with_namespace get insert
    list_beq tally
get_node_any_entity_example =
    get_node_any_entity codec "ada" "bob" (ok (node 2 20)) 2 (node 2 20) cached cached_two refl

refused_node_answered_example :
    let (r, s') = Cached.store_node codec "ada" (ok (node 3 30)) cached in
    (r ≡ err (serialization_error "unknown"))
    × (s'.nodes ≡ cached.nodes)
    × (s'.blobs ≡ cached.blobs)
    × (Cached.get_node codec "bob" 3 s' ≡ (ok (some (node 3 30)), s'))
unfolding Cached.new_storage Cached.store_new_dag_root Cached.cache_and_encode Cached.store_blob
    insert_in with_namespace get insert list_beq tally
refused_node_answered_example =
    refused_node_answered codec "ada" "bob" (node 3 30) "unknown" cached refl refl

abbrev empty : AsyncInMemoryStorage
empty = record { kv_store = [] }

get_from_namespace_crosses_example :
    let s' = (Joined.store_in_namespace (full_key "dag/ada" "bob") "key" (1 ∷ []) empty).1 in
    (Joined.get_from_namespace (full_key "dag/ada" "bob") "key" s' ≡ (ok (some (1 ∷ [])), s'))
    × (Joined.get_from_namespace "dag/ada" (full_key "bob" "key") s' ≡ (ok (some (1 ∷ [])), s'))
get_from_namespace_crosses_example = get_from_namespace_crosses "dag/ada" "bob" "key" (1 ∷ []) empty

abbrev joined : AsyncInMemoryStorage
joined = (Joined.store_node codec "ada" (ok (node 2 20)) empty).1

get_joined-store_joined_example :
    (Joined.get_node codec "ada" 2 joined ≡ (ok (some (node 2 20)), joined))
    × ((other : String) (c : ℕ)
        → (other ≢ "ada") ⊎ (c ≢ 2)
        → (Joined.get_node codec other c joined).0 ≡ (Joined.get_node codec other c empty).0)
unfolding Joined.store_node Joined.store_in_namespace full_key dag_namespace insert list_beq tally
get_joined-store_joined_example =
    get_joined-store_joined codec codec-LawfulCodec tally_plain "ada" (ok (node 2 20)) 2 (node 2 20)
      empty joined refl
