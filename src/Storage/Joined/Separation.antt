-- ===== src/Storage/Joined/Separation.antt =====
-- When the joined keys of AsyncInMemoryStorage keep namespaces apart, and when they do not:
-- crates/runtime/icn-storage/src/lib.rs.
use Prim.Native.Char.{Char, code}
use Prim.Native.String.{[] as []ˢ, ◌∷◌ as ◌∷ˢ◌, ◌++◌ as str_append}
use text.Mathlib.TextLemmas.{
  cons-append, nil-append, append_assoc, append_cancel_left, head-eq_of_cons-eq, tail-eq_of_cons-eq,
}
use icn.Prelude.{
  ◌≡◌, ◌≢◌, ◌⊎◌, inl, inr, refl, sym, ap, ◌∙◌, Bool, true, false, ◌||◌, some, String, ok, err,
  Result-cases, arith, nat_beq, string_eq,
}
use icn.Prelude.Map.{insert, get-insert_self, get-insert_ne}
use icn.Identity.{Bytes}
use icn.Storage.Types.{DagNode, Builder, Codec, LawfulCodec}
use icn.Storage.Joined.{
  AsyncInMemoryStorage, full_key, store_in_namespace, get_from_namespace, dag_namespace, store_node,
  get_node, get_node_bytes,
}

-- The text has a "/".
unfoldable pub has_slash : String → Bool
has_slash []ˢ = false
has_slash (c ∷ˢ s) = nat_beq (code c) 47 || has_slash s

full_key-nil : (c : String) → full_key []ˢ c ≡ ("/" ∷ˢ c)
unfolding full_key
full_key-nil c =
    nil-append (str_append "/" c) ∙ cons-append "/" []ˢ c ∙ ap (λ s. "/" ∷ˢ s) (nil-append c)

full_key-cons : (x : Char) (n c : String) → full_key (x ∷ˢ n) c ≡ (x ∷ˢ full_key n c)
unfolding full_key
full_key-cons x n c = cons-append x n (str_append "/" c)

joined_has_slash : (n c : String) → has_slash (full_key n c) ≡ true
unfolding has_slash
joined_has_slash []ˢ c = ap has_slash (full_key-nil c)
joined_has_slash (x ∷ˢ n) c =
    ap has_slash (full_key-cons x n c) ∙ ground (arith, joined_has_slash n c)

-- The last part of a key tells it from the namespace, if it has no "/".
full_key_inj :
    (n m c d : String)
    → has_slash c ≡ false
    → has_slash d ≡ false
    → full_key n c ≡ full_key m d
    → (n ≡ m) × (c ≡ d)
full_key_inj []ˢ []ˢ c d hc hd same =
    (refl, tail-eq_of_cons-eq (sym (full_key-nil c) ∙ same ∙ full_key-nil d))
full_key_inj []ˢ (y ∷ˢ m) c d hc hd same =
    let tail = tail-eq_of_cons-eq (sym (full_key-nil c) ∙ same ∙ full_key-cons y m d) in
    ground (arith, hc, tail, joined_has_slash m d)
full_key_inj (x ∷ˢ n) []ˢ c d hc hd same =
    let tail = tail-eq_of_cons-eq (sym (full_key-nil d) ∙ sym same ∙ full_key-cons x n c) in
    ground (arith, hd, tail, joined_has_slash n c)
full_key_inj (x ∷ˢ n) (y ∷ˢ m) c d hc hd same =
    let both = sym (full_key-cons x n c) ∙ same ∙ full_key-cons y m d in
    let (n_m, c_d) = full_key_inj n m c d hc hd (tail-eq_of_cons-eq both) in
    (ap (λ h. h ∷ˢ n) (head-eq_of_cons-eq both) ∙ ap (λ t. y ∷ˢ t) n_m, c_d)

dag_namespace_inj : (n m : String) → dag_namespace n ≡ dag_namespace m → n ≡ m
unfolding dag_namespace
dag_namespace_inj n m same = append_cancel_left "dag/" n m same

full_key-full_key : (a b c : String) → full_key a (full_key b c) ≡ full_key (full_key a b) c
unfolding full_key
full_key-full_key a b c =
    let rest = str_append "/" c in
    sym (append_assoc a (str_append "/" b) rest ∙ ap (str_append a) (append_assoc "/" b rest))

-- Two namespaces share an entry: what is stored in `a/b` under `c` is in `a` under `b/c`.
pub get_from_namespace_crosses :
    (a b c : String) (bytes : Bytes) (s : AsyncInMemoryStorage)
    → let s' = (store_in_namespace (full_key a b) c bytes s).1 in
      (get_from_namespace (full_key a b) c s' ≡ (ok (some bytes), s'))
      × (get_from_namespace a (full_key b c) s' ≡ (ok (some bytes), s'))
unfolding store_in_namespace get_from_namespace
get_from_namespace_crosses a b c bytes s =
    let same = full_key-full_key a b c in
    let found = get-insert_self (full_key (full_key a b) c) bytes s.kv_store in
    (ground (arith, found), ground (arith, same, found))

module _ {Cid Payload : Type 0} (codec : Codec Cid Payload) (lawful : LawfulCodec codec)
    (plain : (c : Cid) → has_slash (codec.to_string c) ≡ false) where
  -- What is stored is found under its entity and its CID, and every other node of every entity is
  -- what it was, if the text of a CID has no "/".
  pub get_joined-store_joined :
      (entity : String) (builder : Builder Cid Payload) (cid : Cid) (node : DagNode Cid Payload)
      (s s' : AsyncInMemoryStorage)
      → store_node codec entity builder s ≡ (ok (cid, node), s')
      → (get_node codec entity cid s' ≡ (ok (some node), s'))
        × ((other : String) (c : Cid)
            → (other ≢ entity) ⊎ (c ≢ cid)
            → (get_node codec other c s').0 ≡ (get_node codec other c s).0)
  unfolding store_node get_node get_node_bytes store_in_namespace get_from_namespace
  get_joined-store_joined entity (err m) cid node s s' stored = ground (arith, stored)
  get_joined-store_joined entity (ok n) cid node s s' stored =
      elim (Result-cases (codec.encode n)) [
        | inr (m, failed) ↦ ground (arith, failed, stored)
        | inl (bytes, encoded) ↦
            let key = full_key (dag_namespace entity) (codec.to_string n.cid) in
            let id : n.cid ≡ cid = ground (arith, encoded, stored) in
            let whole : n ≡ node = ground (arith, encoded, stored) in
            let kept : insert key bytes s.kv_store ≡ s'.kv_store =
              ground (arith, encoded, stored) in
            (
              ground (
                arith,
                sym id,
                sym kept,
                get-insert_self key bytes s.kv_store,
                lawful.decode-encode n bytes encoded,
                whole,
              ),
              λ other c apart.
                  let differ : key ≢ full_key (dag_namespace other) (codec.to_string c) = λ same.
                    let (spaces, texts) =
                      full_key_inj (dag_namespace entity) (dag_namespace other)
                        (codec.to_string n.cid) (codec.to_string c) (plain n.cid) (plain c) same in
                    elim apart [
                      | inl entities ↦ entities (sym (dag_namespace_inj entity other spaces))
                      | inr cids ↦ cids (sym (lawful.to_string_inj n.cid c texts) ∙ id)
                    ] in
                  ground (
                    arith,
                    sym kept,
                    get-insert_ne (full_key (dag_namespace other) (codec.to_string c)) key bytes
                        s.kv_store differ,
                  ),
            )
      ]
