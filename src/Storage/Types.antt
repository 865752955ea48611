-- ===== src/Storage/Types.antt =====
-- DagNode and DagNodeMetadata of crates/runtime/icn-models/src/dag.rs. A node's payload is an Ipld
-- value, a parameter. A builder is used for its `build` only: it is the node or the error that this
-- gives.
use icn.Prelude.{ℕ, ◌≡◌, Option, String, List, Result, ok}
use icn.Identity.{Bytes}

pub record DagNodeMetadata : Type 0 where
  pub timestamp : ℕ
  pub sequence : ℕ
  pub content_type : Option String
  pub tags : List String

pub record DagNode (Cid Payload : Type 0) : Type 0 where
  pub cid : Cid
  pub parents : List Cid
  pub issuer : String
  pub signature : Bytes
  pub payload : Payload
  pub metadata : DagNodeMetadata

-- What an operation of a storage fails with.
pub data StorageFault : Type 0 where
  build_failed : String → StorageFault
  serialization_error deserialization_error : String → StorageFault
  no_namespace no_entity_namespace : String → StorageFault

abbrev pub Builder : Type 0 → Type 0 → Type 0
Builder Cid Payload = Result String (DagNode Cid Payload)

-- CBOR for nodes and for bytes, the CID of bytes by their SHA-256 hash, and a CID as text.
pub record Codec (Cid Payload : Type 0) : Type 0 where
  pub encode : DagNode Cid Payload → Result String Bytes
  pub decode : Bytes → Result String (DagNode Cid Payload)
  pub encode_bytes : Bytes → Result String Bytes
  pub raw_cid : Bytes → Cid
  pub to_string : Cid → String

-- What is encoded is decoded, and CIDs that differ have different texts.
pub record LawfulCodec {Cid Payload : Type 0} (codec : Codec Cid Payload) : Type 0 where
  pub decode-encode :
      (n : DagNode Cid Payload) (d : Bytes) → codec.encode n ≡ ok d → codec.decode d ≡ ok n
  pub to_string_inj : (c j : Cid) → codec.to_string c ≡ codec.to_string j → c ≡ j
