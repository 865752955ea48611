-- ===== src/Governance/Kernel/Laws.antt =====
-- Reading after writing in the storage of crates/runtime/icn-governance-kernel/src/lib.rs.
use icn.Prelude.{◌≡◌, ◌≢◌, ok, some, PartialEq, ==_iff, ==-refl, arith}
use icn.Governance.Kernel.{StorageBackend, LawfulBackend}

module _ {Store Cid Json : Type 0} ⦃e : PartialEq Cid⦄ {st : StorageBackend Store Cid Json}
    (lawful : LawfulBackend st) (c : Cid) (d : Json) (s : Store)
    (stored : (st.put_kv c d s).0 ≡ ok tt) where
  pub get-put_self : st.get_kv c (st.put_kv c d s).1 ≡ ok (some d)
  get-put_self = ground (arith, lawful.get-put c c d s stored, ==-refl c)

  pub get-put_ne : (j : Cid) → c ≢ j → st.get_kv j (st.put_kv c d s).1 ≡ st.get_kv j s
  get-put_ne j differ = ground (arith, lawful.get-put c j d s stored, ==_iff c j)
