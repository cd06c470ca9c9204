-- ===== src/Storage/KeyStore/Sealed.antt =====
-- A stored envelope from which a custodian recovers the root key.
use kmsqr.Base.{
  Bytes, Option, Result, String, [], ap, arith, err, none, ok, refl, some, sym, ◌∷◌, ◌≡◌,
}
use kmsqr.Custody.Json.{JsonModule}
use kmsqr.Custody.Envelope.{Custodian, CustodyEnvelope, from_bytes}
use kmsqr.Crypto.Primitives.{Primitives}
use kmsqr.Policy.{NonceBudgetPolicy}
use kmsqr.Storage.Schema.{Db}
use kmsqr.Storage.Repository.Meta.{get_meta}
use kmsqr.Storage.Repository.Meta.Rows.{is_stored}
use kmsqr.Storage.Repository.Keys.{set_key_state, set_rotation_policy}
use kmsqr.Storage.Repository.Keys.Writes.{
  create-Keeps_if, destroy-Keeps_if, rotate-Keeps_if, use-Keeps_if,
}
use kmsqr.Storage.KeyStore.Material.{KeyStore}
use kmsqr.Storage.KeyStore.Bootstrap.{
  assign_root, is_initialized, load_envelope, meta_custody, meta_wrapped_root, open_envelope,
  resolve_custodian, unlock,
}
use kmsqr.Storage.KeyStore.Keeps.{IsKept}

-- a custodian recovers the root key from the envelope that is stored
pub record IsSealed (j : JsonModule) (c : Custodian) (root : Bytes) (db : Db) : Type 0 where
  pub raw : Bytes
  pub envelope : CustodyEnvelope
  pub found : get_meta meta_custody db ≡ some raw
  pub parses : from_bytes j raw ≡ ok envelope
  pub opens : c.unwrap envelope ≡ ok root

-- the store without its root key, as a process that starts has it
abbrev pub locked : KeyStore → KeyStore
locked s = record s { root_kek = none }

module _ (p : Primitives) (j : JsonModule) where
  pub open_envelope-IsSealed :
      (c : Custodian) (root : Bytes) (s : KeyStore)
      → IsSealed j c root s.db
      → open_envelope p j c s ≡ (ok tt, record s { root_kek = some root })
  unfolding open_envelope load_envelope
  open_envelope-IsSealed c root s h =
      rw (open_envelope, load_envelope, h.found, h.parses, h.opens) refl

  pub unlock-IsSealed :
      (configured : Option Custodian) (passphrase : Option String) (c : Custodian) (root : Bytes)
      (s : KeyStore)
      → resolve_custodian p configured passphrase ≡ ok c
      → IsSealed j c root s.db
      → unlock p j configured passphrase s ≡ (ok tt, record s { root_kek = some root })
  unfolding unlock is_initialized
  unlock-IsSealed configured passphrase c root s r h =
      rw (is_stored (meta_wrapped_root ∷ []) meta_custody h.raw s.db h.found, r)
        (open_envelope-IsSealed c root s h)

  -- what open_envelope went through where it finds a custody row
  pub opened :
      (c : Custodian) (raw : Bytes) (s t : KeyStore)
      → get_meta meta_custody s.db ≡ some raw
      → open_envelope p j c s ≡ (ok tt, t)
      → (root : Bytes) × (t ≡ record s { root_kek = some root }) × IsSealed j c root s.db
  unfolding open_envelope load_envelope
  opened c raw s t found h =
      by_envelope (from_bytes j raw) refl (rw (open_envelope, load_envelope, found) at h)
    where
      Opened : Type 0
      Opened = (root : Bytes) × (t ≡ record s { root_kek = some root }) × IsSealed j c root s.db

      by_root :
          (e : CustodyEnvelope) (r : Result Bytes)
          → from_bytes j raw ≡ ok e
          → c.unwrap e ≡ r
          → (let q : Result (Unit {0}) × KeyStore = elim r [
            | err x ↦ (err x, s)
            | ok root ↦ assign_root root s
          ] in
              q)
            ≡ (ok tt, t)
          → Opened
      by_root e (err x) parses opens q = absurd (ground arith)
      by_root e (ok root) parses opens q = (
        root,
        sym (ap (λ (z : Result (Unit {0}) × KeyStore). z.1) q),
        record { raw = raw; envelope = e; found = found; parses = parses; opens = opens },
      )

      by_envelope :
          (r : Result CustodyEnvelope)
          → from_bytes j raw ≡ r
          → (let q : Result (Unit {0}) × KeyStore = elim r [
            | err x ↦ (err x, s)
            | ok e ↦ elim (c.unwrap e) [ err x ↦ (err x, s) | ok root ↦ assign_root root s ]
          ] in
              q)
            ≡ (ok tt, t)
          → Opened
      by_envelope (err x) parses q = absurd (ground arith)
      by_envelope (ok e) parses q = by_root e (c.unwrap e) parses refl q

  IsSealed-same :
      (c : Custodian) (root : Bytes) (db db' : Db)
      → db'.kms_meta ≡ db.kms_meta
      → IsSealed j c root db
      → IsSealed j c root db'
  unfolding get_meta
  IsSealed-same c root db db' e h = record {
    raw = h.raw;
    envelope = h.envelope;
    found = rw (get_meta, e) h.found;
    parses = h.parses;
    opens = h.opens;
  }

  pub IsSealed-kept :
      (policy : NonceBudgetPolicy) (c : Custodian) (root : Bytes)
      → IsKept policy (λ k. Unit {0}) (IsSealed j c root)
  IsSealed-kept policy c root = record {
    create_keeps =
        λ mk kv _ _ _. create-Keeps_if mk kv (λ db. same db _ refl) (λ db h _. same db _ refl h);
    state_keeps = λ k st at. unfold set_key_state in record { at = λ db. same db _ refl };
    policy_keeps = λ k n. unfold set_rotation_policy in record { at = λ db. same db _ refl };
    rotate_keeps = λ k old new kv _ _ _.
        rotate-Keeps_if k old new kv (λ db. same db _ refl) (λ db h _. same db _ refl h)
          (λ db. same db _ refl);
    use_keeps = λ k v. use-Keeps_if k v policy.hard_limit (λ db. same db _ refl);
    destroy_keeps = λ k _. destroy-Keeps_if k (λ db. same db _ refl);
  }
    where
      same :
          (db db' : Db) → db'.kms_meta ≡ db.kms_meta → IsSealed j c root db → IsSealed j c root db'
      same = IsSealed-same c root
