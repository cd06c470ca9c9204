-- ===== src/Storage/KeyStore/Rewrap.antt =====
-- The root key under a new custodian.
use kmsqr.Base.{
  Bytes, IsBytes, Option, Result, String, ap, arith, bind-Ran, false, length, lift, lift-Ran, ok,
  refl, some, str_eq, sym, ◌>>=◌, ◌∙◌, ◌≡◌,
}
use kmsqr.Custody.Json.{JsonLaws, JsonModule}
use kmsqr.Custody.Envelope.{
  Custodian, CustodianLaws, CustodyDraw, CustodyEnvelope, from_bytes-to_bytes, to_bytes,
}
use kmsqr.Crypto.Primitives.{Primitives}
use kmsqr.Policy.{NonceBudgetPolicy}
use kmsqr.Storage.Schema.{Db}
use kmsqr.Storage.Repository.Meta.{get_meta, set_meta}
use kmsqr.Storage.Repository.Meta.Rows.{set_meta-Replaced}
use kmsqr.Storage.KeyStore.Material.{KeyStore, on_db, require_unlocked}
use kmsqr.Storage.KeyStore.Bootstrap.{meta_custody, resolve_custodian, rewrap_root_kek, unlock}
use kmsqr.Storage.KeyStore.Keeps.{Within}
use kmsqr.Storage.KeyStore.Reach.{Reach, Reach-Within}
use kmsqr.Storage.KeyStore.Sealed.{IsSealed, IsSealed-kept, locked, unlock-IsSealed}

-- A database whose envelope was replaced: every other table, and kms_meta's row of another key, are
-- as they were.
pub record IsRewrapped (k : String) (db db' : Db) : Type 0 where
  pub tables : db' ≡ record db { kms_meta = db'.kms_meta }
  pub row : get_meta k db' ≡ get_meta k db

module _ (p : Primitives) (j : JsonModule) where
  record Rewrapping (c : Custodian) (d : CustodyDraw) (s t : KeyStore) : Type 0 where
    root : Bytes
    envelope : CustodyEnvelope
    unlocked : s.root_kek ≡ some root
    makes : c.initialize d root ≡ ok envelope
    writes : t ≡ record s { db = (set_meta meta_custody (to_bytes j envelope) s.db).1 }

  rewrap_root_kek-Rewrapping :
      (c : Custodian) (d : CustodyDraw) (s t : KeyStore)
      → rewrap_root_kek p j c d s ≡ (ok tt, t)
      → Rewrapping c d s t
  unfolding rewrap_root_kek require_unlocked
  rewrap_root_kek-Rewrapping c d s t h =
      let run =
        bind-Ran require_unlocked
          (λ root. lift c.healthcheck >>= λ _.
            lift (c.initialize d root) >>= λ e. on_db (set_meta meta_custody (to_bytes j e)))
          s t tt h in
      let (_, _, h₁) =
        lift-Ran c.healthcheck
          (λ _.
            lift (c.initialize d run.value) >>= λ e. on_db (set_meta meta_custody (to_bytes j e)))
          run.between t tt run.rest in
      let (e, makes, h₂) =
        lift-Ran (c.initialize d run.value) (λ e. on_db (set_meta meta_custody (to_bytes j e)))
          run.between t tt h₁ in
      let (key, same) = has_root s run.between run.value run.first in
      record {
        root = run.value;
        envelope = e;
        unlocked = key;
        makes = makes;
        writes = sym (ap (λ (q : Result (Unit {0}) × KeyStore). q.1) (rw same at h₂));
      }
    where
      has_root :
          (s u : KeyStore) (root : Bytes)
          → require_unlocked s ≡ (ok root, u)
          → (s.root_kek ≡ some root) × (u ≡ s)
      has_root s u root q = (ground arith, ground arith)

  -- After rewrap_root_kek returned under a new custodian, and after any sequence of methods on keys,
  -- a process that starts without the root key and unlocks with the new custodian gets the store
  -- exactly as it is: the root key is the one from before. Only the envelope was written: every
  -- other table, and kms_meta's row of any other key k, are as they were. The nonce is 12 bytes, and the draws
  -- and the root key are bytes.
  pub unlock-rewrap_root_kek :
      (policy : NonceBudgetPolicy) (configured : Option Custodian) (passphrase : Option String)
      (c : Custodian) (d : CustodyDraw) (root : Bytes) (k : String) (s t u : KeyStore)
      → JsonLaws j
      → str_eq meta_custody k ≡ false
      → CustodianLaws c
      → length d.nonce ≡ 12
      → IsBytes d.salt
      → IsBytes d.nonce
      → IsBytes root
      → s.root_kek ≡ some root
      → resolve_custodian p configured passphrase ≡ ok c
      → rewrap_root_kek p j c d s ≡ (ok tt, t)
      → Reach p policy (λ k. Unit {0}) t u
      → (unlock p j configured passphrase (locked u) ≡ (ok tt, u))
        × (u.root_kek ≡ some root)
        × IsRewrapped k s.db t.db
  unlock-rewrap_root_kek policy configured passphrase c d root k s t u jl other cl n bs bn br own r
        h reach =
      let z = rewrap_root_kek-Rewrapping c d s t h in
      let same : z.root ≡ root = inner (sym z.unlocked ∙ own) in
      let (storable, opens) =
        cl.unwrap-initialize d root z.envelope n bs bn br (rw same at z.makes) in
      let w = set_meta-Replaced meta_custody (to_bytes j z.envelope) s.db in
      let sealed : IsSealed j c root t.db = rw z.writes (record {
        raw = to_bytes j z.envelope;
        envelope = z.envelope;
        found = w.stored;
        parses = from_bytes-to_bytes j jl z.envelope storable;
        opens = opens;
      }) in
      let later : Within (IsSealed j c root) t.root_kek u =
        Reach-Within p (IsSealed-kept p j policy c root) reach
          (record { holds = sealed; same_root = refl }) in
      let kept : u.root_kek ≡ some root = later.same_root ∙ rw z.writes own in
      (
        unlock-IsSealed p j configured passphrase c root (locked u) r later.holds
            ∙ rw (sym kept) refl,
        kept,
        rw z.writes (record { tables = w.tables; row = w.others k other }),
      )
    where
      inner : {x y : Bytes} → some x ≡ some y → x ≡ y
      inner e = cc
