-- ===== src/Storage/KeyStore/Unlock.antt =====
-- The root key after initialize.
use kmsqr.Base.{
  Bool, Bytes, Exec, IsBytes, Option, Result, String, ap, bind-Ran, false, if◌then◌else◌, length,
  lift, lift-Ran, modify, ok, raise_if-Ran, refl, runtime_error, some, subst, sym, true, ◌>>=◌, ◌∙◌,
  ◌≡◌,
}
use kmsqr.Custody.Json.{JsonLaws, JsonModule}
use kmsqr.Custody.Envelope.{
  Custodian, CustodianLaws, CustodyDraw, CustodyEnvelope, from_bytes, from_bytes-to_bytes, to_bytes,
}
use kmsqr.Crypto.Primitives.{Primitives}
use kmsqr.Policy.{NonceBudgetPolicy}
use kmsqr.Storage.Schema.{Db}
use kmsqr.Storage.Repository.Meta.{put_meta}
use kmsqr.Storage.Repository.Meta.Rows.{Settled, put_meta-Settled}
use kmsqr.Storage.KeyStore.Material.{KeyStore, on_db}
use kmsqr.Storage.KeyStore.Bootstrap.{
  assign_root, initialize, is_initialized, meta_custody, open_envelope, resolve_custodian, settle,
  unlock,
}
use kmsqr.Storage.KeyStore.Keeps.{Within}
use kmsqr.Storage.KeyStore.Reach.{Reach, Reach-Within}
use kmsqr.Storage.KeyStore.Sealed.{IsSealed, IsSealed-kept, locked, opened, unlock-IsSealed}

module _ (p : Primitives) (j : JsonModule) where
  -- what a successful initialize went through
  record Sealing (c : Custodian) (d : CustodyDraw) (root : Bytes) (others : Db → Db)
      (s t : KeyStore) : Type 0 where
    envelope : CustodyEnvelope
    makes : c.initialize d root ≡ ok envelope
    settles : settle p j c root envelope (record s { db = others s.db }) ≡ (ok tt, t)

  -- initialize behind the resolution of the custodian
  abbrev make : Custodian → CustodyDraw → Bytes → (Db → Db) → Exec KeyStore (Unit {0})
  make c d root others = lift c.healthcheck >>= λ _. lift (c.initialize d root) >>= λ e.
      modify (λ s. record s { db = others s.db }) >>= λ _. settle p j c root e

  initialize-Sealing :
      (configured : Option Custodian) (passphrase : Option String) (c : Custodian) (d : CustodyDraw)
      (root : Bytes) (others : Db → Db) (s t : KeyStore)
      → resolve_custodian p configured passphrase ≡ ok c
      → initialize p j configured passphrase d root others s ≡ (ok tt, t)
      → Sealing c d root others s t
  unfolding initialize
  initialize-Sealing configured passphrase c d root others s t r h =
      let (_, h₁) =
        raise_if-Ran (is_initialized s.db) runtime_error
          (λ _. lift (resolve_custodian p configured passphrase) >>= λ c. make c d root others) s t
          tt h in
      let resolved : make c d root others s ≡ (ok tt, t) = rw r at h₁ in
      let (_, _, h₂) =
        lift-Ran c.healthcheck
          (λ _. lift (c.initialize d root) >>= λ e.
            modify (λ s. record s { db = others s.db }) >>= λ _. settle p j c root e)
          s t tt resolved in
      let (e, makes, h₃) =
        lift-Ran (c.initialize d root)
          (λ e. modify (λ s. record s { db = others s.db }) >>= λ _. settle p j c root e) s t tt
          h₂ in
      record { envelope = e; makes = makes; settles = h₃ }

  -- what settle leaves: the envelope of the winner
  settle-IsSealed :
      (c : Custodian) (root : Bytes) (e : CustodyEnvelope) (s t : KeyStore)
      → from_bytes j (to_bytes j e) ≡ ok e
      → c.unwrap e ≡ ok root
      → settle p j c root e s ≡ (ok tt, t)
      → (r : Bytes) × (t.root_kek ≡ some r) × IsSealed j c r t.db
  unfolding settle
  settle-IsSealed c root e s t parses opens h =
      let run =
        bind-Ran (on_db (put_meta meta_custody (to_bytes j e) true))
          (λ (first : Bool). if first then assign_root root else open_envelope p j c) s t tt h in
      let put : put_meta meta_custody (to_bytes j e) true s.db ≡ (ok run.value, run.between.db) =
        ap (λ (q : Result Bool × KeyStore). (q.0, q.1.db)) run.first in
      by_first run.value run.between
        (put_meta-Settled meta_custody (to_bytes j e) s.db run.between.db run.value put) run.rest
    where
      by_first :
          (b : Bool) (u : KeyStore)
          → Settled meta_custody (to_bytes j e) s.db b u.db
          → (if b then assign_root root else open_envelope p j c) u ≡ (ok tt, t)
          → (r : Bytes) × (t.root_kek ≡ some r) × IsSealed j c r t.db
      by_first true u w q =
          let same : record u { root_kek = some root } ≡ t =
            ap (λ (z : Result (Unit {0}) × KeyStore). z.1) q in
          (
            root,
            ap (λ (z : KeyStore). z.root_kek) (sym same),
            subst (λ (z : KeyStore). IsSealed j c root z.db) same
                (record {
                  raw = to_bytes j e;
                  envelope = e;
                  found = w.stored refl;
                  parses = parses;
                  opens = opens;
                }),
          )
      by_first false u w q =
          let (raw, found) = (w.found refl).1 in
          let (r, same, sealed) = opened p j c raw u t found q in
          (
            r,
            ap (λ (z : KeyStore). z.root_kek) same,
            subst (λ (z : KeyStore). IsSealed j c r z.db) (sym same) sealed,
          )

  -- After initialize returned, whether this process stored its envelope or found the one of another
  -- process there, and after any sequence of methods on keys, a process that starts without the
  -- root key and unlocks gets the store exactly as it is, root key included. The custodian obeys
  -- its laws; the nonce is 12 bytes, and the draws and the root key are bytes.
  pub unlock-initialize :
      (policy : NonceBudgetPolicy) (configured : Option Custodian) (passphrase : Option String)
      (c : Custodian) (d : CustodyDraw) (root : Bytes) (others : Db → Db) (s t u : KeyStore)
      → JsonLaws j
      → CustodianLaws c
      → length d.nonce ≡ 12
      → IsBytes d.salt
      → IsBytes d.nonce
      → IsBytes root
      → resolve_custodian p configured passphrase ≡ ok c
      → initialize p j configured passphrase d root others s ≡ (ok tt, t)
      → Reach p policy (λ k. Unit {0}) t u
      → unlock p j configured passphrase (locked u) ≡ (ok tt, u)
  unlock-initialize policy configured passphrase c d root others s t u jl cl n bs bn br r h reach =
      let z = initialize-Sealing configured passphrase c d root others s t r h in
      let (storable, opens) = cl.unwrap-initialize d root z.envelope n bs bn br z.makes in
      let (k, same, sealed) =
        settle-IsSealed c root z.envelope _ t (from_bytes-to_bytes j jl z.envelope storable) opens
          z.settles in
      let later : Within (IsSealed j c k) t.root_kek u =
        Reach-Within p (IsSealed-kept p j policy c k) reach
          (record { holds = sealed; same_root = refl }) in
      unlock-IsSealed p j configured passphrase c k (locked u) r later.holds
      ∙ rw (sym same, sym later.same_root) refl
