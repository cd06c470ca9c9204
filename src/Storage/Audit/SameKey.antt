-- ===== src/Storage/Audit/SameKey.antt =====
-- The log's key pair over restarts and races.
use kmsqr.Base.{
  Bool, Bytes, Option, Result, ap, arith, bind-Ran, err, false, gets, if◌then◌else◌, length,
  lift-Ran, modify, none, ok, pure, refl, runtime_error, some, subst, sym, true, ◌>>=◌, ◌∙◌, ◌≡◌,
}
use kmsqr.Crypto.Primitives.{AeadLaws, Primitives}
use kmsqr.Crypto.Aead.{aead_decrypt, aead_encrypt, decrypts_again, nonce_len}
use kmsqr.Policy.{NonceBudgetPolicy}
use kmsqr.Storage.Schema.{Db}
use kmsqr.Storage.Repository.Meta.{get_meta, put_meta}
use kmsqr.Storage.Repository.Meta.Rows.{Settled, put_meta-Settled}
use kmsqr.Storage.Repository.Keys.{set_key_state, set_rotation_policy}
use kmsqr.Storage.Repository.Keys.Writes.{
  create-Keeps_if, destroy-Keeps_if, rotate-Keeps_if, use-Keeps_if,
}
use kmsqr.Storage.KeyStore.Material.{KeyStore, on_db, require_unlocked, unwrap, wrap}
use kmsqr.Storage.KeyStore.Keeps.{IsKept, Within}
use kmsqr.Storage.KeyStore.Reach.{Reach, Reach-Within}
use kmsqr.Storage.Audit.{SigningKey}
use kmsqr.Storage.Audit.Append.{drawn_key}
use kmsqr.Storage.Audit.Packing.{pack_keypair, parse_keypair, parse_keypair-pack_keypair}
use kmsqr.Storage.Audit.Keypair.{
  audit_meta_key, audit_signing_aad, create_keypair, from_row, load_keypair,
  load_or_create_audit_signing_key, store_keypair,
}

-- the row of the key pair
abbrev IsRow : Bytes → Db → Type 0
IsRow row db = get_meta audit_meta_key db ≡ some row

module _ (p : Primitives) where
  -- what load_keypair makes of a row and the root key
  abbrev opened : Bytes → Option Bytes → Result SigningKey
  opened row none = err runtime_error
  opened row (some root) = elim (aead_decrypt p root row audit_signing_aad) [
    | err e ↦ err e
    | ok packed ↦ parse_keypair packed
  ]

  load_keypair_lem :
      (row : Bytes) (s : KeyStore) → load_keypair p (some row) s ≡ (opened row s.root_kek, s)
  unfolding load_keypair unwrap require_unlocked
  load_keypair_lem row s = ground arith

  -- the key pair is stored, and the root key opens it
  record IsStoredPair (key : SigningKey) (s : KeyStore) : Type 0 where
    row : Bytes
    found : IsRow row s.db
    opens : opened row s.root_kek ≡ ok key

  load_again :
      (seed pq_seed nonce : Bytes) (others : Db → Db) (key : SigningKey) (s : KeyStore)
      → IsStoredPair key s
      → load_or_create_audit_signing_key p seed pq_seed nonce others s ≡ (ok key, s)
  unfolding load_or_create_audit_signing_key from_row
  load_again seed pq_seed nonce others key s h =
      ap (λ o. from_row p (drawn_key p seed pq_seed) nonce others o s) h.found
      ∙ load_keypair_lem h.row s
      ∙ rw h.opens refl

  loaded :
      (o : Option Bytes) (key : SigningKey) (s t : KeyStore)
      → get_meta audit_meta_key s.db ≡ o
      → load_keypair p o s ≡ (ok key, t)
      → IsStoredPair key t
  loaded none key s t e h = absurd (missing h)
    where
      missing : load_keypair p none s ≡ (ok key, t) → ⊥
      missing q = unfold load_keypair in ground arith
  loaded (some row) key s t e h =
      let both : ◌≡◌ {A = Result SigningKey × KeyStore} (opened row s.root_kek, s) (ok key, t) =
        sym (load_keypair_lem row s) ∙ h in
      let same : s ≡ t = ap (λ q. q.1) both in
      subst (IsStoredPair key) same (record { row = row; found = e; opens = ap (λ q. q.0) both })

  stored_pair :
      (laws : AeadLaws p) (key : SigningKey) (nonce packed row root : Bytes) (s t : KeyStore)
      (result : SigningKey)
      → length nonce ≡ nonce_len
      → pack_keypair key ≡ ok packed
      → s.root_kek ≡ some root
      → aead_encrypt p nonce root packed audit_signing_aad ≡ ok row
      → store_keypair p key row s ≡ (ok result, t)
      → IsStoredPair result t
  unfolding store_keypair
  stored_pair laws key nonce packed row root s t result n packs own seals h =
      let run =
        bind-Ran (on_db (put_meta audit_meta_key row true))
          (λ (first : Bool). gets (λ (s : KeyStore). get_meta audit_meta_key s.db) >>= λ stored.
            if first then pure key else load_keypair p stored)
          s t result h in
      let put : put_meta audit_meta_key row true s.db ≡ (ok run.value, run.between.db) =
        ap (λ (q : Result Bool × KeyStore). (q.0, q.1.db)) run.first in
      by_first run.value run.between
        (ap (λ (q : Result Bool × KeyStore). q.1.root_kek) (sym run.first))
        (put_meta-Settled audit_meta_key row s.db run.between.db run.value put) run.rest
    where
      inner : {x y : SigningKey} → ok x ≡ ok y → x ≡ y
      inner e = cc

      by_first :
          (b : Bool) (u : KeyStore)
          → u.root_kek ≡ s.root_kek
          → Settled audit_meta_key row s.db b u.db
          → (if b then pure key else load_keypair p (get_meta audit_meta_key u.db)) u
            ≡ (ok result, t)
          → IsStoredPair result t
      by_first true u root_same w q =
          let mine : IsStoredPair key u = record {
            row = row;
            found = w.stored refl;
            opens =
                rw
                  (
                    root_same,
                    own,
                    opened,
                    decrypts_again p laws nonce root packed audit_signing_aad row n seals,
                  )
                  (parse_keypair-pack_keypair key packed packs);
          } in
          subst (λ k. IsStoredPair k t) (inner (ap (λ (z : Result SigningKey × KeyStore). z.0) q))
            (subst (IsStoredPair key) (ap (λ (z : Result SigningKey × KeyStore). z.1) q) mine)
      by_first false u root_same w q = loaded (get_meta audit_meta_key u.db) result u t refl q

  created :
      (laws : AeadLaws p) (key : SigningKey) (nonce : Bytes) (others : Db → Db) (s t : KeyStore)
      (result : SigningKey)
      → length nonce ≡ nonce_len
      → create_keypair p key nonce others s ≡ (ok result, t)
      → IsStoredPair result t
  unfolding create_keypair wrap require_unlocked
  created laws key nonce others s t result n h =
      let (packed, packs, h₁) =
        lift-Ran (pack_keypair key)
          (λ packed. wrap p nonce packed audit_signing_aad >>= λ row.
            modify (λ (s : KeyStore). record s { db = others s.db }) >>= λ _.
            store_keypair p key row)
          s t result h in
      let run =
        bind-Ran (wrap p nonce packed audit_signing_aad)
          (λ row. modify (λ (s : KeyStore). record s { db = others s.db }) >>= λ _.
            store_keypair p key row)
          s t result h₁ in
      let (root, own, seals, same) =
        sealed packed run.value s run.between s.root_kek refl run.first in
      stored_pair laws key nonce packed run.value root _ t result n packs (rw same own) seals
        run.rest
    where
      sealed :
          (packed row : Bytes) (s u : KeyStore) (o : Option Bytes)
          → s.root_kek ≡ o
          → wrap p nonce packed audit_signing_aad s ≡ (ok row, u)
          → (root : Bytes) × (s.root_kek ≡ some root)
            × (aead_encrypt p nonce root packed audit_signing_aad ≡ ok row)
            × (u ≡ s)
      sealed packed row s u none e q = absurd (ground arith)
      sealed packed row s u (some root) e q = (root, e, ground arith, ground arith)

  IsRow-kept :
      (policy : NonceBudgetPolicy) (row : Bytes) → IsKept policy (λ k. Unit {0}) (IsRow row)
  unfolding get_meta
  IsRow-kept policy row = record {
    create_keeps = λ mk kv _ _ _. create-Keeps_if mk kv (λ db h. h) (λ db h _. h);
    state_keeps = λ k st at. unfold set_key_state in record { at = λ db h. h };
    policy_keeps = λ k n. unfold set_rotation_policy in record { at = λ db h. h };
    rotate_keeps =
        λ k old new kv _ _ _. rotate-Keeps_if k old new kv (λ db h. h) (λ db h _. h) (λ db h. h);
    use_keeps = λ k v. use-Keeps_if k v policy.hard_limit (λ db h. h);
    destroy_keeps = λ k _. destroy-Keeps_if k (λ db h. h);
  }

  -- The key pair that the log is signed with is one for ever: whatever key pair a first call
  -- returned (it stored its own, found one, or lost the race against another process), a later call
  -- with other draws, after any sequence of methods on keys, returns the same and changes nothing.
  -- The first call's nonce is 12 bytes.
  pub load_or_create_audit_signing_key-same :
      (policy : NonceBudgetPolicy) (seed pq_seed nonce seed' pq_seed' nonce' : Bytes)
      (others others' : Db → Db) (key : SigningKey) (s t u : KeyStore)
      → AeadLaws p
      → length nonce ≡ nonce_len
      → load_or_create_audit_signing_key p seed pq_seed nonce others s ≡ (ok key, t)
      → Reach p policy (λ k. Unit {0}) t u
      → load_or_create_audit_signing_key p seed' pq_seed' nonce' others' u ≡ (ok key, u)
  unfolding load_or_create_audit_signing_key
  load_or_create_audit_signing_key-same policy seed pq_seed nonce seed' pq_seed' nonce' others
        others' key s t u laws n h reach =
      let z = by_row (get_meta audit_meta_key s.db) refl h in
      let later : Within (IsRow z.row) t.root_kek u =
        Reach-Within p (IsRow-kept policy z.row) reach
          (record { holds = z.found; same_root = refl }) in
      load_again seed' pq_seed' nonce' others' key u
        (record { row = z.row; found = later.holds; opens = rw later.same_root z.opens })
    where
      by_row :
          (o : Option Bytes)
          → get_meta audit_meta_key s.db ≡ o
          → from_row p (drawn_key p seed pq_seed) nonce others o s ≡ (ok key, t)
          → IsStoredPair key t
      by_row (some row) e q = loaded (some row) key s t e (unfold from_row in q)
      by_row none e q =
          created laws (drawn_key p seed pq_seed) nonce others s t key n (unfold from_row in q)
