-- ===== src/Storage/KeyStore/Stored/Everywhere.antt =====
-- The stored material of a key version over all methods, those that handle the root key included.
use kmsqr.Base.{
  gets, runtime_error, subst, sym, Bool, Bytes, Exec, Option, String, arith, modify, refl, ℕ, ◌≡◌,
}
use kmsqr.Base.Keeps.{
  Keeps, Keeps-bind, Keeps-gets, Keeps-lift, Keeps-raise_if, Keeps-modify, keeps_rules,
}
use kmsqr.Crypto.Primitives.{Primitives}
use kmsqr.Custody.Envelope.{Custodian, CustodyDraw, CustodyEnvelope}
use kmsqr.Custody.Json.{JsonModule}
use kmsqr.Policy.{NonceBudgetPolicy}
use kmsqr.Storage.Schema.{Db, VersionRow}
use kmsqr.Storage.Repository.Meta.{put_meta, set_meta}
use kmsqr.Storage.KeyStore.Material.{KeyStore, on_db}
use kmsqr.Storage.KeyStore.Bootstrap.{
  is_initialized, assign_root, initialize, open_envelope, resolve_custodian, rewrap_root_kek,
  settle, unlock,
}
use kmsqr.Storage.KeyStore.Keeps.{require_unlocked-Keeps}
use kmsqr.Storage.KeyStore.Reach.{Reach-Within, Step, here, next}
use kmsqr.Storage.KeyStore.Stored.{IsStored, IsStored-kept, IsStored-same, OtherThan}

put_meta-versions :
    (k : String) (x : Bytes) (b : Bool) (db : Db)
    → (put_meta k x b db).1.key_versions ≡ db.key_versions
unfolding put_meta
put_meta-versions k x b db = ground arith

set_meta-versions :
    (k : String) (x : Bytes) (db : Db) → (set_meta k x db).1.key_versions ≡ db.key_versions
unfolding set_meta
set_meta-versions k x db = ground arith

module _ (k : String) (v : ℕ) (orig : VersionRow) where
  abbrev Stays : KeyStore → Type 0
  Stays s = IsStored k v orig s.db

  on_db-Keeps :
      {A : Type 0} (m : Exec Db A)
      → ((db : Db) → (m db).1.key_versions ≡ db.key_versions)
      → Keeps Stays (on_db m)
  on_db-Keeps m same = record { at = λ s h. IsStored-same k v orig s.db (m s.db).1 (same s.db) h }

  put_meta-Keeps : (n : String) (x : Bytes) (b : Bool) → Keeps Stays (on_db (put_meta n x b))
  put_meta-Keeps n x b = on_db-Keeps (put_meta n x b) (put_meta-versions n x b)

  set_meta-Keeps : (n : String) (x : Bytes) → Keeps Stays (on_db (set_meta n x))
  set_meta-Keeps n x = on_db-Keeps (set_meta n x) (set_meta-versions n x)

  assign_root-Keeps : (root : Bytes) → Keeps Stays (assign_root root)
  assign_root-Keeps root = record { at = λ s h. h }

  module _ (p : Primitives) (j : JsonModule) where
    open_envelope-db : (c : Custodian) (s : KeyStore) → (open_envelope p j c s).1.db ≡ s.db
    unfolding open_envelope
    open_envelope-db c s = ground arith

    open_envelope-Keeps : (c : Custodian) → Keeps Stays (open_envelope p j c)
    open_envelope-Keeps c = record {
      at = λ s h. subst (IsStored k v orig) (sym (open_envelope-db c s)) h;
    }

    unlock-Keeps :
        (configured : Option Custodian) (passphrase : Option String)
        → Keeps Stays (unlock p j configured passphrase)
    unfolding unlock
    unlock-Keeps configured passphrase = search (keeps_rules, open_envelope-Keeps)

    settle-Keeps :
        (c : Custodian) (root : Bytes) (e : CustodyEnvelope) → Keeps Stays (settle p j c root e)
    unfolding settle
    settle-Keeps c root e =
        search (keeps_rules, put_meta-Keeps, assign_root-Keeps, open_envelope-Keeps)

    -- what other processes commit keeps the version
    abbrev pub Harmless : (Db → Db) → Type 0
    Harmless others = (db : Db) → IsStored k v orig db → IsStored k v orig (others db)

    others-Keeps :
        (others : Db → Db)
        → Harmless others
        → Keeps Stays (modify (λ s. record s { db = others s.db }))
    others-Keeps others h = Keeps-modify _ (λ s g. h s.db g)

    initialize-Keeps :
        (configured : Option Custodian) (passphrase : Option String) (d : CustodyDraw)
        (root : Bytes) (others : Db → Db)
        → Harmless others
        → Keeps Stays (initialize p j configured passphrase d root others)
    unfolding initialize
    initialize-Keeps configured passphrase d root others h =
        Keeps-bind (gets (λ (s : KeyStore). is_initialized s.db)) _ (Keeps-gets _) λ known.
          Keeps-bind _ _ (Keeps-raise_if known runtime_error) λ _.
            Keeps-bind _ _ (Keeps-lift (resolve_custodian p configured passphrase)) λ c.
              Keeps-bind _ _ (Keeps-lift c.healthcheck) λ _.
                Keeps-bind _ _ (Keeps-lift (c.initialize d root))
                  λ e. Keeps-bind _ _ (others-Keeps others h) λ _. settle-Keeps c root e

    rewrap-Keeps : (c : Custodian) (d : CustodyDraw) → Keeps Stays (rewrap_root_kek p j c d)
    unfolding rewrap_root_kek
    rewrap-Keeps c d = search (keeps_rules, require_unlocked-Keeps, set_meta-Keeps)

    module _ (policy : NonceBudgetPolicy) where
      -- the states after calls of any methods of the key store, each of which may raise; other
      -- processes may commit during initialize what keeps the version
      pub data Everywhere (s : KeyStore) : KeyStore → Type 0 where
        start : Everywhere s s
        on_keys :
            {t u : KeyStore} → Everywhere s t → Step p policy (OtherThan k) t u → Everywhere s u
        initialized :
            {t : KeyStore} (configured : Option Custodian) (passphrase : Option String)
            (d : CustodyDraw) (root : Bytes) (others : Db → Db)
            → Harmless others
            → Everywhere s t
            → Everywhere s (initialize p j configured passphrase d root others t).1
        unlocked :
            {t : KeyStore} (configured : Option Custodian) (passphrase : Option String)
            → Everywhere s t
            → Everywhere s (unlock p j configured passphrase t).1
        rewrapped :
            {t : KeyStore} (c : Custodian) (d : CustodyDraw)
            → Everywhere s t
            → Everywhere s (rewrap_root_kek p j c d t).1

      -- A version that is stored under a key stays stored with the same suite, the same wrapped
      -- secret and the same public half after any calls of any methods of the key store, those that
      -- open, make or seal the root key included, with any arguments and whether they return or
      -- raise, as long as none destroys that key; what other processes commit during initialize
      -- keeps the version too.
      pub Everywhere-IsStored :
          (s t : KeyStore) → Everywhere s t → IsStored k v orig s.db → IsStored k v orig t.db
      Everywhere-IsStored s t start h = h
      Everywhere-IsStored s t (on_keys e st) h =
          (Reach-Within p (IsStored-kept k v orig policy) (next here st)
            (record { holds = Everywhere-IsStored s _ e h; same_root = refl })).holds
      Everywhere-IsStored s t (initialized configured passphrase d root others harmless e) h =
          (initialize-Keeps configured passphrase d root others harmless).at _
            (Everywhere-IsStored s _ e h)
      Everywhere-IsStored s t (unlocked configured passphrase e) h =
          (unlock-Keeps configured passphrase).at _ (Everywhere-IsStored s _ e h)
      Everywhere-IsStored s t (rewrapped c d e) h =
          (rewrap-Keeps c d).at _ (Everywhere-IsStored s _ e h)
