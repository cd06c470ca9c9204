-- ===== src/Storage/KeyStore/Decrypt.antt =====
-- Ciphertexts over the later states of a key store.
use kmsqr.Base.{
  All-append, Bool, Bytes, Error, Exec, IsBytes, List, Option, Result, String, ap, arith, bind-Ran,
  bind-run, drop, drop-append, err, false, key_error, length, length-append, lift, ltb, ltb_ge,
  none, not, ok, pure, raise_if, refl, runtime_error, some, str_eq, subst, sym, take, take-append,
  value_error, ℕ, ◌++◌, ◌>>=◌, ◌>>◌, ◌∙◌, ◌≡◌,
}
use kmsqr.Encoding.Base64.{b64decode, b64encode}
use kmsqr.Encoding.Base64.RoundTrip.{b64decode-b64encode}
use kmsqr.Encoding.Struct.{pack_bi, pack_bi-IsHeader, unpack_bi}
use kmsqr.Crypto.Primitives.{AeadLaws, Primitives}
use kmsqr.Crypto.Suites.{suite_id, suite_name, suite_of}
use kmsqr.Crypto.Aead.{aead_decrypt, aead_encrypt, blob-IsBytes, decrypts_again, nonce_len}
use kmsqr.Policy.{NonceBudgetPolicy, reserve}
use kmsqr.Storage.Schema.{Db, VersionRow}
use kmsqr.Storage.Repository.Keys.{get_version}
use kmsqr.Storage.KeyStore.Material.{
  Draw, KeyStore, ManagedKey, on_db, require_unlocked, unwrap, version_aad,
}
use kmsqr.Storage.KeyStore.Lifecycle.{require_enabled}
use kmsqr.Storage.KeyStore.Operations.{Ciphertext, Loaded, decrypt, encrypt, load_version}
use kmsqr.Storage.KeyStore.Keeps.{Within, require_enabled-Keeps}
use kmsqr.Storage.KeyStore.Reach.{Reach, Reach-after, Step, encrypted}
use kmsqr.Storage.KeyStore.Stored.{IsStored, OtherThan, Reach-IsStored, SameMaterial}

-- what load_version makes of a row and the root key
abbrev load : Primitives → Bytes → Option VersionRow → Option Bytes → Result Loaded
load p aad none root = err key_error
load p aad (some r) none = err runtime_error
load p aad (some r) (some root) = elim (aead_decrypt p root r.wrapped_secret aad) [
  | err e ↦ err e
  | ok secret ↦ elim (suite_of r.suite) [
    | err e ↦ err e
    | ok suite ↦ ok (record { suite = suite; secret = secret; public = r.public_material })
  ]
]

module _ (p : Primitives) where
  load_version_lem :
      (k : String) (v : ℕ) (s : KeyStore)
      → load_version p k v s ≡ (load p (version_aad k v) (get_version k v s.db) s.root_kek, s)
  unfolding load_version unwrap require_unlocked
  load_version_lem k v s = ground arith

  require_enabled-same :
      (k : String) (s s' : KeyStore) (mk : ManagedKey) → require_enabled k s ≡ (ok mk, s') → s' ≡ s
  require_enabled-same k s s' mk e =
      rw e at ((require_enabled-Keeps p {P = λ x. x ≡ s} k).at s refl)

  -- what a successful encryption went through
  pub record Sealed (policy : NonceBudgetPolicy) (d : Draw) (k : String) (m aad : Bytes)
      (s t : KeyStore) (c : Ciphertext) : Type 0 where
    pub version : ℕ
    pub names : c.version ≡ version
    loaded : Loaded
    blob : Bytes
    header : Bytes
    pub count : ℕ
    pub reserves : reserve policy k version s.db ≡ (ok count, t.db)
    loads : load p (version_aad k version) (get_version k version s.db) s.root_kek ≡ ok loaded
    seals : aead_encrypt p d.nonce loaded.secret m aad ≡ ok blob
    packs : pack_bi (suite_id loaded.suite) version ≡ ok header
    shows : c.ciphertext ≡ b64encode (header ++ blob)

  -- the last steps of encrypt
  abbrev frame : String → ManagedKey → Loaded → Bytes → Exec KeyStore Ciphertext
  frame k mk v blob = lift (pack_bi (suite_id v.suite) mk.current_version) >>= λ header.
      pure (record {
        key_id = k;
        version = mk.current_version;
        suite = suite_name v.suite;
        ciphertext = b64encode (header ++ blob);
      })

  abbrev seal :
      NonceBudgetPolicy
      → Draw
      → String
      → Bytes
      → Bytes
      → ManagedKey
      → Loaded
      → Exec KeyStore Ciphertext
  seal policy d k m aad mk v = on_db (reserve policy k mk.current_version) >>= λ _.
      lift (aead_encrypt p d.nonce v.secret m aad) >>= λ blob. frame k mk v blob

  abbrev load_and_seal :
      NonceBudgetPolicy → Draw → String → Bytes → Bytes → ManagedKey → Exec KeyStore Ciphertext
  load_and_seal policy d k m aad mk =
      raise_if (not (str_eq mk.key_type "aead")) value_error >>= λ _.
      load_version p k mk.current_version >>= λ v. seal policy d k m aad mk v

  raise_if-same :
      (b : Bool) (e : Error) (s s' : KeyStore) (u : Unit {0}) → raise_if b e s ≡ (ok u, s') → s' ≡ s
  raise_if-same b e s s' u h = ground arith

  on_db-run :
      {A : Type 0} (m : Exec Db A) (s t : KeyStore) (a : A)
      → on_db m s ≡ (ok a, t)
      → m s.db ≡ (ok a, t.db)
  on_db-run m s t a h = ap (λ q. (q.0, q.1.db)) h

  pub encrypt-Sealed :
      (policy : NonceBudgetPolicy) (d : Draw) (k : String) (m aad : Bytes) (s t : KeyStore)
      (c : Ciphertext)
      → encrypt p policy d k m aad s ≡ (ok c, t)
      → Sealed policy d k m aad s t c
  unfolding encrypt
  encrypt-Sealed policy d k m aad s t c h =
      let r₁ = bind-Ran (require_enabled k) (load_and_seal policy d k m aad) s t c h in
      let mk = r₁.value in
      let r₂ =
        bind-Ran (raise_if (not (str_eq mk.key_type "aead")) value_error)
          (λ _. load_version p k mk.current_version >>= λ v. seal policy d k m aad mk v) r₁.between
          t c r₁.rest in
      let r₃ =
        bind-Ran (load_version p k mk.current_version) (seal policy d k m aad mk) r₂.between t c
          r₂.rest in
      let v = r₃.value in
      let r₄ =
        bind-Ran (on_db (reserve policy k mk.current_version))
          (λ _. lift (aead_encrypt p d.nonce v.secret m aad) >>= λ blob. frame k mk v blob)
          r₃.between t c r₃.rest in
      let r₅ =
        bind-Ran (lift (aead_encrypt p d.nonce v.secret m aad)) (frame k mk v) r₄.between t c
          r₄.rest in
      let r₆ =
        bind-Ran (lift (pack_bi (suite_id v.suite) mk.current_version))
          (λ header. pure (record {
            key_id = k;
            version = mk.current_version;
            suite = suite_name v.suite;
            ciphertext = b64encode (header ++ r₅.value);
          }))
          r₅.between t c r₅.rest in
      let unmoved : r₂.between ≡ s =
        raise_if-same _ _ _ _ _ r₂.first ∙ require_enabled-same k s r₁.between mk r₁.first in
      let loading : load_version p k mk.current_version s ≡ (ok v, r₃.between) =
        rw unmoved at r₃.first in
      let loaded_same : r₃.between ≡ s =
        sym (ap (λ q. q.1) (sym (load_version_lem k mk.current_version s) ∙ loading)) in
      let kept : t ≡ r₄.between =
        sym (ap (λ q. q.1) r₆.rest)
        ∙ (sym (ap (λ q. q.1) r₆.first) ∙ sym (ap (λ q. q.1) r₅.first)) in
      let reserved : reserve policy k mk.current_version s.db ≡ (ok r₄.value, t.db) =
        on_db-run (reserve policy k mk.current_version) s t r₄.value
          (rw (sym kept) at (rw loaded_same at r₄.first)) in
      record {
        version = mk.current_version;
        names = sym (numbered (ap (λ q. q.0) r₆.rest));
        loaded = v;
        blob = r₅.value;
        header = r₆.value;
        count = r₄.value;
        reserves = reserved;
        loads = ap (λ q. q.0) (sym (load_version_lem k mk.current_version s) ∙ loading);
        seals = ap (λ q. q.0) r₅.first;
        packs = ap (λ q. q.0) r₆.first;
        shows = sym (shown (ap (λ q. q.0) r₆.rest));
      }
    where
      shown : {x y : Ciphertext} → ok x ≡ ok y → x.ciphertext ≡ y.ciphertext
      shown e = cc

      numbered : {x y : Ciphertext} → ok x ≡ ok y → x.version ≡ y.version
      numbered e = cc

  -- the row behind a version that loads
  loaded_row :
      (aad : Bytes) (o : Option VersionRow) (root : Option Bytes) (v : Loaded)
      → load p aad o root ≡ ok v
      → (r : VersionRow) × (o ≡ some r)
  loaded_row aad none root v h = ground arith
  loaded_row aad (some r) root v h = (r, refl)

  load-material :
      (aad : Bytes) (r r' : VersionRow) (root : Option Bytes)
      → SameMaterial r r'
      → load p aad (some r') root ≡ load p aad (some r) root
  load-material aad r r' none e = refl
  load-material aad r r' (some root) e = rw (e.same_suite, e.same_secret, e.same_public) refl

  -- a version that loads in `s` loads alike in every later state
  loads_later :
      (policy : NonceBudgetPolicy) (k : String) (n : ℕ) (s t : KeyStore) (v : Loaded)
      → Reach p policy (OtherThan k) s t
      → load p (version_aad k n) (get_version k n s.db) s.root_kek ≡ ok v
      → load_version p k n t ≡ (ok v, t)
  loads_later policy k n s t v reach h =
      let (r, found) = loaded_row _ _ _ v h in
      let there : Within (IsStored k n r) s.root_kek t =
        Reach-IsStored k n r p policy s t reach (record {
          row = r;
          found = found;
          material = record { same_suite = refl; same_secret = refl; same_public = refl };
        }) in
      let again : load p (version_aad k n) (get_version k n t.db) t.root_kek ≡ ok v =
        rw
          (
            there.holds.found,
            there.same_root,
            load-material (version_aad k n) r there.holds.row s.root_kek there.holds.material,
            sym found,
          )
          h in
      load_version_lem k n t ∙ rw again refl

module _ (p : Primitives) (laws : AeadLaws p) where
  -- decrypt after the test of the key's state
  abbrev parse : String → List ℕ → Bytes → Exec KeyStore Bytes
  parse k text aad = do
    raw ← lift (b64decode false text)
    raise_if (ltb (length raw) 5) value_error
    (suite, version) ← lift (unpack_bi (take 5 raw))
    v ← load_version p k version
    lift (aead_decrypt p v.secret (drop 5 raw) aad)

  -- A ciphertext that encrypt returned stays decryptable: in every state that a sequence of
  -- methods reaches afterwards (rotations, lifecycle changes, other calls, some of which fail) and
  -- that does not destroy its key, decrypt with the same associated data returns the plaintext and
  -- changes nothing, as long as the key is enabled then. The nonce is 12 bytes and the plaintext
  -- is made of bytes.
  pub decrypt-encrypt :
      (policy : NonceBudgetPolicy) (d : Draw) (k : String) (m aad : Bytes) (s t u : KeyStore)
      (c : Ciphertext) (mk : ManagedKey)
      → length d.nonce ≡ nonce_len
      → IsBytes d.nonce
      → IsBytes m
      → encrypt p policy d k m aad s ≡ (ok c, t)
      → Reach p policy (OtherThan k) t u
      → require_enabled k u ≡ (ok mk, u)
      → decrypt p k c.ciphertext aad u ≡ (ok m, u)
  unfolding decrypt
  decrypt-encrypt policy d k m aad s t u c mk n nb mb h reach on =
      let z = encrypt-Sealed p policy d k m aad s t c h in
      let step : Step p policy (OtherThan k) s t =
        subst (Step p policy (OtherThan k) s) (ap (λ q. q.1) h) (encrypted d k m aad s) in
      let loads = loads_later p policy k z.version s u z.loaded (Reach-after step reach) z.loads in
      let head = pack_bi-IsHeader (suite_id z.loaded.suite) z.version z.header z.packs in
      let raw = b64decode-b64encode false (z.header ++ z.blob) (
        All-append _ z.header z.blob head.bytes
          (blob-IsBytes p laws d.nonce z.loaded.secret m aad z.blob nb mb z.seals)) in
      let opens = decrypts_again p laws d.nonce z.loaded.secret m aad z.blob n z.seals in
      let long : ltb (length (z.header ++ z.blob)) 5 ≡ false =
        ltb_ge _ 5 (omega (arith, head.size, length-append {0} z.header z.blob)) in
      let finished : (load_version p k z.version >>= λ v. lift (aead_decrypt p v.secret z.blob aad))
            u
          ≡ (ok m, u) =
        bind-run (load_version p k z.version) (λ v. lift (aead_decrypt p v.secret z.blob aad)) u u
          z.loaded loads
        ∙ rw opens refl in
      let framed : parse k c.ciphertext aad u ≡ (ok m, u) =
        rw
          (
            z.shows,
            raw,
            long,
            take-append 5 z.header z.blob head.size,
            drop-append 5 z.header z.blob head.size,
            head.unpacks,
          )
          finished in
      bind-run (require_enabled k) (λ _. parse k c.ciphertext aad) u u mk on ∙ framed
