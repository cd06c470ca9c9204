-- ===== src/Storage/KeyStore/Gate.antt =====
-- What the lifecycle state of a key forbids.
use kmsqr.Base.{
  Bool, Bytes, List, Option, Result, Stops, Stops-bind, String, ap, arith, bind-Ran, bind-run, err,
  false, if◌then◌else◌, key_error, key_state_error, le_of_ltb, none, not, ok, pure, raise, raise_if,
  refl, some, true, ℕ, ◌&&◌, ◌>>◌, ◌∙◌, ◌≡◌, ◌≤◌,
}
use kmsqr.Crypto.Primitives.{Primitives}
use kmsqr.Policy.{NonceBudgetPolicy}
use kmsqr.Storage.Schema.{Db, pending_deletion}
use kmsqr.Storage.Repository.Keys.{destroy_key, is_enabled}
use kmsqr.Storage.KeyStore.Material.{Draw, KeyStore, ManagedKey, found_key, get_key, on_db}
use kmsqr.Storage.KeyStore.Lifecycle.{destroy, is_pending, require_enabled, window_open}
use kmsqr.Storage.KeyStore.Operations.{decrypt, encrypt, sign, unwrap_data_key, wrap_data_key}

module _ (p : Primitives) (policy : NonceBudgetPolicy) (d : Draw) (k : String) (mk : ManagedKey)
    (s : KeyStore) where
  found_key-found : get_key k s.db ≡ some mk → found_key k s ≡ (ok mk, s)
  unfolding found_key
  found_key-found h = rw (found_key, h) refl

  refused_key :
      get_key k s.db ≡ some mk
      → is_enabled mk.state ≡ false
      → Stops (require_enabled k) s key_state_error
  unfolding require_enabled
  refused_key h off = record {
    at =
        bind-run (found_key k) (λ x. if is_enabled x.state then pure x else raise key_state_error) s
          s mk (found_key-found h)
        ∙ rw off refl;
  }

  -- A key that is disabled or pending deletion does nothing: encrypt, decrypt, sign, wrap_data_key
  -- and unwrap_data_key raise KeyStateError and change nothing, whatever their arguments.
  pub operations-refused :
      (m aad : Bytes) (text encap : List ℕ) (v : Option ℕ)
      → get_key k s.db ≡ some mk
      → is_enabled mk.state ≡ false
      → (encrypt p policy d k m aad s ≡ (err key_state_error, s))
        × (decrypt p k text aad s ≡ (err key_state_error, s))
        × (sign p k m s ≡ (err key_state_error, s))
        × (wrap_data_key p d k m s ≡ (err key_state_error, s))
        × (unwrap_data_key p k encap text v s ≡ (err key_state_error, s))
  unfolding encrypt decrypt sign wrap_data_key unwrap_data_key
  operations-refused m aad text encap v h off =
      let refused = refused_key h off in
      let stops_encrypt : Stops (encrypt p policy d k m aad) s key_state_error =
        search (Stops-bind, refused) in
      let stops_decrypt : Stops (decrypt p k text aad) s key_state_error =
        search (Stops-bind, refused) in
      let stops_sign : Stops (sign p k m) s key_state_error = search (Stops-bind, refused) in
      let stops_wrap : Stops (wrap_data_key p d k m) s key_state_error =
        search (Stops-bind, refused) in
      let stops_unwrap : Stops (unwrap_data_key p k encap text v) s key_state_error =
        search (Stops-bind, refused) in
      (stops_encrypt.at, stops_decrypt.at, stops_sign.at, stops_wrap.at, stops_unwrap.at)

-- a deletion that was asked for, and whose time has come
pub record IsDeletable (now : ℕ) (k : String) (db : Db) : Type 0 where
  pub key : ManagedKey
  pub found : get_key k db ≡ some key
  pub pending : key.state ≡ pending_deletion
  pub due : ℕ
  pub scheduled : key.deletion_at ≡ some due
  pub reached : due ≤ now

module _ (now : ℕ) (k : String) (s t : KeyStore) (done : Bool) where
  found_key-eq-ok :
      (mk : ManagedKey) (u : KeyStore) → found_key k s ≡ (ok mk, u) → get_key k s.db ≡ some mk
  unfolding found_key
  found_key-eq-ok mk u h = by_answer (get_key k s.db) refl
    where
      by_answer : (o : Option ManagedKey) → get_key k s.db ≡ o → get_key k s.db ≡ some mk
      by_answer none e = absurd (nothing (rw (found_key, e) at h))
        where
          nothing : ◌≡◌ {A = Result ManagedKey × KeyStore} (err key_error, s) (ok mk, u) → ⊥
          nothing q = ground arith
      by_answer (some x) e = e ∙ ap some (same (rw (found_key, e) at h))
        where
          same : ◌≡◌ {A = Result ManagedKey × KeyStore} (ok x, s) (ok mk, u) → x ≡ mk
          same q = cc

  passed :
      (b : Bool) (u u' : KeyStore) (x : Unit {0})
      → raise_if b key_state_error u ≡ (ok x, u')
      → b ≡ false
  passed b u u' x h = ground arith

  deletable :
      (mk : ManagedKey)
      → get_key k s.db ≡ some mk
      → not (is_pending mk.state) ≡ false
      → window_open now mk.deletion_at ≡ false
      → IsDeletable now k s.db
  deletable mk h pending closed = by_time mk.deletion_at refl
    where
      by_time : (o : Option ℕ) → mk.deletion_at ≡ o → IsDeletable now k s.db
      by_time none e = absurd (open_window (rw e at closed))
        where
          open_window : true ≡ false → ⊥
          open_window q = ground arith
      by_time (some at) e = record {
        key = mk;
        found = h;
        pending = ground arith;
        due = at;
        scheduled = e;
        reached = le_of_ltb now at (rw e at closed);
      }

  -- Without force, destroy returns only for a key that is pending deletion and whose deletion time
  -- has come.
  pub destroy-IsDeletable : destroy now k false s ≡ (ok done, t) → IsDeletable now k s.db
  unfolding destroy
  destroy-IsDeletable h =
      let r₁ =
        bind-Ran (found_key k)
          (λ mk.
            raise_if (not false && not (is_pending mk.state)) key_state_error
            >> (raise_if (not false && window_open now mk.deletion_at) key_state_error
                >> on_db (destroy_key k)))
          s t done h in
      let mk = r₁.value in
      let r₂ =
        bind-Ran (raise_if (not false && not (is_pending mk.state)) key_state_error)
          (λ x.
            raise_if (not false && window_open now mk.deletion_at) key_state_error
            >> on_db (destroy_key k))
          r₁.between t done r₁.rest in
      let r₃ =
        bind-Ran (raise_if (not false && window_open now mk.deletion_at) key_state_error)
          (λ x. on_db (destroy_key k)) r₂.between t done r₂.rest in
      deletable mk (found_key-eq-ok mk r₁.between r₁.first)
        (passed (not (is_pending mk.state)) r₁.between r₂.between r₂.value r₂.first)
        (passed (window_open now mk.deletion_at) r₂.between r₃.between r₃.value r₃.first)
