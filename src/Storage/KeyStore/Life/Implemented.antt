-- ===== src/Storage/KeyStore/Life/Implemented.antt =====
-- The methods of the lifecycle implement the machine.
use kmsqr.Base.{
  Bool, Bool-cases, Exec, Option, Result, String, any_row, any_row_of_find, ap, arith, bind-run,
  delete_rows, eq_of_str_eq, err, false, find_row, find_row-delete_hit, find_row-delete_miss,
  find_row-update, find_row-update_other, find_row_sound, if◌then◌else◌, inl, inr, key_state_error,
  none, not, ok, pure, raise_if, refl, some, str_eq, subst, sym, true, update_rows, ℕ, ◌&&◌, ◌+◌,
  ◌>>=◌, ◌||◌, ◌∙◌, ◌≡◌,
}
use kmsqr.Storage.Schema.{Db, KeyRow, KeyState, disabled, enabled, pending_deletion}
use kmsqr.Storage.Repository.Keys.{
  destroy_key, get_key_state, grant_on_key, key_is, set_key_state, version_of,
}
use kmsqr.Storage.KeyStore.Material.{KeyStore, ManagedKey, found_key, get_key, on_db}
use kmsqr.Storage.KeyStore.Lifecycle.{
  cancel_deletion, days, destroy, disable_key, enable_key, is_pending, schedule_deletion,
  window_open,
}
use kmsqr.Storage.KeyStore.Life.{
  Event, Life, Present, Simulates, cancelling, destroying, disabling, done, enabling,
  found_key-Present, life_step, perform, shown_key, rows_of_get_key, state_of_rows, scheduling,
}

-- the store after set_key_state
abbrev put_state : KeyState → Option ℕ → KeyRow → KeyRow
put_state st at r = record r { state = st; deletion_at = at }

abbrev with_state : String → KeyState → Option ℕ → KeyStore → KeyStore
with_state k st at s = record s {
  db = record s.db { managed_keys = update_rows (key_is k) (put_state st at) s.db.managed_keys };
}

module _ (k : String) (st : KeyState) (at : Option ℕ) (s : KeyStore) where
  same_id : (b : Bool) (r : KeyRow) → key_is k (if b then put_state st at r else r) ≡ key_is k r
  same_id true r = refl
  same_id false r = refl

  row_set :
      (h : Present k s.db)
      → find_row (key_is k) (with_state k st at s).db.managed_keys ≡ some (put_state st at h.row)
  row_set h =
      find_row-update (key_is k) (key_is k) (put_state st at) s.db.managed_keys
        (λ r. same_id (key_is k r) r)
      ∙ rw (h.found, find_row_sound (key_is k) s.db.managed_keys h.row h.found) refl

  after_state : Present k s.db → Present k (with_state k st at s).db
  after_state h = record {
    row = put_state st at h.row;
    version = h.version;
    found = row_set h;
    joined = h.joined;
  }

  state_set : Present k s.db → get_key_state k (with_state k st at s).db ≡ some (st, at)
  unfolding get_key_state
  state_set h = rw (get_key_state, row_set h) refl

  others_kept :
      (j : String)
      → str_eq k j ≡ false
      → get_key_state j (with_state k st at s).db ≡ get_key_state j s.db
  unfolding get_key_state
  others_kept j ne =
      rw
        (
          get_key_state,
          find_row-update_other (key_is j) (key_is k) (put_state st at) s.db.managed_keys
              (λ r e. other r.id e) (λ r e. other r.id e),
        )
        refl
    where
      other : (x : String) → str_eq x k ≡ true → str_eq x j ≡ false
      other x e = rw (eq_of_str_eq x k e) ne

  -- the end of a method that sets the state
  set_and_show :
      (j : String)
      → str_eq k j ≡ false
      → Present k s.db
      → Simulates k j s
          (some (some (st, at)))
          (done (on_db (set_key_state k st at) >>= λ _. found_key k) s)
  unfolding set_key_state
  set_and_show j ne h =
      subst (Simulates k j s (some (some (st, at))))
        (sym (
          bind-run (on_db (set_key_state k st at) >>= λ _. found_key k) (λ _. pure tt) s
            (with_state k st at s) (shown_key (after_state h))
            (found_key-Present k (with_state k st at s) (after_state h))))
        (refl, state_set h, others_kept j ne, refl)

-- a method that starts with finding the key
after_found :
    {A : Type 0} (k j : String) (s : KeyStore) (h : Present k s.db)
    (f : ManagedKey → Exec KeyStore A) (l : Option Life)
    → Simulates k j s l (done (f (shown_key h)) s)
    → Simulates k j s l (done (found_key k >>= f) s)
after_found k j s h f l w =
    subst (Simulates k j s l)
      (sym (
        ap
          (λ q.
            let z : Result (Unit {0}) × KeyStore = elim q.0 [
              | ok a ↦ (ok tt, q.1)
              | err e ↦ (err e, q.1)
            ] in
            z)
          (bind-run (found_key k) f s s (shown_key h) (found_key-Present k s h))))
      w

destroy_key-runs :
    (k : String) (db : Db)
    → any_row (key_is k) db.managed_keys ≡ true
    → destroy_key k db ≡ (
      ok true,
      record db {
        grants = delete_rows (grant_on_key k) db.grants;
        key_versions = delete_rows (version_of k) db.key_versions;
        managed_keys = delete_rows (key_is k) db.managed_keys;
      },
    )
unfolding destroy_key
destroy_key-runs k db e = rw (destroy_key, e) refl

destroyed_key :
    (k j : String) (s : KeyStore)
    → str_eq k j ≡ false
    → Present k s.db
    → Simulates k j s (some none) (done (on_db (destroy_key k)) s)
unfolding get_key_state
destroyed_key k j s ne h =
    let runs =
      destroy_key-runs k s.db (any_row_of_find (key_is k) s.db.managed_keys h.row h.found) in
    subst (Simulates k j s (some none))
      (sym (
        ap
          (λ (q : Result Bool × Db).
            let z : Result (Unit {0}) × KeyStore = elim q.0 [
              | ok a ↦ (ok tt, record s { db = q.1 })
              | err e ↦ (err e, record s { db = q.1 })
            ] in
            z)
          runs))
      (
        refl,
        rw (get_key_state, find_row-delete_hit (key_is k) (key_is k) s.db.managed_keys (λ r e. e))
            refl,
        rw
            (
              get_key_state,
              find_row-delete_miss (key_is j) (key_is k) s.db.managed_keys (λ r e. other r.id e),
            )
            refl,
        refl,
      )
  where
    other : (x : String) → str_eq x j ≡ true → str_eq x k ≡ false
    other x e = elim (Bool-cases (str_eq x k)) [
      | inr miss ↦ miss
      | inl hit ↦ absurd (ground (arith, rw (eq_of_str_eq x k hit) at e))
    ]

-- The methods implement the machine: for a key that get_key finds in the state `l`, the method of an
-- event goes where the machine goes and leaves the state of any other key and the root key, or
-- raises KeyStateError and changes nothing where the machine refuses.
pub perform-Simulates :
    (e : Event) (k j : String) (s : KeyStore) (mk : ManagedKey)
    → str_eq k j ≡ false
    → get_key k s.db ≡ some mk
    → (get_key_state k s.db ≡ some (mk.state, mk.deletion_at))
      × Simulates k j s (life_step e (mk.state, mk.deletion_at)) (perform e k s)
unfolding disable_key enable_key cancel_deletion schedule_deletion destroy shown_key
perform-Simulates e k j s mk ne found =
    let (h, same) = rows_of_get_key k s.db mk found in
    rw (sym same) (state_of_rows k s.db h, by_event e h)
  where
    by_event :
        (e : Event) (h : Present k s.db)
        → Simulates k j s (life_step e (h.row.state, h.row.deletion_at)) (perform e k s)
    by_event disabling h =
        after_found k j s h (λ _. on_db (set_key_state k disabled none) >>= λ _. found_key k)
          (life_step disabling (h.row.state, h.row.deletion_at))
          (set_and_show k disabled none s j ne h)
    by_event (scheduling now n) h =
        after_found k j s h
          (λ _. on_db (set_key_state k pending_deletion (some (now + days n))) >>= λ _. found_key k)
          (life_step (scheduling now n) (h.row.state, h.row.deletion_at))
          (set_and_show k pending_deletion (some (now + days n)) s j ne h)
    by_event enabling h =
        after_found k j s h
          (λ mk. raise_if (is_pending mk.state) key_state_error >>= λ _.
            on_db (set_key_state k enabled none) >>= λ _. found_key k)
          (life_step enabling (h.row.state, h.row.deletion_at)) (tested h.row.state)
      where
        tested :
            (st : KeyState)
            → Simulates k j s (if is_pending st then none else some (some (enabled, none))) (
                done
                  (raise_if (is_pending st) key_state_error >>= λ _.
                    on_db (set_key_state k enabled none) >>= λ _. found_key k)
                  s)
        tested pending_deletion = refl
        tested enabled = set_and_show k enabled none s j ne h
        tested disabled = set_and_show k enabled none s j ne h
    by_event cancelling h =
        after_found k j s h
          (λ mk. raise_if (not (is_pending mk.state)) key_state_error >>= λ _.
            on_db (set_key_state k disabled none) >>= λ _. found_key k)
          (life_step cancelling (h.row.state, h.row.deletion_at)) (tested h.row.state)
      where
        tested :
            (st : KeyState)
            → Simulates k j s (if is_pending st then some (some (disabled, none)) else none) (
                done
                  (raise_if (not (is_pending st)) key_state_error >>= λ _.
                    on_db (set_key_state k disabled none) >>= λ _. found_key k)
                  s)
        tested pending_deletion = set_and_show k disabled none s j ne h
        tested enabled = refl
        tested disabled = refl
    by_event (destroying now force) h =
        after_found k j s h
          (λ mk. raise_if (not force && not (is_pending mk.state)) key_state_error >>= λ _.
            raise_if (not force && window_open now mk.deletion_at) key_state_error >>= λ _.
            on_db (destroy_key k))
          (life_step (destroying now force) (h.row.state, h.row.deletion_at))
          (tested force (is_pending h.row.state) (window_open now h.row.deletion_at))
      where
        tested :
            (f p w : Bool)
            → Simulates k j s (if f || (p && not w) then some none else none) (
                done
                  (raise_if (not f && not p) key_state_error >>= λ _.
                    raise_if (not f && w) key_state_error >>= λ _. on_db (destroy_key k))
                  s)
        tested true p w = destroyed_key k j s ne h
        tested false true false = destroyed_key k j s ne h
        tested false true true = refl
        tested false false w = refl
