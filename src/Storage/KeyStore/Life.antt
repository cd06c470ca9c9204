-- ===== src/Storage/KeyStore/Life.antt =====
-- The lifecycle of a key as a state machine, and the methods that implement it.
pub mod Implemented
use kmsqr.Base.{
  pos, Bool, Exec, Option, Result, String, arith, err, find_row, if◌then◌else◌, key_state_error,
  none, not, ok, pure, refl, some, ℕ, ◌&&◌, ◌+◌, ◌>>=◌, ◌||◌, ◌≡◌,
}
use kmsqr.Storage.Schema.{Db, KeyRow, KeyState, VersionRow, disabled, enabled, pending_deletion}
use kmsqr.Storage.Repository.Keys.{
  current_row, get_key_current, get_key_state, join_current, key_is, version_is,
}
use kmsqr.Storage.KeyStore.Material.{KeyStore, ManagedKey, found_key, get_key, row_to_managed_key}
use kmsqr.Storage.KeyStore.Lifecycle.{
  cancel_deletion, days, destroy, disable_key, enable_key, is_pending, schedule_deletion,
  window_open,
}

-- a key's state and its deletion time, or no key
abbrev pub Life : Type 0
Life = Option (KeyState × Option ℕ)

pub data Event : Type 0 where
  disabling enabling cancelling : Event
  -- at a time, with a window in days
  scheduling : ℕ → ℕ → Event
  -- at a time, with force or without
  destroying : ℕ → Bool → Event

-- the machine; `none` where the event is refused
abbrev pub life_step : Event → KeyState × Option ℕ → Option Life
life_step disabling l = some (some (disabled, none))
life_step enabling l = if is_pending l.0 then none else some (some (enabled, none))
life_step cancelling l = if is_pending l.0 then some (some (disabled, none)) else none
life_step (scheduling now n) l = some (some (pending_deletion, some (now + days n)))
life_step (destroying now force) l =
    if force || (is_pending l.0 && not (window_open now l.1)) then some none else none

abbrev done : {A : Type 0} → Exec KeyStore A → Exec KeyStore (Unit {0})
done m = m >>= λ _. pure tt

-- the method of an event
abbrev pub perform : Event → String → Exec KeyStore (Unit {0})
perform disabling k = done (disable_key k)
perform enabling k = done (enable_key k)
perform cancelling k = done (cancel_deletion k)
perform (scheduling now n) k = done (schedule_deletion now k (pos n))
perform (destroying now force) k = done (destroy now k force)

-- What a method does on a key when the machine goes to `l'`, or refuses; `j` is another key.
abbrev pub Simulates :
    String → String → KeyStore → Option Life → Result (Unit {0}) × KeyStore → Type 0
Simulates k j s none q = q ≡ (err key_state_error, s)
Simulates k j s (some l') q =
    (q.0 ≡ ok tt)
    × (get_key_state k q.1.db ≡ l')
    × (get_key_state j q.1.db ≡ get_key_state j s.db)
    × (q.1.root_kek ≡ s.root_kek)

-- the row of a key and that of its current version
record Present (k : String) (db : Db) : Type 0 where
  row : KeyRow
  version : VersionRow
  found : find_row (key_is k) db.managed_keys ≡ some row
  joined : find_row (version_is row.id row.current_version) db.key_versions ≡ some version

shown_key : {k : String} {db : Db} → Present k db → ManagedKey
shown_key h = row_to_managed_key (current_row h.row h.version)

get_key-Present : (k : String) (db : Db) (h : Present k db) → get_key k db ≡ some (shown_key h)
unfolding get_key get_key_current join_current shown_key
get_key-Present k db h = rw (get_key, get_key_current, h.found, join_current, h.joined) refl

found_key-Present :
    (k : String) (s : KeyStore) (h : Present k s.db) → found_key k s ≡ (ok (shown_key h), s)
unfolding found_key
found_key-Present k s h = rw (found_key, get_key-Present k s.db h) refl

-- a key that is found is present
rows_of_get_key :
    (k : String) (db : Db) (mk : ManagedKey)
    → get_key k db ≡ some mk
    → (h : Present k db) × (shown_key h ≡ mk)
unfolding get_key get_key_current join_current shown_key
rows_of_get_key k db mk e = by_row (find_row (key_is k) db.managed_keys) refl
  where
    Found : Type 0
    Found = (h : Present k db) × (shown_key h ≡ mk)

    inner : {x y : ManagedKey} → some x ≡ some y → x ≡ y
    inner q = cc

    nothing : ◌≡◌ {A = Option ManagedKey} none (some mk) → ⊥
    nothing q = ground arith

    by_version :
        (r : KeyRow) (o : Option VersionRow)
        → find_row (key_is k) db.managed_keys ≡ some r
        → find_row (version_is r.id r.current_version) db.key_versions ≡ o
        → Found
    by_version r none found joined =
        absurd (nothing (rw (get_key, get_key_current, found, join_current, joined) at e))
    by_version r (some v) found joined = (
      record { row = r; version = v; found = found; joined = joined },
      inner (rw (get_key, get_key_current, found, join_current, joined) at e),
    )

    by_row : (o : Option KeyRow) → find_row (key_is k) db.managed_keys ≡ o → Found
    by_row none found = absurd (nothing (rw (get_key, get_key_current, found) at e))
    by_row (some r) found =
        by_version r (find_row (version_is r.id r.current_version) db.key_versions) found refl

state_of_rows :
    (k : String) (db : Db) (h : Present k db)
    → get_key_state k db ≡ some (h.row.state, h.row.deletion_at)
unfolding get_key_state
state_of_rows k db h = rw (get_key_state, h.found) refl
