-- ===== src/Storage/KeyStore/Rotation.antt =====
-- KeyStore: rotation, by hand and by policy.
use kmsqr.Base.{
  Bool, Exec, List, String, [], false, gets, leb, lift, map, none, not, pure, select_rows, some, ℕ,
  ◌&&◌, ◌+◌, ◌==◌, ◌>>=◌, ◌>>◌, ◌∷◌,
}
use kmsqr.Crypto.Primitives.{Primitives}
use kmsqr.Storage.Schema.{Db}
use kmsqr.Storage.Repository.Keys.{CurrentRow, list_rotation_candidates, rotate_key}
use kmsqr.Storage.KeyStore.Material.{
  Draw, KeyStore, ManagedKey, found_key, generate_material, new_version_row, on_db,
  require_unlocked, version_aad, wrap,
}
use kmsqr.Storage.KeyStore.Lifecycle.{days}

-- `if not period or not created: continue`: a period of 0 is no period
due_row : ℕ → CurrentRow → Bool
due_row now c = elim c.key.rotation_period_days [
  | none ↦ false
  | some period ↦ not (period == 0) && leb (c.version_created_at + days period) now
]

unfoldable pub rotation_due : ℕ → Db → List String
unfolding due_row
rotation_due now db = map (λ c. c.key.id) (select_rows (due_row now) (list_rotation_candidates db))

module _ (p : Primitives) where
  unfoldable pub rotate : Draw → String → Exec KeyStore ManagedKey
  rotate d key_id = do
    require_unlocked
    mk ← found_key key_id
    let new_version = mk.current_version + 1
    (suite, secret, public) ← lift (generate_material p d mk.key_type)
    wrapped ← wrap p d.wrap_nonce secret (version_aad key_id new_version)
    on_db (
        rotate_key key_id mk.current_version
          (new_version_row key_id new_version suite wrapped public d.now) new_version)
    found_key key_id

  -- the draws of the rotations, one for each key
  unfoldable pub rotate_all : (ℕ → Draw) → ℕ → List String → Exec KeyStore (Unit {0})
  rotate_all draws i [] = pure tt
  rotate_all draws i (key_id ∷ rest) = do rotate (draws i) key_id; rotate_all draws (i + 1) rest

  -- the ids that were rotated
  unfoldable pub rotate_due : (ℕ → Draw) → ℕ → Exec KeyStore (List String)
  unfolding rotate_all
  rotate_due draws now = do
    require_unlocked
    due ← gets (λ s. rotation_due now s.db)
    rotate_all draws 0 due
    pure due
