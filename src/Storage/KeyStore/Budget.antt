-- ===== src/Storage/KeyStore/Budget.antt =====
-- The nonce budget over all states that a key store reaches.
use kmsqr.Base.{
  All, All-append, All-delete, All-update, Bool, String, [], arith, insert_row, lt_of_ltb, ltb,
  refl, true, ℕ, ◌&&◌, ◌+◌, ◌∷◌, ◌≡◌, ◌≤◌,
}
use kmsqr.Crypto.Primitives.{Primitives}
use kmsqr.Policy.{NonceBudgetPolicy}
use kmsqr.Storage.Schema.{Db, VersionRow}
use kmsqr.Storage.Repository.Keys.{
  mark_rotated, set_key_state, set_rotation_policy, version_is, version_of,
}
use kmsqr.Storage.Repository.Keys.Writes.{
  create-Keeps_if, destroy-Keeps_if, rotate-Keeps_if, use-Keeps_if,
}
use kmsqr.Storage.KeyStore.Material.{KeyStore}
use kmsqr.Storage.KeyStore.Keeps.{IsKept}
use kmsqr.Storage.KeyStore.Reach.{Reach, Reach-Within}

-- no version of the table passes the limit
abbrev pub IsWithinBudget : ℕ → Db → Type 0
IsWithinBudget limit db = All (λ (v : VersionRow). v.usage_count ≤ limit) db.key_versions

module _ (policy : NonceBudgetPolicy) (Allowed : String → Type 0) where
  abbrev Fits : VersionRow → Type 0
  Fits v = v.usage_count ≤ policy.hard_limit

  unused_fits :
      (kv : VersionRow) (db : Db)
      → kv.usage_count ≡ 0
      → IsWithinBudget policy.hard_limit db
      → IsWithinBudget policy.hard_limit
          (record db { key_versions = insert_row kv db.key_versions })
  unused_fits kv db e h = All-append Fits db.key_versions (kv ∷ []) h (omega arith, tt)

  used_fits :
      (k : String) (v : ℕ) (r : VersionRow)
      → (version_is k v r && ltb r.usage_count policy.hard_limit) ≡ true
      → r.usage_count + 1 ≤ policy.hard_limit
  used_fits k v r e =
      let below = lt_of_ltb r.usage_count policy.hard_limit (right _ _ e) in omega arith
    where
      right : (a b : Bool) → (a && b) ≡ true → b ≡ true
      right a b e = ground arith

  budget_kept : IsKept policy Allowed (IsWithinBudget policy.hard_limit)
  budget_kept = record {
    create_keeps =
        λ mk kv _ _ e. create-Keeps_if mk kv (λ db h. h) (λ db h _. unused_fits kv db e h);
    state_keeps = λ k st at. unfold set_key_state in record { at = λ db h. h };
    policy_keeps = λ k n. unfold set_rotation_policy in record { at = λ db h. h };
    rotate_keeps = λ k old new kv _ _ e.
        rotate-Keeps_if k old new kv
          (λ db h. All-update Fits (version_is k old) mark_rotated db.key_versions (λ r _ f. f) h)
          (λ db h _. unused_fits kv db e h) (λ db h. h);
    use_keeps = λ k v. use-Keeps_if k v policy.hard_limit (λ db h.
        All-update Fits _ (λ r. record r { usage_count = r.usage_count + 1 }) db.key_versions
          (λ r e _. used_fits k v r e) h);
    destroy_keeps =
        λ k _. destroy-Keeps_if k (λ db h. All-delete Fits (version_of k) db.key_versions h);
  }

  -- no method on keys leaves the budget
  pub Reach-IsWithinBudget :
      (p : Primitives) (s t : KeyStore)
      → Reach p policy Allowed s t
      → IsWithinBudget policy.hard_limit s.db
      → IsWithinBudget policy.hard_limit t.db
  Reach-IsWithinBudget p s t r h =
      (Reach-Within p budget_kept r (record { holds = h; same_root = refl })).holds
