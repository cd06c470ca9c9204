-- ===== src/Storage/KeyStore/Counted.antt =====
-- The number of uses that the rows of a key version count.
use kmsqr.Base.{
  List, update_rows, All, All-append, All-delete, All-find, All-update, Bool, Bool-cases,
  Option-cases, String, [], any_row, arith, delete_rows, eq_of_str_eq, false, find_row, inl, inr,
  insert_row, lt_of_ltb, ltb, ok, refl, some, str_eq, suc, sym, true, ℕ, ◌&&◌, ◌+◌, ◌==◌, ◌∙◌, ◌∷◌,
  ◌<◌, ◌≡◌, ◌≢◌, ◌≤◌,
}
use kmsqr.Policy.{NonceBudgetPolicy, granted, reserve}
use kmsqr.Storage.Schema.{Db, VersionRow}
use kmsqr.Storage.Repository.Keys.{
  increment_usage_if_below, mark_rotated, set_key_state, set_rotation_policy, version_is,
  version_of,
}
use kmsqr.Storage.Repository.Keys.Writes.{
  create-Keeps_if, destroy-Keeps_if, rotate-Keeps_if, use-Keeps_if,
}
use kmsqr.Storage.KeyStore.Keeps.{IsKept}
use kmsqr.Storage.KeyStore.Stored.{OtherThan}

-- what reserve tests and does
abbrev below : String → ℕ → ℕ → VersionRow → Bool
below k v limit r = version_is k v r && ltb r.usage_count limit

abbrev used_once : VersionRow → VersionRow
used_once r = record r { usage_count = r.usage_count + 1 }

module _ (k : String) (v : ℕ) where
  -- the row of the version, if it is one, has been used n times or more
  abbrev pub UsedOften : ℕ → VersionRow → Type 0
  UsedOften n r = version_is k v r ≡ true → n ≤ r.usage_count

  -- the version is there, and has been used n times or more
  pub record IsSpent (n : ℕ) (db : Db) : Type 0 where
    pub there : any_row (version_is k v) db.key_versions ≡ true
    pub often : All (UsedOften n) db.key_versions

  any_row-update :
      (q : VersionRow → Bool) (f : VersionRow → VersionRow) (rs : List VersionRow)
      → ((r : VersionRow) → version_is k v (f r) ≡ version_is k v r)
      → any_row (version_is k v) (update_rows q f rs) ≡ any_row (version_is k v) rs
  any_row-update q f [] h = refl
  any_row-update q f (r ∷ rs) h =
      let rest = any_row-update q f rs h in
      elim (Bool-cases (q r)) [
        | inl hit ↦ rw (hit, h r, rest) refl
        | inr miss ↦ rw (miss, rest) refl
      ]

  any_row-insert :
      (kv : VersionRow) (rs : List VersionRow)
      → any_row (version_is k v) rs ≡ true
      → any_row (version_is k v) (insert_row kv rs) ≡ true
  any_row-insert kv [] h = ground arith
  any_row-insert kv (r ∷ rs) h = ground (arith, any_row-insert kv rs)

  any_row-delete :
      (q : VersionRow → Bool) (rs : List VersionRow)
      → ((r : VersionRow) → version_is k v r ≡ true → q r ≡ false)
      → any_row (version_is k v) rs ≡ true
      → any_row (version_is k v) (delete_rows q rs) ≡ true
  any_row-delete q [] h e = e
  any_row-delete q (r ∷ rs) h e = ground (arith, h r, any_row-delete q rs h)

  left : (a b : Bool) → (a && b) ≡ true → a ≡ true
  left a b e = ground arith

  right : (a b : Bool) → (a && b) ≡ true → b ≡ true
  right a b e = ground arith

  -- a version that is there is not inserted again
  not_again :
      (kv : VersionRow) (rs : List VersionRow)
      → any_row (version_is k v) rs ≡ true
      → any_row (version_is kv.key_id kv.version) rs ≡ false
      → version_is k v kv ≡ true
      → ⊥
  not_again kv rs there free same =
      let key = eq_of_str_eq kv.key_id k (left (str_eq kv.key_id k) (kv.version == v) same) in
      let hit = right (str_eq kv.key_id k) (kv.version == v) same in
      let number : kv.version ≡ v = ground arith in clash (rw (key, number) at free)
    where
      clash : any_row (version_is k v) rs ≡ false → ⊥
      clash e = ground arith

  other_version :
      (j : String) → j ≢ k → (r : VersionRow) → version_is k v r ≡ true → version_of j r ≡ false
  other_version j ne r e = elim (Bool-cases (str_eq r.key_id j)) [
    | inr miss ↦ miss
    | inl hit ↦
        absurd (ne (sym (eq_of_str_eq r.key_id j hit) ∙ eq_of_str_eq r.key_id k (left _ _ e)))
  ]

  IsSpent-insert :
      (n : ℕ) (kv : VersionRow) (db : Db)
      → IsSpent n db
      → any_row (version_is kv.key_id kv.version) db.key_versions ≡ false
      → IsSpent n (record db { key_versions = insert_row kv db.key_versions })
  IsSpent-insert n kv db s free = record {
    there = any_row-insert kv db.key_versions s.there;
    often =
        All-append (UsedOften n) db.key_versions (kv ∷ []) s.often
          (λ same. absurd (not_again kv db.key_versions s.there free same), tt);
  }

  used_more : (n : ℕ) (r : VersionRow) → UsedOften n r → UsedOften n (used_once r)
  used_more n r f e = let used = f e in omega arith

  pub IsSpent-kept : (n : ℕ) (policy : NonceBudgetPolicy) → IsKept policy (OtherThan k) (IsSpent n)
  IsSpent-kept n policy = record {
    create_keeps = λ mk kv _ _ _.
        create-Keeps_if mk kv (λ db h. record { there = h.there; often = h.often })
          (IsSpent-insert n kv);
    state_keeps = λ j st at.
        unfold set_key_state in record { at = λ db h. record { there = h.there; often = h.often } };
    policy_keeps = λ j m.
        unfold set_rotation_policy in
        record { at = λ db h. record { there = h.there; often = h.often } };
    rotate_keeps = λ j old new kv _ _ _.
        rotate-Keeps_if j old new kv
          (λ db h. record {
            there =
                any_row-update (version_is j old) mark_rotated db.key_versions (λ r. refl)
                ∙ h.there;
            often =
                All-update (UsedOften n) (version_is j old) mark_rotated db.key_versions
                  (λ r _ f. f) h.often;
          })
          (IsSpent-insert n kv) (λ db h. record { there = h.there; often = h.often });
    use_keeps = λ j w. use-Keeps_if j w policy.hard_limit (λ db h. record {
      there =
          any_row-update (below j w policy.hard_limit) used_once db.key_versions (λ r. refl)
          ∙ h.there;
      often =
          All-update (UsedOften n) (below j w policy.hard_limit) used_once db.key_versions
            (λ r _ f. used_more n r f) h.often;
    });
    destroy_keeps = λ j ne. destroy-Keeps_if j (λ db h. record {
      there = any_row-delete (version_of j) db.key_versions (other_version j ne) h.there;
      often = All-delete (UsedOften n) (version_of j) db.key_versions h.often;
    });
  }

  reserve-Counts :
      (policy : NonceBudgetPolicy) (db db' : Db) (count : ℕ)
      → reserve policy k v db ≡ (ok count, db')
      → (r : VersionRow) × (find_row (below k v policy.hard_limit) db.key_versions ≡ some r)
        × (db'.key_versions ≡ update_rows (below k v policy.hard_limit) used_once db.key_versions)
  unfolding reserve increment_usage_if_below granted
  reserve-Counts policy db db' count h =
      elim (Option-cases (find_row (below k v policy.hard_limit) db.key_versions)) [
        | inl full ↦ absurd (ground arith)
        | inr found ↦ (found.0, found.1, ground arith)
      ]

  -- one more use of every row that is below the limit; the others are at the limit
  All-counted :
      (n limit : ℕ) (rs : List VersionRow)
      → n < limit
      → All (UsedOften n) rs
      → All (UsedOften (suc n)) (update_rows (below k v limit) used_once rs)
  All-counted n limit [] h a = tt
  All-counted n limit (r ∷ rs) h a =
      let rest = All-counted n limit rs h a.1 in
      elim (Bool-cases (below k v limit r)) [
        | inl hit ↦ rw hit (λ same. omega (arith, a.0 same), rest)
        | inr miss ↦ rw miss (λ same. at_limit same miss, rest)
      ]
    where
      at_limit : version_is k v r ≡ true → below k v limit r ≡ false → suc n ≤ r.usage_count
      at_limit same miss = omega (arith, reached (version_is k v r) same miss)
        where
          reached :
              (b : Bool) → b ≡ true → (b && ltb r.usage_count limit) ≡ false → limit ≤ r.usage_count
          reached b e f = ground arith

  pub find_row-holds :
      (q : VersionRow → Bool) (rs : List VersionRow) (r : VersionRow)
      → find_row q rs ≡ some r
      → q r ≡ true
  find_row-holds q [] r e = ground arith
  find_row-holds q (x ∷ rs) r e = ground (arith, find_row-holds q rs r)

  pub IsSpent-reserve :
      (policy : NonceBudgetPolicy) (n count : ℕ) (db db' : Db)
      → reserve policy k v db ≡ (ok count, db')
      → IsSpent n db
      → IsSpent (suc n) db'
  IsSpent-reserve policy n count db db' h s =
      let (r, found, rows) = reserve-Counts policy db db' count h in
      let hit = find_row-holds (below k v policy.hard_limit) db.key_versions r found in
      let used =
        All-find (UsedOften n) (below k v policy.hard_limit) db.key_versions r s.often found
          (left _ _ hit) in
      let free = lt_of_ltb r.usage_count policy.hard_limit (right _ _ hit) in
      record {
        there = rw rows (
            any_row-update (below k v policy.hard_limit) used_once db.key_versions (λ x. refl)
            ∙ s.there);
        often = rw rows (All-counted n policy.hard_limit db.key_versions (omega arith) s.often);
      }
