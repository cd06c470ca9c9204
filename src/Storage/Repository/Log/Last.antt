-- ===== src/Storage/Repository/Log/Last.antt =====
-- The row that an append leaves.
use kmsqr.Base.{
  Bool-cases, Bytes, IsIn, List, Result, [], any_row, ap, arith, err, if◌then◌else◌, inl, inr,
  insert_row, integrity_error, ok, refl, subst, suc, zero, ℕ, ◌+◌, ◌==◌, ◌∷◌, ◌≡◌,
}
use kmsqr.Storage.Schema.{AuditRow, Db}
use kmsqr.Storage.Repository.Log.{
  Build, append_audit, append_from, attempt, follows, genesis, head_hash, insert_audit,
  is_integrity_error, max_retries, next_seq,
}

-- the row that was built for some head stands in the log
pub record IsAppended (build : Build) (seq : ℕ) (db : Db) : Type 0 where
  pub prev : Bytes
  pub row : ℕ → AuditRow
  pub builds : build prev ≡ ok row
  pub is_in : IsIn (row seq) db.audit_log

IsIn-insert : (r : AuditRow) (rs : List AuditRow) → IsIn r (insert_row r rs)
IsIn-insert r [] = inl refl
IsIn-insert r (x ∷ rs) = inr (IsIn-insert r rs)

inserted :
    (row : ℕ → AuditRow) (db db' : Db) (seq : ℕ)
    → insert_audit row db ≡ (ok seq, db')
    → IsIn (row seq) db'.audit_log
unfolding insert_audit
inserted row db db' seq h =
    elim (Bool-cases (any_row (follows (row (next_seq db.audit_log)).prev_hash) db.audit_log)) [
      | inl taken ↦ absurd (refused (rw (insert_audit, taken) at h))
      | inr free ↦ placed (rw (insert_audit, free) at h)
    ]
  where
    refused : ◌≡◌ {A = Result ℕ × Db} (err integrity_error, db) (ok seq, db') → ⊥
    refused e = ground arith

    placed :
        ◌≡◌ {A = Result ℕ × Db}
          (
            ok (next_seq db.audit_log),
            record db { audit_log = insert_row (row (next_seq db.audit_log)) db.audit_log },
          )
          (ok seq, db')
        → IsIn (row seq) db'.audit_log
    placed e =
        let same : next_seq db.audit_log ≡ seq = ground arith in
        subst (λ n. IsIn (row n) db'.audit_log) same
          (subst (λ (x : Db). IsIn (row (next_seq db.audit_log)) x.audit_log)
            (ap (λ (q : Result ℕ × Db). q.1) e)
            (IsIn-insert (row (next_seq db.audit_log)) db.audit_log))

attempt-IsAppended :
    (build : Build) (others : Db → Db) (db db' : Db) (seq : ℕ)
    → attempt build others db ≡ (ok seq, db')
    → IsAppended build seq db'
unfolding attempt
attempt-IsAppended build others db db' seq h =
    by_build (build (head_hash genesis db.audit_log)) refl
  where
    by_build :
        (r : Result (ℕ → AuditRow))
        → build (head_hash genesis db.audit_log) ≡ r
        → IsAppended build seq db'
    by_build (err x) e = absurd (refused (rw (attempt, e) at h))
      where
        refused : ◌≡◌ {A = Result ℕ × Db} (err x, others db) (ok seq, db') → ⊥
        refused q = ground arith
    by_build (ok row) e = record {
      prev = head_hash genesis db.audit_log;
      row = row;
      builds = e;
      is_in = inserted row (others db) db' seq (rw (attempt, e) at h);
    }

append_from-IsAppended :
    (build : Build) (others : ℕ → Db → Db) (left i : ℕ) (db db' : Db) (seq : ℕ)
    → append_from build others left i db ≡ (ok seq, db')
    → IsAppended build seq db'
unfolding append_from
append_from-IsAppended build others zero i db db' seq h = absurd (ground arith)
append_from-IsAppended build others (suc left) i db db' seq h =
    by_attempt (attempt build (others i) db).0 (attempt build (others i) db).1 refl refl
      (append_from-IsAppended build others left (i + 1) (attempt build (others i) db).1 db' seq) h
  where
    by_attempt :
        (r : Result ℕ) (d : Db)
        → (attempt build (others i) db).0 ≡ r
        → (attempt build (others i) db).1 ≡ d
        → (append_from build others left (i + 1) d ≡ (ok seq, db') → IsAppended build seq db')
        → (let again = append_from build others left (i + 1) d in
            if is_integrity_error r
            then (if left == 0 then (err integrity_error, d) else again)
            else (r, d))
          ≡ (ok seq, db')
        → IsAppended build seq db'
    by_attempt r d a b rest q = elim (Bool-cases (is_integrity_error r)) [
      | inr other ↦
          let both : ◌≡◌ {A = Result ℕ × Db} (r, d) (ok seq, db') = rw other at q in
          attempt-IsAppended build (others i) db db' seq (ground (arith, a, b, both))
      | inl lost ↦ elim (Bool-cases (left == 0)) [
        | inl last ↦ absurd (nothing d (rw last at (rw lost at q)))
        | inr more ↦ rest (rw more at (rw lost at q))
      ]
    ]
      where
        nothing : (d : Db) → ◌≡◌ {A = Result ℕ × Db} (err integrity_error, d) (ok seq, db') → ⊥
        nothing d e = ground arith

-- An append that returns a number has left a row with that number in the log, built from the given
-- fields on a head that it read, whatever other processes committed between its attempts.
pub append_audit-IsAppended :
    (build : Build) (others : ℕ → Db → Db) (db db' : Db) (seq : ℕ)
    → append_audit build others db ≡ (ok seq, db')
    → IsAppended build seq db'
unfolding append_audit
append_audit-IsAppended build others db db' seq h =
    append_from-IsAppended build others max_retries 0 db db' seq h
