-- ===== src/Storage/Repository/Log/Linked.antt =====
-- The chain of the audit log under concurrent appenders.
use kmsqr.Base.{
  Bool, Bytes, List, Result, [], any_row, append-nil, arith, bytes_eq, bytes_eq_refl, err, false,
  if◌then◌else◌, insert_row, ok, refl, suc, true, zero, ℕ, ◌++◌, ◌+◌, ◌==◌, ◌∷◌, ◌≡◌,
}
use kmsqr.Storage.Schema.{AuditRow, Db}
use kmsqr.Storage.Repository.Log.{
  Build, append_audit, append_from, attempt, follows, genesis, head_hash, insert_audit,
  is_integrity_error, max_retries, next_seq,
}

-- each row follows the row before it
abbrev pub IsLinked : Bytes → List AuditRow → Type 0
IsLinked prev [] = Unit
IsLinked prev (r ∷ rs) = (r.prev_hash ≡ prev) × IsLinked r.entry_hash rs

pub IsLinked-insert :
    (prev : Bytes) (log : List AuditRow) (r : AuditRow)
    → IsLinked prev log
    → r.prev_hash ≡ head_hash prev log
    → IsLinked prev (insert_row r log)
IsLinked-insert prev [] r h e = (e, tt)
IsLinked-insert prev (x ∷ rs) r h e = (h.0, IsLinked-insert x.entry_hash rs r h.1 e)

-- the slot after a row that is not the last one is taken
stale_head-taken :
    (prev : Bytes) (log : List AuditRow) (y : AuditRow) (ys : List AuditRow)
    → IsLinked prev (log ++ y ∷ ys)
    → any_row (follows (head_hash prev log)) (log ++ y ∷ ys) ≡ true
stale_head-taken prev [] y ys h =
    let e : bytes_eq y.prev_hash prev ≡ true = rw h.0 (bytes_eq_refl prev) in ground arith
stale_head-taken prev (x ∷ xs) y ys h =
    let rest = stale_head-taken x.entry_hash xs y ys h.1 in ground arith

-- Other appenders leave a linked log linked, and only add rows to it.
pub record IsAppending (others : Db → Db) : Type 0 where
  pub added : Db → List AuditRow
  pub appends : (db : Db) → (others db).audit_log ≡ db.audit_log ++ added db
  pub stays_linked :
      (db : Db) → IsLinked genesis db.audit_log → IsLinked genesis (others db).audit_log

-- a row is built for the head that it is given
abbrev pub IsBuild : Build → Type 0
IsBuild build =
    (prev : Bytes) (row : ℕ → AuditRow) → build prev ≡ ok row → (n : ℕ) → (row n).prev_hash ≡ prev

either_run :
    (P : Db → Type 0) (b : Bool) (x y : Result ℕ × Db)
    → P x.1
    → P y.1
    → P (let q = if b then x else y in q).1
either_run P true x y hx hy = hx
either_run P false x y hx hy = hy

insert_audit-IsLinked :
    (row : ℕ → AuditRow) (log added : List AuditRow) (db : Db)
    → ((n : ℕ) → (row n).prev_hash ≡ head_hash genesis log)
    → db.audit_log ≡ log ++ added
    → IsLinked genesis db.audit_log
    → IsLinked genesis (insert_audit row db).1.audit_log
unfolding insert_audit
insert_audit-IsLinked row log [] db e d h =
    let here : (row (next_seq db.audit_log)).prev_hash ≡ head_hash genesis db.audit_log =
      rw (d, append-nil log) (e _) in
    let more = IsLinked-insert genesis db.audit_log (row (next_seq db.audit_log)) h here in
    either_run (λ d. IsLinked genesis d.audit_log) (any_row _ db.audit_log) _ _ h more
insert_audit-IsLinked row log (y ∷ ys) db e d h =
    let taken = stale_head-taken genesis log y ys (rw d at h) in
    let hit : any_row (follows (row (next_seq db.audit_log)).prev_hash) db.audit_log ≡ true =
      rw (e (next_seq db.audit_log), d) taken in
    rw hit h

module _ (build : Build) (is_build : IsBuild build) where
  attempt-IsLinked :
      (others : Db → Db) (db : Db)
      → IsAppending others
      → IsLinked genesis db.audit_log
      → IsLinked genesis (attempt build others db).1.audit_log
  unfolding attempt
  attempt-IsLinked others db o h = run (build (head_hash genesis db.audit_log)) refl
    where
      run :
          (r : Result (ℕ → AuditRow))
          → build (head_hash genesis db.audit_log) ≡ r
          → IsLinked genesis
              (let q : Result ℕ × Db = elim r [
                | err e ↦ (err e, others db)
                | ok row ↦ insert_audit row (others db)
              ] in
                q).1.audit_log
      run (err e) eq = o.stays_linked db h
      run (ok row) eq =
          insert_audit-IsLinked row db.audit_log (o.added db) (others db) (is_build _ row eq)
            (o.appends db) (o.stays_linked db h)

  append_from-IsLinked :
      (others : ℕ → Db → Db) (left i : ℕ) (db : Db)
      → ((j : ℕ) → IsAppending (others j))
      → IsLinked genesis db.audit_log
      → IsLinked genesis (append_from build others left i db).1.audit_log
  unfolding append_from
  append_from-IsLinked others zero i db o h = h
  append_from-IsLinked others (suc left) i db o h =
      let once = attempt-IsLinked (others i) db (o i) h in
      let again = append_from-IsLinked others left (i + 1) _ o once in
      let P = λ (d : Db). IsLinked genesis d.audit_log in
      either_run P (is_integrity_error _) _ _ (either_run P (left == 0) _ _ once again) once

  -- The audit log never forks. However the appends of other processes fall between the read of the
  -- head and the insert of each attempt (they add rows and keep the log linked), an append that
  -- builds its row for the head it read leaves the log linked: each row names the hash of the row
  -- before it. This holds too when the append raises.
  pub append_audit-IsLinked :
      (others : ℕ → Db → Db) (db : Db)
      → ((j : ℕ) → IsAppending (others j))
      → IsLinked genesis db.audit_log
      → IsLinked genesis (append_audit build others db).1.audit_log
  unfolding append_audit
  append_audit-IsLinked others db o h = append_from-IsLinked others max_retries 0 db o h
