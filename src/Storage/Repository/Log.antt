-- ===== src/Storage/Repository/Log.antt =====
-- The audit_log methods of Repository. The table stands in the order of `seq`, which the database
-- assigns: one more than the last row's.
pub mod Linked
pub mod Last
pub mod Live
use kmsqr.Base.{
  Bool, Bytes, Exec, List, Result, [], any_row, bytes_eq, err, false, if◌then◌else◌, insert_row,
  integrity_error, ok, replicate, runtime_error, suc, take, true, zero, ℕ, ◌+◌, ◌==◌, ◌∷◌,
}
use kmsqr.Storage.Schema.{AuditRow, Db}

abbrev pub genesis : Bytes
genesis = replicate 32 0

-- entry_hash of the last row
abbrev pub head_hash : Bytes → List AuditRow → Bytes
head_hash prev [] = prev
head_hash prev (r ∷ rs) = head_hash r.entry_hash rs

abbrev next_seq_from : ℕ → List AuditRow → ℕ
next_seq_from n [] = n
next_seq_from n (r ∷ rs) = next_seq_from (r.seq + 1) rs

abbrev pub next_seq : List AuditRow → ℕ
next_seq log = next_seq_from 1 log

abbrev pub follows : Bytes → AuditRow → Bool
follows prev r = bytes_eq r.prev_hash prev

-- what `build` returns: a row without its number
abbrev pub Build : Type 0
Build = Bytes → Result (ℕ → AuditRow)

-- INSERT INTO audit_log ... RETURNING seq, under the unique index on prev_hash
unfoldable pub insert_audit : (ℕ → AuditRow) → Exec Db ℕ
insert_audit row db =
    let seq = next_seq db.audit_log in
    if any_row (follows (row seq).prev_hash) db.audit_log
    then (err integrity_error, db)
    else (ok seq, record db { audit_log = insert_row (row seq) db.audit_log })

-- one transaction; what other appenders commit between the read of the head and the insert is
-- `others`, which is nothing where the database serializes the transactions
unfoldable pub attempt : Build → (Db → Db) → Exec Db ℕ
attempt build others db = elim (build (head_hash genesis db.audit_log)) [
  | err e ↦ (err e, others db)
  | ok row ↦ insert_audit row (others db)
]

abbrev pub is_integrity_error : Result ℕ → Bool
is_integrity_error (err integrity_error) = true
is_integrity_error _ = false

-- the attempts that are left, and the number of this one
unfoldable pub append_from : Build → (ℕ → Db → Db) → ℕ → ℕ → Exec Db ℕ
append_from build others zero i db = (err runtime_error, db)
append_from build others (suc left) i db =
    let q = attempt build (others i) db in
    let again = append_from build others left (i + 1) q.1 in
    if is_integrity_error q.0 then (if left == 0 then (err integrity_error, q.1) else again) else q

abbrev pub max_retries : ℕ
max_retries = 8

unfoldable pub append_audit : Build → (ℕ → Db → Db) → Exec Db ℕ
append_audit build others = append_from build others max_retries 0

abbrev pub iter_audit_asc : Db → List AuditRow
iter_audit_asc db = db.audit_log

abbrev reversed : List AuditRow → List AuditRow → List AuditRow
reversed [] out = out
reversed (r ∷ rs) out = reversed rs (r ∷ out)

pub list_audit_desc : ℕ → Db → List AuditRow
list_audit_desc limit db = take limit (reversed db.audit_log [])
