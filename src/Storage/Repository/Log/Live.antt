-- ===== src/Storage/Repository/Log/Live.antt =====
-- An append ends with a row when one of its attempts runs undisturbed.
use kmsqr.Base.{
  Bool-cases, Bytes, Exec, any_row, ap, arith, err, false, inl, inr, insert_row, integrity_error,
  ok, refl, subst, suc, true, zero, ℕ, ◌+◌, ◌<◌, ◌==◌, ◌∙◌, ◌≡◌, ◌⊎◌,
}
use kmsqr.Storage.Schema.{AuditRow, Db}
use kmsqr.Storage.Repository.Log.{
  Build, append_audit, append_from, attempt, follows, genesis, head_hash, insert_audit, max_retries,
  next_seq,
}

-- the state before the n-th attempt from the i-th, when the attempts in between failed
abbrev pub before : (ℕ → Db → Db) → ℕ → ℕ → Db → Db
before others zero i db = db
before others (suc n) i db = before others n (i + 1) (others i db)

-- a row can be built for every head, and follows it
pub record IsTotal (build : Build) : Type 0 where
  pub row_of : Bytes → ℕ → AuditRow
  pub builds : (prev : Bytes) → build prev ≡ ok (row_of prev)
  pub follows_prev : (prev : Bytes) (n : ℕ) → (row_of prev n).prev_hash ≡ prev

-- the slot after the head is free
abbrev pub IsFree : Db → Type 0
IsFree db = any_row (follows (head_hash genesis db.audit_log)) db.audit_log ≡ false

-- an action that returns
pub record Returns {S A : Type 0} (m : Exec S A) (s : S) : Type 0 where
  pub value : A
  pub final : S
  pub runs : m s ≡ (ok value, final)

module _ (build : Build) (total : IsTotal build) where
  built :
      (others : Db → Db) (db : Db)
      → attempt build others db
        ≡ insert_audit (total.row_of (head_hash genesis db.audit_log)) (others db)
  unfolding attempt
  built others db = rw (attempt, total.builds (head_hash genesis db.audit_log)) refl

  insert-taken :
      (row : ℕ → AuditRow) (db : Db)
      → any_row (follows (row (next_seq db.audit_log)).prev_hash) db.audit_log ≡ true
      → insert_audit row db ≡ (err integrity_error, db)
  unfolding insert_audit
  insert-taken row db e = rw (insert_audit, e) refl

  insert-free :
      (row : ℕ → AuditRow) (db : Db)
      → any_row (follows (row (next_seq db.audit_log)).prev_hash) db.audit_log ≡ false
      → Returns (insert_audit row) db
  unfolding insert_audit
  insert-free row db e = record {
    value = next_seq db.audit_log;
    final = record db { audit_log = insert_row (row (next_seq db.audit_log)) db.audit_log };
    runs = rw (insert_audit, e) refl;
  }

  -- an attempt returns a number, or leaves what the others committed
  attempt-cases :
      (others : Db → Db) (db : Db)
      → Returns (attempt build others) db
        ⊎ (attempt build others db ≡ (err integrity_error, others db))
  attempt-cases others db =
      let row = total.row_of (head_hash genesis db.audit_log) in
      elim (Bool-cases (
        any_row (follows (row (next_seq (others db).audit_log)).prev_hash) (others db).audit_log)) [
          | inl taken ↦ inr (built others db ∙ insert-taken row (others db) taken)
          | inr free ↦
              let r = insert-free row (others db) free in
              inl (record { value = r.value; final = r.final; runs = built others db ∙ r.runs })
        ]

  attempt-Returns :
      (others : Db → Db) (db : Db) → others db ≡ db → IsFree db → Returns (attempt build others) db
  attempt-Returns others db alone free =
      let row = total.row_of (head_hash genesis db.audit_log) in
      let r =
        insert-free row db
          (rw (total.follows_prev (head_hash genesis db.audit_log) (next_seq db.audit_log)) free) in
      record {
        value = r.value;
        final = r.final;
        runs = built others db ∙ ap (insert_audit row) alone ∙ r.runs;
      }

  -- one more attempt before
  done :
      (others : ℕ → Db → Db) (left i : ℕ) (db : Db)
      → Returns (attempt build (others i)) db
      → Returns (append_from build others (suc left) i) db
  unfolding append_from
  done others left i db r = record {
    value = r.value;
    final = r.final;
    runs = rw (append_from, r.runs) refl;
  }

  retried :
      (others : ℕ → Db → Db) (left i : ℕ) (db : Db)
      → 0 < left
      → attempt build (others i) db ≡ (err integrity_error, others i db)
      → Returns (append_from build others left (i + 1)) (others i db)
      → Returns (append_from build others (suc left) i) db
  unfolding append_from
  retried others left i db some_left e r =
      let more : (left == 0) ≡ false = ground arith in
      record { value = r.value; final = r.final; runs = rw (append_from, e, more) r.runs }

  append_from-Returns :
      (others : ℕ → Db → Db) (left n i : ℕ) (db : Db)
      → n < left
      → others (i + n) (before others n i db) ≡ before others n i db
      → IsFree (before others n i db)
      → Returns (append_from build others left i) db
  append_from-Returns others zero n i db lt alone free = absurd (omega arith)
  append_from-Returns others (suc left) zero i db lt alone free =
      done others left i db
        (attempt-Returns (others i) db (subst (λ k. others k db ≡ db) (omega arith) alone) free)
  append_from-Returns others (suc left) (suc n) i db lt alone free =
      elim (attempt-cases (others i) db) [
        | inl r ↦ done others left i db r
        | inr lost ↦ retried others left i db (omega arith) lost (
            append_from-Returns others left n (i + 1) (others i db) (omega arith)
              (subst
                (λ k.
                  others k (before others n (i + 1) (others i db))
                  ≡ before others n (i + 1) (others i db))
                (omega arith) alone)
              free)
      ]

  -- An append returns a number if one of its eight attempts runs undisturbed: the n-th, which starts
  -- in the state that the others' commits before it have left, where nothing is committed during it
  -- and no entry follows the head yet. Other attempts may be lost to other processes. Rows can be
  -- built for every head.
  pub append_audit-Returns :
      (others : ℕ → Db → Db) (n : ℕ) (db : Db)
      → n < max_retries
      → others n (before others n 0 db) ≡ before others n 0 db
      → IsFree (before others n 0 db)
      → Returns (append_audit build others) db
  unfolding append_audit
  append_audit-Returns others n db lt alone free =
      append_from-Returns others max_retries n 0 db lt
        (subst (λ k. others k (before others n 0 db) ≡ before others n 0 db) (omega arith) alone)
        free
