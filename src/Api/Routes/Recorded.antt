-- ===== src/Api/Routes/Recorded.antt =====
-- The entry that a handler leaves in the log.
use kmsqr.Base.{
  Bytes, IsIn, List, Option, Result, String, ap, arith, err, ok, refl, some, sym, ℕ, ◌++◌, ◌≡◌,
}
use kmsqr.Crypto.Signatures
use kmsqr.Storage.Schema.{AuditRow, Db}
use kmsqr.Storage.Repository.Log.{append_audit}
use kmsqr.Storage.Repository.Log.Last.{IsAppended, append_audit-IsAppended}
use kmsqr.Storage.Audit.{LogState, append, build_row, payload}
use kmsqr.Api.Auth.{Caller}
use kmsqr.Api.Routes.{Service, Site, Value, actor, audit}

-- an entry of a caller, for an action on a target
pub record IsRecorded (site : Site) (caller : Caller) (action target : String) (db : Db)
    : Type 0 where
  pub row : AuditRow
  pub is_in : IsIn row db.audit_log
  pub by_caller : row.actor ≡ actor site caller
  pub of_action : row.action ≡ action
  pub on_target : row.target ≡ some target

module _ (site : Site) where
  built-IsRecorded :
      (caller : Caller) (action target detail : String) (seq : ℕ) (db : Db)
      → IsAppended
          (build_row site.primitives site.audit_key site.ts
            (actor site caller)
            action
            (some target)
            detail)
          seq
          db
      → IsRecorded site caller action target db
  unfolding build_row
  built-IsRecorded caller action target detail seq db h =
      by_signature
        (Signatures.sign site.primitives site.audit_key.private
          (site.primitives.sha384
            (h.prev ++ payload site.ts (actor site caller) action (some target) detail))
          site.audit_key.suite)
        refl
    where
      by_signature :
          (r : Result Bytes)
          → Signatures.sign site.primitives site.audit_key.private
              (site.primitives.sha384
                (h.prev ++ payload site.ts (actor site caller) action (some target) detail))
              site.audit_key.suite
            ≡ r
          → IsRecorded site caller action target db
      by_signature (err x) e = absurd (refused (rw (build_row, e) at h.builds))
        where
          refused : ◌≡◌ {A = Result (ℕ → AuditRow)} (err x) (ok h.row) → ⊥
          refused q = ground arith
      by_signature (ok sig) e =
          let same = inner (rw (build_row, e) at h.builds) in
          record {
            row = h.row seq;
            is_in = h.is_in;
            by_caller = ap (λ (f : ℕ → AuditRow). (f seq).actor) (sym same);
            of_action = ap (λ (f : ℕ → AuditRow). (f seq).action) (sym same);
            on_target = ap (λ (f : ℕ → AuditRow). (f seq).target) (sym same);
          }
        where
          inner : {x y : ℕ → AuditRow} → ok x ≡ ok y → x ≡ y
          inner q = cc

  appended :
      (ts who action : String) (target : Option String) (detail : String) (seq : ℕ) (s t : LogState)
      → append site.primitives site.audit_key site.emit site.others ts who action target detail s
        ≡ (ok seq, t)
      → append_audit
          (build_row site.primitives site.audit_key ts who action target detail)
          site.others
          s.db
        ≡ (ok seq, t.db)
  unfolding append
  appended ts who action target detail seq s t h = ground arith

  pub audit-IsRecorded :
      (caller : Caller) (action target : String) (detail : List (String × Value)) (seq : ℕ)
      (s t : Service)
      → audit site caller action target detail s ≡ (ok seq, t)
      → IsRecorded site caller action target t.store.db
  unfolding audit
  audit-IsRecorded caller action target detail seq s t h =
      let log : LogState = record { db = s.store.db; sink = s.sink } in
      let t' : LogState = record { db = t.store.db; sink = t.sink } in
      let run : append site.primitives site.audit_key site.emit site.others site.ts
            (actor site caller) action (some target) (site.dumps detail) log
          ≡ (ok seq, t') =
        ap (λ (q : Result ℕ × Service). (q.0, record { db = q.1.store.db; sink = q.1.sink })) h in
      built-IsRecorded caller action target (site.dumps detail) seq t.store.db (
        append_audit-IsAppended _ site.others s.store.db t.store.db seq (
          appended site.ts (actor site caller) action (some target) (site.dumps detail) seq log t'
            run))
