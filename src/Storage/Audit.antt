-- ===== src/Storage/Audit.antt =====
-- pqkms/app/storage/audit.py: the hash chain of signed entries. `detail` is the text that
-- json.dumps gives, and `ts` the clock's.
pub mod Intact
pub mod Tamper
pub mod Append
pub mod Packing
pub mod Keypair
pub mod SameKey
use kmsqr.Base.{
  Bool, Bytes, Exec, List, Option, Result, String, [], bytes_eq, encode, err, false, if◌then◌else◌,
  none, not, ok, some, true, ℕ, ◌++◌, ◌∷◌,
}
use kmsqr.Crypto.Primitives.{Primitives}
use kmsqr.Crypto.Suites.{Suite}
use kmsqr.Crypto.Signatures
use kmsqr.Storage.Schema.{AuditRow, Db}
use kmsqr.Storage.Repository.Log.{Build, append_audit, genesis, iter_audit_asc}

-- the log's key pair and suite
pub record SigningKey : Type 0 where
  pub private : Bytes
  pub public : Bytes
  pub suite : Suite

-- `target or ''`
abbrev pub target_text : Option String → Bytes
target_text none = []
target_text (some t) = encode t

-- f"{ts}|{actor}|{action}|{target or ''}|{detail}".encode()
abbrev pub payload : String → String → String → Option String → String → Bytes
payload ts actor action target detail =
    encode ts
    ++ (b'|'
        ∷ (encode actor
            ++ (b'|' ∷ (encode action ++ (b'|' ∷ (target_text target ++ (b'|' ∷ encode detail)))))))

-- the state of the log: the database, and the external sink
pub record LogState : Type 0 where
  pub db : Db
  pub sink : List AuditRow

module _ (p : Primitives) where
  abbrev pub entry_hash_of : Bytes → AuditRow → Bytes
  entry_hash_of prev r = p.sha384 (prev ++ payload r.ts r.actor r.action r.target r.detail)

  -- the row that `build` makes for a head
  unfoldable pub build_row : SigningKey → String → String → String → Option String → String → Build
  build_row key ts actor action target detail prev =
      let h = p.sha384 (prev ++ payload ts actor action target detail) in
      elim (Signatures.sign p key.private h key.suite) [
        | err e ↦ err e
        | ok signature ↦ ok (λ seq. record {
          seq = seq;
          ts = ts;
          actor = actor;
          action = action;
          target = target;
          detail = detail;
          prev_hash = prev;
          entry_hash = h;
          signature = signature;
        })
      ]

  -- the last row, which is the one that committed
  abbrev last_row : AuditRow → List AuditRow → AuditRow
  last_row r [] = r
  last_row r (x ∷ xs) = last_row x xs

  -- `emit` is the sink; an exception of it is logged and dropped
  unfoldable emitted :
      (AuditRow → List AuditRow → Result (List AuditRow)) → LogState → List AuditRow
  emitted emit s = elim s.db.audit_log [
    | [] ↦ s.sink
    | r ∷ rs ↦ elim (emit (last_row r rs) s.sink) [ ok sink' ↦ sink' | err e ↦ s.sink ]
  ]

  -- AuditLog.append
  unfoldable pub append :
      SigningKey
      → (AuditRow → List AuditRow → Result (List AuditRow))
      → (ℕ → Db → Db)
      → String
      → String
      → String
      → Option String
      → String
      → Exec LogState ℕ
  unfolding emitted
  append key emit others ts actor action target detail s =
      let q = append_audit (build_row key ts actor action target detail) others s.db in
      let committed : LogState = record s { db = q.1 } in
      elim q.0 [
        | err e ↦ (err e, committed)
        | ok seq ↦ (ok seq, record committed { sink = emitted emit committed })
      ]

  unfoldable pub walk : SigningKey → Bytes → List AuditRow → Result (Bool × Option ℕ)
  walk key prev [] = ok (true, none)
  walk key prev (r ∷ rs) =
      let rest = walk key (entry_hash_of prev r) rs in
      if not (bytes_eq r.prev_hash prev)
      then ok (false, some r.seq)
      else if not (bytes_eq (entry_hash_of prev r) r.entry_hash)
      then ok (false, some r.seq)
      else elim (Signatures.verify p key.public (entry_hash_of prev r) r.signature
          (some key.suite)) [
            | err e ↦ err e
            | ok good ↦ if not good then ok (false, some r.seq) else rest
          ]

  -- AuditLog.verify_chain
  unfoldable pub verify_chain : SigningKey → Db → Result (Bool × Option ℕ)
  verify_chain key db = walk key genesis (iter_audit_asc db)
