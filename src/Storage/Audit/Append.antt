-- ===== src/Storage/Audit/Append.antt =====
-- What an append does to a log that verifies.
use kmsqr.Base.{
  Bytes, List, Option, Result, String, [], any_row, ap, false, insert_row, none, ok, refl, true, ℕ,
  ◌++◌, ◌∷◌, ◌≡◌,
}
use kmsqr.Crypto.Primitives.{Primitives, SignatureLaws}
use kmsqr.Crypto.Signatures
use kmsqr.Crypto.Signatures.Laws.{verify-sign}
use kmsqr.Storage.Schema.{AuditRow, Db}
use kmsqr.Storage.Repository.Log.{
  Build, append_audit, append_from, attempt, follows, genesis, head_hash, insert_audit, next_seq,
}
use kmsqr.Storage.Audit.{LogState, SigningKey, append, build_row, emitted, payload, verify_chain}
use kmsqr.Storage.Audit.Intact.{IsEntry, IsIntact, payload_of, verify_chain-IsIntact}

-- no other appender is at work
abbrev pub alone : ℕ → Db → Db
alone i db = db

-- the key pair that load_or_create_audit_signing_key draws
abbrev pub drawn_key : Primitives → Bytes → Bytes → SigningKey
drawn_key p seed pq_seed =
    let kp = Signatures.generate p seed pq_seed in
    record { private = kp.private_key; public = kp.public_key; suite = kp.suite }

attempt-inserts :
    (build : Build) (row : ℕ → AuditRow) (db : Db)
    → build (head_hash genesis db.audit_log) ≡ ok row
    → any_row (follows (row (next_seq db.audit_log)).prev_hash) db.audit_log ≡ false
    → attempt build (alone 0) db ≡ (
      ok (next_seq db.audit_log),
      record db { audit_log = db.audit_log ++ row (next_seq db.audit_log) ∷ [] },
    )
unfolding attempt insert_audit
attempt-inserts build row db e f = rw (attempt, e, insert_audit, f) refl

-- the first attempt of a lone append, on a slot that is free
append_audit-alone :
    (build : Build) (row : ℕ → AuditRow) (db : Db)
    → build (head_hash genesis db.audit_log) ≡ ok row
    → any_row (follows (row (next_seq db.audit_log)).prev_hash) db.audit_log ≡ false
    → append_audit build alone db ≡ (
      ok (next_seq db.audit_log),
      record db { audit_log = db.audit_log ++ row (next_seq db.audit_log) ∷ [] },
    )
unfolding append_audit append_from
append_audit-alone build row db e f =
    rw (append_audit, append_from, attempt-inserts build row db e f) refl

module _ (p : Primitives) where
  build_row-signed :
      (key : SigningKey) (ts actor action : String) (target : Option String) (detail : String)
      (prev sig : Bytes)
      → Signatures.sign p key.private
          (p.sha384 (prev ++ payload ts actor action target detail))
          key.suite
        ≡ ok sig
      → build_row p key ts actor action target detail prev
        ≡ ok (λ seq. record {
          seq = seq;
          ts = ts;
          actor = actor;
          action = action;
          target = target;
          detail = detail;
          prev_hash = prev;
          entry_hash = p.sha384 (prev ++ payload ts actor action target detail);
          signature = sig;
        })
  unfolding build_row
  build_row-signed key ts actor action target detail prev sig e = rw (build_row, e) refl

module _ (p : Primitives) (laws : SignatureLaws p) where
  IsIntact-insert :
      (key : SigningKey) (prev : Bytes) (log : List AuditRow) (r : AuditRow)
      → IsIntact p key prev log
      → IsEntry p key (head_hash prev log) r
      → IsIntact p key prev (insert_row r log)
  IsIntact-insert key prev [] r h e = (e, tt)
  IsIntact-insert key prev (x ∷ xs) r h e = (h.0, IsIntact-insert key x.entry_hash xs r h.1 e)

  -- A lone append to a log that verifies, whose head no entry follows yet, under a key pair that was
  -- drawn with liboqs as present or absent as it is now: it returns the next sequence number at the
  -- first attempt, adds one entry with the given fields at the end and changes no other entry, and
  -- the log verifies afterwards, whatever the external sink does.
  pub verify_chain-append :
      (seed pq_seed : Bytes) (emit : AuditRow → List AuditRow → Result (List AuditRow))
      (ts actor action : String) (target : Option String) (detail : String) (s : LogState)
      → verify_chain p (drawn_key p seed pq_seed) s.db ≡ ok (true, none)
      → any_row (follows (head_hash genesis s.db.audit_log)) s.db.audit_log ≡ false
      → (r : AuditRow) × (t : LogState) × (append p
            (drawn_key p seed pq_seed)
            emit
            alone
            ts
            actor
            action
            target
            detail
            s
          ≡ (ok (next_seq s.db.audit_log), t))
        × (t.db ≡ record s.db { audit_log = s.db.audit_log ++ r ∷ [] })
        × (payload_of r ≡ payload ts actor action target detail)
        × (verify_chain p (drawn_key p seed pq_seed) t.db ≡ ok (true, none))
  unfolding append
  verify_chain-append seed pq_seed emit ts actor action target detail s good free =
      let key = drawn_key p seed pq_seed in
      let prev = head_hash genesis s.db.audit_log in
      let h = p.sha384 (prev ++ payload ts actor action target detail) in
      let (sig, signs, verifies) = verify-sign p laws seed pq_seed h in
      let r : AuditRow = record {
        seq = next_seq s.db.audit_log;
        ts = ts;
        actor = actor;
        action = action;
        target = target;
        detail = detail;
        prev_hash = prev;
        entry_hash = h;
        signature = sig;
      } in
      let entry : IsEntry p key prev r = record {
        linked = refl;
        hashed = refl;
        signed = verifies;
      } in
      let db' : Db = record s.db { audit_log = s.db.audit_log ++ r ∷ [] } in
      let committed =
        append_audit-alone (build_row p key ts actor action target detail) _ s.db
          (build_row-signed p key ts actor action target detail prev sig signs) free in
      let intact =
        IsIntact-insert key genesis s.db.audit_log r ((verify_chain-IsIntact p key s.db).0 good)
          entry in
      (
        r,
        record { db = db'; sink = emitted p emit (record s { db = db' }) },
        rw (append, committed, ap (λ q. q.1) committed) refl,
        refl,
        refl,
        (verify_chain-IsIntact p key db').1 intact,
      )
