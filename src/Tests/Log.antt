-- ===== src/Tests/Log.antt =====
-- The audit log on the toy primitives.
use kmsqr.Base.{
  Bytes, List, Result, [], ap, append-nil, arith, bytes_eq, encode, err, insert_row, map, none, ok,
  refl, replicate, runtime_error, some, suc, sym, true, zero, ℕ, ◌++◌, ◌↔◌, ◌∷◌, ◌≡◌, ◌⊎◌,
}
use kmsqr.Encoding.Struct.{unpack_u16, unpack_u32}
use kmsqr.Crypto.Signatures
use kmsqr.Storage.Schema.{AuditRow, Db, empty_db}
use kmsqr.Storage.Repository.Log.{Build, append_audit, genesis}
use kmsqr.Storage.Repository.Log.Linked.{IsAppending, IsBuild, IsLinked, append_audit-IsLinked}
use kmsqr.Storage.Audit.{LogState, SigningKey, append, payload, verify_chain, walk}
use kmsqr.Storage.Audit.Intact.{IsIntact, payload_of, verify_chain-IsIntact}
use kmsqr.Storage.Audit.Tamper.{Collision, verify_chain-same_text}
use kmsqr.Storage.Audit.Append.{alone, drawn_key, verify_chain-append}
use kmsqr.Storage.Repository.Log.Live.{IsTotal, Returns, append_audit-Returns}
use kmsqr.Tests.Toy.{toy, toy_signatures}

abbrev key : SigningKey
key = drawn_key toy [] []

abbrev empty_log : LogState
empty_log = record { db = empty_db; sink = [] }

abbrev no_sink : AuditRow → List AuditRow → Result (List AuditRow)
no_sink r rs = err runtime_error

verify_chain-append_example :
    (r : AuditRow) × (t : LogState) × (append toy key no_sink alone "t" "root" "key.create"
        (some "k")
        "{}"
        empty_log
      ≡ (ok 1, t))
    × (t.db ≡ record empty_db { audit_log = r ∷ [] })
    × (payload_of r ≡ payload "t" "root" "key.create" (some "k") "{}")
    × (verify_chain toy key t.db ≡ ok (true, none))
unfolding verify_chain walk
verify_chain-append_example =
    verify_chain-append toy toy_signatures [] [] no_sink "t" "root" "key.create" (some "k") "{}"
      empty_log refl refl

abbrev row_at : Bytes → ℕ → AuditRow
row_at prev n = record {
  seq = n;
  ts = "t";
  actor = "root";
  action = "key.create";
  target = none;
  detail = "{}";
  prev_hash = prev;
  entry_hash = replicate 48 1;
  signature = [];
}

-- another process appends an entry first
abbrev rival : ℕ → Db → Db
rival i db = elim db.audit_log [
  | [] ↦ record db { audit_log = row_at genesis 1 ∷ [] }
  | r ∷ rs ↦ db
]

rival_appends : IsAppending (rival 0)
rival_appends = record { added = added; appends = appends; stays_linked = stays }
  where
    added : Db → List AuditRow
    added db = elim db.audit_log [ [] ↦ row_at genesis 1 ∷ [] | r ∷ rs ↦ [] ]

    appends : (db : Db) → (rival 0 db).audit_log ≡ db.audit_log ++ added db
    appends db = by_log db.audit_log refl
      where
        by_log :
            (log : List AuditRow)
            → db.audit_log ≡ log
            → (rival 0 db).audit_log ≡ db.audit_log ++ added db
        by_log [] e = rw e refl
        by_log (r ∷ rs) e = rw e (sym (append-nil (r ∷ rs)))

    stays : (db : Db) → IsLinked genesis db.audit_log → IsLinked genesis (rival 0 db).audit_log
    stays db h = by_log db.audit_log refl h
      where
        by_log :
            (log : List AuditRow)
            → db.audit_log ≡ log
            → IsLinked genesis log
            → IsLinked genesis (rival 0 db).audit_log
        by_log [] e h = rw e (refl, tt)
        by_log (r ∷ rs) e h = rw e h

row_at-IsBuild : IsBuild (λ prev. ok (row_at prev))
row_at-IsBuild prev row e n = ap (λ r. elim r [ ok f ↦ (f n).prev_hash | err x ↦ prev ]) (sym e)

append_audit-IsLinked_example :
    IsLinked genesis (append_audit (λ prev. ok (row_at prev)) rival empty_db).1.audit_log
append_audit-IsLinked_example =
    append_audit-IsLinked (λ prev. ok (row_at prev)) row_at-IsBuild rival empty_db
      (λ j. rival_appends) tt

abbrev one_entry : Db
one_entry = record empty_db {
  audit_log =
      record (row_at genesis 1) {
        entry_hash = toy.sha384 (genesis ++ payload "t" "root" "key.create" none "{}");
        signature = 0 ∷ 2 ∷ 0 ∷ 0 ∷ 0 ∷ 64 ∷ (replicate 64 48 ++ replicate 5 48);
      }
      ∷ [];
}

verify_chain-same_text_example :
    (map payload_of one_entry.audit_log ≡ map payload_of one_entry.audit_log) ⊎ Collision toy
unfolding verify_chain walk bytes_eq Signatures.verify unpack_u16 unpack_u32 encode
    Signatures.generate
verify_chain-same_text_example =
    verify_chain-same_text toy (λ m. refl) key key one_entry one_entry refl refl refl refl

verify_chain-IsIntact_example :
    (verify_chain toy key one_entry ≡ ok (true, none))
    ↔ IsIntact toy key genesis one_entry.audit_log
verify_chain-IsIntact_example = verify_chain-IsIntact toy key one_entry

-- a row of no fields after a head, and a second appender that takes the first slot
abbrev plain_row : Bytes → ℕ → AuditRow
plain_row prev n = record {
  seq = n;
  ts = "";
  actor = "";
  action = "";
  target = none;
  detail = "";
  prev_hash = prev;
  entry_hash = n ∷ prev;
  signature = [];
}

abbrev plain_build : Build
plain_build prev = ok (plain_row prev)

plain-IsTotal : IsTotal plain_build
plain-IsTotal = record { row_of = plain_row; builds = λ prev. refl; follows_prev = λ prev n. refl }

abbrev intruder : ℕ → Db → Db
intruder zero db = record db { audit_log = insert_row (plain_row genesis 1) db.audit_log }
intruder (suc n) db = db

append_audit-Returns_example : Returns (append_audit plain_build intruder) empty_db
unfolding bytes_eq
append_audit-Returns_example =
    append_audit-Returns plain_build plain-IsTotal intruder 1 empty_db (omega arith) refl refl
