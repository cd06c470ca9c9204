-- ===== src/Storage/Audit/Intact.antt =====
-- What verify_chain establishes of the log.
use kmsqr.Base.{
  Bytes, List, [], arith, bytes_eq, bytes_eq_refl, eq_of_bytes_eq, none, ok, refl, some, sym, true,
  ◌++◌, ◌↔◌, ◌∷◌, ◌≡◌,
}
use kmsqr.Crypto.Primitives.{Primitives}
use kmsqr.Crypto.Signatures
use kmsqr.Storage.Schema.{AuditRow, Db}
use kmsqr.Storage.Repository.Log.{genesis}
use kmsqr.Storage.Audit.{SigningKey, entry_hash_of, payload, verify_chain, walk}

abbrev pub payload_of : AuditRow → Bytes
payload_of r = payload r.ts r.actor r.action r.target r.detail

module _ (p : Primitives) where
  -- an entry after the hash `prev`: linked, hashed and signed
  pub record IsEntry (key : SigningKey) (prev : Bytes) (r : AuditRow) : Type 0 where
    pub linked : r.prev_hash ≡ prev
    pub hashed : r.entry_hash ≡ p.sha384 (prev ++ payload_of r)
    pub signed : Signatures.verify p key.public r.entry_hash r.signature (some key.suite) ≡ ok true

  abbrev pub IsIntact : SigningKey → Bytes → List AuditRow → Type 0
  IsIntact key prev [] = Unit
  IsIntact key prev (r ∷ rs) = IsEntry key prev r × IsIntact key r.entry_hash rs

  walk-IsIntact :
      (key : SigningKey) (prev : Bytes) (log : List AuditRow)
      → walk p key prev log ≡ ok (true, none)
      → IsIntact key prev log
  unfolding walk
  walk-IsIntact key prev [] h = tt
  walk-IsIntact key prev (r ∷ rs) h =
      let a : bytes_eq r.prev_hash prev ≡ true = ground arith in
      let b : bytes_eq (entry_hash_of p prev r) r.entry_hash ≡ true = ground arith in
      let c : Signatures.verify p key.public (entry_hash_of p prev r) r.signature (some key.suite)
          ≡ ok true =
        ground arith in
      let e = eq_of_bytes_eq (entry_hash_of p prev r) r.entry_hash b in
      let rest : walk p key (entry_hash_of p prev r) rs ≡ ok (true, none) = ground arith in
      (
        record { linked = eq_of_bytes_eq r.prev_hash prev a; hashed = sym e; signed = rw e at c },
        walk-IsIntact key r.entry_hash rs (rw e at rest),
      )

  IsIntact-walk :
      (key : SigningKey) (prev : Bytes) (log : List AuditRow)
      → IsIntact key prev log
      → walk p key prev log ≡ ok (true, none)
  unfolding walk
  IsIntact-walk key prev [] h = refl
  IsIntact-walk key prev (r ∷ rs) h =
      let a : bytes_eq r.prev_hash prev ≡ true = rw h.0.linked (bytes_eq_refl prev) in
      let b : bytes_eq (entry_hash_of p prev r) r.entry_hash ≡ true =
        rw h.0.hashed (bytes_eq_refl _) in
      let c : Signatures.verify p key.public (entry_hash_of p prev r) r.signature (some key.suite)
          ≡ ok true =
        rw (sym h.0.hashed) h.0.signed in
      let rest : walk p key (entry_hash_of p prev r) rs ≡ ok (true, none) =
        rw (sym h.0.hashed) (IsIntact-walk key r.entry_hash rs h.1) in
      rw (a, b, c) rest

  -- verify_chain accepts exactly the logs in which every entry, from the first on, names the hash of
  -- the entry before it (32 zeros for the first), carries the SHA-384 of that hash and its own
  -- fields, and has a signature of that hash that verifies under the log's key and suite.
  pub verify_chain-IsIntact :
      (key : SigningKey) (db : Db)
      → (verify_chain p key db ≡ ok (true, none)) ↔ IsIntact key genesis db.audit_log
  unfolding verify_chain
  verify_chain-IsIntact key db =
      (walk-IsIntact key genesis db.audit_log, IsIntact-walk key genesis db.audit_log)
