-- ===== src/Storage/Audit/Tamper.antt =====
-- What an edit of the log amounts to.
use kmsqr.Base.{
  Bool-cases, Bytes, List, [], ap, arith, bytes_eq, bytes_eq_refl, drop, drop-append,
  eq_of_bytes_eq, false, inl, inr, length, map, none, ok, refl, sym, take, take-append, true, ◌++◌,
  ◌∙◌, ◌∷◌, ◌≡◌, ◌≢◌, ◌⊎◌,
}
use kmsqr.Crypto.Primitives.{Primitives}
use kmsqr.Storage.Schema.{AuditRow, Db}
use kmsqr.Storage.Repository.Log.{genesis, head_hash}
use kmsqr.Storage.Audit.{SigningKey, verify_chain}
use kmsqr.Storage.Audit.Intact.{IsIntact, payload_of, verify_chain-IsIntact}

module _ (p : Primitives) where
  -- two inputs with one hash
  pub record Collision : Type 0 where
    pub left : Bytes
    pub right : Bytes
    pub differ : left ≢ right
    pub collide : p.sha384 left ≡ p.sha384 right

  split_prefix :
      (a a' b b' : Bytes) → length a ≡ length a' → a ++ b ≡ a' ++ b' → (a ≡ a') × (b ≡ b')
  split_prefix a a' b b' n e = (
    sym (take-append (length a) a b refl)
        ∙ ap (take (length a)) e
        ∙ take-append (length a) a' b' (sym n),
    sym (drop-append (length a) a b refl)
        ∙ ap (drop (length a)) e
        ∙ drop-append (length a) a' b' (sym n),
  )

  -- one hash, for two inputs whose first parts are equally long
  one_hash :
      (a a' b b' : Bytes)
      → length a ≡ length a'
      → p.sha384 (a ++ b) ≡ p.sha384 (a' ++ b')
      → ((a ≡ a') × (b ≡ b')) ⊎ Collision
  one_hash a a' b b' n e = elim (Bool-cases (bytes_eq (a ++ b) (a' ++ b'))) [
    | inl hit ↦ inl (split_prefix a a' b b' n (eq_of_bytes_eq (a ++ b) (a' ++ b') hit))
    | inr miss ↦ inr (record {
      left = a ++ b;
      right = a' ++ b';
      differ = λ q. absurd (apart (rw q at miss));
      collide = e;
    })
  ]
    where
      apart : bytes_eq (a' ++ b') (a' ++ b') ≡ false → ⊥
      apart h = let t = bytes_eq_refl (a' ++ b') in ground arith

  module _ (size : (m : Bytes) → length (p.sha384 m) ≡ 48) where
    from_heads :
        (key key' : SigningKey) (prev prev' : Bytes) (log log' : List AuditRow)
        → length prev ≡ length prev'
        → length log ≡ length log'
        → IsIntact p key prev log
        → IsIntact p key' prev' log'
        → head_hash prev log ≡ head_hash prev' log'
        → ((prev ≡ prev') × (map payload_of log ≡ map payload_of log')) ⊎ Collision
    from_heads key key' prev prev' [] [] n l h h' e = inl (e, refl)
    from_heads key key' prev prev' [] (y ∷ ys) n l h h' e = absurd (omega (arith, l))
    from_heads key key' prev prev' (x ∷ xs) [] n l h h' e = absurd (omega (arith, l))
    from_heads key key' prev prev' (x ∷ xs) (y ∷ ys) n l h h' e =
        let n' : length x.entry_hash ≡ length y.entry_hash =
          rw (h.0.hashed, h'.0.hashed, size (prev ++ payload_of x), size (prev' ++ payload_of y))
            refl in
        elim (from_heads key key' x.entry_hash y.entry_hash xs ys n' (omega (arith, l)) h.1 h'.1
          e) [
            | inr c ↦ inr c
            | inl same_rest ↦
                elim (one_hash prev prev' (payload_of x) (payload_of y) n
                  (sym h.0.hashed ∙ same_rest.0 ∙ h'.0.hashed)) [
                    | inr c ↦ inr c
                    | inl same ↦ inl (same.0, rw (same.1, same_rest.1) refl)
                  ]
          ]

    -- Tamper evidence: two logs that verify_chain accepts, of the same length and with the same last
    -- hash, have the same hashed text in every entry, or else a collision of SHA-384 is at hand. The
    -- hashed text joins an entry's fields by bars; hashes are 48 bytes.
    pub verify_chain-same_text :
        (key key' : SigningKey) (db db' : Db)
        → verify_chain p key db ≡ ok (true, none)
        → verify_chain p key' db' ≡ ok (true, none)
        → length db.audit_log ≡ length db'.audit_log
        → head_hash genesis db.audit_log ≡ head_hash genesis db'.audit_log
        → (map payload_of db.audit_log ≡ map payload_of db'.audit_log) ⊎ Collision
    verify_chain-same_text key key' db db' h h' l e =
        elim (from_heads key key' genesis genesis db.audit_log db'.audit_log refl l
          ((verify_chain-IsIntact p key db).0 h) ((verify_chain-IsIntact p key' db').0 h') e) [
            | inl same ↦ inl same.1
            | inr c ↦ inr c
          ]
