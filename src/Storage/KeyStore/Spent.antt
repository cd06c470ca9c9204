-- ===== src/Storage/KeyStore/Spent.antt =====
-- How many ciphertexts a key version gives.
use kmsqr.Storage.KeyStore.Counted.{
  UsedOften, IsSpent, IsSpent-kept, IsSpent-reserve, find_row-holds,
}
use kmsqr.Base.{
  find_of_any, List, All, All-find, Bytes, String, [], any_row, ap, arith, ok, refl, some, subst,
  suc, sym, true, ℕ, ◌∙◌, ◌∷◌, ◌≡◌, ◌≤◌,
}
use kmsqr.Crypto.Primitives.{Primitives}
use kmsqr.Policy.{NonceBudgetPolicy, reserve}
use kmsqr.Storage.Schema.{VersionRow}
use kmsqr.Storage.Repository.Keys.{get_version, version_is}
use kmsqr.Storage.KeyStore.Material.{Draw, KeyStore}
use kmsqr.Storage.KeyStore.Operations.{Ciphertext, encrypt}
use kmsqr.Storage.KeyStore.Reach.{Reach, Reach-Within, Step, encrypted, here, next}
use kmsqr.Storage.KeyStore.Budget.{IsWithinBudget, Reach-IsWithinBudget}
use kmsqr.Storage.KeyStore.Stored.{OtherThan}
use kmsqr.Storage.KeyStore.Decrypt.{encrypt-Sealed}

module _ (k : String) (v : ℕ) where
  -- A sequence of calls in which encrypt returned n ciphertexts under the version; the other calls
  -- may be any, only the key is not destroyed.
  pub data Gives (p : Primitives) (policy : NonceBudgetPolicy) (s : KeyStore)
      : ℕ → KeyStore → Type 0 where
    nothing : Gives p policy s 0 s
    call :
        {n : ℕ} {t u : KeyStore}
        → Gives p policy s n t
        → Step p policy (OtherThan k) t u
        → Gives p policy s n u
    ciphertext :
        (n : ℕ) (t u : KeyStore) (d : Draw) (m aad : Bytes) (c : Ciphertext)
        → Gives p policy s n t
        → encrypt p policy d k m aad t ≡ (ok c, u)
        → c.version ≡ v
        → Gives p policy s (suc n) u

  module _ (p : Primitives) (policy : NonceBudgetPolicy) where
    encrypted-Step :
        (d : Draw) (m aad : Bytes) (c : Ciphertext) (t u : KeyStore)
        → encrypt p policy d k m aad t ≡ (ok c, u)
        → Step p policy (OtherThan k) t u
    encrypted-Step d m aad c t u e =
        subst (Step p policy (OtherThan k) t) (ap (λ q. q.1) e) (encrypted d k m aad t)

    Gives-Reach : (s t : KeyStore) (n : ℕ) → Gives p policy s n t → Reach p policy (OtherThan k) s t
    Gives-Reach s t n nothing = here
    Gives-Reach s t n (call g st) = next (Gives-Reach s _ _ g) st
    Gives-Reach s t n (ciphertext i w t' d m aad c g e same) =
        next (Gives-Reach s w i g) (encrypted-Step d m aad c w t' e)

    Step-IsSpent :
        (n : ℕ) (t u : KeyStore)
        → Step p policy (OtherThan k) t u
        → IsSpent k v n t.db
        → IsSpent k v n u.db
    Step-IsSpent n t u st h =
        (Reach-Within p (IsSpent-kept k v n policy) (next here st)
          (record { holds = h; same_root = refl })).holds

    -- each ciphertext under the version has been counted
    Gives-IsSpent :
        (s t : KeyStore) (n : ℕ) → Gives p policy s n t → IsSpent k v 0 s.db → IsSpent k v n t.db
    Gives-IsSpent s t n nothing h = h
    Gives-IsSpent s t n (call g st) h = Step-IsSpent n _ t st (Gives-IsSpent s _ _ g h)
    Gives-IsSpent s t n (ciphertext i w t' d m aad c g e same) h =
        let z = encrypt-Sealed p policy d k m aad w t' c e in
        let number : z.version ≡ v = sym z.names ∙ same in
        IsSpent-reserve k v policy i z.count w.db t'.db
          (subst (λ x. reserve policy k x w.db ≡ (ok z.count, t'.db)) number z.reserves)
          (Gives-IsSpent s w i g h)

    All-zero : (rs : List VersionRow) → All (UsedOften k v 0) rs
    All-zero [] = tt
    All-zero (r ∷ rs) = (λ _. omega arith, All-zero rs)

    -- A version of a key, in a key store within the nonce budget, gives no more ciphertexts than the
    -- hard limit of the policy: whatever methods on keys are called between, with whatever arguments
    -- and whether they return or raise, encrypt returns at most so many under the version, as long
    -- as the key is not destroyed. What it returned is counted in the version's row.
    pub Gives-IsWithinBudget :
        (s t : KeyStore) (n : ℕ)
        → IsWithinBudget policy.hard_limit s.db
        → any_row (version_is k v) s.db.key_versions ≡ true
        → Gives p policy s n t
        → (r : VersionRow) × (get_version k v t.db ≡ some r)
          × (n ≤ r.usage_count)
          × (r.usage_count ≤ policy.hard_limit)
    unfolding get_version
    Gives-IsWithinBudget s t n budget there g =
        let spent =
          Gives-IsSpent s t n g (record { there = there; often = All-zero s.db.key_versions }) in
        let (r, found) = find_of_any (version_is k v) t.db.key_versions spent.there in
        let hit = find_row-holds k v (version_is k v) t.db.key_versions r found in
        let used =
          All-find (UsedOften k v n) (version_is k v) t.db.key_versions r spent.often found hit in
        let fits =
          All-find (λ (x : VersionRow). x.usage_count ≤ policy.hard_limit) (version_is k v)
            t.db.key_versions r
            (Reach-IsWithinBudget policy (OtherThan k) p s t (Gives-Reach s t n g) budget) found in
        (r, found, used, fits)
