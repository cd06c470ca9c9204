-- ===== src/Storage/KeyStore/Reach.antt =====
-- The states that a key store reaches by its methods on keys, in any sequence; each may fail.
use kmsqr.Base.{ℤ, Bool, Bytes, List, Option, String, ℕ}
use kmsqr.Crypto.Primitives.{Primitives}
use kmsqr.Policy.{NonceBudgetPolicy}
use kmsqr.Storage.Schema.{Db}
use kmsqr.Storage.KeyStore.Material.{Draw, KeyStore, create_key, import_key}
use kmsqr.Storage.KeyStore.Lifecycle.{
  cancel_deletion, destroy, disable_key, enable_key, schedule_deletion, set_policy,
}
use kmsqr.Storage.KeyStore.Rotation.{rotate, rotate_due}
use kmsqr.Storage.KeyStore.Operations.{
  decrypt, encrypt, sign, unwrap_data_key, verify, wrap_data_key,
}
use kmsqr.Storage.KeyStore.Keeps.{
  IsKept, Within, cancel_deletion-Keeps, create_key-Keeps, decrypt-Keeps, destroy-Keeps,
  disable_key-Keeps, enable_key-Keeps, encrypt-Keeps, import_key-Keeps, rotate-Keeps,
  rotate_due-Keeps, schedule_deletion-Keeps, set_policy-Keeps, sign-Keeps, unwrap_data_key-Keeps,
  verify-Keeps, wrap_data_key-Keeps,
}

module _ (p : Primitives) (policy : NonceBudgetPolicy) where
  -- one call of a method on keys, all methods but unlock, initialize and rewrap_root_kek; keys are
  -- destroyed only as far as `Allowed` goes
  pub data Step (Allowed : String → Type 0) : KeyStore → KeyStore → Type 0 where
    create :
        (d : Draw) (name key_type : String) (description namespace_id : Option String)
        (s : KeyStore)
        → Step Allowed s (create_key p d name key_type description namespace_id s).1
    import :
        (d : Draw) (name : String) (material : Bytes) (description namespace_id : Option String)
        (s : KeyStore)
        → Step Allowed s (import_key p d name material description namespace_id s).1
    disable : (k : String) (s : KeyStore) → Step Allowed s (disable_key k s).1
    enable : (k : String) (s : KeyStore) → Step Allowed s (enable_key k s).1
    schedule :
        (now : ℕ) (k : String) (n : ℤ) (s : KeyStore)
        → Step Allowed s (schedule_deletion now k n s).1
    cancel : (k : String) (s : KeyStore) → Step Allowed s (cancel_deletion k s).1
    destroyed :
        (now : ℕ) (k : String) (force : Bool) (s : KeyStore)
        → Allowed k
        → Step Allowed s (destroy now k force s).1
    set_period : (k : String) (n : Option ℕ) (s : KeyStore) → Step Allowed s (set_policy k n s).1
    rotated_by_hand : (d : Draw) (k : String) (s : KeyStore) → Step Allowed s (rotate p d k s).1
    rotated_by_policy :
        (draws : ℕ → Draw) (now : ℕ) (s : KeyStore) → Step Allowed s (rotate_due p draws now s).1
    encrypted :
        (d : Draw) (k : String) (m aad : Bytes) (s : KeyStore)
        → Step Allowed s (encrypt p policy d k m aad s).1
    decrypted :
        (k : String) (c : List ℕ) (aad : Bytes) (s : KeyStore)
        → Step Allowed s (decrypt p k c aad s).1
    signed : (k : String) (m : Bytes) (s : KeyStore) → Step Allowed s (sign p k m s).1
    verified :
        (k : String) (m : Bytes) (sig : List ℕ) (v : Option ℕ) (s : KeyStore)
        → Step Allowed s (verify p k m sig v s).1
    wrapped :
        (d : Draw) (k : String) (m : Bytes) (s : KeyStore)
        → Step Allowed s (wrap_data_key p d k m s).1
    unwrapped :
        (k : String) (e w : List ℕ) (v : Option ℕ) (s : KeyStore)
        → Step Allowed s (unwrap_data_key p k e w v s).1

  pub data Reach (Allowed : String → Type 0) (s : KeyStore) : KeyStore → Type 0 where
    here : Reach Allowed s s
    next : {t u : KeyStore} → Reach Allowed s t → Step Allowed t u → Reach Allowed s u

module _ (p : Primitives) {policy : NonceBudgetPolicy} {Allowed : String → Type 0} {Q : Db → Type 0}
    {root : Option Bytes} (kept : IsKept policy Allowed Q) where
  Step-Within : {s t : KeyStore} → Step p policy Allowed s t → Within Q root s → Within Q root t
  Step-Within (create d name key_type description namespace_id s) h =
      (create_key-Keeps p kept d name key_type description namespace_id).at s h
  Step-Within (import d name material description namespace_id s) h =
      (import_key-Keeps p kept d name material description namespace_id).at s h
  Step-Within (disable k s) h = (disable_key-Keeps p kept k).at s h
  Step-Within (enable k s) h = (enable_key-Keeps p kept k).at s h
  Step-Within (schedule now k n s) h = (schedule_deletion-Keeps p kept now k n).at s h
  Step-Within (cancel k s) h = (cancel_deletion-Keeps p kept k).at s h
  Step-Within (destroyed now k force s a) h = (destroy-Keeps p kept now k force a).at s h
  Step-Within (set_period k n s) h = (set_policy-Keeps p kept k n).at s h
  Step-Within (rotated_by_hand d k s) h = (rotate-Keeps p kept d k).at s h
  Step-Within (rotated_by_policy draws now s) h = (rotate_due-Keeps p kept draws now).at s h
  Step-Within (encrypted d k m aad s) h = (encrypt-Keeps p kept d k m aad).at s h
  Step-Within (decrypted k c aad s) h = (decrypt-Keeps p {P = Within Q root} k c aad).at s h
  Step-Within (signed k m s) h = (sign-Keeps p {P = Within Q root} k m).at s h
  Step-Within (verified k m sig v s) h = (verify-Keeps p {P = Within Q root} k m sig v).at s h
  Step-Within (wrapped d k m s) h = (wrap_data_key-Keeps p {P = Within Q root} d k m).at s h
  Step-Within (unwrapped k e w v s) h = (unwrap_data_key-Keeps p {P = Within Q root} k e w v).at s h

  -- What every write keeps holds in every state that is reached, and the root key stays.
  pub Reach-Within :
      {s t : KeyStore} → Reach p policy Allowed s t → Within Q root s → Within Q root t
  Reach-Within here h = h
  Reach-Within (next r st) h = Step-Within st (Reach-Within r h)

module _ {p : Primitives} {policy : NonceBudgetPolicy} {Allowed : String → Type 0} where
  pub Reach-after :
      {s t u : KeyStore}
      → Step p policy Allowed s t
      → Reach p policy Allowed t u
      → Reach p policy Allowed s u
  Reach-after st here = next here st
  Reach-after st (next r st') = next (Reach-after st r) st'
