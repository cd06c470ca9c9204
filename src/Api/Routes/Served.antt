-- ===== src/Api/Routes/Served.antt =====
-- The requests that change something or use a secret, and their entries in the log.
use kmsqr.Base.{Bool, List, Option, String, ok, ℕ, ◌≡◌}
use kmsqr.Storage.KeyStore.Material.{ManagedKey}
use kmsqr.Storage.KeyStore.Operations.{Ciphertext, Signature, WrappedKey}
use kmsqr.Api.Texts.{Text}
use kmsqr.Api.Auth.{Request}
use kmsqr.Api.Routes.{Service, Site}
use kmsqr.Api.Routes.Keys
use kmsqr.Api.Routes.Uses
use kmsqr.Api.Routes.Admin
use kmsqr.Api.Routes.Admin.{
  GrantRequest, TokenRequest, create_grant, create_namespace, create_principal, create_token,
  delete_grant, delete_principal, revoke_token,
}
use kmsqr.Api.Routes.Accountable.{IsAccounted, accounted, records_rules}

module _ (site : Site) (request : Request) where
  -- a request that returned: its scope, action and target
  pub data Served (s t : Service) : String → String → String → Type 0 where
    key_created :
        (name key_type : String) (description namespace : Option String) (mk : ManagedKey)
        → Keys.create_key site request name key_type description namespace s ≡ (ok mk, t)
        → Served s t "manage" "key.create" mk.id
    key_imported :
        (name : String) (material : List ℕ) (description namespace : Option String)
        (mk : ManagedKey)
        → Keys.import_key site request name material description namespace s ≡ (ok mk, t)
        → Served s t "manage" "key.import" mk.id
    key_rotated :
        (k : String) (mk : ManagedKey)
        → Keys.rotate site request k s ≡ (ok mk, t)
        → Served s t "manage" "key.rotate" k
    key_disabled :
        (k : String) (mk : ManagedKey)
        → Keys.disable_key site request k s ≡ (ok mk, t)
        → Served s t "manage" "key.disable" k
    key_enabled :
        (k : String) (mk : ManagedKey)
        → Keys.enable_key site request k s ≡ (ok mk, t)
        → Served s t "manage" "key.enable" k
    deletion_scheduled :
        (k : String) (days : ℕ) (mk : ManagedKey)
        → Keys.schedule_deletion site request k days s ≡ (ok mk, t)
        → Served s t "manage" "key.schedule_deletion" k
    deletion_cancelled :
        (k : String) (mk : ManagedKey)
        → Keys.cancel_deletion site request k s ≡ (ok mk, t)
        → Served s t "manage" "key.cancel_deletion" k
    policy_set :
        (k : String) (days : Option ℕ) (mk : ManagedKey)
        → Keys.set_rotation_policy site request k days s ≡ (ok mk, t)
        → Served s t "manage" "key.rotation_policy" k
    key_destroyed :
        (k : String) (force b : Bool)
        → Keys.destroy_key site request k force s ≡ (ok b, t)
        → Served s t "manage" "key.destroy" k
    text_encrypted :
        (k : String) (m : List ℕ) (aad : Option (List ℕ)) (c : Ciphertext)
        → Uses.encrypt site request k m aad s ≡ (ok c, t)
        → Served s t "encrypt" "key.encrypt" k
    text_decrypted :
        (k : String) (c : List ℕ) (aad : Option (List ℕ)) (m : List ℕ)
        → Uses.decrypt site request k c aad s ≡ (ok m, t)
        → Served s t "decrypt" "key.decrypt" k
    message_signed :
        (k : String) (m : List ℕ) (sig : Signature)
        → Uses.sign site request k m s ≡ (ok sig, t)
        → Served s t "sign" "key.sign" k
    data_key_wrapped :
        (k : String) (m : List ℕ) (w : WrappedKey)
        → Uses.wrap site request k m s ≡ (ok w, t)
        → Served s t "encrypt" "key.wrap" k
    data_key_unwrapped :
        (k : String) (e w : List ℕ) (v : Option ℕ) (m : List ℕ)
        → Uses.unwrap site request k e w v s ≡ (ok m, t)
        → Served s t "decrypt" "key.unwrap" k
    namespace_created :
        (name : String) (description : Option String) (id : String)
        → Admin.create_namespace site request name description s ≡ (ok id, t)
        → Served s t "admin" "namespace.create" id
    grant_created :
        (req : GrantRequest) (q : String × List Text)
        → Admin.create_grant site request req s ≡ (ok q, t)
        → Served s t "admin" "grant.create" q.0
    grant_deleted :
        (id : String) (b : Bool)
        → Admin.delete_grant site request id s ≡ (ok b, t)
        → Served s t "admin" "grant.delete" id
    principal_created :
        (name ptype id : String)
        → Admin.create_principal site request name ptype s ≡ (ok id, t)
        → Served s t "admin" "principal.create" id
    principal_deleted :
        (id : String) (b : Bool)
        → Admin.delete_principal site request id s ≡ (ok b, t)
        → Served s t "admin" "principal.delete" id
    token_created :
        (req : TokenRequest) (q : String × Text × String)
        → Admin.create_token site request req s ≡ (ok q, t)
        → Served s t "admin" "token.create" q.0
    token_revoked :
        (id : String) (b : Bool)
        → Admin.revoke_token site request id s ≡ (ok b, t)
        → Served s t "admin" "token.revoke" id

  -- Whatever request on keys, namespaces, grants, principals or tokens changed something, or used a
  -- key's secret, and returned: its caller had passed the test of the route's scope, and the log
  -- has an entry that names that caller, the action and the target. So it is whatever other
  -- processes append meanwhile, and whatever the external sink does.
  pub Served-IsAccounted :
      (s t : Service) (scope action target : String)
      → Served s t scope action target
      → IsAccounted site request scope action target s t
  unfolding Keys.create_key Keys.import_key Keys.rotate Keys.disable_key Keys.enable_key
      Keys.schedule_deletion Keys.cancel_deletion Keys.set_rotation_policy Keys.destroy_key
      Uses.encrypt Uses.decrypt Uses.sign Uses.wrap Uses.unwrap Admin.create_namespace
      Admin.create_grant Admin.delete_grant Admin.create_principal Admin.delete_principal
      Admin.create_token Admin.revoke_token
  Served-IsAccounted s t scope action target
        (key_created name key_type description namespace mk h) =
      accounted site request "manage" "key.create" (λ mk. mk.id) _ s t mk
        (λ c. search records_rules depth 12) h
  Served-IsAccounted s t scope action target
        (key_imported name material description namespace mk h) =
      accounted site request "manage" "key.import" (λ mk. mk.id) _ s t mk
        (λ c. search records_rules depth 12) h
  Served-IsAccounted s t scope action target (key_rotated k mk h) =
      accounted site request "manage" "key.rotate" (λ _. k) _ s t mk
        (λ c. search records_rules depth 12) h
  Served-IsAccounted s t scope action target (key_disabled k mk h) =
      accounted site request "manage" "key.disable" (λ _. k) _ s t mk
        (λ c. search records_rules depth 12) h
  Served-IsAccounted s t scope action target (key_enabled k mk h) =
      accounted site request "manage" "key.enable" (λ _. k) _ s t mk
        (λ c. search records_rules depth 12) h
  Served-IsAccounted s t scope action target (deletion_scheduled k days mk h) =
      accounted site request "manage" "key.schedule_deletion" (λ _. k) _ s t mk
        (λ c. search records_rules depth 12) h
  Served-IsAccounted s t scope action target (deletion_cancelled k mk h) =
      accounted site request "manage" "key.cancel_deletion" (λ _. k) _ s t mk
        (λ c. search records_rules depth 12) h
  Served-IsAccounted s t scope action target (policy_set k days mk h) =
      accounted site request "manage" "key.rotation_policy" (λ _. k) _ s t mk
        (λ c. search records_rules depth 12) h
  Served-IsAccounted s t scope action target (key_destroyed k force b h) =
      accounted site request "manage" "key.destroy" (λ _. k) _ s t b
        (λ c. search records_rules depth 12) h
  Served-IsAccounted s t scope action target (text_encrypted k m aad c h) =
      accounted site request "encrypt" "key.encrypt" (λ _. k) _ s t c
        (λ c. search records_rules depth 12) h
  Served-IsAccounted s t scope action target (text_decrypted k c aad m h) =
      accounted site request "decrypt" "key.decrypt" (λ _. k) _ s t m
        (λ c. search records_rules depth 12) h
  Served-IsAccounted s t scope action target (message_signed k m sig h) =
      accounted site request "sign" "key.sign" (λ _. k) _ s t sig
        (λ c. search records_rules depth 12) h
  Served-IsAccounted s t scope action target (data_key_wrapped k m w h) =
      accounted site request "encrypt" "key.wrap" (λ _. k) _ s t w
        (λ c. search records_rules depth 12) h
  Served-IsAccounted s t scope action target (data_key_unwrapped k e w v m h) =
      accounted site request "decrypt" "key.unwrap" (λ _. k) _ s t m
        (λ c. search records_rules depth 12) h
  Served-IsAccounted s t scope action target (namespace_created name description id h) =
      accounted site request "admin" "namespace.create" (λ id. id) _ s t id
        (λ c. search records_rules depth 12) h
  Served-IsAccounted s t scope action target (grant_created req q h) =
      accounted site request "admin" "grant.create" (λ q. q.0) _ s t q
        (λ c. search records_rules depth 12) h
  Served-IsAccounted s t scope action target (grant_deleted id b h) =
      accounted site request "admin" "grant.delete" (λ _. id) _ s t b
        (λ c. search records_rules depth 12) h
  Served-IsAccounted s t scope action target (principal_created name ptype id h) =
      accounted site request "admin" "principal.create" (λ id. id) _ s t id
        (λ c. search records_rules depth 12) h
  Served-IsAccounted s t scope action target (principal_deleted id b h) =
      accounted site request "admin" "principal.delete" (λ _. id) _ s t b
        (λ c. search records_rules depth 12) h
  Served-IsAccounted s t scope action target (token_created req q h) =
      accounted site request "admin" "token.create" (λ q. q.0) _ s t q
        (λ c. search records_rules depth 12) h
  Served-IsAccounted s t scope action target (token_revoked id b h) =
      accounted site request "admin" "token.revoke" (λ _. id) _ s t b
        (λ c. search records_rules depth 12) h
