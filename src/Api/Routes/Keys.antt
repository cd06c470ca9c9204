-- ===== src/Api/Routes/Keys.antt =====
-- pqkms/app/api/routes.py: the routes that create, list and change keys.
use kmsqr.Base.{
  pos, Bool, Exec, List, Option, String, [], gets, http, lift, none, not, or_raise, page, pure,
  raise_if, some, true, ℕ, ◌&&◌, ◌>>=◌, ◌>>◌, ◌∷◌,
}
use kmsqr.Storage.KeyStore.Material.{ManagedKey}
use kmsqr.Storage.KeyStore.Material
use kmsqr.Storage.KeyStore.Lifecycle
use kmsqr.Storage.KeyStore.Rotation
use kmsqr.Api.Auth.{Request, is_admin}
use kmsqr.Api.Authz.{filter_visible_keys}
use kmsqr.Api.Routes.{
  Service, Site, Value, audit, catch, decoded, flag, in_namespace, null, number, on_key, pagination,
  rotate_status, safe_call, text, with_scope,
}

module _ (site : Site) where
  unfoldable pub create_key :
      Request → String → String → Option String → Option String → Exec Service ManagedKey
  create_key request name key_type description namespace =
      with_scope site "manage" request λ caller. in_namespace site caller namespace λ ns. do
        mk ←
            safe_call
              (Material.create_key site.primitives site.draw name key_type description (some ns))
        audit site caller "key.create" mk.id
            (("name", text mk.name) ∷ ("type", text mk.key_type) ∷ ("namespace_id", text ns) ∷ [])
        pure mk

  unfoldable pub import_key :
      Request → String → List ℕ → Option String → Option String → Exec Service ManagedKey
  import_key request name material_b64 description namespace =
      with_scope site "manage" request λ caller. in_namespace site caller namespace λ ns. do
        material ← lift (decoded material_b64)
        mk ←
            safe_call
              (Material.import_key site.primitives site.draw name material description (some ns))
        audit site caller "key.import" mk.id (
            ("name", text mk.name)
            ∷ ("type", text mk.key_type)
            ∷ ("namespace_id", text ns)
            ∷ ("origin", text "imported")
            ∷ [])
        pure mk

  unfoldable pub list_keys : Request → ℕ → ℕ → Exec Service (List ManagedKey)
  list_keys request limit offset = do
    page ← lift (pagination limit offset)
    with_scope site "read" request λ caller. gets λ s.
        filter_visible_keys site.mode caller (Material.list_keys page.0 page.1 s.store.db)
          s.store.db

  unfoldable pub get_key : Request → String → Exec Service ManagedKey
  get_key request key_id = with_scope site "read" request λ caller.
      on_key site caller "read" key_id do
        found ← gets (λ (s : Service). Material.get_key key_id s.store.db)
        or_raise found (http 404)

  unfoldable pub rotate : Request → String → Exec Service ManagedKey
  rotate request key_id = with_scope site "manage" request λ caller.
      on_key site caller "manage" key_id do
        mk ← catch rotate_status (Rotation.rotate site.primitives site.draw key_id)
        audit site caller "key.rotate" key_id (("new_version", number mk.current_version) ∷ [])
        pure mk

  unfoldable pub public_key : Request → String → Exec Service Lifecycle.PublicKey
  public_key request key_id =
      with_scope site "read" request
        λ caller. on_key site caller "read" key_id (safe_call (Lifecycle.export_public_key key_id))

  unfoldable pub disable_key : Request → String → Exec Service ManagedKey
  disable_key request key_id = with_scope site "manage" request λ caller.
      on_key site caller "manage" key_id do
        mk ← safe_call (Lifecycle.disable_key key_id)
        audit site caller "key.disable" key_id []
        pure mk

  unfoldable pub enable_key : Request → String → Exec Service ManagedKey
  enable_key request key_id = with_scope site "manage" request λ caller.
      on_key site caller "manage" key_id do
        mk ← safe_call (Lifecycle.enable_key key_id)
        audit site caller "key.enable" key_id []
        pure mk

  abbrev number_or_null : Option ℕ → Value
  number_or_null none = null
  number_or_null (some n) = number n

  unfoldable pub schedule_deletion : Request → String → ℕ → Exec Service ManagedKey
  schedule_deletion request key_id window_days = with_scope site "manage" request λ caller.
      on_key site caller "manage" key_id do
        mk ← safe_call (Lifecycle.schedule_deletion site.now key_id (pos window_days))
        audit site caller "key.schedule_deletion" key_id (
            ("window_days", number window_days)
            ∷ ("deletion_at", number_or_null mk.deletion_at)
            ∷ [])
        pure mk

  unfoldable pub cancel_deletion : Request → String → Exec Service ManagedKey
  cancel_deletion request key_id = with_scope site "manage" request λ caller.
      on_key site caller "manage" key_id do
        mk ← safe_call (Lifecycle.cancel_deletion key_id)
        audit site caller "key.cancel_deletion" key_id []
        pure mk

  unfoldable pub set_rotation_policy : Request → String → Option ℕ → Exec Service ManagedKey
  set_rotation_policy request key_id period_days = with_scope site "manage" request λ caller.
      on_key site caller "manage" key_id do
        mk ← safe_call (Lifecycle.set_policy key_id period_days)
        audit site caller "key.rotation_policy" key_id
            (("period_days", number_or_null period_days) ∷ [])
        pure mk

  unfoldable pub destroy_key : Request → String → Bool → Exec Service Bool
  destroy_key request key_id force = with_scope site "manage" request λ caller. do
    raise_if (force && not (is_admin caller)) (http 403)
    on_key site caller "manage" key_id do
      safe_call (Lifecycle.destroy site.now key_id force)
      audit site caller "key.destroy" key_id (("force", flag force) ∷ [])
      pure true
