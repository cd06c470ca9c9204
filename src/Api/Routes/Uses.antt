-- ===== src/Api/Routes/Uses.antt =====
-- pqkms/app/api/routes.py: the routes that use a key.
use kmsqr.Base.{Bool, Exec, List, Option, String, [], length, lift, pure, ℕ, ◌>>=◌, ◌>>◌, ◌∷◌}
use kmsqr.Encoding.Base64.{b64encode}
use kmsqr.Storage.KeyStore.Operations
use kmsqr.Api.Auth.{Request}
use kmsqr.Api.Routes.{
  Service, Site, audit, catch, decoded, decoded_optional, encrypt_status, number, on_key, safe_call,
  status_of, with_scope,
}

module _ (site : Site) where
  unfoldable pub encrypt :
      Request → String → List ℕ → Option (List ℕ) → Exec Service Operations.Ciphertext
  encrypt request key_id plaintext_b64 aad_b64 = with_scope site "encrypt" request λ caller.
      on_key site caller "encrypt" key_id do
        pt ← lift (decoded plaintext_b64)
        aad ← lift (decoded_optional aad_b64)
        out ←
            catch encrypt_status
              (Operations.encrypt site.primitives site.policy site.draw key_id pt aad)
        audit site caller "key.encrypt" key_id (("bytes", number (length pt)) ∷ [])
        pure out

  unfoldable pub decrypt : Request → String → List ℕ → Option (List ℕ) → Exec Service (List ℕ)
  decrypt request key_id ciphertext_b64 aad_b64 = with_scope site "decrypt" request λ caller.
      on_key site caller "decrypt" key_id do
        aad ← lift (decoded_optional aad_b64)
        pt ← catch status_of (Operations.decrypt site.primitives key_id ciphertext_b64 aad)
        audit site caller "key.decrypt" key_id (("bytes", number (length pt)) ∷ [])
        pure (b64encode pt)

  unfoldable pub sign : Request → String → List ℕ → Exec Service Operations.Signature
  sign request key_id message_b64 = with_scope site "sign" request λ caller.
      on_key site caller "sign" key_id do
        message ← lift (decoded message_b64)
        out ← safe_call (Operations.sign site.primitives key_id message)
        audit site caller "key.sign" key_id []
        pure out

  unfoldable pub verify : Request → String → List ℕ → List ℕ → Option ℕ → Exec Service Bool
  verify request key_id message_b64 signature_b64 version =
      with_scope site "verify" request λ caller. on_key site caller "verify" key_id do
        message ← lift (decoded message_b64)
        safe_call (Operations.verify site.primitives key_id message signature_b64 version)

  unfoldable pub wrap : Request → String → List ℕ → Exec Service Operations.WrappedKey
  wrap request key_id data_key_b64 = with_scope site "encrypt" request λ caller.
      on_key site caller "encrypt" key_id do
        data_key ← lift (decoded data_key_b64)
        out ← safe_call (Operations.wrap_data_key site.primitives site.draw key_id data_key)
        audit site caller "key.wrap" key_id []
        pure out

  unfoldable pub unwrap : Request → String → List ℕ → List ℕ → Option ℕ → Exec Service (List ℕ)
  unwrap request key_id encapsulation_b64 wrapped_b64 version =
      with_scope site "decrypt" request λ caller. on_key site caller "decrypt" key_id do
        dk ← catch status_of (
            Operations.unwrap_data_key site.primitives key_id encapsulation_b64 wrapped_b64 version)
        audit site caller "key.unwrap" key_id []
        pure (b64encode dk)
