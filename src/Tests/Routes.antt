-- ===== src/Tests/Routes.antt =====
-- A request that decrypts, from its token to the plaintext.
use kmsqr.Base.{
  List, Result, [], ap, bytes_eq, codes, encode, none, ok, refl, some, utf8, ℕ, ◌∷◌, ◌≡◌,
}
use kmsqr.Encoding.Base64.{b64decode, b64encode}
use kmsqr.Encoding.Struct.{pack_u16, pack_u32, unpack_bi, unpack_u32, unpack_u8}
use kmsqr.Crypto.Suites.{classic_ed25519, suite_of}
use kmsqr.Crypto.Aead.{aead_decrypt}
use kmsqr.Crypto.Signatures
use kmsqr.Policy.{default_policy}
use kmsqr.Storage.Repository.Keys.{get_key_current, get_key_namespace, get_version}
use kmsqr.Storage.Repository.Grants.{get_grants_for_principal}
use kmsqr.Storage.Repository.Tokens.{find_active_tokens_by_id_prefix, join_principal}
use kmsqr.Storage.Repository.Log.{append_audit, append_from, attempt, insert_audit}
use kmsqr.Storage.KeyStore.Material.{found_key, get_key, require_unlocked, unwrap}
use kmsqr.Storage.KeyStore.Lifecycle.{require_enabled}
use kmsqr.Storage.KeyStore.Operations
use kmsqr.Storage.Audit.{append, build_row}
use kmsqr.Api.Texts.{encode_text, lstrip, split, strip}
use kmsqr.Api.Auth.{
  dep, Request, authenticate, first_match, require_scope, resolve_caller, token_prefix,
}
use kmsqr.Api.Authz.{allows, authorize_key_op, principal_ops, strict}
use kmsqr.Api.Routes.Uses.{decrypt}
use kmsqr.Api.Routes.{Service, Site, actor, audit, on_key, with_scope}
use kmsqr.Api.Routes.Access.{IsAuthorized, decrypt-IsAuthorized}
use kmsqr.Api.Routes.Accountable.{IsAccounted}
use kmsqr.Api.Routes.Served.{Served-IsAccounted, text_decrypted}
use kmsqr.Tests.Toy.{toy}
use kmsqr.Tests.Access.{db, like, raw_token}
use kmsqr.Tests.Store.{draw, sealed, secret, wrapped_row}

abbrev site : Site
site = record {
  primitives = toy;
  policy = default_policy;
  mode = strict;
  audit_key = record { private = []; public = []; suite = classic_ed25519 };
  emit = λ r rs. ok (r ∷ rs);
  others = λ i db. db;
  dumps = λ d. "{}";
  join_sorted = λ s. "";
  sessions = none;
  like = like;
  now = 10;
  ts = "t";
  draw = draw;
  token_draw = record { principal_uuid = "p9"; token_uuid = "tok-9"; raw = codes "r"; now = 10 };
}

abbrev request : Request
request = record { bearer = some raw_token; cookie = none }

abbrev service : Service
service = record {
  store = record { db = record db { key_versions = wrapped_row ∷ [] }; root_kek = some secret };
  sink = [];
}

abbrev answer : Result (List ℕ) × Service
answer = decrypt site request "k" sealed.ciphertext none service

decrypts : answer.0 ≡ ok (b64encode (104 ∷ 105 ∷ []))
unfolding decrypt with_scope dep require_scope resolve_caller authenticate token_prefix strip lstrip
    first_match find_active_tokens_by_id_prefix join_principal encode_text utf8 bytes_eq split
    on_key authorize_key_op allows principal_ops get_grants_for_principal get_key_namespace
    Operations.decrypt require_enabled found_key get_key get_key_current b64decode b64encode
    unpack_bi unpack_u8 unpack_u32 Operations.load_version get_version unwrap require_unlocked
    aead_decrypt suite_of audit append append_audit append_from attempt insert_audit build_row
    Signatures.sign encode actor pack_u16 pack_u32
decrypts = refl

decrypt-IsAuthorized_example : IsAuthorized site request "decrypt" "decrypt" "k" service.store.db
decrypt-IsAuthorized_example =
    decrypt-IsAuthorized site request "k" service answer.1 sealed.ciphertext none
      (b64encode (104 ∷ 105 ∷ [])) (ap (λ r. (r, answer.1)) decrypts)

-- the same request's entry in the log
Served-IsAccounted_example : IsAccounted site request "decrypt" "key.decrypt" "k" service answer.1
Served-IsAccounted_example =
    Served-IsAccounted site request service answer.1 "decrypt" "key.decrypt" "k" (
      text_decrypted "k" sealed.ciphertext none (b64encode (104 ∷ 105 ∷ []))
        (ap (λ r. (r, answer.1)) decrypts))
