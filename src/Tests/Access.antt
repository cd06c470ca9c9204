-- ===== src/Tests/Access.antt =====
-- A principal, its token and its grant.
use kmsqr.Base.{
  ap, str_eq, arith, true, if◌then◌else◌, Result, Bool, String, [], bytes_eq, codes, false,
  insert_row, none, refl, replicate, some, utf8, ◌∷◌, ◌≡◌, ◌≢◌,
}
use kmsqr.Storage.Schema.{
  Db, GrantRow, KeyRow, PrincipalRow, TokenRow, empty_db, enabled, generated,
}
use kmsqr.Storage.Repository.Keys.{get_key_namespace}
use kmsqr.Storage.Repository.Grants.{get_grants_for_principal}
use kmsqr.Storage.Repository.Tokens.{insert_token, find_active_tokens_by_id_prefix, join_principal}
use kmsqr.Api.Texts.{sorted, Text, encode_text, split, starts_with}
use kmsqr.Api.Auth.{
  TokenDraw, bound_principal, create_token, create_principal, Caller, authenticate, first_match,
  token_prefix,
}
use kmsqr.Api.Auth.Tokens.{IsLive, authenticate-IsLive}
use kmsqr.Api.Auth.Deleted.{unchanged, token_created, authenticate-delete_principal}
use kmsqr.Api.Auth.Bound.{owner}
use kmsqr.Api.Auth.Created.{authenticate-create_token}
use kmsqr.Storage.Repository.Principals.{insert_principal, delete_principal}
use kmsqr.Api.Authz.{allows, authorize_key_op, principal_ops}
use kmsqr.Api.Authz.Grants.{KeyGrant, authorize_key_op-KeyGrant}
use kmsqr.Tests.Toy.{toy}

abbrev pub raw_token : Text
raw_token = codes "pqkms_abc_xyz"

abbrev token_row : TokenRow
token_row = record {
  id = "abc-1";
  token_hash = replicate 48 13;
  name = "ci";
  scopes = codes "decrypt,read";
  created_at = 5;
  revoked = false;
  expires_at = some 1000;
  principal_id = some "p1";
}

abbrev grant_row : GrantRow
grant_row = record {
  id = "g";
  principal_id = "p1";
  resource_type = "namespace";
  resource_id = "ns";
  operations = "decrypt,read";
  created_at = 5;
  created_by = none;
}

abbrev key_row : KeyRow
key_row = record {
  id = "k";
  name = "payments";
  key_type = "aead";
  current_version = 1;
  created_at = 100;
  description = none;
  namespace_id = some "ns";
  state = enabled;
  deletion_at = none;
  origin = generated;
  rotation_period_days = none;
}

abbrev pub db : Db
db = record empty_db {
  managed_keys = key_row ∷ [];
  api_tokens = token_row ∷ [];
  principals =
      record {
        id = "p1";
        ptype = "service";
        display_name = "ci";
        created_at = 5;
        is_disabled = false;
      }
      ∷ [];
  grants = grant_row ∷ [];
}

abbrev pub caller : Caller
caller = record {
  principal_id = some "p1";
  display_name = some "ci";
  scopes = codes "decrypt" ∷ codes "read" ∷ [];
}

-- LIKE of a prefix without wildcards
abbrev pub like : Text → String → Bool
like prefix id = starts_with prefix (codes id)

authenticate-IsLive_example : IsLive toy 10 raw_token db caller
unfolding authenticate token_prefix find_active_tokens_by_id_prefix join_principal first_match
    encode_text utf8 bytes_eq split
authenticate-IsLive_example = authenticate-IsLive toy like 10 raw_token db caller refl

authorize_key_op-KeyGrant_example :
    (pid : String) × (caller.principal_id ≡ some pid) × KeyGrant pid "k" (codes "decrypt") db
unfolding authorize_key_op allows principal_ops get_grants_for_principal get_key_namespace bytes_eq
    split
authorize_key_op-KeyGrant_example =
    authorize_key_op-KeyGrant caller (codes "decrypt") "k" db refl refl

-- a second principal, and the tables after its deletion
abbrev other : PrincipalRow
other = record {
  id = "p2";
  ptype = "human";
  display_name = "ann";
  created_at = 6;
  is_disabled = false;
}

abbrev two_principals : Db
two_principals = record db { principals = insert_row other db.principals }

-- a token for a new principal
abbrev fresh : TokenDraw
fresh = record { principal_uuid = "p9"; token_uuid = "abc-2"; raw = codes "xyz"; now = 100 }

-- the tables after the deletion of the second principal, and after a token for a new one
abbrev one_principal : Db
one_principal = (delete_principal "p2" two_principals).1

abbrev with_token : Db
with_token = (create_token toy fresh "robot" (codes "read" ∷ []) (some 60) none one_principal).1

no_p2 : fresh.principal_uuid ≢ "p2"
no_p2 e = let h : false ≡ true = ap (λ x. str_eq x "p2") e in ground arith

authenticate-delete_principal_example : caller.principal_id ≢ some "p2"
unfolding delete_principal create_token bound_principal create_principal insert_principal
    insert_token authenticate token_prefix find_active_tokens_by_id_prefix join_principal
    first_match encode_text utf8 bytes_eq split sorted
authenticate-delete_principal_example =
    authenticate-delete_principal "p2" toy like 10 raw_token two_principals one_principal with_token
      caller refl (token_created fresh "robot" (codes "read" ∷ []) (some 60) none no_p2 unchanged)
      refl

abbrev created : Result (String × Text × String) × Db
created = create_token toy fresh "robot" (codes "read" ∷ codes "decrypt" ∷ []) (some 60) none db

authenticate-create_token_example :
    (r : PrincipalRow) × (owner fresh "robot" none db ≡ some r)
    × (authenticate toy like 159 (codes "pqkms_abc-2_xyz") created.1 ≡ (
        if r.is_disabled
        then none
        else some (record {
          principal_id = some "p9";
          display_name = some r.display_name;
          scopes = codes "decrypt" ∷ codes "read" ∷ [];
        })))
unfolding create_token bound_principal create_principal insert_principal insert_token encode_text
    utf8 bytes_eq sorted
authenticate-create_token_example =
    authenticate-create_token toy like 159 fresh "robot" (codes "read" ∷ codes "decrypt" ∷ [])
      (some 60) none db created.1 ("abc-2", codes "pqkms_abc-2_xyz", "p9") refl refl refl refl
      (refl, (refl, (refl, (refl, (refl, tt))))) refl (refl, tt)
