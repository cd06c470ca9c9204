-- ===== src/Storage/Schema.antt =====
-- pqkms/app/storage/schema.py: the tables as lists of rows, in insertion order. A timestamp column
-- is the number of seconds since the epoch that its ISO text stands for; the log's `ts`, which is
-- only hashed, stays a text. A key's lifecycle state is one of the three texts that the code writes.
use kmsqr.Base.{Bool, Bytes, List, Option, String, [], ℕ}

-- the values of managed_keys.state
pub data KeyState : Type 0 where
  enabled disabled pending_deletion : KeyState

-- the values of key_versions.state that the code writes
pub data VersionState : Type 0 where
  active rotated : VersionState

-- the values of managed_keys.origin
pub data Origin : Type 0 where
  generated imported : Origin

pub record PrincipalRow : Type 0 where
  pub id : String
  pub ptype : String
  pub display_name : String
  pub created_at : ℕ
  pub is_disabled : Bool

pub record MetaRow : Type 0 where
  pub k : String
  pub v : Bytes

pub record NamespaceRow : Type 0 where
  pub id : String
  pub name : String
  pub created_at : ℕ
  pub description : Option String

pub record GrantRow : Type 0 where
  pub id : String
  pub principal_id : String
  pub resource_type : String
  pub resource_id : String
  pub operations : String
  pub created_at : ℕ
  pub created_by : Option String

pub record KeyRow : Type 0 where
  pub id : String
  pub name : String
  pub key_type : String
  pub current_version : ℕ
  pub created_at : ℕ
  pub description : Option String
  pub namespace_id : Option String
  pub state : KeyState
  pub deletion_at : Option ℕ
  pub origin : Origin
  pub rotation_period_days : Option ℕ

pub record VersionRow : Type 0 where
  pub key_id : String
  pub version : ℕ
  pub suite : ℕ
  pub wrapped_secret : Bytes
  pub public_material : Option Bytes
  pub created_at : ℕ
  pub state : VersionState
  pub usage_count : ℕ

pub record AuditRow : Type 0 where
  pub seq : ℕ
  pub ts : String
  pub actor : String
  pub action : String
  pub target : Option String
  pub detail : String
  pub prev_hash : Bytes
  pub entry_hash : Bytes
  pub signature : Bytes

pub record TokenRow : Type 0 where
  pub id : String
  pub token_hash : Bytes
  pub name : String
  -- the text of the column
  pub scopes : List ℕ
  pub created_at : ℕ
  pub revoked : Bool
  pub expires_at : Option ℕ
  pub principal_id : Option String

pub record Db : Type 0 where
  pub kms_meta : List MetaRow
  pub managed_keys : List KeyRow
  pub key_versions : List VersionRow
  pub audit_log : List AuditRow
  pub api_tokens : List TokenRow
  pub principals : List PrincipalRow
  pub namespaces : List NamespaceRow
  pub grants : List GrantRow

abbrev pub empty_db : Db
empty_db = record {
  kms_meta = [];
  managed_keys = [];
  key_versions = [];
  audit_log = [];
  api_tokens = [];
  principals = [];
  namespaces = [];
  grants = [];
}
