-- ===== src/Tests/Sessions.antt =====
-- A session and a login's transaction.
use kmsqr.Base.{
  List, Result, [], arith, bytes_eq, codes, err, length, none, ok, refl, replicate, some,
  type_error, ℕ, ◌%◌, ◌∷◌, ◌≡◌,
}
use kmsqr.Api.Texts.{Text, sorted}
use kmsqr.Api.Sessions.{SessionClaims, Python, SessionManager, issue, sign_tx, verify, verify_tx}
use kmsqr.Api.Sessions.Issued.{PythonLaws, verify-issue, verify_tx-sign_tx}
use kmsqr.Api.Sessions.Forged.{IsGenuine, verify-IsGenuine}
use kmsqr.Custody.Json.{Fields, Json, end, field, is_sorted, is_sorted_dict, number, str, strs}
use kmsqr.Tests.Codec.{json, json-JsonLaws, write, write_fields, write_strs}

abbrev int_of : Json → Result ℕ
int_of (number n) = ok n
int_of _ = err type_error

abbrev set_of : Json → Result (List Text)
set_of (strs ts) = ok ts
set_of _ = err type_error

-- a MAC that tells the key's and the message's length
abbrev pub py : Python
py = record {
  hmac_sha256 = λ key m. length key % 256 ∷ length m % 256 ∷ [];
  sha256 = λ m. replicate 32 (length m % 256);
  json = json;
  int = int_of;
  set = set_of;
}

py-PythonLaws : PythonLaws py
py-PythonLaws = record {
  hmac-IsBytes = λ key m. (omega arith, (omega arith, tt));
  json_laws = json-JsonLaws;
  int-number = λ n. refl;
  set-strs = λ ts. refl;
}

abbrev manager : SessionManager
manager = record { secret = 1 ∷ 2 ∷ 3 ∷ []; ttl_seconds = 60 }

verify-issue_example :
    verify py manager
      (issue py manager (codes "p1") (codes "sign" ∷ codes "read" ∷ []) (codes "ann") 100)
      159
    ≡ ok (
        some (record {
          principal_id = str (codes "p1");
          scopes = codes "read" ∷ codes "sign" ∷ [];
          sub = str (codes "ann");
        }))
unfolding sorted write write_fields write_strs
verify-issue_example =
    verify-issue py py-PythonLaws manager (codes "p1") (codes "sign" ∷ codes "read" ∷ [])
      (codes "ann") 100 159 (omega arith)

abbrev tx : Fields
tx = field (codes "nonce") (str (codes "n")) (field (codes "state") (str (codes "s")) end)

verify_tx-sign_tx_example : verify_tx py manager (sign_tx py manager tx 5) 605 ≡ ok none
unfolding is_sorted is_sorted_dict write write_fields bytes_eq
verify_tx-sign_tx_example = verify_tx-sign_tx py py-PythonLaws manager tx 5 605 refl (omega arith)

-- a session that was issued and is not over
abbrev cookie : Text
cookie = issue py manager (codes "p1") (codes "read" ∷ []) (codes "ann") 100

abbrev claims : SessionClaims
claims = record {
  principal_id = str (codes "p1");
  scopes = codes "read" ∷ [];
  sub = str (codes "ann");
}

verify-cookie : verify py manager cookie 159 ≡ ok (some claims)
unfolding sorted write write_fields write_strs
verify-cookie =
    verify-issue py py-PythonLaws manager (codes "p1") (codes "read" ∷ []) (codes "ann") 100 159
      (omega arith)

verify-IsGenuine_example : IsGenuine py manager 159 cookie claims
verify-IsGenuine_example = verify-IsGenuine py manager cookie 159 claims verify-cookie
