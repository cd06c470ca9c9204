-- ===== src/Cli/Rekey.antt =====
-- pqkms/app/cli/rekey.py. The passphrases and the minimal length are what the environment gives.
pub mod Works
use kmsqr.Base.{
  Bool, Error, Exec, Result, String, codes, err, gets, if◌then◌else◌, length, lift, ltb, none, not,
  ok, pure, some, str_eq, value_error, ℕ, ◌&&◌, ◌>>=◌, ◌>>◌, ◌||◌,
}
use kmsqr.Crypto.Primitives.{Primitives}
use kmsqr.Custody.Json.{JsonModule}
use kmsqr.Custody.Envelope.{CustodyDraw}
use kmsqr.Custody.Passphrase.{passphrase_custodian}
use kmsqr.Custody.Factory.{Environment, make_custodian}
use kmsqr.Storage.KeyStore.Material.{KeyStore}
use kmsqr.Storage.KeyStore.Bootstrap.{is_initialized, rewrap_root_kek, unlock}
use kmsqr.Storage.KeyStore.Sealed.{locked}

pub record RekeyRequest : Type 0 where
  pub current : String
  pub new : String
  pub min_len : ℕ

-- a second KeyStore over the same repository
abbrev pub on_second : {A : Type 0} → Exec KeyStore A → Exec KeyStore A
on_second m s = let (r, s') = m (locked s) in (r, record s { db = s'.db })

abbrev pub wrong_code : Error → Result ℕ
wrong_code value_error = ok 1
wrong_code e = err e

-- `except ValueError: return 1`
abbrev pub or_wrong : Exec KeyStore (Unit {0}) → Exec KeyStore ℕ → Exec KeyStore ℕ
or_wrong attempt rest s =
    let (r, s') = attempt s in elim r [ ok done ↦ rest s' | err e ↦ (wrong_code e, s') ]

-- the tests of the two passphrases
abbrev pub is_usable : RekeyRequest → Bool
is_usable r =
    not (str_eq r.current "" || str_eq r.new "")
    && not (ltb (length (codes r.new)) r.min_len)
    && not (str_eq r.new r.current)

module _ (p : Primitives) (j : JsonModule) where
  -- from rewrap_root_kek on
  unfoldable pub reseal : String → CustodyDraw → Exec KeyStore ℕ
  reseal new d = do
    fresh ← lift (passphrase_custodian p new none)
    rewrap_root_kek p j fresh d
    verifier ← lift (passphrase_custodian p new none)
    on_second (unlock p j (some verifier) none)
    pure 0

  unfoldable pub rekey : Environment → RekeyRequest → CustodyDraw → Exec KeyStore ℕ
  unfolding reseal
  rekey env request d = if not (is_usable request) then pure 2 else do
    c ← lift (make_custodian p env (some request.current))
    known ← gets (λ (s : KeyStore). is_initialized s.db)
    if known then or_wrong (unlock p j (some c) none) (reseal request.new d) else pure 2
