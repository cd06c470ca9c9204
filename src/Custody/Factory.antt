-- ===== src/Custody/Factory.antt =====
-- pqkms/app/custody/factory.py: the custodian that the environment selects.
use kmsqr.Base.{Option, Result, String, err, if◌then◌else◌, none, runtime_error, some, str_eq}
use kmsqr.Crypto.Primitives.{Primitives}
use kmsqr.Custody.Envelope.{Custodian}
use kmsqr.Custody.Passphrase.{passphrase_custodian}

-- PQKMS_CUSTODY_BACKEND, stripped and in lower case, and what the constructors of the custodians
-- other than the passphrase one give
pub record Environment : Type 0 where
  pub backend : String
  pub shamir : Result Custodian
  pub awskms : Result Custodian
  pub gcpkms : Result Custodian
  pub pkcs11 : Result Custodian

unfoldable pub make_custodian : Primitives → Environment → Option String → Result Custodian
make_custodian p env passphrase =
    if str_eq env.backend "passphrase"
    then (elim passphrase [ none ↦ err runtime_error | some t ↦ passphrase_custodian p t none ])
    else if str_eq env.backend "shamir"
    then env.shamir
    else if str_eq env.backend "awskms"
    then env.awskms
    else if str_eq env.backend "gcpkms"
    then env.gcpkms
    else if str_eq env.backend "pkcs11"
    then env.pkcs11
    else err runtime_error
