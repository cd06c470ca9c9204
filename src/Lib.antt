-- ===== src/Lib.antt =====
-- A model of the key management service of this repository (pqkms/app): the key store and its
-- tables, the audit log, the hybrid cryptography under them, and the authentication and
-- authorization of callers.
--
-- Parts
--   Base        shared tests, lists, tables as lists of rows, actions that may raise, invariants
--   Encoding    struct.pack and base64 in the formats that the code uses
--   Crypto      pqkms/app/crypto: suites.py, aead.py, signatures.py, kem.py
--   Storage     Schema: pqkms/app/storage/schema.py
--               Repository: pqkms/app/storage/repository.py, one action for each method
--               KeyStore: pqkms/app/storage/keystore.py; Bootstrap (initialize, unlock, rewrap),
--               Material (creation, wrapping), Lifecycle, Rotation, Operations; Keeps, Reach,
--               Budget, Counted, Spent, Stored, Stored.Everywhere, Decrypt, Gate, Life, Sealed,
--               Unlock, Rewrap and Legacy hold proofs
--               Audit: pqkms/app/storage/audit.py; Keypair and Packing make the log's key pair;
--               Intact, Append, Tamper and SameKey hold proofs
--   Custody     pqkms/app/custody: base.py (Envelope, over Json), passphrase.py and the Argon2id part of
--               pqkms/app/crypto/kdf.py (Passphrase), factory.py (Factory)
--   Cli         pqkms/app/cli/rekey.py (Rekey)
--   Policy      pqkms/app/policy.py
--   Api         Auth: pqkms/app/api/auth.py; its Tokens, Bound, Created, Gone and Deleted
--               hold proofs; Authz: pqkms/app/api/authz.py;
--               Routes: pqkms/app/api/routes.py, the frame of the routes; its Keys creates, lists
--               and changes keys, its Uses encrypts, signs and the like, its Admin is for
--               namespaces, grants, principals, tokens and the log; Access, Accountable, Served
--               and Recorded hold proofs
--               Sessions: pqkms/app/api/sessions.py; Issued and Forged hold proofs; its text
--               encoding is Encoding.Base64.Urlsafe. Oidc: pqkms/app/api/oidc.py, the
--               configuration and the scopes of a login; Scopes holds proofs
--   Tests       runs and examples on small primitives
--
-- How the parts interact. A method of the repository is an action on the tables (Exec Db); a method
-- of the key store is an action on the tables and the root key (Exec KeyStore) that runs actions of
-- the repository by on_db, the primitives through Crypto, and the budget through Policy. A step of
-- Storage.KeyStore.Reach is one call of a method on keys, with any arguments, whether it returns or
-- raises; Storage.KeyStore.Stored.Everywhere adds unlock, initialize and rewrap_root_kek. The audit log runs the repository's append, whose attempts interleave with those of other
-- processes: the argument `others` is what these commit between the read and the insert of an attempt,
-- and likewise between the test and the insertion of initialize and of the log's key pair. A custodian
-- is a record of its methods (Custody.Envelope) with the laws that the key store relies on; the
-- passphrase custodian fills it.
--
-- What is a parameter. AES-GCM, HKDF, Argon2id, SHA-384, Ed25519, X25519, ML-DSA and ML-KEM are a record
-- (Crypto.Primitives), with their documented laws as records beside it; the pseudo-random draws, the
-- clock and identifiers of a call are arguments. json.dumps and json.loads, HMAC, int and set, the
-- database's LIKE and the joined text of a set in an entry's actor and in a grant's operations are
-- arguments.
--
-- Bounds. append_audit makes 8 attempts, as the code does. decimal takes the number itself plus one as
-- the bound on its digits. Numbers are natural numbers; struct.pack refuses what does not fit its
-- field. Timestamps are seconds; the source compares them as ISO texts of one zone. A deletion time
-- after the year 9999, for which the source raises OverflowError, is a time like any other here; the
-- route admits no window of more than 365 days.
--
-- What is not modelled: Shamir sharing and the custodians of clouds and HSMs, the rate limits and the
-- validation of request bodies, the exchange with an OIDC provider, the other commands, metrics and logs, the
-- database engine and its migrations.
pub mod Base
pub mod Encoding
pub mod Crypto
pub mod Custody
pub mod Storage
pub mod Policy
pub mod Api
pub mod Cli
pub mod Tests
