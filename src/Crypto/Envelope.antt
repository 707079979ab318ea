-- ===== src/Crypto/Envelope.antt =====
-- crypto/envelope.py: the blob layout. AES-256-GCM is not under this repository: it is the section's
-- parameters, with the AAD as its text. The nonce that `encrypt` draws is an argument.
use suraksha_setu.Prelude.{
  ℕ, String, ◌≡◌, refl, Bool, false, not, Option, none, some, List, [], ◌∷◌, ◌++◌, ◌==◌, ◌+◌,
  length, take, drop, if◌then◌else◌,
}

abbrev pub Octets : Type 0
Octets = List ℕ

abbrev pub version : ℕ
version = 1

abbrev pub nonce_bytes : ℕ
nonce_bytes = 12

pub data Opened : Type 0 where
  plaintext : Octets → Opened
  unknown_version invalid_tag : Opened

abbrev pub opened : Option Octets → Opened
opened none = invalid_tag
opened (some p) = plaintext p

-- `blob[:1] != VERSION`, where an empty blob is not the version either.
abbrev pub has_version : Octets → Bool
has_version [] = false
has_version (b ∷ rest) = b == version

take-append : (xs ys : Octets) → take (length xs) (xs ++ ys) ≡ xs
take-append [] ys = refl
take-append (x ∷ xs) ys = rw (take-append xs ys)

drop-append : (xs ys : Octets) → drop (length xs) (xs ++ ys) ≡ ys
drop-append [] ys = refl
drop-append (x ∷ xs) ys = drop-append xs ys

module _ (seal : Octets → Octets → Octets → String → Octets)
    (unseal : Octets → Octets → Octets → String → Option Octets) where
  unfoldable pub encrypt : Octets → Octets → Octets → String → Octets
  encrypt dek nonce text aad = version ∷ nonce ++ seal dek nonce text aad

  unfoldable pub decrypt : Octets → Octets → String → Opened
  decrypt dek blob aad =
      if not (has_version blob)
      then unknown_version
      else opened (unseal dek (take nonce_bytes (drop 1 blob)) (drop (1 + nonce_bytes) blob) aad)

  module _
      (unseal-seal : (dek nonce text : Octets) (aad : String)
        → unseal dek nonce (seal dek nonce text aad) aad ≡ some text) where
    -- What is encrypted under a key and an AAD is decrypted under them, for every nonce of 12 bytes,
    -- provided that AES-GCM opens what it sealed.
    pub decrypt-encrypt :
        (dek nonce text : Octets) (aad : String)
        → length nonce ≡ nonce_bytes
        → decrypt dek (encrypt dek nonce text aad) aad ≡ plaintext text
    unfolding decrypt encrypt
    decrypt-encrypt dek nonce text aad h =
        let sealed = seal dek nonce text aad in
        let head : take 12 (nonce ++ sealed) ≡ nonce = rw h at (take-append nonce sealed) in
        let rest : drop 12 (nonce ++ sealed) ≡ sealed = rw h at (drop-append nonce sealed) in
        rw (head, rest, unseal-seal dek nonce text aad) refl
