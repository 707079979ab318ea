-- ===== src/Crypto/Tests.antt =====
-- The key service on concrete keys, and the theorems at inputs that meet their hypotheses. The toy
-- cipher leaves its text as it is.
use suraksha_setu.Prelude.{
  ℕ, String, ◌≡◌, ◌≤◌, ◌+◌, refl, Option, none, some, true, List, [], ◌∷◌, replicate, arith,
}
use suraksha_setu.Prelude.Dict.{lookup, insert}
use suraksha_setu.Crypto.Envelope.{Octets, encrypt, decrypt, plaintext, decrypt-encrypt}
use suraksha_setu.Crypto.Keys.{
  SubjectKey, KeyService, key_destroyed, done, destroy, dek, pop, dek_cache_ms,
}
use suraksha_setu.Crypto.Shredding.{
  Shredded, is_shredded, Call, destroy_call, create_call, serve_all, Shredded-forever,
}

abbrev toy_seal : Octets → Octets → Octets → String → Octets
toy_seal key nonce text aad = text

abbrev toy_unseal : Octets → Octets → Octets → String → Option Octets
toy_unseal key nonce sealed aad = some sealed

abbrev nonce : Octets
nonce = replicate 12 7

abbrev kek : Octets
kek = replicate 32 1

decrypt-encrypt_example :
    decrypt toy_seal toy_unseal kek (encrypt toy_seal toy_unseal kek nonce (4 ∷ 2 ∷ []) "a") "a"
    ≡ plaintext (4 ∷ 2 ∷ [])
decrypt-encrypt_example =
    decrypt-encrypt toy_seal toy_unseal (λ key n text aad. refl) kek nonce (4 ∷ 2 ∷ []) "a" refl

abbrev row : SubjectKey
row = record {
  subject_ref = 1;
  wrapped_dek = some (1 ∷ []);
  kek_id = "local";
  destroy_after = some 500;
  destroyed_at = none;
}

abbrev gone_row : SubjectKey
gone_row = record row { wrapped_dek = none; destroyed_at = some 900 }

abbrev service : KeyService
service = record { subject_key = ("k1", row) ∷ []; cache = ("k1", (9 ∷ [], 1000)) ∷ [] }

abbrev shredded : KeyService
shredded = record { subject_key = ("k1", gone_row) ∷ []; cache = [] }

abbrev stale : KeyService
stale = record { subject_key = ("k1", gone_row) ∷ []; cache = ("k1", (9 ∷ [], 1000)) ∷ [] }

destroys : destroy 900 "k1" service ≡ done shredded
unfolding destroy lookup pop insert
destroys = refl

shredded-Shredded : Shredded "k1" shredded
unfolding lookup
shredded-Shredded = (refl, refl)

abbrev calls : List (Call toy_seal toy_unseal kek "local")
calls = create_call "k1" 2 (3 ∷ []) nonce ∷ destroy_call 950 "k1" ∷ []

Shredded-forever_example :
    Shredded "k1" (serve_all toy_seal toy_unseal kek "local" calls shredded)
    × ((now later : ℕ) (new_dek n : Octets)
        → (dek toy_seal toy_unseal kek "local" now later "k1" new_dek n
            (serve_all toy_seal toy_unseal kek "local" calls shredded)).0
          ≡ key_destroyed)
Shredded-forever_example =
    Shredded-forever toy_seal toy_unseal kek "local" calls "k1" shredded shredded-Shredded

stale_fresh :
    (held : Octets) (expires : ℕ)
    → lookup "k1" stale.cache ≡ some (held, expires)
    → expires ≤ 0 + dek_cache_ms
unfolding lookup
stale_fresh held expires h = ground arith

stale_row : is_shredded (lookup "k1" stale.subject_key) ≡ true
unfolding lookup
stale_row = refl

unused : lookup "k2" service.subject_key ≡ none
unfolding lookup
unused = refl

uncached : lookup "k2" service.cache ≡ none
unfolding lookup
uncached = refl

has_row : lookup "k1" service.subject_key ≡ some row
unfolding lookup
has_row = refl
