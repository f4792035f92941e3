-- ===== src/KeyStore/Tests.antt =====
-- The key store of internal/kms/local/local.go over a cipher that hides nothing and the memory backend.
use aegis_llm.Prelude.{
  ◌≡◌, refl, false, Option, none, some, [], ◌∷◌, ◌++◌, Bytes, codes, length, Map, lookup, str_eq,
  str_lt, ok, err, arith, if_elim, if◌then◌else◌, ok_injective, ◌≤◌, ◌+◌,
}
use mathlib.Core.Path.{subst}
use aegis_llm.KeyStore.Envelope.{
  Aead, IsAead, gcm_nonce_size, max_encrypted_key_blob_bytes, seal_v2_blob, open_legacy_blob,
}
use aegis_llm.KeyStore.Backend.{not_found, memory_backend, memory_backend-IsBackend}
use aegis_llm.KeyStore.Store.{KeyStore, get_key, store_key}
use aegis_llm.KeyStore.Opened.{store_key-get_key}
use aegis_llm.KeyStore.Migrate.{
  migrate_legacy, validate_sources, copy_sources, rewrite_sources, sort_ids,
}
use aegis_llm.KeyStore.Preserved.{HasRoom, migrate_legacy-get_key}

abbrev rest_of : Bytes → Option Bytes
rest_of [] = none
rest_of (c ∷ s) = some s

-- One byte stands for the tag.
abbrev plain : Aead
plain = record {
  seal = λ nonce plaintext aad. 0 ∷ plaintext;
  unseal = λ nonce sealed aad. rest_of sealed;
  overhead = 1;
}

plain-shrinks :
    (sealed plaintext : Bytes)
    → rest_of sealed ≡ some plaintext
    → length plaintext + 1 ≡ length sealed
plain-shrinks [] plaintext h = absurd cc
plain-shrinks (c ∷ s) plaintext h =
    let same : s ≡ plaintext = cc in subst (λ t. length t + 1 ≡ length (c ∷ s)) same (omega arith)

plain-IsAead : IsAead plain
plain-IsAead = record {
  opens = λ nonce plaintext aad. refl;
  grows = λ nonce plaintext aad. omega arith;
  shrinks = λ nonce sealed aad plaintext h. plain-shrinks sealed plaintext h;
}

abbrev store : KeyStore
store = record { minimum_envelope_version = 1; closed = false }

abbrev nonce : Bytes
nonce = codes "123456789012"

store_key-get_key_example :
    get_key plain memory_backend store
      (store_key plain memory_backend store (some nonce) [] (codes "openai") (codes "sk-1")).0
      (codes "openai")
    ≡ (if str_eq (codes "openai") (codes "openai")
        then ok (codes "sk-1")
        else get_key plain memory_backend store [] (codes "openai"))
unfolding memory_backend store_key
store_key-get_key_example =
    store_key-get_key plain plain-IsAead memory_backend store memory_backend-IsBackend [] nonce
      (codes "openai") (codes "sk-1") (codes "openai") refl refl

-- A key of the first format: the nonce and the sealed text.
abbrev legacy_keys : Map Bytes
legacy_keys = (codes "openai", nonce ++ (0 ∷ codes "sk-1")) ∷ []

-- After the migration the key is an envelope.
migrated_blob :
    memory_backend.get_blob
      (migrate_legacy plain
        (λ b. b)
        memory_backend
        memory_backend
        store
        (λ id. false)
        (λ id. some nonce)
        legacy_keys
        []).source
      (codes "openai")
    ≡ ok (codes "AEGISKEY" ++ (2 ∷ 12 ∷ (nonce ++ (0 ∷ codes "sk-1"))))
unfolding migrate_legacy validate_sources copy_sources rewrite_sources sort_ids memory_backend
    open_legacy_blob seal_v2_blob str_eq str_lt
migrated_blob = refl

room :
    HasRoom plain plain-IsAead
      (λ b. b)
      memory_backend
      memory_backend-IsBackend
      memory_backend
      memory_backend-IsBackend
      store
      (λ id. some nonce)
      legacy_keys
unfolding memory_backend lookup
room key_id blob =
    if_elim
      (λ (o : Option Bytes).
        elim o [ none ↦ err not_found | some b ↦ ok b ] ≡ ok blob
        → length blob + 10 ≤ max_encrypted_key_blob_bytes)
      (str_eq (codes "openai") key_id)
      (λ _ h.
        subst (λ b. length b + 10 ≤ max_encrypted_key_blob_bytes) (ok_injective h) (omega arith))
      (λ _ h. absurd cc)

migrate_legacy-get_key_example :
    get_key plain memory_backend store
      (migrate_legacy plain
        (λ b. b)
        memory_backend
        memory_backend
        store
        (λ id. false)
        (λ id. some nonce)
        legacy_keys
        []).source
      (codes "openai")
    ≡ ok (codes "sk-1")
unfolding get_key open_legacy_blob memory_backend str_eq
migrate_legacy-get_key_example =
    migrate_legacy-get_key plain plain-IsAead (λ b. b) memory_backend memory_backend-IsBackend
      memory_backend memory_backend-IsBackend store (λ id. some nonce) (λ id. false) legacy_keys []
      (λ id n e. subst (λ (o : Bytes). length o ≡ gcm_nonce_size) {x = nonce} {y = n} (cc) refl)
      room (codes "openai") (codes "sk-1") refl
