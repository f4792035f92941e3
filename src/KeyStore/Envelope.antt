-- ===== src/KeyStore/Envelope.antt =====
-- internal/kms/local/local.go: the formats of an encrypted key.
use aegis_llm.Prelude.{
  ℕ, ◌+◌, ◌≡◌, Bool, ◌||◌, not, ltb, leb, ◌==◌, [], ◌∷◌, ◌++◌, Bytes, codes, length, drop,
  has_prefix, is_empty, Option, none, some, Result, ok, err, if◌then◌else◌,
}
use aegis_llm.Prelude.{take}

-- `cipher.AEAD` with the nonces of 12 bytes that the store asks for.
pub record Aead : Type 0 where
  pub seal : Bytes → Bytes → Bytes → Bytes
  pub unseal : Bytes → Bytes → Bytes → Option Bytes
  pub overhead : ℕ

-- What crypto/cipher documents: a sealed text is longer by the overhead, and opens to the text with the
-- same nonce and additional data.
pub record IsAead (gcm : Aead) : Type 0 where
  pub opens :
      (nonce plaintext aad : Bytes)
      → gcm.unseal nonce (gcm.seal nonce plaintext aad) aad ≡ some plaintext
  pub grows :
      (nonce plaintext aad : Bytes)
      → length (gcm.seal nonce plaintext aad) ≡ length plaintext + gcm.overhead
  pub shrinks :
      (nonce sealed aad plaintext : Bytes)
      → gcm.unseal nonce sealed aad ≡ some plaintext
      → length plaintext + gcm.overhead ≡ length sealed

-- The errors of the store.
pub data KeyStoreError : Type 0 where
  store_closed invalid_key_id key_not_found unreadable unwritten too_large : KeyStoreError
  invalid_envelope legacy_disabled decrypt_failed no_nonce : KeyStoreError
  invalid_backup changed cancelled : KeyStoreError

abbrev pub envelope_magic : Bytes
envelope_magic = codes "AEGISKEY"

abbrev pub envelope_version : ℕ
envelope_version = 2

abbrev pub envelope_header_size : ℕ
envelope_header_size = 10

abbrev pub gcm_nonce_size : ℕ
gcm_nonce_size = 12

abbrev pub max_encrypted_key_blob_bytes : ℕ
max_encrypted_key_blob_bytes = 1048576

abbrev pub envelope_aad_domain : Bytes
envelope_aad_domain = codes "aegis/kms/local/envelope"

-- kms.MaxKeyIDBytes
abbrev pub max_key_id_bytes : ℕ
max_key_id_bytes = 128

-- `validateKeyID`
abbrev pub is_valid_key_id : Bytes → Bool
is_valid_key_id key_id = not (is_empty key_id || ltb max_key_id_bytes (length key_id))

-- `validateEncryptedBlobSize`
abbrev pub is_valid_blob_size : Bytes → Bool
is_valid_blob_size blob = not (ltb max_encrypted_key_blob_bytes (length blob))

-- `envelopeAAD`
abbrev pub envelope_aad : Bytes → Bytes → Bytes
envelope_aad header key_id = envelope_aad_domain ++ (header ++ key_id)

abbrev pub envelope_header : Bytes
envelope_header = envelope_magic ++ (envelope_version ∷ gcm_nonce_size ∷ [])

-- A blob is of the second format when it starts with the magic text.
abbrev pub is_envelope : Bytes → Bool
is_envelope blob = has_prefix blob envelope_magic

abbrev first_byte : Bytes → ℕ
first_byte [] = 0
first_byte (a ∷ t) = a

-- `s[i]`, 0 beyond the end, where the code does not look.
abbrev byte_at : ℕ → Bytes → ℕ
byte_at n s = first_byte (drop n s)

module _ (gcm : Aead) where
  -- `sealV2Blob`, with the random nonce, if there is one.
  unfoldable pub seal_v2_blob : Option Bytes → Bytes → Bytes → Result KeyStoreError Bytes
  seal_v2_blob none key_id plaintext =
      if is_valid_key_id key_id then err no_nonce else err invalid_key_id
  seal_v2_blob (some nonce) key_id plaintext =
      if is_valid_key_id key_id
      then ok (
          envelope_header
          ++ (nonce ++ gcm.seal nonce plaintext (envelope_aad envelope_header key_id)))
      else err invalid_key_id

  abbrev pub decrypted : Option Bytes → Result KeyStoreError Bytes
  decrypted none = err decrypt_failed
  decrypted (some plaintext) = ok plaintext

  -- `openV2Envelope`
  unfoldable pub open_v2_envelope : Bytes → Bytes → Result KeyStoreError Bytes
  unfolding take
  open_v2_envelope key_id blob =
      let header = take envelope_header_size blob in
      let nonce_size = byte_at (length envelope_magic + 1) header in
      let rest = drop envelope_header_size blob in
      if ltb (length blob) envelope_header_size
      then err invalid_envelope
      else (if not (byte_at (length envelope_magic) header == envelope_version)
          then err invalid_envelope
          else (if not (nonce_size == gcm_nonce_size)
              then err invalid_envelope
              else (if ltb (length blob) (envelope_header_size + nonce_size + gcm.overhead)
                  then err invalid_envelope
                  else decrypted (
                      gcm.unseal (take nonce_size rest) (drop nonce_size rest)
                        (envelope_aad header key_id)))))

  -- `openLegacyBlob`
  unfoldable pub open_legacy_blob : Bytes → Result KeyStoreError Bytes
  unfolding take
  open_legacy_blob blob =
      if ltb (length blob) (gcm_nonce_size + gcm.overhead)
      then err decrypt_failed
      else decrypted (gcm.unseal (take gcm_nonce_size blob) (drop gcm_nonce_size blob) [])

  -- `openBlob`, with the minimal version of the store.
  unfoldable pub open_blob : ℕ → Bytes → Bytes → Result KeyStoreError Bytes
  unfolding open_v2_envelope open_legacy_blob has_prefix
  open_blob minimum key_id blob =
      if is_envelope blob
      then open_v2_envelope key_id blob
      else (if leb 2 minimum then err legacy_disabled else open_legacy_blob blob)
