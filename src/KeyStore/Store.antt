-- ===== src/KeyStore/Store.antt =====
-- internal/kms/local/local.go: the operations of `Store`.
use aegis_llm.Prelude.{
  ℕ, suc, Bool, true, false, not, ◌&&◌, ◌==◌, List, [], ◌∷◌, Bytes, length, Option, none, some,
  Result, ok, err, if◌then◌else◌, ◌>>=◌,
}
use aegis_llm.KeyStore.Envelope.{
  Aead, KeyStoreError, store_closed, invalid_key_id, key_not_found, unreadable, unwritten,
  too_large, cancelled, is_valid_key_id, is_valid_blob_size, is_envelope, seal_v2_blob, open_blob,
}
use aegis_llm.KeyStore.Backend.{Backend, BackendError, not_found, backend_failed}

-- The fields of `Store` beside the cipher and the backend, which are parameters; a closed store has
-- no cipher.
pub record KeyStore : Type 0 where
  pub minimum_envelope_version : ℕ
  pub closed : Bool

-- The errors of `newStoreFromMasterKey` and its callers.
pub data NewStoreError : Type 0 where
  no_backend invalid_minimum_version invalid_master_key : NewStoreError

-- `NewWithMinimumEnvelopeVersion`: the text of the environment variable, and what encoding/hex makes of it.
unfoldable pub new_store : Bool → ℕ → Bytes → Option Bytes → Result NewStoreError (Bytes × KeyStore)
new_store has_backend minimum [] decoded =
    if not has_backend
    then err no_backend
    else (if not (minimum == 1) && not (minimum == 2)
        then err invalid_minimum_version
        else err invalid_master_key)
new_store has_backend minimum (c ∷ s) decoded =
    if not has_backend
    then err no_backend
    else (if not (minimum == 1) && not (minimum == 2)
        then err invalid_minimum_version
        else elim decoded [
          | none ↦ err invalid_master_key
          | some master_key ↦
              if not (length master_key == 32)
              then err invalid_master_key
              else ok (master_key, record { minimum_envelope_version = minimum; closed = false })
        ])

-- `Close`
abbrev pub close_store : KeyStore → KeyStore
close_store store = record store { closed = true }

-- `MigrationReport`
pub record MigrationReport : Type 0 where
  pub total : ℕ
  pub legacy : ℕ
  pub v2 : ℕ
  pub migrated : ℕ

module _ {S : Type 0} (gcm : Aead) (backend : Backend S) (store : KeyStore) where
  -- A blob that was read, within its size.
  abbrev pub read_blob : Result BackendError Bytes → Result KeyStoreError Bytes
  read_blob (err not_found) = err key_not_found
  read_blob (err backend_failed) = err unreadable
  read_blob (ok blob) = if is_valid_blob_size blob then ok blob else err too_large

  -- `GetKey`
  unfoldable pub get_key : S → Bytes → Result KeyStoreError Bytes
  unfolding open_blob
  get_key s key_id =
      if store.closed
      then err store_closed
      else (if not (is_valid_key_id key_id)
          then err key_not_found
          else (read_blob (backend.get_blob s key_id)
              >>= open_blob gcm store.minimum_envelope_version key_id))

  abbrev pub put_result : S × Option BackendError → S × Option KeyStoreError
  put_result (s, none) = (s, none)
  put_result (s, some e) = (s, some unwritten)

  abbrev pub put_blob : S → Bytes → Result KeyStoreError Bytes → S × Option KeyStoreError
  put_blob s key_id (err e) = (s, some e)
  put_blob s key_id (ok blob) =
      if is_valid_blob_size blob
      then put_result (backend.put s key_id blob)
      else (s, some too_large)

  -- `StoreKey`, with the random nonce, if there is one.
  unfoldable pub store_key : Option Bytes → S → Bytes → Bytes → S × Option KeyStoreError
  unfolding seal_v2_blob
  store_key random s key_id plaintext =
      if store.closed
      then (s, some store_closed)
      else (if not (is_valid_key_id key_id)
          then (s, some invalid_key_id)
          else put_blob s key_id (seal_v2_blob gcm random key_id plaintext))

  -- `DeleteKey`
  unfoldable pub delete_key : S → Bytes → S × Option KeyStoreError
  delete_key s key_id =
      if store.closed
      then (s, some store_closed)
      else (if not (is_valid_key_id key_id)
          then (s, some invalid_key_id)
          else put_result (backend.delete s key_id))

  abbrev pub rotated :
      Option Bytes → S → Bytes → Result KeyStoreError Bytes → S × Option KeyStoreError
  unfolding store_key
  rotated random s key_id (err e) = (s, some e)
  rotated random s key_id (ok plaintext) = store_key random s key_id plaintext

  -- `RotateKey`
  unfoldable pub rotate_key : Option Bytes → S → Bytes → S × Option KeyStoreError
  unfolding get_key
  rotate_key random s key_id = rotated random s key_id (get_key s key_id)

  abbrev pub listed : Result BackendError (List Bytes) → Result KeyStoreError (List Bytes)
  listed (ok ids) = ok ids
  listed (err e) = err unreadable

  -- `ListKeyIDs`
  unfoldable pub list_key_ids : S → Result KeyStoreError (List Bytes)
  list_key_ids s = if store.closed then err store_closed else listed (backend.list s)

  abbrev pub count_format : Bytes → MigrationReport → MigrationReport
  count_format blob report =
      if is_envelope blob
      then record report { v2 = suc report.v2 }
      else record report { legacy = suc report.legacy }

  -- A blob that was read and opens.
  unfoldable pub opened_blob : S → Bytes → Result KeyStoreError Bytes
  unfolding open_blob
  opened_blob s key_id = read_blob (backend.get_blob s key_id) >>= (λ blob.
      open_blob gcm store.minimum_envelope_version key_id blob >>= (λ plaintext. ok blob))

  abbrev pub inspected :
      MigrationReport
      → (MigrationReport → MigrationReport × Option KeyStoreError)
      → Result KeyStoreError Bytes
      → MigrationReport × Option KeyStoreError
  inspected report k (err e) = (report, some e)
  inspected report k (ok blob) = k (count_format blob report)

  -- The loop of `inspectFormatsLocked`; the context may be done when the turn of a key comes.
  unfoldable pub inspect_keys :
      (Bytes → Bool) → S → List Bytes → MigrationReport → MigrationReport × Option KeyStoreError
  unfolding opened_blob
  inspect_keys is_done s [] report = (report, none)
  inspect_keys is_done s (key_id ∷ ids) report =
      if is_done key_id
      then (report, some cancelled)
      else inspected report (inspect_keys is_done s ids) (opened_blob s key_id)

  abbrev pub new_report : ℕ → MigrationReport
  new_report total = record { total = total; legacy = 0; v2 = 0; migrated = 0 }

  abbrev pub inspect_listed :
      (Bytes → Bool)
      → S
      → Result KeyStoreError (List Bytes)
      → MigrationReport × Option KeyStoreError
  unfolding inspect_keys
  inspect_listed is_done s (err e) = (new_report 0, some e)
  inspect_listed is_done s (ok ids) = inspect_keys is_done s ids (new_report (length ids))

  -- `InspectFormats`
  unfoldable pub inspect_formats : (Bytes → Bool) → S → MigrationReport × Option KeyStoreError
  inspect_formats is_done s =
      if store.closed
      then (new_report 0, some store_closed)
      else inspect_listed is_done s (listed (backend.list s))
