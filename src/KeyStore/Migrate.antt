-- ===== src/KeyStore/Migrate.antt =====
-- internal/kms/local/local.go: `MigrateLegacy`, with the source and the backup as states of two backends.
use aegis_llm.Prelude.{
  ℕ, suc, Bool, not, List, [], ◌∷◌, Bytes, length, Option, none, some, Result, ok, err,
  if◌then◌else◌, ◌>>=◌, str_eq, str_lt,
}
use aegis_llm.KeyStore.Envelope.{
  Aead, KeyStoreError, store_closed, unreadable, unwritten, invalid_backup, changed, cancelled,
  is_envelope, seal_v2_blob, open_legacy_blob,
}
use aegis_llm.KeyStore.Backend.{Backend, BackendError}
use aegis_llm.KeyStore.Store.{
  KeyStore, MigrationReport, opened_blob, read_blob, listed, count_format, new_report,
}

-- `sort.Strings`
unfoldable pub insert_id : Bytes → List Bytes → List Bytes
insert_id a [] = a ∷ []
insert_id a (b ∷ ids) = let rest = insert_id a ids in if str_lt b a then b ∷ rest else a ∷ b ∷ ids

unfoldable pub sort_ids : List Bytes → List Bytes
unfolding insert_id
sort_ids [] = []
sort_ids (a ∷ ids) = insert_id a (sort_ids ids)

-- `sourceMetadata`
pub record SourceMetadata : Type 0 where
  pub key_id : Bytes
  pub digest : Bytes
  pub is_legacy : Bool

-- The rest of a loop, unless the step before it failed.
abbrev pub continued :
    {A : Type 0}
    → A × Result KeyStoreError Unit
    → A × Result KeyStoreError Unit
    → A × Result KeyStoreError Unit
continued (a, ok u) rest = rest
continued (a, err e) rest = (a, err e)

abbrev pub counted_step :
    {A : Type 0}
    → A × Result KeyStoreError Unit
    → ℕ
    → A × ℕ × Result KeyStoreError Unit
    → A × ℕ × Result KeyStoreError Unit
counted_step (a, ok u) n rest = rest
counted_step (a, err e) n rest = (a, n, err e)

module _ {S T : Type 0} (gcm : Aead) (sha256 : Bytes → Bytes) (backend : Backend S)
    (backup : Backend T) (store : KeyStore) where
  -- Where a migration is: the source, the backup, and the report so far; and how it ends.
  pub record Migration : Type 0 where
    pub source : S
    pub copies : T
    pub report : MigrationReport
    pub failure : Option KeyStoreError

  abbrev pub item_of : Bytes → Bytes → SourceMetadata
  item_of key_id blob = record {
    key_id = key_id;
    digest = sha256 blob;
    is_legacy = not (is_envelope blob);
  }

  abbrev pub with_item :
      SourceMetadata
      → MigrationReport × Result KeyStoreError (List SourceMetadata)
      → MigrationReport × Result KeyStoreError (List SourceMetadata)
  with_item item (report, ok items) = (report, ok (item ∷ items))
  with_item item (report, err e) = (report, err e)

  abbrev pub validated :
      Bytes
      → MigrationReport
      → (MigrationReport → MigrationReport × Result KeyStoreError (List SourceMetadata))
      → Result KeyStoreError Bytes
      → MigrationReport × Result KeyStoreError (List SourceMetadata)
  validated key_id report k (err e) = (report, err e)
  validated key_id report k (ok blob) =
      with_item (item_of key_id blob) (k (count_format gcm backend store blob report))

  -- The first loop: every blob opens; what is kept of it is its digest and its format.
  unfoldable pub validate_sources :
      (Bytes → Bool)
      → S
      → List Bytes
      → MigrationReport
      → MigrationReport × Result KeyStoreError (List SourceMetadata)
  unfolding opened_blob
  validate_sources is_done s [] report = (report, ok [])
  validate_sources is_done s (key_id ∷ ids) report =
      if is_done key_id
      then (report, err cancelled)
      else validated key_id report (validate_sources is_done s ids)
          (opened_blob gcm backend store s key_id)

  abbrev pub copied : T × Option BackendError → Result KeyStoreError Unit
  copied (t, none) = ok tt
  copied (t, some e) = err unwritten

  -- The blob of an item, if it is the one that was validated.
  abbrev pub same_blob : SourceMetadata → Result KeyStoreError Bytes → Result KeyStoreError Bytes
  same_blob item r =
      r >>= (λ blob. if str_eq (sha256 blob) item.digest then ok blob else err changed)

  abbrev pub copy_blob :
      T → SourceMetadata → Result KeyStoreError Bytes → T × Result KeyStoreError Unit
  copy_blob t item (err e) = (t, err e)
  copy_blob t item (ok blob) =
      ((backup.put t item.key_id blob).0, copied (backup.put t item.key_id blob))

  -- The second loop: the backup of every blob, and whether it is complete.
  unfoldable pub copy_sources : S → List SourceMetadata → T → T × Result KeyStoreError Unit
  copy_sources s [] t = (t, ok tt)
  copy_sources s (item ∷ items) t =
      let one =
        copy_blob t item
          (same_blob item (read_blob gcm backend store (backend.get_blob s item.key_id))) in
      let rest = copy_sources s items one.0 in continued one rest

  -- A legacy blob of the backup in the second format, with the random nonce for its key.
  abbrev pub resealed : (Bytes → Option Bytes) → T → SourceMetadata → Result KeyStoreError Bytes
  unfolding open_legacy_blob seal_v2_blob
  resealed nonces t item =
      same_blob item (read_blob gcm backup store (backup.get_blob t item.key_id))
      >>= open_legacy_blob gcm
      >>= seal_v2_blob gcm (nonces item.key_id) item.key_id

  abbrev pub write_result : Option BackendError → Result KeyStoreError Unit
  write_result none = ok tt
  write_result (some e) = err unwritten

  abbrev pub rewritten : S → Bytes → Result KeyStoreError Bytes → S × Result KeyStoreError Unit
  rewritten s key_id (err e) = (s, err e)
  rewritten s key_id (ok blob) =
      ((backend.put s key_id blob).0, write_result (backend.put s key_id blob).1)

  abbrev pub rewrite :
      (Bytes → Option Bytes) → T → SourceMetadata → S → S × Result KeyStoreError Unit
  unfolding open_legacy_blob seal_v2_blob
  rewrite nonces t item s =
      if item.is_legacy then rewritten s item.key_id (resealed nonces t item) else (s, ok tt)

  -- The third loop: the source, the number of blobs that were rewritten, and whether all were.
  unfoldable pub rewrite_sources :
      (Bytes → Option Bytes) → T → List SourceMetadata → S → ℕ → S × ℕ × Result KeyStoreError Unit
  rewrite_sources nonces t [] s migrated = (s, migrated, ok tt)
  rewrite_sources nonces t (item ∷ items) s migrated =
      let one = rewrite nonces t item s in
      let rest =
        rewrite_sources nonces t items one.0 (if item.is_legacy then suc migrated else migrated) in
      counted_step one migrated rest

  abbrev pub failed_with : S → T → MigrationReport → KeyStoreError → Migration
  failed_with s t report e = record { source = s; copies = t; report = report; failure = some e }

  abbrev error_of : Result KeyStoreError Unit → Option KeyStoreError
  error_of (ok u) = none
  error_of (err e) = some e

  -- What follows a backup.
  abbrev pub after_copy :
      (Bytes → Option Bytes)
      → S
      → List SourceMetadata
      → MigrationReport
      → T × Result KeyStoreError Unit
      → Migration
  unfolding rewrite_sources
  after_copy nonces s items report (t, err e) = failed_with s t report e
  after_copy nonces s items report (t, ok u) =
      let (source, migrated, r) = rewrite_sources nonces t items s 0 in
      record {
        source = source;
        copies = t;
        report = record report { migrated = migrated };
        failure = error_of r;
      }

  abbrev pub after_validation :
      (Bytes → Option Bytes)
      → S
      → T
      → MigrationReport × Result KeyStoreError (List SourceMetadata)
      → Migration
  unfolding copy_sources
  after_validation nonces s t (report, err e) = failed_with s t report e
  after_validation nonces s t (report, ok items) =
      after_copy nonces s items report (copy_sources s items t)

  abbrev pub with_sources :
      (Bytes → Bool)
      → (Bytes → Option Bytes)
      → S
      → T
      → Result KeyStoreError (List Bytes)
      → Migration
  unfolding validate_sources sort_ids
  with_sources is_done nonces s t (err e) =
      failed_with s t (new_report gcm backend store 0) unreadable
  with_sources is_done nonces s t (ok ids) =
      after_validation nonces s t
        (validate_sources is_done s (sort_ids ids) (new_report gcm backend store (length ids)))

  abbrev pub with_existing :
      (Bytes → Bool) → (Bytes → Option Bytes) → S → T → Result BackendError (List Bytes) → Migration
  with_existing is_done nonces s t (err e) =
      failed_with s t (new_report gcm backend store 0) unreadable
  with_existing is_done nonces s t (ok (key_id ∷ ids)) =
      failed_with s t (new_report gcm backend store 0) invalid_backup
  with_existing is_done nonces s t (ok []) =
      with_sources is_done nonces s t (listed gcm backend store (backend.list s))

  -- `MigrateLegacy`, with the times at which its context is done and the random nonces.
  unfoldable pub migrate_legacy : (Bytes → Bool) → (Bytes → Option Bytes) → S → T → Migration
  migrate_legacy is_done nonces s t =
      if store.closed
      then failed_with s t (new_report gcm backend store 0) store_closed
      else with_existing is_done nonces s t (backup.list t)
