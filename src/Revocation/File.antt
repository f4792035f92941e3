-- ===== src/Revocation/File.antt =====
-- The file of a snapshot: `validateSecureParent`, `ensureSecureParent`, `readSnapshot` and
-- `writeSnapshotAtomic` of internal/revocation/revocation.go. The file system is a state; what the
-- operating system refuses is an argument. The JSON codec and SHA-256 are parameters.
use aegis_llm.Prelude.{
  ℕ, ◌/◌, ◌%◌, Bool, true, false, not, ◌||◌, ◌==◌, ltb, Option, none, some, Bytes, length, ◌++◌, [],
  ◌∷◌, Result, ok, err, if◌then◌else◌,
}
use aegis_llm.Revocation.Snapshot.{Snapshot, validate_snapshot, max_snapshot_bytes}

-- The parent directory: `directory` holds its permission bits.
pub data Parent : Type 0 where
  absent unreadable irregular : Parent
  directory : ℕ → Parent

-- What `file.Stat` and reading tell of an opened file.
pub record FileInfo : Type 0 where
  pub regular : Bool
  pub permissions : ℕ
  pub readable : Bool
  pub raw : Bytes

-- The path: a symbolic link is not opened.
pub data Place : Type 0 where
  missing symlink unopenable : Place
  holds : FileInfo → Place

pub record Disk : Type 0 where
  pub parent : Parent
  pub place : Place

pub data RevocationError : Type 0 where
  bad_config bad_request locked_out not_exist unsafe_parent unsafe_file too_large bad_json
        bad_snapshot io_error :
      RevocationError

-- encoding/json with its indentation and the text checks before it, SHA-256, and the UTF-8 test.
pub record Codec : Type 0 where
  pub decode : Bytes → Option Snapshot
  pub encode : Snapshot → Bytes
  pub digest : Bytes → Bytes
  pub is_text : Bytes → Bool

-- What the operating system refuses during a write: a step on the temporary file (creating,
-- changing its mode, writing, syncing, closing), looking at the path, the rename, or the sync of
-- the directory after it.
pub data Fault : Type 0 where
  no_fault temporary_failed rename_failed sync_failed : Fault

-- perm & 0022 and perm & 0077
abbrev has_other_writers : ℕ → Bool
has_other_writers mode = (mode / 16) % 2 == 1 || (mode / 2) % 2 == 1

abbrev is_owner_only : ℕ → Bool
is_owner_only mode = mode % 64 == 0

-- `validateSecureParent`
unfoldable pub validate_secure_parent : Parent → Option RevocationError
validate_secure_parent absent = some not_exist
validate_secure_parent unreadable = some io_error
validate_secure_parent irregular = some unsafe_parent
validate_secure_parent (directory mode) =
    if has_other_writers mode then some unsafe_parent else none

-- `os.MkdirAll(dir, 0700)`, which leaves what is there.
abbrev make_parent : Parent → Parent
make_parent absent = directory 448
make_parent unreadable = unreadable
make_parent irregular = irregular
make_parent (directory mode) = directory mode

-- `ensureSecureParent`
unfoldable pub ensure_secure_parent : Disk → Disk × Option RevocationError
unfolding validate_secure_parent
ensure_secure_parent disk =
    let parent = make_parent disk.parent in
    (record { parent = parent; place = disk.place }, validate_secure_parent parent)

module _ (codec : Codec) where
  -- `readSnapshot` once the file is opened.
  unfoldable pub read_file : FileInfo → Result RevocationError (Snapshot × Bytes)
  unfolding validate_snapshot
  read_file info =
      if not info.regular || not (is_owner_only info.permissions)
      then err unsafe_file
      else (if ltb max_snapshot_bytes (length info.raw)
          then err too_large
          else (if not info.readable then err io_error else elim (codec.decode info.raw) [
            | none ↦ err bad_json
            | some s ↦ elim (validate_snapshot s) [
              | some reason ↦ err bad_snapshot
              | none ↦ ok (s, codec.digest info.raw)
            ]
          ]))

  unfoldable pub open_place : Place → Result RevocationError (Snapshot × Bytes)
  unfolding read_file
  open_place missing = err not_exist
  open_place symlink = err io_error
  open_place unopenable = err io_error
  open_place (holds info) = read_file info

  -- `readSnapshot`
  unfoldable pub read_snapshot : Disk → Result RevocationError (Snapshot × Bytes)
  unfolding validate_secure_parent open_place
  read_snapshot disk = elim (validate_secure_parent disk.parent) [
    | some error ↦ err error
    | none ↦ open_place disk.place
  ]

  -- The file that a rename puts in place.
  abbrev pub committed : Snapshot → Place
  committed s = holds (record {
    regular = true;
    permissions = 384;
    readable = true;
    raw = codec.encode s ++ 10 ∷ [];
  })

  -- `os.Lstat(path)` refuses a link, and an error other than a missing file.
  abbrev pub is_replaceable : Place → Bool
  is_replaceable missing = true
  is_replaceable symlink = false
  is_replaceable unopenable = true
  is_replaceable (holds info) = true

  -- The steps of `writeSnapshotAtomic` after the checks.
  unfoldable pub commit : Fault → Snapshot → Disk → Disk × Option RevocationError
  commit temporary_failed s disk = (disk, some io_error)
  commit rename_failed s disk = (disk, some io_error)
  commit no_fault s disk =
      if is_replaceable disk.place
      then (record { parent = disk.parent; place = committed s }, none)
      else (disk, some unsafe_file)
  commit sync_failed s disk =
      if is_replaceable disk.place
      then (record { parent = disk.parent; place = committed s }, some io_error)
      else (disk, some unsafe_file)

  -- `writeSnapshotAtomic`
  unfoldable pub write_snapshot_atomic : Fault → Snapshot → Disk → Disk × Option RevocationError
  unfolding ensure_secure_parent commit validate_snapshot
  write_snapshot_atomic fault s before =
      let (disk, refused) = ensure_secure_parent before in
      elim refused [
        | some error ↦ (disk, some error)
        | none ↦ elim (validate_snapshot s) [
          | some reason ↦ (disk, some bad_snapshot)
          | none ↦
              if ltb max_snapshot_bytes (length (codec.encode s ++ 10 ∷ []))
              then (disk, some too_large)
              else commit fault s disk
        ]
      ]
