-- ===== src/Revocation/Writer.antt =====
-- `Writer.Init` and `Writer.Revoke` of internal/revocation/revocation.go. `now` is in nanoseconds
-- since 1970; the lock of `withFileLock` is granted or not, and the writers that it lets in run one
-- after the other.
use aegis_llm.Prelude.{
  ℕ, ◌+◌, ◌/◌, ◌%◌, Bool, true, false, not, ◌&&◌, ◌||◌, ltb, ℤ, pos, pos_part, leb_ℤ, ltb_ℤ, Option,
  none, some, List, [], ◌∷◌, ◌++◌, Bytes, length, any, is_blank, str_eq, str_lt, Result, ok, err,
  if◌then◌else◌, mod64,
}
use aegis_llm.Revocation.Snapshot.{Entry, Snapshot, snapshot_version, max_identifier_bytes}
use aegis_llm.Revocation.File.{
  Disk, RevocationError, bad_config, bad_request, locked_out, not_exist, Codec, read_snapshot,
  Fault, write_snapshot_atomic, ensure_secure_parent,
}

pub record CommitResult : Type 0 where
  pub generation : ℕ
  pub updated_at : ℤ
  pub changed : Bool

-- `commitResult`
abbrev pub commit_result : Snapshot → Bool → CommitResult
commit_result s changed = record {
  generation = s.generation;
  updated_at = s.updated_at;
  changed = changed;
}

abbrev pub second : ℕ
second = 1000000000

-- revocationClockSkew and virtualkey.ClockSkew, of 60 seconds
abbrev pub clock_skew : ℕ
clock_skew = 60000000000

-- virtualkey.MaxTokenTTL: 2^63 - 1 nanoseconds less the skew
abbrev pub max_token_ttl : ℕ
max_token_ttl = 9223371976854775807

-- `now.Unix()`
abbrev pub unix : ℕ → ℤ
unix now = pos (now / second)

-- `now.Add(maxTokenTTL + revocationClockSkew).Unix()`
abbrev pub desired_retention : ℕ → ℕ → ℤ
desired_retention now ttl = unix (now + (ttl + clock_skew))

abbrev pub is_for : Bytes → Bytes → Entry → Bool
is_for issuer key_id e = str_eq e.issuer issuer && str_eq e.key_id key_id

-- The body of the loop over the entries for one that is kept.
unfoldable pub extend : Bytes → Bytes → ℤ → Entry → Entry
unfolding str_eq
extend issuer key_id desired e =
    if is_for issuer key_id e && ltb_ℤ e.retain_until desired
    then record {
      issuer = e.issuer;
      key_id = e.key_id;
      revoked_at = e.revoked_at;
      retain_until = desired;
    }
    else e

-- The loop of `Revoke`: `kept`.
unfoldable pub keep : Bytes → Bytes → ℤ → ℤ → List Entry → List Entry
unfolding extend
keep issuer key_id now desired [] = []
keep issuer key_id now desired (e ∷ es) =
    let rest = keep issuer key_id now desired es in
    if leb_ℤ e.retain_until now then rest else extend issuer key_id desired e ∷ rest

-- The loop of `Revoke`: `found`.
unfoldable pub found : Bytes → Bytes → ℤ → List Entry → Bool
unfolding str_eq
found issuer key_id now es = any (λ e. not (leb_ℤ e.retain_until now) && is_for issuer key_id e) es

-- The loop of `Revoke`: `changed`.
unfoldable pub loop_changed : Bytes → Bytes → ℤ → ℤ → List Entry → Bool
unfolding str_eq
loop_changed issuer key_id now desired es =
    any (λ e. leb_ℤ e.retain_until now || (is_for issuer key_id e && ltb_ℤ e.retain_until desired))
      es

-- The order of `sort.Slice`.
abbrev pub entry_less : Entry → Entry → Bool
entry_less a b =
    if str_eq a.issuer b.issuer then str_lt a.key_id b.key_id else str_lt a.issuer b.issuer

unfoldable pub insert_entry : Entry → List Entry → List Entry
unfolding str_eq str_lt
insert_entry e [] = e ∷ []
insert_entry e (f ∷ es) = if entry_less f e then f ∷ insert_entry e es else e ∷ f ∷ es

-- `sort.Slice`: no two entries are equal in this order, which leaves one result.
unfoldable pub sort_entries : List Entry → List Entry
unfolding insert_entry
sort_entries [] = []
sort_entries (e ∷ es) = insert_entry e (sort_entries es)

abbrev pub tombstone : Bytes → Bytes → ℤ → ℤ → Entry
tombstone issuer key_id now desired = record {
  issuer = issuer;
  key_id = key_id;
  revoked_at = now;
  retain_until = desired;
}

-- The entries after the loop and the append.
unfoldable pub kept_entries : Bytes → Bytes → ℤ → ℤ → List Entry → List Entry
unfolding keep found
kept_entries issuer key_id now desired es =
    if found issuer key_id now es
    then keep issuer key_id now desired es
    else keep issuer key_id now desired es ++ tombstone issuer key_id now desired ∷ []

unfoldable pub is_changed : Bytes → Bytes → ℤ → ℤ → List Entry → Bool
unfolding loop_changed found
is_changed issuer key_id now desired es =
    loop_changed issuer key_id now desired es || not (found issuer key_id now es)

-- The snapshot that `Revoke` commits.
unfoldable pub next_snapshot : Bytes → Bytes → ℕ → ℕ → Snapshot → Snapshot
unfolding kept_entries sort_entries
next_snapshot issuer key_id now ttl current = record {
  version = snapshot_version;
  generation = (current.generation + 1) % mod64;
  updated_at = unix now;
  entries =
      sort_entries
        (kept_entries issuer key_id (unix now) (desired_retention now ttl) current.entries);
}

-- What the calls to the operating system answer during one operation of a writer.
pub record Attempt : Type 0 where
  pub now : ℕ
  pub locked : Bool
  pub fault : Fault

-- `validateWriterConfig`
abbrev is_bad_config : Bytes → ℤ → Bool
is_bad_config path timeout = is_blank path || leb_ℤ timeout (pos 0)

-- The argument checks of `Revoke`.
abbrev is_bad_request : Bytes → Bytes → ℤ → Bool
is_bad_request issuer key_id ttl =
    is_blank issuer
    || is_blank key_id
    || ltb max_identifier_bytes (length issuer)
    || ltb max_identifier_bytes (length key_id)
    || leb_ℤ ttl (pos 0)
    || ltb max_token_ttl (pos_part ttl)

pub record Writer : Type 0 where
  pub path : Bytes
  pub lock_timeout : ℤ

module _ (codec : Codec) where
  abbrev pub finish :
      Snapshot → Disk × Option RevocationError → Disk × Result RevocationError CommitResult
  finish s (disk, none) = (disk, ok (commit_result s true))
  finish s (disk, some error) = (disk, err error)

  -- The locked part of `Revoke`.
  unfoldable pub revoke_locked :
      Bytes → Bytes → ℕ → Attempt → Disk → Disk × Result RevocationError CommitResult
  unfolding read_snapshot is_changed next_snapshot write_snapshot_atomic
  revoke_locked issuer key_id ttl a disk = elim (read_snapshot codec disk) [
    | err error ↦ (disk, err error)
    | ok (current, digest) ↦
        if is_changed issuer key_id (unix a.now) (desired_retention a.now ttl) current.entries
        then (let next = next_snapshot issuer key_id a.now ttl current in
            finish next (write_snapshot_atomic codec a.fault next disk))
        else (disk, ok (commit_result current false))
  ]

  -- `Writer.Revoke`
  unfoldable pub revoke :
      Writer → Bytes → Bytes → ℤ → Attempt → Disk → Disk × Result RevocationError CommitResult
  unfolding ensure_secure_parent revoke_locked
  revoke w issuer key_id ttl a before =
      if is_bad_config w.path w.lock_timeout
      then (before, err bad_config)
      else (if is_bad_request issuer key_id ttl
          then (before, err bad_request)
          else (let (disk, refused) = ensure_secure_parent before in
              elim refused [
                | some error ↦ (disk, err error)
                | none ↦
                    if a.locked
                    then revoke_locked issuer key_id (pos_part ttl) a disk
                    else (disk, err locked_out)
              ]))

  abbrev initial_snapshot : ℕ → Snapshot
  initial_snapshot now = record {
    version = snapshot_version;
    generation = 1;
    updated_at = unix now;
    entries = [];
  }

  -- The locked part of `Init`: only a missing file is replaced.
  unfoldable pub init_locked : Attempt → Disk → Disk × Result RevocationError CommitResult
  unfolding read_snapshot write_snapshot_atomic
  init_locked a disk = elim (read_snapshot codec disk) [
    | ok (current, digest) ↦ (disk, ok (commit_result current false))
    | err not_exist ↦
        finish (initial_snapshot a.now)
          (write_snapshot_atomic codec a.fault (initial_snapshot a.now) disk)
    | err error ↦ (disk, err error)
  ]

  -- `Writer.Init`
  unfoldable pub init : Writer → Attempt → Disk → Disk × Result RevocationError CommitResult
  unfolding ensure_secure_parent init_locked
  init w a before =
      if is_bad_config w.path w.lock_timeout
      then (before, err bad_config)
      else (let (disk, refused) = ensure_secure_parent before in
          elim refused [
            | some error ↦ (disk, err error)
            | none ↦ if a.locked then init_locked a disk else (disk, err locked_out)
          ])
