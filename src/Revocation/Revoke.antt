-- ===== src/Revocation/Revoke.antt =====
-- What `Writer.Revoke` of internal/revocation/revocation.go leaves in the file.
use aegis_llm.Prelude.{
  ℕ, ◌≡◌, ◌≢◌, refl, ap, ◌≤◌, true, false, ltb, ℤ, pos_part, ◌<ℤ◌, Option, none, some, [], ◌∷◌,
  ◌++◌, arith, inl, inr, Bytes, length, ok, Bool-cases, Option-cases, Result-cases,
}
use aegis_llm.Revocation.Snapshot.{Snapshot, validate_snapshot, max_snapshot_bytes}
use aegis_llm.Revocation.File.{
  FileInfo, Disk, Codec, read_snapshot, open_place, read_file, commit, Fault, write_snapshot_atomic,
  ensure_secure_parent, RevocationError, validate_secure_parent, no_fault, temporary_failed,
  rename_failed, sync_failed, holds, missing, symlink, unopenable, committed,
}
use aegis_llm.Revocation.Writer.{
  sort_entries, kept_entries, is_changed, next_snapshot, Attempt, revoke_locked, CommitResult, unix,
  desired_retention, revoke, Writer, finish,
}
use aegis_llm.Revocation.Kept.{
  unchanged-HasKept, kept_entries-HasKept, HasKept-has_tombstone, are_texts, kept_entries-are_texts,
}
use aegis_llm.Revocation.Published.{has_tombstone, check-allowed_only}
use aegis_llm.Revocation.Reader.{ReaderState, refresh, check, allowed}

ltb-false : (a b : ℕ) → a ≤ b → ltb b a ≡ false
ltb-false a b h = ground arith

module _ (codec : Codec) where
  commit-placed :
      (fault : Fault) (s : Snapshot) (before after : Disk)
      → commit codec fault s before ≡ (after, none)
      → (after.parent ≡ before.parent) × (after.place ≡ committed codec s)
  unfolding commit
  commit-placed no_fault s before after h = (ground (arith, h), ground (arith, h))
  commit-placed temporary_failed s before after h = cc
  commit-placed rename_failed s before after h = cc
  commit-placed sync_failed s before after h = (ground (arith, h), ground (arith, h))

  write-commit :
      (fault : Fault) (s : Snapshot) (before after : Disk)
      → write_snapshot_atomic codec fault s before ≡ (after, none)
      → (validate_snapshot s ≡ none)
        × (length (codec.encode s ++ 10 ∷ []) ≤ max_snapshot_bytes)
        × (validate_secure_parent after.parent ≡ none)
        × (after.place ≡ committed codec s)
  unfolding write_snapshot_atomic ensure_secure_parent
  write-commit fault s before after h =
      elim (Option-cases (validate_secure_parent (ensure_secure_parent before).0.parent)) [
        | inr (x, e) ↦ let bad = rw (e, write_snapshot_atomic) at h in cc
        | inl e ↦ elim (Option-cases (validate_snapshot s)) [
          | inr (x, e2) ↦ let bad = rw (e, e2, write_snapshot_atomic) at h in cc
          | inl e2 ↦
              elim (Bool-cases (ltb max_snapshot_bytes (length (codec.encode s ++ 10 ∷ [])))) [
                | inl e3 ↦ let bad = rw (e, e2, e3, write_snapshot_atomic) at h in cc
                | inr e3 ↦
                    let (parent, place) =
                      commit-placed fault s (ensure_secure_parent before).0 after
                        (rw (e, e2, e3, write_snapshot_atomic) at h) in
                    (e2, ground (arith, e3), rw parent e, place)
              ]
        ]
      ]

  -- A read of a file that a write has put in place gives the snapshot of the write.
  write-read :
      (fault : Fault) (s : Snapshot) (before after : Disk)
      → codec.decode (codec.encode s ++ 10 ∷ []) ≡ some s
      → write_snapshot_atomic codec fault s before ≡ (after, none)
      → read_snapshot codec after ≡ ok (s, codec.digest (codec.encode s ++ 10 ∷ []))
  unfolding read_snapshot open_place read_file
  write-read fault s before after law h =
      let (valid, small, parent, place) = write-commit fault s before after h in
      rw (parent, read_snapshot)
        (rw (place, open_place)
          (rw (ltb-false (length (codec.encode s ++ 10 ∷ [])) max_snapshot_bytes small, law, valid)
            refl))

finish-ok :
    (codec : Codec) (s : Snapshot) (written : Disk × Option RevocationError) (after : Disk)
    (result : CommitResult)
    → finish codec s written ≡ (after, ok result)
    → written ≡ (after, none)
finish-ok codec s (disk, none) after result h = ground (arith, h)
finish-ok codec s (disk, some e) after result h = cc

-- A read of the disk finds a tombstone of the key that is live at a time.
abbrev pub IsRevokedAt : Codec → ℤ → Bytes → Bytes → Disk → Type 0
IsRevokedAt codec time issuer key_id disk =
    (s : Snapshot) × (digest : Bytes) × (read_snapshot codec disk ≡ ok (s, digest))
    × (has_tombstone time issuer key_id s.entries ≡ true)

-- What the codec promises: a snapshot of texts is read as it was written, and what is read is made
-- of texts.
pub record IsCodec (codec : Codec) : Type 0 where
  pub decode-encode :
      (s : Snapshot)
      → are_texts codec.is_text s.entries ≡ true
      → codec.decode (codec.encode s ++ 10 ∷ []) ≡ some s
  pub decode-texts :
      (raw : Bytes) (s : Snapshot)
      → codec.decode raw ≡ some s
      → are_texts codec.is_text s.entries ≡ true

read_file-texts :
    (codec : Codec) (info : FileInfo) (s : Snapshot) (digest : Bytes)
    → IsCodec codec
    → read_file codec info ≡ ok (s, digest)
    → are_texts codec.is_text s.entries ≡ true
unfolding read_file
read_file-texts codec info s digest laws h = elim (Option-cases (codec.decode info.raw)) [
  | inl e ↦ ground (arith, rw (e, read_file) at h)
  | inr (t, e) ↦
      let same : t ≡ s = ground (arith, rw (e, read_file) at h) in
      laws.decode-texts info.raw s (rw e (ap some same))
]

read_snapshot-texts :
    (codec : Codec) (disk : Disk) (s : Snapshot) (digest : Bytes)
    → IsCodec codec
    → read_snapshot codec disk ≡ ok (s, digest)
    → are_texts codec.is_text s.entries ≡ true
unfolding read_snapshot open_place read_file
read_snapshot-texts codec disk s digest laws h =
    elim disk.place as (λ p. disk.place ≡ p → are_texts codec.is_text s.entries ≡ true) [
      | missing ↦ λ e. ground (arith, h, e)
      | symlink ↦ λ e. ground (arith, h, e)
      | unopenable ↦ λ e. ground (arith, h, e)
      | holds info ↦ λ e. read_file-texts codec info s digest laws (ground (arith, h, e))
    ]
      refl

module _ (codec : Codec) (issuer key_id : Bytes) (time : ℤ) where
  next_snapshot-tombstone :
      (now ttl : ℕ) (s : Snapshot)
      → time <ℤ desired_retention now ttl
      → has_tombstone time issuer key_id (next_snapshot issuer key_id now ttl s).entries ≡ true
  unfolding next_snapshot
  next_snapshot-tombstone now ttl s early =
      HasKept-has_tombstone issuer key_id (unix now) (desired_retention now ttl) time
        (sort_entries (kept_entries issuer key_id (unix now) (desired_retention now ttl) s.entries))
        (kept_entries-HasKept issuer key_id (unix now) (desired_retention now ttl) s.entries) early

  revoke_locked-IsRevokedAt :
      (ttl : ℕ) (a : Attempt) (before after : Disk) (result : CommitResult)
      → IsCodec codec
      → codec.is_text issuer ≡ true
      → codec.is_text key_id ≡ true
      → time <ℤ desired_retention a.now ttl
      → revoke_locked codec issuer key_id ttl a before ≡ (after, ok result)
      → IsRevokedAt codec time issuer key_id after
  unfolding revoke_locked
  revoke_locked-IsRevokedAt ttl a before after result laws i k early h =
      elim (Result-cases (read_snapshot codec before)) [
        | inl (e, r) ↦ let bad = rw (r, revoke_locked) at h in cc
        | inr ((s, digest), r) ↦
            elim (Bool-cases
              (is_changed issuer key_id (unix a.now) (desired_retention a.now ttl) s.entries)) [
                | inl c ↦
                    let next = next_snapshot issuer key_id a.now ttl s in
                    let texts =
                      kept_entries-are_texts codec.is_text issuer key_id (unix a.now)
                        (desired_retention a.now ttl) s.entries i k
                        (read_snapshot-texts codec before s digest laws r) in
                    let written =
                      finish-ok codec next (write_snapshot_atomic codec a.fault next before) after
                        result (rw (r, c, revoke_locked) at h) in
                    let read =
                      write-read codec a.fault next before after (laws.decode-encode next texts)
                        written in
                    (
                      next,
                      codec.digest (codec.encode next ++ 10 ∷ []),
                      read,
                      next_snapshot-tombstone a.now ttl s early,
                    )
                | inr c ↦
                    let same : before ≡ after = ground (arith, rw (r, c, revoke_locked) at h) in
                    (
                      s,
                      digest,
                      rw same at r,
                      HasKept-has_tombstone issuer key_id (unix a.now) (desired_retention a.now ttl)
                          time s.entries
                          (unchanged-HasKept issuer key_id (unix a.now)
                            (desired_retention a.now ttl) s.entries c)
                          early,
                    )
              ]
      ]

-- A successful `Revoke` leaves a file in which a read finds a tombstone of the key that is live at
-- every time before its retention ends, which is the lifetime of a token and the clock skew after it;
-- the identifiers are UTF-8 and the codec keeps its promises.
pub revoke-IsRevokedAt :
    (codec : Codec) (w : Writer) (issuer key_id : Bytes) (time ttl : ℤ) (a : Attempt)
    (before after : Disk) (result : CommitResult)
    → IsCodec codec
    → codec.is_text issuer ≡ true
    → codec.is_text key_id ≡ true
    → time <ℤ desired_retention a.now (pos_part ttl)
    → revoke codec w issuer key_id ttl a before ≡ (after, ok result)
    → IsRevokedAt codec time issuer key_id after
unfolding revoke
revoke-IsRevokedAt codec w issuer key_id time ttl a before after result laws i k early h =
    revoke_locked-IsRevokedAt codec issuer key_id time (pos_part ttl) a
      (ensure_secure_parent before).0 after result laws i k early (ground (arith, h))

-- After a successful `Revoke`, a reader that refreshes from the file it left, at a time before the
-- retention ends and from any state, does not allow the key; the identifiers are UTF-8 and the codec
-- keeps its promises.
pub revoke-denied :
    (codec : Codec) (w : Writer) (issuer key_id : Bytes) (time ttl : ℤ) (a : Attempt)
    (before after : Disk) (result : CommitResult) (state : Option ReaderState)
    → IsCodec codec
    → codec.is_text issuer ≡ true
    → codec.is_text key_id ≡ true
    → time <ℤ desired_retention a.now (pos_part ttl)
    → revoke codec w issuer key_id ttl a before ≡ (after, ok result)
    → check false (some (refresh time (read_snapshot codec after) state)) issuer key_id ≢ allowed
revoke-denied codec w issuer key_id time ttl a before after result state laws i k early h allows =
    let (s, digest, read, live) =
      revoke-IsRevokedAt codec w issuer key_id time ttl a before after result laws i k early h in
    let (t, digest2, read2, not_older, none_live) =
      check-allowed_only time (read_snapshot codec after) state issuer key_id allows in
    let same : s ≡ t = ground (arith, read, read2) in
    let bad : true ≡ false = ground (arith, same, live, none_live) in cc
