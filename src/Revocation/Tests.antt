-- ===== src/Revocation/Tests.antt =====
-- A revocation and a refresh after it, at concrete values.
use aegis_llm.Prelude.{
  ℕ, ◌≤◌, ◌≡◌, ◌≢◌, refl, ◌↔◌, Bool, true, false, ℤ, pos, pos_part, ◌≤ℤ◌, ◌<ℤ◌, Option, none, some,
  List, [], ◌∷◌, arith, Bytes, codes, lookup, Result, ok, err, str_eq,
}
use aegis_llm.Revocation.Snapshot.{
  Snapshot, IsValid, validate_snapshot, validate_snapshot_iff, revocation_key,
}
use aegis_llm.Revocation.File.{Disk, directory, missing, no_fault, read_snapshot, RevocationError}
use aegis_llm.Revocation.Writer.{Writer, Attempt, CommitResult, init, revoke}
use aegis_llm.Revocation.Reader.{ReaderState, refresh, check, allowed, rolls_back}
use aegis_llm.Revocation.Published.{
  StillHeld, has_tombstone, refresh-keeps_live, check-allowed_only,
}
use aegis_llm.Revocation.Revoke.{IsRevokedAt, revoke-IsRevokedAt, revoke-denied}
use aegis_llm.Revocation.Sample.{u, sample_codec, sample_codec-IsCodec}

abbrev empty : Snapshot
empty = record { version = pos 1; generation = 1; updated_at = pos 5; entries = [] }

validate_snapshot_iff_example : (validate_snapshot empty ≡ none) ↔ IsValid empty
validate_snapshot_iff_example = validate_snapshot_iff empty

abbrev key : Bytes
key = revocation_key u u

abbrev known : ReaderState
known = record { generation = 3; digest = []; revoked = (key, pos 90) ∷ []; error = none }

refresh-keeps_live_example :
    (known.generation ≤ (refresh (pos 20) (ok (empty, [])) (some known)).generation)
    × StillHeld
        (pos 20)
        (refresh (pos 20) (ok (empty, [])) (some known)).revoked
        key
        (lookup key known.revoked)
refresh-keeps_live_example = refresh-keeps_live (pos 20) (ok (empty, [])) known key

abbrev read : Result RevocationError (Snapshot × Bytes)
read = ok (empty, [])

check-allowed_only_example :
    (s : Snapshot) × (digest : Bytes) × (read ≡ ok (s, digest))
    × (rolls_back (pos 20) s digest none ≡ false)
    × (has_tombstone (pos 20) u u s.entries ≡ false)
unfolding refresh check
check-allowed_only_example = check-allowed_only (pos 20) read none u u refl

abbrev writer : Writer
writer = record { path = codes "/var/lib/aegis/revocation.json"; lock_timeout = pos 1000000000 }

abbrev at : ℕ → Attempt
at now = record { now = now; locked = true; fault = no_fault }

abbrev fresh : Disk
fresh = record { parent = directory 448; place = missing }

-- The disk after `Init`, and after `Revoke` of a key for an hour.
abbrev initialized : Disk
initialized = (init sample_codec writer (at 5000000000) fresh).0

abbrev ttl : ℤ
ttl = pos 3600000000000

abbrev after : Disk
after = (revoke sample_codec writer u u ttl (at 7000000000) initialized).0

abbrev committed_result : CommitResult
committed_result = record { generation = 2; updated_at = pos 7; changed = true }

revoke-IsRevokedAt_example : IsRevokedAt sample_codec (pos 3600) u u after
unfolding revoke init aegis_llm.Prelude.trim_space aegis_llm.Revocation.Sample.encode_u
    aegis_llm.Revocation.Sample.decode_u
revoke-IsRevokedAt_example =
    revoke-IsRevokedAt sample_codec writer u u (pos 3600) ttl (at 7000000000) initialized after
      committed_result sample_codec-IsCodec refl refl (omega arith) refl

revoke-denied_example :
    check false (some (refresh (pos 3600) (read_snapshot sample_codec after) (some known))) u u
    ≢ allowed
unfolding revoke init aegis_llm.Prelude.trim_space aegis_llm.Revocation.Sample.encode_u
    aegis_llm.Revocation.Sample.decode_u
revoke-denied_example =
    revoke-denied sample_codec writer u u (pos 3600) ttl (at 7000000000) initialized after
      committed_result (some known) sample_codec-IsCodec refl refl (omega arith) refl
