-- ===== src/Revocation/Reader.antt =====
-- `Reader.Refresh` and `Reader.Check` of internal/revocation/revocation.go: the state that a reader
-- publishes. Polling calls `Refresh` over and over; a call that is under way replaces the state at
-- once.
use aegis_llm.Prelude.{
  ℕ, Bool, true, false, not, ◌&&◌, ◌||◌, ltb, ◌==◌, ℤ, leb_ℤ, ltb_ℤ, Option, none, some, List, [],
  ◌∷◌, Bytes, str_eq, Map, lookup, insert, member, is_some, Result, ok, err, if◌then◌else◌,
}
use aegis_llm.Revocation.Snapshot.{Entry, Snapshot, revocation_key, key_of}
use aegis_llm.Revocation.File.{RevocationError}

-- An error of `Refresh`.
pub data RefreshError : Type 0 where
  rollback : RefreshError
  failed : RevocationError → RefreshError

-- `readerState`; the reader's pointer holds none before the first refresh.
pub record ReaderState : Type 0 where
  pub generation : ℕ
  pub digest : Bytes
  pub revoked : Map ℤ
  pub error : Option RefreshError

-- The loop that fills the table with the entries that are live.
unfoldable pub load : ℤ → List Entry → Map ℤ → Map ℤ
unfolding insert
load now [] m = m
load now (e ∷ es) m =
    let later = load now es in
    if ltb_ℤ now e.retain_until then later (insert (key_of e) e.retain_until m) else later m

-- A live tombstone of the old table is missing or shorter in the new one.
abbrev pub falls_short : Option ℤ → ℤ → Bool
falls_short none retained = true
falls_short (some next) retained = ltb_ℤ next retained

unfoldable pub some_shortened : ℤ → Map ℤ → Map ℤ → Bool
unfolding lookup
some_shortened now new [] = false
some_shortened now new ((key, retained) ∷ old) =
    let rest = some_shortened now new old in
    (not (leb_ℤ retained now) && falls_short (lookup key new) retained) || rest

-- The checks of a snapshot that was read against the state before it.
unfoldable pub is_rollback : ℤ → Snapshot → Bytes → ReaderState → Bool
unfolding some_shortened load str_eq
is_rollback now s digest current =
    ltb s.generation current.generation
    || (s.generation == current.generation && not (str_eq digest current.digest))
    || some_shortened now (load now s.entries []) current.revoked

abbrev zero_digest : Bytes
zero_digest =
    0 ∷ 0 ∷ 0 ∷ 0 ∷ 0 ∷ 0 ∷ 0 ∷ 0 ∷ 0 ∷ 0 ∷ 0 ∷ 0 ∷ 0 ∷ 0 ∷ 0 ∷ 0 ∷ 0 ∷ 0 ∷ 0 ∷ 0 ∷ 0 ∷ 0 ∷ 0 ∷ 0
    ∷ 0 ∷ 0 ∷ 0 ∷ 0 ∷ 0 ∷ 0 ∷ 0 ∷ 0 ∷ []

-- The state that an error leaves: what was known, out of service.
abbrev pub out_of_service : Option ReaderState → RefreshError → ReaderState
out_of_service none e = record {
  generation = 0;
  digest = zero_digest;
  revoked = [];
  error = some e;
}
out_of_service (some current) e = record {
  generation = current.generation;
  digest = current.digest;
  revoked = current.revoked;
  error = some e;
}

abbrev pub in_service : ℤ → Snapshot → Bytes → ReaderState
in_service now s digest = record {
  generation = s.generation;
  digest = digest;
  revoked = load now s.entries [];
  error = none;
}

abbrev pub rolls_back : ℤ → Snapshot → Bytes → Option ReaderState → Bool
rolls_back now s digest none = false
rolls_back now s digest (some current) = is_rollback now s digest current

-- `Reader.Refresh` on what `readSnapshot` gives, and the state that it publishes.
unfoldable pub refresh :
    ℤ → Result RevocationError (Snapshot × Bytes) → Option ReaderState → ReaderState
unfolding is_rollback load
refresh now (err e) current = out_of_service current (failed e)
refresh now (ok (s, digest)) current =
    if rolls_back now s digest current
    then out_of_service current rollback
    else in_service now s digest

pub data Verdict : Type 0 where
  revoked allowed cancelled unavailable : Verdict

-- `Reader.Check`: an error of the source is `cancelled` or `unavailable`.
unfoldable pub check : Bool → Option ReaderState → Bytes → Bytes → Verdict
unfolding lookup
check done none issuer key_id = if done then cancelled else unavailable
check done (some state) issuer key_id =
    if done
    then cancelled
    else (if is_some state.error
        then unavailable
        else (if member (revocation_key issuer key_id) state.revoked then revoked else allowed))
