-- ===== src/Revocation/Snapshot.antt =====
-- Snapshots of internal/revocation/revocation.go and `validateSnapshot`. Times are Unix seconds.
use aegis_llm.Prelude.{
  ℕ, ◌≤◌, ◌<◌, ◌≡◌, refl, ◌↔◌, Bool, false, not, ◌&&◌, ◌||◌, ◌==◌, ltb, ℤ, pos, leb_ℤ, ◌<ℤ◌, List,
  [], ◌∷◌, ◌++◌, Option, none, some, arith, Bytes, length, any, is_blank, str_eq, if◌then◌else◌,
}

pub record Entry : Type 0 where
  pub issuer : Bytes
  pub key_id : Bytes
  pub revoked_at : ℤ
  pub retain_until : ℤ

pub record Snapshot : Type 0 where
  pub version : ℤ
  pub generation : ℕ
  pub updated_at : ℤ
  pub entries : List Entry

abbrev pub snapshot_version : ℤ
snapshot_version = pos 1

abbrev pub max_snapshot_bytes : ℕ
max_snapshot_bytes = 4194304

abbrev pub max_snapshot_entries : ℕ
max_snapshot_entries = 100000

-- virtualkey.MaxRevocableIdentifierBytes
abbrev pub max_identifier_bytes : ℕ
max_identifier_bytes = 1024

-- `revocationKey`
abbrev pub revocation_key : Bytes → Bytes → Bytes
revocation_key issuer key_id = issuer ++ 0 ∷ key_id

abbrev pub key_of : Entry → Bytes
key_of e = revocation_key e.issuer e.key_id

pub data SnapshotError : Type 0 where
  bad_version not_positive too_many blank_identifier long_identifier bad_times duplicate :
      SnapshotError

-- The checks of one entry in the loop of `validateSnapshot`; `seen` holds the keys before it.
unfoldable pub check_entry : List Bytes → Entry → Option SnapshotError
unfolding str_eq
check_entry seen e =
    if is_blank e.issuer || is_blank e.key_id
    then some blank_identifier
    else (if ltb max_identifier_bytes (length e.issuer)
          || ltb max_identifier_bytes (length e.key_id)
        then some long_identifier
        else (if leb_ℤ e.revoked_at (pos 0) || leb_ℤ e.retain_until e.revoked_at
            then some bad_times
            else (if any (λ k. str_eq k (key_of e)) seen then some duplicate else none)))

unfoldable pub check_entries : List Bytes → List Entry → Option SnapshotError
unfolding check_entry
check_entries seen [] = none
check_entries seen (e ∷ es) =
    let rest = check_entries (key_of e ∷ seen) es in
    elim (check_entry seen e) [ none ↦ rest | some error ↦ some error ]

abbrev is_version : ℤ → Bool
is_version v = leb_ℤ v snapshot_version && leb_ℤ snapshot_version v

-- `validateSnapshot`; `none` is a valid snapshot.
unfoldable pub validate_snapshot : Snapshot → Option SnapshotError
unfolding check_entries
validate_snapshot s =
    if not (is_version s.version)
    then some bad_version
    else (if s.generation == 0 || leb_ℤ s.updated_at (pos 0)
        then some not_positive
        else (if ltb max_snapshot_entries (length s.entries)
            then some too_many
            else check_entries [] s.entries))

-- What a valid entry is, apart from the keys of the others.
pub record IsProper (e : Entry) : Type 0 where
  pub issuer : is_blank e.issuer ≡ false
  pub key_id : is_blank e.key_id ≡ false
  pub short_issuer : length e.issuer ≤ max_identifier_bytes
  pub short_key_id : length e.key_id ≤ max_identifier_bytes
  pub revoked : pos 0 <ℤ e.revoked_at
  pub retained : e.revoked_at <ℤ e.retain_until

-- The key is not among those of a list.
abbrev pub IsFresh : Bytes → List Bytes → Type 0
IsFresh key seen = any (λ k. str_eq k key) seen ≡ false

abbrev pub AreProper : List Bytes → List Entry → Type 0
AreProper seen [] = Unit {0}
AreProper seen (e ∷ es) = IsProper e × IsFresh (key_of e) seen × AreProper (key_of e ∷ seen) es

-- Every entry is proper and no two have the same key, at most 100,000 of them, in a snapshot of
-- version 1 with a positive generation and a positive time.
pub record IsValid (s : Snapshot) : Type 0 where
  pub version : s.version ≡ snapshot_version
  pub generation : 0 < s.generation
  pub updated_at : pos 0 <ℤ s.updated_at
  pub few : length s.entries ≤ max_snapshot_entries
  pub entries : AreProper [] s.entries

check_entry-IsProper :
    (seen : List Bytes) (e : Entry)
    → check_entry seen e ≡ none
    → IsProper e × IsFresh (key_of e) seen
unfolding check_entry
check_entry-IsProper seen e h = (
  record {
    issuer = ground arith;
    key_id = ground arith;
    short_issuer = ground arith;
    short_key_id = ground arith;
    revoked = ground arith;
    retained = ground arith;
  },
  ground arith,
)

IsProper-check_entry :
    (seen : List Bytes) (e : Entry)
    → IsProper e
    → IsFresh (key_of e) seen
    → check_entry seen e ≡ none
unfolding check_entry
IsProper-check_entry seen e p f = ground arith

check_entries-AreProper :
    (seen : List Bytes) (es : List Entry) → check_entries seen es ≡ none → AreProper seen es
unfolding check_entries
check_entries-AreProper seen [] h = tt
check_entries-AreProper seen (e ∷ es) h =
    let here : check_entry seen e ≡ none = ground arith in
    let (p, f) = check_entry-IsProper seen e here in
    (p, f, check_entries-AreProper (key_of e ∷ seen) es (ground arith))

AreProper-check_entries :
    (seen : List Bytes) (es : List Entry) → AreProper seen es → check_entries seen es ≡ none
unfolding check_entries
AreProper-check_entries seen [] h = refl
AreProper-check_entries seen (e ∷ es) h =
    ground
      (arith, IsProper-check_entry seen e h.0 h.1, AreProper-check_entries (key_of e ∷ seen) es h.2)

-- `validateSnapshot` accepts exactly the valid snapshots.
pub validate_snapshot_iff : (s : Snapshot) → (validate_snapshot s ≡ none) ↔ IsValid s
validate_snapshot_iff s = (to, from)
  where
    to : validate_snapshot s ≡ none → IsValid s
    to h =
        unfold validate_snapshot in
        record {
          version = ground arith;
          generation = ground arith;
          updated_at = ground arith;
          few = ground arith;
          entries = check_entries-AreProper [] s.entries (ground arith);
        }

    from : IsValid s → validate_snapshot s ≡ none
    from v =
        unfold validate_snapshot in
        (ground (arith, v.version, AreProper-check_entries [] s.entries v.entries))
