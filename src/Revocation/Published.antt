-- ===== src/Revocation/Published.antt =====
-- What a reader of internal/revocation/revocation.go publishes after `Refresh`, and what `Check` then
-- answers.
use aegis_llm.Prelude.{
  ◌≤◌, ◌≡◌, refl, Bool, true, false, ◌&&◌, ℤ, ◌≤ℤ◌, ◌<ℤ◌, Option, none, some, List, [], ◌∷◌, Memᴰ,
  arith, inl, inr, Bytes, str_eq, str_eq_iff, str_eq_refl, Map, lookup, insert, lookup-insert, any,
  any_mem, and_true, str_eq_sound, ltb_ℤ, is_some, Result, ok, err, Bool-cases,
}
use aegis_llm.Revocation.Snapshot.{Entry, Snapshot, revocation_key, key_of}
use aegis_llm.Revocation.File.{RevocationError}
use aegis_llm.Revocation.Reader.{
  ReaderState, RefreshError, rollback, out_of_service, in_service, refresh, check, load,
  some_shortened, falls_short, is_rollback, rolls_back, allowed, unavailable, revoked,
}

-- A map holds a key until at least a time.
abbrev pub HoldsUntil : Map ℤ → Bytes → ℤ → Type 0
HoldsUntil m key time = (r : ℤ) × (lookup key m ≡ some r) × (time ≤ℤ r)

falls_short-some :
    (o : Option ℤ) (r : ℤ) → falls_short o r ≡ false → (t : ℤ) × (o ≡ some t) × (r ≤ℤ t)
falls_short-some none r h = cc
falls_short-some (some t) r h = (t, refl, ground arith)

some_shortened-HoldsUntil :
    (now : ℤ) (new old : Map ℤ) (key : Bytes) (r : ℤ)
    → some_shortened now new old ≡ false
    → lookup key old ≡ some r
    → now <ℤ r
    → HoldsUntil new key r
unfolding some_shortened lookup
some_shortened-HoldsUntil now new [] key r fine found live = cc
some_shortened-HoldsUntil now new ((j, t) ∷ old) key r fine found live =
    elim (Bool-cases (str_eq j key)) [
      | inl e ↦
          let same : t ≡ r = ground arith in
          let k : j ≡ key = (str_eq_iff j key).0 e in
          falls_short-some (lookup key new) r (ground (arith, same, k, fine, live))
      | inr e ↦ some_shortened-HoldsUntil now new old key r (ground arith) (rw e at found) live
    ]

is_rollback-parts :
    (now : ℤ) (s : Snapshot) (digest : Bytes) (state : ReaderState)
    → is_rollback now s digest state ≡ false
    → (state.generation ≤ s.generation)
      × (some_shortened now (load now s.entries []) state.revoked ≡ false)
unfolding is_rollback
is_rollback-parts now s digest state h = (ground arith, ground arith)

-- What a map tells of a key that another map had a tombstone of: a live one is there, until its time.
pub data StillHeld (now : ℤ) (m : Map ℤ) (key : Bytes) : Option ℤ → Type 0 where
  no_tombstone : StillHeld now m key none
  expired : (r : ℤ) → r ≤ℤ now → StillHeld now m key (some r)
  still_live : (r : ℤ) → now <ℤ r → HoldsUntil m key r → StillHeld now m key (some r)

StillHeld-if_live :
    (now : ℤ) (m : Map ℤ) (key : Bytes) (o : Option ℤ)
    → ((r : ℤ) → o ≡ some r → now <ℤ r → HoldsUntil m key r)
    → StillHeld now m key o
StillHeld-if_live now m key none h = no_tombstone
StillHeld-if_live now m key (some r) h = elim (Bool-cases (ltb_ℤ now r)) [
  | inl e ↦ still_live r (ground (arith, e)) (h r refl (ground (arith, e)))
  | inr e ↦ expired r (ground (arith, e))
]

-- A refresh, whatever it reads, keeps the tombstone of any key if it is live at its time, with its end or
-- a later one; and it never goes back to an older generation, with live tombstones or without.
pub refresh-keeps_live :
    (now : ℤ) (read : Result RevocationError (Snapshot × Bytes)) (state : ReaderState) (key : Bytes)
    → (state.generation ≤ (refresh now read (some state)).generation)
      × StillHeld now (refresh now read (some state)).revoked key (lookup key state.revoked)
unfolding refresh
refresh-keeps_live now (err e) state key = (
  omega arith,
  StillHeld-if_live now state.revoked key (lookup key state.revoked) (λ r h _. (r, h, omega arith)),
)
refresh-keeps_live now (ok (s, digest)) state key =
    elim (Bool-cases (is_rollback now s digest state)) [
      | inl e ↦
          rw (e, refresh)
            (
              omega arith,
              StillHeld-if_live now state.revoked key (lookup key state.revoked)
                  (λ r h _. (r, h, omega arith)),
            )
      | inr e ↦
          let (newer, kept) = is_rollback-parts now s digest state e in
          rw (e, refresh)
            (
              newer,
              StillHeld-if_live now (load now s.entries []) key (lookup key state.revoked)
                  (λ r h alive.
                    some_shortened-HoldsUntil now (load now s.entries []) state.revoked key r kept h
                      alive),
            )
    ]

member-insert :
    (k key : Bytes) (v : ℤ) (m : Map ℤ)
    → is_some (lookup key m) ≡ true
    → is_some (lookup key (insert k v m)) ≡ true
member-insert k key v m h = ground (arith, lookup-insert k key v m)

load-keeps :
    (now : ℤ) (es : List Entry) (m : Map ℤ) (key : Bytes)
    → is_some (lookup key m) ≡ true
    → is_some (lookup key (load now es m)) ≡ true
unfolding load
load-keeps now [] m key h = h
load-keeps now (e ∷ es) m key h =
    let with = member-insert (key_of e) key e.retain_until m h in
    ground (
      arith,
      load-keeps now es m key h,
      load-keeps now es (insert (key_of e) e.retain_until m) key with,
    )

member-inserted : (k : Bytes) (v : ℤ) (m : Map ℤ) → is_some (lookup k (insert k v m)) ≡ true
member-inserted k v m = ground (arith, lookup-insert k k v m, str_eq_refl k)

ltb_of_live : (now : ℤ) (e : Entry) → now <ℤ e.retain_until → ltb_ℤ now e.retain_until ≡ true
ltb_of_live now e live = ground arith

-- Every live entry is in the table.
load-reports :
    (now : ℤ) {e : Entry} (es : List Entry) (m : Map ℤ)
    → Memᴰ e es
    → now <ℤ e.retain_until
    → is_some (lookup (key_of e) (load now es m)) ≡ true
unfolding load
load-reports now [] m at live = elim at [ ]
load-reports now {e} (f ∷ es) m (Memᴰ.head q) live =
    let here = ltb_of_live now f (rw q at live) in
    let inserted = member-inserted (key_of f) f.retain_until m in
    let kept = load-keeps now es (insert (key_of f) f.retain_until m) (key_of f) inserted in
    rw q (rw here kept)
load-reports now (f ∷ es) m (Memᴰ.tail t) live = ground (
  arith,
  load-reports now es m t live,
  load-reports now es (insert (key_of f) f.retain_until m) t live,
)

-- An entry for the key is live.
unfoldable pub has_tombstone : ℤ → Bytes → Bytes → List Entry → Bool
unfolding str_eq
has_tombstone now issuer key_id es =
    any (λ e. str_eq (key_of e) (revocation_key issuer key_id) && ltb_ℤ now e.retain_until) es

has_tombstone-reported :
    (now : ℤ) (issuer key_id : Bytes) (es : List Entry)
    → has_tombstone now issuer key_id es ≡ true
    → is_some (lookup (revocation_key issuer key_id) (load now es [])) ≡ true
unfolding has_tombstone
has_tombstone-reported now issuer key_id es h =
    let (e, at, q) =
      any_mem (λ e. str_eq (key_of e) (revocation_key issuer key_id) && ltb_ℤ now e.retain_until) es
        h in
    let (same, live) =
      and_true (str_eq (key_of e) (revocation_key issuer key_id)) (ltb_ℤ now e.retain_until) q in
    let k = str_eq_sound (key_of e) (revocation_key issuer key_id) same in
    rw k at (load-reports now es [] at (ground arith))

out_of_service-unavailable :
    (before : Option ReaderState) (e : RefreshError) (issuer key_id : Bytes)
    → check false (some (out_of_service before e)) issuer key_id ≡ unavailable
unfolding check
out_of_service-unavailable none e issuer key_id = refl
out_of_service-unavailable (some state) e issuer key_id = refl

-- A live tombstone that a refresh loads revokes its key.
in_service-revoked :
    (now : ℤ) (s : Snapshot) (digest issuer key_id : Bytes)
    → has_tombstone now issuer key_id s.entries ≡ true
    → check false (some (in_service now s digest)) issuer key_id ≡ revoked
unfolding check
in_service-revoked now s digest issuer key_id t =
    rw (has_tombstone-reported now issuer key_id s.entries t) refl

-- When a key is allowed right after a refresh, the refresh has read a snapshot that is not a rollback
-- and in which no tombstone of that key is live.
pub check-allowed_only :
    (now : ℤ) (read : Result RevocationError (Snapshot × Bytes)) (before : Option ReaderState)
    (issuer key_id : Bytes)
    → check false (some (refresh now read before)) issuer key_id ≡ allowed
    → (s : Snapshot) × (digest : Bytes) × (read ≡ ok (s, digest))
      × (rolls_back now s digest before ≡ false)
      × (has_tombstone now issuer key_id s.entries ≡ false)
unfolding refresh check
check-allowed_only now (err e) none issuer key_id h = cc
check-allowed_only now (err e) (some state) issuer key_id h = cc
check-allowed_only now (ok (s, digest)) before issuer key_id h =
    elim (Bool-cases (rolls_back now s digest before)) [
      | inl e ↦
          let r : check false (some (out_of_service before rollback)) issuer key_id ≡ allowed =
            rw e at h in
          let o = out_of_service-unavailable before rollback issuer key_id in cc
      | inr e ↦ elim (Bool-cases (has_tombstone now issuer key_id s.entries)) [
        | inl t ↦
            let i : check false (some (in_service now s digest)) issuer key_id ≡ allowed =
              rw e at h in
            let o = in_service-revoked now s digest issuer key_id t in cc
        | inr t ↦ (s, digest, refl, e, t)
      ]
    ]
