-- ===== src/Revocation/Sample.antt =====
-- A codec for the tests: it writes the snapshots whose issuers and key ids are all "u".
use aegis_llm.Prelude.{
  ℕ, ◌≡◌, refl, Bool, true, ◌&&◌, ℤ, pos, negsuc, pos_part, neg_part, sub_ℕ, Option, none, some,
  List, [], ◌∷◌, ◌++◌, arith, Bytes, codes, str_eq, str_eq_sound, and_true,
}
use aegis_llm.Revocation.Snapshot.{Entry, Snapshot}
use aegis_llm.Revocation.File.{Codec}
use aegis_llm.Revocation.Kept.{are_texts}
use aegis_llm.Revocation.Revoke.{IsCodec}

abbrev pub u : Bytes
u = codes "u"

abbrev pub is_u : Bytes → Bool
is_u s = str_eq s u

abbrev entry_of : ℤ → ℤ → Entry
entry_of revoked_at retain_until = record {
  issuer = u;
  key_id = u;
  revoked_at = revoked_at;
  retain_until = retain_until;
}

unfoldable pub encode_entries : List Entry → Bytes
encode_entries [] = []
encode_entries (e ∷ es) =
    pos_part e.revoked_at
    ∷ neg_part e.revoked_at
    ∷ pos_part e.retain_until
    ∷ neg_part e.retain_until
    ∷ encode_entries es

abbrev cons_entry : Entry → Option (List Entry) → Option (List Entry)
cons_entry e none = none
cons_entry e (some es) = some (e ∷ es)

unfoldable pub decode_entries : Bytes → Option (List Entry)
decode_entries [] = none
decode_entries (a ∷ []) = some []
decode_entries (a ∷ b ∷ []) = none
decode_entries (a ∷ b ∷ c ∷ []) = none
decode_entries (a ∷ b ∷ c ∷ d ∷ rest) =
    cons_entry (entry_of (sub_ℕ a b) (sub_ℕ c d)) (decode_entries rest)

abbrev snapshot_of : ℤ → ℕ → ℤ → Option (List Entry) → Option Snapshot
snapshot_of version generation updated_at none = none
snapshot_of version generation updated_at (some es) =
    some
      (record { version = version; generation = generation; updated_at = updated_at; entries = es })

unfoldable pub encode_u : Snapshot → Bytes
unfolding encode_entries
encode_u s =
    pos_part s.version
    ∷ neg_part s.version
    ∷ s.generation
    ∷ pos_part s.updated_at
    ∷ neg_part s.updated_at
    ∷ encode_entries s.entries

unfoldable pub decode_u : Bytes → Option Snapshot
unfolding decode_entries
decode_u (a ∷ b ∷ g ∷ c ∷ d ∷ rest) = snapshot_of (sub_ℕ a b) g (sub_ℕ c d) (decode_entries rest)
decode_u raw = none

abbrev pub sample_codec : Codec
sample_codec = record { decode = decode_u; encode = encode_u; digest = λ raw. raw; is_text = is_u }

parts_eq : (z : ℤ) → sub_ℕ (pos_part z) (neg_part z) ≡ z
parts_eq (pos n) = ground arith
parts_eq (negsuc n) = ground arith

entry_eq :
    (e : Entry) → (is_u e.issuer && is_u e.key_id) ≡ true → entry_of e.revoked_at e.retain_until ≡ e
entry_eq e h =
    let (i, k) = and_true (is_u e.issuer) (is_u e.key_id) h in
    let is = str_eq_sound e.issuer u i in
    let ks = str_eq_sound e.key_id u k in ground (arith, is, ks)

entries_trip :
    (es : List Entry)
    → are_texts is_u es ≡ true
    → decode_entries (encode_entries es ++ 10 ∷ []) ≡ some es
unfolding decode_entries encode_entries
entries_trip [] h = refl
entries_trip (e ∷ es) h =
    let (here, later) = and_true (is_u e.issuer && is_u e.key_id) (are_texts is_u es) h in
    rw (parts_eq e.revoked_at, parts_eq e.retain_until, entry_eq e here, entries_trip es later) refl

cons-texts :
    (a b : ℤ) (o : Option (List Entry)) (es : List Entry)
    → ((fs : List Entry) → o ≡ some fs → are_texts is_u fs ≡ true)
    → cons_entry (entry_of a b) o ≡ some es
    → are_texts is_u es ≡ true
unfolding str_eq
cons-texts a b none es ih h = cc
cons-texts a b (some fs) es ih h = ground (arith, h, ih fs refl)

decode_entries-texts :
    (raw : Bytes) (es : List Entry) → decode_entries raw ≡ some es → are_texts is_u es ≡ true
unfolding decode_entries
decode_entries-texts [] es h = cc
decode_entries-texts (a ∷ []) es h = ground (arith, h)
decode_entries-texts (a ∷ b ∷ []) es h = cc
decode_entries-texts (a ∷ b ∷ c ∷ []) es h = cc
decode_entries-texts (a ∷ b ∷ c ∷ d ∷ rest) es h =
    cons-texts (sub_ℕ a b) (sub_ℕ c d) (decode_entries rest) es
      (λ fs q. decode_entries-texts rest fs q) h

snapshot-texts :
    (v : ℤ) (g : ℕ) (t : ℤ) (o : Option (List Entry)) (s : Snapshot)
    → snapshot_of v g t o ≡ some s
    → o ≡ some s.entries
snapshot-texts v g t none s h = cc
snapshot-texts v g t (some es) s h = ground (arith, h)

decode_u-texts :
    (raw : Bytes) (s : Snapshot) → decode_u raw ≡ some s → are_texts is_u s.entries ≡ true
unfolding decode_u
decode_u-texts (a ∷ b ∷ g ∷ c ∷ d ∷ rest) s h =
    decode_entries-texts rest s.entries
      (snapshot-texts (sub_ℕ a b) g (sub_ℕ c d) (decode_entries rest) s h)
decode_u-texts raw s h = cc

pub sample_codec-IsCodec : IsCodec sample_codec
unfolding decode_u encode_u
sample_codec-IsCodec = record {
  decode-encode =
      λ s h. rw (parts_eq s.version, parts_eq s.updated_at, entries_trip s.entries h) refl;
  decode-texts = decode_u-texts;
}
