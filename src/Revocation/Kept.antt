-- ===== src/Revocation/Kept.antt =====
-- The entries that the loop of `Writer.Revoke` keeps, and their sort, in
-- internal/revocation/revocation.go.
use aegis_llm.Prelude.{
  ◌≡◌, refl, Bool, true, false, not, ◌&&◌, ◌||◌, ℤ, leb_ℤ, ltb_ℤ, ◌≤ℤ◌, ◌<ℤ◌, List, [], ◌∷◌, ◌++◌,
  Memᴰ, arith, inl, inr, Bytes, all, any_mem, mem_any, any-false, and_true, str_eq, str_eq_refl,
  str_eq_sound, Bool-cases,
}
use aegis_llm.Revocation.Snapshot.{Entry, revocation_key, key_of}
use aegis_llm.Revocation.Writer.{
  is_for, extend, keep, found, loop_changed, insert_entry, sort_entries, kept_entries, is_changed,
  tombstone, entry_less,
}
use aegis_llm.Revocation.Published.{has_tombstone}

past_head :
    {x e : Entry} {es : List Entry} (f : Entry) (fs : List Entry)
    → Memᴰ x (e ∷ f ∷ es)
    → (Memᴰ x (e ∷ es) → Memᴰ x fs)
    → Memᴰ x (f ∷ fs)
past_head f fs (Memᴰ.head q) rest = Memᴰ.tail (rest (Memᴰ.head q))
past_head f fs (Memᴰ.tail (Memᴰ.head q)) rest = Memᴰ.head q
past_head f fs (Memᴰ.tail (Memᴰ.tail t)) rest = Memᴰ.tail (rest (Memᴰ.tail t))

insert_entry-mem :
    {x : Entry} (e : Entry) (es : List Entry) → Memᴰ x (e ∷ es) → Memᴰ x (insert_entry e es)
unfolding insert_entry
insert_entry-mem e [] at = at
insert_entry-mem e (f ∷ es) at = elim (Bool-cases (entry_less f e)) [
  | inr e2 ↦ rw (e2, insert_entry) at
  | inl e2 ↦
      rw (e2, insert_entry) (past_head f (insert_entry e es) at (λ p. insert_entry-mem e es p))
]

-- Sorting loses no entry.
sort_entries-mem : {x : Entry} (es : List Entry) → Memᴰ x es → Memᴰ x (sort_entries es)
unfolding sort_entries
sort_entries-mem [] at = at
sort_entries-mem (e ∷ es) (Memᴰ.head q) = insert_entry-mem e (sort_entries es) (Memᴰ.head q)
sort_entries-mem (e ∷ es) (Memᴰ.tail t) =
    insert_entry-mem e (sort_entries es) (Memᴰ.tail (sort_entries-mem es t))

append-left : {x : Entry} (es fs : List Entry) → Memᴰ x es → Memᴰ x (es ++ fs)
append-left [] fs at = elim at [ ]
append-left (e ∷ es) fs (Memᴰ.head q) = Memᴰ.head q
append-left (e ∷ es) fs (Memᴰ.tail t) = Memᴰ.tail (append-left es fs t)

append-right : {x : Entry} (es fs : List Entry) → Memᴰ x fs → Memᴰ x (es ++ fs)
append-right [] fs at = at
append-right (e ∷ es) fs at = Memᴰ.tail (append-right es fs at)

module _ (issuer key_id : Bytes) (now desired : ℤ) where
  -- The entries of the loop that are live stay, extended.
  keep-mem :
      {e : Entry} (es : List Entry)
      → Memᴰ e es
      → leb_ℤ e.retain_until now ≡ false
      → Memᴰ (extend issuer key_id desired e) (keep issuer key_id now desired es)
  unfolding keep
  keep-mem [] at live = elim at [ ]
  keep-mem (f ∷ es) (Memᴰ.head q) live = rw (rw q at live) (Memᴰ.head (rw q refl))
  keep-mem (f ∷ es) (Memᴰ.tail t) live = elim (Bool-cases (leb_ℤ f.retain_until now)) [
    | inl e ↦ rw e (keep-mem es t live)
    | inr e ↦ rw e (Memᴰ.tail (keep-mem es t live))
  ]

  kept_entries-mem :
      {e : Entry} (es : List Entry)
      → Memᴰ e (keep issuer key_id now desired es)
      → Memᴰ e (sort_entries (kept_entries issuer key_id now desired es))
  unfolding kept_entries
  kept_entries-mem es at = elim (Bool-cases (found issuer key_id now es)) [
    | inl e ↦ rw e (sort_entries-mem (keep issuer key_id now desired es) at)
    | inr e ↦ rw e (
        sort_entries-mem
          (keep issuer key_id now desired es ++ tombstone issuer key_id now desired ∷ [])
          (append-left (keep issuer key_id now desired es)
            (tombstone issuer key_id now desired ∷ []) at))
  ]

  extend-until :
      (e : Entry)
      → is_for issuer key_id e ≡ true
      → (is_for issuer key_id (extend issuer key_id desired e) ≡ true)
        × (desired ≤ℤ (extend issuer key_id desired e).retain_until)
  unfolding extend
  extend-until e h = (ground (arith, h), ground (arith, h))

  -- A tombstone of the key that is kept until `desired`.
  abbrev pub HasKept : List Entry → Type 0
  HasKept es =
      (e : Entry) × Memᴰ e es × (is_for issuer key_id e ≡ true) × (desired ≤ℤ e.retain_until)

  pub kept_entries-HasKept :
      (es : List Entry) → HasKept (sort_entries (kept_entries issuer key_id now desired es))
  unfolding kept_entries found
  kept_entries-HasKept es = elim (Bool-cases (found issuer key_id now es)) [
    | inl e ↦
        let (x, at, q) =
          any_mem (λ e. not (leb_ℤ e.retain_until now) && is_for issuer key_id e) es e in
        let (live, for) = and_true (not (leb_ℤ x.retain_until now)) (is_for issuer key_id x) q in
        let (for2, until) = extend-until x for in
        (
          extend issuer key_id desired x,
          kept_entries-mem es (keep-mem es at (ground (arith, live))),
          for2,
          until,
        )
    | inr e ↦ (
      tombstone issuer key_id now desired,
      rw e (
          sort_entries-mem
            (keep issuer key_id now desired es ++ tombstone issuer key_id now desired ∷ [])
            (append-right (keep issuer key_id now desired es)
              (tombstone issuer key_id now desired ∷ []) (Memᴰ.head refl))),
      ground (arith, str_eq_refl issuer, str_eq_refl key_id),
      omega arith,
    )
  ]

  pub unchanged-HasKept :
      (es : List Entry) → is_changed issuer key_id now desired es ≡ false → HasKept es
  unfolding is_changed found loop_changed
  unchanged-HasKept es h =
      let (x, at, q) =
        any_mem (λ e. not (leb_ℤ e.retain_until now) && is_for issuer key_id e) es
          (ground (arith, h)) in
      let (live, for) = and_true (not (leb_ℤ x.retain_until now)) (is_for issuer key_id x) q in
      let same =
        any-false
          (λ e.
            leb_ℤ e.retain_until now || (is_for issuer key_id e && ltb_ℤ e.retain_until desired))
          es (ground (arith, h)) at in
      (x, at, for, ground (arith, same, for))

  pub HasKept-has_tombstone :
      (time : ℤ) (es : List Entry)
      → HasKept es
      → time <ℤ desired
      → has_tombstone time issuer key_id es ≡ true
  unfolding has_tombstone
  HasKept-has_tombstone time es (x, at, for, until) early =
      let (i, k) = and_true (str_eq x.issuer issuer) (str_eq x.key_id key_id) for in
      let is = str_eq_sound x.issuer issuer i in
      let ks = str_eq_sound x.key_id key_id k in
      mem_any (λ e. str_eq (key_of e) (revocation_key issuer key_id) && ltb_ℤ time e.retain_until)
        es at (ground (arith, is, ks, str_eq_refl (revocation_key issuer key_id)))

module _ (is_text : Bytes → Bool) where
  -- The identifiers of the entries are texts.
  abbrev pub are_texts : List Entry → Bool
  are_texts es = all (λ e. is_text e.issuer && is_text e.key_id) es

  insert_entry-are_texts :
      (e : Entry) (es : List Entry)
      → are_texts (e ∷ es) ≡ true
      → are_texts (insert_entry e es) ≡ true
  unfolding insert_entry
  insert_entry-are_texts e [] h = h
  insert_entry-are_texts e (f ∷ es) h = ground (arith, h, insert_entry-are_texts e es)

  sort_entries-are_texts :
      (es : List Entry) → are_texts es ≡ true → are_texts (sort_entries es) ≡ true
  unfolding sort_entries
  sort_entries-are_texts [] h = refl
  sort_entries-are_texts (e ∷ es) h =
      insert_entry-are_texts e (sort_entries es) (ground (arith, h, sort_entries-are_texts es))

  module _ (issuer key_id : Bytes) (now desired : ℤ) where
    extend-are_texts :
        (e : Entry)
        → (is_text e.issuer && is_text e.key_id) ≡ true
        → (is_text (extend issuer key_id desired e).issuer
            && is_text (extend issuer key_id desired e).key_id)
          ≡ true
    unfolding extend
    extend-are_texts e h = ground (arith, h)

    keep-are_texts :
        (es : List Entry)
        → are_texts es ≡ true
        → are_texts (keep issuer key_id now desired es) ≡ true
    unfolding keep
    keep-are_texts [] h = refl
    keep-are_texts (e ∷ es) h = ground (arith, h, keep-are_texts es, extend-are_texts e)

    append-are_texts :
        (es fs : List Entry)
        → are_texts es ≡ true
        → are_texts fs ≡ true
        → are_texts (es ++ fs) ≡ true
    append-are_texts [] fs h k = k
    append-are_texts (e ∷ es) fs h k = ground (arith, h, append-are_texts es fs)

    pub kept_entries-are_texts :
        (es : List Entry)
        → is_text issuer ≡ true
        → is_text key_id ≡ true
        → are_texts es ≡ true
        → are_texts (sort_entries (kept_entries issuer key_id now desired es)) ≡ true
    unfolding kept_entries
    kept_entries-are_texts es i k h =
        let kept = keep-are_texts es h in
        sort_entries-are_texts (kept_entries issuer key_id now desired es) (
          ground (
            arith,
            kept,
            append-are_texts (keep issuer key_id now desired es)
                (tombstone issuer key_id now desired ∷ []),
            i,
            k,
          ))
