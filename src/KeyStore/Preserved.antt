-- ===== src/KeyStore/Preserved.antt =====
-- What MigrateLegacy of internal/kms/local/local.go keeps.
use mathlib.Core.Path.{subst}
use aegis_llm.Prelude.{
  ℕ, suc, ◌+◌, ◌≤◌, ◌≡◌, refl, sym, ap, ◌∙◌, ◌⊎◌, inl, inr, Bool, true, false, not, ltb, List, [],
  ◌∷◌, Bytes, length, Option, none, some, Result, ok, err, ◌>>=◌, if◌then◌else◌, if_elim, arith,
  str_eq, str_eq_sound, str_eq_refl, All, ok_injective, leb, drop, take, length-drop,
}
use aegis_llm.KeyStore.Envelope.{
  Aead, IsAead, KeyStoreError, is_valid_key_id, is_valid_blob_size, is_envelope, gcm_nonce_size,
  max_encrypted_key_blob_bytes, seal_v2_blob, decrypted, open_legacy_blob, open_blob,
}
use aegis_llm.KeyStore.Backend.{Backend, BackendError, IsBackend, IsPut, IsSame}
use aegis_llm.KeyStore.Store.{
  KeyStore, MigrationReport, read_blob, opened_blob, get_key, listed, new_report,
}
use aegis_llm.KeyStore.Opened.{
  envelope, length-envelope, open_blob-envelope, read_blob-ok, get_key-ok, get_key-of, get_key-same,
}
use aegis_llm.KeyStore.Migrate.{
  SourceMetadata, Migration, continued, counted_step, item_of, with_item, validated,
  validate_sources, copied, same_blob, copy_blob, copy_sources, resealed, rewritten, rewrite,
  rewrite_sources, after_copy, after_validation, with_sources, with_existing, migrate_legacy,
  sort_ids,
}

-- A value of a chain of results comes from a value of the first.
bind-ok :
    {E A B : Type 0} (r : Result E A) (k : A → Result E B) (b : B)
    → (r >>= k) ≡ ok b
    → (a : A) × (r ≡ ok a) × (k a ≡ ok b)
bind-ok (ok a) k b h = (a, refl, h)
bind-ok (err e) k b h = absurd cc

module _ {S T : Type 0} (gcm : Aead) (laws : IsAead gcm) (sha256 : Bytes → Bytes)
    (backend : Backend S) (source_law : IsBackend backend) (backup : Backend T)
    (backup_law : IsBackend backup) (store : KeyStore) (nonces : Bytes → Option Bytes) where
  -- The random nonces have the length that is asked for.
  abbrev pub AreNonces : Type 0
  AreNonces = (key_id nonce : Bytes) → nonces key_id ≡ some nonce → length nonce ≡ gcm_nonce_size

  -- No blob of the source is so long that the header of an envelope makes it too long.
  abbrev pub HasRoom : S → Type 0
  HasRoom s =
      (key_id blob : Bytes)
      → backend.get_blob s key_id ≡ ok blob
      → length blob + 10 ≤ max_encrypted_key_blob_bytes

  -- Every key that opens in the one state opens in the other, to the same.
  abbrev pub Keeps : S → S → Type 0
  Keeps s t =
      (key_id plaintext : Bytes)
      → get_key gcm backend store s key_id ≡ ok plaintext
      → get_key gcm backend store t key_id ≡ ok plaintext

  legacy_length :
      (blob plaintext : Bytes)
      → open_legacy_blob gcm blob ≡ ok plaintext
      → length plaintext + gcm.overhead + gcm_nonce_size ≡ length blob
  unfolding open_legacy_blob
  legacy_length blob plaintext =
      if_elim
        (λ (r : Result KeyStoreError Bytes).
          r ≡ ok plaintext → length plaintext + gcm.overhead + gcm_nonce_size ≡ length blob)
        (ltb (length blob) (gcm_nonce_size + gcm.overhead)) (λ _ e. absurd cc)
        (λ long.
          by_open (gcm.unseal (take gcm_nonce_size blob) (drop gcm_nonce_size blob) []) refl
            (ground (arith, long)))
    where
      by_open :
          (o : Option Bytes)
          → gcm.unseal (take gcm_nonce_size blob) (drop gcm_nonce_size blob) [] ≡ o
          → gcm_nonce_size + gcm.overhead ≤ length blob
          → decrypted gcm o ≡ ok plaintext
          → length plaintext + gcm.overhead + gcm_nonce_size ≡ length blob
      by_open none q long h = absurd cc
      by_open (some text) q long h =
          let whole =
            laws.shrinks (take gcm_nonce_size blob) (drop gcm_nonce_size blob) [] plaintext
              (q ∙ ap some (ok_injective h)) in
          omega (arith, whole, long, length-drop gcm_nonce_size blob)

  open_blob_legacy :
      (minimum : ℕ) (key_id blob plaintext : Bytes)
      → is_envelope blob ≡ false
      → open_blob gcm minimum key_id blob ≡ ok plaintext
      → open_legacy_blob gcm blob ≡ ok plaintext
  unfolding open_blob
  open_blob_legacy minimum key_id blob plaintext legacy =
      if_elim (λ (r : Result KeyStoreError Bytes). r ≡ ok plaintext → Goal) (is_envelope blob)
        (λ e h. absurd (ground (arith, e, legacy)))
        (λ _.
          if_elim (λ (r : Result KeyStoreError Bytes). r ≡ ok plaintext → Goal) (leb 2 minimum)
            (λ _ h. absurd cc) (λ _ h. h))
    where
      Goal : Type 0
      Goal = open_legacy_blob gcm blob ≡ ok plaintext

  seal-ok :
      (o : Option Bytes) (key_id plaintext new : Bytes)
      → seal_v2_blob gcm o key_id plaintext ≡ ok new
      → (nonce : Bytes) × (o ≡ some nonce) × (envelope gcm laws nonce key_id plaintext ≡ new)
  unfolding seal_v2_blob
  seal-ok none key_id plaintext new =
      if_elim
        (λ (r : Result KeyStoreError Bytes).
          r ≡ ok new
          → (nonce : Bytes) × (◌≡◌ {A = Option Bytes} none (some nonce))
            × (envelope gcm laws nonce key_id plaintext ≡ new))
        (is_valid_key_id key_id) (λ _ e. absurd cc) (λ _ e. absurd cc)
  seal-ok (some random) key_id plaintext new =
      if_elim
        (λ (r : Result KeyStoreError Bytes).
          r ≡ ok new
          → (nonce : Bytes) × (◌≡◌ {A = Option Bytes} (some random) (some nonce))
            × (envelope gcm laws nonce key_id plaintext ≡ new))
        (is_valid_key_id key_id) (λ _ e. (random, refl, ok_injective e)) (λ _ e. absurd cc)

  module _ (s : S) where
    -- What the backup has of a key is what the source has of it.
    abbrev IsCopied : Bytes → T → Type 0
    IsCopied key_id t =
        (blob : Bytes) → backup.get_blob t key_id ≡ ok blob → backend.get_blob s key_id ≡ ok blob

    abbrev IsMarked : SourceMetadata → Type 0
    IsMarked item =
        (blob : Bytes)
        → backend.get_blob s item.key_id ≡ ok blob
        → item.is_legacy ≡ not (is_envelope blob)

    same_blob-ok :
        (item : SourceMetadata) (r : Result KeyStoreError Bytes) (blob : Bytes)
        → same_blob gcm sha256 backend backup store item r ≡ ok blob
        → r ≡ ok blob
    same_blob-ok item (err e) blob = λ h. absurd cc
    same_blob-ok item (ok found) blob =
        if_elim
          (λ (r : Result KeyStoreError Bytes).
            r ≡ ok blob → ◌≡◌ {A = Result KeyStoreError Bytes} (ok found) (ok blob))
          (str_eq (sha256 found) item.digest) (λ _ e. e) (λ _ e. absurd cc)

    -- One copy keeps what is copied, and adds its own key.
    put-IsCopied :
        (key_id blob other : Bytes) (t after : T)
        → backend.get_blob s key_id ≡ ok blob
        → IsPut backup key_id blob t after
        → (str_eq key_id other ≡ false → IsCopied other t)
        → IsCopied other after
    put-IsCopied key_id blob other t after e put old = by_key (str_eq key_id other) refl
      where
        by_key : (b : Bool) → str_eq key_id other ≡ b → IsCopied other after
        by_key true q found g =
            subst (λ k. backend.get_blob s k ≡ ok found) (str_eq_sound key_id other q)
              (e
                ∙ ap ok (
                    ok_injective (
                      ap (λ b. if b then ok blob else backup.get_blob t other) (sym q)
                      ∙ sym (put other)
                      ∙ g)))
        by_key false q found g =
            old q found (
              ap (λ b. if b then ok blob else backup.get_blob t other) (sym q)
              ∙ sym (put other)
              ∙ g)

    copy_blob-keeps :
        (item : SourceMetadata) (r : Result KeyStoreError Bytes) (other : Bytes) (t : T)
        → ((blob : Bytes) → r ≡ ok blob → backend.get_blob s item.key_id ≡ ok blob)
        → IsCopied other t
        → IsCopied other (copy_blob gcm sha256 backend backup store t item r).0
    copy_blob-keeps item (err e) other t h old = old
    copy_blob-keeps item (ok blob) other t h old = by_outcome (backup_law.atomic t item.key_id blob)
      where
        after : T
        after = (backup.put t item.key_id blob).0

        by_outcome :
            IsPut backup item.key_id blob t after ⊎ IsSame backup t after → IsCopied other after
        by_outcome (inl put) =
            put-IsCopied item.key_id blob other t after (h blob refl) put (λ _. old)
        by_outcome (inr same) = λ found g. old found (sym (same other) ∙ g)

    copied-none :
        (r : T × Option BackendError)
        → copied gcm sha256 backend backup store r ≡ ok tt
        → r.1 ≡ none
    copied-none (t, none) h = refl
    copied-none (t, some e) h = absurd cc

    copy_blob-adds :
        (item : SourceMetadata) (r : Result KeyStoreError Bytes) (t : T)
        → ((blob : Bytes) → r ≡ ok blob → backend.get_blob s item.key_id ≡ ok blob)
        → (copy_blob gcm sha256 backend backup store t item r).1 ≡ ok tt
        → IsCopied item.key_id (copy_blob gcm sha256 backend backup store t item r).0
    copy_blob-adds item (err e) t h c = absurd cc
    copy_blob-adds item (ok blob) t h c =
        put-IsCopied item.key_id blob item.key_id t (backup.put t item.key_id blob).0 (h blob refl)
          (backup_law.stored t item.key_id blob (copied-none (backup.put t item.key_id blob) c))
          (λ q. absurd (ground (arith, q, str_eq_refl item.key_id)))

    read-source :
        (item : SourceMetadata) (blob : Bytes)
        → same_blob gcm sha256 backend backup store item
            (read_blob gcm backend store (backend.get_blob s item.key_id))
          ≡ ok blob
        → backend.get_blob s item.key_id ≡ ok blob
    read-source item blob h =
        (read_blob-ok gcm laws backend store (backend.get_blob s item.key_id) blob
          (same_blob-ok item _ blob h)).0

    abbrev read_item : SourceMetadata → Result KeyStoreError Bytes
    read_item item =
        same_blob gcm sha256 backend backup store item
          (read_blob gcm backend store (backend.get_blob s item.key_id))

    continued-keeps :
        (other : Bytes) (one rest : T × Result KeyStoreError Unit)
        → IsCopied other one.0
        → IsCopied other rest.0
        → IsCopied other (continued one rest).0
    continued-keeps other (t, ok u) rest h k = k
    continued-keeps other (t, err e) rest h k = h

    copy_sources-keeps :
        (items : List SourceMetadata) (other : Bytes) (t : T)
        → IsCopied other t
        → IsCopied other (copy_sources gcm sha256 backend backup store s items t).0
    unfolding copy_sources
    copy_sources-keeps [] other t old = old
    copy_sources-keeps (item ∷ items) other t old =
        let one = copy_blob gcm sha256 backend backup store t item (read_item item) in
        let kept = copy_blob-keeps item (read_item item) other t (read-source item) old in
        continued-keeps other one (copy_sources gcm sha256 backend backup store s items one.0) kept
          (copy_sources-keeps items other one.0 kept)

    continued-ok :
        (one rest : T × Result KeyStoreError Unit)
        → (continued one rest).1 ≡ ok tt
        → (one.1 ≡ ok tt) × (rest.1 ≡ ok tt) × (continued one rest ≡ rest)
    continued-ok (t, ok u) rest h = (refl, h, refl)
    continued-ok (t, err e) rest h = absurd cc

    -- A backup that is complete has every item as the source has it.
    copy_sources-adds :
        (items : List SourceMetadata) (t : T)
        → (copy_sources gcm sha256 backend backup store s items t).1 ≡ ok tt
        → All
            (λ (item : SourceMetadata).
              IsCopied item.key_id (copy_sources gcm sha256 backend backup store s items t).0)
            items
    unfolding copy_sources
    copy_sources-adds [] t h = tt
    copy_sources-adds (item ∷ items) t h =
        let one = copy_blob gcm sha256 backend backup store t item (read_item item) in
        let rest = copy_sources gcm sha256 backend backup store s items one.0 in
        let (first, later, same) = continued-ok one rest h in
        subst
          (λ (r : T × Result KeyStoreError Unit).
            All (λ (i : SourceMetadata). IsCopied i.key_id r.0) (item ∷ items))
          (sym same)
          (
            copy_sources-keeps items item.key_id one.0
                (copy_blob-adds item (read_item item) t (read-source item) first),
            copy_sources-adds items one.0 later,
          )

    with_item-IsMarked :
        (item : SourceMetadata) (r : MigrationReport × Result KeyStoreError (List SourceMetadata))
        (items : List SourceMetadata)
        → IsMarked item
        → ((rest : List SourceMetadata) → r.1 ≡ ok rest → All IsMarked rest)
        → (with_item gcm sha256 backend backup store item r).1 ≡ ok items
        → All IsMarked items
    with_item-IsMarked item (report, ok rest) items m h e =
        subst (All IsMarked) (ok_injective e) (m, h rest refl)
    with_item-IsMarked item (report, err x) items m h e = absurd cc

    item-IsMarked :
        (key_id blob : Bytes)
        → opened_blob gcm backend store s key_id ≡ ok blob
        → IsMarked (item_of gcm sha256 backend backup store key_id blob)
    unfolding opened_blob
    item-IsMarked key_id blob h found g =
        let (read, q, o) =
          bind-ok (read_blob gcm backend store (backend.get_blob s key_id)) _ blob h in
        let (plaintext, p, same) =
          bind-ok (open_blob gcm store.minimum_envelope_version key_id read) _ blob o in
        let at_source =
          (read_blob-ok gcm laws backend store (backend.get_blob s key_id) read q).0 in
        ap (λ b. not (is_envelope b)) (sym (ok_injective same) ∙ ok_injective (sym at_source ∙ g))

    -- The items of the first loop tell the formats of the blobs.
    validate_sources-IsMarked :
        (is_done : Bytes → Bool) (ids : List Bytes) (report : MigrationReport)
        (items : List SourceMetadata)
        → (validate_sources gcm sha256 backend backup store is_done s ids report).1 ≡ ok items
        → All IsMarked items
    unfolding validate_sources
    validate_sources-IsMarked is_done [] report items =
        λ h. subst (All IsMarked) (ok_injective h) tt
    validate_sources-IsMarked is_done (key_id ∷ ids) report items =
        if_elim
          (λ (r : MigrationReport × Result KeyStoreError (List SourceMetadata)).
            r.1 ≡ ok items → All IsMarked items)
          (is_done key_id) (λ _ h. absurd cc)
          (λ _ h.
            by_blob (opened_blob gcm backend store s key_id) refl
              (λ r rest. validate_sources-IsMarked is_done ids r rest) h)
      where
        by_blob :
            (r : Result KeyStoreError Bytes)
            → opened_blob gcm backend store s key_id ≡ r
            → ((report : MigrationReport) (rest : List SourceMetadata)
                → (validate_sources gcm sha256 backend backup store is_done s ids report).1
                  ≡ ok rest
                → All IsMarked rest)
            → (validated gcm sha256 backend backup store key_id report
                (validate_sources gcm sha256 backend backup store is_done s ids)
                r).1
              ≡ ok items
            → All IsMarked items
        by_blob (err x) e later h = absurd cc
        by_blob (ok blob) e later h =
            with_item-IsMarked (item_of gcm sha256 backend backup store key_id blob) _ items
              (item-IsMarked key_id blob e) (λ rest q. later _ rest q) h

    Keeps-put :
        AreNonces
        → HasRoom s
        → (key_id nonce blob plaintext : Bytes) (now after : S) → nonces key_id ≡ some nonce
        → backend.get_blob s key_id ≡ ok blob
        → is_envelope blob ≡ false
        → open_legacy_blob gcm blob ≡ ok plaintext
        → IsPut backend key_id (envelope gcm laws nonce key_id plaintext) now after
        → Keeps s now
        → Keeps s after
    Keeps-put random room key_id nonce blob plaintext now after n g legacy o put old other p q =
        by_key (str_eq key_id other) refl
      where
        new : Bytes
        new = envelope gcm laws nonce key_id plaintext

        size : is_valid_blob_size new ≡ true
        size =
            let long = length-envelope gcm laws nonce key_id plaintext (random key_id nonce n) in
            ground (arith, long, legacy_length blob plaintext o, room key_id blob g)

        by_key : (b : Bool) → str_eq key_id other ≡ b → get_key gcm backend store after other ≡ ok p
        by_key false e =
            get_key-same gcm laws backend store after now other
              (put other ∙ ap (λ b. if b then ok new else backend.get_blob now other) e)
            ∙ old other p q
        by_key true e =
            let same = str_eq_sound key_id other e in
            let (c, v, (found, r, opens)) = get_key-ok gcm laws backend store s other p q in
            let at_source =
              (read_blob-ok gcm laws backend store (backend.get_blob s other) found r).0 in
            let found_blob : found ≡ blob =
              ok_injective (sym at_source ∙ ap (backend.get_blob s) (sym same) ∙ g) in
            let legacy_opens = open_blob_legacy store.minimum_envelope_version other blob p legacy (
              subst (λ b. open_blob gcm store.minimum_envelope_version other b ≡ ok p) found_blob
                opens) in
            let p_plaintext : plaintext ≡ p = ok_injective (sym o ∙ legacy_opens) in
            get_key-of gcm laws backend store after other new p c v
              (put other ∙ ap (λ b. if b then ok new else backend.get_blob now other) e) size
              (subst (λ k. open_blob gcm store.minimum_envelope_version k new ≡ ok p) same
                (open_blob-envelope gcm laws store.minimum_envelope_version nonce key_id plaintext
                    (random key_id nonce n)
                  ∙ ap ok p_plaintext))

    resealed-ok :
        (t : T) (item : SourceMetadata) (new : Bytes)
        → resealed gcm sha256 backend backup store nonces t item ≡ ok new
        → (blob : Bytes) × (plaintext : Bytes) × (nonce : Bytes) × (backup.get_blob t item.key_id
            ≡ ok blob)
          × (open_legacy_blob gcm blob ≡ ok plaintext)
          × (nonces item.key_id ≡ some nonce)
          × (envelope gcm laws nonce item.key_id plaintext ≡ new)
    unfolding open_legacy_blob seal_v2_blob
    resealed-ok t item new h =
        let read = read_blob gcm backup store (backup.get_blob t item.key_id) in
        let checked = same_blob gcm sha256 backend backup store item read in
        let (plaintext, q, sealed) =
          bind-ok (checked >>= open_legacy_blob gcm)
            (seal_v2_blob gcm (nonces item.key_id) item.key_id) new h in
        let (blob, r, opens) = bind-ok checked (open_legacy_blob gcm) plaintext q in
        let at_backup =
          (read_blob-ok gcm laws backup store (backup.get_blob t item.key_id) blob
            (same_blob-ok item read blob r)).0 in
        let (nonce, n, e) = seal-ok (nonces item.key_id) item.key_id plaintext new sealed in
        (blob, plaintext, nonce, at_backup, opens, n, e)

    rewrite-Keeps :
        AreNonces
        → HasRoom s
        → (t : T) (item : SourceMetadata) (now : S) → IsCopied item.key_id t
        → IsMarked item
        → Keeps s now
        → Keeps s (rewrite gcm sha256 backend backup store nonces t item now).0
    unfolding open_legacy_blob seal_v2_blob
    rewrite-Keeps random room t item now copy mark old = by_kind item.is_legacy refl
      where
        by_outcome :
            (new : Bytes)
            → item.is_legacy ≡ true
            → resealed gcm sha256 backend backup store nonces t item ≡ ok new
            → IsPut backend item.key_id new now (backend.put now item.key_id new).0
              ⊎ IsSame backend now (backend.put now item.key_id new).0
            → Keeps s (backend.put now item.key_id new).0
        by_outcome new legacy e (inl put) =
            let (blob, plaintext, nonce, g, o, n, same) = resealed-ok t item new e in
            Keeps-put random room item.key_id nonce blob plaintext now
              (backend.put now item.key_id new).0 n (copy blob g)
              (ground (arith, legacy, mark blob (copy blob g))) o
              (subst (λ b. IsPut backend item.key_id b now (backend.put now item.key_id new).0)
                (sym same) put)
              old
        by_outcome new legacy e (inr same) = λ other p q.
            get_key-same gcm laws backend store (backend.put now item.key_id new).0 now other
              (same other)
            ∙ old other p q

        by_blob :
            (r : Result KeyStoreError Bytes)
            → item.is_legacy ≡ true
            → resealed gcm sha256 backend backup store nonces t item ≡ r
            → Keeps s (rewritten gcm sha256 backend backup store now item.key_id r).0
        by_blob (err x) legacy e = old
        by_blob (ok new) legacy e = by_outcome new legacy e (source_law.atomic now item.key_id new)

        by_kind :
            (b : Bool)
            → item.is_legacy ≡ b
            → Keeps s
                (if b
                  then rewritten gcm sha256 backend backup store now item.key_id
                      (resealed gcm sha256 backend backup store nonces t item)
                  else (now, ok tt)).0
        by_kind false e = old
        by_kind true e = by_blob (resealed gcm sha256 backend backup store nonces t item) e refl

    counted_step-Keeps :
        (one : S × Result KeyStoreError Unit) (n : ℕ) (rest : S × ℕ × Result KeyStoreError Unit)
        → Keeps s one.0
        → Keeps s rest.0
        → Keeps s (counted_step one n rest).0
    counted_step-Keeps (now, ok u) n rest h k = k
    counted_step-Keeps (now, err e) n rest h k = h

    rewrite_sources-Keeps :
        AreNonces
        → HasRoom s
        → (t : T) (items : List SourceMetadata) (now : S) (migrated : ℕ)
        → All (λ (item : SourceMetadata). IsCopied item.key_id t) items
        → All IsMarked items
        → Keeps s now
        → Keeps s (rewrite_sources gcm sha256 backend backup store nonces t items now migrated).0
    unfolding rewrite_sources open_legacy_blob seal_v2_blob
    rewrite_sources-Keeps random room t [] now migrated copies marks old = old
    rewrite_sources-Keeps random room t (item ∷ items) now migrated copies marks old =
        let one = rewrite gcm sha256 backend backup store nonces t item now in
        let kept = rewrite-Keeps random room t item now copies.0 marks.0 old in
        let count = if item.is_legacy then suc migrated else migrated in
        counted_step-Keeps one migrated
          (rewrite_sources gcm sha256 backend backup store nonces t items one.0 count) kept
          (rewrite_sources-Keeps random room t items one.0 count copies.1 marks.1 kept)

    after_copy-Keeps :
        AreNonces
        → HasRoom s
        → (items : List SourceMetadata) (report : MigrationReport)
          (r : T × Result KeyStoreError Unit)
        → (r.1 ≡ ok tt → All (λ (item : SourceMetadata). IsCopied item.key_id r.0) items)
        → All IsMarked items
        → Keeps s (after_copy gcm sha256 backend backup store nonces s items report r).source
    unfolding rewrite_sources
    after_copy-Keeps random room items report (t, err e) copies marks = λ other p q. q
    after_copy-Keeps random room items report (t, ok u) copies marks =
        rewrite_sources-Keeps random room t items s 0 (copies refl) marks (λ other p q. q)

    after_validation-Keeps :
        AreNonces
        → HasRoom s
        → (t : T) (r : MigrationReport × Result KeyStoreError (List SourceMetadata))
        → ((items : List SourceMetadata) → r.1 ≡ ok items → All IsMarked items)
        → Keeps s (after_validation gcm sha256 backend backup store nonces s t r).source
    unfolding copy_sources rewrite_sources
    after_validation-Keeps random room t (report, err e) marks = λ other p q. q
    after_validation-Keeps random room t (report, ok items) marks =
        after_copy-Keeps random room items report
          (copy_sources gcm sha256 backend backup store s items t) (copy_sources-adds items t)
          (marks items refl)

  -- `MigrateLegacy` loses no key: whether it succeeds or fails, and wherever it stops, GetKey gives for
  -- every key what it gave before, if no blob is within 10 bytes of the maximal size. The source and the
  -- backup may fail at any call, as long as a `Put` is seen as a whole or not at all.
  pub migrate_legacy-get_key :
      (is_done : Bytes → Bool) (s : S) (t : T)
      → AreNonces
      → HasRoom s
      → (key_id plaintext : Bytes) → get_key gcm backend store s key_id ≡ ok plaintext
      → get_key gcm backend store
          (migrate_legacy gcm sha256 backend backup store is_done nonces s t).source
          key_id
        ≡ ok plaintext
  unfolding migrate_legacy validate_sources copy_sources rewrite_sources sort_ids
  migrate_legacy-get_key is_done s t random room =
      if_elim (λ (m : Migration gcm sha256 backend backup store). Keeps s m.source) store.closed
        (λ _ other p q. q) (λ _. by_existing (backup.list t))
    where
      by_sources :
          (r : Result KeyStoreError (List Bytes))
          → Keeps s (with_sources gcm sha256 backend backup store is_done nonces s t r).source
      by_sources (err e) = λ other p q. q
      by_sources (ok ids) = after_validation-Keeps s random room t _ (
          validate_sources-IsMarked s is_done (sort_ids ids)
            (new_report gcm backend store (length ids)))

      by_existing :
          (r : Result BackendError (List Bytes))
          → Keeps s (with_existing gcm sha256 backend backup store is_done nonces s t r).source
      by_existing (err e) = λ other p q. q
      by_existing (ok (key_id ∷ ids)) = λ other p q. q
      by_existing (ok []) = by_sources (listed gcm backend store (backend.list s))
