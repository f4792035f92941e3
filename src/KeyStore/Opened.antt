-- ===== src/KeyStore/Opened.antt =====
-- What the envelopes of internal/kms/local/local.go open to, and what StoreKey leaves to GetKey.
use mathlib.Core.Path.{subst}
use aegis_llm.Prelude.{
  ℕ, zero, suc, ◌+◌, ◌≡◌, refl, ap, ◌∙◌, Bool, true, false, not, ltb, [], ◌∷◌, ◌++◌, Bytes, length,
  drop, take, has_prefix, Option, none, some, Result, ok, err, ◌>>=◌, if◌then◌else◌, if_elim, arith,
  length-append, ok_injective, str_eq, str_eq_sound,
}
use aegis_llm.KeyStore.Envelope.{
  Aead, IsAead, KeyStoreError, is_valid_key_id, is_valid_blob_size, envelope_header, envelope_aad,
  gcm_nonce_size, seal_v2_blob, decrypted, open_v2_envelope, open_blob, invalid_key_id, too_large,
  store_closed, key_not_found,
}
use aegis_llm.KeyStore.Backend.{Backend, BackendError, IsBackend, IsPut, not_found, backend_failed}
use aegis_llm.KeyStore.Store.{KeyStore, read_blob, get_key, put_result, put_blob, store_key}

take-append : (n : ℕ) (s t : Bytes) → length s ≡ n → take n (s ++ t) ≡ s
unfolding take
take-append zero [] t e = refl
take-append zero (a ∷ s) t e = absurd (omega (arith, e))
take-append (suc n) [] t e = absurd (omega (arith, e))
take-append (suc n) (a ∷ s) t e = ap (λ r. a ∷ r) (take-append n s t (omega (arith, e)))

drop-append : (n : ℕ) (s t : Bytes) → length s ≡ n → drop n (s ++ t) ≡ t
drop-append zero [] t e = refl
drop-append zero (a ∷ s) t e = absurd (omega (arith, e))
drop-append (suc n) [] t e = absurd (omega (arith, e))
drop-append (suc n) (a ∷ s) t e = drop-append n s t (omega (arith, e))

module _ (gcm : Aead) (laws : IsAead gcm) where
  abbrev pub envelope : Bytes → Bytes → Bytes → Bytes
  envelope nonce key_id plaintext =
      envelope_header ++ (nonce ++ gcm.seal nonce plaintext (envelope_aad envelope_header key_id))

  pub length-envelope :
      (nonce key_id plaintext : Bytes)
      → length nonce ≡ gcm_nonce_size
      → length (envelope nonce key_id plaintext) ≡ 22 + (length plaintext + gcm.overhead)
  length-envelope nonce key_id plaintext e =
      let sealed = gcm.seal nonce plaintext (envelope_aad envelope_header key_id) in
      omega (
        arith,
        e,
        length-append nonce sealed,
        laws.grows nonce plaintext (envelope_aad envelope_header key_id),
      )

  -- An envelope opens to what was sealed, whatever the minimal version is.
  pub open_blob-envelope :
      (minimum : ℕ) (nonce key_id plaintext : Bytes)
      → length nonce ≡ gcm_nonce_size
      → open_blob gcm minimum key_id (envelope nonce key_id plaintext) ≡ ok plaintext
  unfolding open_blob open_v2_envelope has_prefix take
  open_blob-envelope minimum nonce key_id plaintext e =
      let sealed = gcm.seal nonce plaintext (envelope_aad envelope_header key_id) in
      if_elim (λ r. r ≡ ok plaintext) (ltb (length (envelope nonce key_id plaintext)) 10)
        (λ h. absurd (ground (arith, h, length-envelope nonce key_id plaintext e)))
        (λ _.
          if_elim (λ r. r ≡ ok plaintext)
            (ltb (length (envelope nonce key_id plaintext)) (22 + gcm.overhead))
            (λ h. absurd (ground (arith, h, length-envelope nonce key_id plaintext e)))
            (λ _. ap (decrypted gcm) (
              ap
                (λ n.
                  gcm.unseal n (drop 12 (nonce ++ sealed)) (envelope_aad envelope_header key_id))
                (take-append 12 nonce sealed e)
              ∙ ap (λ s. gcm.unseal nonce s (envelope_aad envelope_header key_id))
                  (drop-append 12 nonce sealed e)
              ∙ laws.opens nonce plaintext (envelope_aad envelope_header key_id))))

  module _ {S : Type 0} (backend : Backend S) (store : KeyStore) where
    pub read_blob-ok :
        (r : Result BackendError Bytes) (blob : Bytes)
        → read_blob gcm backend store r ≡ ok blob
        → (r ≡ ok blob) × (is_valid_blob_size blob ≡ true)
    read_blob-ok (err not_found) blob = λ h. absurd cc
    read_blob-ok (err backend_failed) blob = λ h. absurd cc
    read_blob-ok (ok found) blob =
        if_elim
          (λ (r : Result KeyStoreError Bytes).
            r ≡ ok blob
            → (◌≡◌ {A = Result BackendError Bytes} (ok found) (ok blob))
              × (is_valid_blob_size blob ≡ true))
          (is_valid_blob_size found) {x = ok found} {y = err too_large}
          (λ v e.
            (ap ok (ok_injective e), subst (λ b. is_valid_blob_size b ≡ true) (ok_injective e) v))
          (λ v e. absurd cc)

    pub read_blob-valid :
        (blob : Bytes)
        → is_valid_blob_size blob ≡ true
        → read_blob gcm backend store (ok blob) ≡ ok blob
    read_blob-valid blob v =
        ap (λ b. if b then ok blob else err too_large) {x = is_valid_blob_size blob} v

    -- What GetKey needs of a key: an open store, a valid id, and a blob that is read and opens.
    pub get_key-ok :
        (s : S) (key_id plaintext : Bytes)
        → get_key gcm backend store s key_id ≡ ok plaintext
        → (store.closed ≡ false)
          × (is_valid_key_id key_id ≡ true)
          × ((blob : Bytes) × (read_blob gcm backend store (backend.get_blob s key_id) ≡ ok blob)
              × (open_blob gcm store.minimum_envelope_version key_id blob ≡ ok plaintext))
    unfolding get_key
    get_key-ok s key_id plaintext =
        if_elim (λ r. r ≡ ok plaintext → Known) store.closed (λ _ e. absurd cc)
          (λ c.
            if_elim (λ r. r ≡ ok plaintext → Known) (not (is_valid_key_id key_id))
              (λ _ e. absurd cc)
              (λ v e.
                let (blob, q, o) =
                  by_blob (read_blob gcm backend store (backend.get_blob s key_id)) e in
                (c, ground (arith, v), (blob, q, o))))
      where
        Known : Type 0
        Known =
            (store.closed ≡ false)
            × (is_valid_key_id key_id ≡ true)
            × ((blob : Bytes) × (read_blob gcm backend store (backend.get_blob s key_id) ≡ ok blob)
                × (open_blob gcm store.minimum_envelope_version key_id blob ≡ ok plaintext))

        by_blob :
            (r : Result KeyStoreError Bytes)
            → (r >>= open_blob gcm store.minimum_envelope_version key_id) ≡ ok plaintext
            → (blob : Bytes) × (r ≡ ok blob)
              × (open_blob gcm store.minimum_envelope_version key_id blob ≡ ok plaintext)
        by_blob (ok blob) e = (blob, refl, e)
        by_blob (err x) e = absurd cc

    pub get_key-of :
        (s : S) (key_id blob plaintext : Bytes)
        → store.closed ≡ false
        → is_valid_key_id key_id ≡ true
        → backend.get_blob s key_id ≡ ok blob
        → is_valid_blob_size blob ≡ true
        → open_blob gcm store.minimum_envelope_version key_id blob ≡ ok plaintext
        → get_key gcm backend store s key_id ≡ ok plaintext
    unfolding get_key
    get_key-of s key_id blob plaintext c v g size o =
        ap
          (λ b.
            if b
            then err store_closed
            else (if not (is_valid_key_id key_id)
                then err key_not_found
                else (read_blob gcm backend store (backend.get_blob s key_id)
                    >>= open_blob gcm store.minimum_envelope_version key_id)))
          {x = store.closed} c
        ∙ ap
            (λ b.
              if not b
              then err key_not_found
              else (read_blob gcm backend store (backend.get_blob s key_id)
                  >>= open_blob gcm store.minimum_envelope_version key_id))
            {x = is_valid_key_id key_id} v
        ∙ ap
            (λ (r : Result BackendError Bytes).
              read_blob gcm backend store r >>= open_blob gcm store.minimum_envelope_version key_id)
            g
        ∙ ap
            (λ (r : Result KeyStoreError Bytes).
              r >>= open_blob gcm store.minimum_envelope_version key_id)
            (read_blob-valid blob size)
        ∙ o

    pub get_key-same :
        (s t : S) (key_id : Bytes)
        → backend.get_blob s key_id ≡ backend.get_blob t key_id
        → get_key gcm backend store s key_id ≡ get_key gcm backend store t key_id
    unfolding get_key
    get_key-same s t key_id e =
        ap
          (λ (r : Result BackendError Bytes).
            if store.closed
            then err store_closed
            else (if not (is_valid_key_id key_id)
                then err key_not_found
                else (read_blob gcm backend store r
                    >>= open_blob gcm store.minimum_envelope_version key_id)))
          e

    -- StoreKey with a nonce of 12 bytes, when it reports no error, leaves a key that GetKey gives back, and
    -- the other keys as they were.
    pub store_key-get_key :
        IsBackend backend
        → (s : S) (nonce key_id plaintext other : Bytes) → length nonce ≡ gcm_nonce_size
        → (store_key gcm backend store (some nonce) s key_id plaintext).1 ≡ none
        → get_key gcm backend store
            (store_key gcm backend store (some nonce) s key_id plaintext).0
            other
          ≡ (if str_eq key_id other then ok plaintext else get_key gcm backend store s other)
    unfolding store_key seal_v2_blob
    store_key-get_key law s nonce key_id plaintext other e =
        if_elim Kept store.closed (λ c h. absurd cc) (λ c. by_id (is_valid_key_id key_id) refl c)
      where
        Kept : S × Option KeyStoreError → Type 0
        Kept r =
            r.1 ≡ none
            → get_key gcm backend store r.0 other
              ≡ (if str_eq key_id other then ok plaintext else get_key gcm backend store s other)

        blob : Bytes
        blob = envelope nonce key_id plaintext

        seen :
            is_valid_key_id key_id ≡ true
            → store.closed ≡ false
            → is_valid_blob_size blob ≡ true
            → (after : S) → IsPut backend key_id blob s after
            → get_key gcm backend store after other
              ≡ (if str_eq key_id other then ok plaintext else get_key gcm backend store s other)
        seen v c size after put = by_key (str_eq key_id other) refl
          where
            by_key :
                (b : Bool)
                → str_eq key_id other ≡ b
                → get_key gcm backend store after other
                  ≡ (if b then ok plaintext else get_key gcm backend store s other)
            by_key true q =
                let same = str_eq_sound key_id other q in
                get_key-of after other blob plaintext c
                  (subst (λ k. is_valid_key_id k ≡ true) same v)
                  (put other ∙ ap (λ b. if b then ok blob else backend.get_blob s other) q) size
                  (subst (λ k. open_blob gcm store.minimum_envelope_version k blob ≡ ok plaintext)
                    same
                    (open_blob-envelope store.minimum_envelope_version nonce key_id plaintext e))
            by_key false q =
                get_key-same after s other
                  (put other ∙ ap (λ b. if b then ok blob else backend.get_blob s other) q)

        by_put :
            is_valid_key_id key_id ≡ true
            → store.closed ≡ false
            → is_valid_blob_size blob ≡ true
            → (r : S × Option BackendError) → (r.1 ≡ none → IsPut backend key_id blob s r.0)
            → Kept (put_result gcm backend store r)
        by_put v c size (after, none) put h = seen v c size after (put refl)
        by_put v c size (after, some x) put h = absurd cc

        by_id :
            (b : Bool)
            → is_valid_key_id key_id ≡ b
            → store.closed ≡ false
            → Kept (
                if not b
                then (s, some invalid_key_id)
                else put_blob gcm backend store s key_id
                    (if b then ok blob else err invalid_key_id))
        by_id false v c = λ h. absurd cc
        by_id true v c =
            if_elim Kept (is_valid_blob_size blob)
              (λ size. by_put v c size (backend.put s key_id blob) (law.stored s key_id blob))
              (λ _ h. absurd cc)
