-- ===== src/KeyStore/Backend.antt =====
-- internal/kms/local/local.go: `Backend`, and `MemoryBackend` as one.
use aegis_llm.Prelude.{
  ◌≡◌, refl, ◌⊎◌, inl, Bool, true, false, List, [], map, Bytes, Option, none, some, Result, ok, err,
  if◌then◌else◌, Map, lookup, insert, remove, str_eq, lookup-insert, ap, ◌∙◌,
}

pub data BackendError : Type 0 where
  not_found backend_failed : BackendError

-- `Backend`, over a state.
pub record Backend (S : Type 0) : Type 0 where
  pub get_blob : S → Bytes → Result BackendError Bytes
  pub put : S → Bytes → Bytes → S × Option BackendError
  pub delete : S → Bytes → S × Option BackendError
  pub list : S → Result BackendError (List Bytes)

-- The state has the blob under the key, and else what the other has.
abbrev pub IsPut : {S : Type 0} → Backend S → Bytes → Bytes → S → S → Type 0
IsPut b key blob before after =
    (other : Bytes)
    → b.get_blob after other ≡ (if str_eq key other then ok blob else b.get_blob before other)

abbrev pub IsSame : {S : Type 0} → Backend S → S → S → Type 0
IsSame b before after = (other : Bytes) → b.get_blob after other ≡ b.get_blob before other

-- What a store asks of a backend: a `Put` that succeeds is seen, and one that fails is seen as a whole or not
-- at all.
pub record IsBackend {S : Type 0} (b : Backend S) : Type 0 where
  pub stored :
      (s : S) (key blob : Bytes)
      → (b.put s key blob).1 ≡ none
      → IsPut b key blob s (b.put s key blob).0
  pub atomic :
      (s : S) (key blob : Bytes)
      → IsPut b key blob s (b.put s key blob).0 ⊎ IsSame b s (b.put s key blob).0

abbrev found_blob : Option Bytes → Result BackendError Bytes
found_blob none = err not_found
found_blob (some blob) = ok blob

-- `MemoryBackend`, which copies what it is given and what it gives.
unfoldable pub memory_backend : Backend (Map Bytes)
unfolding lookup insert remove
memory_backend = record {
  get_blob = λ blobs key. found_blob (lookup key blobs);
  put = λ blobs key blob. (insert key blob blobs, none);
  delete = λ blobs key. (remove key blobs, none);
  list = λ blobs. ok (map (λ entry. entry.0) blobs);
}

abbrev pub new_memory_backend : Map Bytes
new_memory_backend = []

pub memory_backend-IsBackend : IsBackend memory_backend
unfolding memory_backend
memory_backend-IsBackend = record {
  stored = λ s key blob e other. put_get s key blob other;
  atomic = λ s key blob. inl (λ other. put_get s key blob other);
}
  where
    by_test :
        (b : Bool) (blob : Bytes) (o : Option Bytes)
        → found_blob (if b then some blob else o) ≡ (if b then ok blob else found_blob o)
    by_test true blob o = refl
    by_test false blob o = refl

    put_get :
        (s : Map Bytes) (key blob other : Bytes)
        → found_blob (lookup other (insert key blob s))
          ≡ (if str_eq key other then ok blob else found_blob (lookup other s))
    put_get s key blob other =
        ap found_blob (lookup-insert key other blob s)
        ∙ by_test (str_eq key other) blob (lookup other s)
