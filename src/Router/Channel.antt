-- ===== src/Router/Channel.antt =====
-- Provider channels of internal/middleware/router.go: which of them may serve a model, and the
-- order in which they are tried.
use aegis_llm.Prelude.{
  ◌≡◌, refl, ◌⊎◌, inl, inr, Bool, true, false, not, ◌&&◌, ◌||◌, ℤ, leb_ℤ, ◌≤ℤ◌, List, [], ◌∷◌, Memᴰ,
  arith, Bytes, codes, str_eq, if◌then◌else◌, any, Bool-cases,
}

pub record Channel : Type 0 where
  pub id : Bytes
  pub name : Bytes
  pub kind : Bytes
  pub base_url : Bytes
  pub key_id : Bytes
  pub models : List Bytes
  pub weight : ℤ
  pub priority : ℤ
  pub api_version : Bytes
  pub enabled : Bool

abbrev pub star : Bytes
star = codes "*"

-- The test of the two loops over model names: `m == model || m == "*"`.
abbrev pub covers : Bytes → List Bytes → Bool
covers model = any λ m. str_eq m model || str_eq m star

-- `isModelAllowed`
unfoldable pub is_model_allowed : Bytes → List Bytes → Bool
is_model_allowed model [] = false
is_model_allowed model (m ∷ ms) = covers model (m ∷ ms)

-- `supportsModel`
unfoldable pub supports_model : Channel → Bytes → Bool
supports_model ch model = covers model ch.models

-- `_, skip := exclude[ch.ID]`
abbrev pub contains : List Bytes → Bytes → Bool
contains ids id = any (λ x. str_eq x id) ids

-- What the first loop of `Route` keeps.
unfoldable pub is_eligible : Bytes → List Bytes → Channel → Bool
unfolding supports_model
is_eligible model exclude ch =
    ch.enabled && (not (contains exclude ch.id) && supports_model ch model)

-- `sort.SliceStable` by priority: each entry goes before the later ones of its priority.
unfoldable pub insert_by_priority : Channel → List Channel → List Channel
insert_by_priority c [] = c ∷ []
insert_by_priority c (d ∷ ds) =
    if leb_ℤ c.priority d.priority then c ∷ d ∷ ds else d ∷ insert_by_priority c ds

unfoldable pub sort_by_priority : List Channel → List Channel
unfolding insert_by_priority
sort_by_priority [] = []
sort_by_priority (c ∷ cs) = insert_by_priority c (sort_by_priority cs)

-- Priorities never fall along a list: each is at most all that follow.
abbrev pub IsOrdered : List Channel → Type 0
IsOrdered [] = Unit {0}
IsOrdered (c ∷ cs) = ((d : Channel) → Memᴰ d cs → c.priority ≤ℤ d.priority) × IsOrdered cs

mem-insert :
    (c : Channel) {d : Channel} (cs : List Channel)
    → Memᴰ d (insert_by_priority c cs)
    → (d ≡ c) ⊎ Memᴰ d cs
unfolding insert_by_priority
mem-insert c [] (Memᴰ.head e) = inl e
mem-insert c [] (Memᴰ.tail m) = inr m
mem-insert c (x ∷ xs) m = elim (Bool-cases (leb_ℤ c.priority x.priority)) [
  | inl low ↦ split (rw (low, insert_by_priority) at m)
  | inr high ↦ later (mem-insert c xs) (rw (high, insert_by_priority) at m)
]
  where
    split : {d : Channel} → Memᴰ d (c ∷ x ∷ xs) → (d ≡ c) ⊎ Memᴰ d (x ∷ xs)
    split (Memᴰ.head e) = inl e
    split (Memᴰ.tail n) = inr n

    later :
        {d : Channel}
        → (Memᴰ d (insert_by_priority c xs) → (d ≡ c) ⊎ Memᴰ d xs)
        → Memᴰ d (x ∷ insert_by_priority c xs)
        → (d ≡ c) ⊎ Memᴰ d (x ∷ xs)
    later f (Memᴰ.head e) = inr (Memᴰ.head e)
    later f (Memᴰ.tail n) = elim (f n) [ inl e ↦ inl e | inr k ↦ inr (Memᴰ.tail k) ]

insert-mem_new : (c : Channel) (cs : List Channel) → Memᴰ c (insert_by_priority c cs)
unfolding insert_by_priority
insert-mem_new c [] = Memᴰ.head refl
insert-mem_new c (x ∷ xs) = elim (Bool-cases (leb_ℤ c.priority x.priority)) [
  | inl low ↦ rw (low, insert_by_priority) (Memᴰ.head refl)
  | inr high ↦ rw (high, insert_by_priority) (Memᴰ.tail (insert-mem_new c xs))
]

insert-mem :
    (c : Channel) {d : Channel} (cs : List Channel) → Memᴰ d cs → Memᴰ d (insert_by_priority c cs)
unfolding insert_by_priority
insert-mem c [] m = elim m [ ]
insert-mem c (x ∷ xs) (Memᴰ.head e) = elim (Bool-cases (leb_ℤ c.priority x.priority)) [
  | inl low ↦ rw (low, insert_by_priority) (Memᴰ.tail (Memᴰ.head e))
  | inr high ↦ rw (high, insert_by_priority) (Memᴰ.head e)
]
insert-mem c (x ∷ xs) (Memᴰ.tail m) = elim (Bool-cases (leb_ℤ c.priority x.priority)) [
  | inl low ↦ rw (low, insert_by_priority) (Memᴰ.tail (Memᴰ.tail m))
  | inr high ↦ rw (high, insert_by_priority) (Memᴰ.tail (insert-mem c xs m))
]

insert-IsOrdered :
    (c : Channel) (cs : List Channel) → IsOrdered cs → IsOrdered (insert_by_priority c cs)
unfolding insert_by_priority
insert-IsOrdered c [] h = (λ d m. elim m [ ], tt)
insert-IsOrdered c (x ∷ xs) h = elim (Bool-cases (leb_ℤ c.priority x.priority)) [
  | inl low ↦ rw (low, insert_by_priority) (below low, h)
  | inr high ↦ rw (high, insert_by_priority) (above high, insert-IsOrdered c xs h.1)
]
  where
    below :
        leb_ℤ c.priority x.priority ≡ true
        → (d : Channel) → Memᴰ d (x ∷ xs)
        → c.priority ≤ℤ d.priority
    below low d (Memᴰ.head e) = rw e (ground arith)
    below low d (Memᴰ.tail m) = ground (arith, h.0 d m)

    above :
        leb_ℤ c.priority x.priority ≡ false
        → (d : Channel) → Memᴰ d (insert_by_priority c xs)
        → x.priority ≤ℤ d.priority
    above high d m = elim (mem-insert c xs m) [ inl e ↦ rw e (ground arith) | inr n ↦ h.0 d n ]

pub sort-IsOrdered : (cs : List Channel) → IsOrdered (sort_by_priority cs)
unfolding sort_by_priority
sort-IsOrdered [] = tt
sort-IsOrdered (c ∷ cs) = insert-IsOrdered c (sort_by_priority cs) (sort-IsOrdered cs)

pub mem-sort : {d : Channel} (cs : List Channel) → Memᴰ d (sort_by_priority cs) → Memᴰ d cs
unfolding sort_by_priority
mem-sort [] m = m
mem-sort (c ∷ cs) m = elim (mem-insert c (sort_by_priority cs) m) [
  | inl e ↦ Memᴰ.head e
  | inr n ↦ Memᴰ.tail (mem-sort cs n)
]

pub sort-mem : {d : Channel} (cs : List Channel) → Memᴰ d cs → Memᴰ d (sort_by_priority cs)
unfolding sort_by_priority
sort-mem [] m = m
sort-mem (c ∷ cs) (Memᴰ.head e) = rw e (insert-mem_new c (sort_by_priority cs))
sort-mem (c ∷ cs) (Memᴰ.tail m) = insert-mem c (sort_by_priority cs) (sort-mem cs m)
