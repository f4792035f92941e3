-- ===== src/Breaker/Leases.antt =====
-- The breaker and the leases that it has handed out and that are not yet settled, under any
-- interleaving of requests. A request takes a lease by `AcquireClosed` or `AllowProbe`, and
-- settles it once, by `RecordFailure`, `RecordSuccess` or `ReleaseProbe`.
use aegis_llm.Prelude.{
  ℕ, ◌<◌, ◌+◌, ==_iff, ◌≡◌, refl, ◌⊎◌, inl, inr, true, false, ℤ, List, [], ◌∷◌, some, arith,
  if◌then◌else◌, All, Bool-cases,
}
use aegis_llm.Breaker.{
  State, closed, open_, half_open, Breaker, Lease, new_breaker, acquire_closed, allow_probe,
  record_failure, record_success, release_probe,
}

-- How a request settles its lease (`settleProviderLease`): with the clock of a failure.
pub data Settlement : Type 0 where
  failure : ℤ → Settlement
  success : Settlement
  release : Settlement

-- `settleProviderLease` releases a probe and leaves another lease alone.
unfoldable pub settle : Breaker → Lease → Settlement → Breaker
settle b l (failure now) = record_failure b l now
settle b l success = record_success b l
settle b l release = if l.probe then release_probe b l else b

-- The number of unsettled probes.
unfoldable pub probes : List Lease → ℕ
probes [] = 0
probes (l ∷ ls) = (if l.probe then 1 else 0) + probes ls

-- A list with one entry more.
pub data Takes (l : Lease) : List Lease → List Lease → Type 0 where
  first : {ls : List Lease} → Takes l (l ∷ ls) ls
  later : {x : Lease} {ls ms : List Lease} → Takes l ls ms → Takes l (x ∷ ls) (x ∷ ms)

pub record System : Type 0 where
  pub breaker : Breaker
  pub leases : List Lease

pub data Step : System → System → Type 0 where
  through :
      (b : Breaker) (ls : List Lease) (l : Lease)
      → acquire_closed b ≡ some l
      → Step (record { breaker = b; leases = ls }) (record { breaker = b; leases = l ∷ ls })
  probing :
      (b b' : Breaker) (ls : List Lease) (l : Lease) (elapsed : ℤ)
      → allow_probe b elapsed ≡ (b', some l)
      → Step (record { breaker = b; leases = ls }) (record { breaker = b'; leases = l ∷ ls })
  settling :
      (b : Breaker) (ls ms : List Lease) (l : Lease) (how : Settlement)
      → Takes l ls ms
      → Step
          (record { breaker = b; leases = ls })
          (record { breaker = settle b l how; leases = ms })

pub data Reach : System → Type 0 where
  start : Reach (record { breaker = new_breaker; leases = [] })
  next : {s t : System} → Reach s → Step s t → Reach t

-- A half-open breaker waits for one probe.
abbrev pub wanted : State → ℕ
wanted half_open = 1
wanted _ = 0

-- Every unsettled probe belongs to the current generation of a half-open breaker, and a half-open
-- breaker has exactly one.
pub record Inv (s : System) : Type 0 where
  pub one : probes s.leases ≡ wanted s.breaker.state
  pub current : All (λ l. (l.probe ≡ false) ⊎ (l.generation ≡ s.breaker.generation)) s.leases

-- Without probes, the generation of a probe is no matter.
none_current :
    (g : ℕ) (ls : List Lease) → probes ls ≡ 0 → All (λ l. (l.probe ≡ false) ⊎ (l.generation ≡ g)) ls
unfolding probes
none_current g [] h = tt
none_current g (l ∷ ls) h = (ground arith, none_current g ls (ground arith))

probes-Takes :
    {l : Lease} {ls ms : List Lease}
    → Takes l ls ms
    → probes ls ≡ (if l.probe then 1 else 0) + probes ms
unfolding probes
probes-Takes first = refl
probes-Takes (later t) = ground (arith, probes-Takes t)

All-Takes :
    (P : Lease → Type 0) {l : Lease} {ls ms : List Lease}
    → Takes l ls ms
    → All P ls
    → P l × All P ms
All-Takes P first h = h
All-Takes P (later t) h = let (p, r) = All-Takes P t h.1 in (p, (h.0, r))

-- A settled probe leaves the half-open state.
settle_probe :
    (b : Breaker) (l : Lease) (how : Settlement)
    → l.probe ≡ true
    → b.state ≡ half_open
    → l.generation ≡ b.generation
    → wanted (settle b l how).state ≡ 0
unfolding settle record_failure record_success release_probe
settle_probe b l (failure now) p h g = ground (arith, ==_iff b.generation l.generation)
settle_probe b l success p h g = ground (arith, ==_iff b.generation l.generation)
settle_probe b l release p h g = ground (arith, ==_iff b.generation l.generation)

-- Another lease keeps state and generation, or opens a closed breaker.
settle_closed :
    (b : Breaker) (l : Lease) (how : Settlement)
    → l.probe ≡ false
    → (((settle b l how).state ≡ b.state) × ((settle b l how).generation ≡ b.generation))
      ⊎ ((wanted b.state ≡ 0) × (wanted (settle b l how).state ≡ 0))
unfolding settle record_failure record_success release_probe
settle_closed b l (failure now) p = ground arith
settle_closed b l success p = ground arith
settle_closed b l release p = ground arith

wanted_one : (s : State) → 0 < wanted s → s ≡ half_open
wanted_one half_open h = refl
wanted_one closed h = absurd (omega arith)
wanted_one open_ h = absurd (omega arith)

settle-Inv :
    (b : Breaker) (ls ms : List Lease) (l : Lease) (how : Settlement)
    → Takes l ls ms
    → Inv (record { breaker = b; leases = ls })
    → Inv (record { breaker = settle b l how; leases = ms })
settle-Inv b ls ms l how t v = elim (Bool-cases l.probe) [
  | inl p ↦
      let half : b.state ≡ half_open = wanted_one b.state (ground (arith, probes-Takes t, v.one)) in
      let none_left : probes ms ≡ 0 = ground (arith, probes-Takes t, v.one) in
      let own : l.generation ≡ b.generation = ground (arith, (All-Takes _ t v.current).0) in
      record {
        one = omega (arith, settle_probe b l how p half own);
        current = none_current _ ms none_left;
      }
  | inr p ↦
      let same : probes ms ≡ wanted b.state = ground (arith, probes-Takes t, v.one) in
      elim (settle_closed b l how p) [
        | inl (st, gen) ↦ record { one = rw st same; current = rw gen (All-Takes _ t v.current).1 }
        | inr (before, after) ↦ record {
          one = omega arith;
          current = none_current _ ms (omega arith);
        }
      ]
]

-- A lease through a closed breaker is no probe.
through-Inv :
    (b : Breaker) (ls : List Lease) (l : Lease)
    → acquire_closed b ≡ some l
    → Inv (record { breaker = b; leases = ls })
    → Inv (record { breaker = b; leases = l ∷ ls })
unfolding acquire_closed probes
through-Inv b ls l e v = record { one = ground (arith, v.one); current = (ground arith, v.current) }

-- A probe is granted only by an open breaker, where no other is unsettled.
probing-Inv :
    (b b' : Breaker) (ls : List Lease) (l : Lease) (elapsed : ℤ)
    → allow_probe b elapsed ≡ (b', some l)
    → Inv (record { breaker = b; leases = ls })
    → Inv (record { breaker = b'; leases = l ∷ ls })
unfolding allow_probe probes
probing-Inv b b' ls l elapsed e v = record {
  one = ground (arith, v.one);
  current = (ground arith, none_current _ ls (ground (arith, v.one)));
}

pub Step-Inv : {s t : System} → Step s t → Inv s → Inv t
Step-Inv (through b ls l e) v = through-Inv b ls l e v
Step-Inv (probing b b' ls l elapsed e) v = probing-Inv b b' ls l elapsed e v
Step-Inv (settling b ls ms l how t) v = settle-Inv b ls ms l how t v

start-Inv : Inv (record { breaker = new_breaker; leases = [] })
unfolding new_breaker probes
start-Inv = record { one = refl; current = tt }

-- Under any interleaving of requests that each settle their lease once, a half-open breaker has
-- exactly one unsettled probe, of its current generation, and any other breaker has none.
pub Reach-Inv : {s : System} → Reach s → Inv s
Reach-Inv start = start-Inv
Reach-Inv (next r st) = Step-Inv st (Reach-Inv r)
