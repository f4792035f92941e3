-- ===== src/Router/Selection.antt =====
-- What `Route` of internal/middleware/router.go chooses, and when it finds no channel.
use mathlib.Core.Path.{subst}
use aegis_llm.Prelude.{
  ◌≡◌, refl, sym, ◌∙◌, ◌⊎◌, inl, inr, Bool, true, false, ◌&&◌, ◌||◌, ℤ, ltb_ℤ, ◌≤ℤ◌, ◌<ℤ◌, List, [],
  ◌∷◌, Memᴰ, Option, none, some, arith, Bytes, Map, lookup, insert, is_some, any_mem, mem_any,
  select, mem-select, select-mem, Bool-cases, Option-cases, and_true,
}
use aegis_llm.Breaker.{open_, half_open, Breaker, Lease, is_open, allow_probe}
use aegis_llm.Router.Channel.{Channel, is_eligible, IsOrdered, sort-IsOrdered, mem-sort, sort-mem}
use aegis_llm.Router.Table.{
  Table, has_closed, closed_choice, probe_choice, candidates, route, is_available,
  has_unused_candidate,
}
use aegis_llm.Router.Scan.{true_not_false, ByClosed, Scans, closed_choice-Scans}

-- `ch` got the probe of its open breaker, whose recovery time has passed, and the breaker is
-- half-open afterwards.
pub record ByProbe (since : ℤ → ℤ) (bs : Map Breaker) (ch : Channel) (lease : Lease)
    (after : Map Breaker) : Type 0 where
  pub breaker : Breaker
  pub found : lookup ch.id bs ≡ some breaker
  pub state : breaker.state ≡ open_
  pub recovered : breaker.recovery_time <ℤ since breaker.last_failure
  pub lease_is : lease ≡ record { generation = breaker.generation; probe = true }
  pub updated : after ≡ insert ch.id (record breaker { state = half_open }) bs

-- The channels that `candidates` lists are the eligible ones of the table.
pub mem-candidates :
    (t : Table) (model : Bytes) (exclude : List Bytes) {ch : Channel}
    → Memᴰ ch (candidates t model exclude)
    → Memᴰ ch t.channels × (is_eligible model exclude ch ≡ true)
unfolding candidates
mem-candidates t model exclude m = mem-select (is_eligible model exclude) t.channels (mem-sort _ m)

pub candidates-mem :
    (t : Table) (model : Bytes) (exclude : List Bytes) {ch : Channel}
    → Memᴰ ch t.channels
    → is_eligible model exclude ch ≡ true
    → Memᴰ ch (candidates t model exclude)
unfolding candidates
candidates-mem t model exclude m e =
    sort-mem _ (select-mem (is_eligible model exclude) t.channels m e)

candidates-IsOrdered :
    (t : Table) (model : Bytes) (exclude : List Bytes) → IsOrdered (candidates t model exclude)
unfolding candidates
candidates-IsOrdered t model exclude =
    sort-IsOrdered (select (is_eligible model exclude) t.channels)

module _ (since : ℤ → ℤ) (bs : Map Breaker) where
  grants : Channel → Bool
  grants ch = elim (lookup ch.id bs) [
    | none ↦ false
    | some b ↦ is_open b.state && ltb_ℤ b.recovery_time (since b.last_failure)
  ]

  is_available-or : (ch : Channel) → is_available since bs ch ≡ (has_closed bs ch || grants ch)
  unfolding is_available has_closed grants
  is_available-or ch = elim (Option-cases (lookup ch.id bs)) [
    | inl e ↦ ground (arith, e)
    | inr (b, e) ↦ ground (arith, e)
  ]

  -- The probe loop passes over a channel, or gives its probe.
  probe_choice-skip :
      (ch : Channel) (chs : List Channel)
      → grants ch ≡ false
      → probe_choice since bs (ch ∷ chs) ≡ probe_choice since bs chs
  unfolding probe_choice grants allow_probe
  probe_choice-skip ch chs h = ground arith

  probe_choice-grant :
      (ch : Channel) (chs : List Channel)
      → grants ch ≡ true
      → (l : Lease) × (after : Map Breaker) × (probe_choice since bs (ch ∷ chs)
          ≡ (after, some (ch, l)))
        × ByProbe since bs ch l after
  unfolding probe_choice grants allow_probe
  probe_choice-grant ch chs h = elim (Option-cases (lookup ch.id bs)) [
    | inl e ↦ absurd (ground arith)
    | inr (b, e) ↦ (
      record { generation = b.generation; probe = true },
      insert ch.id (record b { state = half_open }) bs,
      ground arith,
      record {
        breaker = b;
        found = e;
        state = ground arith;
        recovered = ground arith;
        lease_is = refl;
        updated = refl;
      },
    )
  ]

  -- The probe loop finds the first candidate that grants a probe, or none does.
  probe_choice-cases :
      (chs : List Channel)
      → ((probe_choice since bs chs ≡ (bs, none)) × ((d : Channel) → Memᴰ d chs → grants d ≡ false))
        ⊎ ((ch : Channel) × (l : Lease) × (after : Map Breaker) × (probe_choice since bs chs
              ≡ (after, some (ch, l)))
            × Memᴰ ch chs
            × ByProbe since bs ch l after
            × (grants ch ≡ true))
  probe_choice-cases [] = inl (unfold probe_choice in refl, λ d m. elim m [ ])
  probe_choice-cases (c ∷ cs) = elim (Bool-cases (grants c)) [
    | inl yes_ ↦
        let (l, after, e, by) = probe_choice-grant c cs yes_ in
        inr (c, l, after, e, Memᴰ.head refl, by, yes_)
    | inr no_ ↦ elim (probe_choice-cases cs) [
      | inl (e, h) ↦ inl (
        probe_choice-skip c cs no_ ∙ e,
        λ d m. elim m [
          | Memᴰ.head q ↦ subst (λ x. grants x ≡ false) (sym q) no_
          | Memᴰ.tail n ↦ h d n
        ],
      )
      | inr (ch, l, after, e, m, by, g) ↦
          inr (ch, l, after, probe_choice-skip c cs no_ ∙ e, Memᴰ.tail m, by, g)
    ]
  ]

module _ (draw : ℤ → Option ℤ) (since : ℤ → ℤ) (t : Table) (model : Bytes)
    (exclude : List Bytes) where
  -- What `Route` may answer.
  pub data Chosen : Table → Option (Channel × Lease) → Type 0 where
    nothing :
        ((d : Channel)
          → Memᴰ d t.channels
          → is_eligible model exclude d ≡ true
          → is_available since t.breakers d ≡ false)
        → Chosen t none
    by_closed :
        (ch : Channel) (l : Lease)
        → Memᴰ ch t.channels
        → is_eligible model exclude ch ≡ true
        → ByClosed t.breakers ch l
        → ((d : Channel)
            → Memᴰ d t.channels
            → is_eligible model exclude d ≡ true
            → has_closed t.breakers d ≡ true
            → ch.priority ≤ℤ d.priority)
        → Chosen t (some (ch, l))
    by_probe :
        (ch : Channel) (l : Lease) (after : Map Breaker)
        → Memᴰ ch t.channels
        → is_eligible model exclude ch ≡ true
        → ByProbe since t.breakers ch l after
        → ((d : Channel)
            → Memᴰ d t.channels
            → is_eligible model exclude d ≡ true
            → has_closed t.breakers d ≡ false)
        → Chosen (record t { breakers = after }) (some (ch, l))

  Chosen-probe_choice :
      ((d : Channel)
        → Memᴰ d t.channels
        → is_eligible model exclude d ≡ true
        → has_closed t.breakers d ≡ false)
      → (let (bs, r) = probe_choice since t.breakers (candidates t model exclude) in
          Chosen (record t { breakers = bs }) r)
  Chosen-probe_choice none_closed =
      elim (probe_choice-cases since t.breakers (candidates t model exclude)) [
        | inl (e, h) ↦ rw e (
            nothing λ d m el.
              rw (is_available-or since t.breakers d)
                (rw (none_closed d m el) (h d (candidates-mem t model exclude m el))))
        | inr (ch, l, after, e, m, by, g) ↦
            let (n, el) = mem-candidates t model exclude m in
            rw e (by_probe ch l after n el by none_closed)
      ]

  -- `Route` answers with an eligible channel of the table. If some eligible channel has a closed
  -- breaker, the answer is such a channel, of the least priority among them, with a lease of its
  -- current generation, and no breaker changes. If none has, it is a channel with an open breaker
  -- whose recovery time has passed; that breaker becomes half-open and the lease is its probe.
  -- Without either there is no answer, and nothing changes.
  pub route-Chosen : (let (t', r) = route draw since t model exclude in Chosen t' r)
  unfolding route
  route-Chosen = choose (closed_choice draw t.breakers (candidates t model exclude)) refl (
      closed_choice-Scans draw t.breakers (candidates t model exclude)
        (candidates-IsOrdered t model exclude))
    where
      choose :
          (r : Option (Channel × Lease))
          → closed_choice draw t.breakers (candidates t model exclude) ≡ r
          → Scans draw t.breakers (candidates t model exclude) r
          → (let (t', answer) = route draw since t model exclude in Chosen t' answer)
      choose none e s =
          rw (e, route) (Chosen-probe_choice λ d m el. s d (candidates-mem t model exclude m el))
      choose (some (ch, l)) e s =
          let (m, el) = mem-candidates t model exclude s.0 in
          rw (e, route)
            (by_closed ch l m el s.1
              (λ d n ed open_now. s.2 d (candidates-mem t model exclude n ed) open_now))

  no_unused :
      ((d : Channel)
        → Memᴰ d t.channels
        → is_eligible model exclude d ≡ true
        → is_available since t.breakers d ≡ false)
      → has_unused_candidate since t model exclude ≡ false
  unfolding has_unused_candidate
  no_unused h = elim (Bool-cases (has_unused_candidate since t model exclude)) [
    | inl found ↦
        let (d, m, both) = any_mem _ t.channels found in
        let (el, av) =
          and_true (is_eligible model exclude d) (is_available since t.breakers d) both in
        absurd (true_not_false (sym av ∙ h d m el))
    | inr e ↦ e
  ]

  some_unused :
      (ch : Channel)
      → Memᴰ ch t.channels
      → is_eligible model exclude ch ≡ true
      → is_available since t.breakers ch ≡ true
      → has_unused_candidate since t model exclude ≡ true
  unfolding has_unused_candidate
  some_unused ch m el av =
      mem_any (λ ch. is_eligible model exclude ch && is_available since t.breakers ch) t.channels m
        (rw (el, av))

  Chosen-unused :
      {t' : Table} {r : Option (Channel × Lease)}
      → Chosen t' r
      → is_some r ≡ has_unused_candidate since t model exclude
  unfolding is_available
  Chosen-unused (nothing h) = sym (no_unused h)
  Chosen-unused (by_closed ch l m el by _) =
      sym (some_unused ch m el (ground (arith, by.found, by.state)))
  Chosen-unused (by_probe ch l after m el by _) =
      sym (some_unused ch m el (ground (arith, by.found, by.state, by.recovered)))

  -- `hasUnusedCandidate` says exactly whether `Route` would find a channel at the same moment.
  pub route-has_unused_candidate :
      is_some (route draw since t model exclude).1 ≡ has_unused_candidate since t model exclude
  route-has_unused_candidate = Chosen-unused route-Chosen
