-- ===== src/Router/Table.antt =====
-- The router table of internal/middleware/router.go: `Route` and the settlement of its leases.
-- A breaker is found by the id of its channel. `since` is `time.Since` of a Unix time.
use aegis_llm.Prelude.{
  Bool, false, ◌&&◌, ◌||◌, ℤ, leb_ℤ, ltb_ℤ, List, [], ◌∷◌, ◌++◌, Option, none, some, Bytes, Map,
  lookup, insert, if◌then◌else◌, any, select,
}
use aegis_llm.Breaker.{
  Breaker, Lease, is_closed, is_open, new_breaker, acquire_closed, allow_probe, record_failure,
  record_success, release_probe,
}
use aegis_llm.Router.Channel.{Channel, is_eligible, sort_by_priority}
use aegis_llm.Router.Pick.{pick_weighted}

pub record Table : Type 0 where
  pub channels : List Channel
  pub breakers : Map Breaker

-- The loop of `newRouterTable`.
unfoldable pub new_breakers : List Channel → Map Breaker → Map Breaker
unfolding insert new_breaker
new_breakers [] m = m
new_breakers (ch ∷ chs) m = new_breakers chs (insert ch.id new_breaker m)

unfoldable pub new_router_table : List Channel → Table
unfolding new_breakers
new_router_table channels = record { channels = channels; breakers = new_breakers channels [] }

-- `breaker, ok := rt.breakers[ch.ID]; ok && breaker.state.Load() == stateClosed`
unfoldable pub has_closed : Map Breaker → Channel → Bool
unfolding lookup
has_closed bs ch = elim (lookup ch.id bs) [ none ↦ false | some b ↦ is_closed b.state ]

-- `breaker.AcquireClosed()` of the picked channel.
unfoldable pub closed_lease : Map Breaker → Channel → Option (Channel × Lease)
unfolding lookup acquire_closed
closed_lease bs chosen = elim (lookup chosen.id bs) [
  | none ↦ none
  | some b ↦ elim (acquire_closed b) [ none ↦ none | some lease ↦ some (chosen, lease) ]
]

module _ (draw : ℤ → Option ℤ) where
  -- One priority group of `Route`: a channel picked among those with a closed breaker.
  unfoldable pub try_group : Map Breaker → List Channel → Option (Channel × Lease)
  unfolding closed_lease has_closed pick_weighted select
  try_group bs group = elim (pick_weighted draw (select (has_closed bs) group)) [
    | none ↦ none
    | some chosen ↦ closed_lease bs chosen
  ]

  -- The group loop of `Route`: `group` holds the candidates of one priority seen so far.
  unfoldable pub scan_groups :
      Map Breaker → ℤ → List Channel → List Channel → Option (Channel × Lease)
  unfolding try_group
  scan_groups bs priority group [] = try_group bs group
  scan_groups bs priority group (c ∷ cs) =
      let same = scan_groups bs priority (group ++ c ∷ []) cs in
      let other = scan_groups bs c.priority (c ∷ []) cs in
      if leb_ℤ c.priority priority && leb_ℤ priority c.priority
      then same
      else elim (try_group bs group) [ none ↦ other | some r ↦ some r ]

  unfoldable pub closed_choice : Map Breaker → List Channel → Option (Channel × Lease)
  unfolding scan_groups
  closed_choice bs [] = none
  closed_choice bs (c ∷ cs) = scan_groups bs c.priority (c ∷ []) cs

module _ (since : ℤ → ℤ) where
  -- The last loop of `Route`: the first candidate whose breaker grants a probe.
  unfoldable pub probe_choice : Map Breaker → List Channel → Map Breaker × Option (Channel × Lease)
  unfolding lookup insert allow_probe
  probe_choice bs [] = (bs, none)
  probe_choice bs (ch ∷ chs) =
      let rest = probe_choice bs chs in
      elim (lookup ch.id bs) [
        | none ↦ rest
        | some b ↦
            let (b', granted) = allow_probe b (since b.last_failure) in
            elim granted [ none ↦ rest | some lease ↦ (insert ch.id b' bs, some (ch, lease)) ]
      ]

  -- The two tests on a breaker in `hasUnusedCandidate`.
  unfoldable pub is_available : Map Breaker → Channel → Bool
  unfolding lookup
  is_available bs ch = elim (lookup ch.id bs) [
    | none ↦ false
    | some b ↦
        is_closed b.state || (is_open b.state && ltb_ℤ b.recovery_time (since b.last_failure))
  ]

  -- `hasUnusedCandidate`
  unfoldable pub has_unused_candidate : Table → Bytes → List Bytes → Bool
  unfolding is_available is_eligible
  has_unused_candidate t model exclude =
      any (λ ch. is_eligible model exclude ch && is_available t.breakers ch) t.channels

-- The candidates of `Route`, in the order of their priority.
unfoldable pub candidates : Table → Bytes → List Bytes → List Channel
unfolding is_eligible sort_by_priority select
candidates t model exclude = sort_by_priority (select (is_eligible model exclude) t.channels)

-- `Route`
unfoldable pub route :
    (ℤ → Option ℤ) → (ℤ → ℤ) → Table → Bytes → List Bytes → Table × Option (Channel × Lease)
unfolding candidates closed_choice probe_choice
route draw since t model exclude =
    elim (closed_choice draw t.breakers (candidates t model exclude)) [
      | some r ↦ (t, some r)
      | none ↦
          let (bs, r) = probe_choice since t.breakers (candidates t model exclude) in
          (record t { breakers = bs }, r)
    ]

-- `RecordFailure`, `RecordSuccess` and `ReleaseProbe` of the table.
unfoldable pub on_breaker : (Breaker → Breaker) → Table → Bytes → Table
unfolding lookup insert
on_breaker f t id = elim (lookup id t.breakers) [
  | none ↦ t
  | some b ↦ record t { breakers = insert id (f b) t.breakers }
]

unfoldable pub table_failure : Table → Bytes → Lease → ℤ → Table
unfolding on_breaker record_failure
table_failure t id lease now = on_breaker (λ b. record_failure b lease now) t id

unfoldable pub table_success : Table → Bytes → Lease → Table
unfolding on_breaker record_success
table_success t id lease = on_breaker (λ b. record_success b lease) t id

unfoldable pub table_release : Table → Bytes → Lease → Table
unfolding on_breaker release_probe
table_release t id lease = on_breaker (λ b. release_probe b lease) t id
