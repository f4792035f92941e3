-- ===== src/Server/Lifecycle.antt =====
-- `handlerLifecycle` of internal/server/server.go: the handlers that run, and the channel that is closed
-- once none does. Each operation runs under the mutex, so a concurrent run is a sequence of them. A channel
-- is known by its number, and only the current one is ever open.
use aegis_llm.Prelude.{
  ℕ, suc, ◌-◌, ◌≤◌, ◌≡◌, refl, ◌↔◌, Bool, true, false, ◌==◌, if◌then◌else◌, List, [], ◌∷◌, arith,
  if_elim, ◌∙◌,
}

pub record Lifecycle : Type 0 where
  pub active : ℕ
  pub draining : Bool
  pub channel : ℕ
  pub closed : Bool

-- `newHandlerLifecycle`
abbrev pub new_lifecycle : Lifecycle
new_lifecycle = record { active = 0; draining = false; channel = 0; closed = true }

-- `begin`: whether the request may run.
unfoldable pub begin_handler : Lifecycle → Lifecycle × Bool
begin_handler l =
    if l.draining
    then (l, false)
    else (if l.active == 0
        then (record l { active = 1; channel = suc l.channel; closed = false }, true)
        else (record l { active = suc l.active }, true))

-- `done`, which a handler that began calls once, also when it panics.
unfoldable pub done_handler : Lifecycle → Lifecycle
done_handler l = record l {
  active = l.active - 1;
  closed = if l.active - 1 == 0 then true else l.closed;
}

-- `startDraining`: the channel to wait for.
unfoldable pub start_draining : Lifecycle → Lifecycle × ℕ
start_draining l = (record l { draining = true }, l.channel)

-- `handlersDrained`, of a channel that the server was given.
abbrev pub handlers_drained : ℕ → Lifecycle → Bool
handlers_drained channel l = if channel == l.channel then l.closed else true

-- What happens next: a request comes, one of the running handlers ends, the server drains.
pub data Event : Type 0 where
  request handler_end drain : Event

unfoldable pub step_lifecycle : Event → Lifecycle → Lifecycle
unfolding begin_handler done_handler start_draining
step_lifecycle request l = (begin_handler l).0
step_lifecycle handler_end l = if l.active == 0 then l else done_handler l
step_lifecycle drain l = (start_draining l).0

unfoldable pub run_lifecycle : List Event → Lifecycle → Lifecycle
unfolding step_lifecycle
run_lifecycle [] l = l
run_lifecycle (e ∷ es) l = run_lifecycle es (step_lifecycle e l)

-- The current channel is closed exactly when no handler runs.
abbrev pub IsSettled : Lifecycle → Type 0
IsSettled l = (l.closed ≡ true) ↔ (l.active ≡ 0)

step-IsSettled : (e : Event) (l : Lifecycle) → IsSettled l → IsSettled (step_lifecycle e l)
unfolding step_lifecycle begin_handler done_handler start_draining
step-IsSettled request l h =
    if_elim (λ (r : Lifecycle × Bool). IsSettled r.0) l.draining {x = (l, false)} (λ _. h)
      (λ _.
        if_elim (λ (r : Lifecycle × Bool). IsSettled r.0) (l.active == 0)
          {x = (record l { active = 1; channel = suc l.channel; closed = false }, true)}
          {y = (record l { active = suc l.active }, true)}
          (λ _. (λ c. absurd (ground (arith, c)), λ c. absurd (ground (arith, c))))
          (λ e. (λ c. absurd (ground (arith, e, h.0 c)), λ c. absurd (ground (arith, c)))))
step-IsSettled handler_end l h =
    if_elim IsSettled (l.active == 0) (λ _. h)
      (λ e. (λ c. ground (arith, e, c, h.0), λ c. ground (arith, c)))
step-IsSettled drain l h = h

pub run-IsSettled : (es : List Event) (l : Lifecycle) → IsSettled l → IsSettled (run_lifecycle es l)
unfolding run_lifecycle
run-IsSettled [] l h = h
run-IsSettled (e ∷ es) l h = run-IsSettled es (step_lifecycle e l) (step-IsSettled e l h)

-- While the server drains no handler begins, and the channel stays.
step_draining :
    (e : Event) (l : Lifecycle)
    → l.draining ≡ true
    → ((step_lifecycle e l).draining ≡ true)
      × ((step_lifecycle e l).channel ≡ l.channel)
      × ((step_lifecycle e l).active ≤ l.active)
unfolding step_lifecycle begin_handler done_handler start_draining
step_draining request l h = ground (arith, h)
step_draining handler_end l h = ground (arith, h)
step_draining drain l h = (refl, refl, omega arith)

run_draining :
    (es : List Event) (l : Lifecycle)
    → l.draining ≡ true
    → ((run_lifecycle es l).channel ≡ l.channel) × ((run_lifecycle es l).active ≤ l.active)
unfolding run_lifecycle
run_draining [] l h = (refl, omega arith)
run_draining (e ∷ es) l h =
    let (d, c, a) = step_draining e l h in
    let (c', a') = run_draining es (step_lifecycle e l) d in (c' ∙ c, omega (arith, a, a'))

-- After any requests, the channel that startDraining answers with is closed, at any time after it,
-- exactly when no handler runs; and no more handlers run from then on than when the server began to drain.
pub start_draining-handlers_drained :
    (before after : List Event)
    → let l = run_lifecycle before new_lifecycle in
      let later = run_lifecycle after (start_draining l).0 in
      ((handlers_drained (start_draining l).1 later ≡ true) ↔ (later.active ≡ 0))
      × (later.active ≤ l.active)
unfolding start_draining
start_draining-handlers_drained before after =
    let l = run_lifecycle before new_lifecycle in
    let start = record l { draining = true } in
    let (c, a) = run_draining after start refl in
    let settled =
      run-IsSettled after start (run-IsSettled before new_lifecycle (λ _. refl, λ _. refl)) in
    (by_channel l.channel (run_lifecycle after start) c settled, a)
  where
    by_channel :
        (channel : ℕ) (later : Lifecycle)
        → later.channel ≡ channel
        → IsSettled later
        → (handlers_drained channel later ≡ true) ↔ (later.active ≡ 0)
    by_channel channel later c settled =
        if_elim (λ b. (b ≡ true) ↔ (later.active ≡ 0)) (channel == later.channel) (λ _. settled)
          (λ e. absurd (ground (arith, e, c)))
