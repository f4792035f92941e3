-- ===== src/Breaker/Tests.antt =====
-- The circuit breaker of internal/middleware/router.go at concrete values.
use aegis_llm.Prelude.{arith, ◌+◌, ◌≤◌, ◌≡◌, refl, ◌↔◌, true, false, ℤ, pos, List, [], ◌∷◌, length}
use aegis_llm.Breaker.{
  open_, half_open, Breaker, Lease, new_breaker, record_failure, acquire_closed,
}
use aegis_llm.Breaker.Leases.{
  failure, settle, Takes, through, settling, start, next, Inv, Reach-Inv,
}
use aegis_llm.Breaker.Trip.{Counts, fail_one, fail_all, fail_all-open_iff}

abbrev five : List ℤ
five = pos 10 ∷ pos 11 ∷ pos 12 ∷ pos 13 ∷ pos 14 ∷ []

-- Open since second 14, in generation 1.
abbrev tripped : Breaker
tripped = record {
  state = open_;
  failures = pos 5;
  last_failure = pos 14;
  generation = 1;
  threshold = pos 5;
  recovery_time = pos 30000000000;
}

abbrev probe_lease : Lease
probe_lease = record { generation = 1; probe = true }

trips : fail_all new_breaker five ≡ tripped
unfolding fail_all fail_one record_failure new_breaker
trips = refl

abbrev old_lease : Lease
old_lease = record { generation = 0; probe = false }

Reach-Inv_example :
    Inv (record { breaker = settle new_breaker old_lease (failure (pos 3)); leases = [] })
unfolding acquire_closed new_breaker
Reach-Inv_example = Reach-Inv (
    next (next start (through new_breaker [] old_lease refl))
      (settling new_breaker (old_lease ∷ []) [] old_lease (failure (pos 3)) Takes.first))

new_breaker-Counts : Counts new_breaker 0 5
unfolding new_breaker
new_breaker-Counts = record { state = refl; failures = refl; threshold = refl }

fail_all-open_iff_example : ((fail_all new_breaker five).state ≡ open_) ↔ (5 ≤ 0 + length five)
fail_all-open_iff_example =
    fail_all-open_iff new_breaker five 0 5 new_breaker-Counts (omega arith) (omega arith)

abbrev probing_now : Breaker
probing_now = record tripped { state = half_open }
