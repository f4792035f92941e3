-- ===== src/RateLimit/Tests.antt =====
-- The rate limiter of internal/middleware/ratelimit.go at concrete values: two requests a minute.
use aegis_llm.Prelude.{
  ℤ, pos, ℕ, ◌+◌, ◌≤◌, List, [], ◌∷◌, ◌≡◌, refl, arith, Bytes, codes, leb, if◌then◌else◌, lookup,
  str_eq,
}
use aegis_llm.RateLimit.Limiter.{new_memory_limiter, rpm, tpm, composite_key, allow_n}
use aegis_llm.RateLimit.Admission.{Uses, absent, allow_n-Uses}
use aegis_llm.RateLimit.Bound.{Call, own, other_allow, other_record, run, run-Uses}

abbrev minute : ℤ
minute = pos 60000000000

abbrev user : Bytes
user = codes "user"

nothing_used : Uses new_memory_limiter.windows (composite_key user rpm) minute (pos 5) 0
unfolding new_memory_limiter lookup
nothing_used = absent refl refl

allow_n-Uses_example :
    ((allow_n new_memory_limiter user rpm (pos 1) (pos 2) minute (pos 5)).1 ≡ leb (0 + 1) 2)
    × Uses
        (allow_n new_memory_limiter user rpm (pos 1) (pos 2) minute (pos 5)).0.windows
        (composite_key user rpm)
        minute
        (pos 5)
        (if leb (0 + 1) 2 then 0 + 1 else 0)
allow_n-Uses_example =
    allow_n-Uses new_memory_limiter user rpm 1 2 0 minute (pos 5) (omega arith) (omega arith)
      (omega arith) (omega arith) nothing_used

abbrev calls : List Call
calls =
    own 1 (pos 6)
    ∷ other_record user tpm (pos 40) minute (pos 6)
    ∷ other_allow (codes "guest") rpm (pos 1) (pos 2) minute (pos 7)
    ∷ own 2 (pos 7)
    ∷ []

run-Uses_example :
    (v : ℕ) × (v ≤ 2)
    × Uses
        (run user rpm 2 minute new_memory_limiter calls).windows
        (composite_key user rpm)
        minute
        (pos 7)
        v
unfolding str_eq
run-Uses_example =
    run-Uses user rpm 2 minute new_memory_limiter (pos 5) calls 0 (omega arith) (omega arith)
      (omega arith)
      (
        omega arith,
        omega arith,
        omega arith,
        (omega arith, refl, (omega arith, refl, (omega arith, omega arith, omega arith, tt))),
      )
      nothing_used
