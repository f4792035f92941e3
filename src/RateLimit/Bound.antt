-- ===== src/RateLimit/Bound.antt =====
-- A limit of internal/middleware/ratelimit.go holds over the calls of `AllowN` for it, between the calls
-- of `AllowN` and `Record` for other keys and dimensions.
use aegis_llm.Prelude.{
  ℕ, ◌+◌, ◌≤◌, ◌<◌, ◌≡◌, refl, ℤ, pos, ◌≤ℤ◌, ◌<ℤ◌, half64, Bool, true, false, ◌||◌, leb_ℤ, List, [],
  ◌∷◌, arith, Bytes, leb, str_eq, lookup-insert, if◌then◌else◌, if_elim,
}
use aegis_llm.RateLimit.Prune.{used, used_mono}
use aegis_llm.RateLimit.Window.{Window, add_entry}
use aegis_llm.RateLimit.Limiter.{
  Limiter, Dimension, composite_key, count_operation, window_locked, admits, put_window, allow_n,
  record_tokens,
}
use aegis_llm.RateLimit.Admission.{
  Uses, absent, present, allow_n-Uses, Uses-lookup, count_operation-Uses,
}

-- One call: of `AllowN` for the key and dimension in question, with its tokens and its time, or of
-- `AllowN` or `Record` for another key or dimension, with all its arguments.
pub data Call : Type 0 where
  own : ℕ → ℤ → Call
  other_allow : Bytes → Dimension → ℤ → ℤ → ℤ → ℤ → Call
  other_record : Bytes → Dimension → ℤ → ℤ → ℤ → Call

-- What the calls for other keys leave of a key.
module _ (ck : Bytes) (window now : ℤ) where
  put_window-other :
      (lim : Limiter) (j : Bytes) (w : Window) (u : ℕ)
      → str_eq j ck ≡ false
      → Uses lim.windows ck window now u
      → Uses (put_window j w lim).windows ck window now u
  unfolding put_window
  put_window-other lim j w u h s =
      Uses-lookup ck window now lim.windows (put_window j w lim).windows u
        (ground (arith, h, lookup-insert j ck w lim.windows)) s

  allow_n-other :
      (lim : Limiter) (j : Bytes) (d : Dimension) (n limit length : ℤ) (u : ℕ)
      → pos 0 <ℤ window
      → str_eq (composite_key j d) ck ≡ false
      → Uses lim.windows ck window now u
      → Uses (allow_n lim j d n limit length now).0.windows ck window now u
  unfolding allow_n
  allow_n-other lim j d n limit length u positive h s =
      let counted = count_operation now lim in
      let w = window_locked counted.windows (composite_key j d) length now in
      let kept = count_operation-Uses ck window now lim u positive s in
      if_elim (λ (r : Limiter × Bool). Uses r.0.windows ck window now u)
        (leb_ℤ n (pos 0) || leb_ℤ limit (pos 0)) (λ _. s)
        (λ _.
          if_elim (λ (r : Limiter × Bool). Uses r.0.windows ck window now u) (admits n limit w)
            {x = (put_window (composite_key j d) (add_entry now n w) counted, true)}
            {y = (put_window (composite_key j d) w counted, false)}
            (λ _. put_window-other counted (composite_key j d) (add_entry now n w) u h kept)
            (λ _. put_window-other counted (composite_key j d) w u h kept))

  record_tokens-other :
      (lim : Limiter) (j : Bytes) (d : Dimension) (n length : ℤ) (u : ℕ)
      → str_eq (composite_key j d) ck ≡ false
      → Uses lim.windows ck window now u
      → Uses (record_tokens lim j d n length now).windows ck window now u
  unfolding record_tokens
  record_tokens-other lim j d n length u h s =
      if_elim (λ (l : Limiter). Uses l.windows ck window now u) (leb_ℤ n (pos 0)) (λ _. s)
        (λ _.
          put_window-other lim (composite_key j d)
            (add_entry now n (window_locked lim.windows (composite_key j d) length now)) u h s)

module _ (key : Bytes) (d : Dimension) (limit : ℕ) (window : ℤ) where
  abbrev pub call : Call → Limiter → Limiter
  unfolding allow_n record_tokens
  call (own n time) lim = (allow_n lim key d (pos n) (pos limit) window time).0
  call (other_allow j e n most length time) lim = (allow_n lim j e n most length time).0
  call (other_record j e n length time) lim = record_tokens lim j e n length time

  unfoldable pub run : Limiter → List Call → Limiter
  unfolding allow_n record_tokens
  run lim [] = lim
  run lim (c ∷ cs) = run (call c lim) cs

  -- The times never fall, no own call is empty, its sums fit in an `int64`, and the calls for others
  -- are for another key of the map.
  abbrev pub IsHistory : ℤ → List Call → Type 0
  IsHistory start [] = Unit {0}
  IsHistory start (own n time ∷ cs) =
      (start ≤ℤ time) × (0 < n) × (limit + n < half64) × IsHistory time cs
  IsHistory start (other_allow j e n most length time ∷ cs) =
      (start ≤ℤ time)
      × (str_eq (composite_key j e) (composite_key key d) ≡ false)
      × IsHistory time cs
  IsHistory start (other_record j e n length time ∷ cs) =
      (start ≤ℤ time)
      × (str_eq (composite_key j e) (composite_key key d) ≡ false)
      × IsHistory time cs

  abbrev pub last_time : ℤ → List Call → ℤ
  last_time start [] = start
  last_time start (own n time ∷ cs) = last_time time cs
  last_time start (other_allow j e n most length time ∷ cs) = last_time time cs
  last_time start (other_record j e n length time ∷ cs) = last_time time cs

  Uses-later :
      (lim : Limiter) (now later : ℤ) (u : ℕ)
      → now ≤ℤ later
      → Uses lim.windows (composite_key key d) window now u
      → (v : ℕ) × (v ≤ u) × Uses lim.windows (composite_key key d) window later v
  Uses-later lim now later u h (absent missing none_used) = (0, omega arith, absent missing refl)
  Uses-later lim now later u h (present w found v same q) = (
    used later window w,
    omega (arith, used_mono now later window w h, q),
    present w found v same refl,
  )

  -- Over any calls of `AllowN` for one key and dimension, with one limit and one window, and any calls of
  -- `AllowN` and `Record` for other keys or dimensions between them, at times that never fall, where the
  -- calls for the key have positive counts and sums that fit in 64 bits, from a use within the limit: the
  -- tokens of the key that are counted in the last window never exceed the limit.
  pub run-Uses :
      (lim : Limiter) (start : ℤ) (cs : List Call) (u : ℕ)
      → pos 0 <ℤ window
      → 0 < limit
      → u ≤ limit
      → IsHistory start cs
      → Uses lim.windows (composite_key key d) window start u
      → (v : ℕ) × (v ≤ limit)
        × Uses (run lim cs).windows (composite_key key d) window (last_time start cs) v
  unfolding run
  run-Uses lim start [] u positive limit_pos low h s = (u, low, s)
  run-Uses lim start (own n time ∷ cs) u positive limit_pos low h s =
      let (v, fewer, s') = Uses-later lim start time u h.0 s in
      let (_, after) =
        allow_n-Uses lim key d n limit v window time positive h.1 limit_pos (omega arith) s' in
      run-Uses (call (own n time) lim) time cs (if leb (v + n) limit then v + n else v) positive
        limit_pos (ground arith) h.3 after
  run-Uses lim start (other_allow j e n most length time ∷ cs) u positive limit_pos low h s =
      let (v, fewer, s') = Uses-later lim start time u h.0 s in
      run-Uses (call (other_allow j e n most length time) lim) time cs v positive limit_pos
        (omega arith) h.2
        (allow_n-other (composite_key key d) window time lim j e n most length v positive h.1 s')
  run-Uses lim start (other_record j e n length time ∷ cs) u positive limit_pos low h s =
      let (v, fewer, s') = Uses-later lim start time u h.0 s in
      run-Uses (call (other_record j e n length time) lim) time cs v positive limit_pos
        (omega arith) h.2
        (record_tokens-other (composite_key key d) window time lim j e n length v h.1 s')
