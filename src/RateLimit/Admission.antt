-- ===== src/RateLimit/Admission.antt =====
-- What `AllowN` and `Record` of internal/middleware/ratelimit.go admit and count.
use mathlib.Core.Path.{subst}
use aegis_llm.Prelude.{
  ==_iff, leb, ℕ, ◌+◌, ◌<◌, ◌≡◌, refl, sym, ap, ◌∙◌, inl, inr, Bool, true, false, ◌||◌, ◌==◌, ℤ,
  pos, ◌<ℤ◌, leb_ℤ, add64_pos, half64, List, [], ◌∷◌, none, some, arith, Bytes, Map, lookup,
  lookup-insert, lookup-remove, str_eq, str_eq_iff, str_eq_refl, if◌then◌else◌, if_elim, Bool-cases,
  Option-cases, map,
}
use aegis_llm.RateLimit.Window.{Window, new_window, prune, add_entry, drop_expired, tokens, IsValid}
use aegis_llm.RateLimit.Prune.{IsPruned, prune-IsPruned, add_entry-used, used}
use aegis_llm.RateLimit.Limiter.{
  Limiter, Dimension, composite_key, clean_key, clean_keys, cleanup_expired_windows, window_of,
  window_locked, count_operation, admits, put_window, allow_n,
}

-- At `now` the map holds `u` live tokens for a key, in a well-formed window of the given length,
-- or no window for it.
pub data Uses (m : Map Window) (key : Bytes) (window now : ℤ) (u : ℕ) : Type 0 where
  absent : lookup key m ≡ none → u ≡ 0 → Uses m key window now u
  present :
      (w : Window)
      → lookup key m ≡ some w
      → IsValid w
      → w.window ≡ window
      → used now window w ≡ u
      → Uses m key window now u

new_window-IsValid : (window : ℤ) → IsValid (new_window window)
unfolding new_window tokens
new_window-IsValid window = record {
  counted = tt;
  total = refl;
  fits = omega arith;
  head = omega arith;
}

same_window : (w : Window) (window : ℤ) → w.window ≡ window → record w { window = window } ≡ w
same_window w window e = λ i. record w { window = sym e i }

window_of-none :
    (m : Map Window) (key : Bytes) (window : ℤ)
    → lookup key m ≡ none
    → window_of m key window ≡ new_window window
unfolding window_of
window_of-none m key window e = ground arith

window_of-some :
    (m : Map Window) (key : Bytes) (window : ℤ) (w : Window)
    → lookup key m ≡ some w
    → window_of m key window ≡ record w { window = window }
unfolding window_of
window_of-some m key window w e = ground arith

clean_key-other :
    (now : ℤ) (m : Map Window) (j key : Bytes)
    → str_eq j key ≡ false
    → lookup key (clean_key now m j) ≡ lookup key m
unfolding clean_key
clean_key-other now m j key other = elim (Option-cases (lookup j m)) [
  | inl e ↦ ground arith
  | inr (w, e) ↦ ground (arith, lookup-remove j key m, lookup-insert j key (prune now w) m)
]

module _ (key : Bytes) (window now : ℤ) where
  prune-window_of-IsPruned :
      (m : Map Window) (u : ℕ) (w : Window)
      → window_of m key window ≡ w
      → IsValid w
      → w.window ≡ window
      → used now window w ≡ u
      → IsPruned now window u (window_locked m key window now)
  unfolding window_locked
  prune-window_of-IsPruned m u w e v same q =
      subst (λ y. IsPruned now window u (prune now y)) (sym e)
        (subst (λ k. IsPruned now window k (prune now w)) q
          (subst (λ k. IsPruned now k (used now k w) (prune now w)) same (prune-IsPruned now w v)))

  new_window-used : used now window (new_window window) ≡ 0
  unfolding used new_window drop_expired tokens
  new_window-used = refl

  -- The window that an operation works on.
  window_locked-IsPruned :
      (m : Map Window) (u : ℕ)
      → Uses m key window now u
      → IsPruned now window u (window_locked m key window now)
  window_locked-IsPruned m u (absent missing none_used) =
      prune-window_of-IsPruned m u (new_window window) (window_of-none m key window missing)
        (new_window-IsValid window) (unfold new_window in refl) (new_window-used ∙ sym none_used)
  window_locked-IsPruned m u (present w found v same e) =
      prune-window_of-IsPruned m u w
        (window_of-some m key window w found ∙ same_window w window same) v same e

  pub Uses-lookup :
      (m m' : Map Window) (u : ℕ)
      → lookup key m' ≡ lookup key m
      → Uses m key window now u
      → Uses m' key window now u
  Uses-lookup m m' u same (absent missing none_used) = absent (same ∙ missing) none_used
  Uses-lookup m m' u same (present w found v e q) = present w (same ∙ found) v e q

  clean_key-absent : (m : Map Window) → lookup key m ≡ none → clean_key now m key ≡ m
  unfolding clean_key
  clean_key-absent m e = ground arith

  -- Cleaning up a key whose window is in use, or is used up.
  clean_key-present :
      (m : Map Window) (u : ℕ) (w : Window)
      → lookup key m ≡ some w
      → pos 0 <ℤ w.window
      → (prune now w).total ≡ pos u
      → lookup key (clean_key now m key) ≡ (if u == 0 then none else some (prune now w))
  unfolding clean_key
  clean_key-present m u w e positive t =
      ground
        (arith, str_eq_refl key, lookup-remove key key m, lookup-insert key key (prune now w) m)

  -- What is used is not changed by cleaning up a key, this one or another.
  clean_key-Uses :
      (m : Map Window) (u : ℕ) (j : Bytes)
      → pos 0 <ℤ window
      → Uses m key window now u
      → Uses (clean_key now m j) key window now u
  clean_key-Uses m u j positive s = elim (Bool-cases (str_eq j key)) [
    | inl same ↦
        subst (λ k. Uses (clean_key now m k) key window now u) (sym ((str_eq_iff j key).0 same))
          (own s)
    | inr other ↦ Uses-lookup m (clean_key now m j) u (clean_key-other now m j key other) s
  ]
    where
      kept :
          (w : Window)
          → IsPruned now window u (prune now w)
          → lookup key (clean_key now m key) ≡ (if u == 0 then none else some (prune now w))
          → Uses (clean_key now m key) key window now u
      kept w p e = elim (Bool-cases (u == 0)) [
        | inl zero_used ↦ absent (rw zero_used at e) ((==_iff u 0).0 zero_used)
        | inr some_used ↦ present (prune now w) (rw some_used at e) p.valid p.window_is p.used_is
      ]

      own : Uses m key window now u → Uses (clean_key now m key) key window now u
      own (absent missing none_used) =
          Uses-lookup m (clean_key now m key) u (ap (lookup key) (clean_key-absent m missing))
            (absent missing none_used)
      own (present w found v same q) =
          let p : IsPruned now window u (prune now w) =
            subst (λ k. IsPruned now window k (prune now w)) q
              (subst (λ k. IsPruned now k (used now k w) (prune now w)) same
                (prune-IsPruned now w v)) in
          kept w p (clean_key-present m u w found (rw same positive) p.total)

  clean_keys-Uses :
      (keys : List Bytes) (m : Map Window) (u : ℕ)
      → pos 0 <ℤ window
      → Uses m key window now u
      → Uses (clean_keys now keys m) key window now u
  unfolding clean_keys
  clean_keys-Uses [] m u positive s = s
  clean_keys-Uses (j ∷ keys) m u positive s =
      clean_keys-Uses keys (clean_key now m j) u positive (clean_key-Uses m u j positive s)

  pub count_operation-Uses :
      (lim : Limiter) (u : ℕ)
      → pos 0 <ℤ window
      → Uses lim.windows key window now u
      → Uses (count_operation now lim).windows key window now u
  unfolding count_operation cleanup_expired_windows
  count_operation-Uses lim u positive s =
      if_elim (λ m. Uses m key window now u) _
        (λ _. clean_keys-Uses (map (λ e. e.0) lim.windows) lim.windows u positive s) (λ _. s)

admits_iff :
    (u n limit : ℕ) (w : Window)
    → w.total ≡ pos u
    → u + n < half64
    → admits (pos n) (pos limit) w ≡ leb (u + n) limit
unfolding admits
admits_iff u n limit w t small = ground (arith, add64_pos u n small)

put_window-present :
    (lim : Limiter) (key : Bytes) (window now : ℤ) (u : ℕ) (w : Window)
    → IsValid w
    → w.window ≡ window
    → used now window w ≡ u
    → Uses (put_window key w lim).windows key window now u
unfolding put_window
put_window-present lim key window now u w v same q =
    present w
      (lookup-insert key key w lim.windows
        ∙ ap (λ (b : Bool). if b then some w else lookup key lim.windows) (str_eq_refl key))
      v same q

-- For a positive window, limit and count, with sums that fit in 64 bits, `AllowN` admits a request
-- exactly when the tokens of the last window, with those of the request, stay within the limit. An
-- admitted request is counted and a refused one is not.
pub allow_n-Uses :
    (lim : Limiter) (key : Bytes) (d : Dimension) (n limit u : ℕ) (window now : ℤ)
    → pos 0 <ℤ window
    → 0 < n
    → 0 < limit
    → u + n < half64
    → Uses lim.windows (composite_key key d) window now u
    → ((allow_n lim key d (pos n) (pos limit) window now).1 ≡ leb (u + n) limit)
      × Uses
          (allow_n lim key d (pos n) (pos limit) window now).0.windows
          (composite_key key d)
          window
          now
          (if leb (u + n) limit then u + n else u)
allow_n-Uses lim key d n limit u window now positive n_pos limit_pos small s = (
  answer,
  subst (λ m. Uses m ck window now (if leb (u + n) limit then u + n else u)) (sym state) after,
)
  where
    ck : Bytes
    ck = composite_key key d

    counted : Limiter
    counted = count_operation now lim

    w : Window
    w = window_locked counted.windows ck window now

    p : IsPruned now window u w
    p =
        window_locked-IsPruned ck window now counted.windows u
          (count_operation-Uses ck window now lim u positive s)

    decided : admits (pos n) (pos limit) w ≡ leb (u + n) limit
    decided = admits_iff u n limit w p.total small

    open_ : (leb_ℤ (pos n) (pos 0) || leb_ℤ (pos limit) (pos 0)) ≡ false
    open_ = ground arith

    run : allow_n lim key d (pos n) (pos limit) window now ≡ (
        if leb (u + n) limit
        then (put_window ck (add_entry now (pos n) w) counted, true)
        else (put_window ck w counted, false))
    run = unfold allow_n in (ground (arith, open_, decided))

    answer : (allow_n lim key d (pos n) (pos limit) window now).1 ≡ leb (u + n) limit
    answer = ground (arith, run)

    state : (allow_n lim key d (pos n) (pos limit) window now).0.windows ≡ (
        if leb (u + n) limit
        then (put_window ck (add_entry now (pos n) w) counted).windows
        else (put_window ck w counted).windows)
    state = ground (arith, run)

    after :
        Uses
          (if leb (u + n) limit
            then (put_window ck (add_entry now (pos n) w) counted).windows
            else (put_window ck w counted).windows)
          ck
          window
          now
          (if leb (u + n) limit then u + n else u)
    after = elim (Bool-cases (leb (u + n) limit)) [
      | inl within ↦
          let (v, same, q) = add_entry-used now window u n w p small positive in
          rw within
            (put_window-present counted ck window now (u + n) (add_entry now (pos n) w) v same q)
      | inr beyond ↦
          rw beyond (put_window-present counted ck window now u w p.valid p.window_is p.used_is)
    ]
