-- ===== src/RateLimit/Limiter.antt =====
-- `memoryLimiter` of internal/middleware/ratelimit.go: the sliding windows by key and dimension,
-- and the concurrency trackers, which are shared objects named by a number.
use aegis_llm.Prelude.{
  ℕ, suc, ◌+◌, ◌%◌, Bool, true, false, ◌&&◌, ◌||◌, ◌==◌, ℤ, pos, leb_ℤ, ltb_ℤ, add64, sub64, mod64,
  List, [], ◌∷◌, ◌++◌, map, Option, none, some, Bytes, Map, codes, lookup, insert, remove,
  if◌then◌else◌,
}
use aegis_llm.RateLimit.Window.{Window, new_window, prune, add_entry}

pub data Dimension : Type 0 where
  rpm tpm : Dimension

-- gatewayconst.RateDimensionRPM and RateDimensionTPM
abbrev pub dimension_name : Dimension → Bytes
dimension_name rpm = codes "rpm"
dimension_name tpm = codes "tpm"

-- `conc` maps a key to its tracker, `current` is the count of each tracker.
pub record Limiter : Type 0 where
  pub windows : Map Window
  pub operations : ℕ
  pub conc : Map ℕ
  pub current : ℕ → ℤ
  pub next_tracker : ℕ

unfoldable pub new_memory_limiter : Limiter
new_memory_limiter = record {
  windows = [];
  operations = 0;
  conc = [];
  current = λ _. pos 0;
  next_tracker = 0;
}

-- `key + ":" + dimension`
abbrev pub composite_key : Bytes → Dimension → Bytes
composite_key key d = key ++ codes ":" ++ dimension_name d

abbrev is_zero : ℤ → Bool
is_zero z = leb_ℤ z (pos 0) && leb_ℤ (pos 0) z

-- The body of the loop of `cleanupExpiredWindows` for one key.
unfoldable pub clean_key : ℤ → Map Window → Bytes → Map Window
unfolding lookup insert remove prune
clean_key now m key = elim (lookup key m) [
  | none ↦ m
  | some w ↦
      if leb_ℤ w.window (pos 0)
      then remove key m
      else (if is_zero (prune now w).total then remove key m else insert key (prune now w) m)
]

unfoldable pub clean_keys : ℤ → List Bytes → Map Window → Map Window
unfolding clean_key
clean_keys now [] m = m
clean_keys now (key ∷ keys) m = clean_keys now keys (clean_key now m key)

-- `cleanupExpiredWindows`
unfoldable pub cleanup_expired_windows : ℤ → Map Window → Map Window
unfolding clean_keys
cleanup_expired_windows now m = clean_keys now (map (λ e. e.0) m) m

-- `windowLocked`: the pruned window, and the map that holds it.
unfoldable pub window_of : Map Window → Bytes → ℤ → Window
unfolding lookup new_window
window_of m key window = elim (lookup key m) [
  | none ↦ new_window window
  | some w ↦ record w { window = window }
]

unfoldable pub window_locked : Map Window → Bytes → ℤ → ℤ → Window
unfolding window_of
window_locked m key window now = prune now (window_of m key window)

-- `m.operations++`, with the cleaning up at each 256th operation.
unfoldable pub count_operation : ℤ → Limiter → Limiter
unfolding cleanup_expired_windows
count_operation now lim =
    let n = (lim.operations + 1) % mod64 in
    record lim {
      operations = n;
      windows = if n % 256 == 0 then cleanup_expired_windows now lim.windows else lim.windows;
    }

-- The window of an operation, and whether `sw.total+n > limit` is false.
unfoldable pub admits : ℤ → ℤ → Window → Bool
unfolding add64
admits n limit w = leb_ℤ (add64 w.total n) limit

unfoldable pub put_window : Bytes → Window → Limiter → Limiter
unfolding insert
put_window key w lim = record lim { windows = insert key w lim.windows }

-- `AllowN`
unfoldable pub allow_n : Limiter → Bytes → Dimension → ℤ → ℤ → ℤ → ℤ → Limiter × Bool
unfolding count_operation window_locked admits put_window add_entry
allow_n lim key d n limit window now =
    if leb_ℤ n (pos 0) || leb_ℤ limit (pos 0)
    then (lim, true)
    else (let counted = count_operation now lim in
        let w = window_locked counted.windows (composite_key key d) window now in
        if admits n limit w
        then (put_window (composite_key key d) (add_entry now n w) counted, true)
        else (put_window (composite_key key d) w counted, false))

-- `Allow`
unfoldable pub allow : Limiter → Bytes → Dimension → ℤ → ℤ → ℤ → Limiter × Bool
unfolding allow_n
allow lim key d limit window now = allow_n lim key d (pos 1) limit window now

-- `Record`
unfoldable pub record_tokens : Limiter → Bytes → Dimension → ℤ → ℤ → ℤ → Limiter
unfolding window_locked put_window add_entry
record_tokens lim key d n window now =
    if leb_ℤ n (pos 0)
    then lim
    else put_window (composite_key key d)
        (add_entry now n (window_locked lim.windows (composite_key key d) window now)) lim

-- The release function that `AcquireConcurrency` returns: it does nothing where there is no
-- limit, and otherwise counts its tracker down once.
pub data Release : Type 0 where
  unlimited : Release
  held : Bytes → ℕ → Bool → Release

abbrev set_count : (ℕ → ℤ) → ℕ → ℤ → ℕ → ℤ
set_count f i v j = if i == j then v else f j

-- The tracker of a key, made if there is none.
unfoldable pub tracker_of : Limiter → Bytes → Limiter × ℕ
unfolding lookup insert
tracker_of lim key = elim (lookup key lim.conc) [
  | some t ↦ (lim, t)
  | none ↦ (
    record lim {
      conc = insert key lim.next_tracker lim.conc;
      current = set_count lim.current lim.next_tracker (pos 0);
      next_tracker = suc lim.next_tracker;
    },
    lim.next_tracker,
  )
]

-- `AcquireConcurrency`
unfoldable pub acquire_concurrency : Limiter → Bytes → ℤ → Limiter × Option Release
unfolding tracker_of add64
acquire_concurrency lim key max_conc =
    if leb_ℤ max_conc (pos 0)
    then (lim, some unlimited)
    else (let (l, t) = tracker_of lim key in
        if leb_ℤ max_conc (l.current t) then (l, none) else (
          record l { current = set_count l.current t (add64 (l.current t) (pos 1)) },
          some (held key t false),
        ))

abbrev is_tracker : Option ℕ → ℕ → Bool
is_tracker none t = false
is_tracker (some s) t = s == t

-- A call of the release function, which remembers that it was called.
unfoldable pub release_concurrency : Limiter → Release → Limiter × Release
unfolding lookup remove sub64
release_concurrency lim unlimited = (lim, unlimited)
release_concurrency lim (held key t true) = (lim, held key t true)
release_concurrency lim (held key t false) =
    let left = sub64 (lim.current t) (pos 1) in
    let counted = record lim { current = set_count lim.current t left } in
    if is_zero left && is_tracker (lookup key lim.conc) t
    then (record counted { conc = remove key lim.conc }, held key t true)
    else (counted, held key t true)

-- `effectivePolicyLimit`
unfoldable pub effective_policy_limit : ℤ → ℤ → ℤ
effective_policy_limit default_max key_max =
    if leb_ℤ key_max (pos 0)
    then default_max
    else (if leb_ℤ default_max (pos 0)
        then key_max
        else (if ltb_ℤ key_max default_max then key_max else default_max))
