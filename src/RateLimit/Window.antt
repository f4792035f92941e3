-- ===== src/RateLimit/Window.antt =====
-- `slidingWindow` of internal/middleware/ratelimit.go. The entries before `head` are dead.
use aegis_llm.Prelude.{
  ℕ, zero, suc, ◌+◌, ◌*◌, ◌≤◌, ◌<◌, ◌≡◌, ◌&&◌, ◌==◌, leb, ℤ, pos, pos_part, ◌-ℤ◌, leb_ℤ, add64,
  sub64, half64, List, [], ◌∷◌, ◌++◌, length, if◌then◌else◌, All,
}

pub record Entry : Type 0 where
  pub time : ℤ
  pub count : ℤ

pub record Window : Type 0 where
  pub counts : List Entry
  pub window : ℤ
  pub head : ℕ
  pub total : ℤ

abbrev pub skip {ℓ} : {A : Type ℓ} → ℕ → List A → List A
skip zero xs = xs
skip (suc n) [] = []
skip (suc n) (x ∷ xs) = skip n xs

-- `counts[head:]`
abbrev pub live : Window → List Entry
live w = skip w.head w.counts

unfoldable pub new_window : ℤ → Window
new_window window = record { counts = []; window = window; head = 0; total = pos 0 }

-- The loop of `prune` over the live entries: the new head and total.
unfoldable pub prune_loop : ℤ → List Entry → ℕ → ℤ → ℕ × ℤ
unfolding sub64
prune_loop cutoff [] head total = (head, total)
prune_loop cutoff (e ∷ es) head total =
    let rest = prune_loop cutoff es (suc head) (sub64 total e.count) in
    if leb_ℤ e.time cutoff then rest else (head, total)

-- `prune` after its loop: reset an empty window, or compact a long dead part.
unfoldable pub compact : Window → ℕ → ℤ → Window
compact w head total =
    if head == length w.counts
    then record w { counts = []; head = 0; total = pos 0 }
    else (if leb 1024 head && leb (length w.counts) (head * 2)
        then record w { counts = skip head w.counts; head = 0; total = total }
        else record w { head = head; total = total })

unfoldable pub prune : ℤ → Window → Window
unfolding prune_loop compact ◌-ℤ◌
prune now w =
    let (head, total) = prune_loop (now -ℤ w.window) (live w) w.head w.total in compact w head total

-- `sw.counts = append(sw.counts, ...); sw.total += n`
unfoldable pub add_entry : ℤ → ℤ → Window → Window
unfolding add64
add_entry now n w = record w {
  counts = w.counts ++ record { time = now; count = n } ∷ [];
  total = add64 w.total n;
}

-- What the window stands for: the entries that are younger than the cutoff, in a row from the
-- youngest back.
unfoldable pub drop_expired : ℤ → List Entry → List Entry
drop_expired cutoff [] = []
drop_expired cutoff (e ∷ es) = if leb_ℤ e.time cutoff then drop_expired cutoff es else e ∷ es

-- The tokens of a list of entries.
unfoldable pub tokens : List Entry → ℕ
tokens [] = 0
tokens (e ∷ es) = pos_part e.count + tokens es

abbrev pub IsCounted : Entry → Type 0
IsCounted e = e.count ≡ pos (pos_part e.count)

-- The total is the sum of the live entries, none of which is negative, and fits in an `int64`.
pub record IsValid (w : Window) : Type 0 where
  pub counted : All IsCounted (live w)
  pub total : w.total ≡ pos (tokens (live w))
  pub fits : tokens (live w) < half64
  pub head : w.head ≤ length w.counts
