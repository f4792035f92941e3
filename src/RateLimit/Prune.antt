-- ===== src/RateLimit/Prune.antt =====
-- The loop of `prune` in internal/middleware/ratelimit.go against the entries that it stands for.
use aegis_llm.Prelude.{
  -ℤ_parts, All-append, length-append, ==_iff, ℕ, zero, suc, ◌+◌, ◌-◌, ◌≤◌, ◌<◌, ◌≡◌, refl, sym, ap,
  ◌∙◌, inl, inr, false, ◌==◌, ℤ, pos, pos_part, ◌-ℤ◌, ◌≤ℤ◌, ◌<ℤ◌, leb_ℤ, sub64, add64_pos,
  sub64_pos, half64, List, [], ◌∷◌, ◌++◌, arith, length, if_elim, Bool-cases, All,
}
use aegis_llm.RateLimit.Window.{
  Entry, Window, skip, live, prune_loop, compact, prune, add_entry, drop_expired, tokens, IsCounted,
  IsValid,
}

-- Taking the oldest entry off the sum.
sub-count :
    (e : Entry) (n : ℕ)
    → IsCounted e
    → pos_part e.count + n < half64
    → sub64 (pos (pos_part e.count + n)) e.count ≡ pos n
sub-count e n c small =
    ap (sub64 (pos (pos_part e.count + n))) c
    ∙ sub64_pos (pos_part e.count + n) (pos_part e.count) (omega arith) small
    ∙ ap pos (omega arith)

prune_loop-drop_expired :
    (cutoff : ℤ) (es : List Entry) (head : ℕ)
    → All IsCounted es
    → tokens es < half64
    → (n : ℕ) × (prune_loop cutoff es head (pos (tokens es))
        ≡ (head + n, pos (tokens (drop_expired cutoff es))))
      × (skip n es ≡ drop_expired cutoff es)
      × (n ≤ length es)
unfolding prune_loop drop_expired tokens
prune_loop-drop_expired cutoff [] head c small = (0, ground arith, refl, omega arith)
prune_loop-drop_expired cutoff (e ∷ es) head c small = elim (Bool-cases (leb_ℤ e.time cutoff)) [
  | inl dead ↦
      let (n, p, q, r) = prune_loop-drop_expired cutoff es (suc head) c.1 (omega arith) in
      (suc n, ground (arith, sub-count e (tokens es) c.0 small), ground arith, omega arith)
  | inr young ↦ (0, ground arith, ground arith, omega arith)
]

skip-nil {ℓ} : {A : Type ℓ} (n : ℕ) → skip {A = A} n [] ≡ []
skip-nil zero = refl
skip-nil (suc n) = refl

skip-skip {ℓ} : {A : Type ℓ} (m n : ℕ) (xs : List A) → skip n (skip m xs) ≡ skip (m + n) xs
skip-skip zero n xs = let e : 0 + n ≡ n = omega arith in rw e
skip-skip (suc m) n [] = rw (skip-nil n, skip-nil (suc m + n))
skip-skip (suc m) n (x ∷ xs) =
    let e : suc m + n ≡ suc (m + n) = omega arith in rw e (skip-skip m n xs)

skip-length {ℓ} : {A : Type ℓ} (xs : List A) → skip (length xs) xs ≡ []
skip-length [] = refl
skip-length (x ∷ xs) = skip-length xs

length-skip {ℓ} : {A : Type ℓ} (n : ℕ) (xs : List A) → length (skip n xs) ≡ length xs - n
length-skip zero xs = omega arith
length-skip (suc n) [] = omega arith
length-skip (suc n) (x ∷ xs) = omega (arith, length-skip n xs)

compact-live :
    (w : Window) (head : ℕ) (total : ℤ) → live (compact w head total) ≡ skip head w.counts
unfolding compact
compact-live w head total = elim (Bool-cases (head == length w.counts)) [
  | inl e ↦ rw (e, compact) (rw ((==_iff head (length w.counts)).0 e) (sym (skip-length w.counts)))
  | inr e ↦ ground arith
]

compact-total :
    (w : Window) (head : ℕ)
    → (compact w head (pos (tokens (skip head w.counts)))).total ≡ pos (tokens (skip head w.counts))
unfolding compact
compact-total w head = elim (Bool-cases (head == length w.counts)) [
  | inl e ↦
      let at_end : tokens (skip head w.counts) ≡ 0 =
        rw ((==_iff head (length w.counts)).0 e)
          (rw (skip-length w.counts) (unfold tokens in refl)) in
      ground (arith, at_end)
  | inr e ↦ ground arith
]

compact-head :
    (w : Window) (head : ℕ) (total : ℤ)
    → head ≤ length w.counts
    → (compact w head total).head ≤ length (compact w head total).counts
unfolding compact
compact-head w head total h = ground arith

compact-window : (w : Window) (head : ℕ) (total : ℤ) → (compact w head total).window ≡ w.window
unfolding compact
compact-window w head total = ground arith

tokens-drop_expired : (cutoff : ℤ) (es : List Entry) → tokens (drop_expired cutoff es) ≤ tokens es
unfolding tokens drop_expired
tokens-drop_expired cutoff [] = omega arith
tokens-drop_expired cutoff (e ∷ es) = ground (arith, tokens-drop_expired cutoff es)

IsCounted-drop_expired :
    (cutoff : ℤ) (es : List Entry) → All IsCounted es → All IsCounted (drop_expired cutoff es)
unfolding drop_expired
IsCounted-drop_expired cutoff [] c = tt
IsCounted-drop_expired cutoff (e ∷ es) c =
    if_elim (All IsCounted) (leb_ℤ e.time cutoff) (λ _. IsCounted-drop_expired cutoff es c.1)
      (λ _. c)

-- `prune` leaves the entries behind the first one that is younger than the window, and a total
-- that is their sum.
pub prune-live :
    (now : ℤ) (w : Window)
    → IsValid w
    → (live (prune now w) ≡ drop_expired (now -ℤ w.window) (live w))
      × IsValid (prune now w)
      × ((prune now w).window ≡ w.window)
unfolding prune
prune-live now w v =
    let cutoff = now -ℤ w.window in
    let (n, looped, rest, small) =
      prune_loop-drop_expired cutoff (live w) w.head v.counted v.fits in
    let left : skip (w.head + n) w.counts ≡ drop_expired cutoff (live w) =
      sym (skip-skip w.head n w.counts) ∙ rest in
    let start : prune_loop cutoff (live w) w.head w.total
        ≡ (w.head + n, pos (tokens (skip (w.head + n) w.counts))) =
      rw (v.total, left) looped in
    rw start (
      compact-live w (w.head + n) _ ∙ left,
      record {
        counted =
            rw (compact-live w (w.head + n) _)
              (rw left (IsCounted-drop_expired cutoff (live w) v.counted));
        total =
            compact-total w (w.head + n)
            ∙ ap (λ es. pos (tokens es)) (sym (compact-live w (w.head + n) _));
        fits =
            rw (compact-live w (w.head + n) _)
              (rw left (omega (arith, tokens-drop_expired cutoff (live w), v.fits)));
        head = compact-head w (w.head + n) _ (omega (arith, length-skip w.head w.counts, v.head));
      },
      compact-window w (w.head + n) _,
    )

drop_expired-drop_expired :
    (cutoff : ℤ) (es : List Entry)
    → drop_expired cutoff (drop_expired cutoff es) ≡ drop_expired cutoff es
unfolding drop_expired
drop_expired-drop_expired cutoff [] = refl
drop_expired-drop_expired cutoff (e ∷ es) = ground (arith, drop_expired-drop_expired cutoff es)

-- The tokens that are younger than `window` at `now`.
unfoldable pub used : ℤ → ℤ → Window → ℕ
used now window w = tokens (drop_expired (now -ℤ window) (live w))

-- Pruning keeps what is used.
pub used-prune :
    (now : ℤ) (w : Window) → IsValid w → used now w.window (prune now w) ≡ used now w.window w
unfolding used
used-prune now w v =
    let (l, _, _) = prune-live now w v in
    rw l (ap tokens (drop_expired-drop_expired (now -ℤ w.window) (live w)))

-- The total after pruning is what is used.
pub total-prune :
    (now : ℤ) (w : Window) → IsValid w → (prune now w).total ≡ pos (used now w.window w)
unfolding used
total-prune now w v = let (l, v', _) = prune-live now w v in v'.total ∙ ap (λ es. pos (tokens es)) l

skip-append {ℓ} :
    {A : Type ℓ} (n : ℕ) (xs ys : List A) → n ≤ length xs → skip n (xs ++ ys) ≡ skip n xs ++ ys
skip-append zero xs ys h = refl
skip-append (suc n) [] ys h = absurd (omega arith)
skip-append (suc n) (x ∷ xs) ys h = skip-append n xs ys (omega arith)

tokens-append : (xs ys : List Entry) → tokens (xs ++ ys) ≡ tokens xs + tokens ys
unfolding tokens
tokens-append [] ys = omega arith
tokens-append (x ∷ xs) ys = omega (arith, tokens-append xs ys)

-- A new entry counts its tokens.
pub add_entry-IsValid :
    (now : ℤ) (n : ℕ) (w : Window)
    → IsValid w
    → tokens (live w) + n < half64
    → IsValid (add_entry now (pos n) w)
      × (live (add_entry now (pos n) w) ≡ live w ++ record { time = now; count = pos n } ∷ [])
unfolding add_entry
add_entry-IsValid now n w v small =
    let entry : Entry = record { time = now; count = pos n } in
    let l : skip w.head (w.counts ++ entry ∷ []) ≡ live w ++ entry ∷ [] =
      skip-append w.head w.counts (entry ∷ []) v.head in
    let sum : tokens (live w ++ entry ∷ []) ≡ tokens (live w) + n =
      tokens-append (live w) (entry ∷ []) ∙ unfold tokens in (omega arith) in
    (
      record {
        counted = rw l (All-append IsCounted (live w) (entry ∷ []) v.counted (refl, tt));
        total = rw (l, sum, v.total) (add64_pos (tokens (live w)) n small);
        fits = rw (l, sum) small;
        head = omega (arith, length-append w.counts (entry ∷ []), v.head);
      },
      l,
    )

-- A window that has been pruned at `now`, with `u` tokens left.
pub record IsPruned (now window : ℤ) (u : ℕ) (w : Window) : Type 0 where
  pub valid : IsValid w
  pub total : w.total ≡ pos u
  pub window_is : w.window ≡ window
  pub left : tokens (live w) ≡ u
  pub used_is : used now window w ≡ u

pub prune-IsPruned :
    (now : ℤ) (w : Window) → IsValid w → IsPruned now w.window (used now w.window w) (prune now w)
prune-IsPruned now w v =
    let (l, v', same) = prune-live now w v in
    record {
      valid = v';
      total = total-prune now w v;
      window_is = same;
      left = unfold used in (ap tokens l);
      used_is = used-prune now w v;
    }

drop_expired-append :
    (cutoff : ℤ) (es : List Entry) (e : Entry)
    → leb_ℤ e.time cutoff ≡ false
    → tokens (drop_expired cutoff (es ++ e ∷ []))
      ≡ tokens (drop_expired cutoff es) + pos_part e.count
unfolding drop_expired tokens
drop_expired-append cutoff [] e young = ground arith
drop_expired-append cutoff (x ∷ es) e young =
    ground (arith, drop_expired-append cutoff es e young, tokens-append es (e ∷ []))

-- The current time is younger than any positive window.
now_young : (now window : ℤ) → pos 0 <ℤ window → leb_ℤ now (now -ℤ window) ≡ false
now_young now window h = ground (arith, -ℤ_parts now window)

-- With the new entry the window is valid, and the entry counts as used.
pub add_entry-used :
    (now window : ℤ) (u n : ℕ) (w : Window)
    → IsPruned now window u w
    → u + n < half64
    → pos 0 <ℤ window
    → IsValid (add_entry now (pos n) w)
      × ((add_entry now (pos n) w).window ≡ window)
      × (used now window (add_entry now (pos n) w) ≡ u + n)
unfolding used
add_entry-used now window u n w p small positive =
    let (v, l) = add_entry-IsValid now n w p.valid (rw p.left small) in
    (
      v,
      unfold add_entry in p.window_is,
      ap (λ es. tokens (drop_expired (now -ℤ window) es)) l
          ∙ drop_expired-append (now -ℤ window) (live w) (record { time = now; count = pos n })
              (now_young now window positive)
          ∙ ap (λ (k : ℕ). k + n) p.used_is,
    )

drop_expired_mono :
    (c c' : ℤ) (es : List Entry)
    → c ≤ℤ c'
    → tokens (drop_expired c' es) ≤ tokens (drop_expired c es)
unfolding drop_expired tokens
drop_expired_mono c c' [] h = omega arith
drop_expired_mono c c' (e ∷ es) h =
    ground (arith, drop_expired_mono c c' es h, tokens-drop_expired c' es)

-- Time only frees tokens.
pub used_mono :
    (now later window : ℤ) (w : Window) → now ≤ℤ later → used later window w ≤ used now window w
unfolding used
used_mono now later window w h =
    drop_expired_mono (now -ℤ window) (later -ℤ window) (live w)
      (omega (arith, -ℤ_parts now window, -ℤ_parts later window))
