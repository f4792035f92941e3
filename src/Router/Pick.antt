-- ===== src/Router/Pick.antt =====
-- `pickWeighted` of internal/middleware/router.go, a lottery among channels of one priority.
use aegis_llm.Prelude.{
  ◌≢◌, ◌-◌, sub64_pos, Option-cases, inl, inr, ap, ◌∙◌, pos_part, ℕ, ◌+◌, ◌≤◌, ◌<◌, ◌≡◌, refl, true,
  false, ℤ, pos, leb_ℤ, ltb_ℤ, add64, sub64, add64_pos, half64, List, [], ◌∷◌, ◌++◌, Memᴰ, Option,
  none, some, arith, if◌then◌else◌, Bool-cases,
}
use mathlib.Core.Path.{subst}
use native.Mathlib.Decide.{dec_lt}
use aegis_llm.Router.Channel.{Channel}

-- gatewayconst.DefaultProviderWeight
abbrev pub default_provider_weight : ℤ
default_provider_weight = pos 1

-- A weight that is not positive counts as the default.
unfoldable pub weight_of : Channel → ℤ
weight_of ch = if leb_ℤ ch.weight (pos 0) then default_provider_weight else ch.weight

-- `total += weight` over the channels
unfoldable pub total_weight : ℤ → List Channel → ℤ
unfolding weight_of add64
total_weight acc [] = acc
total_weight acc (ch ∷ chs) = total_weight (add64 acc (weight_of ch)) chs

-- The last loop: the channel in whose share of the weights `n` falls, or the last one.
unfoldable pub pick_share : ℤ → Channel → List Channel → Channel
unfolding weight_of sub64
pick_share n ch [] = ch
pick_share n ch (c ∷ cs) =
    let rest = pick_share (sub64 n (weight_of ch)) c cs in
    if ltb_ℤ n (weight_of ch) then ch else rest

-- `cryptoRandIntn`: `draw n` stands for `crypto/rand`'s uniform value below `n`, if it has one.
unfoldable pub crypto_rand_intn : (ℤ → Option ℤ) → ℤ → Option ℤ
crypto_rand_intn draw n = if leb_ℤ n (pos 0) then none else draw n

-- `pickWeighted`
unfoldable pub pick_weighted : (ℤ → Option ℤ) → List Channel → Option Channel
unfolding pick_share total_weight crypto_rand_intn
pick_weighted draw [] = none
pick_weighted draw (c ∷ []) = some c
pick_weighted draw (c ∷ d ∷ ds) = elim (crypto_rand_intn draw (total_weight (pos 0) (c ∷ d ∷ ds))) [
  | none ↦ some c
  | some n ↦ some (pick_share n c (d ∷ ds))
]

pick_share-mem : (n : ℤ) (ch : Channel) (chs : List Channel) → Memᴰ (pick_share n ch chs) (ch ∷ chs)
unfolding pick_share
pick_share-mem n ch [] = Memᴰ.head refl
pick_share-mem n ch (c ∷ cs) = elim (Bool-cases (ltb_ℤ n (weight_of ch))) [
  | inl e ↦ rw (e, pick_share) (Memᴰ.head refl)
  | inr e ↦ rw (e, pick_share) (Memᴰ.tail (pick_share-mem (sub64 n (weight_of ch)) c cs))
]

-- Only one of the given channels is picked.
pub pick-mem :
    (draw : ℤ → Option ℤ) (chs : List Channel) {c : Channel}
    → pick_weighted draw chs ≡ some c
    → Memᴰ c chs
unfolding pick_weighted
pick-mem draw [] e = absurd (ground arith)
pick-mem draw (c ∷ []) e = Memᴰ.head (ground arith)
pick-mem draw (c ∷ d ∷ ds) e =
    elim (Option-cases (crypto_rand_intn draw (total_weight (pos 0) (c ∷ d ∷ ds)))) [
      | inl none_drawn ↦ Memᴰ.head (ground arith)
      | inr (n, drawn) ↦
          subst (λ x. Memᴰ x (c ∷ d ∷ ds)) (ground arith) (pick_share-mem n c (d ∷ ds))
    ]

-- Some channel is picked from a list that has one.
pub pick-ne-none :
    (draw : ℤ → Option ℤ) (c : Channel) (cs : List Channel) → pick_weighted draw (c ∷ cs) ≢ none
unfolding pick_weighted
pick-ne-none draw c [] = ground arith
pick-ne-none draw c (d ∷ ds) = ground arith

-- The sum of the weights, without wrap-around.
unfoldable pub weight_sum : List Channel → ℕ
weight_sum [] = 0
weight_sum (ch ∷ chs) = pos_part (weight_of ch) + weight_sum chs

weight_of_pos :
    (ch : Channel) → (weight_of ch ≡ pos (pos_part (weight_of ch))) × (0 < pos_part (weight_of ch))
unfolding weight_of
weight_of_pos ch = ground arith

total-sum :
    (n : ℕ) (chs : List Channel)
    → n + weight_sum chs < half64
    → total_weight (pos n) chs ≡ pos (n + weight_sum chs)
unfolding total_weight weight_sum
total-sum n [] h = ap pos (omega arith)
total-sum n (ch ∷ chs) h =
    let w = pos_part (weight_of ch) in
    let step : add64 (pos n) (weight_of ch) ≡ pos (n + w) =
      rw (weight_of_pos ch).0 (add64_pos n w (omega arith)) in
    rw step (total-sum (n + w) chs (omega arith) ∙ ap pos (omega arith))

-- `c` stands in the list, and the value `k` falls in its share of the weights.
pub record Share (k : ℕ) (chs : List Channel) (c : Channel) : Type 0 where
  pub before : List Channel
  pub after : List Channel
  pub split : chs ≡ before ++ c ∷ after
  pub from : weight_sum before ≤ k
  pub to : k < weight_sum before + pos_part (weight_of c)

Share-cons :
    (k w : ℕ) (ch c : Channel) (chs : List Channel)
    → pos_part (weight_of ch) ≡ w
    → w ≤ k
    → Share (k - w) chs c
    → Share k (ch ∷ chs) c
unfolding weight_sum
Share-cons k w ch c chs e h s = record {
  before = ch ∷ s.before;
  after = s.after;
  split = ap (◌∷◌ ch) s.split;
  from = omega (arith, s.from, e);
  to = omega (arith, s.to, e);
}

Share-here :
    (k : ℕ) (ch : Channel) (chs : List Channel)
    → k < pos_part (weight_of ch)
    → Share k (ch ∷ chs) ch
unfolding weight_sum
Share-here k ch chs h = record {
  before = [];
  after = chs;
  split = refl;
  from = omega arith;
  to = omega arith;
}

pick_share-Share :
    (k : ℕ) (ch : Channel) (chs : List Channel)
    → k < weight_sum (ch ∷ chs)
    → weight_sum (ch ∷ chs) < half64
    → Share k (ch ∷ chs) (pick_share (pos k) ch chs)
unfolding pick_share weight_sum
pick_share-Share k ch [] h small = Share-here k ch [] (omega arith)
pick_share-Share k ch (c ∷ cs) h small =
    let w = pos_part (weight_of ch) in
    elim (dec_lt k w) [
      | yes low ↦
          let e : ltb_ℤ (pos k) (weight_of ch) ≡ true = rw (weight_of_pos ch).0 (ground arith) in
          rw (e, pick_share) (Share-here k ch (c ∷ cs) low)
      | no high ↦
          let e : ltb_ℤ (pos k) (weight_of ch) ≡ false = rw (weight_of_pos ch).0 (ground arith) in
          let d : sub64 (pos k) (weight_of ch) ≡ pos (k - w) =
            rw (weight_of_pos ch).0 (sub64_pos k w (omega arith) (omega arith)) in
          rw (e, pick_share)
            (rw d (
              Share-cons k w ch _ (c ∷ cs) refl (omega arith)
                (pick_share-Share (k - w) c cs (omega arith) (omega arith))))
    ]

-- Where the weights add up without overflow and the random source returns `k` below their sum,
-- the channel is picked in whose share of the weights `k` falls: each channel is picked for as
-- many values as its weight.
pub pick-Share :
    (draw : ℤ → Option ℤ) (k : ℕ) (c : Channel) (cs : List Channel)
    → weight_sum (c ∷ cs) < half64
    → draw (pos (weight_sum (c ∷ cs))) ≡ some (pos k)
    → k < weight_sum (c ∷ cs)
    → (chosen : Channel) × (pick_weighted draw (c ∷ cs) ≡ some chosen) × Share k (c ∷ cs) chosen
unfolding pick_weighted
pick-Share draw k c [] small drawn h = (c, refl, pick_share-Share k c [] h small)
pick-Share draw k c (d ∷ ds) small drawn h =
    let total : total_weight (pos 0) (c ∷ d ∷ ds) ≡ pos (weight_sum (c ∷ d ∷ ds)) =
      total-sum 0 (c ∷ d ∷ ds) (omega arith) ∙ ap pos (omega arith) in
    let some_drawn : crypto_rand_intn draw (pos (weight_sum (c ∷ d ∷ ds))) ≡ some (pos k) =
      ground arith in
    (
      pick_share (pos k) c (d ∷ ds),
      rw (pick_weighted, total) (rw some_drawn),
      pick_share-Share k c (d ∷ ds) h small,
    )
