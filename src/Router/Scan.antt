-- ===== src/Router/Scan.antt =====
-- The group loop of `Route` in internal/middleware/router.go: what it finds among closed breakers.
use mathlib.Core.Path.{subst}
use mathlib.Core.List.{append_assoc}
use aegis_llm.Prelude.{
  ◌≡◌, refl, sym, ◌∙◌, ap, ◌⊎◌, inl, inr, true, false, ◌&&◌, ℤ, leb_ℤ, ◌≤ℤ◌, List, [], ◌∷◌, ◌++◌,
  Memᴰ, Option, none, some, arith, Map, lookup, select, mem-select, select-mem, Bool-cases,
  Option-cases,
}
use aegis_llm.Breaker.{closed, Breaker, Lease, acquire_closed}
use aegis_llm.Router.Channel.{Channel, IsOrdered}
use aegis_llm.Router.Pick.{pick_weighted, pick-mem, pick-ne-none}
use aegis_llm.Router.Table.{closed_lease, has_closed, try_group, scan_groups, closed_choice}

-- `ch` got a lease of its closed breaker.
pub record ByClosed (bs : Map Breaker) (ch : Channel) (lease : Lease) : Type 0 where
  pub breaker : Breaker
  pub found : lookup ch.id bs ≡ some breaker
  pub state : breaker.state ≡ closed
  pub lease_is : lease ≡ record { generation = breaker.generation; probe = false }

ByClosed-has_closed :
    {bs : Map Breaker} {ch : Channel} {l : Lease} → ByClosed bs ch l → has_closed bs ch ≡ true
unfolding has_closed
ByClosed-has_closed c = ground (arith, c.found, c.state)

-- The lease of a channel with a closed breaker.
closed_lease-closed :
    (bs : Map Breaker) (ch : Channel)
    → has_closed bs ch ≡ true
    → (l : Lease) × (closed_lease bs ch ≡ some (ch, l)) × ByClosed bs ch l
unfolding closed_lease has_closed acquire_closed
closed_lease-closed bs ch h = elim (Option-cases (lookup ch.id bs)) [
  | inl e ↦ absurd (ground arith)
  | inr (b, e) ↦ (
    record { generation = b.generation; probe = false },
    ground arith,
    record { breaker = b; found = e; state = ground arith; lease_is = refl },
  )
]

mem-split {ℓ} : {A : Type ℓ} {x : A} (xs ys : List A) → Memᴰ x (xs ++ ys) → Memᴰ x xs ⊎ Memᴰ x ys
mem-split [] ys m = inr m
mem-split (y ∷ xs) ys (Memᴰ.head e) = inl (Memᴰ.head e)
mem-split (y ∷ xs) ys (Memᴰ.tail m) = elim (mem-split xs ys m) [
  | inl n ↦ inl (Memᴰ.tail n)
  | inr n ↦ inr n
]

mem-left {ℓ} : {A : Type ℓ} {x : A} (xs ys : List A) → Memᴰ x xs → Memᴰ x (xs ++ ys)
mem-left [] ys m = elim m [ ]
mem-left (y ∷ xs) ys (Memᴰ.head e) = Memᴰ.head e
mem-left (y ∷ xs) ys (Memᴰ.tail m) = Memᴰ.tail (mem-left xs ys m)

mem-right {ℓ} : {A : Type ℓ} {x : A} (xs ys : List A) → Memᴰ x ys → Memᴰ x (xs ++ ys)
mem-right [] ys m = m
mem-right (y ∷ xs) ys m = Memᴰ.tail (mem-right xs ys m)

pub true_not_false : true ≡ false → ⊥
true_not_false e = cc

module _ (draw : ℤ → Option ℤ) (bs : Map Breaker) where
  -- A group gives a lease of one of its closed channels, or none of it is closed.
  try_group-cases :
      (group : List Channel)
      → ((try_group draw bs group ≡ none)
          × ((d : Channel) → Memᴰ d group → has_closed bs d ≡ false))
        ⊎ ((ch : Channel) × (l : Lease) × (try_group draw bs group ≡ some (ch, l))
            × Memᴰ ch group
            × ByClosed bs ch l)
  unfolding try_group
  try_group-cases group = by_list (select (has_closed bs) group) refl
    where
      none_closed :
          select (has_closed bs) group ≡ [] → (d : Channel) → Memᴰ d group → has_closed bs d ≡ false
      none_closed e d m = elim (Bool-cases (has_closed bs d)) [
        | inl yes_ ↦ absurd (elim (subst (Memᴰ d) e (select-mem (has_closed bs) group m yes_)) [ ])
        | inr no_ ↦ no_
      ]

      by_list :
          (cs : List Channel)
          → select (has_closed bs) group ≡ cs
          → ((try_group draw bs group ≡ none)
              × ((d : Channel) → Memᴰ d group → has_closed bs d ≡ false))
            ⊎ ((ch : Channel) × (l : Lease) × (try_group draw bs group ≡ some (ch, l))
                × Memᴰ ch group
                × ByClosed bs ch l)
      by_list [] e = inl (rw (e, try_group, pick_weighted), none_closed e)
      by_list (c ∷ cs) e = elim (Option-cases (pick_weighted draw (c ∷ cs))) [
        | inl p ↦ absurd (pick-ne-none draw c cs p)
        | inr (ch, p) ↦
            let (m, h) =
              mem-select (has_closed bs) group
                (subst (Memᴰ ch) (sym e) (pick-mem draw (c ∷ cs) p)) in
            let (l, leased, by) = closed_lease-closed bs ch h in
            inr (ch, l, rw (e, try_group) (rw (p) leased), m, by)
      ]

  -- What a scan over a list of candidates has to find: a closed channel of the least priority
  -- among the closed ones, or none where none is closed.
  abbrev pub Scans : List Channel → Option (Channel × Lease) → Type 0
  Scans cs none = (d : Channel) → Memᴰ d cs → has_closed bs d ≡ false
  Scans cs (some (ch, l)) =
      Memᴰ ch cs
      × ByClosed bs ch l
      × ((d : Channel) → Memᴰ d cs → has_closed bs d ≡ true → ch.priority ≤ℤ d.priority)

  -- A group of priority `p` before candidates of at least that priority.
  record Front (p : ℤ) (group cs : List Channel) : Type 0 where
    equal : (d : Channel) → Memᴰ d group → d.priority ≡ p
    above : (d : Channel) → Memᴰ d cs → p ≤ℤ d.priority
    ordered : IsOrdered cs

  -- The group's own choice is one for all candidates.
  Scans-Front :
      (p : ℤ) (group cs : List Channel) (ch : Channel) (l : Lease)
      → Front p group cs
      → Memᴰ ch group
      → ByClosed bs ch l
      → Scans (group ++ cs) (some (ch, l))
  Scans-Front p group cs ch l f m by = (
    mem-left group cs m,
    by,
    λ d n _. elim (mem-split group cs n) [
      | inl here ↦ ground (arith, f.equal ch m, f.equal d here)
      | inr there ↦ ground (arith, f.equal ch m, f.above d there)
    ],
  )

  -- A group with no closed channel is passed over.
  Scans-skip :
      (group cs : List Channel) (r : Option (Channel × Lease))
      → ((d : Channel) → Memᴰ d group → has_closed bs d ≡ false)
      → Scans cs r
      → Scans (group ++ cs) r
  Scans-skip group cs none h s =
      λ d m. elim (mem-split group cs m) [ inl here ↦ h d here | inr there ↦ s d there ]
  Scans-skip group cs (some (ch, l)) h s = (
    mem-right group cs s.0,
    s.1,
    λ d m e. elim (mem-split group cs m) [
      | inl here ↦ absurd (true_not_false (sym e ∙ h d here))
      | inr there ↦ s.2 d there e
    ],
  )

  Front-cons : (c : Channel) (cs : List Channel) → IsOrdered (c ∷ cs) → Front c.priority (c ∷ []) cs
  Front-cons c cs o = record {
    equal = λ d m. elim m [
      | Memᴰ.head e ↦ ap (λ (x : Channel). x.priority) e
      | Memᴰ.tail n ↦ elim n [ ]
    ];
    above = o.0;
    ordered = o.1;
  }

  Front-grow :
      (p : ℤ) (group : List Channel) (c : Channel) (cs : List Channel)
      → c.priority ≡ p
      → Front p group (c ∷ cs)
      → Front p (group ++ c ∷ []) cs
  Front-grow p group c cs e f = record {
    equal = λ d m. elim (mem-split group (c ∷ []) m) [
      | inl here ↦ f.equal d here
      | inr last ↦ elim last [
        | Memᴰ.head q ↦ ap (λ (x : Channel). x.priority) q ∙ e
        | Memᴰ.tail n ↦ elim n [ ]
      ]
    ];
    above = λ d m. f.above d (Memᴰ.tail m);
    ordered = f.ordered.1;
  }

  scan_groups-Scans :
      (p : ℤ) (group cs : List Channel)
      → Front p group cs
      → Scans (group ++ cs) (scan_groups draw bs p group cs)
  unfolding scan_groups
  scan_groups-Scans p group [] f = elim (try_group-cases group) [
    | inl (e, h) ↦ rw e (Scans-skip group [] none h (λ d m. elim m [ ]))
    | inr (ch, l, e, m, by) ↦ rw e (Scans-Front p group [] ch l f m by)
  ]
  scan_groups-Scans p group (c ∷ cs) f =
      elim (Bool-cases (leb_ℤ c.priority p && leb_ℤ p c.priority)) [
        | inl same ↦
            rw (same, scan_groups)
              (subst (λ xs. Scans xs (scan_groups draw bs p (group ++ c ∷ []) cs))
                (append_assoc group (c ∷ []) cs)
                (scan_groups-Scans p (group ++ c ∷ []) cs
                  (Front-grow p group c cs (ground arith) f)))
        | inr other ↦ elim (try_group-cases group) [
          | inl (e, h) ↦
              rw (other, scan_groups)
                (rw e (
                  Scans-skip group (c ∷ cs) _ h
                    (scan_groups-Scans c.priority (c ∷ []) cs (Front-cons c cs f.ordered))))
          | inr (ch, l, e, m, by) ↦
              rw (other, scan_groups) (rw e (Scans-Front p group (c ∷ cs) ch l f m by))
        ]
      ]

  pub closed_choice-Scans : (cs : List Channel) → IsOrdered cs → Scans cs (closed_choice draw bs cs)
  unfolding closed_choice
  closed_choice-Scans [] o = λ d m. elim m [ ]
  closed_choice-Scans (c ∷ cs) o = scan_groups-Scans c.priority (c ∷ []) cs (Front-cons c cs o)
