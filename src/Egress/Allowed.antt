-- ===== src/Egress/Allowed.antt =====
-- Which endpoints the rules of internal/egress/egress.go let out.
use mathlib.Core.List.{reverse-append, reverse-reverse}
use mathlib.Core.Path.{subst, sym}
use aegis_llm.Prelude.{
  and_true, ◌==◌, length, length-append, ◌≡◌, refl, ◌↔◌, inl, inr, Bool, true, false, ◌&&◌, ◌∙◌, ap,
  none, some, List, [], ◌∷◌, ◌++◌, Memᴰ, arith, Bytes, str_eq, str_eq_sound, str_eq_refl,
  str_eq_iff, has_prefix, has_suffix, Option-cases, Bool-cases, reverse,
}
use aegis_llm.Egress.Authority.{Endpoint}
use aegis_llm.Egress.Rules.{Rule, matches, matches_name, endpoint_allowed}

-- A text starts with another one exactly when it is that text and a rest.
prefix_sound : (s t : Bytes) → has_prefix s t ≡ true → (u : Bytes) × (s ≡ t ++ u)
unfolding has_prefix
prefix_sound s [] h = (s, refl)
prefix_sound [] (b ∷ t) h = cc
prefix_sound (a ∷ s) (b ∷ t) h =
    let (first, rest) = and_true (a == b) (has_prefix s t) h in
    let (u, e) = prefix_sound s t rest in (u, ground (arith, e, first))

prefix_complete : (t u : Bytes) → has_prefix (t ++ u) t ≡ true
unfolding has_prefix
prefix_complete [] u = refl
prefix_complete (b ∷ t) u = ground (arith, prefix_complete t u)

-- A text ends with another one exactly when it is some text and that one.
suffix_sound : (s t : Bytes) → has_suffix s t ≡ true → (u : Bytes) × (s ≡ u ++ t)
unfolding has_suffix
suffix_sound s t h =
    let (u, e) = prefix_sound (reverse s) (reverse t) h in
    (
      reverse u,
      sym (reverse-reverse s)
          ∙ ap reverse e
          ∙ reverse-append (reverse t) u
          ∙ ap (λ (x : Bytes). reverse u ++ x) (reverse-reverse t),
    )

suffix_complete : (u t : Bytes) → has_suffix (u ++ t) t ≡ true
unfolding has_suffix
suffix_complete u t = rw (reverse-append u t) (prefix_complete (reverse t) (reverse u))

append_longer : (u t : Bytes) → length (u ++ t) ≡ length t → length u ≡ 0
append_longer u t h = omega (arith, length-append u t, h)

-- A name below another one is not that one.
below_differs : (u host : Bytes) → str_eq (u ++ (b'.' ∷ host)) host ≡ false
below_differs u host = elim (Bool-cases (str_eq (u ++ (b'.' ∷ host)) host)) [
  | inr e ↦ e
  | inl e ↦ absurd (
      omega (
        arith,
        length-append u (b'.' ∷ host),
        ap (λ (x : Bytes). length x) (str_eq_sound (u ++ (b'.' ∷ host)) host e),
      ))
]

module _ {A : Type 0} (same_ip : A → A → Bool) where
  -- What a rule is for: the name that it has, every name below it, or an address.
  pub data Authorizes (e : Endpoint A) (rule : Rule A) : Type 0 where
    exact :
        e.ip ≡ none
        → rule.ip ≡ none
        → rule.wildcard ≡ false
        → e.host ≡ rule.host
        → Authorizes e rule
    below :
        (sub : Bytes)
        → e.ip ≡ none
        → rule.ip ≡ none
        → rule.wildcard ≡ true
        → e.host ≡ sub ++ (b'.' ∷ rule.host)
        → Authorizes e rule
    literal : (a b : A) → e.ip ≡ some a → rule.ip ≡ some b → same_ip a b ≡ true → Authorizes e rule

  matches_name_sound :
      (e : Endpoint A) (rule : Rule A)
      → e.ip ≡ none
      → matches_name same_ip e.host rule ≡ true
      → Authorizes e rule
  matches_name_sound e rule named h = elim (Option-cases rule.ip) [
    | inr (b, q) ↦ absurd (ground (arith, h, q))
    | inl q ↦ elim (Bool-cases rule.wildcard) [
      | inl w ↦
          let (sub, s) = suffix_sound e.host (b'.' ∷ rule.host) (ground (arith, h, q, w)) in
          below sub named q w s
      | inr w ↦ exact named q w (str_eq_sound e.host rule.host (ground (arith, h, q, w)))
    ]
  ]

  matches_sound :
      (e : Endpoint A) (rule : Rule A) → matches same_ip e rule e.ip ≡ true → Authorizes e rule
  matches_sound e rule h = elim (Option-cases e.ip) [
    | inl n ↦ matches_name_sound e rule n (ground (arith, h, n))
    | inr (a, q) ↦ elim (Option-cases rule.ip) [
      | inl n ↦ absurd (ground (arith, h, q, n))
      | inr (b, r) ↦ literal a b q r (ground (arith, h, q, r))
    ]
  ]

  matches_complete :
      (e : Endpoint A) (rule : Rule A) → Authorizes e rule → matches same_ip e rule e.ip ≡ true
  matches_complete e rule (exact n q w h) =
      ground (arith, n, q, w, h, str_eq_refl rule.host, str_eq_iff e.host rule.host)
  matches_complete e rule (below sub n q w h) = ground (
    arith,
    n,
    q,
    w,
    ap (λ x. has_suffix x (b'.' ∷ rule.host)) h ∙ suffix_complete sub (b'.' ∷ rule.host),
    ap (λ x. str_eq x rule.host) h ∙ below_differs sub rule.host,
  )
  matches_complete e rule (literal a b q r h) = ground (arith, q, r, h)

  -- An endpoint is allowed exactly when the allowlist has a rule of its port that is for its name, for a
  -- name above it, or for its address.
  pub endpoint_allowed_iff :
      (e : Endpoint A) (rules : List (Rule A))
      → (endpoint_allowed same_ip e rules ≡ true)
        ↔ ((rule : Rule A) × Memᴰ rule rules × (e.port ≡ rule.port) × Authorizes e rule)
  unfolding endpoint_allowed
  endpoint_allowed_iff e rules = (find rules, λ (rule, m, p, a). found rules m p a)
    where
      find :
          (rs : List (Rule A))
          → endpoint_allowed same_ip e rs ≡ true
          → (rule : Rule A) × Memᴰ rule rs × (e.port ≡ rule.port) × Authorizes e rule
      find [] h = cc
      find (r ∷ rs) h = elim (Bool-cases (str_eq e.port r.port && matches same_ip e r e.ip)) [
        | inl y ↦
            let (p, q) = and_true (str_eq e.port r.port) (matches same_ip e r e.ip) y in
            (r, Memᴰ.head refl, str_eq_sound e.port r.port p, matches_sound e r q)
        | inr n ↦ let (rule, m, p, a) = find rs (ground (arith, h, n)) in (rule, Memᴰ.tail m, p, a)
      ]

      found :
          (rs : List (Rule A)) {rule : Rule A}
          → Memᴰ rule rs
          → e.port ≡ rule.port
          → Authorizes e rule
          → endpoint_allowed same_ip e rs ≡ true
      found [] m p a = elim m [ ]
      found (r ∷ rs) {rule = rule} (Memᴰ.head q) p a =
          let hit : matches same_ip e r e.ip ≡ true =
            subst (λ x. matches same_ip e x e.ip ≡ true) q (matches_complete e rule a) in
          let port : str_eq e.port r.port ≡ true =
            subst (λ (x : Rule A). str_eq e.port x.port ≡ true) q (rw p (str_eq_refl rule.port)) in
          ground (arith, hit, port)
      found (r ∷ rs) (Memᴰ.tail m) p a = ground (arith, found rs m p a)
