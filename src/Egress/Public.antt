-- ===== src/Egress/Public.antt =====
-- Which IPv4 addresses of a DNS answer internal/egress/egress.go calls public, and those that hide in IPv6.
use Prim.Native.Nat.{◌^◌}
use aegis_llm.Prelude.{
  ℕ, ◌+◌, ◌*◌, ◌/◌, ◌%◌, ◌<◌, ◌≡◌, refl, Bool, true, false, not, ◌&&◌, ◌||◌, ◌==◌, leb, List, [],
  ◌∷◌, any, All, length, ap, ◌∙◌, Memᴰ, any-false, if◌then◌else◌, if_elim, arith,
}
use aegis_llm.Egress.Address.{
  v4, v6, Prefix, quad, prefix_contains, unmap, public_dns_address, is_public, is_special, denied_4,
  denied_6, prefixes_contain, is_global_unicast, is_private, is_loopback, is_link_local_unicast,
  is_link_local_multicast, is_multicast, is_unspecified, mapped_prefix,
}

-- The first and the last address of the blocks that are not public: the multicast block, and the
-- special-purpose blocks of IANA.
abbrev pub special_ranges : List (ℕ × ℕ)
special_ranges =
    (quad 224 0 0 0, quad 239 255 255 255)
    ∷ (quad 0 0 0 0, quad 0 255 255 255)
    ∷ (quad 10 0 0 0, quad 10 255 255 255)
    ∷ (quad 100 64 0 0, quad 100 127 255 255)
    ∷ (quad 127 0 0 0, quad 127 255 255 255)
    ∷ (quad 169 254 0 0, quad 169 254 255 255)
    ∷ (quad 172 16 0 0, quad 172 31 255 255)
    ∷ (quad 192 0 0 0, quad 192 0 0 255)
    ∷ (quad 192 0 2 0, quad 192 0 2 255)
    ∷ (quad 192 31 196 0, quad 192 31 196 255)
    ∷ (quad 192 52 193 0, quad 192 52 193 255)
    ∷ (quad 192 88 99 0, quad 192 88 99 255)
    ∷ (quad 192 168 0 0, quad 192 168 255 255)
    ∷ (quad 192 175 48 0, quad 192 175 48 255)
    ∷ (quad 198 18 0 0, quad 198 19 255 255)
    ∷ (quad 198 51 100 0, quad 198 51 100 255)
    ∷ (quad 203 0 113 0, quad 203 0 113 255)
    ∷ (quad 240 0 0 0, quad 255 255 255 255)
    ∷ []

abbrev pub is_within : ℕ → ℕ × ℕ → Bool
is_within n (low, high) = leb low n && leb n high

abbrev tail : List (ℕ × ℕ) → List (ℕ × ℕ)
tail [] = []
tail (r ∷ rs) = rs

-- Prefix for prefix, the addresses are those of the range.
abbrev Same : ℕ → List Prefix → List (ℕ × ℕ) → Type 0
Same n [] [] = Unit {0}
Same n [] (r ∷ rs) = Unit {0}
Same n (p ∷ ps) [] = Unit {0}
Same n (p ∷ ps) (r ∷ rs) = (prefix_contains p (v4 n) ≡ is_within n r) × Same n ps rs

abbrev AreSame : ℕ → List Prefix → List (ℕ × ℕ) → Type 0
AreSame n ps rs = (length ps ≡ length rs) × Same n ps rs

any_same :
    (n : ℕ) (ps : List Prefix) (rs : List (ℕ × ℕ))
    → AreSame n ps rs
    → any (λ p. prefix_contains p (v4 n)) ps ≡ any (is_within n) rs
any_same n [] [] h = refl
any_same n [] (r ∷ rs) h = absurd (omega (arith, h.0))
any_same n (p ∷ ps) [] h = absurd (omega (arith, h.0))
any_same n (p ∷ ps) (r ∷ rs) h = ground (arith, h.1.0, any_same n ps rs (omega (arith, h.0), h.1.1))

-- The denied prefixes of IPv4 are the ranges behind the first one.
denied_4_ranges :
    (n : ℕ)
    → (is_within n (quad 224 0 0 0, quad 239 255 255 255) || prefixes_contain denied_4 (v4 n))
      ≡ any (is_within n) special_ranges
unfolding prefixes_contain prefix_contains
denied_4_ranges n =
    ap (λ b. is_within n (quad 224 0 0 0, quad 239 255 255 255) || b)
      (any_same n denied_4 (tail special_ranges) (refl, blocks))
  where
    blocks : Same n denied_4 (tail special_ranges)
    blocks = (
      ground arith,
      (
        ground arith,
        (
          ground arith,
          (
            ground arith,
            (
              ground arith,
              (
                ground arith,
                (
                  ground arith,
                  (
                    ground arith,
                    (
                      ground arith,
                      (
                        ground arith,
                        (
                          ground arith,
                          (
                            ground arith,
                            (
                              ground arith,
                              (ground arith, (ground arith, (ground arith, (ground arith, tt)))),
                            ),
                          ),
                        ),
                      ),
                    ),
                  ),
                ),
              ),
            ),
          ),
        ),
      ),
    )

denied_6-v4 :
    (n : ℕ) (ps : List Prefix)
    → All (λ (p : Prefix). p.is_4 ≡ false) ps
    → prefixes_contain ps (v4 n) ≡ false
unfolding prefixes_contain prefix_contains
denied_6-v4 n [] h = refl
denied_6-v4 n (p ∷ ps) h = ground (arith, h.0, denied_6-v4 n ps h.1)

-- The class checks fail outside these ranges.
classes_range :
    (n : ℕ)
    → is_within n (quad 224 0 0 0, quad 239 255 255 255) ≡ false
    → is_within n (quad 0 0 0 0, quad 0 255 255 255) ≡ false
    → is_within n (quad 10 0 0 0, quad 10 255 255 255) ≡ false
    → is_within n (quad 127 0 0 0, quad 127 255 255 255) ≡ false
    → is_within n (quad 169 254 0 0, quad 169 254 255 255) ≡ false
    → is_within n (quad 172 16 0 0, quad 172 31 255 255) ≡ false
    → is_within n (quad 192 168 0 0, quad 192 168 255 255) ≡ false
    → is_within n (quad 240 0 0 0, quad 255 255 255 255) ≡ false
    → is_special (v4 n) ≡ false
unfolding is_special is_global_unicast is_private is_loopback is_link_local_unicast
    is_link_local_multicast is_multicast is_unspecified
classes_range n multicast this ten loop link twelve sixteen last =
    let f0 : (n == 0) ≡ false = ground (arith, this) in
    let f1 : (n == 4294967295) ≡ false = ground (arith, last) in
    let f2 : (n / 16777216 == 127) ≡ false = ground (arith, loop) in
    let f3 : (n / 268435456 == 14) ≡ false = ground (arith, multicast) in
    let f4 : (n / 65536 == 43518) ≡ false = ground (arith, link) in
    let f5 : (n / 16777216 == 10) ≡ false = ground (arith, ten) in
    let f6 : (n / 1048576 == 2753) ≡ false = ground (arith, twelve) in
    let f7 : (n / 65536 == 49320) ≡ false = ground (arith, sixteen) in
    let f8 : (n / 256 == 14680064) ≡ false = ground (arith, multicast) in
    rw (f0, f1, f2, f3, f4, f5, f6, f7, f8) refl

-- A value that is in no range is in none of these.
is_special-range : (n : ℕ) → any (is_within n) special_ranges ≡ false → is_special (v4 n) ≡ false
is_special-range n h =
    let out : (r : ℕ × ℕ) → Memᴰ r special_ranges → is_within n r ≡ false =
      λ r m. any-false (is_within n) special_ranges h m in
    classes_range n (out (quad 224 0 0 0, quad 239 255 255 255) (Memᴰ.head refl))
      (out (quad 0 0 0 0, quad 0 255 255 255) (Memᴰ.tail (Memᴰ.head refl)))
      (out (quad 10 0 0 0, quad 10 255 255 255) (Memᴰ.tail (Memᴰ.tail (Memᴰ.head refl))))
      (out (quad 127 0 0 0, quad 127 255 255 255)
        (Memᴰ.tail (Memᴰ.tail (Memᴰ.tail (Memᴰ.tail (Memᴰ.head refl))))))
      (out (quad 169 254 0 0, quad 169 254 255 255)
        (Memᴰ.tail (Memᴰ.tail (Memᴰ.tail (Memᴰ.tail (Memᴰ.tail (Memᴰ.head refl)))))))
      (out (quad 172 16 0 0, quad 172 31 255 255)
        (Memᴰ.tail (Memᴰ.tail (Memᴰ.tail (Memᴰ.tail (Memᴰ.tail (Memᴰ.tail (Memᴰ.head refl))))))))
      (out (quad 192 168 0 0, quad 192 168 255 255)
        (Memᴰ.tail (
          Memᴰ.tail (
            Memᴰ.tail (
              Memᴰ.tail (
                Memᴰ.tail (
                  Memᴰ.tail (
                    Memᴰ.tail (
                      Memᴰ.tail
                        (Memᴰ.tail (Memᴰ.tail (Memᴰ.tail (Memᴰ.tail (Memᴰ.head refl))))))))))))))
      (out (quad 240 0 0 0, quad 255 255 255 255)
        (Memᴰ.tail (
          Memᴰ.tail (
            Memᴰ.tail (
              Memᴰ.tail (
                Memᴰ.tail (
                  Memᴰ.tail (
                    Memᴰ.tail (
                      Memᴰ.tail (
                        Memᴰ.tail (
                          Memᴰ.tail (
                            Memᴰ.tail (
                              Memᴰ.tail (
                                Memᴰ.tail (
                                  Memᴰ.tail (
                                    Memᴰ.tail
                                      (Memᴰ.tail (Memᴰ.tail (Memᴰ.head refl)))))))))))))))))))

second_last : (x m u : Bool) → m ≡ true → (x || m || u) ≡ true
second_last x m u h = ground arith

is_special-multicast :
    (n : ℕ) → is_within n (quad 224 0 0 0, quad 239 255 255 255) ≡ true → is_special (v4 n) ≡ true
unfolding is_special is_global_unicast is_private is_loopback is_link_local_unicast
    is_link_local_multicast is_multicast is_unspecified
is_special-multicast n h =
    let f : (n / 268435456 == 14) ≡ true = ground (arith, h) in
    second_last
      (not (is_global_unicast (v4 n))
        || is_private (v4 n)
        || is_loopback (v4 n)
        || is_link_local_unicast (v4 n)
        || is_link_local_multicast (v4 n))
      (n / 268435456 == 14) (n == 0) f

neither : (s a b : Bool) → (if s then false else (not a && not b)) ≡ not (s || (a || b))
neither s a b = ground arith

-- The multicast range, the others, and the class checks between them.
same_tests :
    (s d m x : Bool)
    → (m || d) ≡ x
    → (x ≡ false → s ≡ false)
    → (m ≡ true → s ≡ true)
    → not (s || (d || false)) ≡ not x
same_tests s d m x e f g = ground (arith, e, f, g)

public_v4 :
    (n : ℕ)
    → is_public (v4 n)
      ≡ not (
          is_special (v4 n)
          || (prefixes_contain denied_4 (v4 n) || prefixes_contain denied_6 (v4 n)))
unfolding is_public
public_v4 n =
    neither (is_special (v4 n)) (prefixes_contain denied_4 (v4 n))
      (prefixes_contain denied_6 (v4 n))

no_denied_6 : (n : ℕ) → prefixes_contain denied_6 (v4 n) ≡ false
no_denied_6 n = denied_6-v4 n denied_6 (
  refl,
  (
    refl,
    (refl, (refl, (refl, (refl, (refl, (refl, (refl, (refl, (refl, (refl, (refl, tt))))))))))),
  ),
)

-- An IPv4 address is public exactly when it is in none of the special-purpose ranges.
pub public_dns_address-range :
    (n : ℕ) → public_dns_address (v4 n) ≡ not (any (is_within n) special_ranges)
unfolding public_dns_address unmap
public_dns_address-range n =
    public_v4 n
    ∙ ap (λ b. not (is_special (v4 n) || (prefixes_contain denied_4 (v4 n) || b))) (no_denied_6 n)
    ∙ same_tests (is_special (v4 n)) (prefixes_contain denied_4 (v4 n))
        (is_within n (quad 224 0 0 0, quad 239 255 255 255)) (any (is_within n) special_ranges)
        (denied_4_ranges n) (is_special-range n) (is_special-multicast n)

-- An IPv6 address that maps an IPv4 one is judged by that one, so a special-purpose address is not let
-- through in the form of IPv6.
pub public_dns_address-mapped :
    (n : ℕ)
    → n < 2 ^ 32
    → public_dns_address (v6 (mapped_prefix * 2 ^ 32 + n) [])
      ≡ not (any (is_within n) special_ranges)
unfolding public_dns_address unmap
public_dns_address-mapped n h =
    let high : ((mapped_prefix * 2 ^ 32 + n) / 2 ^ 32 == mapped_prefix) ≡ true =
      ground (arith, h) in
    let low : (mapped_prefix * 2 ^ 32 + n) % 2 ^ 32 ≡ n = omega (arith, h) in
    ap is_public (
      if_elim (λ a. a ≡ v4 n) ((mapped_prefix * 2 ^ 32 + n) / 2 ^ 32 == mapped_prefix)
        (λ _. ap v4 low) (λ e. absurd (ground (arith, high, e))))
    ∙ public_dns_address-range n
