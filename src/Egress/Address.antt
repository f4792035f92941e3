-- ===== src/Egress/Address.antt =====
-- `PublicDNSAddress` of internal/egress/egress.go, with the classes of addresses of net/netip.
use Prim.Native.Nat.{◌^◌}
use aegis_llm.Prelude.{
  ℕ, ◌+◌, ◌-◌, ◌*◌, ◌/◌, ◌%◌, Bool, true, false, not, ◌&&◌, ◌||◌, ◌==◌, List, [], ◌∷◌, any, Bytes,
  is_empty, if◌then◌else◌,
}

-- `netip.Addr`: 32 or 128 bits, the latter with a zone.
pub data Addr : Type 0 where
  invalid : Addr
  v4 : ℕ → Addr
  v6 : ℕ → Bytes → Addr

-- `netip.Prefix`: its first address, and how many addresses it has.
pub record Prefix : Type 0 where
  pub is_4 : Bool
  pub base : ℕ
  pub size : ℕ

abbrev pub quad : ℕ → ℕ → ℕ → ℕ → ℕ
quad a b c d = ((a * 256 + b) * 256 + c) * 256 + d

abbrev pub prefix_4 : ℕ → ℕ → ℕ → ℕ → ℕ → Prefix
prefix_4 a b c d bits = record { is_4 = true; base = quad a b c d; size = 2 ^ (32 - bits) }

abbrev pub prefix_6 : ℕ → ℕ → ℕ → ℕ → ℕ → ℕ → ℕ → ℕ → ℕ → Prefix
prefix_6 a b c d e f g h bits = record {
  is_4 = false;
  base =
      ((((((a * 65536 + b) * 65536 + c) * 65536 + d) * 65536 + e) * 65536 + f) * 65536 + g) * 65536
      + h;
  size = 2 ^ (128 - bits);
}

-- `Prefix.Contains`
unfoldable pub prefix_contains : Prefix → Addr → Bool
prefix_contains p invalid = false
prefix_contains p (v4 n) = p.is_4 && n / p.size == p.base / p.size
prefix_contains p (v6 n zone) = not p.is_4 && is_empty zone && n / p.size == p.base / p.size

abbrev pub mapped_prefix : ℕ
mapped_prefix = 0xffff

-- `Unmap`
unfoldable pub unmap : Addr → Addr
unmap invalid = invalid
unmap (v4 n) = v4 n
unmap (v6 n zone) = if n / 2 ^ 32 == mapped_prefix then v4 (n % 2 ^ 32) else v6 n zone

abbrev pub has_zone : Addr → Bool
has_zone invalid = false
has_zone (v4 n) = false
has_zone (v6 n zone) = not (is_empty zone)

abbrev pub is_valid : Addr → Bool
is_valid invalid = false
is_valid (v4 n) = true
is_valid (v6 n zone) = true

-- The classes of netip, on addresses that `Unmap` has answered.
unfoldable pub is_loopback : Addr → Bool
is_loopback invalid = false
is_loopback (v4 n) = n / 2 ^ 24 == 127
is_loopback (v6 n zone) = n == 1

unfoldable pub is_multicast : Addr → Bool
is_multicast invalid = false
is_multicast (v4 n) = n / 2 ^ 28 == 14
is_multicast (v6 n zone) = n / 2 ^ 120 == 0xff

unfoldable pub is_link_local_unicast : Addr → Bool
is_link_local_unicast invalid = false
is_link_local_unicast (v4 n) = n / 2 ^ 16 == 169 * 256 + 254
is_link_local_unicast (v6 n zone) = n / 2 ^ 118 == 0x3fa

-- For IPv6, the last four of the first 16 bits are 2 and the first eight are 0xff.
unfoldable pub is_link_local_multicast : Addr → Bool
is_link_local_multicast invalid = false
is_link_local_multicast (v4 n) = n / 2 ^ 8 == (224 * 256 + 0) * 256 + 0
is_link_local_multicast (v6 n zone) = n / 2 ^ 120 == 0xff && n / 2 ^ 112 % 16 == 2

unfoldable pub is_unspecified : Addr → Bool
is_unspecified invalid = false
is_unspecified (v4 n) = n == 0
is_unspecified (v6 n zone) = n == 0 && is_empty zone

unfoldable pub is_private : Addr → Bool
is_private invalid = false
is_private (v4 n) = n / 2 ^ 24 == 10 || n / 2 ^ 20 == 172 * 16 + 1 || n / 2 ^ 16 == 192 * 256 + 168
is_private (v6 n zone) = n / 2 ^ 121 == 0x7e

unfoldable pub is_global_unicast : Addr → Bool
unfolding is_loopback is_multicast is_link_local_unicast is_unspecified
is_global_unicast invalid = false
is_global_unicast (v4 n) =
    not (n == 0)
    && not (n == 2 ^ 32 - 1)
    && not (is_loopback (v4 n))
    && not (is_multicast (v4 n))
    && not (is_link_local_unicast (v4 n))
is_global_unicast (v6 n zone) =
    not (is_unspecified (v6 n zone))
    && not (is_loopback (v6 n zone))
    && not (is_multicast (v6 n zone))
    && not (is_link_local_unicast (v6 n zone))

abbrev pub is_6 : Addr → Bool
is_6 invalid = false
is_6 (v4 n) = false
is_6 (v6 n zone) = true

-- `ianaAllocatedGlobalIPv6Prefixes`
abbrev pub iana_allocated : List Prefix
iana_allocated =
    prefix_6 0x2001 0x200 0 0 0 0 0 0 23
    ∷ prefix_6 0x2001 0x400 0 0 0 0 0 0 23
    ∷ prefix_6 0x2001 0x600 0 0 0 0 0 0 23
    ∷ prefix_6 0x2001 0x800 0 0 0 0 0 0 22
    ∷ prefix_6 0x2001 0xc00 0 0 0 0 0 0 23
    ∷ prefix_6 0x2001 0xe00 0 0 0 0 0 0 23
    ∷ prefix_6 0x2001 0x1200 0 0 0 0 0 0 23
    ∷ prefix_6 0x2001 0x1400 0 0 0 0 0 0 22
    ∷ prefix_6 0x2001 0x1800 0 0 0 0 0 0 23
    ∷ prefix_6 0x2001 0x1a00 0 0 0 0 0 0 23
    ∷ prefix_6 0x2001 0x1c00 0 0 0 0 0 0 22
    ∷ prefix_6 0x2001 0x2000 0 0 0 0 0 0 19
    ∷ prefix_6 0x2001 0x4000 0 0 0 0 0 0 23
    ∷ prefix_6 0x2001 0x4200 0 0 0 0 0 0 23
    ∷ prefix_6 0x2001 0x4400 0 0 0 0 0 0 23
    ∷ prefix_6 0x2001 0x4600 0 0 0 0 0 0 23
    ∷ prefix_6 0x2001 0x4800 0 0 0 0 0 0 23
    ∷ prefix_6 0x2001 0x4a00 0 0 0 0 0 0 23
    ∷ prefix_6 0x2001 0x4c00 0 0 0 0 0 0 23
    ∷ prefix_6 0x2001 0x5000 0 0 0 0 0 0 20
    ∷ prefix_6 0x2001 0x8000 0 0 0 0 0 0 19
    ∷ prefix_6 0x2001 0xa000 0 0 0 0 0 0 20
    ∷ prefix_6 0x2001 0xb000 0 0 0 0 0 0 20
    ∷ prefix_6 0x2003 0 0 0 0 0 0 0 18
    ∷ prefix_6 0x2400 0 0 0 0 0 0 0 12
    ∷ prefix_6 0x2410 0 0 0 0 0 0 0 12
    ∷ prefix_6 0x2600 0 0 0 0 0 0 0 12
    ∷ prefix_6 0x2610 0 0 0 0 0 0 0 23
    ∷ prefix_6 0x2620 0 0 0 0 0 0 0 23
    ∷ prefix_6 0x2630 0 0 0 0 0 0 0 12
    ∷ prefix_6 0x2800 0 0 0 0 0 0 0 12
    ∷ prefix_6 0x2a00 0 0 0 0 0 0 0 12
    ∷ prefix_6 0x2a10 0 0 0 0 0 0 0 12
    ∷ prefix_6 0x2c00 0 0 0 0 0 0 0 12
    ∷ []

-- `deniedDNSPrefixes`, of IPv4 and of IPv6.
abbrev pub denied_4 : List Prefix
denied_4 =
    prefix_4 0 0 0 0 8
    ∷ prefix_4 10 0 0 0 8
    ∷ prefix_4 100 64 0 0 10
    ∷ prefix_4 127 0 0 0 8
    ∷ prefix_4 169 254 0 0 16
    ∷ prefix_4 172 16 0 0 12
    ∷ prefix_4 192 0 0 0 24
    ∷ prefix_4 192 0 2 0 24
    ∷ prefix_4 192 31 196 0 24
    ∷ prefix_4 192 52 193 0 24
    ∷ prefix_4 192 88 99 0 24
    ∷ prefix_4 192 168 0 0 16
    ∷ prefix_4 192 175 48 0 24
    ∷ prefix_4 198 18 0 0 15
    ∷ prefix_4 198 51 100 0 24
    ∷ prefix_4 203 0 113 0 24
    ∷ prefix_4 240 0 0 0 4
    ∷ []

abbrev pub denied_6 : List Prefix
denied_6 =
    prefix_6 0 0 0 0 0 0 0 0 96
    ∷ prefix_6 0 0 0 0 0 0xffff 0 0 96
    ∷ prefix_6 0x64 0xff9b 0 0 0 0 0 0 96
    ∷ prefix_6 0x64 0xff9b 0x1 0 0 0 0 0 48
    ∷ prefix_6 0x100 0 0 0 0 0 0 0 64
    ∷ prefix_6 0x100 0 0 0x1 0 0 0 0 64
    ∷ prefix_6 0x2001 0 0 0 0 0 0 0 23
    ∷ prefix_6 0x2001 0xdb8 0 0 0 0 0 0 32
    ∷ prefix_6 0x2002 0 0 0 0 0 0 0 16
    ∷ prefix_6 0x2620 0x4f 0x8000 0 0 0 0 0 48
    ∷ prefix_6 0x3fff 0 0 0 0 0 0 0 20
    ∷ prefix_6 0x5f00 0 0 0 0 0 0 0 16
    ∷ prefix_6 0xfec0 0 0 0 0 0 0 0 10
    ∷ []

-- `prefixesContain`
unfoldable pub prefixes_contain : List Prefix → Addr → Bool
unfolding prefix_contains
prefixes_contain prefixes a = any (λ p. prefix_contains p a) prefixes

-- The class checks of `PublicDNSAddress`
unfoldable pub is_special : Addr → Bool
unfolding is_global_unicast is_private is_loopback is_link_local_unicast is_link_local_multicast
    is_multicast is_unspecified
is_special a =
    not (is_global_unicast a)
    || is_private a
    || is_loopback a
    || is_link_local_unicast a
    || is_link_local_multicast a
    || is_multicast a
    || is_unspecified a

-- `PublicDNSAddress`, behind `Unmap`.
unfoldable pub is_public : Addr → Bool
unfolding is_special prefixes_contain
is_public a =
    if is_special a
    then false
    else (if is_6 a && not (prefixes_contain iana_allocated a)
        then false
        else not (prefixes_contain denied_4 a) && not (prefixes_contain denied_6 a))

-- `PublicDNSAddress`
unfoldable pub public_dns_address : Addr → Bool
unfolding unmap is_public
public_dns_address a = if not (is_valid a) || has_zone a then false else is_public (unmap a)
