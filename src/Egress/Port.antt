-- ===== src/Egress/Port.antt =====
-- `normalizePort` of internal/egress/egress.go, with `strconv.Atoi` and `strconv.Itoa` on decimal digits.
use aegis_llm.Prelude.{
  ℕ, zero, suc, ◌+◌, ◌-◌, ◌*◌, ◌/◌, ◌%◌, ◌≤◌, ◌<◌, ◌≡◌, refl, Bool, false, ◌||◌, ltb, leb, ◌&&◌,
  Option, none, some, [], ◌∷◌, arith, Bytes, if◌then◌else◌, is_empty,
}

abbrev pub is_digit : ℕ → Bool
is_digit c = leb b'0' c && leb c b'9'

-- The number that digits add to a value; a number that `Atoi` cannot hold is beyond every port.
unfoldable pub scan_digits : Bytes → ℕ → Option ℕ
scan_digits [] n = some n
scan_digits (c ∷ s) n =
    let rest = scan_digits s (n * 10 + (c - b'0')) in if is_digit c then rest else none

-- The digits of a number, in at most so many rounds, before the ones that are there.
unfoldable pub print_digits : ℕ → ℕ → Bytes → Bytes
print_digits zero n out = out
print_digits (suc fuel) n out =
    let rest = print_digits fuel (n / 10) ((b'0' + n % 10) ∷ out) in
    if ltb n 10 then (b'0' + n % 10) ∷ out else rest

-- A port has five digits at most.
abbrev pub itoa : ℕ → Bytes
itoa n = print_digits 5 n []

-- What comes of a port that is a number.
abbrev pub in_range : Option ℕ → Option Bytes
in_range none = none
in_range (some n) = if ltb n 1 || ltb 65535 n then none else some (itoa n)

-- `normalizePort`; an error is `none`.
unfoldable pub normalize_port : Bytes → Option Bytes
unfolding scan_digits print_digits
normalize_port raw = if is_empty raw then none else in_range (scan_digits raw 0)

abbrev tens : ℕ → ℕ
tens zero = 1
tens (suc f) = 10 * tens f

scan-digit :
    (n : ℕ) (out : Bytes) → scan_digits ((b'0' + n % 10) ∷ out) (n / 10) ≡ scan_digits out n
unfolding scan_digits
scan-digit n out = ground arith

scan-low :
    (n : ℕ) (out : Bytes) → n < 10 → scan_digits ((b'0' + n % 10) ∷ out) 0 ≡ scan_digits out n
unfolding scan_digits
scan-low n out h = ground arith

-- The digits of a number are read back as the number, and what follows them is read after it.
scan-print :
    (fuel n : ℕ) (out : Bytes)
    → n < tens fuel
    → 0 < fuel
    → scan_digits (print_digits fuel n out) 0 ≡ scan_digits out n
unfolding print_digits
scan-print zero n out h p = absurd (omega arith)
scan-print (suc zero) n out h p = ground (arith, scan-low n out)
scan-print (suc (suc f)) n out h p =
    ground
      (arith, scan-low n out, scan-digit n out, scan-print (suc f) (n / 10) ((b'0' + n % 10) ∷ out))

print_digits-ne-nil :
    (fuel n : ℕ) (c : ℕ) (out : Bytes) → is_empty (print_digits fuel n (c ∷ out)) ≡ false
unfolding print_digits
print_digits-ne-nil zero n c out = refl
print_digits-ne-nil (suc f) n c out =
    ground (arith, print_digits-ne-nil f (n / 10) (b'0' + n % 10) (c ∷ out))

pub scan-itoa : (n : ℕ) → n ≤ 65535 → scan_digits (itoa n) 0 ≡ some n
unfolding scan_digits
scan-itoa n h = scan-print 5 n [] (omega arith) (omega arith)

itoa-ne-nil : (n : ℕ) → is_empty (itoa n) ≡ false
unfolding print_digits
itoa-ne-nil n = ground (arith, print_digits-ne-nil 4 (n / 10) (b'0' + n % 10) [])

-- Every port number from 1 to 65535 is read from its decimal digits, and comes out as they are.
pub normalize_port-itoa : (n : ℕ) → 0 < n → n ≤ 65535 → normalize_port (itoa n) ≡ some (itoa n)
unfolding normalize_port
normalize_port-itoa n p h = rw (itoa-ne-nil n, scan-itoa n h) (ground arith)

-- A normalised port: the digits of a number from 1 to 65535.
abbrev pub IsPort : Bytes → Type 0
IsPort p = (n : ℕ) × (0 < n) × (n ≤ 65535) × (p ≡ itoa n)

in_range-IsPort : (o : Option ℕ) {p : Bytes} → in_range o ≡ some p → IsPort p
in_range-IsPort none e = absurd cc
in_range-IsPort (some n) e = (n, ground (arith, e), ground (arith, e), ground (arith, e))

-- What `normalizePort` answers is a normalised port, and it answers the same for that again.
pub normalize_port-IsPort :
    (raw : Bytes) {p : Bytes} → normalize_port raw ≡ some p → IsPort p × (normalize_port p ≡ some p)
unfolding normalize_port
normalize_port-IsPort raw e =
    let (n, low, high, q) = in_range-IsPort (scan_digits raw 0) (ground (arith, e)) in
    ((n, low, high, q), rw q (normalize_port-itoa n low high))
