-- ===== src/Redaction/Sample.antt =====
-- A rule and a decoder for the tests of the redaction: the rule hides each digit `7`, and the decoder reads
-- the tokens of one document.
use aegis_llm.Prelude.{
  ℕ, suc, ◌+◌, ◌≤◌, ◌≡◌, ◌≢◌, refl, Bool, true, false, not, ◌&&◌, ◌==◌, none, some, List, [], ◌∷◌,
  ◌++◌, Memᴰ, Bytes, codes, length, arith, if_elim, if◌then◌else◌,
}
use aegis_llm.Redaction.Rules.{Pattern, IsPattern, RedactionRule, RedactionMode}
use aegis_llm.Redaction.Processor.{
  Json, JsonToken, delim, string_token, number_token, TokenResult, token, end_of_input,
}
use aegis_llm.Redaction.Json.{PiiScanner}

unfoldable pub sevens : ℕ → Bytes → List (ℕ × ℕ)
sevens at [] = []
sevens at (c ∷ s) = let rest = sevens (suc at) s in if c == b'7' then (at, suc at) ∷ rest else rest

abbrev is_none : List (ℕ × ℕ) → Bool
is_none [] = true
is_none (m ∷ ms) = false

abbrev pub seven : Pattern
seven = record {
  match_string = λ value. not (is_none (sevens 0 value));
  find_all = λ value. sevens 0 value;
}

sevens-inside :
    (m : ℕ × ℕ) (at : ℕ) (s : Bytes) → Memᴰ m (sevens at s) → (m.0 ≤ m.1) × (m.1 ≤ at + length s)
unfolding sevens
sevens-inside m at [] = λ k. elim k [ ]
sevens-inside m at (c ∷ s) =
    if_elim (λ ms. Memᴰ m ms → (m.0 ≤ m.1) × (m.1 ≤ at + length (c ∷ s))) (c == b'7')
      (λ _ k. first k (sevens-inside m (suc at) s))
      (λ _ k. let (low, high) = sevens-inside m (suc at) s k in (low, omega (arith, high)))
  where
    first :
        Memᴰ m ((at, suc at) ∷ sevens (suc at) s)
        → (Memᴰ m (sevens (suc at) s) → (m.0 ≤ m.1) × (m.1 ≤ suc at + length s))
        → (m.0 ≤ m.1) × (m.1 ≤ at + length (c ∷ s))
    first (Memᴰ.head e) later = rw e (omega arith, omega arith)
    first (Memᴰ.tail k) later = let (low, high) = later k in (low, omega (arith, high))

none_found : (ms : List (ℕ × ℕ)) → not (is_none ms) ≡ true → ms ≢ []
none_found ms h e = absurd (ground (arith, h, e))

none_missed : (ms : List (ℕ × ℕ)) → not (is_none ms) ≡ false → ms ≡ []
none_missed [] h = refl
none_missed (m ∷ ms) h = absurd (ground (arith, h))

pub seven-IsPattern : IsPattern seven
unfolding sevens
seven-IsPattern = record {
  inside = λ value m k. let (low, high) = sevens-inside m 0 value k in (low, omega (arith, high));
  found = λ value. none_found (sevens 0 value);
  missed = λ value. none_missed (sevens 0 value);
}

abbrev pub seven_rule : RedactionRule
seven_rule = record {
  name = codes "seven";
  pattern = seven;
  replacement = codes "[X]";
  enabled = true;
}

abbrev pub scanner : RedactionMode → PiiScanner
scanner mode = record { mode = mode; rules = seven_rule ∷ [] }

abbrev is_open : List JsonToken → Bool
is_open [] = false
is_open (delim c ∷ ts) = not (c == b']') && not (c == b'}')
is_open (string_token t ∷ ts) = true
is_open (number_token t ∷ ts) = true
is_open (JsonToken.bool_token b ∷ ts) = true
is_open (JsonToken.null_token ∷ ts) = true

abbrev next_token : List JsonToken → List JsonToken × TokenResult
next_token [] = ([], end_of_input)
next_token (t ∷ ts) = (ts, token t)

-- A document with a member `note`.
abbrev pub note : List JsonToken → Json (List JsonToken)
note value = record {
  start = λ body. delim b'{' ∷ string_token (codes "note") ∷ (value ++ (delim b'}' ∷ []));
  next = next_token;
  more = is_open;
  raw = λ ts. (ts, none);
  marshal = λ text. some (codes "'" ++ (text ++ codes "'"));
}
