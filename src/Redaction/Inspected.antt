-- ===== src/Redaction/Inspected.antt =====
-- The inspection of a content part in internal/middleware/redaction.go ends: its bounds stop it
-- before its loops run out of fuel.
use aegis_llm.Prelude.{
  ℕ, suc, zero, ◌+◌, ◌≤◌, ◌≡◌, refl, Bool, true, false, ◌||◌, not, Result, ok, err, ltb, ◌==◌,
  length, Bytes, arith, if_elim, if◌then◌else◌, str_eq, ◌>>=◌, [],
}
use aegis_llm.Redaction.Rules.{
  RedactionError, json_limit, invalid_json, pii_blocked, slice_panic, out_of_fuel,
  max_semantic_json_string_bytes, max_semantic_json_depth, max_semantic_json_values,
  max_semantic_json_object_members,
}
use aegis_llm.Redaction.Number.{is_content_part_field_alias}
use aegis_llm.Redaction.Processor.{
  Json, JsonToken, delim, string_token, number_token, bool_token, null_token, TokenResult, token,
  end_of_input, malformed,
}
use aegis_llm.Redaction.Inspect.{
  Inspection, Inspected, value_fuel, member_fuel, depth_fuel, read_token, inspect_token, closed_by,
  inspect_closing, part_key, inspect_key, Child, inspect_child, inspect_members, inspect_elements,
  inspect_rest, inspect_bounded_semantic_value, PartFields, type_key, text_key, see_key, see_value,
  no_fields, is_text_part, at_end, inspect_part, inspect_other, inspect_first,
  inspect_semantic_text_content_part,
}

-- The errors that the code has: not a panic, nor the end of the fuel.
abbrev pub is_reported : RedactionError → Bool
is_reported invalid_json = true
is_reported json_limit = true
is_reported pii_blocked = true
is_reported slice_panic = false
is_reported out_of_fuel = false

-- A result that is missing for an error of the code only, and what holds of it.
abbrev pub Sound : {A : Type 0} → (A → Type 0) → Result RedactionError A → Type 0
Sound P (ok a) = P a
Sound P (err e) = is_reported e ≡ true

pub Sound-bind :
    {A B : Type 0} (P : A → Type 0) (Q : B → Type 0) (r : Result RedactionError A)
    (k : A → Result RedactionError B)
    → Sound P r
    → ((a : A) → P a → Sound Q (k a))
    → Sound Q (r >>= k)
Sound-bind P Q (ok a) k h f = f a h
Sound-bind P Q (err e) k h f = h

module _ {D : Type 0} (json : Json D) where
  -- At least so many values are counted, and no more than the limit.
  abbrev pub Counted : ℕ → Inspection D → Type 0
  Counted n s = (n ≤ s.values) × (s.values ≤ max_semantic_json_values)

  inspect_token-Sound :
      (n : ℕ) (s : Inspection D)
      → Counted n s
      → Sound (λ (t : JsonToken × Inspection D). Counted n t.1) (inspect_token json s)
  unfolding inspect_token
  inspect_token-Sound n s c = by_result (json.next s.decoder)
    where
      by_result :
          (r : D × TokenResult)
          → Sound (λ (t : JsonToken × Inspection D). Counted n t.1) (read_token json s r)
      by_result (d, token t) = c
      by_result (d, end_of_input) = refl
      by_result (d, malformed) = refl

  closed_by-Sound :
      (n closing : ℕ) (t : JsonToken × Inspection D)
      → Counted n t.1
      → Sound (Counted n) (closed_by json closing t)
  closed_by-Sound n closing (delim b, s) c =
      if_elim (Sound (Counted n)) (b == closing) (λ _. c) (λ _. refl)
  closed_by-Sound n closing (string_token x, s) c = refl
  closed_by-Sound n closing (number_token x, s) c = refl
  closed_by-Sound n closing (bool_token x, s) c = refl
  closed_by-Sound n closing (null_token, s) c = refl

  inspect_closing-Sound :
      (n closing : ℕ) (s : Inspection D)
      → Counted n s
      → Sound (Counted n) (inspect_closing json closing s)
  unfolding inspect_token
  inspect_closing-Sound n closing s c =
      Sound-bind (λ (t : JsonToken × Inspection D). Counted n t.1) (Counted n)
        (inspect_token json s) (closed_by json closing) (inspect_token-Sound n s c)
        (closed_by-Sound n closing)

  part_key-Sound :
      (n : ℕ) (t : JsonToken × Inspection D)
      → Counted n t.1
      → Sound (λ (k : Bytes × Inspection D). Counted n k.1) (part_key json t)
  part_key-Sound n (string_token key, s) c =
      if_elim (Sound (λ (k : Bytes × Inspection D). Counted n k.1))
        (ltb max_semantic_json_string_bytes (length key)) (λ _. refl) (λ _. c)
  part_key-Sound n (delim b, s) c = refl
  part_key-Sound n (number_token x, s) c = refl
  part_key-Sound n (bool_token x, s) c = refl
  part_key-Sound n (null_token, s) c = refl

  inspect_key-Sound :
      (n : ℕ) (s : Inspection D)
      → Counted n s
      → Sound (λ (k : Bytes × Inspection D). Counted n k.1) (inspect_key json s)
  unfolding inspect_token
  inspect_key-Sound n s c =
      Sound-bind (λ (t : JsonToken × Inspection D). Counted n t.1)
        (λ (k : Bytes × Inspection D). Counted n k.1) (inspect_token json s) (part_key json)
        (inspect_token-Sound n s c) (part_key-Sound n)

  -- A child counts its value.
  abbrev CountsOne : Child json → Type 0
  CountsOne child =
      (n : ℕ) (t : JsonToken) (s : Inspection D) → Counted n s → Sound (Counted (suc n)) (child t s)

  Counted-pred : (n : ℕ) (s : Inspection D) → Counted (suc n) s → Counted n s
  Counted-pred n s c = (omega (arith, c.0), c.1)

  inspect_members-Sound :
      (child : Child json)
      → CountsOne child
      → (n fuel members : ℕ) (s : Inspection D) → member_fuel ≤ fuel + members
      → members ≤ max_semantic_json_object_members
      → Counted n s
      → Sound (Counted n) (inspect_members json child fuel members s)
  unfolding inspect_members inspect_token
  inspect_members-Sound child law n zero members s enough few c =
      absurd (omega (arith, enough, few))
  inspect_members-Sound child law n (suc fuel) members s enough few c =
      if_elim (Sound (Counted n)) (not (json.more s.decoder))
        (λ _. inspect_closing-Sound n b'}' s c)
        (λ _.
          if_elim (Sound (Counted n)) (ltb max_semantic_json_object_members (suc members))
            (λ _. refl)
            (λ e.
              Sound-bind (λ (k : Bytes × Inspection D). Counted n k.1) (Counted n)
                (inspect_key json s) _ (inspect_key-Sound n s c)
                (λ (key, after) k.
                  Sound-bind (Counted (suc n)) (Counted n)
                    (inspect_token json after >>= inspect_child json child)
                    (inspect_members json child fuel (suc members))
                    (Sound-bind (λ (t : JsonToken × Inspection D). Counted n t.1) (Counted (suc n))
                      (inspect_token json after) (inspect_child json child)
                      (inspect_token-Sound n after k) (λ (t, u) q. law n t u q))
                    (λ u q.
                      inspect_members-Sound child law n fuel (suc members) u (omega (arith, enough))
                        (ground (arith, e)) (Counted-pred n u q)))))

  inspect_elements-Sound :
      (child : Child json)
      → CountsOne child
      → (n fuel : ℕ) (s : Inspection D) → value_fuel ≤ fuel + n
      → Counted n s
      → Sound (Counted n) (inspect_elements json child fuel s)
  unfolding inspect_elements inspect_token
  inspect_elements-Sound child law n zero s enough c = absurd (omega (arith, enough, c.0, c.1))
  inspect_elements-Sound child law n (suc fuel) s enough c =
      if_elim (Sound (Counted n)) (not (json.more s.decoder))
        (λ _. inspect_closing-Sound n b']' s c)
        (λ _.
          Sound-bind (Counted (suc n)) (Counted n)
            (inspect_token json s >>= inspect_child json child) (inspect_elements json child fuel)
            (Sound-bind (λ (t : JsonToken × Inspection D). Counted n t.1) (Counted (suc n))
              (inspect_token json s) (inspect_child json child) (inspect_token-Sound n s c)
              (λ (t, u) q. law n t u q))
            (λ u q.
              weaken (inspect_elements json child fuel u)
                (inspect_elements-Sound child law (suc n) fuel u (omega (arith, enough)) q)))
    where
      weaken : (r : Inspected D) → Sound (Counted (suc n)) r → Sound (Counted n) r
      weaken (ok s) h = Counted-pred n s h
      weaken (err e) h = h

  inspect_rest-Sound :
      (child : Child json)
      → CountsOne child
      → (n : ℕ) (t : JsonToken) (s : Inspection D) → Counted n s
      → Sound (Counted n) (inspect_rest json child t s)
  unfolding inspect_members inspect_elements
  inspect_rest-Sound child law n (delim b) s c =
      if_elim (Sound (Counted n)) (b == b'{')
        (λ _. inspect_members-Sound child law n member_fuel 0 s (omega arith) (omega arith) c)
        (λ _.
          if_elim (Sound (Counted n)) (b == b'[')
            (λ _. inspect_elements-Sound child law n value_fuel s (omega arith) c) (λ _. refl))
  inspect_rest-Sound child law n (string_token x) s c =
      if_elim (Sound (Counted n)) (ltb max_semantic_json_string_bytes (length x)) (λ _. refl)
        (λ _. c)
  inspect_rest-Sound child law n (number_token x) s c =
      if_elim (Sound (Counted n)) (ltb max_semantic_json_string_bytes (length x)) (λ _. refl)
        (λ _. c)
  inspect_rest-Sound child law n (bool_token x) s c = c
  inspect_rest-Sound child law n null_token s c = c

  inspect_value-Sound :
      (n fuel depth : ℕ) (t : JsonToken) (s : Inspection D)
      → depth_fuel ≤ fuel + depth
      → depth ≤ suc max_semantic_json_depth
      → Counted n s
      → Sound (Counted (suc n)) (inspect_bounded_semantic_value json fuel depth t s)
  unfolding inspect_bounded_semantic_value
  inspect_value-Sound n zero depth t s enough low c = absurd (omega (arith, enough, low))
  inspect_value-Sound n (suc fuel) depth t s enough low c =
      if_elim (Sound (Counted (suc n)))
        (ltb max_semantic_json_depth depth || ltb max_semantic_json_values (suc s.values))
        (λ _. refl)
        (λ e.
          inspect_rest-Sound (inspect_bounded_semantic_value json fuel (suc depth))
            (λ m u r d.
              inspect_value-Sound m fuel (suc depth) u r (omega (arith, enough)) (ground (arith, e))
                d)
            (suc n) t (record s { values = suc s.values }) (omega (arith, c.0), ground (arith, e)))

  at_end-Sound :
      {A : Type 0} (r : D × TokenResult) (a : A) → Sound (λ (x : A). Unit) (at_end json r a)
  at_end-Sound (d, end_of_input) a = tt
  at_end-Sound (d, token t) a = refl
  at_end-Sound (d, malformed) a = refl

  see_key-Sound : (key : Bytes) (f : PartFields) → Sound (λ (x : PartFields). Unit) (see_key key f)
  see_key-Sound key f =
      if_elim (Sound (λ (x : PartFields). Unit)) (str_eq key type_key)
        (λ _.
          if_elim (Sound (λ (x : PartFields). Unit)) f.seen_type {x = err invalid_json}
            {y = ok (record f { seen_type = true })} (λ _. refl) (λ _. tt))
        (λ _.
          if_elim (Sound (λ (x : PartFields). Unit)) (str_eq key text_key)
            (λ _.
              if_elim (Sound (λ (x : PartFields). Unit)) f.seen_text {x = err invalid_json}
                {y = ok (record f { seen_text = true })} (λ _. refl) (λ _. tt))
            (λ _. tt))

  abbrev Answered : Result RedactionError (Bool × Bytes) → Type 0
  Answered = Sound (λ (x : Bool × Bytes). Unit)

  inspect_part-Sound :
      (n fuel members : ℕ) (f : PartFields) (s : Inspection D)
      → member_fuel ≤ fuel + members
      → members ≤ max_semantic_json_object_members
      → Counted n s
      → Answered (inspect_part json fuel members f s)
  unfolding inspect_part inspect_token
  inspect_part-Sound n zero members f s enough few c = absurd (omega (arith, enough, few))
  inspect_part-Sound n (suc fuel) members f s enough few c =
      if_elim Answered (not (json.more s.decoder))
        (λ _.
          Sound-bind (Counted n) (λ (x : Bool × Bytes). Unit) (inspect_closing json b'}' s) _
            (inspect_closing-Sound n b'}' s c)
            (λ after k. at_end-Sound (json.next after.decoder) (is_text_part f, f.text)))
        (λ _.
          if_elim Answered (ltb max_semantic_json_object_members (suc members)) (λ _. refl)
            (λ e.
              Sound-bind (λ (k : Bytes × Inspection D). Counted n k.1) (λ (x : Bool × Bytes). Unit)
                (inspect_key json s) _ (inspect_key-Sound n s c)
                (λ (key, after) k. member key after k (ground (arith, e)) (λ g u q.
                  inspect_part-Sound n fuel (suc members) g u (omega (arith, enough))
                    (ground (arith, e)) (Counted-pred n u q)))))
    where
      member :
          (key : Bytes) (after : Inspection D)
          → Counted n after
          → suc members ≤ max_semantic_json_object_members
          → ((g : PartFields) (u : Inspection D)
              → Counted (suc n) u
              → Answered (inspect_part json fuel (suc members) g u))
          → Answered (
              if is_content_part_field_alias key
              then err invalid_json
              else (see_key key f >>= (λ seen. inspect_token json after >>= (λ (t, valued).
                  inspect_bounded_semantic_value json depth_fuel 1 t valued
                  >>= inspect_part json fuel (suc members) (see_value key t seen)))))
      member key after k e rest =
          if_elim Answered (is_content_part_field_alias key) (λ _. refl)
            (λ _.
              Sound-bind (λ (x : PartFields). Unit) (λ (x : Bool × Bytes). Unit) (see_key key f) _
                (see_key-Sound key f)
                (λ seen _.
                  Sound-bind (λ (t : JsonToken × Inspection D). Counted n t.1)
                    (λ (x : Bool × Bytes). Unit) (inspect_token json after) _
                    (inspect_token-Sound n after k)
                    (λ (t, valued) q.
                      Sound-bind (Counted (suc n)) (λ (x : Bool × Bytes). Unit)
                        (inspect_bounded_semantic_value json depth_fuel 1 t valued) _
                        (inspect_value-Sound n depth_fuel 1 t valued (omega arith) (omega arith) q)
                        (λ u r. rest (see_value key t seen) u r))))

  inspect_other-Sound :
      (t : JsonToken) (s : Inspection D) → Counted 0 s → Answered (inspect_other json t s)
  unfolding inspect_bounded_semantic_value
  inspect_other-Sound t s c =
      Sound-bind (Counted 1) (λ (x : Bool × Bytes). Unit)
        (inspect_bounded_semantic_value json depth_fuel 0 t s) _
        (inspect_value-Sound 0 depth_fuel 0 t s (omega arith) (omega arith) c)
        (λ after k. at_end-Sound (json.next after.decoder) (false, []))

  inspect_first-Sound :
      (t : JsonToken × Inspection D) → Counted 0 t.1 → Answered (inspect_first json t)
  unfolding inspect_part inspect_bounded_semantic_value
  inspect_first-Sound (delim b, s) c =
      if_elim Answered (b == b'{')
        (λ _.
          inspect_part-Sound 1 member_fuel 0 (no_fields json) (record s { values = 1 })
            (omega arith) (omega arith) (omega arith, omega arith))
        (λ _. inspect_other-Sound (delim b) s c)
  inspect_first-Sound (string_token x, s) c = inspect_other-Sound (string_token x) s c
  inspect_first-Sound (number_token x, s) c = inspect_other-Sound (number_token x) s c
  inspect_first-Sound (bool_token x, s) c = inspect_other-Sound (bool_token x) s c
  inspect_first-Sound (null_token, s) c = inspect_other-Sound null_token s c

  -- The inspection of a part ends with an answer or an error of the code.
  pub inspect-Sound : (raw : Bytes) → Answered (inspect_semantic_text_content_part json raw)
  unfolding inspect_semantic_text_content_part inspect_token inspect_part
      inspect_bounded_semantic_value
  inspect-Sound raw =
      Sound-bind (λ (t : JsonToken × Inspection D). Counted 0 t.1) (λ (x : Bool × Bytes). Unit)
        (inspect_token json (record { decoder = json.start raw; values = 0 })) (inspect_first json)
        (inspect_token-Sound 0 (record { decoder = json.start raw; values = 0 })
          (omega arith, omega arith))
        inspect_first-Sound
