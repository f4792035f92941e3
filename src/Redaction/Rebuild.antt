-- ===== src/Redaction/Rebuild.antt =====
-- The second loop of redactTextPart in internal/middleware/redaction.go: it writes the text masked.
use mathlib.Core.Path.{subst}
use aegis_llm.Prelude.{length-drop}
use aegis_llm.Prelude.{
  ℕ, suc, ◌+◌, ◌-◌, ◌≤◌, ◌<◌, ◌≡◌, refl, sym, ap, ◌∙◌, Bool, true, false, ◌||◌, List, [], ◌∷◌, ◌++◌,
  Result, ok, length, any, All, if◌then◌else◌, arith, Bytes, drop, ◌>>=◌,
}
use aegis_llm.Redaction.Rules.{RedactionSpan, RedactionError}
use aegis_llm.Prelude.{take}
use aegis_llm.Redaction.Spans.{max}
use aegis_llm.Redaction.Cover.{reaches, IsApart}
use aegis_llm.Redaction.Text.{slice, clip_start, clip_end, is_outside, rebuild}
use aegis_llm.Redaction.Masked.{
  Masked, Masked-same, Masked-kept, Masked-plain, hide, drop-drop, take_whole, slice_fits,
}

apart_reaches :
    (low i : ℕ) (rest : List RedactionSpan)
    → IsApart low rest
    → i < low
    → any (reaches i) rest ≡ false
unfolding IsApart
apart_reaches low i [] a h = refl
apart_reaches low i (span ∷ rest) a h =
    let none = apart_reaches span.end i rest a.1.1 (omega (arith, a.0, a.1.0, h)) in
    ground (arith, none, a.0, h)

-- The spans that remain once the text is copied up to the cursor.
abbrev pub IsReady : ℕ → ℕ → List RedactionSpan → Type 0
IsReady from cursor [] = Unit
IsReady from cursor (span ∷ rest) =
    (cursor ≤ max from span.start) × (span.start ≤ span.end) × IsApart span.end rest

pub apart-IsReady :
    (from cursor low : ℕ) (rest : List RedactionSpan)
    → cursor ≤ max from low
    → IsApart low rest
    → IsReady from cursor rest
unfolding IsApart
apart-IsReady from cursor low [] h a = tt
apart-IsReady from cursor low (span ∷ rest) h a = (ground (arith, h, a.0), a.1.0, a.1.1)

-- A run that succeeds, and shows the text masked.
abbrev pub Shows : (ℕ → Bool) → (Bytes → Type 0) → ℕ → Bytes → Result RedactionError Bytes → Type 0
Shows secret Placeholder at text r =
    (out : Bytes) × (r ≡ ok out) × Masked secret Placeholder at text out

module _ (Placeholder : Bytes → Type 0) (text : Bytes) (from : ℕ) where
  abbrev pub to : ℕ
  to = from + length text

  pub outside_reaches :
      (span : RedactionSpan) (i : ℕ)
      → is_outside from to span ≡ true
      → from ≤ i
      → i < to
      → reaches i span ≡ false
  outside_reaches span i e h k = ground (arith, e, h, k)

  run_inside :
      (cursor cs : ℕ) (replacement tail : Bytes) (r : Result RedactionError Bytes)
      → from ≤ cursor
      → cursor ≤ cs
      → cs ≤ to
      → r ≡ ok tail
      → (slice text (cursor - from) (cs - from)
          >>= (λ kept. r >>= (λ tail. ok (kept ++ (replacement ++ tail)))))
        ≡ ok (take (cs - cursor) (drop (cursor - from) text) ++ (replacement ++ tail))
  run_inside cursor cs replacement tail r h k l e =
      ap
        (λ (s : Result RedactionError Bytes).
          s >>= (λ kept. r >>= (λ tail. ok (kept ++ (replacement ++ tail)))))
        (slice_fits text (cursor - from) (cs - from) (omega (arith, h, k)) (omega (arith, l, h, k)))
      ∙ ap
          (λ (s : Result RedactionError Bytes). s >>= (λ tail. ok (
            take (cs - from - (cursor - from)) (drop (cursor - from) text)
            ++ (replacement ++ tail))))
          e
      ∙ ap (λ n. ok (take n (drop (cursor - from) text) ++ (replacement ++ tail)))
          {x = cs - from - (cursor - from)} (omega (arith, h, k))

  Masked-inside :
      (secret : ℕ → Bool) (cursor cs ce : ℕ) (replacement tail : Bytes)
      → from ≤ cursor
      → cursor ≤ cs
      → cs < ce
      → ce ≤ to
      → ((i : ℕ) → cursor ≤ i → i < cs → secret i ≡ false)
      → ((i : ℕ) → cs ≤ i → i < ce → secret i ≡ true)
      → Placeholder replacement
      → Masked secret Placeholder ce (drop (ce - from) text) tail
      → Masked secret Placeholder cursor
          (drop (cursor - from) text)
          (take (cs - cursor) (drop (cursor - from) text) ++ (replacement ++ tail))
  Masked-inside secret cursor cs ce replacement tail h k l m shown hidden p rest =
      let before = drop (cursor - from) text in
      let long = length-drop (cursor - from) text in
      let long' = length-drop (cs - cursor) before in
      let cut : drop (ce - from) text ≡ drop (suc (ce - cs - 1)) (drop (cs - cursor) before) = sym (
        drop-drop (suc (ce - cs - 1)) (cs - cursor) before
        ∙ drop-drop (cs - cursor + suc (ce - cs - 1)) (cursor - from) text
        ∙ ap (λ n. drop n text) {x = cursor - from + (cs - cursor + suc (ce - cs - 1))}
            (omega (arith, h, k, l))) in
      Masked-kept (cs - cursor) cursor before (replacement ++ tail)
        (omega (arith, h, k, l, m, long)) (λ i p q. shown i p (omega (arith, k, q)))
        (hide (cursor + (cs - cursor)) (ce - cs - 1) (drop (cs - cursor) before) replacement tail
          (omega (arith, h, k, l, m, long, long'))
          (λ i p q. hidden i (omega (arith, k, p)) (omega (arith, k, l, q))) p
          (subst
            (λ n.
              Masked secret Placeholder n (drop (suc (ce - cs - 1)) (drop (cs - cursor) before))
                tail)
            {x = ce} (omega (arith, k, l))
            (subst (λ s. Masked secret Placeholder ce s tail) cut rest)))

  -- A span inside the text: what stands before it is kept, and it gives way to its placeholder.
  inside-Shows :
      (span : RedactionSpan) (rest : List RedactionSpan) (cursor : ℕ)
      → from ≤ cursor
      → Placeholder span.replacement
      → IsReady from cursor (span ∷ rest)
      → clip_start from span < clip_end to span
      → (r : Result RedactionError Bytes)
      → Shows
          (λ i. any (reaches i) rest)
          Placeholder
          (clip_end to span)
          (drop (clip_end to span - from) text)
          r
      → Shows
          (λ i. any (reaches i) (span ∷ rest))
          Placeholder
          cursor
          (drop (cursor - from) text)
          (slice text (cursor - from) (clip_start from span - from)
            >>= (λ kept. r >>= (λ tail. ok (kept ++ (span.replacement ++ tail)))))
  inside-Shows span rest cursor h p ready e r (tail, eq, masked) =
      let (low, proper, apart) = ready in
      let bound : clip_end to span ≤ to = ground arith in
      (
        take (clip_start from span - cursor) (drop (cursor - from) text)
            ++ (span.replacement ++ tail),
        run_inside cursor (clip_start from span) span.replacement tail r h low (omega arith) eq,
        Masked-inside (λ i. any (reaches i) (span ∷ rest)) cursor (clip_start from span)
            (clip_end to span) span.replacement tail h low e bound
            (λ i p q. kept i p q (apart_reaches span.end i rest apart (before i p q)))
            (λ i p q. covered i p q (any (reaches i) rest)) p
            (Masked-same
              (λ i p q.
                past i p (omega (arith, bound, q, length-drop (clip_end to span - from) text))
                  (any (reaches i) rest))
              masked),
      )
    where
      before : (i : ℕ) → cursor ≤ i → i < clip_start from span → i < span.end
      before i p q = ground (arith, p, q, h, ready.1)

      kept :
          (i : ℕ)
          → cursor ≤ i
          → i < clip_start from span
          → any (reaches i) rest ≡ false
          → any (reaches i) (span ∷ rest) ≡ false
      kept i p q none = ground (arith, p, q, h, none)

      covered :
          (i : ℕ)
          → clip_start from span ≤ i
          → i < clip_end to span
          → (b : Bool) → (reaches i span || b) ≡ true
      covered i p q b = ground (arith, p, q)

      past : (i : ℕ) → clip_end to span ≤ i → i < to → (b : Bool) → b ≡ (reaches i span || b)
      past i p q b = ground (arith, p, q)

  pub rebuild-Shows :
      (spans : List RedactionSpan) (cursor : ℕ)
      → from ≤ cursor
      → cursor ≤ to
      → All (λ (a : RedactionSpan). Placeholder a.replacement) spans
      → IsReady from cursor spans
      → Shows
          (λ i. any (reaches i) spans)
          Placeholder
          cursor
          (drop (cursor - from) text)
          (rebuild text from to spans cursor)
  unfolding rebuild
  rebuild-Shows [] cursor h k ps ready =
      let rest = drop (cursor - from) text in
      (
        rest,
        slice_fits text (cursor - from) (length text) (omega (arith, k)) (omega arith)
            ∙ ap ok (
                take_whole (length text - (cursor - from)) rest
                  (omega (arith, length-drop (cursor - from) text))),
        Masked-plain cursor rest (λ i. refl),
      )
  rebuild-Shows (span ∷ rest) cursor h k ps ready =
      step (is_outside from to span) refl (λ e. rebuild-Shows rest cursor h k ps.1 (skip e))
        (λ e.
          rebuild-Shows rest (clip_end to span) (ground (arith, e)) (ground arith) ps.1
            (apart-IsReady from (clip_end to span) span.end rest (ground arith) ready.2))
    where
      skip : is_outside from to span ≡ true → IsReady from cursor rest
      skip e = apart-IsReady from cursor span.end rest (ground (arith, ready.0, ready.1)) ready.2

      step :
          (b : Bool)
          → is_outside from to span ≡ b
          → (b ≡ true
              → Shows
                  (λ i. any (reaches i) rest)
                  Placeholder
                  cursor
                  (drop (cursor - from) text)
                  (rebuild text from to rest cursor))
          → (b ≡ false
              → Shows
                  (λ i. any (reaches i) rest)
                  Placeholder
                  (clip_end to span)
                  (drop (clip_end to span - from) text)
                  (rebuild text from to rest (clip_end to span)))
          → Shows
              (λ i. any (reaches i) (span ∷ rest))
              Placeholder
              cursor
              (drop (cursor - from) text)
              (let later = rebuild text from to rest (if b then cursor else clip_end to span) in
                if b
                then later
                else (slice text (cursor - from) (clip_start from span - from)
                    >>= (λ kept. later >>= (λ tail. ok (kept ++ (span.replacement ++ tail))))))
      step true e same other =
          let (out, eq, masked) = same refl in
          (
            out,
            eq,
            Masked-same
                (λ i p q.
                  ap (λ b. b || any (reaches i) rest)
                    (sym (
                      outside_reaches span i e (omega arith)
                        (omega (arith, q, length-drop (cursor - from) text)))))
                masked,
          )
      step false e same other =
          inside-Shows span rest cursor h ps.0 ready (ground (arith, e))
            (rebuild text from to rest (clip_end to span)) (other refl)
