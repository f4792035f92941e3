-- ===== src/Redaction/Masked.antt =====
-- What redactTextPart of internal/middleware/redaction.go leaves of a text.
use mathlib.Core.Path.{subst}
use aegis_llm.Prelude.{length-drop}
use aegis_llm.Prelude.{
  ℕ, suc, zero, ◌+◌, ◌-◌, ◌≤◌, ◌<◌, ◌≡◌, refl, sym, ap, ◌∙◌, Bool, true, false, [], ◌∷◌, ◌++◌, ok,
  length, arith, Bytes, drop,
}
use aegis_llm.Prelude.{take}
use aegis_llm.Redaction.Text.{slice}

drop-nil : (n : ℕ) → drop n [] ≡ []
drop-nil zero = refl
drop-nil (suc n) = refl

pub drop-drop : (n m : ℕ) (s : Bytes) → drop n (drop m s) ≡ drop (m + n) s
drop-drop n zero s = ap (λ k. drop k s) {x = n} (omega arith)
drop-drop n (suc m) [] = drop-nil n ∙ sym (drop-nil (suc m + n))
drop-drop n (suc m) (a ∷ s) =
    drop-drop n m s ∙ ap (λ k. drop k (a ∷ s)) {x = suc (m + n)} (omega arith)

pub take_whole : (n : ℕ) (s : Bytes) → length s ≤ n → take n s ≡ s
unfolding take
take_whole zero [] h = refl
take_whole zero (a ∷ s) h = absurd (omega (arith, h))
take_whole (suc n) [] h = refl
take_whole (suc n) (a ∷ s) h = ap (λ t. a ∷ t) (take_whole n s (omega (arith, h)))

pub slice_fits :
    (s : Bytes) (from to : ℕ)
    → from ≤ to
    → to ≤ length s
    → slice s from to ≡ ok (take (to - from) (drop from s))
slice_fits s from to h k = ground (arith, h, k)

-- How a text that stands at a position may be shown: a byte that is not sensitive stays, and a run of
-- sensitive bytes is replaced by a placeholder.
pub data Masked (secret : ℕ → Bool) (Placeholder : Bytes → Type 0)
    : ℕ → Bytes → Bytes → Type 0 where
  over : (at : ℕ) → Masked secret Placeholder at [] []
  stay :
      (at byte : ℕ) (text out : Bytes)
      → secret at ≡ false
      → Masked secret Placeholder (suc at) text out
      → Masked secret Placeholder at (byte ∷ text) (byte ∷ out)
  hide :
      (at n : ℕ) (text replacement out : Bytes)
      → n < length text
      → ((i : ℕ) → at ≤ i → i ≤ at + n → secret i ≡ true)
      → Placeholder replacement
      → Masked secret Placeholder (at + suc n) (drop (suc n) text) out
      → Masked secret Placeholder at text (replacement ++ out)

module _ {Placeholder : Bytes → Type 0} where
  -- Only the positions of the text matter.
  pub Masked-same :
      {secret other : ℕ → Bool} {at : ℕ} {text out : Bytes}
      → ((i : ℕ) → at ≤ i → i < at + length text → secret i ≡ other i)
      → Masked secret Placeholder at text out
      → Masked other Placeholder at text out
  Masked-same h (over at) = over at
  Masked-same h (stay at byte text out e m) =
      stay at byte text out (sym (h at (omega arith) (omega arith)) ∙ e)
        (Masked-same (λ i p q. h i (omega arith) (omega arith)) m)
  Masked-same h (hide at n text replacement out fits e p m) =
      hide at n text replacement out fits (λ i p q. sym (h i p (omega arith)) ∙ e i p q) p
        (Masked-same (λ i p q. h i (omega arith) (omega (arith, q, fits, length-drop (suc n) text)))
          m)

  -- Bytes that are not sensitive stay.
  pub Masked-kept :
      {secret : ℕ → Bool} (n at : ℕ) (text out : Bytes)
      → n ≤ length text
      → ((i : ℕ) → at ≤ i → i < at + n → secret i ≡ false)
      → Masked secret Placeholder (at + n) (drop n text) out
      → Masked secret Placeholder at text (take n text ++ out)
  unfolding take
  Masked-kept {secret} zero at text out h e m =
      subst (λ k. Masked secret Placeholder k text out) (omega arith) m
  Masked-kept (suc n) at [] out h e m = absurd (omega (arith, h))
  Masked-kept {secret} (suc n) at (byte ∷ text) out h e m =
      stay at byte text (take n text ++ out) (e at (omega arith) (omega arith)) (
        Masked-kept n (suc at) text out (omega (arith, h))
          (λ i p q. e i (omega arith) (omega arith))
          (subst (λ k. Masked secret Placeholder k (drop n text) out) (omega arith) m))

  pub Masked-plain :
      {secret : ℕ → Bool} (at : ℕ) (text : Bytes)
      → ((i : ℕ) → secret i ≡ false)
      → Masked secret Placeholder at text text
  Masked-plain at [] e = over at
  Masked-plain at (byte ∷ text) e = stay at byte text text (e at) (Masked-plain (suc at) text e)
