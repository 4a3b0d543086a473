-- ===== src/Prelude/Decimal/Reading.antt =====
-- Reading back a number that was printed in front of another text.
use Prim.Native.Nat.{ℕ, zero, suc, ◌+◌, ◌-◌, ◌*◌, ◌/◌, ◌%◌, ◌<◌}
use Prim.Native.Char.{Char, code}
use Prim.Native.String.append
use text.Mathlib.TextLemmas.{append_assoc, append_cancel_left}
use Prim.Native.String.{String, [], ◌∷◌, ◌++◌ as ◌<>◌}
use mathlib.Core.Path.{◌≡◌, refl, ap, sym, ◌∙◌}
use mathlib.Core.Bool.{false, ◌&&◌}
use mathlib.Core.Logic.{inl, inr}
use native.Mathlib.Omega.{arith}
use polymarket_indexer.Prelude.Tests.{ltb, leb, if◌then◌else◌, Bool-cases}
use polymarket_indexer.Prelude.Decimal.{digit, decimal_onto, decimal}

-- The number at the front of a text, read after `n`, and the text that is left.
unfoldable pub scan : String → ℕ → ℕ × String
scan [] n = (n, [])
scan (c ∷ s) n =
    let more = scan s (n * 10 + (code c - 48)) in
    if leb 48 (code c) && leb (code c) 57 then more else (n, c ∷ s)

one_char : (c : Char) (rest : String) → (c ∷ []) <> rest ≡ c ∷ rest
one_char c rest = append.cons c [] rest ∙ ap (λ s. c ∷ s) (append.nil rest)

scan-digit : (d n : ℕ) (rest : String) → d < 10 → scan (digit d <> rest) n ≡ scan rest (n * 10 + d)
unfolding scan
scan-digit zero n rest h = ap (λ s. scan s n) (one_char "0" rest)
scan-digit (suc zero) n rest h = ap (λ s. scan s n) (one_char "1" rest)
scan-digit (suc (suc zero)) n rest h = ap (λ s. scan s n) (one_char "2" rest)
scan-digit (suc (suc (suc zero))) n rest h = ap (λ s. scan s n) (one_char "3" rest)
scan-digit (suc (suc (suc (suc zero)))) n rest h = ap (λ s. scan s n) (one_char "4" rest)
scan-digit (suc (suc (suc (suc (suc zero))))) n rest h = ap (λ s. scan s n) (one_char "5" rest)
scan-digit (suc (suc (suc (suc (suc (suc zero)))))) n rest h =
    ap (λ s. scan s n) (one_char "6" rest)
scan-digit (suc (suc (suc (suc (suc (suc (suc zero))))))) n rest h =
    ap (λ s. scan s n) (one_char "7" rest)
scan-digit (suc (suc (suc (suc (suc (suc (suc (suc zero)))))))) n rest h =
    ap (λ s. scan s n) (one_char "8" rest)
scan-digit (suc (suc (suc (suc (suc (suc (suc (suc (suc zero))))))))) n rest h =
    ap (λ s. scan s n) (one_char "9" rest)
scan-digit (suc (suc (suc (suc (suc (suc (suc (suc (suc (suc d)))))))))) n rest h =
    let absurd : ⊥ = omega (arith, h) in elim absurd [ ]

scan-decimal_onto : (f n : ℕ) (rest : String) → n < f → scan (decimal_onto f n rest) 0 ≡ scan rest n
unfolding decimal_onto
scan-decimal_onto zero n rest h = let absurd : ⊥ = omega (arith, h) in elim absurd [ ]
scan-decimal_onto (suc f) n rest h = elim (Bool-cases (ltb n 10)) [
  | inl small ↦ rw small (scan-digit n 0 rest (ground arith) ∙ ap (scan rest) (omega arith))
  | inr large ↦
      let less : n / 10 < f = ground arith in
      let back : n / 10 * 10 + n % 10 ≡ n = omega arith in
      rw large (
        scan-decimal_onto f (n / 10) (digit (n % 10) <> rest) less
        ∙ scan-digit (n % 10) (n / 10) rest (omega arith)
        ∙ ap (scan rest) back)
]

decimal_onto-append :
    (f n : ℕ) (rest t : String) → decimal_onto f n rest <> t ≡ decimal_onto f n (rest <> t)
unfolding decimal_onto
decimal_onto-append zero n rest t = refl
decimal_onto-append (suc f) n rest t = elim (Bool-cases (ltb n 10)) [
  | inl small ↦ rw small (append_assoc (digit n) rest t)
  | inr large ↦ rw large (
      decimal_onto-append f (n / 10) (digit (n % 10) <> rest) t
      ∙ ap (decimal_onto f (n / 10)) (append_assoc (digit (n % 10)) rest t))
]

pub scan-decimal : (n : ℕ) (t : String) → scan (decimal n <> t) 0 ≡ scan t n
unfolding decimal
scan-decimal n t =
    ap (λ s. scan s 0) (decimal_onto-append (suc n) n "" t)
    ∙ ap (λ s. scan (decimal_onto (suc n) n s) 0) (append.nil t)
    ∙ scan-decimal_onto (suc n) n t (omega arith)

-- A text that starts with no digit ends the number.
pub scan-append :
    (c : Char) (s t : String) (n : ℕ)
    → (leb 48 (code c) && leb (code c) 57) ≡ false
    → scan ((c ∷ s) <> t) n ≡ (n, (c ∷ s) <> t)
unfolding scan
scan-append c s t n h = rw (append.cons c s t, h, scan) refl

-- Two numbers, with a text between them and one after them, are read back.
pub decimal-injective :
    (c d : Char) (between after : String) {a b a' b' : ℕ}
    → (leb 48 (code c) && leb (code c) 57) ≡ false
    → (leb 48 (code d) && leb (code d) 57) ≡ false
    → decimal a <> (c ∷ between) <> decimal b <> (d ∷ after)
      ≡ decimal a' <> (c ∷ between) <> decimal b' <> (d ∷ after)
    → (a ≡ a') × (b ≡ b')
unfolding scan
decimal-injective c d between after {a} {b} {a'} {b'} hc hd h =
    let first : (n k : ℕ)
        → scan (decimal n <> (c ∷ between) <> decimal k <> (d ∷ after)) 0
          ≡ (n, (c ∷ between) <> decimal k <> (d ∷ after)) =
      λ n k. scan-decimal n _ ∙ scan-append c between (decimal k <> (d ∷ after)) n hc in
    let second : (k : ℕ) → scan (decimal k <> (d ∷ after)) 0 ≡ (k, d ∷ after) =
      λ k. scan-decimal k (d ∷ after) ∙ rw (hd, scan) refl in
    let read = sym (first a b) ∙ ap (λ s. scan s 0) h ∙ first a' b' in
    let rest = append_cancel_left (c ∷ between) _ _ (ap (λ r. r.1) read) in
    (ap (λ r. r.0) read, ap (λ r. r.0) (sym (second b) ∙ ap (λ s. scan s 0) rest ∙ second b'))
