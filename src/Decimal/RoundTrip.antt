-- ===== src/Decimal/RoundTrip.antt =====
-- Printing a number and reading it back.
use mathlib.Core.Logic.{dif_pos, dif_neg}
use mathlib.Core.WellFounded.{Acc}
use native.Mathlib.Bridge.{le_prop}
use eventedge.Base.{
  ℕ, ◌+◌, ◌*◌, ◌/◌, ◌%◌, ◌^◌, ◌<◌, ◌≡◌, ◌∙◌, refl, ap, true, [], ◌∷◌, Text, ◌==◌, dec_lt, arith,
  Bool-cases, inl, inr, All,
}
use eventedge.Decimal.{
  lt_wf, emit, to_string, scan, is_digit, from_chars, success, starts_with_digit,
}

module _ (n : ℕ) (smaller : (m : ℕ) → m < n → Acc ◌<◌ m) (out : Text) where
  emit_pos :
      (h : 0 < n)
      → emit n (Acc.intro n smaller) out
        ≡ emit (n / 10) (smaller (n / 10) (omega arith)) ((b'0' + n % 10) ∷ out)
  unfolding emit
  emit_pos h = dif_pos (dec_lt 0 n) le_prop h _ _

  emit_zero : ¬ (0 < n) → emit n (Acc.intro n smaller) out ≡ out
  unfolding emit
  emit_zero h = dif_neg (dec_lt 0 n) h _ _

is_digit_lem : (n : ℕ) → is_digit (b'0' + n % 10) ≡ true
is_digit_lem n = ground arith

scan_digit : (acc n : ℕ) (s : Text) → scan acc ((b'0' + n % 10) ∷ s) ≡ scan (acc * 10 + n % 10) s
unfolding scan
scan_digit acc n s = rw (is_digit_lem n) (ap (λ t. scan (acc * 10 + t) s) (omega arith))

-- The digits of a number are read as that number.
pub scan-emit : (n : ℕ) (w : Acc ◌<◌ n) (out : Text) → scan 0 (emit n w out) ≡ scan n out
scan-emit n (Acc.intro _ smaller) out = elim (dec_lt 0 n) [
  | yes h ↦ rw (emit_pos n smaller out h) (
      scan-emit (n / 10) (smaller (n / 10) (omega arith)) ((b'0' + n % 10) ∷ out)
      ∙ scan_digit (n / 10) n out
      ∙ ap (λ t. scan t out) (omega arith))
  | no h ↦ rw (emit_zero n smaller out h) (ap (λ t. scan t out) (omega arith))
]

-- Every byte is a digit.
abbrev pub IsDigits : Text → Type 0
IsDigits = All (λ c. is_digit c ≡ true)

emit-IsDigits : (n : ℕ) (w : Acc ◌<◌ n) (out : Text) → IsDigits out → IsDigits (emit n w out)
emit-IsDigits n (Acc.intro _ smaller) out d = elim (dec_lt 0 n) [
  | yes h ↦ rw (emit_pos n smaller out h) (
      emit-IsDigits (n / 10) (smaller (n / 10) (omega arith)) ((b'0' + n % 10) ∷ out)
        (is_digit_lem n, d))
  | no h ↦ rw (emit_zero n smaller out h) d
]

pub to_string-IsDigits : (n : ℕ) → IsDigits (to_string n)
unfolding to_string
to_string-IsDigits n = elim (Bool-cases (n == 0)) [
  | inl z ↦ rw z (refl, tt)
  | inr p ↦ rw p (emit-IsDigits n (lt_wf.apply n) [] tt)
]

emit-starts :
    (n : ℕ) (w : Acc ◌<◌ n) (out : Text)
    → starts_with_digit out ≡ true
    → starts_with_digit (emit n w out) ≡ true
emit-starts n (Acc.intro _ smaller) out d = elim (dec_lt 0 n) [
  | yes h ↦ rw (emit_pos n smaller out h) (
      emit-starts (n / 10) (smaller (n / 10) (omega arith)) ((b'0' + n % 10) ∷ out)
        (is_digit_lem n))
  | no h ↦ rw (emit_zero n smaller out h) d
]

pub to_string-starts : (n : ℕ) → starts_with_digit (to_string n) ≡ true
unfolding to_string
to_string-starts n = elim (Bool-cases (n == 0)) [
  | inl z ↦ rw z refl
  | inr p ↦ rw p (starts n (lt_wf.apply n) (ground arith))
]
  where
    starts : (n : ℕ) (w : Acc ◌<◌ n) → 0 < n → starts_with_digit (emit n w []) ≡ true
    starts n (Acc.intro _ smaller) h =
        rw (emit_pos n smaller [] h) (emit-starts (n / 10) _ _ (is_digit_lem n))

pub scan-to_string : (n : ℕ) → scan 0 (to_string n) ≡ (n, [])
unfolding to_string scan
scan-to_string n = elim (Bool-cases (n == 0)) [
  | inl z ↦ rw z (ground arith)
  | inr p ↦ rw p (scan-emit n (lt_wf.apply n) [])
]

-- A number that fits is printed, and read back as it was with nothing left.
pub from_chars-to_string :
    (n before : ℕ)
    → n < 2 ^ 32
    → from_chars (to_string n) before ≡ record { ptr = []; ec = success; value = n }
unfolding from_chars
from_chars-to_string n before h = rw (to_string-starts n, scan-to_string n) (ground arith)
