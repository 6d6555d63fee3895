-- ===== src/Decimal.antt =====
-- The decimal numbers of the standard library that the code calls: `std::to_string` of an unsigned
-- number and `std::from_chars` into an `unsigned int` of 32 bits.
pub mod RoundTrip
use mathlib.Core.Logic.{dite}
use mathlib.Core.WellFounded.{Acc, WellFounded}
use eventedge.Base.{
  ℕ, zero, suc, ◌+◌, ◌-◌, ◌*◌, ◌/◌, ◌%◌, ◌^◌, ◌<◌, ◌≡◌, refl, Bool, true, false, ◌&&◌, List, [],
  ◌∷◌, Text, codes, leb, ltb, ◌==◌, if◌then◌else◌, dec_lt, arith,
}

Acc-below : (k n : ℕ) → n < k → Acc ◌<◌ n
Acc-below zero n h = elim h [ ]
Acc-below (suc k) n h = Acc.intro n (λ m hm. Acc-below k m (omega arith))

unfoldable pub lt_wf : WellFounded ◌<◌
unfolding Acc-below
lt_wf = record { apply = λ n. Acc-below (suc n) n (omega arith) }

-- The digits of a number in front of a text; none for 0.
unfoldable pub emit : (n : ℕ) → Acc ◌<◌ n → Text → Text
emit n (Acc.intro _ smaller) out =
    dite (dec_lt 0 n) (λ h. emit (n / 10) (smaller (n / 10) (omega arith)) ((b'0' + n % 10) ∷ out))
      (λ _. out)

unfoldable pub to_string : ℕ → Text
to_string n = if n == 0 then b'0' ∷ [] else emit n (lt_wf.apply n) []

abbrev pub is_digit : ℕ → Bool
is_digit c = leb b'0' c && leb c b'9'

-- The number that a text begins with, after the digits read so far, and what stands behind it.
unfoldable pub scan : ℕ → Text → ℕ × Text
scan acc [] = (acc, [])
scan acc (c ∷ s) = if is_digit c then scan (acc * 10 + (c - b'0')) s else (acc, c ∷ s)

pub data Errc : Type 0 where
  success invalid_argument result_out_of_range : Errc

-- `ptr`, as the text that it points at, `ec`, and the variable after the call.
pub record FromChars : Type 0 where
  pub ptr : Text
  pub ec : Errc
  pub value : ℕ

abbrev pub starts_with_digit : Text → Bool
starts_with_digit [] = false
starts_with_digit (c ∷ s) = is_digit c

-- A number that does not fit, and a text with no digit, leave the variable as it was.
unfoldable pub from_chars : Text → ℕ → FromChars
unfolding scan
from_chars s before =
    if starts_with_digit s
    then (let (n, rest) = scan 0 s in
        if ltb n (2 ^ 32)
        then record { ptr = rest; ec = success; value = n }
        else record { ptr = rest; ec = result_out_of_range; value = before })
    else record { ptr = s; ec = invalid_argument; value = before }

to_string_example : to_string 9001 ≡ codes "9001"
unfolding to_string emit lt_wf dec_lt
to_string_example = refl
