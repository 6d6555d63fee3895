-- ===== src/Args/Ports.antt =====
-- Which texts are ports and worker counts.
use eventedge.Base.{
  ℕ, ◌+◌, ◌-◌, ◌*◌, ◌^◌, ◌<◌, ◌≤◌, ◌≡◌, refl, sym, ap, ◌∙◌, ◌⊎◌, inl, inr, Bool, true, [], ◌∷◌,
  Text, ok, throw, runtime_error, ◌||◌, not, arith, Bool-cases, ltb, ◌==◌, if◌then◌else◌,
}
use eventedge.Decimal.{
  FromChars, from_chars, to_string, success, result_out_of_range, scan, is_digit, starts_with_digit,
}
use eventedge.Decimal.RoundTrip.{IsDigits, to_string-IsDigits, to_string-starts, scan-to_string}
use eventedge.Args.Parse.{parse_port, parse_worker_count, failed, is_empty}

-- The number that digits stand for.
unfoldable pub decimal : ℕ → Text → ℕ
decimal acc [] = acc
decimal acc (c ∷ s) = decimal (acc * 10 + (c - b'0')) s

scan-decimal : (acc : ℕ) (s : Text) → IsDigits s → scan acc s ≡ (decimal acc s, [])
unfolding scan decimal
scan-decimal acc [] h = refl
scan-decimal acc (c ∷ s) h = rw h.0 (scan-decimal (acc * 10 + (c - b'0')) s h.1)

-- A text that is read to its end is digits, and their number.
-- A text that is read to its end is digits.
scan_whole : (acc : ℕ) (s : Text) → is_empty (scan acc s).1 ≡ true → IsDigits s
unfolding scan
scan_whole acc [] h = tt
scan_whole acc (c ∷ s) h = elim (Bool-cases (is_digit c)) [
  | inl d ↦ (d, scan_whole (acc * 10 + (c - b'0')) s (ground arith))
  | inr nd ↦ absurd (ground arith)
]

-- A number in decimal digits, at least one.
pub record IsNumeral (s : Text) (n : ℕ) : Type 0 where
  pub starts : starts_with_digit s ≡ true
  pub digits : IsDigits s
  pub value : decimal 0 s ≡ n

-- The call did not read a number, or not to the end of the text.
abbrev is_refused : FromChars → Bool
is_refused r = failed r.ec || not (is_empty r.ptr)

-- What `from_chars` makes of a numeral, and of any other text.
from_chars-numeral :
    (s : Text) (n : ℕ)
    → IsNumeral s n
    → from_chars s 0 ≡ (
        if ltb n (2 ^ 32)
        then record { ptr = []; ec = success; value = n }
        else record { ptr = []; ec = result_out_of_range; value = 0 })
unfolding from_chars
from_chars-numeral s n h = rw (h.starts, scan-decimal 0 s h.digits, h.value) (ground arith)

IsNumeral-cases :
    (s : Text)
    → ((n : ℕ) × IsNumeral s n)
      ⊎ ((is_refused (from_chars s 0) ≡ true) × ((n : ℕ) → ¬ IsNumeral s n))
unfolding from_chars
IsNumeral-cases s = elim (Bool-cases (starts_with_digit s)) [
  | inr other ↦ inr (ground arith, λ n h. let d = h.starts in cc)
  | inl first ↦ elim (Bool-cases (is_empty (scan 0 s).1)) [
    | inl whole ↦
        inl (decimal 0 s, record { starts = first; digits = scan_whole 0 s whole; value = refl })
    | inr left ↦ inr (ground arith, λ n h. let e = scan-decimal 0 s h.digits in ground arith)
  ]
]

-- A port: a decimal numeral, leading zeros allowed, of a number from 1 to 65535.
abbrev pub IsPort : Text → ℕ → Type 0
IsPort s p = IsNumeral s p × (0 < p) × (p ≤ 65535)

-- A text is read as a port exactly when it is one, and then as its number; any other text throws.
pub parse_port_lem :
    (s : Text)
    → ((p : ℕ) × IsPort s p × (parse_port s ≡ ok p))
      ⊎ (((p : ℕ) → ¬ IsPort s p) × (parse_port s ≡ throw runtime_error))
unfolding parse_port
parse_port_lem s = elim (IsNumeral-cases s) [
  | inr (refused, none_left) ↦ inr (λ p h. none_left p h.0, ground arith)
  | inl (n, numeral) ↦
      let read = from_chars-numeral s n numeral in
      elim (Bool-cases (n == 0 || ltb 65535 n)) [
        | inl out ↦ inr (
          λ p h. let same : p ≡ n = sym h.0.value ∙ numeral.value in ground arith,
          rw read (ground arith),
        )
        | inr fits ↦ inl (n, (numeral, ground arith, ground arith), rw read (ground arith))
      ]
]

-- A worker count: a decimal numeral of a positive number that an `unsigned int` holds.
abbrev pub IsWorkerCount : Text → ℕ → Type 0
IsWorkerCount s n = IsNumeral s n × (0 < n) × (n < 2 ^ 32)

-- A text is read as a worker count exactly when it is one; any other text throws.
pub parse_worker_count_lem :
    (s : Text)
    → ((n : ℕ) × IsWorkerCount s n × (parse_worker_count s ≡ ok n))
      ⊎ (((n : ℕ) → ¬ IsWorkerCount s n) × (parse_worker_count s ≡ throw runtime_error))
unfolding parse_worker_count
parse_worker_count_lem s = elim (IsNumeral-cases s) [
  | inr (refused, none_left) ↦ inr (λ p h. none_left p h.0, ground arith)
  | inl (n, numeral) ↦
      let read = from_chars-numeral s n numeral in
      elim (Bool-cases (n == 0 || not (ltb n (2 ^ 32)))) [
        | inl out ↦ inr (
          λ p h. let same : p ≡ n = sym h.0.value ∙ numeral.value in ground arith,
          rw read (ground arith),
        )
        | inr fits ↦ inl (n, (numeral, ground arith, ground arith), rw read (ground arith))
      ]
]

pub parse_port-IsPort : (s : Text) (p : ℕ) → IsPort s p → parse_port s ≡ ok p
parse_port-IsPort s p h = elim (parse_port_lem s) [
  | inl (q, h', read) ↦ let same : q ≡ p = sym h'.0.value ∙ h.0.value in read ∙ ap ok same
  | inr (bad, thrown) ↦ absurd (bad p h)
]

-- A port that is printed is a port.
pub to_string-IsPort : (p : ℕ) → 0 < p → p ≤ 65535 → IsPort (to_string p) p
to_string-IsPort p h l =
    let digits = to_string-IsDigits p in
    let both = sym (scan-decimal 0 (to_string p) digits) ∙ scan-to_string p in
    (
      record {
        starts = to_string-starts p;
        digits = digits;
        value = ap (λ (x : ℕ × Text). x.0) both;
      },
      h,
      l,
    )
