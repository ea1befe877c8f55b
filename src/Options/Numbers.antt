-- ===== src/Options/Numbers.antt =====
-- Which values of a number option the validator accepts.
use ocgeo_fdw.Prelude.{
  ℕ, ◌+◌, ◌-◌, ◌*◌, ◌≤◌, ◌≡◌, refl, ◌⊎◌, inl, inr, true, false, some, List, [], ◌∷◌, String, All,
  arith,
}
use ocgeo_fdw.Prelude.Ctext.{
  codes, strtol, scan_digits, digit_in, choose_base, take_sign, starts_digit, skip_spaces,
}
use ocgeo_fdw.Options.{is_bad_number}

abbrev pub IsDigit : ℕ → Type 0
IsDigit c = (b'0' ≤ c) × (c ≤ b'9')

digit_in_of_IsDigit : (c : ℕ) → IsDigit c → digit_in 10 c ≡ some (c - b'0')
digit_in_of_IsDigit c h = ground arith

scan_whole : (acc : ℕ) (s : List ℕ) → All IsDigit s → (scan_digits 10 acc s).1 ≡ []
unfolding scan_digits
scan_whole acc [] h = refl
scan_whole acc (c ∷ s) h =
    rw (digit_in_of_IsDigit c h.0, scan_digits) (scan_whole (acc * 10 + (c - b'0')) s h.1)

choose_decimal : (d : ℕ) (s : List ℕ) → b'1' ≤ d → d ≤ b'9' → choose_base 0 (d ∷ s) ≡ (10, d ∷ s)
choose_decimal d [] h h' = ground arith
choose_decimal d (x ∷ []) h h' = ground arith
choose_decimal d (x ∷ y ∷ s) h h' = ground arith

sign_plain :
    (d : ℕ) (s : List ℕ) → b'1' ≤ d → d ≤ b'9' → take_sign (skip_spaces (d ∷ s)) ≡ (false, d ∷ s)
unfolding skip_spaces
sign_plain d s h h' = ground arith

starts_decimal : (d : ℕ) (s : List ℕ) → b'1' ≤ d → d ≤ b'9' → starts_digit 10 (d ∷ s) ≡ true
starts_decimal d s h h' = ground arith

-- A decimal number with no leading zero is accepted, and so is a negative one.
pub decimal_accepted :
    (val : String) (d : ℕ) (s : List ℕ)
    → b'1' ≤ d
    → d ≤ b'9'
    → All IsDigit s
    → (codes val ≡ d ∷ s) ⊎ (codes val ≡ b'-' ∷ d ∷ s)
    → is_bad_number val ≡ false
unfolding is_bad_number strtol
decimal_accepted val d s h h' hs (inl e) =
    rw
      (
        e,
        sign_plain d s h h',
        choose_decimal d s h h',
        starts_decimal d s h h',
        scan_whole 0 (d ∷ s) (omega arith, hs),
      )
      (ground arith)
decimal_accepted val d s h h' hs (inr e) =
    rw (e, choose_decimal d s h h', starts_decimal d s h h', scan_whole 0 (d ∷ s) (omega arith, hs))
      (ground arith)
