-- ===== src/Api/Path/Index.antt =====
-- Which array index str_to_maybe_int makes of a path segment.
use ocgeo_fdw.Prelude.{
  ℕ, ◌+◌, ◌-◌, ◌*◌, ◌^◌, ◌≤◌, ◌<◌, ◌≡◌, ◌≢◌, refl, sym, ap, ◌∙◌, ◌⊎◌, inl, inr, none, some,
  Option-cases, List, [], ◌∷◌, String, All, arith,
}
use ocgeo_fdw.Prelude.Int.{ℤ, pos, negsuc, ◌+ℤ◌, ◌*ℤ◌, int32, int32_of_IsInt32, pos_add, pos_mul}
use ocgeo_fdw.Prelude.Ctext.{codes}
use ocgeo_fdw.Api.Path.{digit_value, index_loop, str_to_maybe_int}

abbrev pub IsDigit : ℕ → Type 0
IsDigit c = (b'0' ≤ c) × (c ≤ b'9')

-- The digits read in base 11, behind a number `k`.
abbrev pub base_11 : ℕ → List ℕ → ℕ
base_11 k [] = k
base_11 k (c ∷ s) = base_11 (k * 11 + (c - b'0')) s

base_11-le : (k : ℕ) (s : List ℕ) → k ≤ base_11 k s
base_11-le k [] = omega arith
base_11-le k (c ∷ s) = omega (arith, base_11-le (k * 11 + (c - b'0')) s)

digit_value_of_IsDigit : (c : ℕ) → IsDigit c → digit_value c ≡ some (c - b'0')
digit_value_of_IsDigit c h = ground arith

next_lem :
    (k d : ℕ)
    → k * 11 + d < 2 ^ 31
    → int32 (int32 (pos k +ℤ pos k *ℤ 10) +ℤ pos d) ≡ pos (k * 11 + d)
next_lem k d h =
    rw (pos_mul, pos_add, int32_of_IsInt32 (pos (k + k * 10)) (omega arith), pos_add)
      (int32_of_IsInt32 (pos (k + k * 10 + d)) (omega arith) ∙ ap pos (omega arith))

index_loop_digits :
    (k : ℕ) (s : List ℕ)
    → All IsDigit s
    → base_11 k s < 2 ^ 31
    → index_loop (pos k) s ≡ pos (base_11 k s)
unfolding index_loop
index_loop_digits k [] h fits = refl
index_loop_digits k (c ∷ s) h fits =
    let small = base_11-le (k * 11 + (c - b'0')) s in
    rw (digit_value_of_IsDigit c h.0, index_loop, next_lem k (c - b'0') (omega arith))
      (index_loop_digits (k * 11 + (c - b'0')) s h.1 fits)

-- A segment of digits stands for the number that they make in base 11, where that fits an `int`.
pub str_to_maybe_int_digits :
    (s : String)
    → All IsDigit (codes s)
    → base_11 0 (codes s) < 2 ^ 31
    → str_to_maybe_int s ≡ pos (base_11 0 (codes s))
unfolding str_to_maybe_int
str_to_maybe_int_digits s h fits = index_loop_digits 0 (codes s) h fits

-- Some byte of the text is no digit.
abbrev pub HasOther : List ℕ → Type 0
HasOther [] = ⊥
HasOther (c ∷ s) = (digit_value c ≡ none) ⊎ HasOther s

index_loop_other : (k : ℤ) (s : List ℕ) → HasOther s → index_loop k s ≡ negsuc 0
unfolding index_loop
index_loop_other k [] h = absurd h
index_loop_other k (c ∷ s) (inl h) = rw (h, index_loop) refl
index_loop_other k (c ∷ s) (inr h) = elim (Option-cases (digit_value c)) [
  | inl e ↦ rw (e, index_loop) refl
  | inr (d, e) ↦ rw (e, index_loop) (index_loop_other (int32 (int32 (k +ℤ k *ℤ 10) +ℤ pos d)) s h)
]

-- A segment with any byte that is no digit gives -1, which stands for a field name.
pub str_to_maybe_int_other : (s : String) → HasOther (codes s) → str_to_maybe_int s ≡ negsuc 0
unfolding str_to_maybe_int
str_to_maybe_int_other s h = index_loop_other (pos 0) (codes s) h

-- Two digits, the first not zero, do not stand for the number that they write: `a` and `b` make
-- 11 a + b.
pub two_digits :
    (s : String) (a b : ℕ)
    → codes s ≡ (b'0' + a) ∷ (b'0' + b) ∷ []
    → 0 < a
    → a ≤ 9
    → b ≤ 9
    → (str_to_maybe_int s ≡ pos (11 * a + b)) × (str_to_maybe_int s ≢ pos (10 * a + b))
two_digits s a b e h ha hb =
    let value : str_to_maybe_int s ≡ pos (11 * a + b) =
      str_to_maybe_int_digits s (rw e (omega arith)) (rw e (omega arith))
      ∙ rw e (ap pos (omega arith)) in
    let apart : pos (11 * a + b) ≢ pos (10 * a + b) = ground arith in
    (value, λ wrong. apart (sym value ∙ wrong))
