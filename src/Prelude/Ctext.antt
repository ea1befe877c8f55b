-- ===== src/Prelude/Ctext.antt =====
-- Text as the C library handles it: bytes, numbers printed by "%d", and texts put together.
use Prim.Native.Char.{code}
use Prim.Native.String
use Prim.Native.String.{String}
use mathlib.Core.List.{List, [], ◌∷◌}
use mathlib.Core.Path.{◌≡◌, refl}
use mathlib.Core.Bool.{Bool, true, false, ◌&&◌, ◌||◌}
use mathlib.Core.Option.{Option, none, some}
use Prim.Native.Nat.{ℕ, zero, suc, ◌+◌, ◌-◌, ◌*◌, ◌/◌, ◌%◌, ◌^◌}
use ocgeo_fdw.Prelude.Tests.{ltb, leb, ◌==◌, if◌then◌else◌}
use ocgeo_fdw.Prelude.Int.{ℤ, pos, negsuc, int32}

-- The bytes of a text. (A character beyond ASCII is one number here; the code below only looks for
-- ASCII characters.)
abbrev pub codes : String → List ℕ
codes String.[] = []
codes (String.◌∷◌ c s) = code c ∷ codes s

infixr 65 ◌<>◌
abbrev pub ◌<>◌ : String → String → String
s <> t = String.◌++◌ s t

abbrev pub digit_text : ℕ → String
digit_text d =
    if d == 0
    then "0"
    else (if d == 1
        then "1"
        else (if d == 2
            then "2"
            else (if d == 3
                then "3"
                else (if d == 4
                    then "4"
                    else (if d == 5
                        then "5"
                        else (if d == 6
                            then "6"
                            else (if d == 7 then "7" else (if d == 8 then "8" else "9"))))))))

print_from : ℕ → ℕ → String
print_from zero n = ""
print_from (suc fuel) n =
    let more = print_from fuel (n / 10) <> digit_text (n % 10) in
    if ltb n 10 then digit_text n else more

-- "%d"
unfoldable pub print_int : ℤ → String
unfolding print_from
print_int (pos n) = print_from (suc n) n
print_int (negsuc n) = "-" <> print_from (suc (suc n)) (suc n)

print_int_runs : print_int (negsuc 1204) ≡ "-1205"
unfolding print_int
print_int_runs = refl

-- isspace
abbrev pub is_space : ℕ → Bool
is_space c = c == 32 || leb 9 c && leb c 13

unfoldable pub skip_spaces : List ℕ → List ℕ
skip_spaces [] = []
skip_spaces (c ∷ s) = if is_space c then skip_spaces s else c ∷ s

-- The value of a digit of a base up to 16.
abbrev pub digit_in : ℕ → ℕ → Option ℕ
digit_in base c =
    let d =
      (if leb b'0' c && leb c b'9'
        then c - b'0'
        else (if leb b'a' c && leb c b'f'
            then c - b'a' + 10
            else (if leb b'A' c && leb c b'F' then c - b'A' + 10 else 16))) in
    if ltb d base then some d else none

unfoldable pub scan_digits : ℕ → ℕ → List ℕ → ℕ × List ℕ
scan_digits base acc [] = (acc, [])
scan_digits base acc (c ∷ s) = elim (digit_in base c) [
  | none ↦ (acc, c ∷ s)
  | some d ↦ scan_digits base (acc * base + d) s
]

abbrev pub is_x : ℕ → Bool
is_x c = c == b'x' || c == b'X'

abbrev pub is_digit_in : ℕ → ℕ → Bool
is_digit_in base c = elim (digit_in base c) [ none ↦ false | some _ ↦ true ]

-- Base 0 is 16 behind "0x", 8 behind "0", and else 10; the text that the digits start in.
abbrev pub choose_base : ℕ → List ℕ → ℕ × List ℕ
choose_base zero (c ∷ x ∷ h ∷ s) =
    if c == b'0' && is_x x && is_digit_in 16 h
    then (16, h ∷ s)
    else (if c == b'0' then 8 else 10, c ∷ x ∷ h ∷ s)
choose_base zero (c ∷ s) = (if c == b'0' then 8 else 10, c ∷ s)
choose_base zero [] = (10, [])
choose_base (suc base) s = (suc base, s)

abbrev pub take_sign : List ℕ → Bool × List ℕ
take_sign [] = (false, [])
take_sign (c ∷ s) =
    if c == b'-' then (true, s) else (if c == b'+' then (false, s) else (false, c ∷ s))

-- A `long`, cut off at its ends.
abbrev pub clamp : Bool → ℕ → ℤ
clamp false n = if ltb n (2 ^ 63) then pos n else pos (2 ^ 63 - 1)
clamp true zero = pos 0
clamp true (suc n) = if ltb n (2 ^ 63) then negsuc n else negsuc (2 ^ 63 - 1)

abbrev pub starts_digit : ℕ → List ℕ → Bool
starts_digit base [] = false
starts_digit base (c ∷ s) = is_digit_in base c

-- strtol: the value, and the text that `endptr` points to, which is the whole one if no digit was
-- found.
unfoldable pub strtol : ℕ → List ℕ → ℤ × List ℕ
unfolding skip_spaces scan_digits
strtol base val =
    let (negative, unsigned) = take_sign (skip_spaces val) in
    let (b, digits) = choose_base base unsigned in
    let (n, rest) = scan_digits b 0 digits in
    if starts_digit b digits then (clamp negative n, rest) else (pos 0, val)

-- atoi
unfoldable pub atoi : String → ℤ
unfolding strtol int32
atoi s = int32 (strtol 10 (codes s)).0

atoi_runs : atoi " -42abc" ≡ negsuc 41
unfolding atoi
atoi_runs = refl

strtol_hex : strtol 0 (codes "0x1F ") ≡ (pos 31, 32 ∷ [])
unfolding strtol
strtol_hex = refl
