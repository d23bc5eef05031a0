-- ===== src/Decimal.antt =====
-- Numbers as text: what `%a` prints of an `int` (emcache/protocol.py) and what `int(b"...")` reads
-- (emcache/_cython/protocol/ascii/multi_line_parser.pyx, emcache/client.py). Python's limit of 4300
-- digits is not modelled.
pub mod RoundTrip
use mathlib.Core.List.{reverse}
use emcache.Prelude.{
  ℕ, zero, suc, ◌+◌, ◌-◌, ◌*◌, ◌/◌, ◌%◌, ◌≡◌, refl, Bool, true, false, ◌&&◌, ◌||◌, Option, none,
  some, List, [], ◌∷◌, Bytes, codes, leb, ◌==◌, if◌then◌else◌, ℤ, pos, negsuc,
}

-- The digits of `n` in front of `out`; `fuel` bounds their number.
digits : ℕ → ℕ → Bytes → Bytes
digits zero n out = out
digits (suc fuel) n out =
    let rest = digits fuel (n / 10) ((b'0' + n % 10) ∷ out) in
    if n / 10 == 0 then (b'0' + n % 10) ∷ out else rest

-- `b"%a" % n` for an `n` that is not negative.
unfoldable pub show : ℕ → Bytes
unfolding digits
show n = digits (suc n) n []

abbrev pub is_digit : ℕ → Bool
is_digit c = leb b'0' c && leb c b'9'

-- The whitespace of `bytes.strip`, `bytes.split` and `int`.
abbrev pub is_space : ℕ → Bool
is_space c = c == 32 || (leb 9 c && leb c 13)

unfoldable pub strip_left : Bytes → Bytes
strip_left [] = []
strip_left (c ∷ s) = let rest = strip_left s in if is_space c then rest else c ∷ s

unfoldable pub strip : Bytes → Bytes
unfolding strip_left
strip s = reverse (strip_left (reverse (strip_left s)))

-- Digits, with single underscores between them; `after` says that a digit stands right before.
unfoldable pub read_digits : Bool → ℕ → Bytes → Option ℕ
read_digits after n [] = if after then some n else none
read_digits after n (c ∷ s) = elim (is_digit c) [
  | true ↦ read_digits true (n * 10 + (c - b'0')) s
  | false ↦ elim (c == b'_' && after) [ true ↦ read_digits false n s | false ↦ none ]
]

negated : Option ℕ → Option ℤ
negated none = none
negated (some zero) = some (pos 0)
negated (some (suc n)) = some (negsuc n)

positive : Option ℕ → Option ℤ
positive none = none
positive (some n) = some (pos n)

unfoldable pub read_signed : Bytes → Option ℤ
unfolding negated positive read_digits
read_signed [] = none
read_signed (c ∷ s) =
    if c == b'-'
    then negated (read_digits false 0 s)
    else if c == b'+'
    then positive (read_digits false 0 s)
    else positive (read_digits false 0 (c ∷ s))

-- `int(s)`; `none` is the `ValueError`.
unfoldable pub int_of : Bytes → Option ℤ
unfolding read_signed strip
int_of s = read_signed (strip s)

show_max : show 18446744073709551615 ≡ codes "18446744073709551615"
unfolding show
show_max = refl

int_of_examples :
    (int_of (codes " -1_0\n") ≡ some (negsuc 9))
    × (int_of (codes "1__0") ≡ none)
    × (int_of (codes "+7") ≡ some (pos 7))
unfolding int_of
int_of_examples = (refl, refl, refl)
