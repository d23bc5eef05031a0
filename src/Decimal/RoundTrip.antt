-- ===== src/Decimal/RoundTrip.antt =====
-- A printed number is all digits and is read back.
use mathlib.Core.List.{reverse, reverse-cons, reverse-reverse}
use emcache.Prelude.{
  if_case, ◌≢◌, ◌==◌, ℕ, zero, suc, ◌+◌, ◌/◌, ◌%◌, ◌≡◌, refl, ◌<◌, Bool, true, false, some, [], ◌∷◌,
  arith, Bytes, All, All-append, pos,
}
use emcache.Decimal.{
  digits, show, is_digit, strip_left, strip, read_digits, positive, read_signed, int_of,
}

abbrev pub IsDigit : ℕ → Type 0
IsDigit c = is_digit c ≡ true

read-digits :
    (fuel n : ℕ) (after : Bool) (out : Bytes)
    → n < fuel
    → read_digits after 0 (digits fuel n out) ≡ read_digits true n out
unfolding digits read_digits
read-digits zero n after out h = absurd (ground arith)
read-digits (suc f) n after out h =
    ground (arith, read-digits f (n / 10) after ((b'0' + n % 10) ∷ out))

digits-All : (fuel n : ℕ) (out : Bytes) → All IsDigit out → All IsDigit (digits fuel n out)
unfolding digits
digits-All zero n out h = h
digits-All (suc f) n out h = ground (arith, digits-All f (n / 10) ((b'0' + n % 10) ∷ out))

pub show-All : (n : ℕ) → All IsDigit (show n)
unfolding show
show-All n = digits-All (suc n) n [] tt

strip_left-digits : (s : Bytes) → All IsDigit s → strip_left s ≡ s
unfolding strip_left
strip_left-digits [] h = refl
strip_left-digits (c ∷ s) h = ground arith

pub reverse-All : (P : ℕ → Type 0) (s : Bytes) → All P s → All P (reverse s)
reverse-All P [] h = tt
reverse-All P (c ∷ s) h =
    rw (reverse-cons c s) (All-append P (reverse s) (c ∷ []) (reverse-All P s h.1) (h.0, tt))

strip-digits : (s : Bytes) → All IsDigit s → strip s ≡ s
unfolding strip
strip-digits s h =
    rw (strip_left-digits s h, strip_left-digits (reverse s) (reverse-All IsDigit s h))
      (reverse-reverse s)

read_signed-digits : (s : Bytes) → All IsDigit s → read_signed s ≡ positive (read_digits false 0 s)
unfolding read_signed
read_signed-digits [] h = refl
read_signed-digits (c ∷ s) h = ground arith

-- Every printed number is read back as itself.
pub int_of-show : (n : ℕ) → int_of (show n) ≡ some (pos n)
unfolding int_of show
int_of-show n =
    rw
      (
        strip-digits (digits (suc n) n []) (digits-All (suc n) n [] tt),
        read_signed-digits (digits (suc n) n []) (digits-All (suc n) n [] tt),
        read-digits (suc n) n false [] (omega arith),
      )
      refl

digits_cons :
    (fuel n c : ℕ) (out : Bytes) → (d : ℕ) × (t : Bytes) × (digits fuel n (c ∷ out) ≡ d ∷ t)
unfolding digits
digits_cons zero n c out = (c, out, refl)
digits_cons (suc f) n c out =
    if_case (λ s. (d : ℕ) × (t : Bytes) × (s ≡ d ∷ t)) (n / 10 == 0)
      (λ _. (b'0' + n % 10, c ∷ out, refl)) (λ _. digits_cons f (n / 10) (b'0' + n % 10) (c ∷ out))

-- A printed number has a digit.
pub show_nonempty : (n : ℕ) → show n ≢ []
unfolding show digits
show_nonempty n =
    if_case (λ s. s ≢ []) (n / 10 == 0) (λ _ e. cc)
      (λ _ e. let (d, t, q) = digits_cons n (n / 10) (b'0' + n % 10) [] in cc)
