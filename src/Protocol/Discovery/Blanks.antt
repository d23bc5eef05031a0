-- ===== src/Protocol/Discovery/Blanks.antt =====
-- How the parser's text functions act on texts that are known in part.
use emcache.Prelude.{
  ℕ, ◌-◌, ◌≡◌, refl, ◌≢◌, sym, ap, ◌∙◌, arith, true, false, some, List, [], ◌∷◌, ◌++◌, Bytes, codes,
  bytes_eq_refl, All, length, length-append, drop-append, leb,
}
use mathlib.Core.List.{reverse, reverse-append, reverse-reverse}
use emcache.Decimal.{show, is_digit, is_space, strip_left, strip}
use emcache.Decimal.RoundTrip.{IsDigit, show-All, show_nonempty, reverse-All}
use emcache.Protocol.Text.{join}
use emcache.Protocol.Discovery.{
  ends_with, is_text_space, split_blanks, without_prefix, take_digits, match_length,
}

pub ends_with-append : (suffix s : Bytes) → ends_with suffix (s ++ suffix) ≡ true
unfolding ends_with
ends_with-append suffix s =
    let size : length (s ++ suffix) - length suffix ≡ length s =
      omega (arith, length-append s suffix) in
    let long : leb (length suffix) (length (s ++ suffix)) ≡ true =
      ground (arith, length-append s suffix) in
    rw (long, size, drop-append s suffix) (bytes_eq_refl suffix)

-- A text that starts with something else than a blank.
abbrev pub Starts : Bytes → Type 0
Starts s = (c : ℕ) × (t : Bytes) × (s ≡ c ∷ t) × (is_space c ≡ false)

pub strip_left-Starts : (s : Bytes) → Starts s → strip_left s ≡ s
unfolding strip_left
strip_left-Starts s (c, t, e, h) = rw (e, h) refl

pub strip-newline : (s : Bytes) → Starts s → Starts (reverse s) → strip (s ++ 10 ∷ []) ≡ s
unfolding strip strip_left
strip-newline s (c, t, e, h) r =
    let front : strip_left (s ++ 10 ∷ []) ≡ s ++ 10 ∷ [] =
      strip_left-Starts (s ++ 10 ∷ []) (c, t ++ 10 ∷ [], ap (λ x. x ++ 10 ∷ []) e, h) in
    rw (front, reverse-append s (10 ∷ []), strip_left-Starts (reverse s) r) (reverse-reverse s)

pub digits-Starts : (s : Bytes) → All IsDigit s → s ≢ [] → Starts s
digits-Starts [] h n = absurd (n refl)
digits-Starts (c ∷ s) h n = (c, s, refl, ground arith)

pub Starts-append : (s t : Bytes) → Starts s → Starts (s ++ t)
Starts-append s t (c, r, e, h) = (c, r ++ t, ap (λ x. x ++ t) e, h)

pub reverse_nonempty : (s : Bytes) → s ≢ [] → reverse s ≢ []
reverse_nonempty s h e = h (sym (reverse-reverse s) ∙ ap reverse e)

-- The end of a printed number is the end of a text that is not blank.
pub Ends-show : (s : Bytes) (n : ℕ) → Starts (reverse (s ++ show n))
Ends-show s n = rw (reverse-append s (show n)) (
    Starts-append (reverse (show n)) (reverse s) (
      digits-Starts (reverse (show n)) (reverse-All IsDigit (show n) (show-All n))
        (reverse_nonempty (show n) (show_nonempty n))))

pub take_digits-append :
    (s : Bytes) (c : ℕ) (rest : Bytes)
    → All IsDigit s
    → is_digit c ≡ false
    → take_digits (s ++ c ∷ rest) ≡ (s, c ∷ rest)
unfolding take_digits
take_digits-append [] c rest h k = rw k refl
take_digits-append (d ∷ s) c rest h k = rw (take_digits-append s c rest h.1 k, h.0) refl

pub without_prefix-append : (p s : Bytes) → without_prefix p (p ++ s) ≡ some s
unfolding without_prefix
without_prefix-append [] s = refl
without_prefix-append (c ∷ p) s = ground (arith, without_prefix-append p s)

pub match_length-digits :
    (ds body : Bytes) → ds ≢ [] → match_length (ds, codes "\r\n" ++ body) ≡ some (ds, body)
unfolding match_length
match_length-digits [] body h = absurd (h refl)
match_length-digits (d ∷ ds) body h = refl

abbrev pub IsSolid : Bytes → Type 0
IsSolid = All (λ c. is_text_space c ≡ false)

pub split_blanks-IsSolid : (w : Bytes) → IsSolid w → split_blanks w ≡ w ∷ []
unfolding split_blanks
split_blanks-IsSolid [] h = refl
split_blanks-IsSolid (c ∷ w) h = rw (split_blanks-IsSolid w h.1, h.0) refl

pub split_blanks-append :
    (w s : Bytes) → IsSolid w → split_blanks (w ++ 32 ∷ s) ≡ w ∷ split_blanks s
unfolding split_blanks is_text_space
split_blanks-append [] s h = refl
split_blanks-append (c ∷ w) s h = rw (split_blanks-append w s h.1, h.0) refl

pub split_blanks-join :
    (w : Bytes) (ws : List Bytes)
    → All IsSolid (w ∷ ws)
    → split_blanks (join (codes " ") (w ∷ ws)) ≡ w ∷ ws
unfolding join
split_blanks-join w [] h = split_blanks-IsSolid w h.0
split_blanks-join w (v ∷ ws) h =
    rw (split_blanks-append w (join (codes " ") (v ∷ ws)) h.0)
      (ap (◌∷◌ w) (split_blanks-join v ws h.1))
