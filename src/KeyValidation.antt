-- ===== src/KeyValidation.antt =====
-- emcache/_cython/key_validation.pyx: which keys the client sends at all.
pub mod Decides
use emcache.Prelude.{
  ℕ, ◌≡◌, refl, Bool, true, false, ◌||◌, List, [], ◌∷◌, Bytes, codes, length, ltb, ◌==◌,
  if◌then◌else◌,
}

abbrev pub max_key_length : ℕ
max_key_length = 250

-- The loop `for c in key`; `c` is an `unsigned char`.
all_printable : Bytes → Bool
all_printable [] = true
all_printable (c ∷ key) =
    let rest = all_printable key in if ltb c 33 || c == 127 then false else rest

unfoldable pub is_key_valid : Bytes → Bool
unfolding all_printable
is_key_valid key = if ltb max_key_length (length key) then false else all_printable key

is_key_valid_tests : (is_key_valid (codes "foo") ≡ true) × (is_key_valid (codes "f oo") ≡ false)
unfolding is_key_valid
is_key_valid_tests = (refl, refl)
