-- ===== src/KeyValidation/Decides.antt =====
-- What `is_key_valid` lets through, against memcached's rule for keys.
use emcache.Prelude.{
  ℕ, ◌≡◌, refl, ◌≢◌, ◌≤◌, ◌<◌, ◌↔◌, ◌⊎◌, inl, inr, true, [], ◌∷◌, arith, Bytes, Among, length,
}
use emcache.KeyValidation.{all_printable, is_key_valid}

-- The control characters of ASCII, DEL included.
abbrev pub IsControl : ℕ → Type 0
IsControl c = (c < 32) ⊎ (c ≡ 127)

-- memcached's rule: a key has 1 to 250 bytes, and no control character and no blank among them.
pub record IsKey (key : Bytes) : Type 0 where
  pub filled : 1 ≤ length key
  pub short : length key ≤ 250
  pub no_control : (c : ℕ) → Among c key → ¬ IsControl c
  pub no_blank : (c : ℕ) → Among c key → c ≢ 32

abbrev IsPlain : ℕ → Type 0
IsPlain c = (¬ IsControl c) × (c ≢ 32)

all_printable_sound : (key : Bytes) → all_printable key ≡ true → (c : ℕ) → Among c key → IsPlain c
unfolding all_printable
all_printable_sound [] h c a = absurd a
all_printable_sound (d ∷ key) h c (inl e) = ground arith
all_printable_sound (d ∷ key) h c (inr a) = all_printable_sound key (ground arith) c a

all_printable_complete :
    (key : Bytes) → ((c : ℕ) → Among c key → IsPlain c) → all_printable key ≡ true
unfolding all_printable
all_printable_complete [] h = refl
all_printable_complete (d ∷ key) h =
    let first = h d (inl refl) in
    rw (all_printable_complete key (λ c a. h c (inr a))) (ground (arith, first))

-- A valid key with a byte is one of memcached's keys.
pub valid-IsKey : (key : Bytes) → is_key_valid key ≡ true → key ≢ [] → IsKey key
unfolding is_key_valid
valid-IsKey [] h filled = absurd (filled refl)
valid-IsKey (c ∷ key) h filled =
    let plain = all_printable_sound (c ∷ key) (ground arith) in
    record {
      filled = omega arith;
      short = ground arith;
      no_control = λ d a. (plain d a).0;
      no_blank = λ d a. (plain d a).1;
    }

pub IsKey-valid : (key : Bytes) → IsKey key → is_key_valid key ≡ true
unfolding is_key_valid
IsKey-valid key k =
    let e = all_printable_complete key (λ c a. (k.no_control c a, k.no_blank c a)) in
    rw e (ground (arith, k.short))

-- The validation accepts exactly the keys that memcached's rule allows, and the empty key, which
-- memcached refuses: 1 to 250 bytes, none of them a control character or a blank.
pub is_key_valid-IsKey : (key : Bytes) → (is_key_valid key ≡ true) ↔ ((key ≡ []) ⊎ IsKey key)
unfolding is_key_valid all_printable
is_key_valid-IsKey [] = (λ h. inl refl, λ k. refl)
is_key_valid-IsKey (c ∷ key) = (
  (λ h. inr (valid-IsKey (c ∷ key) h (λ e. cc))),
  (λ k. elim k [ inl e ↦ cc | inr h ↦ IsKey-valid (c ∷ key) h ]),
)
