-- ===== src/Rendezvous/Hash.antt =====
-- What `_hash` keeps of the bytes that it mixes.
use Prim.Native.Nat.{bit_and}
use emcache.Prelude.{
  ℕ, zero, suc, ◌≡◌, refl, ◌<◌, arith, Bool, true, Option, none, some, ◌+◌, ◌≤◌, ◌⊎◌, inl, inr, ltb,
  ==_iff, ◌==◌, if◌then◌else◌,
}
use emcache.Rendezvous.{extended, mask_shl, hash_word}

-- The first number from `start` on, among `count` many, that fails the test.
failing : (ℕ → Bool) → ℕ → ℕ → Option ℕ
failing test start zero = none
failing test start (suc count) = if test start then failing test (suc start) count else some start

eq_or_lt : (a b : ℕ) → a ≤ b → (a ≡ b) ⊎ (a < b)
eq_or_lt a b h = ground arith

passes :
    (test : ℕ → Bool) (start count b : ℕ)
    → failing test start count ≡ none
    → start ≤ b
    → b < start + count
    → test b ≡ true
unfolding failing
passes test start zero b e low high = absurd (omega arith)
passes test start (suc count) b e low high = elim (eq_or_lt start b low) [
  | inl here ↦ rw (← here) (ground arith)
  | inr above ↦ passes test (suc start) count b (ground arith) above (omega arith)
]

-- The sign of a `char`, spread over the bits from `k` on.
abbrev pub sign_bits : ℕ → ℕ → ℕ
sign_bits k b = if ltb b 128 then 0 else mask_shl k

sign_table :
    (k : ℕ)
    → failing (λ b. bit_and (extended b) (mask_shl k) == sign_bits k b) 0 256 ≡ none
    → (b : ℕ) → b < 256
    → bit_and (extended b) (mask_shl k) ≡ sign_bits k b
sign_table k t b h = (==_iff _ _).0 (passes _ 0 256 b t (omega arith) (omega (arith, h)))

byte1 : (b : ℕ) → b < 256 → bit_and (extended b) (mask_shl 8) ≡ sign_bits 8 b
unfolding failing extended
byte1 = sign_table 8 refl

byte2 : (b : ℕ) → b < 256 → bit_and (extended b) (mask_shl 16) ≡ sign_bits 16 b
unfolding failing extended
byte2 = sign_table 16 refl

byte3 : (b : ℕ) → b < 256 → bit_and (extended b) (mask_shl 24) ≡ sign_bits 24 b
unfolding failing extended
byte3 = sign_table 24 refl

-- Of the bytes 1, 2 and 3 that MurmurHash3 wrote, `_hash` keeps the sign bits only: two outputs with
-- the same first byte and the same three signs have the same hash.
pub hash_word_signs :
    (a b c d b' c' d' : ℕ)
    → b < 256
    → c < 256
    → d < 256
    → b' < 256
    → c' < 256
    → d' < 256
    → ltb b 128 ≡ ltb b' 128
    → ltb c 128 ≡ ltb c' 128
    → ltb d 128 ≡ ltb d' 128
    → hash_word a b c d ≡ hash_word a b' c' d'
unfolding hash_word
hash_word_signs a b c d b' c' d' hb hc hd hb' hc' hd' eb ec ed =
    rw (byte1 b hb, byte2 c hc, byte3 d hd, byte1 b' hb', byte2 c' hc', byte3 d' hd', eb, ec, ed)
      refl
