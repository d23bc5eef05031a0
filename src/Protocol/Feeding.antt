-- ===== src/Protocol/Feeding.antt =====
-- What both response parsers share: the exceptions that `feed_data` can raise, and responses that
-- arrive in several pieces.
use emcache.Prelude.{◌≡◌, refl, Bool, false, List, [], ◌∷◌, ◌++◌, Bytes}

-- `invalid_state` is asyncio's error for a future that is resolved twice; `negative_size` is the
-- `SystemError` of a slice that ends before it starts.
pub data Raised : Type 0 where
  invalid_state index_error value_error overflow_error negative_size out_of_fuel assertion_error
        runtime_error :
      Raised

pub data Parsed {ℓ} (A : Type ℓ) : Type ℓ where
  parsed : A → Parsed A
  raised : Raised → Parsed A

infixl 5 ◌>>=◌
abbrev pub ◌>>=◌ {ℓ κ} : {A : Type ℓ} {B : Type κ} → Parsed A → (A → Parsed B) → Parsed B
parsed a >>= f = f a
raised e >>= f = raised e

-- The pieces of a response, fed one after the other.
unfoldable pub feed_all {ℓ} : {S : Type ℓ} → (S → Bytes → Parsed S) → S → List Bytes → Parsed S
feed_all feed s [] = parsed s
feed_all feed s (c ∷ cs) = elim (feed s c) [ parsed t ↦ feed_all feed t cs | raised e ↦ raised e ]

-- No piece but the last makes the text complete, as `complete` sees it.
abbrev pub NotEarly : (Bytes → Bool) → Bytes → List Bytes → Type 0
NotEarly complete b [] = Unit
NotEarly complete b (c ∷ []) = Unit
NotEarly complete b (c ∷ d ∷ cs) = (complete (b ++ c) ≡ false) × NotEarly complete (b ++ c) (d ∷ cs)

pub feed_all-cons {ℓ} :
    {S : Type ℓ} (feed : S → Bytes → Parsed S) (s t : S) (c : Bytes) (cs : List Bytes)
    → feed s c ≡ parsed t
    → feed_all feed s (c ∷ cs) ≡ feed_all feed t cs
unfolding feed_all
feed_all-cons feed s t c cs e = rw (e, feed_all) refl
