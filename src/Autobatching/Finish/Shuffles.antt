-- ===== src/Autobatching/Finish/Shuffles.antt =====
-- Keys in another order.
use emcache.Prelude.{
  ◌≡◌, refl, sym, subst, ◌∙◌, arith, false, List, [], ◌∷◌, ◌++◌, Bytes, bytes_eq, bytes_eq_differ,
  bytes_eq_unequal, length, All,
}
use mathlib.Core.List.{Permᴰ, flatten, append_assoc}
use mathlib.Core.List.Permᴰ
use emcache.Client.Fetch.{has_key}
use emcache.Autobatching.Finish.Keys.{Distinct}

pub All-Permᴰ {ℓ κ} :
    {A : Type ℓ} (P : A → Type κ) {xs ys : List A} → Permᴰ xs ys → All P xs → All P ys
All-Permᴰ P Permᴰ.nil h = h
All-Permᴰ P (Permᴰ.cons e p) h = (subst P e h.0, All-Permᴰ P p h.1)
All-Permᴰ P (Permᴰ.swap e f) h = (subst P f h.1.0, (subst P e h.0, h.1.1))
All-Permᴰ P (Permᴰ.trans p q) h = All-Permᴰ P q (All-Permᴰ P p h)

pub length-Permᴰ {ℓ} : {A : Type ℓ} {xs ys : List A} → Permᴰ xs ys → length xs ≡ length ys
length-Permᴰ Permᴰ.nil = refl
length-Permᴰ (Permᴰ.cons e p) = omega (arith, length-Permᴰ p)
length-Permᴰ (Permᴰ.swap e f) = refl
length-Permᴰ (Permᴰ.trans p q) = length-Permᴰ p ∙ length-Permᴰ q

unequal_sym : (x y : Bytes) → bytes_eq x y ≡ false → bytes_eq y x ≡ false
unequal_sym x y h = bytes_eq_unequal y x (λ e. bytes_eq_differ x y h (sym e))

pub Distinct-Permᴰ : {xs ys : List Bytes} → Permᴰ xs ys → Distinct xs → Distinct ys
Distinct-Permᴰ Permᴰ.nil d = d
Distinct-Permᴰ {xs = x ∷ xs} {ys = y ∷ ys} (Permᴰ.cons e p) d = (
  subst (λ z. All (λ w. bytes_eq w z ≡ false) ys) e (All-Permᴰ (λ w. bytes_eq w x ≡ false) p d.0),
  Distinct-Permᴰ p d.1,
)
Distinct-Permᴰ {xs = a ∷ b ∷ l} {ys = c ∷ k ∷ m} (Permᴰ.swap e f) d =
    subst (λ z. Distinct (z ∷ k ∷ l)) f
      (subst (λ z. Distinct (b ∷ z ∷ l)) e ((unequal_sym b a d.0.0, d.1.0), (d.0.1, d.1.1)))
Distinct-Permᴰ (Permᴰ.trans p q) d = Distinct-Permᴰ q (Distinct-Permᴰ p d)

pub All-left {ℓ κ} : {A : Type ℓ} (P : A → Type κ) (xs ys : List A) → All P (xs ++ ys) → All P xs
All-left P [] ys h = tt
All-left P (x ∷ xs) ys h = (h.0, All-left P xs ys h.1)

pub All-right {ℓ κ} : {A : Type ℓ} (P : A → Type κ) (xs ys : List A) → All P (xs ++ ys) → All P ys
All-right P [] ys h = h
All-right P (x ∷ xs) ys h = All-right P xs ys h.1

pub Distinct-left : (xs ys : List Bytes) → Distinct (xs ++ ys) → Distinct xs
Distinct-left [] ys d = tt
Distinct-left (x ∷ xs) ys d =
    (All-left (λ w. bytes_eq w x ≡ false) xs ys d.0, Distinct-left xs ys d.1)

pub Distinct-right : (xs ys : List Bytes) → Distinct (xs ++ ys) → Distinct ys
Distinct-right [] ys d = d
Distinct-right (x ∷ xs) ys d = Distinct-right xs ys d.1

either_not :
    (x : Bytes) (xs ys : List Bytes)
    → All (λ w. bytes_eq w x ≡ false) ys
    → All (λ w. has_key w xs ≡ false) ys
    → All (λ w. has_key w (x ∷ xs) ≡ false) ys
unfolding has_key
either_not x xs [] h k = tt
either_not x xs (y ∷ ys) h k = (ground arith, either_not x xs ys h.1 k.1)

none_of_none : (ys : List Bytes) → All (λ w. has_key w [] ≡ false) ys
unfolding has_key
none_of_none [] = tt
none_of_none (y ∷ ys) = (refl, none_of_none ys)

-- Of distinct keys, those behind are none of those in front.
pub Distinct-apart : (xs ys : List Bytes) → Distinct (xs ++ ys) → All (λ w. has_key w xs ≡ false) ys
Distinct-apart [] ys d = none_of_none ys
Distinct-apart (x ∷ xs) ys d =
    either_not x xs ys (All-right (λ w. bytes_eq w x ≡ false) xs ys d.0) (Distinct-apart xs ys d.1)

pub flatten-Permᴰ : {xs ys : List (List Bytes)} → Permᴰ xs ys → Permᴰ (flatten xs) (flatten ys)
unfolding flatten
flatten-Permᴰ Permᴰ.nil = Permᴰ.nil
flatten-Permᴰ {xs = x ∷ xs} {ys = y ∷ ys} (Permᴰ.cons e p) =
    subst (λ z. Permᴰ (x ++ flatten xs) (z ++ flatten ys)) e (Permᴰ.append_left x (flatten-Permᴰ p))
flatten-Permᴰ {xs = a ∷ b ∷ l} {ys = c ∷ d ∷ m} (Permᴰ.swap e f) =
    let r = flatten l in
    let swapped : Permᴰ (a ++ (b ++ r)) (b ++ (a ++ r)) =
      rw (append_assoc a b r, append_assoc b a r) at
        (Permᴰ.append_right r (Permᴰ.append_comm a b)) in
    subst (λ z. Permᴰ (a ++ (b ++ r)) (z ++ (d ++ r))) f
      (subst (λ z. Permᴰ (a ++ (b ++ r)) (b ++ (z ++ r))) e swapped)
flatten-Permᴰ (Permᴰ.trans p q) = Permᴰ.trans (flatten-Permᴰ p) (flatten-Permᴰ q)
