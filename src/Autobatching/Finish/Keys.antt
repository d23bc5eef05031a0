-- ===== src/Autobatching/Finish/Keys.antt =====
-- The answers that a task gets for its keys.
use emcache.Prelude.{
  ◌+◌, ◌≡◌, refl, sym, ◌∙◌, arith, true, false, ◌||◌, Option, none, some, List, [], ◌∷◌, ◌++◌,
  Bytes, bytes_eq, bytes_eq_refl, bytes_eq_unequal, bytes_eq_differ, All, length, length-append,
}
use emcache.Client.Fetch.{has_key}

-- The keys that a task asks for, each with the value that comes for it, if one comes.
abbrev pub Answers : Type 0
Answers = List (Bytes × Option Bytes)

abbrev pub asked : Answers → List Bytes
asked [] = []
asked ((k, v) ∷ rest) = k ∷ asked rest

abbrev pub found : Answers → List Bytes
found [] = []
found ((k, none) ∷ rest) = found rest
found ((k, some v) ∷ rest) = k ∷ found rest

abbrev pub values : Answers → List Bytes
values [] = []
values ((k, none) ∷ rest) = values rest
values ((k, some v) ∷ rest) = v ∷ values rest

abbrev pub unfound : Answers → List Bytes
unfound [] = []
unfound ((k, none) ∷ rest) = k ∷ unfound rest
unfound ((k, some v) ∷ rest) = unfound rest

abbrev pub Distinct : List Bytes → Type 0
Distinct [] = Unit
Distinct (k ∷ ks) = All (λ x. bytes_eq x k ≡ false) ks × Distinct ks

-- The found keys are among these, and the others are not.
abbrev pub Told : List Bytes → Answers → Type 0
Told keys [] = Unit
Told keys ((k, none) ∷ a) = (has_key k keys ≡ false) × Told keys a
Told keys ((k, some v) ∷ a) = (has_key k keys ≡ true) × Told keys a

pub Told-cons :
    (k : Bytes) (keys : List Bytes) (a : Answers)
    → All (λ x. bytes_eq x k ≡ false) (asked a)
    → Told keys a
    → Told (k ∷ keys) a
unfolding has_key
Told-cons k keys [] h t = tt
Told-cons k keys ((l, none) ∷ a) h t = (ground arith, Told-cons k keys a h.1 t.1)
Told-cons k keys ((l, some v) ∷ a) h t = (ground arith, Told-cons k keys a h.1 t.1)

pub All-found : (P : Bytes → Type 0) (a : Answers) → All P (asked a) → All P (found a)
All-found P [] h = tt
All-found P ((k, none) ∷ a) h = All-found P a h.1
All-found P ((k, some v) ∷ a) h = (h.0, All-found P a h.1)

pub All-unfound : (P : Bytes → Type 0) (a : Answers) → All P (asked a) → All P (unfound a)
All-unfound P [] h = tt
All-unfound P ((k, none) ∷ a) h = (h.0, All-unfound P a h.1)
All-unfound P ((k, some v) ∷ a) h = All-unfound P a h.1

pub Distinct-found : (a : Answers) → Distinct (asked a) → Distinct (found a)
Distinct-found [] d = tt
Distinct-found ((k, none) ∷ a) d = Distinct-found a d.1
Distinct-found ((k, some v) ∷ a) d =
    (All-found (λ x. bytes_eq x k ≡ false) a d.0, Distinct-found a d.1)

pub Distinct-unfound : (a : Answers) → Distinct (asked a) → Distinct (unfound a)
Distinct-unfound [] d = tt
Distinct-unfound ((k, none) ∷ a) d =
    (All-unfound (λ x. bytes_eq x k ≡ false) a d.0, Distinct-unfound a d.1)
Distinct-unfound ((k, some v) ∷ a) d = Distinct-unfound a d.1

pub has_key-differs :
    (k : Bytes) (ls : List Bytes) → All (λ x. bytes_eq x k ≡ false) ls → has_key k ls ≡ false
unfolding has_key
has_key-differs k [] h = refl
has_key-differs k (l ∷ ls) h =
    let differ : bytes_eq k l ≡ false =
      bytes_eq_unequal k l (λ e. bytes_eq_differ l k h.0 (sym e)) in
    ground (arith, has_key-differs k ls h.1)

pub Told-found : (a : Answers) → Distinct (asked a) → Told (found a) a
unfolding has_key
Told-found [] d = tt
Told-found ((k, none) ∷ a) d =
    (has_key-differs k (found a) (All-found (λ x. bytes_eq x k ≡ false) a d.0), Told-found a d.1)
Told-found ((k, some v) ∷ a) d =
    (rw (bytes_eq_refl k) refl, Told-cons k (found a) a d.0 (Told-found a d.1))

pub unfound-Told :
    (keys : List Bytes) (a : Answers) → Told keys a → All (λ x. has_key x keys ≡ false) (unfound a)
unfound-Told keys [] t = tt
unfound-Told keys ((k, none) ∷ a) t = (t.0, unfound-Told keys a t.1)
unfound-Told keys ((k, some v) ∷ a) t = unfound-Told keys a t.1

pub parts : (a : Answers) → length (found a) + length (unfound a) ≡ length (asked a)
parts [] = refl
parts ((k, none) ∷ a) = omega (arith, parts a)
parts ((k, some v) ∷ a) = omega (arith, parts a)

pub length-asked : (a : Answers) → length (found a ++ unfound a) ≡ length (asked a)
length-asked a = length-append (found a) (unfound a) ∙ parts a

pub has_key-asked :
    (x : Bytes) (a : Answers) → has_key x (asked a) ≡ (has_key x (found a) || has_key x (unfound a))
unfolding has_key
has_key-asked x [] = refl
has_key-asked x ((k, none) ∷ a) = ground (arith, has_key-asked x a)
has_key-asked x ((k, some v) ∷ a) = ground (arith, has_key-asked x a)
