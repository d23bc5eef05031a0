-- ===== src/Protocol/Encode/Framing.antt =====
-- What memcached reads of the requests: a command line up to the first LF, cut at runs of blanks, and
-- what follows it.
use emcache.Prelude.{
  ℕ, suc, ◌≡◌, refl, Bool, true, false, Option, none, some, List, [], ◌∷◌, ◌++◌, arith, Bytes,
  codes, All, Among, inl, inr, ◌≢◌, ◌≤◌, length, ap, ◌==◌, if◌then◌else◌, ℤ, pos, negsuc,
}
use emcache.Decimal.{show}
use emcache.Decimal.RoundTrip.{IsDigit, show-All, show_nonempty}
use emcache.KeyValidation.Decides.{IsKey}
use emcache.Protocol.Text.{join, split_on, Lacks, Lacks-append, split_on-join}
use emcache.Protocol.Encode.{crlf, space, show_int}

abbrev ahead : ℕ → Option (Bytes × Bytes) → Option (Bytes × Bytes)
ahead c none = none
ahead c (some (line, rest)) = some (c ∷ line, rest)

-- The text up to the first LF, and the text behind it.
split_line : Bytes → Option (Bytes × Bytes)
split_line [] = none
split_line (c ∷ s) = let t = split_line s in if c == 10 then some ([], s) else ahead c t

-- The line without a CR at its end.
without_cr : Bytes → Bytes
without_cr [] = []
without_cr (c ∷ []) = if c == 13 then [] else c ∷ []
without_cr (c ∷ d ∷ line) = c ∷ without_cr (d ∷ line)

-- The words between runs of blanks.
abbrev filled : List Bytes → List Bytes
filled [] = []
filled ([] ∷ ps) = filled ps
filled ((c ∷ p) ∷ ps) = (c ∷ p) ∷ filled ps

-- The words of the command line, and the rest of the request. As in memcached a line ends at an LF,
-- with or without a CR before it, and a word has at least one byte.
pub read_request : Bytes → Option (List Bytes × Bytes)
unfolding split_line without_cr
read_request s = elim (split_line s) [
  | none ↦ none
  | some (line, rest) ↦ some (filled (split_on 32 (without_cr line)), rest)
]

-- Two blanks stand between two words, as one does, and the value is what follows the line.
runs_test :
    read_request (codes "set  0 0 9\r\nflush_all\r\n")
    ≡ some (codes "set" ∷ codes "0" ∷ codes "0" ∷ codes "9" ∷ [], codes "flush_all\r\n")
unfolding read_request split_on
runs_test = refl

-- A line may end at a bare LF.
bare_test :
    read_request (codes "get a\nquit\r\n") ≡ some (codes "get" ∷ codes "a" ∷ [], codes "quit\r\n")
unfolding read_request split_on
bare_test = refl

split_line-Lacks :
    (line rest : Bytes)
    → Lacks 10 line
    → split_line (line ++ (crlf ++ rest)) ≡ some (line ++ 13 ∷ [], rest)
unfolding split_line
split_line-Lacks [] rest h = refl
split_line-Lacks (c ∷ line) rest h = rw (split_line-Lacks line rest h.1) (ground arith)

without_cr-append : (line : Bytes) → without_cr (line ++ 13 ∷ []) ≡ line
unfolding without_cr
without_cr-append [] = refl
without_cr-append (c ∷ []) = refl
without_cr-append (c ∷ d ∷ line) = ap (◌∷◌ c) (without_cr-append (d ∷ line))

-- A word of a response: no blank and no CR.
pub record IsWord (p : Bytes) : Type 0 where
  pub no_blank : Lacks 32 p
  pub no_cr : Lacks 13 p

pub join-Lacks : (ps : List Bytes) → All IsWord ps → Lacks 13 (join space ps)
unfolding join
join-Lacks [] h = tt
join-Lacks (p ∷ []) h = h.0.no_cr
join-Lacks (p ∷ q ∷ ps) h =
    Lacks-append 13 p _ h.0.no_cr
      (Lacks-append 13 space _ (omega arith, tt) (join-Lacks (q ∷ ps) h.1))

pub All-no_blank : (ps : List Bytes) → All IsWord ps → All (Lacks 32) ps
All-no_blank [] h = tt
All-no_blank (p ∷ ps) h = (h.0.no_blank, All-no_blank ps h.1)

-- A word of a request: at least one byte, no blank and no LF.
pub record IsToken (p : Bytes) : Type 0 where
  pub not_empty : 1 ≤ length p
  pub no_blank : Lacks 32 p
  pub no_line_feed : Lacks 10 p

join-IsToken : (ps : List Bytes) → All IsToken ps → Lacks 10 (join space ps)
unfolding join
join-IsToken [] h = tt
join-IsToken (p ∷ []) h = h.0.no_line_feed
join-IsToken (p ∷ q ∷ ps) h =
    Lacks-append 10 p _ h.0.no_line_feed
      (Lacks-append 10 space _ (omega arith, tt) (join-IsToken (q ∷ ps) h.1))

IsToken-Lacks : (ps : List Bytes) → All IsToken ps → All (Lacks 32) ps
IsToken-Lacks [] h = tt
IsToken-Lacks (p ∷ ps) h = (h.0.no_blank, IsToken-Lacks ps h.1)

filled-IsToken : (ps : List Bytes) → All IsToken ps → filled ps ≡ ps
filled-IsToken [] h = refl
filled-IsToken ([] ∷ ps) h = absurd (omega (arith, h.0.not_empty))
filled-IsToken ((c ∷ p) ∷ ps) h = ap (◌∷◌ (c ∷ p)) (filled-IsToken ps h.1)

pub read_request-words :
    (p : Bytes) (ps : List Bytes) (rest : Bytes)
    → All IsToken (p ∷ ps)
    → read_request (join space (p ∷ ps) ++ (crlf ++ rest)) ≡ some (p ∷ ps, rest)
unfolding read_request
read_request-words p ps rest h =
    rw
      (
        split_line-Lacks (join space (p ∷ ps)) rest (join-IsToken (p ∷ ps) h),
        read_request,
        without_cr-append (join space (p ∷ ps)),
        split_on-join 32 p ps (IsToken-Lacks (p ∷ ps) h),
        filled-IsToken (p ∷ ps) h,
      )
      refl

digit-IsWord : (s : Bytes) → All IsDigit s → IsWord s
digit-IsWord [] h = record { no_blank = tt; no_cr = tt }
digit-IsWord (c ∷ s) h =
    let t = digit-IsWord s h.1 in
    record { no_blank = (ground arith, t.no_blank); no_cr = (ground arith, t.no_cr) }

pub show-IsWord : (n : ℕ) → IsWord (show n)
show-IsWord n = digit-IsWord (show n) (show-All n)

Lacks-Among : (d : ℕ) (s : Bytes) → ((c : ℕ) → Among c s → c ≢ d) → Lacks d s
Lacks-Among d [] h = tt
Lacks-Among d (c ∷ s) h = (h c (inl refl), Lacks-Among d s (λ e a. h e (inr a)))

pub key-IsWord : (key : Bytes) → IsKey key → IsWord key
key-IsWord key k = record {
  no_blank = Lacks-Among 32 key k.no_blank;
  no_cr = Lacks-Among 13 key (λ c a e. k.no_control c a (inl (omega arith)));
}

pub key-IsToken : (key : Bytes) → IsKey key → IsToken key
key-IsToken key k = record {
  not_empty = k.filled;
  no_blank = Lacks-Among 32 key k.no_blank;
  no_line_feed = Lacks-Among 10 key (λ c a e. k.no_control c a (inl (omega arith)));
}

pub keys-IsToken : (keys : List Bytes) → All IsKey keys → All IsToken keys
keys-IsToken [] h = tt
keys-IsToken (k ∷ keys) h = (key-IsToken k h.0, keys-IsToken keys h.1)

digits-Lacks : (s : Bytes) → All IsDigit s → Lacks 10 s
digits-Lacks [] h = tt
digits-Lacks (c ∷ s) h = (ground arith, digits-Lacks s h.1)

has_byte : (s : Bytes) → s ≢ [] → 1 ≤ length s
has_byte [] h = absurd (h refl)
has_byte (c ∷ s) h = omega arith

pub show-IsToken : (n : ℕ) → IsToken (show n)
show-IsToken n = record {
  not_empty = has_byte (show n) (show_nonempty n);
  no_blank = (show-IsWord n).no_blank;
  no_line_feed = digits-Lacks (show n) (show-All n);
}

pub show_int-IsToken : (n : ℤ) → IsToken (show_int n)
unfolding show_int
show_int-IsToken (pos n) = show-IsToken n
show_int-IsToken (negsuc n) =
    let t = show-IsToken (suc n) in
    record {
      not_empty = omega arith;
      no_blank = (omega arith, t.no_blank);
      no_line_feed = (omega arith, t.no_line_feed);
    }

-- The words that the optional parts of a request add.
abbrev pub noreply_words : Bool → List Bytes
noreply_words true = codes "noreply" ∷ []
noreply_words false = []

abbrev pub cas_words : Option ℤ → List Bytes
cas_words none = []
cas_words (some c) = show_int c ∷ []

pub noreply-IsToken : (b : Bool) → All IsToken (noreply_words b)
noreply-IsToken true = (omega arith, tt)
noreply-IsToken false = tt
