-- ===== src/Protocol/OneLine/Reply.antt =====
-- A reply of one line is found again, in whatever pieces it arrives.
use emcache.Prelude.{
  ℕ, zero, suc, ◌-◌, ◌≡◌, refl, ◌≢◌, sym, ap, ◌∙◌, Bool, true, false, List, [], ◌∷◌, ◌++◌, arith,
  Bytes, All, length, length-append, drop, drop-append, take-append, bytes_eq, bytes_eq_refl,
}
use mathlib.Core.List.{flatten, append_assoc, append-nil}
use emcache.Protocol.Encode.{crlf}
use emcache.Protocol.Text.{Lacks, Lacks-append}
use emcache.Protocol.Feeding.{parsed, feed_all, feed_all-cons}
use emcache.Protocol.OneLine.{OneLine, new_one_line, ends_crlf, feed_data, value}

abbrev pub NotEmpty : Bytes → Type 0
NotEmpty c = c ≢ []

drop-Lacks : (k : ℕ) (b : Bytes) → Lacks 10 b → Lacks 10 (drop k b)
drop-Lacks zero b h = h
drop-Lacks (suc k) [] h = tt
drop-Lacks (suc k) (c ∷ b) h = drop-Lacks k b h.1

not_crlf : (b : Bytes) → Lacks 10 b → bytes_eq b crlf ≡ false
unfolding bytes_eq
not_crlf [] h = refl
not_crlf (c ∷ []) h = ground arith
not_crlf (c ∷ d ∷ []) h = ground arith
not_crlf (c ∷ d ∷ e ∷ b) h = ground arith

ends_crlf-Lacks : (before : ℕ) (b : Bytes) → Lacks 10 b → ends_crlf before b ≡ false
unfolding ends_crlf
ends_crlf-Lacks before [] h = refl
ends_crlf-Lacks before (c ∷ []) h = unfold bytes_eq in ground arith
ends_crlf-Lacks before (c ∷ d ∷ s) h = not_crlf _ (drop-Lacks (length s) (c ∷ d ∷ s) h)

pub ends_crlf-line : (before : ℕ) (line : Bytes) → ends_crlf before (line ++ crlf) ≡ true
unfolding ends_crlf
ends_crlf-line before [] = bytes_eq_refl crlf
ends_crlf-line before (c ∷ []) = bytes_eq_refl crlf
ends_crlf-line before (c ∷ d ∷ line) =
    let e : length (line ++ crlf) ≡ suc (suc (length line)) =
      omega (arith, length-append line crlf) in
    rw e (rw (drop-append line crlf) (bytes_eq_refl crlf))

-- What stands before more text, in a text whose only newline is the last byte, has no newline.
before-Lacks :
    (b rest body : Bytes) → b ++ rest ≡ body ++ 10 ∷ [] → NotEmpty rest → Lacks 10 body → Lacks 10 b
before-Lacks [] rest body e n h = tt
before-Lacks (x ∷ []) rest [] e n h = absurd (n (cc))
before-Lacks (x ∷ y ∷ b) rest [] e n h = cc
before-Lacks (x ∷ b) rest (y ∷ body) e n h = (λ q. h.0 (cc), before-Lacks b rest body (cc) n h.1)

pub feed_last :
    (before : ℕ) (line b c : Bytes)
    → b ++ c ≡ line ++ crlf
    → feed_data before (record { buffer = b; done = false }) c
      ≡ parsed (record { buffer = line ++ crlf; done = true })
unfolding feed_data
feed_last before line b c e = rw (e, ends_crlf-line before line) refl

feed_early :
    (before : ℕ) (b c : Bytes)
    → Lacks 10 (b ++ c)
    → feed_data before (record { buffer = b; done = false }) c
      ≡ parsed (record { buffer = b ++ c; done = false })
unfolding feed_data
feed_early before b c h = rw (ends_crlf-Lacks before (b ++ c) h) refl

append_nil_left : (d x : Bytes) → d ++ x ≡ [] → d ≡ []
append_nil_left [] x e = refl
append_nil_left (c ∷ d) x e = cc

feeds :
    (before : ℕ) (line b c : Bytes) (cs : List Bytes)
    → Lacks 10 line
    → b ++ (c ++ flatten cs) ≡ line ++ crlf
    → All NotEmpty cs
    → feed_all (feed_data before) (record { buffer = b; done = false }) (c ∷ cs)
      ≡ parsed (record { buffer = line ++ crlf; done = true })
unfolding flatten feed_all
feeds before line b c [] l e n =
    feed_all-cons (feed_data before) (record { buffer = b; done = false }) _ c []
      (feed_last before line b c (ap (◌++◌ b) (sym (append-nil c)) ∙ e))
feeds before line b c (d ∷ cs) l e n =
    let e' : (b ++ c) ++ (d ++ flatten cs) ≡ line ++ crlf =
      append_assoc b c (d ++ flatten cs) ∙ e in
    let early : Lacks 10 (b ++ c) =
      before-Lacks (b ++ c) (d ++ flatten cs) (line ++ 13 ∷ [])
        (e' ∙ sym (append_assoc line (13 ∷ []) (10 ∷ [])))
        (λ q. n.0 (append_nil_left d (flatten cs) q))
        (Lacks-append 10 line (13 ∷ []) l (omega arith, tt)) in
    feed_all-cons (feed_data before) (record { buffer = b; done = false }) _ c (d ∷ cs)
      (feed_early before b c early)
    ∙ feeds before line (b ++ c) d cs l e' n.1

pub value-line :
    (line : Bytes) (b : Bool) → value (record { buffer = line ++ crlf; done = b }) ≡ line
unfolding value
value-line line b =
    let k : length (line ++ crlf) - 2 ≡ length line = omega (arith, length-append line crlf) in
    rw k (take-append line crlf)

-- A reply of one line, of any bytes but the newline, is complete when its last piece arrives and not
-- before, however it was cut into pieces, and `value` is the line without its CRLF. The byte in
-- front of the buffer does not matter.
pub feed_all-reply :
    (before : ℕ) (line c : Bytes) (cs : List Bytes)
    → Lacks 10 line
    → c ++ flatten cs ≡ line ++ crlf
    → All NotEmpty cs
    → (p : OneLine) × (feed_all (feed_data before) new_one_line (c ∷ cs) ≡ parsed p)
      × (p.done ≡ true)
      × (value p ≡ line)
feed_all-reply before line c cs l e n = (
  record { buffer = line ++ crlf; done = true },
  feeds before line [] c cs l e n,
  refl,
  value-line line true,
)
