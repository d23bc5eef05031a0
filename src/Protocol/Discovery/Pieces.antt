-- ===== src/Protocol/Discovery/Pieces.antt =====
-- A response of a configuration server that arrives in pieces.
use emcache.Prelude.{
  ℕ, ◌-◌, ◌≡◌, refl, ◌≢◌, ◌≤◌, All-imp, sym, ap, subst, ◌∙◌, arith, Bool, true, false, Option, List,
  [], ◌∷◌, ◌++◌, Bytes, codes, bytes_eq→eq, All, length, take, drop, take-drop,
}
use mathlib.Core.List.{append_assoc}
use emcache.Decimal.{show}
use emcache.Decimal.RoundTrip.{IsDigit, show-All}
use emcache.Protocol.Text.{Lacks, Lacks-append}
use emcache.Protocol.Feeding.{raised, assertion_error, feed_all}
use emcache.Protocol.Discovery.{Text, new_discovery, ends_with, feed_data}
use emcache.Protocol.Discovery.Respond.{
  Advertised, IsNamed, IsLineByte, config_lines, respond, line_of, line_of-All,
}

-- Nothing follows the bytes `l`, CR and newline.
abbrev NothingAfter : ℕ → Bytes → Type 0
NothingAfter l [] = Unit
NothingAfter l (a ∷ s) = (a ≡ l → (t : Bytes) → s ≡ 13 ∷ 10 ∷ t → t ≡ []) × NothingAfter l s

NothingAfter-end : (l : ℕ) (x d : Bytes) → NothingAfter l (x ++ l ∷ 13 ∷ 10 ∷ d) → d ≡ []
NothingAfter-end l [] d h = h.0 refl d refl
NothingAfter-end l (a ∷ x) d h = NothingAfter-end l x d h.1

NothingAfter-Lacks : (l : ℕ) (p q : Bytes) → Lacks l p → NothingAfter l q → NothingAfter l (p ++ q)
NothingAfter-Lacks l [] q h n = n
NothingAfter-Lacks l (a ∷ p) q h n = ((λ e. absurd (h.0 e)), NothingAfter-Lacks l p q h.1 n)

-- In front of a newline that no CR precedes.
NothingAfter-newline :
    (l : ℕ) (p q : Bytes) → l ≢ 10 → Lacks 13 p → NothingAfter l q → NothingAfter l (p ++ 10 ∷ q)
NothingAfter-newline l [] q k h n = ((λ e. absurd (k (sym e))), n)
NothingAfter-newline l (a ∷ []) q k h n = ((λ _ t e. cc), NothingAfter-newline l [] q k h.1 n)
NothingAfter-newline l (a ∷ b ∷ p) q k h n =
    ((λ _ t e. absurd (h.1.0 (cc))), NothingAfter-newline l (b ∷ p) q k h.1 n)

ends_with→append :
    (suffix s : Bytes) → ends_with suffix s ≡ true → s ≡ take (length s - length suffix) s ++ suffix
unfolding ends_with
ends_with→append suffix s h =
    let e : drop (length s - length suffix) s ≡ suffix = bytes_eq→eq _ suffix (ground arith) in
    sym (take-drop (length s - length suffix) s)
    ∙ ap (λ d. take (length s - length suffix) s ++ d) e

abbrev tail : Bytes
tail = codes "\r\nEND\r\n"

lines-Lacks :
    (version : ℕ) (nodes : List Advertised)
    → All IsNamed nodes
    → Lacks 13 (config_lines version nodes)
unfolding config_lines
lines-Lacks version nodes n =
    Lacks-append 13 (show version) _
      (All-imp IsDigit (λ c. c ≢ 13) (show version) (λ c h. ground arith) (show-All version))
      (
        omega arith,
        All-imp IsLineByte (λ c. c ≢ 13) (line_of nodes) (λ c h. h.2) (line_of-All nodes n),
      )

-- `l` stands for the letter at the end of END or ERROR.
module _ (l : ℕ) (letter : 58 ≤ l) (absent : Lacks l (codes "CONFIG cluster 0 "))
    (last : NothingAfter l tail) where
  respond-NothingAfter :
      (version : ℕ) (nodes : List Advertised)
      → All IsNamed nodes
      → NothingAfter l (respond version nodes)
  unfolding respond
  respond-NothingAfter version nodes n =
      let lines = config_lines version nodes in
      let size = show (length (lines ++ 10 ∷ [])) in
      let rest : NothingAfter l ((lines ++ 10 ∷ []) ++ tail) =
        subst (NothingAfter l) (sym (append_assoc lines (10 ∷ []) tail))
          (NothingAfter-newline l lines tail (omega arith) (lines-Lacks version nodes n) last) in
      NothingAfter-Lacks l (codes "CONFIG cluster 0 ") _ absent (
        NothingAfter-Lacks l size _
          (All-imp IsDigit (λ c. c ≢ l) size (λ c h. ground arith) (show-All _))
          ((λ e. absurd (omega arith)), ((λ e. absurd (omega arith)), rest)))

  cut_complete :
      (version : ℕ) (nodes : List Advertised) (before c d : Bytes)
      → All IsNamed nodes
      → c ++ d ≡ respond version nodes
      → ends_with (before ++ l ∷ 13 ∷ 10 ∷ []) c ≡ true
      → d ≡ []
  cut_complete version nodes before c d n e h =
      let suffix = before ++ l ∷ 13 ∷ 10 ∷ [] in
      let x = take (length c - length suffix) c in
      let moved : c ++ d ≡ (x ++ before) ++ l ∷ 13 ∷ 10 ∷ d =
        ap (λ y. y ++ d) (ends_with→append suffix c h) ∙ simp append_assoc in
      NothingAfter-end l (x ++ before) d
        (subst (NothingAfter l) (sym e ∙ moved) (respond-NothingAfter version nodes n))

feed_incomplete :
    (decode : Bytes → Option Text) (c : Bytes)
    → ends_with (codes "END\r\n") c ≡ false
    → ends_with (codes "ERROR\r\n") c ≡ false
    → feed_data decode new_discovery c ≡ raised assertion_error
unfolding feed_data
feed_incomplete decode c e f = rw (e, f) refl

incomplete : (b : Bool) (d : Bytes) → d ≢ [] → (b ≡ true → d ≡ []) → b ≡ false
incomplete true d n h = absurd (n (h refl))
incomplete false d n h = refl

-- The parser does not wait for the rest: whatever the configuration server advertises, and wherever
-- the response is cut, the first piece raises `AssertionError`.
pub feed_all-cut :
    (decode : Bytes → Option Text) (version : ℕ) (nodes : List Advertised) (c d : Bytes)
    (cs : List Bytes)
    → All IsNamed nodes
    → c ++ d ≡ respond version nodes
    → d ≢ []
    → feed_all (feed_data decode) new_discovery (c ∷ cs) ≡ raised assertion_error
unfolding feed_all
feed_all-cut decode version nodes c d cs named e n =
    let no_end : ends_with (codes "END\r\n") c ≡ false = incomplete _ d n (
      cut_complete 68 (omega arith) (omega arith)
        (
          (λ e. absurd (omega arith)),
          (
            (λ e. absurd (omega arith)),
            (
              (λ e. absurd (omega arith)),
              (
                (λ e. absurd (omega arith)),
                ((λ _ t e. cc), ((λ e. absurd (omega arith)), ((λ e. absurd (omega arith)), tt))),
              ),
            ),
          ),
        )
        version nodes (codes "EN") c d named e) in
    let no_error : ends_with (codes "ERROR\r\n") c ≡ false = incomplete _ d n (
      cut_complete 82 (omega arith) (omega arith)
        (
          (λ e. absurd (omega arith)),
          (
            (λ e. absurd (omega arith)),
            (
              (λ e. absurd (omega arith)),
              (
                (λ e. absurd (omega arith)),
                (
                  (λ e. absurd (omega arith)),
                  ((λ e. absurd (omega arith)), ((λ e. absurd (omega arith)), tt)),
                ),
              ),
            ),
          ),
        )
        version nodes (codes "ERRO") c d named e) in
    rw (feed_incomplete decode c no_end no_error, feed_all) refl
