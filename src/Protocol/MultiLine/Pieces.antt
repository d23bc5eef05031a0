-- ===== src/Protocol/MultiLine/Pieces.antt =====
-- Responses that arrive in pieces: when the parser takes one for complete.
use emcache.Prelude.{
  ℕ, ◌-◌, ◌≡◌, refl, sym, ap, ◌∙◌, true, false, List, [], ◌∷◌, ◌++◌, arith, Bytes, codes, All,
  length, length-append, drop-append, leb, bytes_eq_refl,
}
use mathlib.Core.List.{append_assoc, append-nil, flatten}
use emcache.Protocol.Text.{join}
use emcache.Protocol.Encode.{crlf, space}
use emcache.Protocol.Feeding.{parsed, feed_all, feed_all-cons, NotEarly}
use emcache.Protocol.MultiLine.{Columns, no_columns, new_multi_line, parse, ends_end, feed_data}
use emcache.Protocol.MultiLine.RoundTrip.{
  Found, IsSendable, words, respond, with_items, parse-respond,
}

abbrev end : Bytes
end = codes "END\r\n"

pub ends_end-append : (x : Bytes) → ends_end (x ++ end) ≡ true
unfolding ends_end
ends_end-append x =
    let k : length (x ++ end) - 5 ≡ length x = omega (arith, length-append x end) in
    let l : leb 5 (length (x ++ end)) ≡ true = ground (arith, length-append x end) in
    rw (k, drop-append x end, l) (bytes_eq_refl end)

-- What stands before the final line of a response.
body : List Found → Bytes
body [] = []
body (f ∷ fs) = join space (words f) ++ (crlf ++ (f.value ++ (crlf ++ body fs)))

respond-body : (fs : List Found) → respond fs ≡ body fs ++ end
unfolding respond body
respond-body [] = refl
respond-body (f ∷ fs) = rw (respond-body fs) (simp append_assoc)

pub feed_end :
    (heap : ℕ → ℕ) (b c : Bytes) (columns after : Columns)
    → ends_end (b ++ c) ≡ true
    → parse heap (b ++ c) columns ≡ parsed after
    → feed_data heap (record { buffer = b; columns = columns; done = false }) c
      ≡ parsed (record { buffer = b ++ c; columns = after; done = true })
unfolding feed_data
feed_end heap b c columns after e q = rw (e, q) refl

feed_more :
    (heap : ℕ → ℕ) (b c : Bytes) (columns : Columns)
    → ends_end (b ++ c) ≡ false
    → feed_data heap (record { buffer = b; columns = columns; done = false }) c
      ≡ parsed (record { buffer = b ++ c; columns = columns; done = false })
unfolding feed_data
feed_more heap b c columns e = rw e refl

feeds :
    (heap : ℕ → ℕ) (fs : List Found) (b c : Bytes) (cs : List Bytes)
    → All IsSendable fs
    → b ++ (c ++ flatten cs) ≡ respond fs
    → NotEarly ends_end b (c ∷ cs)
    → feed_all (feed_data heap) (record { buffer = b; columns = no_columns; done = false }) (c ∷ cs)
      ≡ parsed (record { buffer = respond fs; columns = with_items no_columns fs; done = true })
unfolding flatten feed_all
feeds heap fs b c [] s e n =
    let whole : b ++ c ≡ respond fs = ap (◌++◌ b) (sym (append-nil c)) ∙ e in
    feed_all-cons (feed_data heap) _ _ c [] (
      rw (← whole) (
        feed_end heap b c no_columns (with_items no_columns fs)
          (rw (whole, respond-body fs) (ends_end-append (body fs)))
          (rw whole (parse-respond heap fs s))))
feeds heap fs b c (d ∷ cs) s e n =
    feed_all-cons (feed_data heap) (record { buffer = b; columns = no_columns; done = false }) _ c
      (d ∷ cs) (feed_more heap b c no_columns n.0)
    ∙ feeds heap fs (b ++ c) d cs s (append_assoc b c (d ++ flatten cs) ∙ e) n.1

-- A response of a server that arrives in pieces, where no piece but the last makes the text so far
-- end in "END\r\n", is complete when the last piece arrives, and the columns are the items' keys,
-- values, flags and cas numbers.
pub feed_all-respond :
    (heap : ℕ → ℕ) (fs : List Found) (c : Bytes) (cs : List Bytes)
    → All IsSendable fs
    → c ++ flatten cs ≡ respond fs
    → NotEarly ends_end [] (c ∷ cs)
    → feed_all (feed_data heap) new_multi_line (c ∷ cs)
      ≡ parsed (record { buffer = respond fs; columns = with_items no_columns fs; done = true })
feed_all-respond heap fs c cs s e n = feeds heap fs [] c cs s e n
