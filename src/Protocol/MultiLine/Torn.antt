-- ===== src/Protocol/MultiLine/Torn.antt =====
-- A piece of a response that ends inside a value, right behind the bytes "END\r\n".
use emcache.Prelude.{
  ℕ, zero, suc, ◌+◌, ◌-◌, ◌≡◌, refl, ◌≤◌, ap, ◌∙◌, true, [], ◌∷◌, ◌++◌, arith, Bytes, codes, length,
  length-append, take, drop, drop-append, bytes_eq, pos,
}
use mathlib.Core.List.{append_assoc}
use emcache.Protocol.Text.{join, split_on}
use emcache.Protocol.Encode.{crlf, space}
use emcache.Protocol.Encode.Framing.{join-Lacks}
use emcache.Protocol.Feeding.{parsed}
use emcache.Protocol.MultiLine.{
  Columns, no_columns, new_multi_line, fill, read, parse_step, parse_item, parse_loop, parse,
  ends_end, feed_data,
}
use emcache.Protocol.MultiLine.Pieces.{ends_end-append, feed_end}
use emcache.Protocol.MultiLine.Scan.{at, loop_end, loop_step, scan}
use emcache.Protocol.MultiLine.RoundTrip.{
  Found, IsSendable, words, words-IsWord, item_words, parse_words_found, cas_column,
}

abbrev end : Bytes
end = codes "END\r\n"

-- A piece that ends inside the value of the first item: `value` is the part that has arrived.
abbrev pub cut_response : Found → Bytes → Bytes
cut_response f value = join space (words f) ++ (crlf ++ (value ++ codes "END\r\n"))

take_all : (n : ℕ) (xs : Bytes) → length xs ≤ n → take n xs ≡ xs
take_all zero [] h = refl
take_all zero (x ∷ xs) h = absurd (omega arith)
take_all (suc n) [] h = refl
take_all (suc n) (x ∷ xs) h = ap (◌∷◌ x) (take_all n xs (omega arith))

-- A slice that begins in the buffer and goes on behind it.
read_behind :
    (heap : ℕ → ℕ) (pre inside : Bytes) (n : ℕ)
    → length inside ≤ n
    → read heap (pre ++ inside) (length pre) n
      ≡ inside ++ fill heap (length pre + length inside) (n - length inside)
unfolding read
read_behind heap pre inside n h = rw (drop-append pre inside, take_all n inside h) refl

module _ (heap : ℕ → ℕ) (f : Found) (v w : Bytes) (s : IsSendable f)
    (split : f.value ≡ v ++ (codes "END\r\n" ++ w)) where
  line : Bytes
  line = join space (words f)

  -- The value that is read: its first part, the final line, and memory behind the buffer.
  abbrev torn : Bytes
  torn = (v ++ end) ++ fill heap (length (cut_response f v)) (length w)

  torn-read : read heap (cut_response f v) (length line + 2) (length f.value) ≡ torn
  unfolding line
  torn-read =
      let front : length (line ++ crlf) ≡ length line + 2 =
        omega (arith, length-append line crlf) in
      let size : length f.value - length (v ++ end) ≡ length w =
        omega (arith, ap length split, length-append v (end ++ w), length-append v end) in
      let room : length (v ++ end) ≤ length f.value =
        omega (arith, ap length split, length-append v (end ++ w), length-append v end) in
      let whole : (line ++ crlf) ++ (v ++ end) ≡ cut_response f v =
        append_assoc line crlf (v ++ end) in
      rw (← front, ← whole)
        (read_behind heap (line ++ crlf) (v ++ end) (length f.value) room
          ∙ rw (size, length-append (line ++ crlf) (v ++ end)) refl)

  torn_columns : Columns
  torn_columns = record {
    keys = f.key ∷ [];
    values = torn ∷ [];
    flags = pos f.flags ∷ [];
    cas = cas_column f.cas ∷ [];
  }

  torn-words : split_on 32 (take (length line - 0) (drop 0 (cut_response f v))) ≡ words f
  unfolding line
  torn-words =
      let z : 0 + length line - 0 ≡ length line - 0 = omega arith in
      rw z at (item_words [] (crlf ++ (v ++ end)) f s.word)

  torn-item :
      parse_item heap (cut_response f v) (at 0 (length line) no_columns)
      ≡ parsed (
          at
            (length line + 2 + length f.value + 2)
            (length line + 2 + length f.value + 2)
            torn_columns)
  unfolding torn_columns parse_item
  torn-item = rw torn-words (
      parse_words_found heap (cut_response f v) f.key (length f.value) f.flags f.cas _ torn s.small
        torn-read)

  torn-step :
      parse_step heap (cut_response f v) (at 0 (length line) no_columns)
      ≡ parsed (
          at
            (length line + 2 + length f.value + 2)
            (length line + 2 + length f.value + 2)
            torn_columns)
  unfolding line parse_step
  torn-step = rw (drop-append line (crlf ++ (v ++ end))) (unfold bytes_eq in torn-item)

  chunk_length : length (cut_response f v) ≡ length line + 2 + length v + 5
  unfolding line
  chunk_length = omega (arith, length-append line (crlf ++ (v ++ end)), length-append v end)

  value_length : length f.value ≡ length v + 5 + length w
  value_length = omega (arith, ap length split, length-append v (end ++ w), length-append end w)

  torn-round :
      (k : ℕ)
      → 1 ≤ k
      → parse_loop heap (cut_response f v) k (at 0 (length line) no_columns) ≡ parsed torn_columns
  torn-round zero h = absurd (omega arith)
  torn-round (suc k) h =
      loop_step heap (cut_response f v) k _ _ (omega (arith, chunk_length)) torn-step
      ∙ loop_end heap (cut_response f v) k _ (omega (arith, chunk_length, value_length))

  torn-parse : parse heap (cut_response f v) no_columns ≡ parsed torn_columns
  unfolding parse line
  torn-parse =
      scan heap 0 no_columns _ 1 [] line (crlf ++ (v ++ end)) (cut_response f v) _ refl
        (join-Lacks (words f) (words-IsWord f s.word)) (omega (arith, length-append v end))
        (omega (arith, chunk_length))
        (λ k h. let z : 0 + length line ≡ length line = omega arith in rw z (torn-round k h))

  torn-ends : ends_end (cut_response f v) ≡ true
  unfolding line
  torn-ends =
      let e : ((line ++ crlf) ++ v) ++ end ≡ cut_response f v =
        append_assoc (line ++ crlf) v end ∙ append_assoc line crlf (v ++ end) in
      rw e at (ends_end-append ((line ++ crlf) ++ v))

  -- If the first piece of a response ends inside the value of its first item, right behind the bytes
  -- "END\r\n" in that value, then a new parser takes the response for complete. It has that item only,
  -- with a value whose last bytes, as many as have not arrived, are read from the memory behind the
  -- buffer.
  pub feed_data-torn :
      feed_data heap new_multi_line (cut_response f v)
      ≡ parsed (record {
        buffer = cut_response f v;
        columns = record {
          keys = f.key ∷ [];
          values =
              ((v ++ codes "END\r\n") ++ fill heap (length (cut_response f v)) (length w)) ∷ [];
          flags = pos f.flags ∷ [];
          cas = cas_column f.cas ∷ [];
        };
        done = true;
      })
  unfolding torn_columns
  feed_data-torn = feed_end heap [] (cut_response f v) no_columns torn_columns torn-ends torn-parse
