-- ===== src/Protocol/MultiLine/RoundTrip.antt =====
-- A server's response to a fetch is parsed back into the items that it was made of.
use emcache.Prelude.{
  ℕ, zero, suc, ◌+◌, ◌-◌, ◌^◌, ◌≡◌, refl, ◌≤◌, ◌<◌, sym, ap, ◌∙◌, true, Option, none, some, List,
  [], ◌∷◌, ◌++◌, arith, Bytes, codes, All, length, length-append, take, drop, drop-append,
  take-append, ltb, bytes_eq, ℤ, pos,
}
use mathlib.Core.List.{append_assoc}
use emcache.Decimal.{show}
use emcache.Decimal.RoundTrip.{int_of-show}
use emcache.Protocol.Text.{join, split_on, split_on-join}
use emcache.Protocol.Encode.{crlf, space}
use emcache.Protocol.Encode.Framing.{IsWord, show-IsWord, join-Lacks, All-no_blank}
use emcache.Protocol.Feeding.{Parsed, parsed}
use emcache.Protocol.MultiLine.{
  Columns, no_columns, Cursor, read, parse_step, parse_words, parse_item, parse_loop, parse,
}
use emcache.Protocol.MultiLine.Scan.{at, read-append, loop_end, loop_step, scan}

-- An item that a server has.
pub record Found : Type 0 where
  pub key : Bytes
  pub value : Bytes
  pub flags : ℕ
  pub cas : Option ℕ

-- The key is one word and the value's size is a C `int`; the value may be any bytes.
pub record IsSendable (f : Found) : Type 0 where
  pub word : IsWord f.key
  pub small : length f.value < 2 ^ 31

abbrev pub cas_column : Option ℕ → Option ℤ
cas_column none = none
cas_column (some n) = some (pos n)

abbrev pub cas_word : Option ℕ → List Bytes
cas_word none = []
cas_word (some n) = show n ∷ []

abbrev pub words : Found → List Bytes
words f = codes "VALUE" ∷ f.key ∷ show f.flags ∷ show (length f.value) ∷ cas_word f.cas

-- memcached's response to `get` and `gets`: "VALUE <key> <flags> <bytes> [<cas>]\r\n<value>\r\n" for
-- each item, and "END\r\n".
unfoldable pub respond : List Found → Bytes
respond [] = codes "END\r\n"
respond (f ∷ fs) = join space (words f) ++ (crlf ++ (f.value ++ (crlf ++ respond fs)))

-- The columns with the items behind them.
abbrev pub with_items : Columns → List Found → Columns
with_items c [] = c
with_items c (f ∷ fs) =
    with_items
      (record {
        keys = c.keys ++ f.key ∷ [];
        values = c.values ++ f.value ∷ [];
        flags = c.flags ++ pos f.flags ∷ [];
        cas = c.cas ++ cas_column f.cas ∷ [];
      })
      fs

pub words-IsWord : (f : Found) → IsWord f.key → All IsWord (words f)
words-IsWord f w = go f.cas
  where
    go :
        (cas : Option ℕ)
        → All IsWord (codes "VALUE" ∷ f.key ∷ show f.flags ∷ show (length f.value) ∷ cas_word cas)
    go none = (omega arith, (w, (show-IsWord f.flags, (show-IsWord (length f.value), tt))))
    go (some n) = (
      omega arith,
      (w, (show-IsWord f.flags, (show-IsWord (length f.value), (show-IsWord n, tt)))),
    )

-- The text of an item, behind what was read before it.
abbrev placed : Bytes → Found → Bytes → Bytes
placed pre f tail = pre ++ (join space (words f) ++ (crlf ++ (f.value ++ (crlf ++ tail))))

pub item_words :
    (pre rest : Bytes) (f : Found)
    → IsWord f.key
    → let n = length (join space (words f)) in
      split_on 32 (
        take
          (length pre + n - length pre)
          (drop (length pre) (pre ++ (join space (words f) ++ rest))))
      ≡ words f
item_words pre rest f w =
    let n = length (join space (words f)) in
    let e : length pre + n - length pre ≡ n = omega arith in
    rw (e, drop-append pre (join space (words f) ++ rest), take-append (join space (words f)) rest)
      (split_on-join 32 _ _ (All-no_blank (words f) (words-IsWord f w)))

item_value :
    (heap : ℕ → ℕ) (pre tail : Bytes) (f : Found)
    → read heap
        (placed pre f tail)
        (length pre + length (join space (words f)) + 2)
        (length f.value)
      ≡ f.value
item_value heap pre tail f =
    let line = join space (words f) in
    let before = pre ++ (line ++ crlf) in
    let e : length before ≡ length pre + length line + 2 =
      omega (arith, length-append pre (line ++ crlf), length-append line crlf) in
    let cut : placed pre f tail ≡ before ++ (f.value ++ (crlf ++ tail)) = sym (
      append_assoc pre (line ++ crlf) (f.value ++ (crlf ++ tail))
      ∙ ap (◌++◌ pre) (append_assoc line crlf (f.value ++ (crlf ++ tail)))) in
    rw (← e, cut) (read-append heap before f.value (crlf ++ tail))

-- The item that a line announces, whatever bytes stand where its value should.
pub parse_words_found :
    (heap : ℕ → ℕ) (b key : Bytes) (size flags : ℕ) (cas : Option ℕ) (c : Cursor) (value : Bytes)
    → size < 2 ^ 31
    → read heap b (c.current_pos + 2) size ≡ value
    → let next = c.current_pos + 2 + size + 2 in
      parse_words heap b c (codes "VALUE" ∷ key ∷ show flags ∷ show size ∷ cas_word cas)
      ≡ parsed (
          at next next (record {
            keys = c.columns.keys ++ key ∷ [];
            values = c.columns.values ++ value ∷ [];
            flags = c.columns.flags ++ pos flags ∷ [];
            cas = c.columns.cas ++ cas_column cas ∷ [];
          }))
unfolding parse_words
parse_words_found heap b key size flags none c value h e =
    let t : ltb size (2 ^ 31) ≡ true = ground arith in
    rw (int_of-show size, int_of-show flags, t, e) refl
parse_words_found heap b key size flags (some n) c value h e =
    let t : ltb size (2 ^ 31) ≡ true = ground arith in
    rw (int_of-show n, int_of-show size, int_of-show flags, t, e) refl

parse_found :
    (heap : ℕ → ℕ) (pre tail : Bytes) (columns : Columns) (f : Found)
    → IsSendable f
    → let n = length pre + length (join space (words f)) in
      let next = n + 2 + length f.value + 2 in
      parse_item heap (placed pre f tail) (at (length pre) n columns)
      ≡ parsed (at next next (with_items columns (f ∷ [])))
unfolding parse_item
parse_found heap pre tail columns f s =
    rw (item_words pre (crlf ++ (f.value ++ (crlf ++ tail))) f s.word) (
      parse_words_found heap (placed pre f tail) f.key (length f.value) f.flags f.cas _ f.value
        s.small (item_value heap pre tail f))

item_step :
    (heap : ℕ → ℕ) (pre tail : Bytes) (columns : Columns) (f : Found)
    → IsSendable f
    → let n = length pre + length (join space (words f)) in
      let next = n + 2 + length f.value + 2 in
      parse_step heap (placed pre f tail) (at (length pre) n columns)
      ≡ parsed (at next next (with_items columns (f ∷ [])))
unfolding parse_step bytes_eq
item_step heap pre tail columns f s =
    let line = join space (words f) in
    let rest = crlf ++ (f.value ++ (crlf ++ tail)) in
    let e : length (pre ++ line) ≡ length pre + length line =
      omega (arith, length-append pre line) in
    let cut : drop (length pre + length line) (placed pre f tail) ≡ rest =
      rw (← e, ← append_assoc pre line rest) (drop-append (pre ++ line) rest) in
    rw cut (unfold bytes_eq in parse_found heap pre tail columns f s)

-- The round at the end of an item's line.
loop_item :
    (heap : ℕ → ℕ) (pre tail : Bytes) (columns : Columns) (f : Found) (result : Parsed Columns)
    (fuel : ℕ)
    → IsSendable f
    → 5 ≤ length tail
    → let next = length pre + length (join space (words f)) + 2 + length f.value + 2 in
      ((k : ℕ)
        → length tail ≤ k
        → parse_loop heap (placed pre f tail) k (at next next (with_items columns (f ∷ [])))
          ≡ result)
      → 2 + length f.value + 2 + length tail ≤ fuel
      → parse_loop heap
          (placed pre f tail)
          fuel
          (at (length pre) (length pre + length (join space (words f))) columns)
        ≡ result
loop_item heap pre tail columns f result zero s t go h = absurd (omega arith)
loop_item heap pre tail columns f result (suc fuel) s t go h =
    let line = join space (words f) in
    loop_step heap (placed pre f tail) fuel _ _
      (omega (
        arith,
        length-append pre (line ++ (crlf ++ (f.value ++ (crlf ++ tail)))),
        length-append line (crlf ++ (f.value ++ (crlf ++ tail))),
        length-append f.value (crlf ++ tail),
      ))
      (item_step heap pre tail columns f s)
    ∙ go fuel (omega arith)

respond-length : (fs : List Found) → 5 ≤ length (respond fs)
unfolding respond
respond-length [] = omega arith
respond-length (f ∷ fs) = omega (
  arith,
  respond-length fs,
  length-append (join space (words f)) (crlf ++ (f.value ++ (crlf ++ respond fs))),
  length-append f.value (crlf ++ respond fs),
)

loop_respond :
    (heap : ℕ → ℕ) (pre b : Bytes) (columns : Columns) (fs : List Found) (fuel : ℕ)
    → b ≡ pre ++ respond fs
    → All IsSendable fs
    → length (respond fs) ≤ fuel
    → parse_loop heap b fuel (at (length pre) (length pre) columns) ≡ parsed (with_items columns fs)
unfolding respond
loop_respond heap pre b columns [] fuel e s h =
    loop_end heap b fuel _ (omega (arith, ap length e, length-append pre (codes "END\r\n")))
loop_respond heap pre b columns (f ∷ fs) fuel e s h =
    let line = join space (words f) in
    let tail = respond fs in
    let rest = crlf ++ (f.value ++ (crlf ++ tail)) in
    let size : length rest ≡ 2 + length f.value + 2 + length tail =
      omega (arith, length-append f.value (crlf ++ tail)) in
    let before = pre ++ (line ++ (crlf ++ (f.value ++ crlf))) in
    let moved : length before ≡ length pre + length line + 2 + length f.value + 2 = omega (
      arith,
      length-append pre (line ++ (crlf ++ (f.value ++ crlf))),
      length-append line (crlf ++ (f.value ++ crlf)),
      length-append f.value crlf,
    ) in
    let cut : placed pre f tail ≡ before ++ tail = simp append_assoc in
    rw e (
      scan heap (length pre) columns _ (length rest) pre line rest (placed pre f tail) fuel refl
        (join-Lacks (words f) (words-IsWord f s.0.word)) (omega (arith, respond-length fs))
        (omega (arith, length-append line rest))
        (λ k room.
          loop_item heap pre tail columns f _ k s.0 (respond-length fs)
            (λ j enough.
              rw (← moved) (loop_respond heap before (placed pre f tail) _ fs j cut s.1 enough))
            (omega arith)))

-- The parser, given the response of a server that sends some items, returns exactly their keys,
-- values, flags and cas numbers, in their order, whatever bytes the values are made of. The keys
-- have no blank and no CR, and the values are shorter than 2 ^ 31 bytes.
pub parse-respond :
    (heap : ℕ → ℕ) (fs : List Found)
    → All IsSendable fs
    → parse heap (respond fs) no_columns ≡ parsed (with_items no_columns fs)
unfolding parse
parse-respond heap fs s = loop_respond heap [] (respond fs) no_columns fs _ refl s (omega arith)
