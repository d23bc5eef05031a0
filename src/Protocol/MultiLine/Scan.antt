-- ===== src/Protocol/MultiLine/Scan.antt =====
-- The rounds of the parser's loop over a text that is cut into what was read and what is left.
use emcache.Prelude.{
  ℕ, zero, suc, ◌+◌, ◌-◌, ◌≡◌, refl, ◌≢◌, ◌≤◌, ◌<◌, sym, ap, ◌∙◌, true, false, [], ◌∷◌, ◌++◌, arith,
  Bytes, length, length-append, take, drop-append, take-append, ltb, bytes_eq,
}
use mathlib.Core.List.{append_assoc, append-nil}
use emcache.Protocol.Encode.{crlf}
use emcache.Protocol.Text.{Lacks}
use emcache.Protocol.Feeding.{Parsed, parsed}
use emcache.Protocol.MultiLine.{Columns, Cursor, read, parse_step, parse_loop}

abbrev pub at : ℕ → ℕ → Columns → Cursor
at start current columns = record {
  start_line_pos = start;
  current_pos = current;
  columns = columns;
}

-- A slice inside the buffer.
pub read-append :
    (heap : ℕ → ℕ) (pre value rest : Bytes)
    → read heap (pre ++ (value ++ rest)) (length pre) (length value) ≡ value
unfolding read
read-append heap pre value rest =
    rw (drop-append pre (value ++ rest), take-append value rest)
      (let e : length value - length value ≡ 0 = omega arith in rw e (append-nil value))

-- The loop ends five bytes before the end of the buffer.
pub loop_end :
    (heap : ℕ → ℕ) (b : Bytes) (fuel : ℕ) (c : Cursor)
    → length b ≤ c.current_pos + 5
    → parse_loop heap b fuel c ≡ parsed c.columns
unfolding parse_loop
loop_end heap b zero c h = ground arith
loop_end heap b (suc fuel) c h = ground arith

-- A round inside the buffer goes on from where `parse_step` comes to.
pub loop_step :
    (heap : ℕ → ℕ) (b : Bytes) (fuel : ℕ) (c c' : Cursor)
    → c.current_pos + 5 < length b
    → parse_step heap b c ≡ parsed c'
    → parse_loop heap b (suc fuel) c ≡ parse_loop heap b fuel c'
unfolding parse_loop
loop_step heap b fuel c c' h e =
    let t : ltb c.current_pos (length b - 5) ≡ true = ground arith in rw (parse_loop, t, e) refl

not_crlf : (x : ℕ) (rest : Bytes) → x ≢ 13 → bytes_eq (take 2 (x ∷ rest)) crlf ≡ false
unfolding bytes_eq
not_crlf x [] h = ground arith
not_crlf x (y ∷ rest) h = ground arith

step_over :
    (heap : ℕ → ℕ) (start : ℕ) (columns : Columns) (pre : Bytes) (x : ℕ) (rest : Bytes)
    → x ≢ 13
    → parse_step heap (pre ++ x ∷ rest) (at start (length pre) columns)
      ≡ parsed (at start (length pre + 1) columns)
unfolding parse_step
step_over heap start columns pre x rest h = rw (drop-append pre (x ∷ rest), not_crlf x rest h) refl

-- From the front of a line without CR the loop comes to the line's end.
pub scan :
    (heap : ℕ → ℕ) (start : ℕ) (columns : Columns) (result : Parsed Columns) (k : ℕ)
    (pre line tail b : Bytes) (fuel : ℕ)
    → b ≡ pre ++ (line ++ tail)
    → Lacks 13 line
    → 6 ≤ length tail
    → length line + k ≤ fuel
    → ((fuel' : ℕ)
        → k ≤ fuel'
        → parse_loop heap b fuel' (at start (length pre + length line) columns) ≡ result)
    → parse_loop heap b fuel (at start (length pre) columns) ≡ result
scan heap start columns result k pre [] tail b fuel e l t f go =
    let z : length pre + 0 ≡ length pre = omega arith in rw z at (go fuel (omega arith))
scan heap start columns result k pre (x ∷ line) tail b zero e l t f go = absurd (omega arith)
scan heap start columns result k pre (x ∷ line) tail b (suc fuel) e l t f go =
    let long : length pre + 5 < length b =
      omega (arith, ap length e, length-append pre (x ∷ (line ++ tail)), length-append line tail) in
    let moved : length (pre ++ x ∷ []) ≡ length pre + 1 =
      omega (arith, length-append pre (x ∷ [])) in
    let ends : length (pre ++ x ∷ []) + length line ≡ length pre + suc (length line) =
      omega (arith, moved) in
    let step : parse_step heap b (at start (length pre) columns)
        ≡ parsed (at start (length (pre ++ x ∷ [])) columns) =
      rw (e, moved) (step_over heap start columns pre x (line ++ tail) l.0) in
    loop_step heap b fuel _ _ long step
    ∙ scan heap start columns result k (pre ++ x ∷ []) line tail b fuel
        (e ∙ sym (append_assoc pre (x ∷ []) (line ++ tail))) l.1 t (omega arith)
        (λ fuel' h. rw ends (go fuel' h))
