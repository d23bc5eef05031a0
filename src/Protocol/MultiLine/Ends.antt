-- ===== src/Protocol/MultiLine/Ends.antt =====
-- The parser's loop ends, with positions as natural numbers.
use emcache.Prelude.{
  ℕ, zero, suc, ◌+◌, ◌-◌, ◌^◌, ◌≡◌, ◌≢◌, ◌≤◌, ◌<◌, false, Option, none, some, List, [], ◌∷◌, arith,
  Bytes, length, ltb, bytes_eq, take, drop, get_elem?, Bool-cases, inl, inr, ℤ, pos, negsuc,
}
use emcache.Decimal.{int_of}
use emcache.Protocol.Encode.{crlf}
use emcache.Protocol.Feeding.{
  Raised, Parsed, parsed, raised, index_error, value_error, out_of_fuel, ◌>>=◌,
}
use emcache.Protocol.MultiLine.{
  Columns, Cursor, or_raise, to_c_int, cas_of, value_at, parse_words, parse_item, parse_step,
  parse_loop, parse,
}

-- A round moves on, or raises one of Python's exceptions.
abbrev Advances : ℕ → Parsed Cursor → Type 0
Advances n (parsed c) = n < c.current_pos
Advances n (raised e) = e ≢ out_of_fuel

abbrev RaisesPython {ℓ} : {A : Type ℓ} → Parsed A → Type 0
RaisesPython (parsed a) = Unit
RaisesPython (raised e) = e ≢ out_of_fuel

Advances-bind {ℓ} :
    {A : Type ℓ} (n : ℕ) (m : Parsed A) (f : A → Parsed Cursor)
    → RaisesPython m
    → ((a : A) → Advances n (f a))
    → Advances n (m >>= f)
Advances-bind n (parsed a) f h k = k a
Advances-bind n (raised e) f h k = h

or_raise-RaisesPython {ℓ} :
    {A : Type ℓ} (o : Option A) (e : Raised) → e ≢ out_of_fuel → RaisesPython (or_raise o e)
or_raise-RaisesPython none e h = h
or_raise-RaisesPython (some a) e h = tt

to_c_int-RaisesPython : (n : ℤ) → RaisesPython (to_c_int n)
unfolding to_c_int
to_c_int-RaisesPython (pos n) = elim (Bool-cases (ltb n (2 ^ 31))) [
  | inl e ↦ rw e tt
  | inr e ↦ rw e (λ q. cc)
]
to_c_int-RaisesPython (negsuc n) = elim (Bool-cases (ltb n (2 ^ 31))) [
  | inl e ↦ rw e tt
  | inr e ↦ rw e (λ q. cc)
]

cas_of-RaisesPython : (items : List Bytes) → RaisesPython (cas_of items)
unfolding cas_of
cas_of-RaisesPython (a ∷ b ∷ c ∷ d ∷ e ∷ []) = last (int_of e)
  where
    last : (o : Option ℤ) → RaisesPython (or_raise o value_error >>= λ n. parsed (some n))
    last none = λ q. cc
    last (some n) = tt
cas_of-RaisesPython _ = tt

value_at-RaisesPython :
    (heap : ℕ → ℕ) (b : Bytes) (n : ℕ) (size : ℤ) → RaisesPython (value_at heap b n size)
unfolding value_at
value_at-RaisesPython heap b n (pos k) = tt
value_at-RaisesPython heap b n (negsuc k) = λ q. cc

parse_words-Advances :
    (heap : ℕ → ℕ) (b : Bytes) (c : Cursor) (items : List Bytes)
    → Advances c.current_pos (parse_words heap b c items)
unfolding parse_words
parse_words-Advances heap b c items =
    Advances-bind _ _ _ (or_raise-RaisesPython (get_elem? items 1) index_error (λ q. cc)) λ key.
      Advances-bind _ _ _ (or_raise-RaisesPython (get_elem? items 2) index_error (λ q. cc)) λ flags.
        Advances-bind _ _ _ (or_raise-RaisesPython (get_elem? items 3) index_error (λ q. cc))
          λ size. Advances-bind _ _ _ (cas_of-RaisesPython items) λ cas.
            Advances-bind _ _ _ (or_raise-RaisesPython (int_of size) value_error (λ q. cc))
              λ size_number. Advances-bind _ _ _ (to_c_int-RaisesPython size_number) λ value_size.
                Advances-bind _ _ _ (or_raise-RaisesPython (int_of flags) value_error (λ q. cc))
                  λ flags_number.
                    Advances-bind _ _ _
                      (value_at-RaisesPython heap b (c.current_pos + 2) value_size)
                      λ value. omega arith

parse_step-Advances :
    (heap : ℕ → ℕ) (b : Bytes) (c : Cursor) → Advances c.current_pos (parse_step heap b c)
unfolding parse_step parse_item
parse_step-Advances heap b c = elim (Bool-cases (bytes_eq (take 2 (drop c.current_pos b)) crlf)) [
  | inl e ↦ rw e (parse_words-Advances heap b c _)
  | inr e ↦ rw e (omega arith)
]

-- What is left to do after a round.
round_ends :
    (n : ℕ) (r : Parsed Cursor) (go : Cursor → Parsed Columns)
    → Advances n r
    → ((c : Cursor) → n < c.current_pos → RaisesPython (go c))
    → RaisesPython {A = Columns} (elim r [ parsed c ↦ go c | raised e ↦ raised e ])
round_ends n (parsed c) go a k = k c a
round_ends n (raised e) go a k = a

loop_ends :
    (heap : ℕ → ℕ) (b : Bytes) (fuel : ℕ) (c : Cursor)
    → length b ≤ c.current_pos + fuel
    → RaisesPython (parse_loop heap b fuel c)
unfolding parse_loop
loop_ends heap b zero c h =
    let t : ltb c.current_pos (length b - 5) ≡ false = ground arith in rw t tt
loop_ends heap b (suc fuel) c h = elim (Bool-cases (ltb c.current_pos (length b - 5))) [
  | inl e ↦
      rw (e, parse_loop)
        (round_ends c.current_pos (parse_step heap b c) (parse_loop heap b fuel)
          (parse_step-Advances heap b c) (λ c' a. loop_ends heap b fuel c' (omega arith)))
  | inr e ↦ rw (e, parse_loop) tt
]

not_out : (r : Parsed Columns) → RaisesPython r → r ≢ raised out_of_fuel
not_out (parsed c) h q = cc
not_out (raised e) h q = h (cc)

-- As long as positions stay below 2 ^ 31, the parser ends with columns or with one of Python's
-- exceptions: the length of the buffer is enough fuel.
parse_terminates :
    (heap : ℕ → ℕ) (buffer : Bytes) (columns : Columns)
    → parse heap buffer columns ≢ raised out_of_fuel
unfolding parse
parse_terminates heap buffer columns =
    not_out _ (loop_ends heap buffer (length buffer) _ (omega arith))
