-- ===== src/Protocol/Discovery/RoundTrip.antt =====
-- What the parser makes of the whole response.
use emcache.Prelude.{
  ℕ, ◌≡◌, refl, ◌≢◌, ◌<◌, All-imp, sym, ap, subst, ◌∙◌, arith, true, false, Option, some, List, [],
  ◌∷◌, ◌++◌, Bytes, codes, All, length, take-append, pos, map,
}
use mathlib.Core.List.{append_assoc, reverse}
use emcache.Decimal.{show, strip}
use emcache.Decimal.RoundTrip.{IsDigit, show-All, show_nonempty, int_of-show}
use emcache.Protocol.Text.{split_on, split_on-Lacks, split_on-append}
use emcache.Protocol.Feeding.{parsed}
use emcache.Protocol.Discovery.{
  Text, Discovery, new_discovery, ends_with, match_command, parse_nodes, parse_lines, parse_body,
  parse, resolve, feed_data,
}
use emcache.Protocol.Discovery.Blanks.{
  Ends-show, Starts, Starts-append, digits-Starts, ends_with-append, match_length-digits,
  strip-newline, take_digits-append,
}
use emcache.Protocol.Discovery.Respond.{
  Advertised, IsLineByte, add_nodes-items, config_lines, discovered, IsNamed, line_of, line_of-All,
  line_of-ends, respond, split_text-line_of,
}

lines_split :
    (version : ℕ) (nodes : List Advertised)
    → All IsNamed nodes
    → split_on 10 (config_lines version nodes) ≡ show version ∷ line_of nodes ∷ []
unfolding config_lines
lines_split version nodes n =
    split_on-append 10 (show version) (line_of nodes)
      (All-imp IsDigit (λ c. c ≢ 10) (show version) (λ c h. ground arith) (show-All version))
    ∙ ap (◌∷◌ (show version)) (
        split_on-Lacks 10 (line_of nodes)
          (All-imp IsLineByte (λ c. c ≢ 10) (line_of nodes) (λ c h. h.1) (line_of-All nodes n)))

lines_strip :
    (version : ℕ) (a : Advertised) (nodes : List Advertised)
    → strip (config_lines version (a ∷ nodes) ++ 10 ∷ []) ≡ config_lines version (a ∷ nodes)
unfolding config_lines
lines_strip version a nodes =
    let (s, port, e) = line_of-ends a nodes in
    strip-newline (config_lines version (a ∷ nodes))
      (Starts-append (show version) (10 ∷ line_of (a ∷ nodes))
        (digits-Starts (show version) (show-All version) (show_nonempty version)))
      (subst (λ x. Starts (reverse (show version ++ (10 ∷ x)))) (sym e)
        (subst (λ x. Starts (reverse x)) (append_assoc (show version) (10 ∷ s) (show port))
          (Ends-show (show version ++ (10 ∷ s)) port)))

-- The bytes behind the size.
abbrev body_of : ℕ → List Advertised → Bytes
body_of version nodes = config_lines version nodes ++ 10 ∷ []

match_command-respond :
    (version : ℕ) (nodes : List Advertised)
    → match_command (respond version nodes)
      ≡ some (show (length (body_of version nodes)), body_of version nodes ++ codes "\r\nEND\r\n")
unfolding match_command respond
match_command-respond version nodes =
    let size = length (body_of version nodes) in
    let body = body_of version nodes ++ codes "\r\nEND\r\n" in
    rw (take_digits-append (show size) 13 (10 ∷ body) (show-All size) refl)
      (match_length-digits (show size) body (show_nonempty size))

respond_ends :
    (version : ℕ) (nodes : List Advertised)
    → ends_with (codes "END\r\n") (respond version nodes) ≡ true
unfolding respond
respond_ends version nodes =
    let body = body_of version nodes in
    let front =
      codes "CONFIG cluster 0 "
      ++ (show (length body) ++ (codes "\r\n" ++ (body ++ codes "\r\n"))) in
    let e : front ++ codes "END\r\n" ≡ respond version nodes = simp append_assoc in
    subst (λ s. ends_with (codes "END\r\n") s ≡ true) e (ends_with-append (codes "END\r\n") front)

module _ (decode : Bytes → Option Text)
    (ascii : (s : Bytes) → All (λ c. c < 128) s → decode s ≡ some s) (version : ℕ) (a : Advertised)
    (nodes : List Advertised) (named : All IsNamed (a ∷ nodes)) where
  -- The parser after the response.
  abbrev pub found : Discovery
  found = record {
    buffer = respond version (a ∷ nodes);
    autodiscovery = true;
    version = pos version;
    nodes = map discovered (a ∷ nodes);
    done = false;
  }

  abbrev fed : Discovery
  fed = record new_discovery { buffer = respond version (a ∷ nodes); autodiscovery = true }

  nodes-found :
      (p : Discovery)
      → parse_nodes decode (record p { nodes = [] }) (line_of (a ∷ nodes) ∷ [])
        ≡ (record p { nodes = map discovered (a ∷ nodes) })
  unfolding parse_nodes
  nodes-found p =
      rw
        (
          ascii (line_of (a ∷ nodes))
              (All-imp IsLineByte (λ c. c < 128) _ (λ c h. h.0) (line_of-All (a ∷ nodes) named)),
          parse_nodes,
        )
        (rw (split_text-line_of a nodes named)
          (add_nodes-items (record p { nodes = [] }) (a ∷ nodes) named))

  body-found :
      (p : Discovery)
      → parse_body decode p
          (body_of version (a ∷ nodes) ++ codes "\r\nEND\r\n")
          (some (pos (length (body_of version (a ∷ nodes)))))
        ≡ (record p { version = pos version; nodes = map discovered (a ∷ nodes) })
  unfolding parse_body parse_lines
  body-found p =
      let body = body_of version (a ∷ nodes) in
      rw (take-append body (codes "\r\nEND\r\n")) (
        rw (lines_strip version a nodes, lines_split version (a ∷ nodes) named)
          (rw (int_of-show version, parse_lines)
            (nodes-found (record p { version = pos version }))))

  parse-found :
      (p : Discovery)
      → p.buffer ≡ respond version (a ∷ nodes)
      → parse decode p ≡ (record p { version = pos version; nodes = map discovered (a ∷ nodes) })
  unfolding parse
  parse-found p e =
      rw (ap match_command e ∙ match_command-respond version (a ∷ nodes), parse)
        (rw (int_of-show (length (body_of version (a ∷ nodes)))) (body-found p))

  -- For a UTF-8 decoder that leaves ASCII as it is, the parser reads the response of a configuration
  -- server that advertises at least one node, with names in ASCII without blanks and bars: it learns
  -- the version and exactly the advertised hosts, addresses and ports, in their order.
  pub feed_data-respond :
      feed_data decode new_discovery (respond version (a ∷ nodes))
      ≡ parsed (record found { done = true })
  unfolding feed_data resolve
  feed_data-respond = rw (respond_ends version (a ∷ nodes)) (rw (parse-found fed refl) refl)
