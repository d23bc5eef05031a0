-- ===== src/Protocol/Connection/Command.antt =====
-- A command from its request to what it returns.
use emcache.Prelude.{
  ℕ, ◌≡◌, refl, sym, ◌∙◌, true, Option, none, some, List, [], ◌∷◌, ◌++◌, Bytes, All,
}
use mathlib.Core.List.{flatten}
use emcache.Protocol.Encode.{crlf}
use emcache.Protocol.Text.{Lacks}
use emcache.Protocol.Feeding.{Raised, Parsed, parsed, raised, feed_all, feed_all-cons, NotEarly}
use emcache.Protocol.OneLine.{OneLine, new_one_line, value}
use emcache.Protocol.OneLine
use emcache.Protocol.OneLine.Reply.{NotEmpty, feed_all-reply}
use emcache.Protocol.MultiLine.{MultiLine, new_multi_line, no_columns, ends_end}
use emcache.Protocol.MultiLine
use emcache.Protocol.MultiLine.RoundTrip.{Found, IsSendable, respond, with_items}
use emcache.Protocol.MultiLine.Pieces.{feed_all-respond}
use emcache.Protocol.Discovery.{Text}
use emcache.Protocol.Connection.{
  Parser, one_line, multi_line, one_line_data, multi_line_data, result, columns, Connection, start,
  resume, finished, extract, feed_parser, fed, data_received,
}

feed_all_raises :
    {S : Type 0} (feed : S → Bytes → Parsed S) (s : S) (chunk : Bytes) (cs : List Bytes)
    (x : Raised)
    → feed s chunk ≡ raised x
    → feed_all feed s (chunk ∷ cs) ≡ raised x
unfolding feed_all
feed_all_raises feed s chunk cs x e = rw (e, feed_all) refl

-- Pieces that are all read have a first piece that is read.
feed_all-first :
    {S : Type 0} (feed : S → Bytes → Parsed S) (s t : S) (chunk : Bytes) (cs : List Bytes)
    (r : Parsed S)
    → feed s chunk ≡ r
    → feed_all feed s (chunk ∷ cs) ≡ parsed t
    → (u : S) × (feed s chunk ≡ parsed u) × (feed_all feed u cs ≡ parsed t)
feed_all-first feed s t chunk cs (parsed u) e h =
    (u, e, sym (feed_all-cons feed s u chunk cs e) ∙ h)
feed_all-first feed s t chunk cs (raised x) e h =
    let stops = feed_all_raises feed s chunk cs x e in absurd (cc)

module _ (before : ℕ) (heap : ℕ → ℕ) (decode : Bytes → Option Text) where
  -- The pieces reach a parser by way of the connection.
  module _ {S : Type 0} (wrap : S → Parser) (feed : S → Bytes → Parsed S)
      (wraps : (s t : S) (chunk : Bytes)
        → feed s chunk ≡ parsed t
        → feed_parser before heap decode (wrap s) chunk ≡ parsed (wrap t)) where
    pub received_one :
        (c : Connection) (s t : S) (chunk : Bytes)
        → feed s chunk ≡ parsed t
        → data_received before heap decode (record c { parser = some (wrap s) }) chunk
          ≡ parsed (record c { parser = some (wrap t) })
    unfolding data_received
    received_one c s t chunk e = rw (wraps s t chunk e, fed) refl

    received :
        (c : Connection) (s t : S) (cs : List Bytes)
        → feed_all feed s cs ≡ parsed t
        → feed_all (data_received before heap decode) (record c { parser = some (wrap s) }) cs
          ≡ parsed (record c { parser = some (wrap t) })
    unfolding feed_all
    received c s t [] e = cc
    received c s t (chunk ∷ cs) e =
        let (u, first, rest) = feed_all-first feed s t chunk cs (feed s chunk) refl e in
        feed_all-cons (data_received before heap decode) (record c { parser = some (wrap s) })
          (record c { parser = some (wrap u) }) chunk cs (received_one c s u chunk first)
        ∙ received c u t cs rest

  pub one_line-wraps :
      (s t : OneLine) (chunk : Bytes)
      → OneLine.feed_data before s chunk ≡ parsed t
      → feed_parser before heap decode (one_line s) chunk ≡ parsed (one_line t)
  unfolding feed_parser
  one_line-wraps s t chunk e = rw (e, feed_parser) refl

  multi_line-wraps :
      (s t : MultiLine) (chunk : Bytes)
      → MultiLine.feed_data heap s chunk ≡ parsed t
      → feed_parser before heap decode (multi_line s) chunk ≡ parsed (multi_line t)
  unfolding feed_parser
  multi_line-wraps s t chunk e = rw (e, feed_parser) refl

  pub resume-one_line :
      (c : Connection) (p : OneLine) (line : Bytes)
      → p.done ≡ true
      → value p ≡ line
      → resume (record c { parser = some (one_line p) })
        ≡ some (record c { parser = none }, result line)
  unfolding resume finished extract value
  resume-one_line c p line d v = rw (d, v) refl

  -- A command with a reply of one line, from any connection: its request is written, its coroutine
  -- waits, and once the pieces of the reply have arrived, however it was cut into pieces that are not
  -- empty, it returns the line and leaves the connection with no parser, ready for the next command.
  pub one_line_command-reply :
      (c : Connection) (request line chunk : Bytes) (cs : List Bytes)
      → Lacks 10 line
      → chunk ++ flatten cs ≡ line ++ crlf
      → All NotEmpty (chunk ∷ cs)
      → (resume (start one_line_data request c) ≡ none)
        × ((d : Connection) × (feed_all
                (data_received before heap decode)
                (start one_line_data request c)
                (chunk ∷ cs)
              ≡ parsed d)
            × (resume d
                ≡ some
                    (record c { parser = none; written = c.written ++ request ∷ [] }, result line)))
  unfolding start resume
  one_line_command-reply c request line chunk cs l e n =
      let (p, fed, done, read) = feed_all-reply before line chunk cs l e n.1 in
      let asked : Connection = record c { written = c.written ++ request ∷ [] } in
      (
        refl,
        (
          record asked { parser = some (one_line p) },
          received one_line (OneLine.feed_data before) one_line-wraps asked new_one_line p
              (chunk ∷ cs) fed,
          resume-one_line asked p line done read,
        ),
      )

  -- A command with a response of items, from any connection: its request is written, its coroutine
  -- waits, and once the response has arrived, in pieces of which none but the last makes the text so
  -- far end in "END\r\n", it returns the items' keys, values, flags and cas numbers, and leaves the
  -- connection with no parser, ready for the next command.
  pub multi_line_command-respond :
      (c : Connection) (request chunk : Bytes) (cs : List Bytes) (fs : List Found)
      → All IsSendable fs
      → chunk ++ flatten cs ≡ respond fs
      → NotEarly ends_end [] (chunk ∷ cs)
      → (resume (start multi_line_data request c) ≡ none)
        × ((d : Connection) × (feed_all
                (data_received before heap decode)
                (start multi_line_data request c)
                (chunk ∷ cs)
              ≡ parsed d)
            × (resume d
                ≡ some (
                  record c { parser = none; written = c.written ++ request ∷ [] },
                  columns (with_items no_columns fs),
                )))
  unfolding start resume finished extract
  multi_line_command-respond c request chunk cs fs s e n =
      let p : MultiLine = record {
        buffer = respond fs;
        columns = with_items no_columns fs;
        done = true;
      } in
      let asked : Connection = record c { written = c.written ++ request ∷ [] } in
      (
        refl,
        (
          record asked { parser = some (multi_line p) },
          received multi_line (MultiLine.feed_data heap) multi_line-wraps asked new_multi_line p
              (chunk ∷ cs) (feed_all-respond heap fs chunk cs s e n),
          refl,
        ),
      )
