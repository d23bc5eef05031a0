-- ===== src/Protocol/Connection/Early.antt =====
-- A response of several lines, such as that of `stats`, read by the parser for one line.
use emcache.Prelude.{ℕ, ◌≡◌, refl, sym, true, Option, none, some, [], ◌∷◌, ◌++◌, Bytes}
use mathlib.Core.List.{append_assoc}
use emcache.Protocol.Encode.{crlf}
use emcache.Protocol.Feeding.{parsed, raised, invalid_state}
use emcache.Protocol.OneLine.{OneLine, new_one_line, ends_crlf}
use emcache.Protocol.OneLine
use emcache.Protocol.OneLine.Reply.{feed_last, ends_crlf-line, value-line}
use emcache.Protocol.Discovery.{Text}
use emcache.Protocol.Connection.{
  one_line, one_line_data, result, Connection, start, resume, data_received, feed_parser, fed,
}
use emcache.Protocol.Connection.Command.{received_one, one_line-wraps, resume-one_line}

module _ (before : ℕ) (heap : ℕ → ℕ) (decode : Bytes → Option Text) where
  -- A one-line parser that is done refuses more lines.
  feed_again :
      (line more : Bytes)
      → OneLine.feed_data before (record { buffer = line ++ crlf; done = true }) (more ++ crlf)
        ≡ raised invalid_state
  unfolding OneLine.feed_data
  feed_again line more =
      let e : (line ++ crlf) ++ (more ++ crlf) ≡ ((line ++ crlf) ++ more) ++ crlf =
        sym (append_assoc (line ++ crlf) more crlf) in
      rw (e, ends_crlf-line before ((line ++ crlf) ++ more)) refl

  refused_parser :
      (p : OneLine) (chunk : Bytes)
      → OneLine.feed_data before p chunk ≡ raised invalid_state
      → feed_parser before heap decode (one_line p) chunk ≡ raised invalid_state
  unfolding feed_parser
  refused_parser p chunk e = rw (e, feed_parser) refl

  refused :
      (c : Connection) (p : OneLine) (chunk : Bytes)
      → OneLine.feed_data before p chunk ≡ raised invalid_state
      → data_received before heap decode (record c { parser = some (one_line p) }) chunk
        ≡ raised invalid_state
  unfolding data_received
  refused c p chunk e = rw (refused_parser p chunk e, fed) refl

  -- For a response of several lines whose first piece ends at the end of a line, the command returns
  -- when that piece arrives, with the lines so far and not the response; if the rest arrives before
  -- its coroutine has gone on, `data_received` raises InvalidStateError.
  pub one_line_command-early :
      (c : Connection) (request lines more : Bytes)
      → (d : Connection) × (data_received before heap decode
            (start one_line_data request c)
            (lines ++ crlf)
          ≡ parsed d)
        × (resume d
            ≡ some (record c { parser = none; written = c.written ++ request ∷ [] }, result lines))
        × (data_received before heap decode d (more ++ crlf) ≡ raised invalid_state)
  unfolding start
  one_line_command-early c request lines more =
      let p : OneLine = record { buffer = lines ++ crlf; done = true } in
      let asked : Connection = record c { written = c.written ++ request ∷ [] } in
      (
        record asked { parser = some (one_line p) },
        received_one before heap decode one_line (OneLine.feed_data before)
            (one_line-wraps before heap decode) asked new_one_line p (lines ++ crlf)
            (feed_last before lines [] (lines ++ crlf) refl),
        resume-one_line before heap decode asked p lines refl (value-line lines true),
        refused asked p (more ++ crlf) (feed_again lines more),
      )
