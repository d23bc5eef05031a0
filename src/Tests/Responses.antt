-- ===== src/Tests/Responses.antt =====
-- Responses of a server.
use emcache.Prelude.{
  ℕ, ◌≡◌, refl, arith, true, none, some, [], ◌∷◌, ◌++◌, bytes_eq, codes, length, pos,
}
use mathlib.Core.List.{flatten}
use emcache.Decimal.{show}
use emcache.Protocol.Text.{join}
use emcache.Protocol.Encode.Framing.{key-IsWord}
use emcache.Protocol.Feeding.{parsed, feed_all}
use emcache.Protocol.MultiLine.{no_columns, new_multi_line, fill, ends_end, feed_data}
use emcache.Protocol.MultiLine.RoundTrip.{Found, IsSendable, respond, with_items}
use emcache.Protocol.MultiLine.Pieces.{feed_all-respond}
use emcache.Protocol.MultiLine.Torn.{cut_response, feed_data-torn}
use emcache.Tests.Values.{foo_IsKey, bar_IsKey}

-- Memory behind the buffer that holds zeros.
abbrev zeros : ℕ → ℕ
zeros a = 0

abbrev foo : Found
foo = record { key = codes "foo"; value = codes "ab\r\n"; flags = 5; cas = some 9 }

abbrev bar : Found
bar = record { key = codes "bar"; value = []; flags = 0; cas = none }

foo-IsSendable : IsSendable foo
foo-IsSendable = record { word = key-IsWord (codes "foo") foo_IsKey; small = omega arith }

bar-IsSendable : IsSendable bar
bar-IsSendable = record { word = key-IsWord (codes "bar") bar_IsKey; small = omega arith }

feed_all-respond_example :
    feed_all (feed_data zeros) new_multi_line (codes "VALUE bar 0 " ∷ codes "0\r\n\r\nEND\r\n" ∷ [])
    ≡ parsed (record {
      buffer = respond (bar ∷ []);
      columns = with_items no_columns (bar ∷ []);
      done = true;
    })
unfolding respond ends_end join show flatten bytes_eq
feed_all-respond_example =
    feed_all-respond zeros (bar ∷ []) (codes "VALUE bar 0 ") (codes "0\r\n\r\nEND\r\n" ∷ [])
      (bar-IsSendable, tt) refl (refl, tt)

-- The value is "xEND\r\nyz"; "yz" and what follows are still on the way.
abbrev cut : Found
cut = record { key = codes "foo"; value = codes "xEND\r\nyz"; flags = 0; cas = none }

cut-IsSendable : IsSendable cut
cut-IsSendable = record { word = key-IsWord (codes "foo") foo_IsKey; small = omega arith }

feed_data-torn_example :
    feed_data zeros new_multi_line (cut_response cut (codes "x"))
    ≡ parsed (record {
      buffer = cut_response cut (codes "x");
      columns = record {
        keys = codes "foo" ∷ [];
        values =
            ((codes "x" ++ codes "END\r\n") ++ fill zeros (length (cut_response cut (codes "x"))) 2)
            ∷ [];
        flags = pos 0 ∷ [];
        cas = none ∷ [];
      };
      done = true;
    })
feed_data-torn_example = feed_data-torn zeros cut (codes "x") (codes "yz") cut-IsSendable refl
