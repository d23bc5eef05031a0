-- ===== src/Tests/Requests.antt =====
-- Requests of the client, and what becomes of the replies.
use emcache.Prelude.{
  ℕ, ◌≡◌, refl, inr, arith, false, Option, none, some, List, [], ◌∷◌, Bytes, codes, pos,
}
use emcache.Decimal.{show}
use emcache.Protocol.Encode.{show_int, storage_data, storage_line, cas_suffix, noreply_suffix}
use emcache.Protocol.MultiLine.{Columns, no_columns}
use emcache.Protocol.MultiLine.RoundTrip.{Found, with_items}
use emcache.Outcome.{Result, returned, Outcome}
use emcache.Client.{storage_command}
use emcache.Client.Guards.Sends.{IsAllowed}
use emcache.Client.Items.{answer}
use emcache.Tests.Values.{toy_murmur, client, foo_IsKey, foo_picked}

-- A server that answers every request with the same line.
abbrev says : Bytes → ℕ → Bytes → Result Bytes
says line node request = returned line

-- The flags are 65536, one more than 16 bits hold.
abbrev wide : Bytes
wide = storage_data (codes "set") (codes "foo") (codes "ab") (pos 65536) (pos 0) false none

abbrev set_wide : Outcome (Option Bytes)
set_wide =
    storage_command toy_murmur (says []) client (codes "set") (codes "foo") (codes "ab") (pos 65536)
      (pos 0) false none

-- The test for it: the right side holds.
wide_IsAllowed : IsAllowed toy_murmur client (codes "foo") (pos 65536) none 7
wide_IsAllowed = record {
  opened = refl;
  cas_bound = tt;
  flags_bound = omega arith;
  key_rule = inr foo_IsKey;
  picked = foo_picked;
}

-- The empty key passes the guard.
empty_key_test :
    storage_data (codes "set") [] (codes "flush_all") (pos 0) (pos 0) false none
    ≡ codes "set  0 0 9\r\nflush_all\r\n"
unfolding storage_data storage_line show_int show cas_suffix noreply_suffix
empty_key_test = refl

abbrev found : Option (Bytes × ℕ × Option ℕ)
found = some (codes "ab", 5, some 9)

abbrev responds : ℕ → Bytes → Result Columns
responds node request = returned (with_items no_columns (answer (codes "foo") found))

abbrev foo_item : Found
foo_item = record { key = codes "foo"; value = codes "ab"; flags = 5; cas = some 9 }

abbrev bar_item : Found
bar_item = record { key = codes "bar"; value = []; flags = 0; cas = some 10 }

abbrev responses : List (List Found)
responses = (foo_item ∷ bar_item ∷ []) ∷ [] ∷ []
