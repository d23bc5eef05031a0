-- ===== src/Tests/Sessions.antt =====
-- A client and a server together.
use emcache.Prelude.{
  if_case, subst, ◌<◌, ◌^◌, ℕ, ◌-◌, ◌≡◌, refl, ◌≢◌, ap, ◌∙◌, arith, true, false, Option, none, some,
  List, [], ◌∷◌, ◌++◌, Bytes, codes, bytes_eq, bytes_eq_refl, All, length, length-append, take,
  take-append, if◌then◌else◌, ℤ, pos, negsuc,
}
use mathlib.Core.List.{append-nil, flatten}
use emcache.Decimal.{show, int_of}
use emcache.Decimal.RoundTrip.{int_of-show}
use emcache.Protocol.Encode.{crlf, show_int, fetch_data}
use emcache.Protocol.Encode.Framing.{read_request, key-IsToken}
use emcache.Protocol.Encode.Requests.{read_request-storage_data}
use emcache.Protocol.Feeding.{NotEarly}
use emcache.Protocol.OneLine.Reply.{NotEmpty}
use emcache.Protocol.MultiLine.{ends_end}
use emcache.Protocol.MultiLine.RoundTrip.{respond}
use emcache.Protocol.Connection.{Connection, new_connection}
use emcache.Outcome.{returned}
use emcache.Client.Commands.{set}
use emcache.Client.Fetch.{Item, get, get_many}
use emcache.Client.Session.{answer_pieces, line_wire, columns_wire, deliver}
use emcache.Client.Session.RoundTrip.{IsServer, shown, set_request, get-set}
use emcache.Rendezvous.{nodes_selection, rendezvous_node}
use emcache.Cluster.{pick_node, pick_nodes, rdz_node_of}
use emcache.Client.Session.Dictionary.{held_items, AnswersMany, item_under}
use emcache.Client.Session.Many.{item_at_node, get_many-held}
use emcache.Tests.Values.{node_a, bar_IsKey, toy_murmur, client, foo_IsKey, set_IsKey, foo_picked}

-- A server that holds its items in a function.
abbrev Store : Type 0
Store = Bytes → Option (Bytes × ℕ)

abbrev put : Bytes → Bytes → ℕ → Store → Store
put key value flags s k = if bytes_eq key k then some (value, flags) else s k

abbrev number : Option ℤ → ℕ
number none = 0
number (some (pos n)) = n
number (some (negsuc n)) = 0

abbrev answer_words : Store → List Bytes → Bytes → Store × Bytes
answer_words s (command ∷ key ∷ []) body = (s, respond (shown key (s key)))
answer_words s (command ∷ key ∷ flags ∷ exptime ∷ size ∷ []) body =
    (put key (take (length body - 2) body) (number (int_of flags)) s, codes "STORED" ++ crlf)
answer_words s _ body = (s, codes "ERROR" ++ crlf)

abbrev answer_request : Store → Option (List Bytes × Bytes) → Store × Bytes
answer_request s none = (s, codes "ERROR" ++ crlf)
answer_request s (some (words, body)) = answer_words s words body

abbrev serve : Store → Bytes → Store × Bytes
serve s request = answer_request s (read_request request)

abbrev held : Store → Bytes → Option (Bytes × ℕ)
held s key = s key

serve-set :
    (s : Store) (request key value flags : Bytes)
    → read_request request
      ≡ some (codes "set" ∷ key ∷ flags ∷ show 0 ∷ show (length value) ∷ [], value ++ crlf)
    → serve s request ≡ (put key value (number (int_of flags)) s, codes "STORED" ++ crlf)
serve-set s request key value flags e =
    let size : length (value ++ crlf) - 2 ≡ length value =
      omega (arith, length-append value crlf) in
    let body : take (length (value ++ crlf) - 2) (value ++ crlf) ≡ value =
      ap (λ n. take n (value ++ crlf)) size ∙ take-append value crlf in
    ap (answer_request s) e
    ∙ ap (λ v. (put key v (number (int_of flags)) s, codes "STORED" ++ crlf)) body

serve-IsServer : IsServer serve held
serve-IsServer = record {
  set_held = λ s request key value flags e replied.
      ap (λ r. r.0 key) (serve-set s request key value (show flags) e)
      ∙ ap (λ b. if b then some (value, number (int_of (show flags))) else s key)
          (bytes_eq_refl key)
      ∙ ap (λ n. some (value, number n)) (int_of-show flags);
  get_answered = λ s request key e. ap (λ r. (answer_request s r).1) e;
}

-- The first byte comes alone.
abbrev cut : Bytes → Bytes × List Bytes
cut [] = ([], [])
cut (x ∷ []) = (x ∷ [], [])
cut (x ∷ y ∷ r) = (x ∷ [], (y ∷ r) ∷ [])

cut_whole : (r : Bytes) → (cut r).0 ++ flatten (cut r).1 ≡ r
unfolding flatten
cut_whole [] = refl
cut_whole (x ∷ []) = refl
cut_whole (x ∷ y ∷ r) = ap (λ t. x ∷ y ∷ t) (append-nil r)

cut-NotEmpty : (r : Bytes) → r ≢ [] → All NotEmpty ((cut r).0 ∷ (cut r).1)
cut-NotEmpty [] h = absurd (h refl)
cut-NotEmpty (x ∷ []) h = (λ e. cc, tt)
cut-NotEmpty (x ∷ y ∷ r) h = (λ e. cc, (λ e. cc, tt))

cut-NotEarly : (r : Bytes) → NotEarly ends_end [] ((cut r).0 ∷ (cut r).1)
unfolding ends_end
cut-NotEarly [] = tt
cut-NotEarly (x ∷ []) = tt
cut-NotEarly (x ∷ y ∷ r) = (refl, tt)

abbrev connections : ℕ → Connection
connections node = new_connection

abbrev empty : ℕ → Store
empty node key = none

abbrev zeros : ℕ → ℕ
zeros a = 0

abbrev value : Bytes
value = codes "a\r\nEND\r\nb"

set_read :
    read_request (set_request (codes "foo") value 5)
    ≡ some (codes "set" ∷ codes "foo" ∷ show 5 ∷ show 0 ∷ show 9 ∷ [], value ++ crlf)
unfolding show_int
set_read =
    read_request-storage_data (codes "set") (codes "foo") value (pos 5) (pos 0) false none
      (key-IsToken (codes "set") set_IsKey) foo_IsKey (λ e. cc)

get-set_example :
    (set toy_murmur
        (line_wire 0 zeros some serve cut connections empty)
        client
        (codes "foo")
        value
        (pos 5)
        (pos 0)
        false
      ≡ record { sent = (7, set_request (codes "foo") value 5) ∷ []; result = returned tt })
    × ((get toy_murmur
          (columns_wire 0 zeros some serve cut connections (
            deliver serve
              (set toy_murmur
                (line_wire 0 zeros some serve cut connections empty)
                client
                (codes "foo")
                value
                (pos 5)
                (pos 0)
                false).sent
              empty))
          client
          (codes "foo")
          true).result
        ≡ returned (some (record { value = value; flags = some (pos 5); cas = none })))
unfolding answer_pieces
get-set_example =
    get-set 0 zeros some serve held serve-IsServer cut
      (record { whole = cut_whole; not_empty = cut-NotEmpty }) connections empty toy_murmur client
      refl (codes "foo") value 5 foo_IsKey (omega arith) (omega arith) 7 foo_picked true
      (ap (λ r. r.1)
        (serve-set (empty 7) (set_request (codes "foo") value 5) (codes "foo") value (show 5)
          set_read))
      (cut-NotEarly
        (serve (deliver serve ((7, set_request (codes "foo") value 5) ∷ []) empty 7)
          (fetch_data (codes "get") (codes "foo" ∷ []))).1)

-- Servers that hold one item, under "foo", whose flags are a number of their own.
abbrev held_foo : ℕ → Bytes → Option (Bytes × ℕ)
held_foo s key = if bytes_eq key (codes "foo") then some (codes "v", s) else none

abbrev answer_keys : ℕ → Option (List Bytes × Bytes) → Bytes
answer_keys s none = codes "ERROR\r\n"
answer_keys s (some ([], body)) = codes "ERROR\r\n"
answer_keys s (some (command ∷ keys, body)) = respond (held_items (held_foo s) keys)

abbrev serve_foo : ℕ → Bytes → ℕ × Bytes
serve_foo s request = (s, answer_keys s (read_request request))

held_foo_size :
    (s : ℕ) (key value : Bytes) (flags : ℕ)
    → held_foo s key ≡ some (value, flags)
    → length value < 2 ^ 31
held_foo_size s key value flags e =
    if_case (λ (o : Option (Bytes × ℕ)). o ≡ some (value, flags) → length value < 2 ^ 31)
      (bytes_eq key (codes "foo"))
      (λ _ h.
        let same : codes "v" ≡ value = cc in subst (λ v. length v < 2 ^ 31) same (omega arith))
      (λ _ h. absurd (cc)) e

serve_foo-AnswersMany : AnswersMany serve_foo held_foo
serve_foo-AnswersMany = record {
  items_answered = λ s request key keys e. ap (answer_keys s) e;
  item_size = held_foo_size;
}

get_many-held_example :
    (results : List (Bytes × Item)) × ((get_many toy_murmur
        (columns_wire 0 zeros some serve_foo cut connections (λ node. node))
        client
        (codes "foo" ∷ codes "bar" ∷ [])
        true).result
      ≡ returned results)
    × All
        (λ k.
          item_under k results
          ≡ item_at_node held_foo (λ node. node) true (pick_node toy_murmur client.cluster k) k)
        (codes "foo" ∷ codes "bar" ∷ [])
unfolding answer_pieces pick_nodes nodes_selection rendezvous_node
get_many-held_example =
    get_many-held 0 zeros some serve_foo held_foo serve_foo-AnswersMany cut
      (record { whole = cut_whole; not_empty = cut-NotEmpty }) connections (λ node. node)
      (λ node request. cut-NotEarly (serve_foo node request).1) toy_murmur client refl
      (rdz_node_of toy_murmur node_a ∷ []) refl true (codes "foo") (codes "bar" ∷ [])
      ((7, codes "foo" ∷ codes "bar" ∷ []) ∷ []) (foo_IsKey, (bar_IsKey, tt)) refl
