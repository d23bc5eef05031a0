-- ===== src/Client/Session/RoundTrip.antt =====
-- What is set is what a later get returns, over the connections and the servers.
use emcache.Prelude.{
  subst, ℕ, ◌^◌, ◌<◌, ◌≡◌, refl, ◌≢◌, sym, ap, ◌∙◌, arith, Bool, false, Option, none, some, List,
  [], ◌∷◌, ◌++◌, Bytes, codes, All, length, if◌then◌else◌, ◌==◌, pos, if_true, ==_refl, bytes_eq,
}
use mathlib.Core.List.{flatten}
use emcache.Decimal.{show}
use emcache.KeyValidation.Decides.{IsKey}
use emcache.Protocol.Text.{Lacks}
use emcache.Protocol.Encode.{crlf, storage_data, fetch_data, show_int}
use emcache.Protocol.Encode.Framing.{read_request, IsToken, key-IsWord}
use emcache.Protocol.Encode.Requests.{read_request-storage_data, read_request-fetch_data}
use emcache.Protocol.Discovery.{Text}
use emcache.Protocol.Feeding.{Parsed, parsed, NotEarly}
use emcache.Protocol.OneLine.Reply.{NotEmpty}
use emcache.Protocol.MultiLine.{no_columns, ends_end}
use emcache.Protocol.MultiLine.RoundTrip.{Found, IsSendable, respond, with_items}
use emcache.Protocol.Connection.{Extracted, Connection, resume}
use emcache.Protocol.Connection.Command.{one_line_command-reply, multi_line_command-respond}
use emcache.Cluster.{pick_node}
use emcache.Outcome.{Result, returned, Outcome, and_then, finish}
use emcache.Client.{Client, ask, cas_too_high}
use emcache.Client.Commands.{set, stored, is_reply}
use emcache.Client.Fetch.{get}
use emcache.Client.Guards.{storage_command-accepts}
use emcache.Client.Items.{answer, get-answer}
use emcache.Client.Session.{
  resumed, exchange, line_result, columns_result, answer_pieces, line_wire, columns_wire, deliver,
}

-- The network loses nothing, and delivers no empty pieces of what is not empty.
pub record IsCut (cut : Bytes → Bytes × List Bytes) : Type 0 where
  pub whole : (r : Bytes) → (cut r).0 ++ flatten (cut r).1 ≡ r
  pub not_empty : (r : Bytes) → r ≢ [] → All NotEmpty ((cut r).0 ∷ (cut r).1)

-- The item without a cas number: `get` does not ask for it.
abbrev pub shown : Bytes → Option (Bytes × ℕ) → List Found
shown key none = answer key none
shown key (some (value, flags)) = answer key (some (value, flags, none))

-- memcached's protocol.txt on `set` and `get`: after "STORED" for a `set` without an expiration time the
-- server holds the value and the flags under the key, and the answer to a `get` is what it holds.
pub record IsServer {S : Type 0} (serve : S → Bytes → S × Bytes)
    (held : S → Bytes → Option (Bytes × ℕ)) : Type 0 where
  pub set_held :
      (s : S) (request key value : Bytes) (flags : ℕ)
      → read_request request
        ≡ some (codes "set" ∷ key ∷ show flags ∷ show 0 ∷ show (length value) ∷ [], value ++ crlf)
      → (serve s request).1 ≡ codes "STORED" ++ crlf
      → held (serve s request).0 key ≡ some (value, flags)
  pub get_answered :
      (s : S) (request key : Bytes)
      → read_request request ≡ some (codes "get" ∷ key ∷ [], [])
      → (serve s request).1 ≡ respond (shown key (held s key))

resumed-some :
    (p : Parsed Connection) (d : Connection) (r : Connection × Extracted)
    → p ≡ parsed d
    → resume d ≡ some r
    → resumed p ≡ returned r
unfolding resumed
resumed-some p d r e h = rw (e, resumed, h) refl

module _ (before : ℕ) (heap : ℕ → ℕ) (decode : Bytes → Option Text) {S : Type 0}
    (serve : S → Bytes → S × Bytes) (cut : Bytes → Bytes × List Bytes) (uncut : IsCut cut)
    (connection : ℕ → Connection) (servers : ℕ → S) (node : ℕ) (request : Bytes) where
  line_wire-line :
      (line : Bytes)
      → Lacks 10 line
      → (serve (servers node) request).1 ≡ line ++ crlf
      → (line ++ crlf) ≢ []
      → line_wire before heap decode serve cut connection servers node request ≡ returned line
  unfolding line_wire exchange answer_pieces line_result and_then
  line_wire-line line l e n =
      let r = (serve (servers node) request).1 in
      let (waits, (d, received, done)) =
        one_line_command-reply before heap decode (connection node) request line (cut r).0 (cut r).1
          l (uncut.whole r ∙ e) (uncut.not_empty r (λ z. n (sym e ∙ z))) in
      ap (λ x. and_then x line_result) (resumed-some _ d _ received done)

  pub columns_wire-items :
      (fs : List Found)
      → All IsSendable fs
      → (serve (servers node) request).1 ≡ respond fs
      → NotEarly ends_end [] (answer_pieces serve cut servers node request)
      → columns_wire before heap decode serve cut connection servers node request
        ≡ returned (with_items no_columns fs)
  unfolding columns_wire exchange answer_pieces columns_result and_then
  columns_wire-items fs s e n =
      let r = (serve (servers node) request).1 in
      let (waits, (d, received, done)) =
        multi_line_command-respond before heap decode (connection node) request (cut r).0 (cut r).1
          fs s (uncut.whole r ∙ e) n in
      ap (λ x. and_then x columns_result) (resumed-some _ d _ received done)

set_request_IsToken : IsToken (codes "set")
set_request_IsToken = omega arith

pub get_request_IsToken : IsToken (codes "get")
get_request_IsToken = omega arith

deliver-one :
    {S : Type 0} (serve : S → Bytes → S × Bytes) (servers : ℕ → S) (node : ℕ) (request : Bytes)
    → deliver serve ((node, request) ∷ []) servers node ≡ (serve (servers node) request).0
unfolding deliver
deliver-one serve servers node request = if_true (node == node) _ _ (==_refl node)

-- The request of a `set` without an expiration time.
abbrev pub set_request : Bytes → Bytes → ℕ → Bytes
set_request key value flags = storage_data (codes "set") key value (pos flags) (pos 0) false none

shown-IsSendable :
    (key value : Bytes) (flags : ℕ)
    → IsKey key
    → length value < 2 ^ 31
    → All IsSendable (shown key (some (value, flags)))
shown-IsSendable key value flags k small = (record { word = key-IsWord key k; small = small }, tt)

module _ (before : ℕ) (heap : ℕ → ℕ) (decode : Bytes → Option Text) {S : Type 0}
    (serve : S → Bytes → S × Bytes) (held : S → Bytes → Option (Bytes × ℕ))
    (server : IsServer serve held) (cut : Bytes → Bytes × List Bytes) (uncut : IsCut cut)
    (connection : ℕ → Connection) (servers : ℕ → S) (murmur : Bytes → ℕ → ℕ) (c : Client)
    (opened : c.closed ≡ false) (key value : Bytes) (flags : ℕ) (valid : IsKey key)
    (small : length value < 2 ^ 31) (in_range : flags < 2 ^ 16) (node : ℕ)
    (picked : pick_node murmur c.cluster key ≡ returned node) where
  set-stored :
      (serve (servers node) (set_request key value flags)).1 ≡ codes "STORED" ++ crlf
      → set murmur
          (line_wire before heap decode serve cut connection servers)
          c
          key
          value
          (pos flags)
          (pos 0)
          false
        ≡ record { sent = (node, (set_request key value flags)) ∷ []; result = returned tt }
  unfolding set stored is_reply ask and_then cas_too_high bytes_eq
  set-stored replied =
      let wire = line_wire before heap decode serve cut connection servers in
      ap (λ o. finish o (stored false))
        (storage_command-accepts murmur wire c (codes "set") key value (pos flags) (pos 0) false
          none node opened refl (ground (arith, in_range)) valid picked)
      ∙ ap
          (λ (r : Result Bytes). record {
            sent = (node, set_request key value flags) ∷ [];
            result = and_then (and_then r (λ x. returned (some x))) (stored false);
          })
          (line_wire-line before heap decode serve cut uncut connection servers node
            (set_request key value flags) (codes "STORED") (omega arith) replied (λ e. cc))

  request_held :
      (serve (servers node) (set_request key value flags)).1 ≡ codes "STORED" ++ crlf
      → held (deliver serve ((node, (set_request key value flags)) ∷ []) servers node) key
        ≡ some (value, flags)
  unfolding show show_int
  request_held replied =
      ap (λ s. held s key) (deliver-one serve servers node (set_request key value flags))
      ∙ server.set_held (servers node) (set_request key value flags) key value flags
          (read_request-storage_data (codes "set") key value (pos flags) (pos 0) false none
            set_request_IsToken valid (λ e. cc))
          replied

  -- What a `get` finds when the server of the node holds the item.
  get-found :
      (after : ℕ → S) (return_flags : Bool)
      → held (after node) key ≡ some (value, flags)
      → NotEarly ends_end []
          (answer_pieces serve cut after node (fetch_data (codes "get") (key ∷ [])))
      → (get murmur
          (columns_wire before heap decode serve cut connection after)
          c
          key
          return_flags).result
        ≡ returned (
            some (record {
              value = value;
              flags = if return_flags then some (pos flags) else none;
              cas = none;
            }))
  get-found after return_flags h whole =
      let request = fetch_data (codes "get") (key ∷ []) in
      let answered : (serve (after node) request).1 ≡ respond (shown key (some (value, flags))) =
        server.get_answered (after node) request key
          (read_request-fetch_data (codes "get") key [] get_request_IsToken (valid, tt))
        ∙ ap (λ x. respond (shown key x)) h in
      get-answer murmur (columns_wire before heap decode serve cut connection after) c key node
        (some (value, flags, none)) opened valid picked return_flags
        (columns_wire-items before heap decode serve cut uncut connection after node request
          (shown key (some (value, flags))) (shown-IsSendable key value flags valid small) answered
          whole)

  -- A client, its connections and servers that keep memcached's protocol, put together: a `set` without
  -- an expiration time to which the server replies "STORED" sends one request, to the node of the key,
  -- and returns; a `get` of the same key then returns the very value, and the flags if they are asked
  -- for, whatever bytes the value has. Replies may be cut into any pieces, but those of the second answer so
  -- that none but the last makes the text so far end in "END\r\n". The key is valid, the flags are below
  -- 2 ** 16, and the value has less than 2 ** 31 bytes.
  pub get-set :
      (return_flags : Bool)
      → (serve (servers node) (set_request key value flags)).1 ≡ codes "STORED" ++ crlf
      → NotEarly ends_end [] (
          answer_pieces serve cut
            (deliver serve ((node, set_request key value flags) ∷ []) servers)
            node
            (fetch_data (codes "get") (key ∷ [])))
      → let put =
          set murmur
            (line_wire before heap decode serve cut connection servers)
            c
            key
            value
            (pos flags)
            (pos 0)
            false in
        (put ≡ record { sent = (node, set_request key value flags) ∷ []; result = returned tt })
        × ((get murmur
              (columns_wire before heap decode serve cut connection
                (deliver serve put.sent servers))
              c
              key
              return_flags).result
            ≡ returned (
                some (record {
                  value = value;
                  flags = if return_flags then some (pos flags) else none;
                  cas = none;
                })))
  get-set return_flags replied whole =
      let put = set-stored replied in
      (
        put,
        subst
            (λ (sent : List (ℕ × Bytes)).
              (get murmur
                (columns_wire before heap decode serve cut connection (deliver serve sent servers))
                c key return_flags).result
              ≡ returned (
                  some (record {
                    value = value;
                    flags = if return_flags then some (pos flags) else none;
                    cas = none;
                  })))
            (sym (ap (λ (o : Outcome {0} Unit). o.sent) put))
            (get-found (deliver serve ((node, set_request key value flags) ∷ []) servers)
              return_flags (request_held replied) whole),
      )
