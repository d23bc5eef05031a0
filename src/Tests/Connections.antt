-- ===== src/Tests/Connections.antt =====
-- Connections, configuration servers and timeouts.
use emcache.Protocol.Create.{
  Ssl, Loop, Attempt, protocol, os_error, is_given, within, connect, create_protocol,
}
use emcache.Protocol.Create.Checks.{IsSsl, create_protocol_checks}
use emcache.Cluster.{Address, host_address}
use emcache.Prelude.{
  ℕ, ◌≡◌, refl, ◌+◌, arith, Bool, true, false, not, ◌&&◌, pos, Option, none, some, [], ◌∷◌, ◌++◌,
  Bytes, codes,
}
use mathlib.Core.List.{flatten}
use emcache.Decimal.{show}
use emcache.Protocol.Encode.{crlf}
use emcache.Protocol.Text.{join}
use emcache.Protocol.Feeding.{parsed, raised, feed_all, assertion_error, invalid_state}
use emcache.Protocol.Discovery.{new_discovery, Discovery, Text, is_text_space}
use emcache.Protocol.Discovery
use emcache.Protocol.Discovery.Respond.{Advertised, IsNamed, respond}
use emcache.Protocol.Discovery.RoundTrip.{feed_data-respond, found}
use emcache.Protocol.Discovery.Pieces.{feed_all-cut}
use emcache.Protocol.Connection.{
  Connection, new_connection, one_line_data, start, resume, data_received, result, connection_lost,
}
use emcache.Protocol.Connection.Command.{one_line_command-reply}
use emcache.Protocol.Connection.Lost.{lost, eof, calls, connection_lost-waits}
use emcache.Protocol.Connection.Early.{one_line_command-early}
use emcache.Timeout.{cancelled_error, time_out, cancel}
use emcache.Timeout.Exit.{IsExit, block, block-IsExit, time_came, cancels}

abbrev zeros : ℕ → ℕ
zeros a = 0

-- A decoder that leaves every byte as it is.
abbrev ascii : Bytes → Option Text
ascii b = some b

abbrev asked : Connection
asked = start one_line_data (codes "version\r\n") new_connection

one_line_command-reply_example :
    (resume (start one_line_data (codes "touch k 1\r\n") new_connection) ≡ none)
    × ((d : Connection) × (feed_all
            (data_received 0 zeros ascii)
            (start one_line_data (codes "touch k 1\r\n") new_connection)
            (codes "TOU" ∷ codes "CHED\r" ∷ codes "\n" ∷ [])
          ≡ parsed d)
        × (resume d
            ≡ some (
              record new_connection { parser = none; written = [] ++ codes "touch k 1\r\n" ∷ [] },
              result (codes "TOUCHED"),
            )))
unfolding flatten
one_line_command-reply_example =
    one_line_command-reply 0 zeros ascii new_connection (codes "touch k 1\r\n") (codes "TOUCHED")
      (codes "TOU") (codes "CHED\r" ∷ codes "\n" ∷ []) (omega arith) refl (ground arith)

connection_lost-waits_example :
    (resume (calls (lost ∷ eof ∷ []) (connection_lost asked)) ≡ none)
    × ((calls (lost ∷ eof ∷ []) (connection_lost asked)).closed ≡ true)
unfolding start resume
connection_lost-waits_example = connection_lost-waits asked (lost ∷ eof ∷ []) refl

one_line_command-early_example :
    (d : Connection) × (data_received 0 zeros ascii
        (start one_line_data (codes "stats\r\n") new_connection)
        (codes "STAT pid 1" ++ crlf)
      ≡ parsed d)
    × (resume d
        ≡ some (
          record new_connection { parser = none; written = [] ++ codes "stats\r\n" ∷ [] },
          result (codes "STAT pid 1"),
        ))
    × (data_received 0 zeros ascii d (codes "END" ++ crlf) ≡ raised invalid_state)
one_line_command-early_example =
    one_line_command-early 0 zeros ascii new_connection (codes "stats\r\n") (codes "STAT pid 1")
      (codes "END")

-- The time comes, and somebody else cancels the task as well.
block-IsExit_example :
    IsExit true (0 + 1) cancelled_error (block (some 5) 0 (cancel ∷ time_out ∷ []) cancelled_error)
unfolding time_came cancels
block-IsExit_example = block-IsExit (some 5) 0 (cancel ∷ time_out ∷ []) cancelled_error

abbrev advertised : Advertised
advertised = record { host = codes "a"; ip = codes "b"; port = 1 }

advertised-IsNamed : IsNamed advertised
unfolding is_text_space
advertised-IsNamed = record {
  host = ((omega arith, refl, λ e. absurd (omega arith)), tt);
  ip = ((omega arith, refl, λ e. absurd (omega arith)), tt);
}

feed_data-respond_example :
    Discovery.feed_data ascii new_discovery (respond 3 (advertised ∷ []))
    ≡ parsed (record (found ascii (λ s h. refl) 3 advertised [] (advertised-IsNamed, tt)) {
      done = true;
    })
feed_data-respond_example =
    feed_data-respond ascii (λ s h. refl) 3 advertised [] (advertised-IsNamed, tt)

-- The response without its last byte.
feed_all-cut_example :
    feed_all
      (Discovery.feed_data ascii)
      new_discovery
      (codes "CONFIG cluster 0 8\r\n3\na|b|1\n\r\nEND\r" ∷ codes "\n" ∷ [])
    ≡ raised assertion_error
unfolding respond show join
feed_all-cut_example =
    feed_all-cut ascii 3 (advertised ∷ []) (codes "CONFIG cluster 0 8\r\n3\na|b|1\n\r\nEND\r")
      (codes "\n") (codes "\n" ∷ []) (advertised-IsNamed, tt) refl (λ e. cc)

-- A context is what it verifies: the certificate, and the host name.
abbrev toy_ssl : Ssl (Bool × Bool)
toy_ssl = record {
  tls_context = (false, false);
  create_default_context = (true, true);
  cert_required = λ c. (true, c.1);
  load_default_certs = λ c. c;
  load_verify_locations = λ path c. some c;
}

located : {A : Type 0} (f : Bool × Bool → A) (c d : Bool × Bool) → some c ≡ some d → f d ≡ f c
located f c d e = cc

toy_ssl-IsSsl : IsSsl toy_ssl (λ c. c.0) (λ c. c.1)
toy_ssl-IsSsl = record {
  tls_certificate = refl;
  tls_hostname = refl;
  default_certificate = refl;
  default_hostname = refl;
  required_certificate = λ c. refl;
  required_hostname = λ c. refl;
  loaded_certificate = λ c. refl;
  loaded_hostname = λ c. refl;
  located_certificate = λ path c d e. located (λ x. x.0) c d e;
  located_hostname = λ path c d e. located (λ x. x.1) c d e;
}

-- A server that takes connections with TLS, after 3 seconds, and no others.
abbrev attempt : Option (Bool × Bool) → Attempt
attempt none = record { elapsed = 0; created = os_error }
attempt (some tls) = record { elapsed = 3; created = protocol new_connection }

abbrev toy_loop : Loop (Bool × Bool)
toy_loop = record {
  create_connection = λ address port tls. attempt tls;
  create_unix_connection = λ path tls. attempt tls;
}

abbrev secure : Address
secure = host_address (codes "a") (pos 11211)

create_protocol_checks_example :
    (tls : Bool × Bool) × (create_protocol toy_ssl toy_loop secure true true
        (some (codes "ca.pem"))
        (some 5)
      ≡ within (some 5) (connect toy_loop secure (some tls)))
    × (tls.0 ≡ true)
    × (tls.1 ≡ (true && not (is_given (some (codes "ca.pem")))))
create_protocol_checks_example =
    create_protocol_checks toy_ssl (λ c. c.0) (λ c. c.1) toy_ssl-IsSsl toy_loop secure true
      (some (codes "ca.pem")) (some 5) (λ path c e. (c, refl))
