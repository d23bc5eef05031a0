-- ===== src/Protocol/Create.antt =====
-- `create_protocol` (emcache/protocol.py): how a connection is set up, with TLS or without. Python's ssl
-- module and the network are parameters.
pub mod Checks
use emcache.Prelude.{
  ℕ, ◌≡◌, refl, ap, ◌∙◌, Bool, true, false, ◌&&◌, not, Option, none, some, List, [], ◌∷◌, Bytes,
  ltb, if◌then◌else◌, ℤ,
}
use emcache.Protocol.Connection.{Connection}
use emcache.Cluster.{Address, host_address, unix_socket_path}

-- What `create_protocol` ends with. An unreadable file and a failed handshake are `OSError`s.
pub data Created : Type 0 where
  protocol : Connection → Created
  timeout_error os_error : Created

-- What connecting comes to, and how long it takes.
pub record Attempt : Type 0 where
  pub elapsed : ℕ
  pub created : Created

-- What the source uses of the ssl module. `load_verify_locations` raises for a file that it cannot read.
pub record Ssl (C : Type 0) : Type 0 where
  pub tls_context : C
  pub create_default_context : C
  pub cert_required : C → C
  pub load_default_certs : C → C
  pub load_verify_locations : Bytes → C → Option C

-- And of the event loop.
pub record Loop (C : Type 0) : Type 0 where
  pub create_connection : Bytes → ℤ → Option C → Attempt
  pub create_unix_connection : Bytes → Option C → Attempt

-- The extra file counts if it is not `None` and not the empty string.
unfoldable pub is_given : Option Bytes → Bool
is_given none = false
is_given (some []) = false
is_given (some (c ∷ path)) = true

-- `asyncio.wait_for`, if there is a timeout.
unfoldable pub within : Option ℕ → Attempt → Created
within none a = a.created
within (some t) a = if ltb a.elapsed t then a.created else timeout_error

module _ {C : Type 0} (ssl : Ssl C) where
  -- A context that verifies with the extra file.
  unfoldable pub with_extra_ca : Option Bytes → Option C
  with_extra_ca none = none
  with_extra_ca (some path) =
      ssl.load_verify_locations path (ssl.load_default_certs (ssl.cert_required ssl.tls_context))

  -- The context for `ssl=True`.
  unfoldable pub context : Bool → Option Bytes → Option C
  unfolding is_given with_extra_ca
  context ssl_verify ssl_extra_ca =
      if not ssl_verify
      then some ssl.tls_context
      else if is_given ssl_extra_ca
      then with_extra_ca ssl_extra_ca
      else some ssl.create_default_context

module _ {C : Type 0} (loop : Loop C) where
  unfoldable pub connect : Address → Option C → Attempt
  connect (host_address address port) tls = loop.create_connection address port tls
  connect (unix_socket_path path) tls = loop.create_unix_connection path tls

  unfoldable pub connect_with : Address → Option ℕ → Option C → Created
  unfolding connect within
  connect_with address timeout none = os_error
  connect_with address timeout (some tls) = within timeout (connect address (some tls))

module _ {C : Type 0} (ssl : Ssl C) (loop : Loop C) where
  -- `create_protocol(address, ssl, ssl_verify, ssl_extra_ca, timeout=timeout)`.
  unfoldable pub create_protocol : Address → Bool → Bool → Option Bytes → Option ℕ → Created
  unfolding context connect_with
  create_protocol address use_ssl ssl_verify ssl_extra_ca timeout =
      if use_ssl
      then connect_with loop address timeout (context ssl ssl_verify ssl_extra_ca)
      else within timeout (connect loop address none)
