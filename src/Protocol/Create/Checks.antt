-- ===== src/Protocol/Create/Checks.antt =====
-- Which connections verify the server's certificate, and which its host name.
use emcache.Prelude.{
  ℕ, ◌≡◌, refl, ap, ◌∙◌, Bool, true, false, ◌&&◌, not, Option, none, some, [], ◌∷◌, Bytes,
}
use emcache.Cluster.{Address}
use emcache.Protocol.Create.{
  Ssl, Loop, is_given, within, with_extra_ca, context, connect, connect_with, create_protocol,
}

-- Python's documentation of ssl: a bare `SSLContext(PROTOCOL_TLS)` verifies neither the certificate nor
-- the host name, and `create_default_context()` both; `CERT_REQUIRED` turns on the first only, and loading
-- certificates changes neither.
pub record IsSsl {C : Type 0} (ssl : Ssl C) (certificate hostname : C → Bool) : Type 0 where
  pub tls_certificate : certificate ssl.tls_context ≡ false
  pub tls_hostname : hostname ssl.tls_context ≡ false
  pub default_certificate : certificate ssl.create_default_context ≡ true
  pub default_hostname : hostname ssl.create_default_context ≡ true
  pub required_certificate : (c : C) → certificate (ssl.cert_required c) ≡ true
  pub required_hostname : (c : C) → hostname (ssl.cert_required c) ≡ hostname c
  pub loaded_certificate : (c : C) → certificate (ssl.load_default_certs c) ≡ certificate c
  pub loaded_hostname : (c : C) → hostname (ssl.load_default_certs c) ≡ hostname c
  pub located_certificate :
      (path : Bytes) (c d : C)
      → ssl.load_verify_locations path c ≡ some d
      → certificate d ≡ certificate c
  pub located_hostname :
      (path : Bytes) (c d : C) → ssl.load_verify_locations path c ≡ some d → hostname d ≡ hostname c

module _ {C : Type 0} (ssl : Ssl C) (certificate hostname : C → Bool)
    (documented : IsSsl ssl certificate hostname) where
  -- A context that is used, and what it verifies.
  abbrev Verifies : Option C → Bool → Bool → Type 0
  Verifies o cert host =
      (tls : C) × (o ≡ some tls) × (certificate tls ≡ cert) × (hostname tls ≡ host)

  with_extra_ca-Verifies :
      (path : Bytes)
      → ((c : C) → (d : C) × (ssl.load_verify_locations path c ≡ some d))
      → Verifies (with_extra_ca ssl (some path)) true false
  unfolding with_extra_ca
  with_extra_ca-Verifies path readable =
      let required = ssl.cert_required ssl.tls_context in
      let (d, loaded) = readable (ssl.load_default_certs required) in
      (
        d,
        loaded,
        documented.located_certificate path _ d loaded
            ∙ documented.loaded_certificate required
            ∙ documented.required_certificate ssl.tls_context,
        documented.located_hostname path _ d loaded
            ∙ documented.loaded_hostname required
            ∙ documented.required_hostname ssl.tls_context
            ∙ documented.tls_hostname,
      )

  context-Verifies :
      (ssl_verify : Bool) (ssl_extra_ca : Option Bytes)
      → ((path : Bytes) (c : C)
          → ssl_extra_ca ≡ some path
          → (d : C) × (ssl.load_verify_locations path c ≡ some d))
      → Verifies
          (context ssl ssl_verify ssl_extra_ca)
          ssl_verify
          (ssl_verify && not (is_given ssl_extra_ca))
  unfolding context is_given
  context-Verifies false extra readable =
      (ssl.tls_context, refl, documented.tls_certificate, documented.tls_hostname)
  context-Verifies true none readable = (
    ssl.create_default_context, refl, documented.default_certificate, documented.default_hostname,
  )
  context-Verifies true (some []) readable = (
    ssl.create_default_context, refl, documented.default_certificate, documented.default_hostname,
  )
  context-Verifies true (some (x ∷ path)) readable =
      with_extra_ca-Verifies (x ∷ path) (λ c. readable (x ∷ path) c refl)

  -- With ssl on, and an extra file that can be read if one is named, the connection is made to the address
  -- within the timeout, over a context that verifies the server's certificate exactly if `ssl_verify` is
  -- set; that the certificate is for the host is verified only if no extra file is named as well.
  pub create_protocol_checks :
      (loop : Loop C) (address : Address) (ssl_verify : Bool) (ssl_extra_ca : Option Bytes)
      (timeout : Option ℕ)
      → ((path : Bytes) (c : C)
          → ssl_extra_ca ≡ some path
          → (d : C) × (ssl.load_verify_locations path c ≡ some d))
      → (tls : C) × (create_protocol ssl loop address true ssl_verify ssl_extra_ca timeout
          ≡ within timeout (connect loop address (some tls)))
        × (certificate tls ≡ ssl_verify)
        × (hostname tls ≡ (ssl_verify && not (is_given ssl_extra_ca)))
  unfolding create_protocol connect_with
  create_protocol_checks loop address ssl_verify ssl_extra_ca timeout readable =
      let (tls, used, certified, named) = context-Verifies ssl_verify ssl_extra_ca readable in
      (tls, ap (connect_with loop address timeout) used, certified, named)
