-- ===== src/Sessions/HttpGet/Client.antt =====
-- The HTTP client that HttpGetSession.Setup of sessions/http_get.go makes of the session's parameters, and
-- the transport that sends requests to a proxy. A parsed URL is its scheme and host. strconv.Atoi and
-- strconv.ParseUint, which return a number beside their error, url.Parse and the dialling of QUIC
-- connections are parameters.
pub mod Panics
use sigbench.Prelude.{
  ℕ, ◌≡◌, String, Bool, true, false, not, List, [], ◌∷◌, Option, none, some, Result, ok, err,
  Outcome, returned, panicked, ◌>>=◌, nil_dereference, bad_assertion, lookup, insert, str_eq,
  if◌then◌else◌,
}
use sigbench.Sessions.Api.{Params}
use sigbench.Sessions.Quic.{QuicConnPool, dial_pool}

pub record Url : Type 0 where
  pub scheme : String
  pub host : String

-- tls.Config, as far as Setup fills it in. The session cache has a capacity.
pub record TlsConfig : Type 0 where
  pub insecure_skip_verify : Bool
  pub client_session_cache : Option ℕ
  pub next_protos : List String

-- A function for DialContext: that of net.Dialer, of tls.Dialer, or a stream of a pooled connection.
pub data Dialing (A : Type 0) : Type 0 where
  plain : Dialing A
  with_tls : TlsConfig → Dialing A
  pooled : QuicConnPool A → Dialing A

-- http.Transport, as far as it depends on the parameters.
pub record Transport (A : Type 0) : Type 0 where
  pub dial_context : Option (Dialing A)
  pub dial_tls_context : Option (Dialing A)
  pub max_idle_conns : ℕ
  pub max_idle_conns_per_host : ℕ
  pub max_conns_per_host : ℕ
  pub disable_keep_alives : Bool
  pub proxy : Option Url
  pub tls_next_proto_empty : Bool

-- The client's Transport: an http.Transport, or an httpProxyTransport.
pub data RoundTripper (A : Type 0) : Type 0 where
  direct : Transport A → RoundTripper A
  http_proxy : Url → Transport A → String → RoundTripper A

-- `params[k]`
abbrev pub param : String → Params → String
param k params = elim (lookup k params) [ none ↦ "" | some v ↦ v ]

-- `params[k] == v`
abbrev pub is_set : String → String → Params → Bool
is_set k v params = str_eq (param k params) v

-- `x := default; if s := params[k]; s != "" { x, _ = strconv.Atoi(s) }`
unfoldable pub number_or : (String → ℕ × Option String) → String → ℕ → Params → ℕ
number_or atoi k default params =
    if str_eq (param k params) "" then default else (atoi (param k params)).0

-- The TLS configuration, if "tls" is "true".
unfoldable pub tls_config : (String → ℕ × Option String) → Params → Option TlsConfig
tls_config atoi params =
    if not (is_set "tls" "true" params)
    then none
    else some (record {
      insecure_skip_verify = is_set "insecure" "true" params;
      client_session_cache =
          if str_eq (param "tlsClientSessionCache" params) ""
          then none
          else some (atoi (param "tlsClientSessionCache" params)).0;
      next_protos = [];
    })

abbrev dialing_of : {A : Type 0} → Option TlsConfig → Dialing A
dialing_of none = plain
dialing_of (some c) = with_tls c

unfoldable pub base_transport :
    {A : Type 0} → (String → ℕ × Option String) → ℕ → Params → Transport A
unfolding tls_config number_or
base_transport atoi default_per_host params = record {
  dial_context = some (dialing_of (tls_config atoi params));
  dial_tls_context = none;
  max_idle_conns = number_or atoi "maxIdleConns" 100 params;
  max_idle_conns_per_host = number_or atoi "maxIdleConnsPerHost" default_per_host params;
  max_conns_per_host = number_or atoi "maxConnsPerHost" 0 params;
  disable_keep_alives = is_set "keepAlive" "false" params;
  proxy = none;
  tls_next_proto_empty = false;
}

-- What surrounds Setup; `default_per_host` is http.DefaultMaxIdleConnsPerHost, `dial` dials a connection
-- to a host with the TLS configuration and the value of MaxIncomingStreams, if it is set.
pub record Net (A : Type 0) : Type 0 where
  pub atoi : String → ℕ × Option String
  pub parse_int : String → ℕ × Option String
  pub parse_uint : String → ℕ × Option String
  pub parse_url : String → Result String Url
  pub default_per_host : ℕ
  pub longest : ℕ
  pub dial : String → TlsConfig → Option ℕ → ℕ → Result String A

module _ {A : Type 0} (net : Net A) (params : Params) where
  unfoldable pub quic_max_streams : Option ℕ
  quic_max_streams =
      if str_eq (param "quicMaxStreams" params) ""
      then none
      else some (net.parse_int (param "quicMaxStreams" params)).0

  unfoldable pub new_pool : QuicConnPool A
  unfolding number_or
  new_pool = record {
    n = number_or net.parse_uint "quicMaxConnections" 100 params;
    conns = [];
    cnt = 0;
  }

  -- `tlsConfig.NextProtos = …` on a nil configuration panics.
  unfoldable pub with_quic :
      Url → Option TlsConfig → Transport A → Outcome (Transport A × Option String)
  with_quic u none tr = panicked nil_dereference
  with_quic u (some c) tr = do
    dialled ←
        dial_pool net.longest
          (net.dial u.host (record c { next_protos = "quic" ∷ [] }) quic_max_streams) new_pool
    elim dialled.1 [
      | some e ↦ returned (tr, some e)
      | none ↦ returned (record tr { dial_context = some (pooled dialled.0) }, none)
    ]

  unfoldable pub with_proxy : Url → Transport A → RoundTripper A
  with_proxy u tr =
      if is_set "httpProxy" "true" params
      then (if str_eq u.scheme "https"
          then http_proxy u (record tr { dial_tls_context = tr.dial_context; dial_context = none })
              (param "proxyUser" params)
          else http_proxy u tr (param "proxyUser" params))
      else direct (record tr { proxy = some u })

  -- `s.client.Transport.(*http.Transport)` panics on another transport.
  unfoldable pub without_h2 : RoundTripper A → Outcome (RoundTripper A)
  without_h2 (direct tr) = returned (
      direct (if is_set "h2" "false" params then record tr { tls_next_proto_empty = true } else tr))
  without_h2 (http_proxy u tr user) =
      if is_set "h2" "false" params then panicked bad_assertion else returned (http_proxy u tr user)

  -- What follows the parsing of a proxy's URL.
  unfoldable pub proxied : Url → Transport A → Outcome (RoundTripper A × Option String)
  proxied u tr = do
    made ←
        (if is_set "quic" "true" params
          then with_quic u (tls_config net.atoi params) tr
          else returned (tr, none))
    elim made.1 [
      | some e ↦ returned (direct made.0, some e)
      | none ↦ do client ← without_h2 (with_proxy u made.0); returned (client, none)
    ]

  unfoldable pub setup_client : Outcome (RoundTripper A × Option String)
  setup_client =
      let tr = base_transport net.atoi net.default_per_host params in
      let unproxied : Outcome (RoundTripper A × Option String) =
        without_h2 (direct tr) >>= λ client. returned (client, none) in
      if str_eq (param "proxy" params) ""
      then unproxied
      else elim (net.parse_url (param "proxy" params)) [ err _ ↦ unproxied | ok u ↦ proxied u tr ]

-- The fields of http.Request that RoundTrip changes.
pub record Request : Type 0 where
  pub url : Url
  pub header : List (String × String)

unfoldable pub round_trip : Url → String → Request → Request
round_trip proxy user r = record {
  url = proxy;
  header = insert "X-Proxy-User" user (insert "X-Proxy-Proto" r.url.scheme r.header);
}
