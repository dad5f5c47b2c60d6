-- ===== src/Sessions/HttpGet/Client/Panics.antt =====
-- When the Setup of sessions/http_get.go panics.
use sigbench.Prelude.{
  ℕ, ◌≤◌, ◌≡◌, ◌≢◌, refl, String, true, false, [], ◌∷◌, Option, none, some, Result, ok, err, Panic,
  Outcome, returned, panicked, running, ◌>>=◌, nil_dereference, bad_assertion, arith, str_eq,
  str_eq_iff, if◌then◌else◌, ◌⊎◌, inl, inr, Bool-cases, ltb,
}
use sigbench.Sessions.Api.{Params}
use sigbench.Sessions.Quic.{QuicConnPool, dial_pool}
use sigbench.Sessions.HttpGet.Client.{
  Url, TlsConfig, Transport, pooled, RoundTripper, direct, http_proxy, Net, param, is_set,
  tls_config, base_transport, new_pool, quic_max_streams, with_quic, with_proxy, without_h2,
  proxied, setup_client,
}

-- A call that does not panic.
abbrev pub IsReturned : {A : Type 0} → Outcome A → Type 0
IsReturned {A} o = (a : A) × (o ≡ returned a)

is_some : {A : Type 0} (a : A) → (b : A) × (some a ≡ some b)
is_some a = (a, refl)

bind-IsReturned :
    {A B : Type 0} (m : Outcome A) (f : A → Outcome B)
    → IsReturned m
    → ((a : A) → IsReturned (f a))
    → IsReturned (m >>= f)
bind-IsReturned (returned a) f h k = k a
bind-IsReturned (panicked p) f (a, e) k = cc
bind-IsReturned running f (a, e) k = cc

dial_pool-IsReturned :
    {A E : Type 0} (longest : ℕ) (dial : ℕ → Result E A) (p : QuicConnPool A)
    → p.n ≤ longest
    → IsReturned (dial_pool longest dial p)
unfolding dial_pool
dial_pool-IsReturned longest dial p h =
    let fits : ltb longest p.n ≡ false = ground arith in rw fits (_, refl)

str_eq-true : (s t : String) → s ≡ t → str_eq s t ≡ true
str_eq-true s t e = ground (arith, str_eq_iff s t)

str_eq-false : (s t : String) → s ≢ t → str_eq s t ≡ false
str_eq-false s t e = ground (arith, str_eq_iff s t)

module _ {A : Type 0} (net : Net A) (params : Params) where
  abbrev base : Transport A
  base = base_transport net.atoi net.default_per_host params

  -- A proxy is configured, and its URL parses.
  abbrev pub HasProxy : Url → Type 0
  HasProxy u = (param "proxy" params ≢ "") × (net.parse_url (param "proxy" params) ≡ ok u)

  setup_client-proxied :
      (u : Url) → HasProxy u → setup_client net params ≡ proxied net params u base
  unfolding setup_client
  setup_client-proxied u (set, parsed) =
      rw (str_eq-false (param "proxy" params) "" set, parsed, setup_client)

  tls_config-none : param "tls" params ≢ "true" → tls_config net.atoi params ≡ none
  unfolding tls_config
  tls_config-none h = rw (str_eq-false (param "tls" params) "true" h) refl

  tls_config-some :
      param "tls" params ≡ "true" → (c : TlsConfig) × (tls_config net.atoi params ≡ some c)
  unfolding tls_config
  tls_config-some h = rw (str_eq-true (param "tls" params) "true" h) (is_some _)

  without_h2-panics :
      (u : Url) (tr : Transport A)
      → param "httpProxy" params ≡ "true"
      → param "h2" params ≡ "false"
      → without_h2 net params (with_proxy net params u tr) ≡ panicked bad_assertion
  unfolding without_h2 with_proxy
  without_h2-panics u tr proxy h2 = elim (Bool-cases (str_eq u.scheme "https")) [
    | inl e ↦
        rw
          (
            str_eq-true (param "httpProxy" params) "true" proxy,
            e,
            str_eq-true (param "h2" params) "false" h2,
          )
          refl
    | inr e ↦
        rw
          (
            str_eq-true (param "httpProxy" params) "true" proxy,
            e,
            str_eq-true (param "h2" params) "false" h2,
          )
          refl
  ]

  without_h2-IsReturned :
      (c : RoundTripper A) → param "h2" params ≢ "false" → IsReturned (without_h2 net params c)
  unfolding without_h2
  without_h2-IsReturned (direct tr) h = (_, refl)
  without_h2-IsReturned (http_proxy u tr user) h =
      (http_proxy u tr user, rw (str_eq-false (param "h2" params) "false" h) refl)

  without_h2-direct : (tr : Transport A) → IsReturned (without_h2 net params (direct tr))
  unfolding without_h2
  without_h2-direct tr = (_, refl)

  -- QUIC is asked for without TLS; or an HTTP proxy, with HTTP/2 switched off and no QUIC.
  abbrev pub IsContradictory : Type 0
  IsContradictory =
      ((param "quic" params ≡ "true") × (param "tls" params ≢ "true"))
      ⊎ ((param "quic" params ≢ "true")
          × (param "httpProxy" params ≡ "true")
          × (param "h2" params ≡ "false"))

  -- Whenever a proxy's URL parses, and QUIC is asked for without TLS, or an HTTP proxy with HTTP/2
  -- switched off and without QUIC, Setup panics.
  pub setup_client-panics :
      (u : Url)
      → HasProxy u
      → IsContradictory
      → (p : Panic) × (setup_client net params ≡ panicked p)
  unfolding proxied with_quic
  setup_client-panics u h (inl (quic, tls)) = (
    nil_dereference,
    rw
        (
          setup_client-proxied u h,
          proxied,
          str_eq-true (param "quic" params) "true" quic,
          tls_config-none tls,
        )
        refl,
  )
  setup_client-panics u h (inr (quic, proxy, h2)) = (
    bad_assertion,
    rw
        (
          setup_client-proxied u h,
          proxied,
          str_eq-false (param "quic" params) "true" quic,
          without_h2-panics u base proxy h2,
        )
        refl,
  )

  -- What rules the panics out: QUIC comes with TLS and a number of connections that a slice can hold,
  -- and HTTP/2 is not switched off with an HTTP proxy.
  pub record IsConsistent : Type 0 where
    pub has_tls : param "quic" params ≡ "true" → param "tls" params ≡ "true"
    pub fits : (new_pool net params).n ≤ net.longest
    pub has_h2 : (param "httpProxy" params ≢ "true") ⊎ (param "h2" params ≢ "false")

  with_proxy-direct :
      (u : Url) (tr : Transport A)
      → param "httpProxy" params ≢ "true"
      → with_proxy net params u tr ≡ direct (record tr { proxy = some u })
  unfolding with_proxy
  with_proxy-direct u tr h = rw (str_eq-false (param "httpProxy" params) "true" h) refl

  without_h2-with_proxy :
      (u : Url) (tr : Transport A)
      → IsConsistent
      → IsReturned (without_h2 net params (with_proxy net params u tr))
  without_h2-with_proxy u tr h = elim h.has_h2 [
    | inl e ↦ rw (with_proxy-direct u tr e) (without_h2-direct (record tr { proxy = some u }))
    | inr e ↦ without_h2-IsReturned (with_proxy net params u tr) e
  ]

  after_dial-IsReturned :
      (tr : Transport A) (q : QuicConnPool A) (e : Option String)
      → IsReturned (elim e as (λ _. Outcome (Transport A × Option String)) [
        | some x ↦ returned (tr, some x)
        | none ↦ returned (record tr { dial_context = some (pooled q) }, none)
      ])
  after_dial-IsReturned tr q none = (_, refl)
  after_dial-IsReturned tr q (some x) = (_, refl)

  with_quic-IsReturned :
      (u : Url) (c : TlsConfig) (tr : Transport A)
      → (new_pool net params).n ≤ net.longest
      → IsReturned (with_quic net params u (some c) tr)
  unfolding with_quic
  with_quic-IsReturned u c tr h =
      bind-IsReturned
        (dial_pool net.longest
          (net.dial u.host (record c { next_protos = "quic" ∷ [] }) (quic_max_streams net params))
          (new_pool net params))
        _ (dial_pool-IsReturned net.longest _ (new_pool net params) h)
        (λ dialled. after_dial-IsReturned tr dialled.0 dialled.1)

  quic-IsReturned :
      (u : Url) (tr : Transport A)
      → IsConsistent
      → IsReturned (
          if is_set "quic" "true" params
          then with_quic net params u (tls_config net.atoi params) tr
          else returned (tr, none))
  quic-IsReturned u tr h = elim (Bool-cases (is_set "quic" "true" params)) [
    | inl on ↦
        let quic : param "quic" params ≡ "true" =
          ground (arith, str_eq_iff (param "quic" params) "true") in
        let (c, e) = tls_config-some (h.has_tls quic) in
        rw (on, e) (with_quic-IsReturned u c tr h.fits)
    | inr off ↦ rw off ((tr, none), refl)
  ]

  finished :
      (u : Url)
      → IsConsistent
      → (tr : Transport A) (e : Option String)
      → IsReturned (elim e as (λ _. Outcome (RoundTripper A × Option String)) [
        | some x ↦ returned (direct tr, some x)
        | none ↦
            without_h2 net params (with_proxy net params u tr) >>= λ client. returned (client, none)
      ])
  finished u h tr none =
      bind-IsReturned (without_h2 net params (with_proxy net params u tr)) _
        (without_h2-with_proxy u tr h) (λ client. ((client, none), refl))
  finished u h tr (some x) = ((direct tr, some x), refl)

  proxied-IsReturned :
      (u : Url) (tr : Transport A) → IsConsistent → IsReturned (proxied net params u tr)
  unfolding proxied
  proxied-IsReturned u tr h =
      bind-IsReturned
        (if is_set "quic" "true" params
          then with_quic net params u (tls_config net.atoi params) tr
          else returned (tr, none))
        _ (quic-IsReturned u tr h) (λ made. finished u h made.0 made.1)

  -- Whenever QUIC is asked for only with TLS, with a number of connections that a slice can hold, and
  -- HTTP/2 is not switched off together with an HTTP proxy, Setup makes its client, or returns an error,
  -- and does not panic, whatever the other parameters are and whether the proxy's URL parses.
  pub setup_client-IsReturned : IsConsistent → IsReturned (setup_client net params)
  unfolding setup_client
  setup_client-IsReturned h =
      let alone : IsReturned {A = RoundTripper A × Option String}
          (without_h2 net params (direct base) >>= λ client. returned (client, none)) =
        bind-IsReturned (without_h2 net params (direct base)) _ (without_h2-direct base)
          (λ client. ((client, none), refl)) in
      elim (Bool-cases (is_set "proxy" "" params)) [
        | inl empty ↦ rw empty alone
        | inr given ↦ rw given (parsed (net.parse_url (param "proxy" params)) alone)
      ]
    where
      parsed :
          (r : Result String Url)
          → IsReturned {A = RoundTripper A × Option String}
              (without_h2 net params (direct base) >>= λ client. returned (client, none))
          → IsReturned (elim r as (λ _. Outcome (RoundTripper A × Option String)) [
            | err _ ↦ without_h2 net params (direct base) >>= λ client. returned (client, none)
            | ok u ↦ proxied net params u base
          ])
      parsed (err e) alone = alone
      parsed (ok u) alone = proxied-IsReturned u base h
