-- ===== src/Net/Factory/Laws.antt =====
-- Which client NewClient makes, and what the flags of headers give.
use jsoff.Base.{String, true, false, ◌==◌, ◌≡◌, ◌⊎◌, inl, inr, refl, sym, eq_iff, Bool-cases}
use mathlib.Core.Path.{subst}
use jsoff.Result.{Result, ok, err, foreign}
use jsoff.Net.Factory.{
  Url, RpcClient, http1_client, ws_client, tcp_client, vsock_client, http2_client, new_client,
  client_for, new_http1_client, new_ws_client, new_tcp_client, new_vsock_client, new_http2_client,
}

-- The client for a scheme, by a table.
pub data Speaks : String → Url → RpcClient → Type 0 where
  http : (u : Url) → Speaks "http" u (http1_client u)
  https : (u : Url) → Speaks "https" u (http1_client u)
  ws : (u : Url) → Speaks "ws" u (ws_client u)
  wss : (u : Url) → Speaks "wss" u (ws_client u)
  h2 : (u : Url) → Speaks "h2" u (http2_client (record u { scheme = "https" }) false)
  h2c : (u : Url) → Speaks "h2c" u (http2_client (record u { scheme = "http" }) true)
  tcp : (u : Url) → Speaks "tcp" u (tcp_client u)
  vsock : (u : Url) → Speaks "vsock" u (vsock_client u)

-- None of the schemes of the table.
abbrev pub Unknown : String → Type 0
Unknown scheme =
    ((scheme == "http") ≡ false)
    × ((scheme == "https") ≡ false)
    × ((scheme == "ws") ≡ false)
    × ((scheme == "wss") ≡ false)
    × ((scheme == "h2") ≡ false)
    × ((scheme == "h2c") ≡ false)
    × ((scheme == "tcp") ≡ false)
    × ((scheme == "vsock") ≡ false)

Speaks-known : (scheme : String) (u : Url) (c : RpcClient) → Speaks scheme u c → ¬ Unknown scheme
Speaks-known _ u _ (http _) h = cc (h.0)
Speaks-known _ u _ (https _) h = cc (h.1)
Speaks-known _ u _ (ws _) h = cc (h.2)
Speaks-known _ u _ (wss _) h = cc (h.3)
Speaks-known _ u _ (h2 _) h = cc (h.4)
Speaks-known _ u _ (h2c _) h = cc (h.5)
Speaks-known _ u _ (tcp _) h = cc (h.6)
Speaks-known _ u _ (vsock _) h = cc (h.7)

found :
    (u : Url) (scheme : String) (c : RpcClient)
    → u.scheme ≡ scheme
    → Speaks scheme (record u { scheme = scheme }) c
    → (c : RpcClient) × Speaks u.scheme u c
found u scheme c e h =
    subst (λ s. (c : RpcClient) × Speaks s (record u { scheme = s }) c) (sym e) (c, h)

known : (u : Url) → ((c : RpcClient) × Speaks u.scheme u c) ⊎ Unknown u.scheme
known u = elim (Bool-cases (u.scheme == "http")) [
  | inl e ↦
      inl (found u "http" _ ((eq_iff u.scheme "http").0 e) (http (record u { scheme = "http" })))
  | inr e0 ↦ elim (Bool-cases (u.scheme == "https")) [
    | inl e ↦
        inl (
          found u "https" _ ((eq_iff u.scheme "https").0 e) (https (record u { scheme = "https" })))
    | inr e1 ↦ elim (Bool-cases (u.scheme == "ws")) [
      | inl e ↦ inl (found u "ws" _ ((eq_iff u.scheme "ws").0 e) (ws (record u { scheme = "ws" })))
      | inr e2 ↦ elim (Bool-cases (u.scheme == "wss")) [
        | inl e ↦
            inl (found u "wss" _ ((eq_iff u.scheme "wss").0 e) (wss (record u { scheme = "wss" })))
        | inr e3 ↦ elim (Bool-cases (u.scheme == "h2")) [
          | inl e ↦
              inl (found u "h2" _ ((eq_iff u.scheme "h2").0 e) (h2 (record u { scheme = "h2" })))
          | inr e4 ↦ elim (Bool-cases (u.scheme == "h2c")) [
            | inl e ↦
                inl (
                  found u "h2c" _ ((eq_iff u.scheme "h2c").0 e) (h2c (record u { scheme = "h2c" })))
            | inr e5 ↦ elim (Bool-cases (u.scheme == "tcp")) [
              | inl e ↦ inl (
                  found u "tcp" _ ((eq_iff u.scheme "tcp").0 e) (tcp (record u { scheme = "tcp" })))
              | inr e6 ↦ elim (Bool-cases (u.scheme == "vsock")) [
                | inl e ↦ inl (
                    found u "vsock" _ ((eq_iff u.scheme "vsock").0 e)
                      (vsock (record u { scheme = "vsock" })))
                | inr e7 ↦ inr (e0, e1, e2, e3, e4, e5, e6, e7)
              ]
            ]
          ]
        ]
      ]
    ]
  ]
]

module _ (parse : String → Result Url) (copy : Url → Result Url) where
  unknown :
      (u : Url)
      → Unknown u.scheme
      → client_for parse copy u ≡ err (foreign "url scheme not supported")
  unknown u (e0, e1, e2, e3, e4, e5, e6, e7) = rw (e0, e1, e2, e3, e4, e5, e6, e7) refl

  module _ (faithful : (u : Url) → copy u ≡ ok u) where
    chosen :
        (rest scheme : String) (c : RpcClient)
        → Speaks scheme (record { scheme = scheme; rest = rest }) c
        → client_for parse copy (record { scheme = scheme; rest = rest }) ≡ ok c
    unfolding new_http1_client new_ws_client new_tcp_client new_vsock_client new_http2_client
    chosen rest _ _ (http u) = refl
    chosen rest _ _ (https u) = refl
    chosen rest _ _ (ws u) = refl
    chosen rest _ _ (wss u) = refl
    chosen rest _ _ (h2 u) = rw (faithful u) refl
    chosen rest _ _ (h2c u) = rw (faithful u) refl
    chosen rest _ _ (tcp u) = refl
    chosen rest _ _ (vsock u) = refl

    -- If copying a URL by its text gives the URL, then for a text that is parsed as a URL NewClient makes the
    -- client that the table has for its scheme, and for another scheme it returns an error: none of the
    -- constructors panics at the scheme.
    pub new_client-Speaks :
        (text : String) (u : Url)
        → parse text ≡ ok u
        → ((c : RpcClient) × (new_client parse copy text ≡ ok c) × Speaks u.scheme u c)
          ⊎ ((new_client parse copy text ≡ err (foreign "url scheme not supported"))
              × ((c : RpcClient) → ¬ Speaks u.scheme u c))
    unfolding new_client
    new_client-Speaks text u parsed = elim (known u) [
      | inl (c, speaks) ↦ inl (c, rw parsed (chosen u.rest u.scheme c speaks), speaks)
      | inr none_fits ↦
          inr (
            rw parsed (unknown u none_fits),
            λ c speaks. Speaks-known u.scheme u c speaks none_fits,
          )
    ]
