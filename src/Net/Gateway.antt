-- ===== src/Net/Gateway.antt =====
-- net/gateway_handler.go: one port for the handlers of HTTP/1, WebSocket and HTTP/2.
use jsoff.Base.{
  String, Bool, true, false, Option, none, ◌==◌, ◌≡◌, ◌↔◌, ◌≢◌, eq_iff, if◌then◌else◌, arith,
}
use jsoff.Result.{Result}
use jsoff.Net.Http1.{Response}
use jsoff.Net.Session.{Opened, answered, opened, websocket, http2, fresh}
use jsoff.Net.Session.Ws.{serve_ws}
use jsoff.Net.Session.Http2.{serve_http2}

-- What the handler reads of a request, and what the libraries make of it: whether its protocol is HTTP/2 at
-- least, its header "Upgrade", the answer of the library if the upgrade to a WebSocket fails, and whether the
-- response can be flushed.
pub record Incoming : Type 0 where
  pub proto_2 : Bool
  pub upgrade : String
  pub refusal : Option Response
  pub flushes : Bool

module _ {W : Type 0} (h2c : (Incoming → W → Opened W) → Incoming → W → Opened W)
    (http1 : W → Result Response × W) where
  -- The handler of HTTP/2 that `NewGatewayHandler` makes; `h2c` is the library's handler of HTTP/2 in clear text.
  abbrev pub h2_handler : (insecure : Bool) → Incoming → W → Opened W
  h2_handler true r w = h2c (λ asked. serve_http2 true asked.proto_2 asked.flushes http1) r w
  h2_handler false r w = serve_http2 false r.proto_2 r.flushes http1 w

  -- `ServeHTTP`
  unfoldable pub serve_gateway : (insecure : Bool) → Incoming → W → Opened W
  serve_gateway insecure r w =
      if r.proto_2
      then h2_handler insecure r w
      else if r.upgrade == "websocket"
      then serve_ws r.refusal w
      else if r.upgrade == "h2c"
      then h2_handler insecure r w
      else answered (http1 w)

  -- The gateway over TLS opens a session over HTTP/2 exactly for an HTTP/2 request whose response can be
  -- flushed, and one over a WebSocket exactly for an older request that asks for an upgrade to "websocket" that
  -- succeeds. An older request that asks for anything else, "h2c" also, is answered by the handler of HTTP/1.
  pub serve_gateway-opens :
      (r : Incoming) (w : W)
      → ((serve_gateway false r w ≡ opened http2 (fresh w))
          ↔ ((r.proto_2 ≡ true) × (r.flushes ≡ true)))
        × ((serve_gateway false r w ≡ opened websocket (fresh w))
            ↔ ((r.proto_2 ≡ false) × (r.upgrade ≡ "websocket") × (r.refusal ≡ none)))
        × (r.proto_2 ≡ false
            → r.upgrade ≢ "websocket"
            → serve_gateway false r w ≡ answered (http1 w))
  unfolding serve_gateway serve_ws serve_http2
  serve_gateway-opens r w = (
    (λ h. ground (arith, eq_iff r.upgrade "websocket"), λ h. ground arith),
    (
      λ h. ground (arith, eq_iff r.upgrade "websocket"),
      λ h. ground (arith, eq_iff r.upgrade "websocket"),
    ),
    λ h h'. ground (arith, eq_iff r.upgrade "websocket"),
  )
