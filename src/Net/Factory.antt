-- ===== src/Net/Factory.antt =====
-- net/client_factory.go, the constructors of the clients, and net/client_util.go. The parsing of URLs and the
-- canonical form of a header's name are a library's. What a constructor makes besides the URL is that of an
-- unconnected client.
pub mod Laws
pub mod Flags
mod Tests
use Prim.Native.Char.{code}
use Prim.Native.String
use jsoff.Base.{
  ℕ, String, Bool, true, false, not, ◌&&◌, ◌||◌, ◌==◌, nat_eq, Option, none, some, List, [], ◌∷◌,
  ◌++◌, lookup, store, if◌then◌else◌,
}
use jsoff.Value.{str}
use jsoff.Result.{GoError, Result, ok, err, panic, a_value, context, foreign, ◌>>=◌}
use jsoff.Message.{Header}
use jsoff.Net.Http1.Client.{values_of}

pub record Url : Type 0 where
  pub scheme : String
  pub rest : String

pub data RpcClient : Type 0 where
  http1_client ws_client tcp_client vsock_client : Url → RpcClient
  http2_client : Url → (use_http2c : Bool) → RpcClient

-- `Panicf` of the logger
abbrev pub bad_url : {A : Type 0} → Url → String → Result A
bad_url u what =
    panic
      (a_value (str (String.◌++◌ "server url " (String.◌++◌ u.scheme (String.◌++◌ u.rest what)))))

unfoldable pub new_http1_client : Url → Result RpcClient
new_http1_client u =
    if not (u.scheme == "http") && not (u.scheme == "https")
    then bad_url u " is not http"
    else ok (http1_client u)

unfoldable pub new_ws_client : Url → Result RpcClient
new_ws_client u =
    if not (u.scheme == "ws") && not (u.scheme == "wss")
    then bad_url u " is not websocket"
    else ok (ws_client u)

unfoldable pub new_tcp_client : Url → Result RpcClient
new_tcp_client u = if not (u.scheme == "tcp") then bad_url u " is not tcp" else ok (tcp_client u)

unfoldable pub new_vsock_client : Url → Result RpcClient
new_vsock_client u =
    if not (u.scheme == "vsock") then bad_url u " is not vsock" else ok (vsock_client u)

-- The scheme of HTTP that stands for one of HTTP/2, and whether it is in clear text.
abbrev pub http_scheme : String → String × Bool
http_scheme scheme =
    if scheme == "h2"
    then ("https", false)
    else if scheme == "h2c"
    then ("http", true)
    else (scheme, false)

-- `copied` is what parsing the text of the URL again gives.
unfoldable pub new_http2_client : (copied : Result Url) → Url → Result RpcClient
new_http2_client (err e) u = panic (a_value (str "copy url error"))
new_http2_client (panic r) u = panic r
new_http2_client (ok v) u =
    let (scheme, h2c) = http_scheme v.scheme in
    if not (scheme == "https") && not (scheme == "http")
    then bad_url u " is not http2"
    else ok (http2_client (record v { scheme = scheme }) h2c)

module _ (parse : String → Result Url) (copy : Url → Result Url) where
  abbrev pub client_for : Url → Result RpcClient
  client_for u =
      if u.scheme == "http" || u.scheme == "https"
      then new_http1_client u
      else if u.scheme == "ws" || u.scheme == "wss"
      then new_ws_client u
      else if u.scheme == "h2" || u.scheme == "h2c"
      then new_http2_client (copy u) u
      else if u.scheme == "tcp"
      then new_tcp_client u
      else if u.scheme == "vsock"
      then new_vsock_client u
      else err (foreign "url scheme not supported")

  abbrev pub with_url : Result Url → Result RpcClient
  with_url (ok u) = client_for u
  with_url (err e) = err (context "url.Parse" e)
  with_url (panic r) = panic r

  -- `NewClient`
  unfoldable pub new_client : String → Result RpcClient
  new_client server_url = with_url (parse server_url)

-- `strings.SplitN` at the first colon, in two.
unfoldable pub split_colon : String → String × Option String
split_colon String.[] = ("", none)
split_colon (String.◌∷◌ c s) =
    let rest = split_colon s in
    if nat_eq (code c) 58 then ("", some s) else (String.◌∷◌ c rest.0, rest.1)

module _ (canonical trim : String → String) where
  -- `Add` of http.Header.
  abbrev pub add_value : String → String → Header → Header
  add_value name v h = store (canonical name) (values_of (lookup (canonical name) h) ++ v ∷ []) h

  abbrev pub add_flag : String × Option String → Header → Result Header
  add_flag (name, none) h = err (foreign "invalid http header")
  add_flag (name, some v) h = ok (add_value (trim name) (trim v) h)

  -- The loop of `HeaderFlags.Parse`, from a header on.
  unfoldable pub parse_flags : List String → Header → Result Header
  parse_flags [] h = ok h
  parse_flags (flag ∷ flags) h = add_flag (split_colon flag) h >>= parse_flags flags

  -- `HeaderFlags.Parse`
  abbrev pub parse_header_flags : List String → Result Header
  parse_header_flags flags = parse_flags flags []
