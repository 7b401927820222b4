-- ===== src/Net/Transport.antt =====
-- The transports of net/tcp_client.go, net/vsock_client.go, net/http2_client.go and net/ws_client.go, which the
-- client of net/streaming_client.go runs over. The network is a parameter, over its state `N`; of an error of
-- the library a transport has what it asks about it. A use of a nil pointer crashes the program.
pub mod Laws
mod Tests
use Prim.Native.String
use jsoff.Base.{
  ℕ, ◌⊎◌, inl, inr, ◌&&◌, String, Bool, true, false, ◌||◌, Option, none, some, if◌then◌else◌,
}
use jsoff.Value.{Any}
use jsoff.Result.{GoError, Result, ok, err, panic, context, foreign, ◌>>=◌}
use jsoff.Message.{Message}
use jsoff.Message.Document.{decode_message, document}
use jsoff.Net.Http1.{Json, decode_options}
use jsoff.Net.Session.{Frame, text_frame, other_frame, read_failed}
use jsoff.Net.Streaming.{Transport, Read, failed, skipped, readed, transport_closed}

abbrev pub transport_connect_failed : GoError
transport_connect_failed = foreign "connect refused"

-- `is_closed` is that of "read/write on closed pipe" in a text, or of a websocket.CloseError.
pub record NetError : Type 0 where
  pub is_eof : Bool
  pub is_closed : Bool
  pub is_op_error : Bool
  pub is_url_error : Bool
  pub text : String

-- What the decoder of a stream, or a WebSocket, gives.
pub data Heard : Type 0 where
  heard : Result Any → Heard
  heard_frame : (is_text : Bool) → String → Heard
  net_failed : NetError → Heard

pub record Network (N : Type 0) : Type 0 where
  pub dial : N → Option NetError × N
  pub hang_up : N → N
  pub receive : N → Heard × N
  pub transmit : String → N → Option NetError × N

-- Whether the connection is not nil, and whether there is a decoder, which may stay after a close.
pub record Line (N : Type 0) : Type 0 where
  pub is_open : Bool
  pub has_decoder : Bool
  pub crashed : Bool
  pub net : N

-- What the transports differ in.
pub record Shape : Type 0 where
  pub address_error : Option GoError
  pub connect_error : NetError → GoError
  pub write_error : NetError → GoError
  pub read_error : NetError → GoError
  pub line_end : String
  pub keeps_decoder : Bool

-- `handleTCPError`, and the same of vsock
abbrev pub socket_error : String → NetError → GoError
socket_error what e = if e.is_eof then transport_closed else context what (foreign e.text)

-- `handleHttp2Error`
abbrev pub http2_error : NetError → GoError
http2_error e =
    if e.is_eof || e.is_url_error
    then transport_closed
    else context "h2transport.handleHttp2Error" (foreign e.text)

-- `handleWebsocketError`
abbrev pub websocket_error : NetError → GoError
websocket_error e =
    if e.is_eof || e.is_closed
    then transport_closed
    else context "handleWebsocketError" (foreign e.text)

abbrev pub dial_error : String → NetError → GoError
dial_error what e =
    if e.is_op_error then transport_connect_failed else context what (foreign e.text)

abbrev pub stream_error : NetError → GoError
stream_error e = if e.is_eof || e.is_closed then transport_closed else foreign e.text

abbrev pub tcp : Shape
tcp = record {
  address_error = none;
  connect_error = dial_error "tcp.connect";
  write_error = socket_error "handleTCPError";
  read_error = stream_error;
  line_end = "";
  keeps_decoder = true;
}

-- The numbers in the URL; `parse_uint` is strconv.ParseUint for 32 bits.
abbrev pub vsock_address :
    (parse_uint : String → GoError ⊎ ℕ) → (hostname port : String) → Option GoError
vsock_address parse_uint hostname port = elim (parse_uint hostname) [
  | inl e ↦ some (context "vsock.parseContextId" e)
  | inr n ↦ elim (parse_uint port) [ inl e ↦ some (context "vsock.parsePort" e) | inr m ↦ none ]
]

abbrev pub vsock : Option GoError → Shape
vsock address_error = record {
  address_error = address_error;
  connect_error = dial_error "vsock.connect";
  write_error = socket_error "handleTCPError";
  read_error = stream_error;
  line_end = "";
  keeps_decoder = true;
}

abbrev pub http2 : Shape
http2 = record {
  address_error = none;
  connect_error = http2_error;
  write_error = http2_error;
  read_error = stream_error;
  line_end = "\n";
  keeps_decoder = true;
}

abbrev pub websocket : Shape
websocket = record {
  address_error = none;
  connect_error = dial_error "wstransport.connect";
  write_error = websocket_error;
  read_error = websocket_error;
  line_end = "";
  keeps_decoder = false;
}

module _ {N : Type 0} where
  abbrev pub crash : Line N → Line N
  crash t = record t { crashed = true }

  -- What `ReadMessage` makes of a decoded message or the error of decoding it.
  abbrev pub read_result : Result Message → Line N → Read × Line N
  read_result (ok msg) t = (readed msg, t)
  read_result (err e) t = (failed e, t)
  read_result (panic r) t = (skipped, crash t)

  module _ (json : Json) (shape : Shape) (lib : Network N) where
    abbrev pub after_dial : Line N → Option NetError × N → Option GoError × Line N
    after_dial t (some e, n) = (some (shape.connect_error e), record t { net = n })
    after_dial t (none, n) = (none, record t { is_open = true; has_decoder = true; net = n })

    abbrev pub after_address : Option GoError → Line N → Option GoError × Line N
    after_address (some e) t = (some e, t)
    after_address none t = after_dial t (lib.dial t.net)

    -- `Connect`
    unfoldable pub connect_line : Line N → Option GoError × Line N
    connect_line t = after_address shape.address_error t

    -- `Close`
    unfoldable pub close_line : Line N → Line N
    close_line t =
        if t.is_open
        then record t {
          is_open = false;
          has_decoder = t.has_decoder && shape.keeps_decoder;
          net = lib.hang_up t.net;
        }
        else t

    abbrev pub after_transmit : Line N → Option NetError × N → Option GoError × Line N
    after_transmit t (some e, n) = (some (shape.write_error e), record t { net = n })
    after_transmit t (none, n) = (none, record t { net = n })

    abbrev pub write_printed : Result String → Line N → Option GoError × Line N
    write_printed (err e) t = (some e, t)
    write_printed (panic r) t = (none, crash t)
    write_printed (ok text) t =
        if t.is_open
        then after_transmit t (lib.transmit (String.◌++◌ text shape.line_end) t.net)
        else (none, crash t)

    -- `WriteMessage`
    unfoldable pub write_line : Message → Line N → Option GoError × Line N
    write_line msg t = write_printed (json.print (document msg)) t

    abbrev pub after_receive : Line N → Heard × N → Read × Line N
    after_receive t (heard r, n) =
        read_result (r >>= decode_message decode_options) (record t { net = n })
    after_receive t (heard_frame true text, n) =
        read_result (json.read text >>= decode_message decode_options) (record t { net = n })
    after_receive t (heard_frame false text, n) = (skipped, record t { net = n })
    after_receive t (net_failed e, n) = (failed (shape.read_error e), record t { net = n })

    -- `ReadMessage`
    unfoldable pub read_line : Line N → Read × Line N
    read_line t = if t.has_decoder then after_receive t (lib.receive t.net) else (skipped, crash t)

    abbrev pub line_transport : Transport (Line N)
    line_transport = record {
      connect = connect_line;
      close = close_line;
      connected = λ t. t.is_open;
      read_message = read_line;
      write_message = write_line;
    }

module _ {N : Type 0} (json : Json) (lib : Network N) where
  abbrev pub tcp_transport : Transport (Line N)
  tcp_transport = line_transport json tcp lib

  abbrev pub vsock_transport :
      (parse_uint : String → GoError ⊎ ℕ) → (hostname port : String) → Transport (Line N)
  vsock_transport parse_uint hostname port =
      line_transport json (vsock (vsock_address parse_uint hostname port)) lib

  abbrev pub http2_transport : Transport (Line N)
  http2_transport = line_transport json http2 lib

  abbrev pub websocket_transport : Transport (Line N)
  websocket_transport = line_transport json websocket lib
