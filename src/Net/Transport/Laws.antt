-- ===== src/Net/Transport/Laws.antt =====
-- The transports keep what the streaming client relies on.
use Prim.Native.String
use jsoff.Base.{
  ◌&&◌, if◌then◌else◌, sym, ◌∙◌, String, Bool, true, false, Option, none, some, ◌≡◌, refl,
}
use jsoff.Result.{GoError, Result, ok, err, panic, ◌>>=◌}
use jsoff.Message.{Message}
use jsoff.Net.Http1.{Json, decode_options}
use jsoff.Message.Document.{decode_message, document}
use jsoff.Net.Streaming.{skipped}
use jsoff.Net.Streaming.Reach.Channel.{TransportLaws}
use jsoff.Net.Transport.{
  Shape, Network, Line, NetError, crash, Heard, heard, heard_frame, net_failed, read_result,
  after_dial, after_address, after_transmit, after_receive, write_printed, connect_line, close_line,
  write_line, read_line, line_transport,
}

by_test : {A : Type 0} (b : Bool) (x y : A) (P : A → Type 0) → P x → P y → P (if b then x else y)
by_test true x y P h h' = h
by_test false x y P h h' = h'

module _ {N : Type 0} (json : Json) (shape : Shape) (lib : Network N) where
  dialled :
      (t : Line N) (o : Option NetError × N) (e : GoError)
      → (after_dial json shape lib t o).0 ≡ some e
      → (after_dial json shape lib t o).1.is_open ≡ t.is_open
  dialled t (some e', n) e h = refl
  dialled t (none, n) e h = cc

  addressed :
      (o : Option GoError) (t : Line N) (e : GoError)
      → (after_address json shape lib o t).0 ≡ some e
      → (after_address json shape lib o t).1.is_open ≡ t.is_open
  addressed (some e') t e h = refl
  addressed none t e h = dialled t (lib.dial t.net) e h

  unconnected :
      (t : Line N) (e : GoError)
      → (connect_line json shape lib t).0 ≡ some e
      → (connect_line json shape lib t).1.is_open ≡ t.is_open
  unfolding connect_line
  unconnected t e h = addressed shape.address_error t e h

  closed : (t : Line N) → (close_line json shape lib t).is_open ≡ false
  unfolding close_line
  closed t = go t.is_open refl
    where
      go :
          (b : Bool)
          → t.is_open ≡ b
          → (if b
              then record t {
                is_open = false;
                has_decoder = t.has_decoder && shape.keeps_decoder;
                net = lib.hang_up t.net;
              }
              else t).is_open
            ≡ false
      go true e = refl
      go false e = e

  result-open : (r : Result Message) (t : Line N) → (read_result r t).1.is_open ≡ t.is_open
  result-open (ok m) t = refl
  result-open (err e) t = refl
  result-open (panic p) t = refl

  received-open :
      (t : Line N) (o : Heard × N) → (after_receive json shape lib t o).1.is_open ≡ t.is_open
  received-open t (heard r, n) =
      result-open (r >>= decode_message decode_options) (record t { net = n })
  received-open t (heard_frame true text, n) =
      result-open (json.read text >>= decode_message decode_options) (record t { net = n })
  received-open t (heard_frame false text, n) = refl
  received-open t (net_failed e, n) = refl

  read-open : (t : Line N) → (read_line json shape lib t).1.is_open ≡ t.is_open
  unfolding read_line
  read-open t =
      by_test t.has_decoder (after_receive json shape lib t (lib.receive t.net)) (skipped, crash t)
        (λ o. o.1.is_open ≡ t.is_open) (received-open t (lib.receive t.net)) refl

  transmitted-open :
      (t : Line N) (o : Option NetError × N)
      → (after_transmit json shape lib t o).1.is_open ≡ t.is_open
  transmitted-open t (some e, n) = refl
  transmitted-open t (none, n) = refl

  printed-open :
      (r : Result String) (t : Line N) → (write_printed json shape lib r t).1.is_open ≡ t.is_open
  printed-open (ok text) t =
      by_test t.is_open
        (after_transmit json shape lib t (lib.transmit (String.◌++◌ text shape.line_end) t.net))
        (none, crash t) (λ o. o.1.is_open ≡ t.is_open)
        (transmitted-open t (lib.transmit (String.◌++◌ text shape.line_end) t.net)) refl
  printed-open (err e) t = refl
  printed-open (panic p) t = refl

  -- For every shape of transport, reader and printer of texts and network: a connect that gives an error leaves a
  -- transport that was not connected as it was, a close leaves it not connected, and neither reading nor
  -- writing, whatever fails in them, connects it, which are the laws that the theorem on the sends of the
  -- streaming client assumes of its transport.
  pub line-TransportLaws : TransportLaws (line_transport json shape lib)
  unfolding write_line
  line-TransportLaws = record {
    connect-refused = λ t e h on. sym (unconnected t e h) ∙ on;
    close-closed = closed;
    read-quiet = λ t on. sym (read-open t) ∙ on;
    write-quiet = λ m t on. sym (printed-open (json.print (document m)) t) ∙ on;
  }
