-- ===== src/Net/Transport/Tests.antt =====
-- The transports over a network that counts what it is asked.
use jsoff.Base.{ℕ, suc, none, true, false, ◌≡◌, refl}
use jsoff.Net.Samples.{json, hello}
use jsoff.Message.{request}
use jsoff.Net.Streaming.{failed, transport_closed}
use jsoff.Net.Streaming.Reach.Channel.{TransportLaws}
use jsoff.Net.Transport.{
  Network, Line, tcp, websocket, net_failed, connect_line, close_line, write_line, read_line,
  line_transport,
}
use jsoff.Net.Transport.Laws.{line-TransportLaws}

abbrev counts : Network ℕ
counts = record {
  dial = λ n. (none, suc n);
  hang_up = λ n. suc n;
  receive = λ n. (
    net_failed (record {
      is_eof = true;
      is_closed = false;
      is_op_error = false;
      is_url_error = false;
      text = "EOF";
    }),
    suc n,
  );
  transmit = λ s n. (none, suc n);
}

abbrev unconnected : Line ℕ
unconnected = record { is_open = false; has_decoder = false; crashed = false; net = 0 }

connects : (connect_line json tcp counts unconnected).1.is_open ≡ true
unfolding connect_line
connects = refl

read_end :
    (read_line json tcp counts (connect_line json tcp counts unconnected).1).0
    ≡ failed transport_closed
unfolding connect_line read_line
read_end = refl

write_unconnected : (write_line json tcp counts (request hello) unconnected).1.crashed ≡ true
unfolding write_line
write_unconnected = refl

decoder_of_closed :
    (close_line json tcp counts (connect_line json tcp counts unconnected).1).has_decoder ≡ true
unfolding connect_line close_line
decoder_of_closed = refl

websocket_of_closed :
    (close_line json websocket counts
      (connect_line json websocket counts unconnected).1).has_decoder
    ≡ false
unfolding connect_line close_line
websocket_of_closed = refl

line-TransportLaws_example : TransportLaws (line_transport json tcp counts)
line-TransportLaws_example = line-TransportLaws json tcp counts
