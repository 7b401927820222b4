-- ===== src/Net/Factory/Tests.antt =====
-- The client for an HTTP/2 URL in clear text, and a header of three flags.
use jsoff.Base.{String, ◌==◌, List, [], ◌∷◌, ◌≡◌, ◌⊎◌, All, refl, lookup, if◌then◌else◌}
use jsoff.Result.{Result, ok, err, foreign}
use jsoff.Message.{Header}
use jsoff.Net.Http1.Client.{values_of}
use jsoff.Net.Factory.{Url, RpcClient, new_client, parse_header_flags, split_colon}
use jsoff.Net.Factory.Laws.{Speaks, new_client-Speaks}
use jsoff.Net.Factory.Flags.{HasColon, values_for, parse_header_flags-values}

abbrev local : Url
local = record { scheme = "h2c"; rest = "://localhost" }

abbrev parse : String → Result Url
parse text = if text == "h2c://localhost" then ok local else err (foreign "parse")

new_client-Speaks_example :
    ((c : RpcClient) × (new_client parse ok "h2c://localhost" ≡ ok c) × Speaks "h2c" local c)
    ⊎ ((new_client parse ok "h2c://localhost" ≡ err (foreign "url scheme not supported"))
        × ((c : RpcClient) → ¬ Speaks "h2c" local c))
new_client-Speaks_example = new_client-Speaks parse ok (λ u. refl) "h2c://localhost" local refl

abbrev same : String → String
same text = text

abbrev flags : List String
flags = "X-A:1" ∷ "X-B:x:y" ∷ "X-A:2" ∷ []

keeps_order : values_for same same "X-A" flags ≡ "1" ∷ "2" ∷ []
unfolding split_colon
keeps_order = refl

splits_once : values_for same same "X-B" flags ≡ "x:y" ∷ []
unfolding split_colon
splits_once = refl

parse_header_flags-values_example :
    ((d : Header) × All HasColon flags
      × (parse_header_flags same same flags ≡ ok d)
      × ((k : String) → values_of (lookup k d) ≡ values_for same same k flags))
    ⊎ ((¬ All HasColon flags)
        × (parse_header_flags same same flags ≡ err (foreign "invalid http header")))
parse_header_flags-values_example = parse_header_flags-values same same flags
