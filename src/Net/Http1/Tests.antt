-- ===== src/Net/Http1/Tests.antt =====
-- Runs of the HTTP/1 handler with a reader and a printer of a few texts, and the theorems about it and
-- about the discovery of methods at concrete inputs.
use jsoff.Base.{String, true, false, [], ◌∷◌, ◌≡◌, ◌⊎◌, refl, pos, codes}
use jsoff.Value.{int}
use jsoff.Result.{GoError, Result, ok, err, ◌>>=◌, err_internal_error}
use jsoff.Message.{Message, request, set_trace_id, new_error_message_from_id}
use jsoff.Message.Document.{decode_message, document}
use jsoff.Message.Factory.Laws.{Answers}
use jsoff.Net.Actor.{method_list}
use jsoff.Net.Actor.Public.{public_schemas, public_names, names_of, public_schemas-names}
use jsoff.Net.Actor.Feed.{feed}
use jsoff.Net.Http1.{serve_http1, decode_options, is_discover, x_headers}
use jsoff.Net.Http1.Laws.{over_http, IsOk, serve_http1-Answers, serve_http1-world}
use jsoff.Validators.{is_method, is_public_method, every, starts_with}
use jsoff.Net.Samples.{
  hello, hello_document, json, map_of, template, greeter, greeter-TreeBehaves, reads_hello,
  decodes_hello,
}

-- A name that unfolds the tests of names.
name_tests : Unit {0}
unfolding is_method is_public_method every starts_with codes
name_tests = tt

dotted_name : is_method "math.add-2" ≡ true
unfolding name_tests
dotted_name = refl

hides_rpc : is_public_method "rpc.discover" ≡ false
unfolding name_tests
hides_rpc = refl

shows_slash : is_public_method "a/b" ≡ true
unfolding name_tests
shows_slash = refl

hides_dash : is_public_method "-a" ≡ false
unfolding name_tests
hides_dash = refl

serve_http1-Answers_example :
    (r : Message) × Answers r (request hello)
    × ((s : String)
        → json.print (document (set_trace_id r "")) ≡ ok s
        → IsOk (serve_http1 json template greeter "POST" (ok "hello") 0).0 r s)
    × ((e : GoError) (s : String)
        → json.print (document (set_trace_id r "")) ≡ err e
        → json.print (document (new_error_message_from_id (int (pos 1)) "t1" err_internal_error))
          ≡ ok s
        → IsOk (serve_http1 json template greeter "POST" (ok "hello") 0).0 r s)
serve_http1-Answers_example =
    serve_http1-Answers json template greeter "hello" hello_document hello 0
      (λ msg. (map_of (document msg), refl)) greeter-TreeBehaves reads_hello decodes_hello refl

serve_http1-world_example :
    ((serve_http1 json template greeter "POST" (ok "hello") 0).1 ≡ 0)
    ⊎ ((text : String) × (msg : Message) × (◌≡◌ {A = String} "POST" "POST")
        × (◌≡◌ {A = Result String} (ok "hello") (ok text))
        × ((json.read text >>= decode_message decode_options) ≡ ok msg)
        × (is_discover msg ≡ false)
        × ((serve_http1 json template greeter "POST" (ok "hello") 0).1
            ≡ (feed template greeter (over_http msg) 0).1))
serve_http1-world_example = serve_http1-world json template greeter "POST" (ok "hello") 0

passes_x_only :
    x_headers (("x-a", "1" ∷ "2" ∷ []) ∷ ("Date", "now" ∷ []) ∷ [])
    ≡ ("x-a", "1") ∷ ("x-a", "2") ∷ []
unfolding x_headers codes
passes_x_only = refl

public_schemas-names_example :
    names_of (public_schemas greeter) ≡ public_names (method_list greeter)
public_schemas-names_example = public_schemas-names greeter
