-- ===== src/Net/Actor/Feed/Routing.antt =====
-- Which actor of the tree a message reaches.
use jsoff.Base.{String, false, none, some, List, ◌≡◌, refl, arith}
use jsoff.Value.{Any}
use jsoff.Result.{Result, ok, err_method_not_found}
use jsoff.Message.{
  Message, RequestMessage, request, new_error_message_from_id, is_request, is_response, must_id,
  must_method, must_params, mk_request,
}
use jsoff.Net.Actor.{RpcRequest, Actor, actor, Children, no_children, add, has, any_has, node}
use jsoff.Net.Actor.Feed.{feed, feed_children, feed_missing, method_not_found}

module _ {W : Type 0} (decode_template : Message → Result (List (String × Any))) where
  no_child-feeds :
      (cs : Children W) (method : String) (req : RpcRequest) (w : W)
      → any_has cs method ≡ false
      → feed_children decode_template cs method req w ≡ none
  unfolding any_has feed_children
  no_child-feeds no_children method req w h = refl
  no_child-feeds (add c cs) method req w h = ground (arith, no_child-feeds cs method req w)

  -- A request for a method that no actor of the tree handles, with no missing handler at its root,
  -- is answered by the error for an unknown method, with the id and the trace id of the request,
  -- and no callback runs: the world is as it was.
  pub feed-method_not_found :
      (a : Actor W) (req : RpcRequest) (m : RequestMessage) (w : W)
      → req.msg ≡ request m
      → m.base.kind ≡ mk_request
      → (node a).missing_handler ≡ none
      → has a m.method ≡ false
      → feed decode_template a req w
        ≡ (ok (some (new_error_message_from_id m.id m.base.trace_id err_method_not_found)), w)
  unfolding feed feed_missing method_not_found has is_response is_request must_id must_method
      must_params
  feed-method_not_found (actor n cs) req m w same kind nothing unknown =
      ground (arith, no_child-feeds cs m.method req w)
