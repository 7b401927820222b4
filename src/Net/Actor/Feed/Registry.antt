-- ===== src/Net/Actor/Feed/Registry.antt =====
-- Registering, looking up and removing handlers.
use jsoff.Base.{
  String, Bool, true, false, Option, none, some, List, [], ◌∷◌, ◌++◌, ◌==◌, ◌||◌, ◌≡◌, refl, sym,
  ap₂, ◌∙◌, ◌↔◌, lookup, lookup-store, lookup-delete, is_some, if◌then◌else◌, arith,
}
use jsoff.Result.{ok, err, foreign}
use jsoff.Schema.{Schema}
use jsoff.Net.Actor.{
  RequestCallback, Node, Actor, actor, Children, no_children, add, has, any_has, keys, method_list,
  method_lists, get_handler, on_request, off,
}

abbrev pub contains : List String → String → Bool
contains [] k = false
contains (j ∷ js) k = j == k || contains js k

contains-append :
    (js ks : List String) (k : String) → contains (js ++ ks) k ≡ (contains js k || contains ks k)
contains-append [] ks k = refl
contains-append (j ∷ js) ks k = ground (arith, contains-append js ks k)

is_some-lookup {ℓ} :
    {V : Type ℓ} (k : String) (m : List (String × V)) → is_some (lookup k m) ≡ contains (keys m) k
unfolding lookup
is_some-lookup k [] = refl
is_some-lookup k ((j, v) ∷ m) = ground (arith, is_some-lookup k m)

module _ {W : Type 0} where
  mutual
    unfolding has method_list

    has-contains : (a : Actor W) (k : String) → has a k ≡ contains (method_list a) k
    has-contains (actor n cs) k =
        ap₂ (λ x y. x || y) (is_some-lookup k n.method_handlers) (any_has-contains cs k)
        ∙ sym (contains-append (keys n.method_handlers) (method_lists cs) k)

    any_has-contains : (cs : Children W) (k : String) → any_has cs k ≡ contains (method_lists cs) k
    any_has-contains no_children k = refl
    any_has-contains (add c cs) k =
        ap₂ (λ x y. x || y) (has-contains c k) (any_has-contains cs k)
        ∙ sym (contains-append (method_list c) (method_lists cs) k)

  -- `Has` says yes exactly to the methods that `MethodList` lists, those of all descendants
  -- included.
  pub has-eq-contains : (a : Actor W) (k : String) → has a k ≡ contains (method_list a) k
  has-eq-contains a k = has-contains a k

  pub on_request-get_handler :
      (n : Node W) (cs : Children W) (method : String) (callback : RequestCallback W)
      (schema : Option Schema) (a' : Actor W) (k : String)
      → on_request (actor n cs) method callback schema ≡ ok a'
      → get_handler a' k ≡ (
          if method == k
          then some (record { callback = callback; schema = schema })
          else get_handler (actor n cs) k)
  unfolding on_request get_handler
  on_request-get_handler n cs method callback schema (actor n' cs') k h = ground (
    arith,
    lookup-store method k (record { callback = callback; schema = schema }) n.method_handlers,
  )

  -- A registration is refused exactly if the actor itself has a handler of the method. After it the
  -- actor has the new handler for the method and the old ones for all others.
  pub on_request_lem :
      (a : Actor W) (method : String) (callback : RequestCallback W) (schema : Option Schema)
      → ((on_request a method callback schema ≡ err (foreign "handler already exist!"))
          ↔ (is_some (get_handler a method) ≡ true))
        × ((a' : Actor W) (k : String)
            → on_request a method callback schema ≡ ok a'
            → get_handler a' k ≡ (
                if method == k
                then some (record { callback = callback; schema = schema })
                else get_handler a k))
  unfolding on_request get_handler
  on_request_lem (actor n cs) method callback schema =
      (ground arith, λ a' k h. on_request-get_handler n cs method callback schema a' k h)

  -- After a method is removed the actor has no handler for it, and the handlers it had for others.
  pub off_lem :
      (a : Actor W) (method k : String)
      → get_handler (off a method) k ≡ (if method == k then none else get_handler a k)
  unfolding off get_handler
  off_lem (actor n cs) method k = lookup-delete method k n.method_handlers
