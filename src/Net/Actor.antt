-- ===== src/Net/Actor.antt =====
-- net/request.go: actors, which dispatch messages to the callbacks of methods. A callback is code
-- of the user: a function from the request, its params and a world `W` that it acts on. Logging
-- is left out, and so are the context and the HTTP request that an `RpcRequest` carries.
pub mod Feed
pub mod Tree
pub mod Public
pub mod Typed
use jsoff.Base.{
  String, Bool, true, false, Option, none, some, List, [], ◌∷◌, ◌++◌, map, ◌==◌, ◌||◌, lookup,
  store, delete, is_some, if◌then◌else◌,
}
use jsoff.Value.{Any}
use jsoff.Result.{Result, ok, err, panic, an_error, foreign}
use jsoff.Message.{Message}
use jsoff.Schema.{Schema}

pub record RpcRequest : Type 0 where
  pub msg : Message
  pub transport_type : String
  pub session : Option String

-- What a callback returns for `any`: a message, or a plain value.
pub data Reply : Type 0 where
  plain : Any → Reply
  message : Message → Reply

-- RequestCallback, MissingCallback, CloseCallback (over the id of the session)
abbrev pub RequestCallback : Type 0 → Type 0
RequestCallback W = RpcRequest → List Any → W → Result Reply × W

abbrev pub MissingCallback : Type 0 → Type 0
MissingCallback W = RpcRequest → W → Result Reply × W

abbrev pub CloseCallback : Type 0 → Type 0
CloseCallback W = String → W → W

pub record MethodHandler (W : Type 0) : Type 0 where
  pub callback : RequestCallback W
  pub schema : Option Schema

-- The fields of an `Actor` but for its children.
pub record Node (W : Type 0) : Type 0 where
  pub validate_schema : Bool
  pub recover_from_panic : Bool
  pub method_handlers : List (String × MethodHandler W)
  pub missing_handler : Option (MissingCallback W)
  pub close_handler : Option (CloseCallback W)

mutual
  pub data Actor (W : Type 0) : Type 0 where
    actor : Node W → Children W → Actor W

  pub data Children (W : Type 0) : Type 0 where
    no_children : Children W
    add : Actor W → Children W → Children W

abbrev pub keys {ℓ} : {V : Type ℓ} → List (String × V) → List String
keys [] = []
keys ((k, v) ∷ m) = k ∷ keys m

abbrev pub or_schema : Option Schema → Option Schema → Option Schema
or_schema (some s) later = some s
or_schema none later = later

abbrev pub or_panic : {A : Type 0} → Result A → Result A
or_panic (err e) = panic (an_error e)
or_panic r = r

module _ {W : Type 0} where
  abbrev pub node : Actor W → Node W
  node (actor n cs) = n

  abbrev pub children : Actor W → Children W
  children (actor n cs) = cs

  abbrev pub append_child : Children W → Actor W → Children W
  append_child no_children c = add c no_children
  append_child (add a cs) c = add a (append_child cs c)

  unfoldable pub add_child : Actor W → Actor W → Actor W
  add_child (actor n cs) c = actor n (append_child cs c)

  -- `OnRequest`; a setter sets the schema of the handler, the last one given.
  unfoldable pub on_request :
      Actor W → String → RequestCallback W → Option Schema → Result (Actor W)
  on_request (actor n cs) method callback schema =
      if is_some (lookup method n.method_handlers)
      then err (foreign "handler already exist!")
      else ok (
          actor
            (record n {
              method_handlers =
                  store method (record { callback = callback; schema = schema }) n.method_handlers;
            })
            cs)

  -- `On` and `OnContext`, for a callback that reads the params and one that reads the context also, which is
  -- that of the request: they panic with an error.
  unfoldable pub on :
      Actor W → String → (List Any → W → Result Reply × W) → Option Schema → Result (Actor W)
  on a method callback schema = or_panic (on_request a method (λ req. callback) schema)

  unfoldable pub on_context :
      {Context : Type 0}
      → (RpcRequest → Context)
      → Actor W
      → String
      → (Context → List Any → W → Result Reply × W)
      → Option Schema
      → Result (Actor W)
  on_context context_of a method callback schema =
      or_panic (on_request a method (λ req. callback (context_of req)) schema)

  unfoldable pub off : Actor W → String → Actor W
  off (actor n cs) method =
      actor (record n { method_handlers = delete method n.method_handlers }) cs

  unfoldable pub on_missing : Actor W → MissingCallback W → Result (Actor W)
  on_missing (actor n cs) handler = elim n.missing_handler [
    | some _ ↦ err (foreign "missing handler already exist!")
    | none ↦ ok (actor (record n { missing_handler = some handler }) cs)
  ]

  unfoldable pub on_close : Actor W → CloseCallback W → Result (Actor W)
  on_close (actor n cs) handler = elim n.close_handler [
    | some _ ↦ err (foreign "close handler already exist!")
    | none ↦ ok (actor (record n { close_handler = some handler }) cs)
  ]

  abbrev pub call_close : Option (CloseCallback W) → String → W → W
  call_close none session w = w
  call_close (some f) session w = f session w

  -- `HandleClose`: the children first, each of them.
  unfoldable mutual
    pub handle_close : Actor W → String → W → W
    handle_close (actor n cs) session w =
        call_close n.close_handler session (close_children cs session w)

    pub close_children : Children W → String → W → W
    close_children no_children session w = w
    close_children (add c cs) session w = close_children cs session (handle_close c session w)

  -- `getHandler`
  unfoldable pub get_handler : Actor W → String → Option (MethodHandler W)
  get_handler (actor n cs) method = lookup method n.method_handlers

  unfoldable mutual
    pub has : Actor W → String → Bool
    has (actor n cs) method = is_some (lookup method n.method_handlers) || any_has cs method

    pub any_has : Children W → String → Bool
    any_has no_children method = false
    any_has (add c cs) method = has c method || any_has cs method

  unfoldable mutual
    pub method_list : Actor W → List String
    method_list (actor n cs) = keys n.method_handlers ++ method_lists cs

    pub method_lists : Children W → List String
    method_lists no_children = []
    method_lists (add c cs) = method_list c ++ method_lists cs

  abbrev handler_schema : Option (MethodHandler W) → Option Schema
  handler_schema none = none
  handler_schema (some h) = h.schema

  unfoldable mutual
    pub get_schema : Actor W → String → Option Schema
    get_schema (actor n cs) method =
        or_schema (handler_schema (lookup method n.method_handlers)) (get_schemas cs method)

    pub get_schemas : Children W → String → Option Schema
    get_schemas no_children method = none
    get_schemas (add c cs) method = or_schema (get_schema c method) (get_schemas cs method)

unfoldable pub new_actor : (W : Type 0) → Actor W
new_actor W =
    actor
      (record {
        validate_schema = true;
        recover_from_panic = true;
        method_handlers = [];
        missing_handler = none;
        close_handler = none;
      })
      no_children
