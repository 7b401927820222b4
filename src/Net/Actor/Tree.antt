-- ===== src/Net/Actor/Tree.antt =====
-- Children, close handlers and schemas over the whole tree of actors.
use jsoff.Base.{
  true, ◌⊎◌, inl, inr, is_some, lookup, String, List, [], ◌∷◌, ◌++◌, ◌||◌, ◌≡◌, refl, sym, ap, ◌∙◌,
  Option, none, some, arith,
}
use mathlib.Core.List.{append-nil, append_assoc}
use jsoff.Schema.{Schema}
use jsoff.Net.Actor.{
  MethodHandler, get_schema, get_schemas, or_schema, handler_schema, call_close, CloseCallback,
  Actor, actor, Children, no_children, add, add_child, append_child, has, any_has, handle_close,
  close_children, method_list, method_lists, keys,
}

-- Calls each callback with the session, the first one first.
abbrev pub call_each : {W : Type 0} → List (CloseCallback W) → String → W → W
call_each [] session w = w
call_each (f ∷ fs) session w = call_each fs session (f session w)

call_each-append :
    {W : Type 0} (fs gs : List (CloseCallback W)) (session : String) (w : W)
    → call_each (fs ++ gs) session w ≡ call_each gs session (call_each fs session w)
call_each-append [] gs session w = refl
call_each-append (f ∷ fs) gs session w = call_each-append fs gs session (f session w)

abbrev own_callback : {W : Type 0} → Option (CloseCallback W) → List (CloseCallback W)
own_callback none = []
own_callback (some f) = f ∷ []

or_schema-is_some :
    (o later : Option Schema)
    → is_some (or_schema o later) ≡ true
    → (is_some o ≡ true) ⊎ (is_some later ≡ true)
or_schema-is_some none later h = inr h
or_schema-is_some (some s) later h = inl refl

module _ {W : Type 0} where
  -- The close handlers of a tree, those of an actor's children before its own.
  abbrev mutual
    pub close_handlers : Actor W → List (CloseCallback W)
    close_handlers (actor n cs) = child_handlers cs ++ own_callback n.close_handler

    pub child_handlers : Children W → List (CloseCallback W)
    child_handlers no_children = []
    child_handlers (add c cs) = close_handlers c ++ child_handlers cs

  own_calls :
      (o : Option (CloseCallback W)) (session : String) (w : W)
      → call_close o session w ≡ call_each (own_callback o) session w
  own_calls none session w = refl
  own_calls (some f) session w = refl

  mutual
    unfolding handle_close

    close_calls :
        (a : Actor W) (session : String) (w : W)
        → handle_close a session w ≡ call_each (close_handlers a) session w
    close_calls (actor n cs) session w =
        own_calls n.close_handler session (close_children cs session w)
        ∙ ap (call_each (own_callback n.close_handler) session) (children_calls cs session w)
        ∙ sym (call_each-append (child_handlers cs) (own_callback n.close_handler) session w)

    children_calls :
        (cs : Children W) (session : String) (w : W)
        → close_children cs session w ≡ call_each (child_handlers cs) session w
    children_calls no_children session w = refl
    children_calls (add c cs) session w =
        ap (close_children cs session) (close_calls c session w)
        ∙ children_calls cs session (call_each (close_handlers c) session w)
        ∙ sym (call_each-append (close_handlers c) (child_handlers cs) session w)

  -- Closing a session calls every close handler of the tree once, those of the children before that
  -- of their parent and the children in the order in which they were added.
  pub handle_close-eq-call_each :
      (a : Actor W) (session : String) (w : W)
      → handle_close a session w ≡ call_each (close_handlers a) session w
  handle_close-eq-call_each a session w = close_calls a session w

  any_has-append :
      (cs : Children W) (c : Actor W) (k : String)
      → any_has (append_child cs c) k ≡ (any_has cs k || has c k)
  unfolding has
  any_has-append no_children c k = ground arith
  any_has-append (add b cs) c k = ground (arith, any_has-append cs c k)

  method_lists-append :
      (cs : Children W) (c : Actor W)
      → method_lists (append_child cs c) ≡ method_lists cs ++ method_list c
  unfolding method_list
  method_lists-append no_children c = append-nil (method_list c)
  method_lists-append (add b cs) c =
      ap (λ r. method_list b ++ r) (method_lists-append cs c)
      ∙ sym (append_assoc (method_list b) (method_lists cs) (method_list c))

  -- An actor to which a child was added has the methods of the child after its own, and answers for
  -- exactly the methods of both.
  pub add_child_lem :
      (a c : Actor W) (k : String)
      → (has (add_child a c) k ≡ (has a k || has c k))
        × (method_list (add_child a c) ≡ method_list a ++ method_list c)
  unfolding has method_list add_child
  add_child_lem (actor n cs) c k = (
    ground (arith, any_has-append cs c k),
    ap (λ r. keys n.method_handlers ++ r) (method_lists-append cs c)
        ∙ sym (append_assoc (keys n.method_handlers) (method_lists cs) (method_list c)),
  )

  handler_schema-is_some :
      (o : Option (MethodHandler W)) → is_some (handler_schema o) ≡ true → is_some o ≡ true
  handler_schema-is_some none h = h
  handler_schema-is_some (some f) h = refl

  mutual
    unfolding get_schema has

    schema_of_tree : (a : Actor W) (k : String) → is_some (get_schema a k) ≡ true → has a k ≡ true
    schema_of_tree (actor n cs) k h =
        elim (or_schema-is_some (handler_schema (lookup k n.method_handlers)) (get_schemas cs k)
          h) [
            | inl own ↦ rw (handler_schema-is_some (lookup k n.method_handlers) own) refl
            | inr below ↦ grind (arith, schema_of_children cs k below)
          ]

    schema_of_children :
        (cs : Children W) (k : String) → is_some (get_schemas cs k) ≡ true → any_has cs k ≡ true
    schema_of_children no_children k h = h
    schema_of_children (add c cs) k h =
        elim (or_schema-is_some (get_schema c k) (get_schemas cs k) h) [
          | inl first ↦ rw (schema_of_tree c k first) refl
          | inr later ↦ grind (arith, schema_of_children cs k later)
        ]

  -- A method for which the tree has a schema is one that the tree handles.
  pub get_schema-has : (a : Actor W) (k : String) → is_some (get_schema a k) ≡ true → has a k ≡ true
  get_schema-has a k h = schema_of_tree a k h
