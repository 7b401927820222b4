-- ===== src/Net/Streaming/Pending.antt =====
-- The table of pending requests of net/streaming_client.go: a sync.Map from the id that a request
-- was sent with to the request as the caller made it and its result channel. A channel is the number
-- of the call that made it; the field `expire`, which nothing reads, is left out.
use jsoff.Base.{ℕ, Bool, true, false, ◌==◌, eq_ℤ, Option, none, some, List, [], ◌∷◌, if◌then◌else◌}
use jsoff.Value.{Any, nil, int, str}
use jsoff.Message.{RequestMessage}

pub record PendingRequest : Type 0 where
  pub reqmsg : RequestMessage
  pub result_channel : ℕ

abbrev pub PendingRequests : Type 0
PendingRequests = List (Any × PendingRequest)

-- Go's comparison of two ids, for the ids that decoding and `NewUuid` make: null, an integer, a text.
unfoldable pub same_id : Any → Any → Bool
same_id nil nil = true
same_id (int a) (int b) = eq_ℤ a b
same_id (str s) (str t) = s == t
same_id _ _ = false

-- `Load`, which here only tells whether there is an entry.
unfoldable pub loaded : Any → PendingRequests → Bool
loaded k [] = false
loaded k ((j, p) ∷ m) = if same_id j k then true else loaded k m

-- `Store`
unfoldable pub store_pending : Any → PendingRequest → PendingRequests → PendingRequests
store_pending k p [] = (k, p) ∷ []
store_pending k p ((j, q) ∷ m) =
    let rest = store_pending k p m in if same_id j k then (k, p) ∷ m else (j, q) ∷ rest

-- `LoadAndDelete`
unfoldable pub load_and_delete : Any → PendingRequests → Option PendingRequest × PendingRequests
load_and_delete k [] = (none, [])
load_and_delete k ((j, p) ∷ m) =
    let rest = load_and_delete k m in if same_id j k then (some p, m) else (rest.0, (j, p) ∷ rest.1)
