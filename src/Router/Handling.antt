-- ===== src/Router/Handling.antt =====
-- Handlers as steps on the server's state that may stop with a reply, and the deferred calls.
use go_feather_route.Prelude.{ℕ, Option, none, List, [], ◌∷◌, Bytes, codes}
use go_feather_route.Prelude.Int.{ℤ}
use go_feather_route.Prelude.Dict.{Dict}
use go_feather_route.Wire.{Headers}
use go_feather_route.Provider.{Failure}
use go_feather_route.Contract.Problems.{Checked, good, bad, Problem}
use go_feather_route.Usage.{Event}
use go_feather_route.Router.Server.{State, Gauges, Counters}

-- The messages of `writeError`.
pub data Message : Type 0 where
  body_unreadable no_route request_canceled response_too_large error_response_too_large : Message
  invalid_token : Message
  model_not_configured : Bytes → Message
  problem : Problem → Message
  upstream : Failure → Message

pub data Scalar : Type 0 where
  text : Bytes → Scalar
  number : ℤ → Scalar

-- The values that the handlers give to `writeJSON`: a map[string]any, and the list of models, a map
-- whose "data" is a list of maps.
pub data Document : Type 0 where
  fields : Dict Bytes Scalar → Document
  list : List (Dict Bytes Scalar) → Document

pub data Payload : Type 0 where
  error_json : Message → Payload
  json : Document → Payload
  raw : Bytes → Payload

-- What a handler writes to the client, and the usage event that it reports.
pub record Reply : Type 0 where
  pub status : ℕ
  pub header : Headers
  pub payload : Payload
  pub event : Option Event

abbrev pub json_header : Headers
json_header = (codes "Content-Type", codes "application/json") ∷ []

-- `writeJSON` and `writeError`
abbrev pub json_reply : ℕ → Document → Reply
json_reply status value = record {
  status = status;
  header = json_header;
  payload = json value;
  event = none;
}

abbrev pub error_reply : ℕ → Message → Reply
error_reply status message = record {
  status = status;
  header = json_header;
  payload = error_json message;
  event = none;
}

-- A handler's early return, or a value to go on with.
pub data Exit {ℓ} (A : Type ℓ) : Type ℓ where
  stop : Reply → State → Exit A
  go : A → State → Exit A

abbrev pub Handler {ℓ} : Type ℓ → Type ℓ
Handler A = State → Exit A

infixl 5 ◌>>=◌ ◌>>◌
abbrev pub continue {ℓ κ} : {A : Type ℓ} {B : Type κ} → Exit A → (A → Handler B) → Exit B
continue (stop r s) f = stop r s
continue (go a s) f = f a s

abbrev pub ◌>>=◌ {ℓ κ} : {A : Type ℓ} {B : Type κ} → Handler A → (A → Handler B) → Handler B
◌>>=◌ m f s = continue (m s) f

abbrev pub ◌>>◌ {ℓ} : {B : Type ℓ} → Handler (Unit {0}) → Handler B → Handler B
m >> n = m >>= λ _. n

abbrev pub pure {ℓ} : {A : Type ℓ} → A → Handler A
pure a s = go a s

abbrev pub return {ℓ} : {A : Type ℓ} → Reply → Handler A
return r s = stop r s

abbrev pub modify : (State → State) → Handler (Unit {0})
modify f s = go tt (f s)

abbrev pub on_counters : (Counters → Counters) → Handler (Unit {0})
on_counters f s = go tt (record s { counters = f s.counters })

abbrev pub fail {ℓ} : {A : Type ℓ} → ℕ → Message → Handler A
fail status message = return (error_reply status message)

-- `if err != nil { writeError(status, err.Error()); return }`
abbrev pub check {ℓ} : {A : Type ℓ} → ℕ → Checked A → Handler A
check status (good a) = pure a
check status (bad p) = fail status (problem p)

abbrev pub on_gauges : (Gauges → Gauges) → State → State
on_gauges f s = record s { gauges = f s.gauges }

abbrev pub map_state {ℓ} : {A : Type ℓ} → (State → State) → Exit A → Exit A
map_state f (stop r s) = stop r (f s)
map_state f (go a s) = go a (f s)

-- A change of the gauges with its deferred opposite, which runs however the block ends.
unfoldable pub bracket {ℓ} :
    {A : Type ℓ} → (Gauges → Gauges) → (Gauges → Gauges) → Handler A → Handler A
bracket enter leave m s = map_state (on_gauges leave) (m (on_gauges enter s))
