-- ===== src/Router/Slots.antt =====
-- The requests that wait for a slot, hold one or have left: the semaphores of `chat` and `embeddings`.
pub mod Bounded
pub mod Progress
use go_feather_route.Prelude.{ℕ, ◌<◌, Bool, true, false, List, [], ◌∷◌, ◌++◌}
use go_feather_route.Prelude.Int.{ℤ, to_nat, add64, minus_one}
use go_feather_route.Router.Server.{Server, Gauges, new_state}
use go_feather_route.Router.Chat.{take_slot, free_slot}

-- Which semaphore a request takes a slot of.
pub data Kind : Type 0 where
  chat_kind stream_kind embedding_kind : Kind

pub data Phase : Type 0 where
  waiting holding left : Phase

abbrev pub slots : Kind → Gauges → ℕ
slots chat_kind g = g.semaphore
slots stream_kind g = g.stream_semaphore
slots embedding_kind g = g.embedding_semaphore

-- The capacities of the channels that `NewServer` makes.
unfoldable pub capacity : Server → Kind → ℕ
capacity server chat_kind = to_nat server.config.server.max_concurrent_requests
capacity server stream_kind = to_nat server.config.server.max_concurrent_streams
capacity server embedding_kind = to_nat server.config.server.max_concurrent_embeddings

-- The send on the channel and the deferred receive.
abbrev pub take : Kind → Gauges → Gauges
take chat_kind g = take_slot false g
take stream_kind g = take_slot true g
take embedding_kind g = record g { embedding_semaphore = add64 g.embedding_semaphore 1 }

abbrev pub free : Kind → Gauges → Gauges
free chat_kind g = free_slot false g
free stream_kind g = free_slot true g
free embedding_kind g = record g { embedding_semaphore = add64 g.embedding_semaphore minus_one }

pub record System : Type 0 where
  pub gauges : Gauges
  pub requests : List (Kind × Phase)

-- A request is served: it takes a slot that is free, and gives it back when its handler returns,
-- however it returns.
pub data Service (server : Server) : System → System → Type 0 where
  admit :
      (g : Gauges) (before after : List (Kind × Phase)) (k : Kind)
      → slots k g < capacity server k
      → Service server
          (record { gauges = g; requests = before ++ ((k, waiting) ∷ after) })
          (record { gauges = take k g; requests = before ++ ((k, holding) ∷ after) })
  release :
      (g : Gauges) (before after : List (Kind × Phase)) (k : Kind)
      → Service server
          (record { gauges = g; requests = before ++ ((k, holding) ∷ after) })
          (record { gauges = free k g; requests = before ++ ((k, left) ∷ after) })

-- One request goes on: it is served, or its context ends while it waits.
pub data Step (server : Server) : System → System → Type 0 where
  served : {s t : System} → Service server s t → Step server s t
  cancel :
      (g : Gauges) (before after : List (Kind × Phase)) (k : Kind)
      → Step server
          (record { gauges = g; requests = before ++ ((k, waiting) ∷ after) })
          (record { gauges = g; requests = before ++ ((k, left) ∷ after) })

-- The states of a server since its start: requests arrive and go on in any order.
pub data Reached (server : Server) : System → Type 0 where
  fresh : Reached server (record { gauges = new_state.gauges; requests = [] })
  arrive :
      {s : System} (k : Kind)
      → Reached server s
      → Reached server (record s { requests = (k, waiting) ∷ s.requests })
  goes_on : {s t : System} → Reached server s → Step server s t → Reached server t
