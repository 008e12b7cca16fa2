-- ===== src/Router/Keeps/Words.antt =====
-- Adding one to a gauge and then its opposite, as the deferred calls do.
use go_feather_route.Prelude.{◌≡◌, ap}
use go_feather_route.Prelude.Int.{add64, minus_one, add64-add64-minus_one, add64_lt}
use go_feather_route.Router.Server.{Gauges}
use go_feather_route.Router.Keeps.{IsWord}

pub active_balance :
    (g : Gauges)
    → IsWord g
    → IsWord (record g { active = add64 g.active 1 })
      × (record g { active = add64 (add64 g.active 1) minus_one } ≡ g)
active_balance g w = (
  record {
    active = add64_lt g.active 1;
    active_chat = w.active_chat;
    active_embeddings = w.active_embeddings;
    active_streams = w.active_streams;
    semaphore = w.semaphore;
    embedding_semaphore = w.embedding_semaphore;
    stream_semaphore = w.stream_semaphore;
  },
  ap (λ n. record g { active = n }) (add64-add64-minus_one g.active w.active),
)

pub active_chat_balance :
    (g : Gauges)
    → IsWord g
    → IsWord (record g { active_chat = add64 g.active_chat 1 })
      × (record g { active_chat = add64 (add64 g.active_chat 1) minus_one } ≡ g)
active_chat_balance g w = (
  record {
    active = w.active;
    active_chat = add64_lt g.active_chat 1;
    active_embeddings = w.active_embeddings;
    active_streams = w.active_streams;
    semaphore = w.semaphore;
    embedding_semaphore = w.embedding_semaphore;
    stream_semaphore = w.stream_semaphore;
  },
  ap (λ n. record g { active_chat = n }) (add64-add64-minus_one g.active_chat w.active_chat),
)

pub active_embeddings_balance :
    (g : Gauges)
    → IsWord g
    → IsWord (record g { active_embeddings = add64 g.active_embeddings 1 })
      × (record g { active_embeddings = add64 (add64 g.active_embeddings 1) minus_one } ≡ g)
active_embeddings_balance g w = (
  record {
    active = w.active;
    active_chat = w.active_chat;
    active_embeddings = add64_lt g.active_embeddings 1;
    active_streams = w.active_streams;
    semaphore = w.semaphore;
    embedding_semaphore = w.embedding_semaphore;
    stream_semaphore = w.stream_semaphore;
  },
  ap (λ n. record g { active_embeddings = n })
      (add64-add64-minus_one g.active_embeddings w.active_embeddings),
)

pub active_streams_balance :
    (g : Gauges)
    → IsWord g
    → IsWord (record g { active_streams = add64 g.active_streams 1 })
      × (record g { active_streams = add64 (add64 g.active_streams 1) minus_one } ≡ g)
active_streams_balance g w = (
  record {
    active = w.active;
    active_chat = w.active_chat;
    active_embeddings = w.active_embeddings;
    active_streams = add64_lt g.active_streams 1;
    semaphore = w.semaphore;
    embedding_semaphore = w.embedding_semaphore;
    stream_semaphore = w.stream_semaphore;
  },
  ap (λ n. record g { active_streams = n })
      (add64-add64-minus_one g.active_streams w.active_streams),
)

pub semaphore_balance :
    (g : Gauges)
    → IsWord g
    → IsWord (record g { semaphore = add64 g.semaphore 1 })
      × (record g { semaphore = add64 (add64 g.semaphore 1) minus_one } ≡ g)
semaphore_balance g w = (
  record {
    active = w.active;
    active_chat = w.active_chat;
    active_embeddings = w.active_embeddings;
    active_streams = w.active_streams;
    semaphore = add64_lt g.semaphore 1;
    embedding_semaphore = w.embedding_semaphore;
    stream_semaphore = w.stream_semaphore;
  },
  ap (λ n. record g { semaphore = n }) (add64-add64-minus_one g.semaphore w.semaphore),
)

pub embedding_semaphore_balance :
    (g : Gauges)
    → IsWord g
    → IsWord (record g { embedding_semaphore = add64 g.embedding_semaphore 1 })
      × (record g { embedding_semaphore = add64 (add64 g.embedding_semaphore 1) minus_one } ≡ g)
embedding_semaphore_balance g w = (
  record {
    active = w.active;
    active_chat = w.active_chat;
    active_embeddings = w.active_embeddings;
    active_streams = w.active_streams;
    semaphore = w.semaphore;
    embedding_semaphore = add64_lt g.embedding_semaphore 1;
    stream_semaphore = w.stream_semaphore;
  },
  ap (λ n. record g { embedding_semaphore = n })
      (add64-add64-minus_one g.embedding_semaphore w.embedding_semaphore),
)

pub stream_semaphore_balance :
    (g : Gauges)
    → IsWord g
    → IsWord (record g { stream_semaphore = add64 g.stream_semaphore 1 })
      × (record g { stream_semaphore = add64 (add64 g.stream_semaphore 1) minus_one } ≡ g)
stream_semaphore_balance g w = (
  record {
    active = w.active;
    active_chat = w.active_chat;
    active_embeddings = w.active_embeddings;
    active_streams = w.active_streams;
    semaphore = w.semaphore;
    embedding_semaphore = w.embedding_semaphore;
    stream_semaphore = add64_lt g.stream_semaphore 1;
  },
  ap (λ n. record g { stream_semaphore = n })
      (add64-add64-minus_one g.stream_semaphore w.stream_semaphore),
)
