-- ===== src/Router.antt =====
-- internal/router/router.go: the HTTP gateway, a part to each module.
pub mod Labels
pub mod Histogram
pub mod Health
pub mod Selection
pub mod Failover
pub mod DoneMarker
pub mod Bodies
pub mod Exchange
pub mod Chat
pub mod Honest
pub mod Sound
pub mod Keeps
pub mod Balance
pub mod Served
pub mod Slots
pub mod Logging
pub mod Costs
pub mod Answers
pub mod Writer
pub mod Watchdog
pub mod Metrics
pub mod Endpoints
pub mod Mux
pub mod Http
pub mod EmbeddingsHandler
pub mod Server
pub mod Handling
pub mod Stream
pub mod Embeddings
mod Tests
