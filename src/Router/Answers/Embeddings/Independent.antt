-- ===== src/Router/Answers/Embeddings/Independent.antt =====
-- What a reply of the two handlers depends on.
use go_feather_route.Router.Server.{Server}
