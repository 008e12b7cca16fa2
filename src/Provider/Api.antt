-- ===== src/Provider/Api.antt =====
-- `Client` as the gateway's `ClientAPI`.
use go_feather_route.Prelude.{refl, inl, inr, ap, ℕ, ◌≤◌, ◌≡◌, ◌⊎◌, Bool, not, [], Bytes, codes}
use go_feather_route.Wire.{Json}
use go_feather_route.Provider.{Client, ClientApi, Response, World, ok}
use go_feather_route.Provider.Call.{Traced, chat, embedding}
use go_feather_route.Provider.Retry.{
  IsBounded, refused, failed_first, failed_second, first, second, HasReason, rate_limited,
  upstream_5xx, most_requests, chat-IsBounded, embedding-IsBounded,
}

-- `worlds` is the environment of the call that the gateway makes at an index of its loop.
unfoldable pub to_api : Json → (Bytes → ℕ → World) → Client → ClientApi
to_api json worlds c = record {
  provider_name = c.name;
  chat =
      λ index request_id body stream. (chat json (worlds c.name index) c request_id body stream).0;
  embedding = λ index request_id body. (embedding json (worlds c.name index) c request_id body).0;
}

-- A response tells of at most that many requests: of one with no reason of a retry, or of two with one
-- of the two reasons.
pub data IsTold (most : ℕ) (r : Response) : Type 0 where
  once : 1 ≤ most → r.attempts ≡ 1 → r.retry_reason ≡ [] → IsTold most r
  twice :
      2 ≤ most
      → r.attempts ≡ 2
      → (r.retry_reason ≡ codes "rate_limited") ⊎ (r.retry_reason ≡ codes "upstream_5xx")
      → IsTold most r

-- Every response of a client does.
pub record IsHonest (c : ClientApi) : Type 0 where
  pub of_chat :
      (index : ℕ) (request_id body : Bytes) (stream : Bool) (r : Response)
      → c.chat index request_id body stream ≡ ok r
      → IsTold (most_requests (not stream)) r
  pub of_embedding :
      (index : ℕ) (request_id body : Bytes) (r : Response)
      → c.embedding index request_id body ≡ ok r
      → IsTold 2 r

known :
    (status : ℕ) (reason : Bytes)
    → HasReason status reason
    → (reason ≡ codes "rate_limited") ⊎ (reason ≡ codes "upstream_5xx")
known status _ (rate_limited h) = inl refl
known status _ (upstream_5xx h) = inr refl

told :
    (world : World) (most : ℕ) (t : Traced) (r : Response)
    → IsBounded world most t
    → t.0 ≡ ok r
    → IsTold most r
told world most t r (refused e) p = absurd (cc p)
told world most t r (failed_first e q h) p = absurd (cc p)
told world most t r (failed_second e q h) p = absurd (cc p)
told world most t r (first a raw q h answer made) p =
    let same : a ≡ r = cc in
    once h (rw (← same) (ap (λ (x : Response). x.attempts) made))
      (rw (← same) (ap (λ (x : Response). x.retry_reason) made))
told world most t r (second a raw raw' q h answer answer' reason made) p =
    let same : a ≡ r = cc in
    twice h (rw (← same) (ap (λ (x : Response). x.attempts) made))
      (rw (← same) (known raw.status_code a.retry_reason reason))

pub to_api-IsHonest :
    (json : Json) (worlds : Bytes → ℕ → World) (c : Client) → IsHonest (to_api json worlds c)
unfolding to_api
to_api-IsHonest json worlds c = record {
  of_chat = λ index request_id body stream r h.
      told (worlds c.name index) (most_requests (not stream))
        (chat json (worlds c.name index) c request_id body stream) r
        (chat-IsBounded json (worlds c.name index) c request_id body stream) h;
  of_embedding = λ index request_id body r h.
      told (worlds c.name index) 2 (embedding json (worlds c.name index) c request_id body) r
        (embedding-IsBounded json (worlds c.name index) c request_id body) h;
}
