-- ===== src/Router/Chat.antt =====
-- The chat handler.
use go_feather_route.Prelude.{
  Bool, Option, none, some, List, [], Bytes, codes, is_empty, if◌then◌else◌,
}
use go_feather_route.Prelude.Int.{ℤ, add64, minus_one, not_positive}
use go_feather_route.Prelude.Dict.{insert, bytes_eq}
use go_feather_route.Wire.{Headers, header_get}
use go_feather_route.Contract.{Codec, ChatRequest, decode_chat_request, validate_chat_response}
use go_feather_route.Provider.{ClientApi}
use go_feather_route.Usage.{parse_json}
use go_feather_route.Router.Histogram.{observe, record_duration}
use go_feather_route.Router.Stream.{stream_response_with_usage}
use go_feather_route.Router.Server.{Server, State, Gauges, Counters}
use go_feather_route.Router.Handling.{
  problem, raw, Reply, go, Handler, ◌>>=◌, ◌>>◌, pure, fail, modify, check, bracket,
}
use go_feather_route.Router.Exchange.{
  Request, Env, Chosen, read_body, select_clients, admit, call_upstream, record_response,
  count_retries, copy_headers, refuse_error, read_response, usage_event, relay_body,
}

-- The headers of a stream.
unfoldable pub stream_headers : Headers → Headers
unfolding copy_headers
stream_headers source =
    let copied = copy_headers [] source in
    let typed =
      if is_empty (header_get copied (codes "Content-Type"))
      then insert (codes "Content-Type") (codes "text/event-stream") copied
      else copied in
    insert (codes "X-Accel-Buffering") (codes "no") (
      insert (codes "Connection") (codes "keep-alive")
        (insert (codes "Cache-Control") (codes "no-cache, no-transform") typed))

unfoldable pub count_first_byte : ℤ → State → State
count_first_byte first_byte s = if not_positive first_byte then s else record s {
  counters = record s.counters {
    first_byte_ms = record_duration s.counters.first_byte_ms first_byte;
  };
  first_byte_histogram = observe first_byte s.first_byte_histogram;
}

unfoldable pub count_stream_end : Bool → Bool → Counters → Counters
count_stream_end completed gone c =
    if completed then record c { stream_completed = add64 c.stream_completed 1 } else record c {
      stream_aborted = add64 c.stream_aborted 1;
      cancellations = if gone then add64 c.cancellations 1 else c.cancellations;
    }

abbrev pub enter_stream : Bool → Gauges → Gauges
enter_stream stream g = if stream then record g { active_streams = add64 g.active_streams 1 } else g

abbrev pub leave_stream : Bool → Gauges → Gauges
leave_stream stream g =
    if stream then record g { active_streams = add64 g.active_streams minus_one } else g

abbrev pub count_stream : Bool → State → State
count_stream stream s =
    if stream
    then record s {
      counters = record s.counters { streams_total = add64 s.counters.streams_total 1 };
    }
    else s

-- A slot of the semaphore of streams or of other chats.
abbrev pub take_slot : Bool → Gauges → Gauges
take_slot stream g =
    if stream
    then record g { stream_semaphore = add64 g.stream_semaphore 1 }
    else record g { semaphore = add64 g.semaphore 1 }

abbrev pub free_slot : Bool → Gauges → Gauges
free_slot stream g =
    if stream
    then record g { stream_semaphore = add64 g.stream_semaphore minus_one }
    else record g { semaphore = add64 g.semaphore minus_one }

module _ (codec : Codec) (unmarshal_usage : Bytes → Option (ℤ × ℤ × ℤ)) (server : Server)
    (env : Env) (request : Request) where
  unfoldable pub relay_stream : ChatRequest → Chosen → Handler Reply
  unfolding count_first_byte count_stream_end stream_headers
  relay_stream envelope (r, client, index) s =
      let (completed, relay) = stream_response_with_usage unmarshal_usage env.moments r.body in
      let timed = count_first_byte relay.first_byte (record s {
        counters = record s.counters {
          stream_ms = record_duration s.counters.stream_ms env.stream_time;
        };
        stream_histogram = observe env.stream_time s.stream_histogram;
      }) in
      let event =
        usage_event server env request client.provider_name envelope.model relay.stream_usage r
          index in
      go
        (record {
          status = r.status_code;
          header = stream_headers r.header;
          payload = raw relay.written;
          event = if completed then some event else none;
        })
        (record timed { counters = count_stream_end completed env.gone timed.counters })

  unfoldable pub validated : Bytes → Handler (Unit {0})
  validated body = elim (validate_chat_response codec body) [
    | none ↦ pure tt
    | some p ↦ fail 502 (problem p)
  ]

  unfoldable pub relay_response : ChatRequest → Chosen → Handler Reply
  unfolding validated
  relay_response envelope (r, client, index) = do
    body ← read_response server r
    validated body
    pure (
        relay_body r body (
          usage_event server env request client.provider_name envelope.model
            (parse_json unmarshal_usage body) r index))

  -- From the chosen response to the reply.
  unfoldable pub chat_reply : ChatRequest → Chosen → Handler Reply
  unfolding relay_stream relay_response
  chat_reply envelope (r, client, index) = do
    modify (count_retries r)
    refuse_error server r
    if envelope.stream
        then relay_stream envelope (r, client, index)
        else relay_response envelope (r, client, index)

  -- The part that holds a slot.
  unfoldable pub chat_exchange : Bytes → ChatRequest → List ClientApi → Handler Reply
  unfolding chat_reply
  chat_exchange body envelope clients = do
    (r, client, index) ←
        call_upstream env
          (λ i c. c.chat i (header_get request.header (codes "X-Request-Id")) body envelope.stream)
          clients
    modify (record_response client.provider_name envelope.model r)
    modify (count_stream envelope.stream)
    bracket (enter_stream envelope.stream) (leave_stream envelope.stream)
        (chat_reply envelope (r, client, index))

  unfoldable pub chat_body : Handler Reply
  unfolding chat_exchange
  chat_body = do
    body ← read_body server request
    envelope ← check 400 (decode_chat_request codec body)
    clients ← select_clients server env envelope.model
    admit env
    bracket (take_slot envelope.stream) (free_slot envelope.stream)
        (chat_exchange body envelope clients)

  unfoldable pub chat : Handler Reply
  unfolding chat_body
  chat =
      bracket (λ g. record g { active_chat = add64 g.active_chat 1 })
        (λ g. record g { active_chat = add64 g.active_chat minus_one }) chat_body
