-- ===== src/Router/Embeddings/Again.antt =====
-- The answer that `normalizeEmbeddingResponse` forwards, read again.
use mathlib.Core.List.{Perm}
use go_feather_route.Prelude.{
  ℕ, ◌≡◌, refl, sym, ap, subst, ◌∙◌, Bool, true, false, Option, none, some, List, map, Bytes, codes,
  if◌then◌else◌,
}
use go_feather_route.Prelude.Int.{pos}
use go_feather_route.Prelude.Dict.{Dict, lookup, insert, bytes_eq}
use go_feather_route.Wire.{object}
use go_feather_route.Contract.{
  EmbeddingData, EmbeddingRequest, Codec, decode_embedding_request, input_count,
}
use go_feather_route.Contract.Problems.{good, Problem, or_bad, marshal_failed}
use go_feather_route.Router.Embeddings.{
  arrange, response_data, rewritten, normalize_embedding_response,
}
use go_feather_route.Router.Embeddings.Sorting.{count_from}
use go_feather_route.Router.Embeddings.Order.{>>=-good, arrange_sound}
use go_feather_route.Router.Embeddings.Settled.{arrange_again, arrange_kept}

-- What encoding/json keeps: the embedding data that it has written, and the data of the field "data"
-- of an object that it has written.
pub record IsLossless (codec : Codec) : Type 0 where
  pub data_kept :
      (items : List EmbeddingData) (text : Bytes)
      → codec.marshal_data items ≡ some text
      → codec.unmarshal_data text ≡ some items
  pub field_kept :
      (envelope : Dict Bytes Bytes) (value text : Bytes)
      → codec.json.marshal_object (insert (codes "data") value envelope) ≡ some text
      → (envelope' : Dict Bytes Bytes) × (value' : Bytes) × (codec.json.unmarshal_object text
          ≡ object envelope')
        × (lookup (codes "data") envelope' ≡ some value')
        × (codec.unmarshal_data value' ≡ codec.unmarshal_data value)

or_bad-good {ℓ} :
    {A : Type ℓ} (p : Problem) (o : Option A) (a : A) → or_bad p o ≡ good a → o ≡ some a
or_bad-good p none a h = cc
or_bad-good p (some b) a h = let same : b ≡ a = cc in ap some same

-- The data of an accepted answer, and of what is made of it: as many items as the request has inputs.
pub record IsForwarded (codec : Codec) (request_body response_body out : Bytes) : Type 0 where
  pub request : EmbeddingRequest
  pub expected : ℕ
  pub envelope : Dict Bytes Bytes
  pub items : List EmbeddingData
  pub out_envelope : Dict Bytes Bytes
  pub ordered : List EmbeddingData
  pub asked : decode_embedding_request codec request_body ≡ good request
  pub counted : input_count codec request ≡ good expected
  pub received : response_data codec response_body ≡ good (envelope, items)
  pub forwarded : response_data codec out ≡ good (out_envelope, ordered)
  pub same_items : Perm ordered items
  pub in_order : map (λ i. i.index) ordered ≡ map pos (count_from 0 expected)

module _ (codec : Codec) where
  response_data_lem :
      (body : Bytes) (envelope : Dict Bytes Bytes) (value : Bytes) (l : List EmbeddingData)
      → codec.json.unmarshal_object body ≡ object envelope
      → lookup (codes "data") envelope ≡ some value
      → codec.unmarshal_data value ≡ some l
      → response_data codec body ≡ good (envelope, l)
  unfolding response_data
  response_data_lem body envelope value l decoded found read =
      rw (decoded, response_data) (rw found (rw read refl))

  normalize_lem :
      (request_body body : Bytes) (request : EmbeddingRequest) (expected : ℕ)
      (envelope : Dict Bytes Bytes) (l : List EmbeddingData)
      → decode_embedding_request codec request_body ≡ good request
      → input_count codec request ≡ good expected
      → response_data codec body ≡ good (envelope, l)
      → arrange expected l ≡ good (false, l)
      → normalize_embedding_response codec request_body body ≡ good body
  unfolding normalize_embedding_response
  normalize_lem request_body body request expected envelope l asked counted received arranged =
      rw asked (rw counted (rw received (rw arranged refl)))

  rewritten-response_data :
      (lossless : IsLossless codec) (envelope : Dict Bytes Bytes) (l : List EmbeddingData)
      (out : Bytes)
      → rewritten codec envelope l ≡ good out
      → (out_envelope : Dict Bytes Bytes) × (response_data codec out ≡ good (out_envelope, l))
  unfolding rewritten
  rewritten-response_data lossless envelope l out h =
      let (text, written, placed) = >>=-good (or_bad marshal_failed (codec.marshal_data l)) _ h in
      let marshalled = or_bad-good marshal_failed _ text written in
      let (out_envelope, value, decoded, found, kept) =
        lossless.field_kept envelope text out (or_bad-good marshal_failed _ out placed) in
      (
        out_envelope,
        response_data_lem out out_envelope value l decoded found
            (kept ∙ lossless.data_kept l text marshalled),
      )

  -- The forwarded body has the arranged data, which stay in place the next time.
  forwards :
      (lossless : IsLossless codec) (response_body out : Bytes) (expected : ℕ)
      (envelope : Dict Bytes Bytes) (items l : List EmbeddingData) (moved : Bool)
      → response_data codec response_body ≡ good (envelope, items)
      → arrange expected items ≡ good (moved, l)
      → (if moved then rewritten codec envelope l else good response_body) ≡ good out
      → (out_envelope : Dict Bytes Bytes) × (response_data codec out ≡ good (out_envelope, l))
        × (arrange expected l ≡ good (false, l))
  forwards lossless response_body out expected envelope items l true received arranged h =
      let (out_envelope, forwarded) = rewritten-response_data lossless envelope l out h in
      (out_envelope, forwarded, arrange_again expected items l arranged)
  forwards lossless response_body out expected envelope items l false received arranged h =
      let body : response_body ≡ out = cc in
      let same = arrange_kept expected items l arranged in
      (
        envelope,
        subst (λ b. response_data codec b ≡ good (envelope, l)) body (rw same received),
        subst (λ i. arrange expected i ≡ good (false, l)) (sym same) arranged,
      )

  -- Where encoding/json gives back the embedding data that it has written, the answer that is forwarded
  -- to the client decodes to the upstream's vectors, each as often, one for each input of the request, in
  -- the order of their indices; and it is itself accepted and left as it is.
  pub normalize_embedding_response-IsForwarded :
      (lossless : IsLossless codec) (request_body response_body out : Bytes)
      → normalize_embedding_response codec request_body response_body ≡ good out
      → (normalize_embedding_response codec request_body out ≡ good out)
        × IsForwarded codec request_body response_body out
  unfolding normalize_embedding_response
  normalize_embedding_response-IsForwarded lossless request_body response_body out h =
      let (request, asked, h1) = >>=-good (decode_embedding_request codec request_body) _ h in
      let (expected, counted, h2) = >>=-good (input_count codec request) _ h1 in
      let ((envelope, items), received, h3) = >>=-good (response_data codec response_body) _ h2 in
      let ((moved, l), arranged, h4) = >>=-good (arrange expected items) _ h3 in
      let (in_order, same_items, _) = arrange_sound expected items l moved arranged in
      let (out_envelope, forwarded, again) =
        forwards lossless response_body out expected envelope items l moved received arranged h4 in
      (
        normalize_lem request_body out request expected out_envelope l asked counted forwarded
            again,
        record {
          request = request;
          expected = expected;
          envelope = envelope;
          items = items;
          out_envelope = out_envelope;
          ordered = l;
          asked = asked;
          counted = counted;
          received = received;
          forwarded = forwarded;
          same_items = same_items;
          in_order = in_order;
        },
      )
