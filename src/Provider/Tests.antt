-- ===== src/Provider/Tests.antt =====
-- The client against an upstream that answers 503 and then 200.
use go_feather_route.Prelude.{
  ℕ, zero, suc, ◌≤◌, ◌≡◌, refl, true, false, none, some, List, [], ◌∷◌, Bytes, codes, str_eq,
  length, arith,
}
use go_feather_route.Prelude.Int.{pos}
use go_feather_route.Prelude.Dict.{lookup, bytes_eq, get_or}
use go_feather_route.Prelude.Numbers.{atoi, trim_space}
use go_feather_route.Wire.{Headers, header_get, Cause, malformed, Json}
use go_feather_route.Provider.{Client, World, Failure, err, Sent, received, broken, new_client}
use go_feather_route.Provider.Trace.{
  connect_start, connect_done, got_first_response_byte, Hook, new_trace, run_hooks,
}
use go_feather_route.Provider.Trace.Bounds.{Within, run_hooks-Within}
use go_feather_route.Provider.Prepare.{prepare_chat_body}
use go_feather_route.Provider.Call.{chat}
use go_feather_route.Provider.Wait.{retry_delay, retry_after}
use go_feather_route.Provider.Retry.{IsBounded, chat-IsBounded, chat-broken}
use go_feather_route.Provider.Delay.{retry_delay-wrapped}

-- A decoder that finds no object, and copies strings.
abbrev plain_json : Json
plain_json = record {
  unmarshal_object = λ s. malformed;
  unmarshal_string = λ s. some s;
  marshal_string = λ s. s;
  marshal_object = λ m. none;
}

abbrev answer : ℕ → Sent
answer status =
    received status [] (record { reads = []; final = codes "{}"; cause = Cause.eof }) 100
      (connect_start 110 ∷ connect_done 130 ∷ got_first_response_byte 190 ∷ [])

abbrev by_attempt : ℕ → Sent
by_attempt zero = answer 503
by_attempt (suc n) = answer 200

abbrev world : World
world = record {
  creates = λ url. true;
  transport = λ attempt request. by_attempt attempt;
  parse_time = λ s. none;
  jitter = λ attempt. some 7;
  wait = λ attempt delay. none;
}

abbrev cut_off : World
cut_off = record world { transport = λ attempt request. broken Cause.other }

abbrev client : Client
client = new_client (codes "openai") (codes "https://api.example.com/v1/") (codes "key")

two_requests : length (chat plain_json world client [] (codes "{}") false).1 ≡ 2
unfolding chat new_client prepare_chat_body str_eq
two_requests = refl

one_request_of_a_stream : length (chat plain_json world client [] (codes "{}") true).1 ≡ 1
unfolding chat new_client prepare_chat_body str_eq
one_request_of_a_stream = refl

chat-IsBounded_example : IsBounded world 2 (chat plain_json world client [] (codes "{}") false)
chat-IsBounded_example = chat-IsBounded plain_json world client [] (codes "{}") false

chat-broken_example :
    (length (chat plain_json cut_off client [] (codes "{}") false).1 ≤ 1)
    × ((e : Failure) × ((chat plain_json cut_off client [] (codes "{}") false).0 ≡ err e))
chat-broken_example =
    chat-broken plain_json cut_off client [] (codes "{}") false Cause.other (λ request. refl)

abbrev asking : Bytes → Headers
asking seconds = (codes "Retry-After", seconds) ∷ []

retry_delay-wrapped_example : retry_delay world (asking (codes "10000000000")) 0 ≡ 7
unfolding get_or retry_after header_get lookup str_eq atoi trim_space
retry_delay-wrapped_example =
    retry_delay-wrapped world (asking (codes "10000000000")) 0 10000000000 refl (omega arith)
      (omega arith)

-- Two addresses are tried: the second attempt to connect starts before the first has ended.
abbrev racing : List Hook
racing = connect_start 110 ∷ connect_start 410 ∷ connect_done 430 ∷ got_first_response_byte 500 ∷ []

run_hooks-Within_example :
    Within 100 600 (run_hooks 100 racing new_trace).connection_duration
    × Within 100 600 (run_hooks 100 racing new_trace).first_response_duration
run_hooks-Within_example = run_hooks-Within 100 600 racing (omega arith)

racing_duration : (run_hooks 100 racing new_trace).connection_duration ≡ pos 20
unfolding run_hooks
racing_duration = refl

-- A no-break space, U+00A0, before and an ideographic space, U+3000, after the number.
spaced : trim_space (0xC2 ∷ 0xA0 ∷ 9 ∷ b'7' ∷ 0xE3 ∷ 0x80 ∷ 0x80 ∷ 13 ∷ []) ≡ b'7' ∷ []
unfolding trim_space
spaced = refl
