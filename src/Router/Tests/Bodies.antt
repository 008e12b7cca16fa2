-- ===== src/Router/Tests/Bodies.antt =====
-- Streams, bounded reads and embeddings on small bodies.
use go_feather_route.Prelude.{
  ℕ, ◌-◌, ◌^◌, ◌≤◌, ◌≡◌, refl, Bool, true, false, Option, none, some, List, [], ◌∷◌, Bytes, codes,
  contains, has_prefix, All, map, arith,
}
use go_feather_route.Prelude.Float64.{Float64, finite}
use go_feather_route.Prelude.Int.{ℤ, pos, negsuc}
use go_feather_route.Prelude.Numbers.{trim_space}
use go_feather_route.Usage.{parse_sse}
use go_feather_route.Usage.Joined.{later}
use go_feather_route.Router.Stream.{split_last_event}
use go_feather_route.Router.Stream.Counted.{stream_usage_lem}
use go_feather_route.Prelude.{if◌then◌else◌, strip_prefix?, str_eq, ◌++◌}
use go_feather_route.Wire.{eof, Body, content, concat}
use go_feather_route.Contract.{EmbeddingData}
use go_feather_route.Contract.Problems.{good}
use go_feather_route.Router.DoneMarker.{scan, done_marker, stream_contains_done}
use go_feather_route.Router.DoneMarker.Scan.{scan-contains}
use go_feather_route.Router.Stream.{Moment, stream_response_with_usage}
use go_feather_route.Router.Stream.Relayed.{completed_sound, undisturbed_completes}
use go_feather_route.Router.Bodies.{read_bounded, read_bounded-eq, read_bounded-max}
use go_feather_route.Router.Embeddings.{arrange}
use go_feather_route.Router.Embeddings.Order.{arrange_sound, IsVector}
use go_feather_route.Router.Embeddings.Complete.{arrange_complete}
use mathlib.Core.List.{Perm}

abbrev split_marker : List Bytes
split_marker = codes "data: 1\n\ndata: [DO" ∷ codes "NE" ∷ codes "]\n\n" ∷ []

scan-contains_example : scan false [] split_marker ≡ true
unfolding contains has_prefix concat
scan-contains_example = scan-contains split_marker

abbrev stream : Body
stream = record { reads = split_marker; final = []; cause = eof }

abbrev calm : ℕ → Moment
calm index = record { expired = false; write_fails = false; since_start = pos 1000 }

abbrev no_usage : Bytes → Option (ℤ × ℤ × ℤ)
no_usage body = none

completed : (stream_response_with_usage no_usage calm stream).0 ≡ true
unfolding stream_response_with_usage contains has_prefix stream_contains_done
completed = refl

completed_sound_example :
    ((stream_response_with_usage no_usage calm stream).1.written ≡ content stream)
    × (contains done_marker (content stream) ≡ true)
    × (eof ≡ eof)
completed_sound_example = completed_sound no_usage calm stream completed

undisturbed_completes_example : (stream_response_with_usage no_usage calm stream).0 ≡ true
unfolding contains has_prefix content concat
undisturbed_completes_example =
    undisturbed_completes no_usage calm stream (λ i. refl) (λ i. refl) refl refl

-- A stream whose usage stands in its first event, which is cut in two.
abbrev counted : Body
counted = record {
  reads = codes "data: 7\n" ∷ codes "\ndata: [DO" ∷ [];
  final = codes "NE]\n\n";
  cause = eof;
}

abbrev seven : Bytes → Option (ℤ × ℤ × ℤ)
seven body = if str_eq body (codes "7") then some (pos 3, pos 4, pos 7) else none

counted_completes : (stream_response_with_usage seven calm counted).0 ≡ true
unfolding stream_response_with_usage contains has_prefix stream_contains_done
counted_completes = refl

counted_total : (stream_response_with_usage seven calm counted).1.stream_usage.total ≡ pos 7
unfolding stream_response_with_usage contains has_prefix stream_contains_done parse_sse trim_space
    strip_prefix? str_eq
counted_total = refl

stream_usage_lem_example :
    (parse_sse seven (content counted)
      ≡ later
          (stream_response_with_usage seven calm counted).1.stream_usage
          (parse_sse seven (stream_response_with_usage seven calm counted).1.usage_tail))
    × (split_last_event (stream_response_with_usage seven calm counted).1.usage_tail ≡ none)
    × (events : Bytes) × (content counted
        ≡ events ++ (stream_response_with_usage seven calm counted).1.usage_tail)
    × ((stream_response_with_usage seven calm counted).1.stream_usage ≡ parse_sse seven events)
stream_usage_lem_example = stream_usage_lem seven calm counted counted_completes

read_bounded-eq_example :
    (read_bounded stream (pos 100) ≡ some (content stream))
    × (read_bounded stream (negsuc 100) ≡ none)
unfolding content concat
read_bounded-eq_example = read_bounded-eq stream 100 (omega arith)

read_bounded-max_example : read_bounded stream (pos (2 ^ 63 - 1)) ≡ some []
read_bounded-max_example = read_bounded-max stream

abbrev item : ℕ → Float64 → EmbeddingData
item index value = record { index = pos index; embedding = value ∷ finite false 0 ∷ [] }

abbrev swapped : List EmbeddingData
swapped = item 1 (finite false 11) ∷ item 0 (finite false 10) ∷ []

abbrev ordered : List EmbeddingData
ordered = item 0 (finite false 10) ∷ item 1 (finite false 11) ∷ []

sorted : arrange 2 swapped ≡ good (true, ordered)
unfolding arrange
sorted = refl

arrange_sound_example :
    (map (λ (i : EmbeddingData). i.index) ordered ≡ pos 0 ∷ pos 1 ∷ [])
    × Perm ordered swapped
    × ((d : ℕ) × (1 ≤ d) × All (IsVector 2 d) swapped)
arrange_sound_example = arrange_sound 2 swapped ordered true sorted

arrange_complete_example :
    (moved : Bool) × (l : List EmbeddingData) × (arrange 2 swapped ≡ good (moved, l))
arrange_complete_example =
    arrange_complete 2 2 swapped (omega arith) refl
      (1, refl, omega arith, (λ p. cc, tt), (0, refl, omega arith, tt, tt))
      ((refl, refl), ((refl, refl), tt))
