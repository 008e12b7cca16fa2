-- ===== src/Router/DoneMarker.antt =====
-- The search for the end marker of a stream across the chunks of its reads.
pub mod Split
pub mod Scan
use go_feather_route.Prelude.{
  ℕ, ◌+◌, ◌-◌, ◌*◌, Bool, true, false, ◌||◌, List, [], ◌∷◌, ◌++◌, Bytes, codes, contains, length,
  take, drop, leb, ltb, if◌then◌else◌,
}

abbrev pub done_marker : Bytes
done_marker = codes "data: [DONE]"

abbrev pub keep : ℕ
keep = length done_marker - 1

-- The tail is the part of the fixed array that is in use, tail[:tailLength]; a copy into the array
-- writes no more than the array holds.
unfoldable pub update_stream_tail : Bytes → Bytes → Bytes
update_stream_tail tail chunk =
    if leb keep (length chunk)
    then drop (length chunk - keep) chunk
    else if ltb keep (length tail + length chunk)
    then take keep (drop (length tail + length chunk - keep) tail ++ chunk)
    else take keep (tail ++ chunk)

-- The combined array holds the tail and as much of the chunk as there is room for.
unfoldable pub combined : Bytes → Bytes → Bytes
combined tail chunk = take (2 * length done_marker - 1) (tail ++ chunk)

-- Whether the marker is seen, and the new tail.
unfoldable pub stream_contains_done : Bytes → Bytes → Bool × Bytes
unfolding combined update_stream_tail
stream_contains_done tail chunk =
    if contains done_marker chunk
    then (true, update_stream_tail tail chunk)
    else if contains done_marker (combined tail chunk)
    then (true, update_stream_tail tail chunk)
    else (false, update_stream_tail tail chunk)

-- The flag `done` and the tail over the reads of a stream.
unfoldable pub scan : Bool → Bytes → List Bytes → Bool
unfolding stream_contains_done
scan done tail [] = done
scan done tail (chunk ∷ chunks) =
    let (seen, tail') = stream_contains_done tail chunk in scan (done || seen) tail' chunks
