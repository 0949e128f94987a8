-- ===== src/Tests/Streams.antt =====
-- Examples on the streams of positions.
use roadwisefleet.Prelude.{◌≡◌, refl, List, [], ◌∷◌, eqb, filter, any, if◌then◌else◌}
use roadwisefleet.Hub.Listeners.{
  subscribe, put, unsubscribe, get, put_back, remove, add, has, drop_key, publish, subscriber_count,
  active_trips,
}
use roadwisefleet.Hub.Refinement.{
  Op, step, open_stream, close_stream, run_streams, replay, no_streams, empty_board, Shows,
  run_streams_refines,
}
use roadwisefleet.Hub.Delivery.{times, noting, publish_once}

-- One listener opens the stream of a trip twice, and the first closure is called twice.
abbrev calls : List Op
calls =
    open_stream "t1" 4
    ∷ open_stream "t1" 4
    ∷ open_stream "t2" 5
    ∷ close_stream 0
    ∷ close_stream 0
    ∷ open_stream "t1" 6
    ∷ []

run_streams_refines_example : Shows (run_streams no_streams calls) (replay empty_board calls)
run_streams_refines_example = run_streams_refines calls

publish_once_example :
    times 6 (publish (noting (λ l. eqb l 6)) "t1" (run_streams no_streams calls).entries [])
    ≡ (if (replay empty_board calls).on "t1" 6 then 1 else 0)
publish_once_example = publish_once calls (λ l. eqb l 6) "t1" 6

trips_after : active_trips (run_streams no_streams calls).entries ≡ "t2" ∷ "t1" ∷ []
unfolding run_streams step subscribe put unsubscribe get put_back remove filter add has any drop_key
    active_trips
trips_after = refl

count_after : subscriber_count "t1" (run_streams no_streams calls).entries ≡ 1
unfolding run_streams step subscribe put unsubscribe get put_back remove filter add has any drop_key
    subscriber_count
count_after = refl
