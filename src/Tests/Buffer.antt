-- ===== src/Tests/Buffer.antt =====
-- The buffer of runtime events at a few events.
use break_pilot.Common.{
  ◌-◌, ◌+◌, String, Option, none, some, List, [], ◌∷◌, ◌++◌, map, ◌≡◌, nat_eq, string_eq, take,
  drop, length, ltb, ◌otherwise◌, Number, ℤ,
}
use break_pilot.Events
use break_pilot.Events.History
use break_pilot.Events.History.{perform_all-Holds}
use break_pilot.Events.Paging.{from, part, read-page, read-read}
use break_pilot.Events.Copies.{copy_event-normalized}

abbrev said : String → Events.EventInput
said message = record {
  kind = "output";
  breakpoint_id = Events.leaf Events.other;
  thread_id = Events.leaf Events.other;
  message = Events.leaf (Events.text message);
  category = Events.leaf Events.other;
  position = none;
  metadata = some (("reason", Events.leaf (Events.text "step")) ∷ []);
}

abbrev event_calls : List History.Call
event_calls =
    History.appending "t1" (said "a")
    ∷ History.appending "t2" (said "b")
    ∷ History.reading none none
    ∷ History.appending "t3" (said "c")
    ∷ []

abbrev two : Option Number
two = some (Number.integer (ℤ.pos 2))

perform_all-Holds_example :
    let reached = History.perform_all (Events.create "s" two) [] event_calls in
    History.Holds reached.1 reached.0
perform_all-Holds_example = perform_all-Holds "s" two event_calls

abbrev reached : Events.Buffer × List Events.Event
reached = History.perform_all (Events.create "s" two) [] event_calls

read-page_example :
    let page = (Events.read reached.0 none two).1 in
    (page.items ≡ map Events.copy_event (part reached.0 none two reached.1))
    × (page.next_cursor ≡ from reached.0 none reached.1 + length page.items)
    × (page.has_more ≡ ltb page.next_cursor (length reached.1))
    × (page.dropped_count
        ≡ History.gone reached.0 reached.1 - (none otherwise reached.0.default_cursor))
    × (page.overflowed ≡ ltb 0 page.dropped_count)
    × History.Holds reached.1 (Events.read reached.0 none two).0
read-page_example = read-page reached.1 reached.0 none two (perform_all-Holds "s" two event_calls)

read-read_example :
    let first = Events.read reached.0 none two in
    let second = Events.read first.0 none none in
    first.1.items ++ second.1.items
    ≡ map Events.copy_event (
        take
          (Events.normalize_limit two + Events.normalize_limit none)
          (drop (from reached.0 none reached.1) reached.1))
read-read_example = read-read reached.1 reached.0 two none (perform_all-Holds "s" two event_calls)

copy_event-normalized_example :
    Events.copy_event (Events.normalized reached.0 "t4" (said "d"))
    ≡ Events.normalized reached.0 "t4" (said "d")
copy_event-normalized_example = copy_event-normalized reached.0 "t4" (said "d")
