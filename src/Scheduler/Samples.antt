-- ===== src/Scheduler/Samples.antt =====
-- A platform where everything works, and an event: for tests.
use leda.Prelude.{◌≢◌, true, none, List, [], ◌∷◌}
use leda.Prelude.Int.{pos}
use leda.Lua.{Value, number}
use leda.Lua.Samples.{by_number}
use leda.Event.{extract_event, copy_elements, copy_event_element, copy_each, copy_value}
use leda.Instance.Samples.{boots}
use leda.Remote.Samples.{link}
use leda.Scheduler.{Platform}

abbrev pub platform : Platform
platform = record {
  boot = boots;
  marshal = by_number;
  link = link;
  registered = true;
  timer_added = true;
  submitted = true;
}

abbrev pub message : List Value
message = number (pos 7) ∷ []

pub message_copies : copy_each by_number message ≢ none
unfolding copy_each copy_value
message_copies e = cc

pub message_extracts : extract_event by_number message ≢ none
unfolding extract_event copy_elements copy_event_element
message_extracts e = cc
