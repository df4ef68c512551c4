-- ===== src/Tests/Ide.antt =====
-- The registry of IDE clients at small inputs.
use break_pilot.Common.{
  string_eq, ℕ, ◌<◌, true, false, Option, none, some, List, [], ◌∷◌, ◌≡◌, refl, integer, ℤ, ◌⊎◌,
}
use break_pilot.Common.Dict.{get}
use break_pilot.Ide
use break_pilot.Ide.Records
use break_pilot.Ide.Upsert
use break_pilot.Ide.Consistency
use break_pilot.Ide.Calls
use break_pilot.Ide.Calls.{perform_all-IsConsistent}
use break_pilot.Ide.Epochs
use break_pilot.Ide.Epochs.{perform_all-IsKept, upsert_session-pause_epochs}
use break_pilot.Ide.Merging
use break_pilot.Ide.Merging.{negotiate-merge_all}

abbrev all_on : Ide.Features
all_on f = some true

abbrev no_streams : Ide.Features
no_streams Ide.event_stream = some false
no_streams f = none

abbrev version_two : Option Ide.Features → Ide.Protocol
version_two features = record { version = some (integer (ℤ.pos 2)); features = features }

abbrev pausing : ℕ → Records.BridgeMessage ℕ
pausing epoch = record {
  ide_session_id = some "d1";
  workspace_root = some "/w";
  name = none;
  language = some "java";
  active = none;
  stop = record {
    reason = some (Records.text "breakpoint");
    thread_id = some (Records.number (integer (ℤ.pos 1)));
    description = none;
    all_threads_stopped = none;
    top_frame = none;
  };
  stopped = none;
  capabilities = none;
  protocol = version_two (some no_streams);
  pause_epoch = some (integer (ℤ.pos epoch));
  started_at = none;
}

abbrev joining : Calls.Call ℕ
joining = Calls.adding "c1" (some "idea") (some "/w") none (version_two (some all_on)) "10:00"

abbrev first_calls : List (Calls.Call ℕ)
first_calls = joining ∷ Calls.upserting (some "c1") (pausing 3) "paused" "10:01" ∷ []

abbrev later_calls : List (Calls.Call ℕ)
later_calls =
    Calls.upserting (some "c1") (pausing 2) "paused" "10:02"
    ∷ Calls.upserting (some "c1") (pausing 5) "running" "10:03"
    ∷ []

abbrev paused_registry : Records.Registry ℕ
paused_registry = Calls.perform_all Records.new_registry first_calls

perform_all-IsConsistent_example : Consistency.IsConsistent paused_registry
perform_all-IsConsistent_example = perform_all-IsConsistent first_calls

perform_all-IsKept_example :
    Epochs.IsKept "c1:d1" paused_registry.pause_epochs
      (Calls.perform_all paused_registry later_calls).pause_epochs
perform_all-IsKept_example = perform_all-IsKept "c1:d1" paused_registry later_calls refl

-- The client as it is registered.
abbrev joined : Records.Client ℕ
joined = record {
  client_id = "c1";
  ide = some "idea";
  workspace_root = some "/w";
  capabilities = none;
  protocol = version_two (some all_on);
  connected_at = "10:00";
  last_heartbeat_at = "10:00";
}

upsert_session-pause_epochs_example :
    let x = Upsert.upsert_session (some "c1") (pausing 5) "running" "10:03" paused_registry in
    (x ≡ (none, paused_registry))
    ⊎ ((n : ℕ) × (Ide.valid_version (some (integer (ℤ.pos 5))) ≡ some n)
        × (3 < n)
        × (get (Records.session_key "c1" "d1") x.1.pause_epochs ≡ some n))
unfolding Calls.perform_all get Ide.is_debugger_protocol_v2
upsert_session-pause_epochs_example =
    upsert_session-pause_epochs "c1" "d1" joined (pausing 5) "running" "10:03" paused_registry 3
      refl refl refl refl refl

negotiate-merge_all_example :
    Ide.negotiate_debugger_features
      (version_two (some all_on))
      (record {
        version = none;
        features = Merging.merge_all (some no_streams) (some all_on ∷ none ∷ []);
      })
      Ide.event_stream
    ≡ false
negotiate-merge_all_example =
    negotiate-merge_all (version_two (some all_on)) none (some no_streams) (some all_on ∷ none ∷ [])
      Ide.event_stream refl
