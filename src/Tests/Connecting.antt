-- ===== src/Tests/Connecting.antt =====
-- The theorems on the OneBot connection, applied to a call that times out and to two connections.
use data_assistant.Napcat.Connection.Reader.Awaited.{called-unanswered}
use data_assistant.Napcat.Connection.Calls.{IsSound}
use data_assistant.Base.{refl, none, ◌≡◌, false, ◌≢◌, [], ◌∷◌, some}
use data_assistant.Base.Json.{Fields, str, obj, dict}
use data_assistant.Napcat.Connection.{
  read_frame, start_call, future_of, cancel_call, waiting, answered, cancelled, text, Client,
}
use data_assistant.Napcat.Connection.Reader.{
  after_frame, connected-IsSound, connected, handling, received, timed_out, here, next, Connection,
  Steps,
}
use data_assistant.Napcat.Connection.Channels.{
  change_all-IsSingle, no_channels, change_all, IsSingle, connection, disconnection,
}

abbrev an_event_frame : Fields
an_event_frame = dict (("post_type", str "message") ∷ [])

abbrev at_event : Connection
at_event = record {
  client = record { pending = []; calls = []; closed = false };
  reader = handling none;
}

abbrev with_call : Client
with_call = record { pending = "rpc_1" ∷ []; calls = ("rpc_1", waiting) ∷ []; closed = false }

abbrev calling : Connection
calling = record { client = with_call; reader = handling (some "rpc_1") }

abbrev timed_out_call : Connection
timed_out_call = record calling { client = record with_call { calls = ("rpc_1", cancelled) ∷ [] } }

to_timeout : Steps calling timed_out_call
unfolding cancel_call
to_timeout = next here (timed_out "rpc_1" calling)

call_started : start_call false "rpc_1" at_event.client ≡ some with_call
unfolding start_call
call_started = refl

no_call : future_of "rpc_1" at_event.client.calls ≡ none
unfolding future_of
no_call = refl

called-unanswered_example :
    future_of "rpc_1" timed_out_call.client.calls
    ≢ some (answered (dict (("echo", str "rpc_1") ∷ [])))
called-unanswered_example =
    called-unanswered at_event false "rpc_1" with_call refl call_started no_call timed_out_call
      to_timeout (dict (("echo", str "rpc_1") ∷ []))

to_event : Steps connected at_event
unfolding connected read_frame after_frame dict
to_event = next here (received (text (some (obj an_event_frame))) connected refl)

connected-IsSound_example : IsSound at_event.client
connected-IsSound_example = connected-IsSound at_event to_event

change_all-IsSingle_example :
    IsSingle (change_all (connection ∷ connection ∷ disconnection 0 ∷ []) no_channels)
change_all-IsSingle_example = change_all-IsSingle (connection ∷ connection ∷ disconnection 0 ∷ [])
