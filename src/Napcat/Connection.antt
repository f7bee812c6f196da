-- ===== src/Napcat/Connection.antt =====
-- connection.py: the pending calls of a OneBot channel, the frames that it reads, and the channel that
-- the service uses. The echo of a call, a random UUID, is given with it.
pub mod Calls
pub mod Reader
pub mod Channels
use data_assistant.Base.Text.{is_empty}
use data_assistant.Base.{
  ◌++◌, ◌<>◌, str_eq, ◌||◌, true, if◌then◌else◌, none, ◌∷◌, false, String, Bool, List, [], Option,
  some,
}
use data_assistant.Base.Json.{Json, Fields, get, str, obj}

-- The future of a call. It is `dropped` if the call ended by an exception before the future was done.
pub data Future : Type 0 where
  waiting : Future
  answered : Fields → Future
  refused : String → Future
  cancelled dropped : Future

-- `OneBotActionClient`. All calls that were made are kept, with their futures.
pub record Client : Type 0 where
  pub pending : List String
  pub calls : List (String × Future)
  pub closed : Bool

unfoldable pub new_client : Client
new_client = record { pending = []; calls = []; closed = false }

unfoldable pub is_pending : String → List String → Bool
is_pending echo [] = false
is_pending echo (e ∷ pending) = str_eq echo e || is_pending echo pending

unfoldable pub pop : String → List String → List String
pop echo [] = []
pop echo (e ∷ pending) = let rest = pop echo pending in if str_eq echo e then rest else e ∷ rest

unfoldable pub future_of : String → List (String × Future) → Option Future
future_of echo [] = none
future_of echo ((e, f) ∷ calls) = if str_eq echo e then some f else future_of echo calls

-- A future that is done stays as it is.
unfoldable pub done_by : Future → Future → Future
done_by result waiting = result
done_by result f = f

unfoldable pub settle_call : String → Future → List (String × Future) → List (String × Future)
unfolding done_by
settle_call echo result [] = []
settle_call echo result ((e, f) ∷ calls) =
    (e, if str_eq echo e then done_by result f else f) ∷ settle_call echo result calls

-- `call_action`, up to the sending of the message; `none` if the channel is not connected.
unfoldable pub start_call : Bool → String → Client → Option Client
start_call ws_closed echo client =
    if client.closed || ws_closed
    then none
    else some (record client {
      pending = client.pending ++ echo ∷ [];
      calls = client.calls ++ (echo, waiting) ∷ [];
    })

-- The timer of `wait_for`.
unfoldable pub cancel_call : String → Client → Client
unfolding settle_call
cancel_call echo client = record client { calls = settle_call echo cancelled client.calls }

-- What the handlers of exceptions do in `call_action`.
unfoldable pub drop_call : String → Client → Client
unfolding settle_call pop
drop_call echo client = record client {
  pending = pop echo client.pending;
  calls = settle_call echo dropped client.calls;
}

unfoldable pub consume_echo : Fields → Json → Client → Bool × Client
unfolding is_pending settle_call pop
consume_echo payload (str echo) client =
    if is_pending echo client.pending
    then (
      true,
      record client {
        pending = pop echo client.pending;
        calls = settle_call echo (answered payload) client.calls;
      },
    )
    else (false, client)
consume_echo payload _ client = (false, client)

unfoldable pub consume_action_response : Fields → Client → Bool × Client
unfolding consume_echo get
consume_action_response payload client = consume_echo payload (get "echo" payload) client

unfoldable pub settle_calls : List String → Future → List (String × Future) → List (String × Future)
unfolding settle_call
settle_calls [] result calls = calls
settle_calls (echo ∷ pending) result calls =
    settle_calls pending result (settle_call echo result calls)

unfoldable pub close : String → Client → Client
unfolding settle_calls
close reason client = if client.closed then client else record {
  pending = [];
  calls = settle_calls client.pending (refused reason) client.calls;
  closed = true;
}

-- A frame, with what `json.loads` makes of its text, or the timeout of the heartbeat.
pub data Frame : Type 0 where
  text : Option Json → Frame
  error : Frame
  closing : Frame
  other : Frame
  silence : Frame

-- The loop goes on, hands an event to `on_event`, or ends.
pub data Next : Type 0 where
  again : Next
  dispatch : Fields → Next
  stop : Next

unfoldable pub of_payload : Fields → Bool × Client → Next × Client
of_payload raw (true, client) = (again, client)
of_payload raw (false, client) = (dispatch raw, client)

-- The body of the loop of `_consume_ws_messages`.
unfoldable pub read_frame : Frame → Client → Next × Client
unfolding consume_action_response of_payload
read_frame (text none) client = (again, client)
read_frame (text (some (obj raw))) client = of_payload raw (consume_action_response raw client)
read_frame (text (some _)) client = (again, client)
read_frame error client = (stop, client)
read_frame closing client = (stop, client)
read_frame other client = (again, client)
read_frame silence client = (stop, client)

-- The test of the header `Authorization`; a header that is missing is empty.
unfoldable pub is_authorized : String → String → Bool
is_authorized token header = is_empty token || str_eq header ("Bearer " <> token)
