-- ===== src/Napcat/Connection/Reader.antt =====
-- The loop that reads a connection, and the tasks that call its client, as steps that may come in any
-- order. The loop awaits `on_event`, and so receives nothing while an event is handled.
pub mod Lost
pub mod Awaited
use data_assistant.Base.Json.{Fields, obj}
use data_assistant.Napcat.Connection.Calls.{
  consume_action_response-IsSound, drop_call-IsSound, cancel_call-IsSound, close-IsSound,
  start_call-IsSound, IsSound,
}
use data_assistant.Base.{refl, false, true, ◌≢◌, Bool, none, ◌≡◌, String, Option, some}
use data_assistant.Napcat.Connection.{
  close, silence, other, drop_call, closing, cancel_call, error, future_of, of_payload, start_call,
  text, new_client, Frame, read_frame, Client, waiting, again, dispatch, stop, Next,
}

-- The loop receives, or it handles an event, which may wait for a call on the same client; or it has
-- ended.
pub data Reader : Type 0 where
  receiving : Reader
  handling : Option String → Reader
  ended : Reader

pub record Connection : Type 0 where
  pub client : Client
  pub reader : Reader

-- What the loop does next; when it ends, the handler of the connection closes the client.
unfoldable pub after_frame : Next × Client → Connection
unfolding close
after_frame (again, client) = record { client = client; reader = receiving }
after_frame (dispatch raw, client) = record { client = client; reader = handling none }
after_frame (stop, client) = record {
  client = close "NapCat action channel disconnected" client;
  reader = ended;
}

pub data Step : Connection → Connection → Type 0 where
  received :
      (frame : Frame) (c : Connection)
      → c.reader ≡ receiving
      → Step c (after_frame (read_frame frame c.client))
  -- The event that is handled makes a call.
  called :
      (ws_closed : Bool) (echo : String) (client : Client) (c : Connection)
      → c.reader ≡ handling none
      → start_call ws_closed echo c.client ≡ some client
      → Step c (record { client = client; reader = handling (some echo) })
  -- Its call ends, when the future is done.
  resumed :
      (echo : String) (c : Connection)
      → c.reader ≡ handling (some echo)
      → future_of echo c.client.calls ≢ some waiting
      → Step c (record c { reader = handling none })
  handled : (c : Connection) → c.reader ≡ handling none → Step c (record c { reader = receiving })
  -- The handling of an event of another connection makes a call here.
  called_elsewhere :
      (ws_closed : Bool) (echo : String) (client : Client) (c : Connection)
      → start_call ws_closed echo c.client ≡ some client
      → Step c (record c { client = client })
  timed_out :
      (echo : String) (c : Connection) → Step c (record c { client = cancel_call echo c.client })
  left : (echo : String) (c : Connection) → Step c (record c { client = drop_call echo c.client })
  -- A newer connection takes its place.
  replaced :
      (reason : String) (c : Connection) → Step c (record c { client = close reason c.client })

pub data Steps (c : Connection) : Connection → Type 0 where
  here : Steps c c
  next : {d e : Connection} → Steps c d → Step d e → Steps c e

unfoldable pub connected : Connection
unfolding new_client
connected = record { client = new_client; reader = receiving }

read_frame-IsSound :
    (frame : Frame) (client : Client) → IsSound client → IsSound (read_frame frame client).1
unfolding read_frame
read_frame-IsSound (text none) client h = h
read_frame-IsSound (text (some (obj raw))) client h =
    of_payload-IsSound raw _ (consume_action_response-IsSound raw client h)
  where
    of_payload-IsSound :
        (raw : Fields) (o : Bool × Client) → IsSound o.1 → IsSound (of_payload raw o).1
    of_payload-IsSound raw (true, client) h = h
    of_payload-IsSound raw (false, client) h = h
read_frame-IsSound (text (some _)) client h = h
read_frame-IsSound error client h = h
read_frame-IsSound closing client h = h
read_frame-IsSound other client h = h
read_frame-IsSound silence client h = h

after_frame-IsSound : (o : Next × Client) → IsSound o.1 → IsSound (after_frame o).client
unfolding after_frame
after_frame-IsSound (again, client) h = h
after_frame-IsSound (dispatch raw, client) h = h
after_frame-IsSound (stop, client) h = close-IsSound "NapCat action channel disconnected" client h

Step-IsSound : {c d : Connection} → Step c d → IsSound c.client → IsSound d.client
Step-IsSound (received frame c e) h = after_frame-IsSound _ (read_frame-IsSound frame c.client h)
Step-IsSound (called ws_closed echo client c r e) h =
    start_call-IsSound ws_closed echo c.client client e h
Step-IsSound (resumed echo c r e) h = h
Step-IsSound (handled c r) h = h
Step-IsSound (called_elsewhere ws_closed echo client c e) h =
    start_call-IsSound ws_closed echo c.client client e h
Step-IsSound (timed_out echo c) h = cancel_call-IsSound echo c.client h
Step-IsSound (left echo c) h = drop_call-IsSound echo c.client h
Step-IsSound (replaced reason c) h = close-IsSound reason c.client h

Steps-IsSound : {c d : Connection} → IsSound c.client → Steps c d → IsSound d.client
Steps-IsSound h here = h
Steps-IsSound h (next steps step) = Step-IsSound step (Steps-IsSound h steps)

-- After any steps from the connection on, each call that waits is pending; a response that answers a
-- call has its echo; and nothing is pending once the client is closed, so no call waits.
pub connected-IsSound : (c : Connection) → Steps connected c → IsSound c.client
unfolding connected new_client future_of
connected-IsSound c steps =
    Steps-IsSound
      (record {
        registered = λ echo w. absurd cc;
        own = λ echo payload w. absurd cc;
        emptied = λ e. refl;
      })
      steps
