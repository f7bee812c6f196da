-- ===== src/Napcat/Connection/Reader/Lost.antt =====
-- A call that is done without a response stays so.
use data_assistant.Napcat.Connection.Calls.{future_of-settle_same, future_of-settle_other}
use data_assistant.Base.{
  ◌||◌, none, ap, str_eq, false, true, arith, Bool-cases, [], refl, ◌⊎◌, ◌++◌, ◌≡◌, List, Bool,
  String, some, inl, inr, eq_iff, ◌∷◌, if◌then◌else◌, ◌∙◌,
}
use data_assistant.Base.Json.{get, Json, Fields, str, obj}
use data_assistant.Napcat.Connection.{
  drop_call, is_pending, Frame, consume_action_response, cancel_call, read_frame, consume_echo,
  of_payload, settle_call, Client, settle_calls, start_call, done_by, Future, future_of, close,
  waiting, answered, refused, cancelled, dropped, again, dispatch, stop, Next, text, error, closing,
  other, silence,
}
use data_assistant.Napcat.Connection.Reader.{
  after_frame, Step, Connection, received, called, resumed, handled, called_elsewhere, timed_out,
  left, replaced,
}
use mathlib.Core.Path.{subst}

abbrev pub IsLost : Future → Type 0
IsLost waiting = ⊥
IsLost (answered payload) = ⊥
IsLost _ = Unit

-- The call is done without a response.
abbrev pub Lost : String → List (String × Future) → Type 0
Lost echo calls = (f : Future) × (future_of echo calls ≡ some f) × IsLost f

abbrev pub Unanswered : String → List (String × Future) → Type 0
Unanswered echo calls = (future_of echo calls ≡ some waiting) ⊎ Lost echo calls

done_by-IsLost : (result f : Future) → IsLost f → done_by result f ≡ f
unfolding done_by
done_by-IsLost result waiting h = absurd h
done_by-IsLost result (answered payload) h = absurd h
done_by-IsLost result (refused reason) h = refl
done_by-IsLost result cancelled h = refl
done_by-IsLost result dropped h = refl

settle_call-Lost :
    (echo key : String) (result : Future) (calls : List (String × Future))
    → Lost echo calls
    → Lost echo (settle_call key result calls)
settle_call-Lost echo key result calls (f, e, h) = elim (Bool-cases (str_eq echo key)) [
  | inr ne ↦ (f, future_of-settle_other key echo result calls ne ∙ e, h)
  | inl same ↦ (
    f,
    subst (λ y. future_of echo (settle_call y result calls) ≡ some f) ((eq_iff echo key).0 same)
        (future_of-settle_same echo result calls ∙ rw e (ap some (done_by-IsLost result f h))),
    h,
  )
]

pub settle_call-Unanswered :
    (echo key : String) (result : Future) (calls : List (String × Future))
    → IsLost result
    → Unanswered echo calls
    → Unanswered echo (settle_call key result calls)
settle_call-Unanswered echo key result calls lost (inr h) =
    inr (settle_call-Lost echo key result calls h)
settle_call-Unanswered echo key result calls lost (inl w) = elim (Bool-cases (str_eq echo key)) [
  | inr ne ↦ inl (future_of-settle_other key echo result calls ne ∙ w)
  | inl same ↦ inr (
    result,
    subst (λ y. future_of echo (settle_call y result calls) ≡ some result)
        ((eq_iff echo key).0 same)
        (future_of-settle_same echo result calls ∙ rw w (unfold done_by in refl)),
    lost,
  )
]

settle_calls-Unanswered :
    (echo : String) (pending : List String) (result : Future) (calls : List (String × Future))
    → IsLost result
    → Unanswered echo calls
    → Unanswered echo (settle_calls pending result calls)
unfolding settle_calls
settle_calls-Unanswered echo [] result calls lost h = h
settle_calls-Unanswered echo (key ∷ pending) result calls lost h =
    settle_calls-Unanswered echo pending result (settle_call key result calls) lost
      (settle_call-Unanswered echo key result calls lost h)

future_of-longer :
    (echo : String) (f : Future) (calls more : List (String × Future))
    → future_of echo calls ≡ some f
    → future_of echo (calls ++ more) ≡ some f
unfolding future_of
future_of-longer echo f [] more h = absurd cc
future_of-longer echo f ((e, g) ∷ calls) more h =
    ground (arith, h, future_of-longer echo f calls more)

pub start_call-longer :
    (ws_closed : Bool) (echo key : String) (client client' : Client) (f : Future)
    → start_call ws_closed key client ≡ some client'
    → future_of echo client.calls ≡ some f
    → future_of echo client'.calls ≡ some f
unfolding start_call
start_call-longer ws_closed echo key client client' f e h = of_test (client.closed || ws_closed) e
  where
    started : Client
    started = record client {
      pending = client.pending ++ key ∷ [];
      calls = client.calls ++ (key, waiting) ∷ [];
    }

    of_test :
        (b : Bool)
        → (if b then none else some started) ≡ some client'
        → future_of echo client'.calls ≡ some f
    of_test true e' = absurd cc
    of_test false e' =
        let same : started ≡ client' = ground (arith, e') in
        subst (λ (x : Client). future_of echo x.calls ≡ some f) same
          (future_of-longer echo f client.calls ((key, waiting) ∷ []) h)

pub close-Unanswered :
    (echo reason : String) (client : Client)
    → Unanswered echo client.calls
    → Unanswered echo (close reason client).calls
unfolding close
close-Unanswered echo reason client h = of_test client.closed
  where
    of_test :
        (b : Bool)
        → Unanswered echo
            (if b then client else record {
              pending = [];
              calls = settle_calls client.pending (refused reason) client.calls;
              closed = true;
            }).calls
    of_test true = h
    of_test false = settle_calls-Unanswered echo client.pending (refused reason) client.calls tt h

close-Lost :
    (echo reason : String) (client : Client)
    → Lost echo client.calls
    → Lost echo (close reason client).calls
unfolding close settle_calls
close-Lost echo reason client h = of_test client.closed
  where
    all :
        (pending : List String) (calls : List (String × Future))
        → Lost echo calls
        → Lost echo (settle_calls pending (refused reason) calls)
    all [] calls k = k
    all (key ∷ pending) calls k =
        all pending (settle_call key (refused reason) calls)
          (settle_call-Lost echo key (refused reason) calls k)

    of_test :
        (b : Bool)
        → Lost echo
            (if b then client else record {
              pending = [];
              calls = settle_calls client.pending (refused reason) client.calls;
              closed = true;
            }).calls
    of_test true = h
    of_test false = all client.pending client.calls h

either-Lost :
    (echo : String) (b : Bool) (x y : Bool × Client)
    → Lost echo x.1.calls
    → Lost echo y.1.calls
    → Lost echo (if b then x else y).1.calls
either-Lost echo true x y h k = h
either-Lost echo false x y h k = k

consume_echo-Lost :
    (echo : String) (payload : Fields) (v : Json) (client : Client)
    → Lost echo client.calls
    → Lost echo (consume_echo payload v client).1.calls
unfolding consume_echo
consume_echo-Lost echo payload (str key) client h =
    either-Lost echo (is_pending key client.pending) _ _
      (settle_call-Lost echo key (answered payload) client.calls h) h
consume_echo-Lost echo payload _ client h = h

of_payload-Lost :
    (echo : String) (raw : Fields) (o : Bool × Client)
    → Lost echo o.1.calls
    → Lost echo (of_payload raw o).1.calls
unfolding of_payload
of_payload-Lost echo raw (true, client) h = h
of_payload-Lost echo raw (false, client) h = h

read_frame-Lost :
    (echo : String) (frame : Frame) (client : Client)
    → Lost echo client.calls
    → Lost echo (read_frame frame client).1.calls
unfolding read_frame consume_action_response
read_frame-Lost echo (text none) client h = h
read_frame-Lost echo (text (some (obj raw))) client h =
    of_payload-Lost echo raw _ (consume_echo-Lost echo raw (get "echo" raw) client h)
read_frame-Lost echo (text (some _)) client h = h
read_frame-Lost echo error client h = h
read_frame-Lost echo closing client h = h
read_frame-Lost echo other client h = h
read_frame-Lost echo silence client h = h

after_frame-Lost :
    (echo : String) (o : Next × Client)
    → Lost echo o.1.calls
    → Lost echo (after_frame o).client.calls
unfolding after_frame
after_frame-Lost echo (again, client) h = h
after_frame-Lost echo (dispatch raw, client) h = h
after_frame-Lost echo (stop, client) h =
    close-Lost echo "NapCat action channel disconnected" client h

pub Step-Lost :
    (echo : String) {c d : Connection}
    → Step c d
    → Lost echo c.client.calls
    → Lost echo d.client.calls
Step-Lost echo (received frame c r) h =
    after_frame-Lost echo (read_frame frame c.client) (read_frame-Lost echo frame c.client h)
Step-Lost echo (called ws_closed key client c r e) (f, h, lost) =
    (f, start_call-longer ws_closed echo key c.client client f e h, lost)
Step-Lost echo (resumed key c r n) h = h
Step-Lost echo (handled c r) h = h
Step-Lost echo (called_elsewhere ws_closed key client c e) (f, h, lost) =
    (f, start_call-longer ws_closed echo key c.client client f e h, lost)
Step-Lost echo (timed_out key c) h =
    unfold cancel_call in settle_call-Lost echo key cancelled c.client.calls h
Step-Lost echo (left key c) h =
    unfold drop_call in settle_call-Lost echo key dropped c.client.calls h
Step-Lost echo (replaced reason c) h = close-Lost echo reason c.client h
