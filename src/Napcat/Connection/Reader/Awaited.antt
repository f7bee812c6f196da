-- ===== src/Napcat/Connection/Reader/Awaited.antt =====
-- The call that an event makes on the connection that it came by.
use data_assistant.Napcat.Connection.Reader.Lost.{
  close-Unanswered, settle_call-Unanswered, start_call-longer, Lost, Step-Lost, IsLost, Unanswered,
}
use data_assistant.Base.{
  ◌||◌, ◌≢◌, none, false, true, arith, [], refl, ◌⊎◌, ◌++◌, ◌≡◌, List, Bool, String, some, inl, inr,
  eq_iff, ◌∷◌, if◌then◌else◌, sym,
}
use data_assistant.Base.Json.{Fields}
use data_assistant.Napcat.Connection.{
  drop_call, cancel_call, Client, start_call, Future, future_of, close, waiting, answered,
  cancelled, dropped,
}
use data_assistant.Napcat.Connection.Reader.{
  Steps, Step, Connection, handling, received, called, resumed, handled, called_elsewhere,
  timed_out, left, replaced, here, next,
}
use mathlib.Core.Path.{subst}

-- The event waits for the call, or the call is lost.
abbrev Awaited : String → Connection → Type 0
Awaited echo c =
    ((c.reader ≡ handling (some echo)) × (future_of echo c.client.calls ≡ some waiting))
    ⊎ Lost echo c.client.calls

still :
    (echo : String) (c : Connection)
    → c.reader ≡ handling (some echo)
    → Unanswered echo c.client.calls
    → Awaited echo c
still echo c r (inl w) = inl (r, w)
still echo c r (inr h) = inr h

Step-Awaited : (echo : String) {c d : Connection} → Step c d → Awaited echo c → Awaited echo d
Step-Awaited echo step (inr h) = inr (Step-Lost echo step h)
Step-Awaited echo (received frame c r) (inl (e, w)) = absurd cc
Step-Awaited echo (called ws_closed key client c r g) (inl (e, w)) = absurd cc
Step-Awaited echo (resumed key c r n) (inl (e, w)) =
    let same : key ≡ echo = ground (arith, r, e) in
    absurd (n (subst (λ x. future_of x c.client.calls ≡ some waiting) (sym same) w))
Step-Awaited echo (handled c r) (inl (e, w)) = absurd cc
Step-Awaited echo (called_elsewhere ws_closed key client c g) (inl (e, w)) =
    inl (e, start_call-longer ws_closed echo key c.client client waiting g w)
Step-Awaited echo (timed_out key c) (inl (e, w)) =
    still echo (record c { client = cancel_call key c.client }) e
      (unfold cancel_call in settle_call-Unanswered echo key cancelled c.client.calls tt (inl w))
Step-Awaited echo (left key c) (inl (e, w)) =
    still echo (record c { client = drop_call key c.client }) e
      (unfold drop_call in settle_call-Unanswered echo key dropped c.client.calls tt (inl w))
Step-Awaited echo (replaced reason c) (inl (e, w)) =
    still echo (record c { client = close reason c.client }) e
      (close-Unanswered echo reason c.client (inl w))

Steps-Awaited : (echo : String) {c d : Connection} → Awaited echo c → Steps c d → Awaited echo d
Steps-Awaited echo h here = h
Steps-Awaited echo h (next steps step) = Step-Awaited echo step (Steps-Awaited echo h steps)

unanswered :
    (echo : String) (payload : Fields) (c : Connection)
    → Awaited echo c
    → future_of echo c.client.calls ≢ some (answered payload)
unanswered echo payload c (inl (e, w)) g = absurd cc
unanswered echo payload c (inr (f, e, lost)) g =
    let same : f ≡ answered payload = ground (arith, e, g) in subst IsLost same lost

future_of-new :
    (echo : String) (calls : List (String × Future))
    → future_of echo calls ≡ none
    → future_of echo (calls ++ (echo, waiting) ∷ []) ≡ some waiting
unfolding future_of
future_of-new echo [] h = rw ((eq_iff echo echo).1 refl) refl
future_of-new echo ((key, f) ∷ calls) h = ground (arith, h, future_of-new echo calls)

module _ (c : Connection) (ws_closed : Bool) (echo : String) (client : Client) where
  start_call-waiting :
      start_call ws_closed echo c.client ≡ some client
      → future_of echo c.client.calls ≡ none
      → future_of echo client.calls ≡ some waiting
  unfolding start_call
  start_call-waiting e fresh = of_test (c.client.closed || ws_closed) e
    where
      started : Client
      started = record c.client {
        pending = c.client.pending ++ echo ∷ [];
        calls = c.client.calls ++ (echo, waiting) ∷ [];
      }

      of_test :
          (b : Bool)
          → (if b then none else some started) ≡ some client
          → future_of echo client.calls ≡ some waiting
      of_test true e' = absurd cc
      of_test false e' =
          let same : started ≡ client = ground (arith, e') in
          subst (λ (x : Client). future_of echo x.calls ≡ some waiting) same
            (future_of-new echo c.client.calls fresh)

  -- A call that the handling of an event makes, under a new echo, on the connection that the event came
  -- by is never answered: whatever steps follow, no response becomes its result.
  pub called-unanswered :
      c.reader ≡ handling none
      → start_call ws_closed echo c.client ≡ some client
      → future_of echo c.client.calls ≡ none
      → (d : Connection) → Steps (record { client = client; reader = handling (some echo) }) d
      → (payload : Fields) → future_of echo d.client.calls ≢ some (answered payload)
  called-unanswered r e fresh d steps payload =
      unanswered echo payload d (Steps-Awaited echo (inl (refl, start_call-waiting e fresh)) steps)
