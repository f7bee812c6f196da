-- ===== src/Napcat/Connection/Calls.antt =====
-- What holds of the calls of a client, whatever is done with it.
use data_assistant.Outbox.Rows.{map_option}
use data_assistant.Base.{
  if◌then◌else◌, Bool, ◌||◌, arith, none, refl, ◌∙◌, sym, Bool-cases, Option, ◌∷◌, ◌⊎◌, ◌++◌, [],
  false, true, str_eq, List, ◌≢◌, ◌≡◌, String, some, inl, inr, eq_iff,
}
use data_assistant.Base.Json.{Json, Fields, get, str}
use data_assistant.Napcat.Connection.{
  settle_calls, close, consume_action_response, drop_call, consume_echo, start_call, cancel_call,
  pop, settle_call, done_by, is_pending, Client, Future, future_of, waiting, answered, refused,
  cancelled, dropped,
}
use mathlib.Core.Path.{subst}

abbrev pub Own : String → Future → Type 0
Own echo (answered payload) = get "echo" payload ≡ str echo
Own echo _ = Unit

-- Each call that waits is pending; a response that answers a call has its echo; and nothing is
-- pending when the client is closed.
pub record IsSound (client : Client) : Type 0 where
  pub registered :
      (echo : String)
      → future_of echo client.calls ≡ some waiting
      → is_pending echo client.pending ≡ true
  pub own :
      (echo : String) (payload : Fields)
      → future_of echo client.calls ≡ some (answered payload)
      → get "echo" payload ≡ str echo
  pub emptied : client.closed ≡ true → client.pending ≡ []

pub future_of-settle_same :
    (echo : String) (result : Future) (calls : List (String × Future))
    → future_of echo (settle_call echo result calls)
      ≡ map_option (done_by result) (future_of echo calls)
unfolding future_of settle_call
future_of-settle_same echo result [] = refl
future_of-settle_same echo result ((e, f) ∷ calls) = elim (Bool-cases (str_eq echo e)) [
  | inl h ↦ rw h refl
  | inr h ↦ rw h (future_of-settle_same echo result calls)
]

pub future_of-settle_other :
    (echo other : String) (result : Future) (calls : List (String × Future))
    → str_eq other echo ≡ false
    → future_of other (settle_call echo result calls) ≡ future_of other calls
unfolding future_of settle_call
future_of-settle_other echo other result [] ne = refl
future_of-settle_other echo other result ((e, f) ∷ calls) ne = elim (Bool-cases (str_eq other e)) [
  | inl h ↦ elim (Bool-cases (str_eq echo e)) [
    | inl g ↦ absurd (
        of_false
          (sym ne ∙ (eq_iff other echo).1 ((eq_iff other e).0 h ∙ sym ((eq_iff echo e).0 g))))
    | inr g ↦ rw (h, g) refl
  ]
  | inr h ↦ rw h (future_of-settle_other echo other result calls ne)
]
  where
    of_false : false ≡ true → ⊥
    of_false e = cc

-- What a call is after one was settled: as it was, or the result, if it was waiting.
settled :
    (echo other : String) (result f : Future) (calls : List (String × Future))
    → future_of other (settle_call echo result calls) ≡ some f
    → (future_of other calls ≡ some f)
      ⊎ ((other ≡ echo) × (f ≡ result) × (future_of other calls ≡ some waiting))
settled echo other result f calls h = elim (Bool-cases (str_eq other echo)) [
  | inr ne ↦ inl (sym (future_of-settle_other echo other result calls ne) ∙ h)
  | inl e ↦
      let same : other ≡ echo = (eq_iff other echo).0 e in
      of_found (future_of other calls) refl same (
        sym (
          subst
            (λ x.
              future_of other (settle_call x result calls)
              ≡ map_option (done_by result) (future_of other calls))
            same (future_of-settle_same other result calls))
        ∙ h)
]
  where
    of_found :
        (o : Option Future)
        → future_of other calls ≡ o
        → other ≡ echo
        → map_option (done_by result) o ≡ some f
        → (future_of other calls ≡ some f)
          ⊎ ((other ≡ echo) × (f ≡ result) × (future_of other calls ≡ some waiting))
    of_found none e same g = absurd cc
    of_found (some waiting) e same g = unfold done_by in inr (same, cc, e)
    of_found (some (answered payload)) e same g = unfold done_by in inl (e ∙ g)
    of_found (some (refused reason)) e same g = unfold done_by in inl (e ∙ g)
    of_found (some cancelled) e same g = unfold done_by in inl (e ∙ g)
    of_found (some dropped) e same g = unfold done_by in inl (e ∙ g)

future_of-append :
    (echo other : String) (f : Future) (calls : List (String × Future))
    → future_of other (calls ++ (echo, waiting) ∷ []) ≡ some f
    → (future_of other calls ≡ some f) ⊎ ((other ≡ echo) × (f ≡ waiting))
unfolding future_of
future_of-append echo other f [] h = elim (Bool-cases (str_eq other echo)) [
  | inl e ↦ inr ((eq_iff other echo).0 e, ground (arith, e, h))
  | inr e ↦ absurd (ground (arith, e, h))
]
future_of-append echo other f ((e, g) ∷ calls) h = elim (Bool-cases (str_eq other e)) [
  | inl t ↦ inl (ground (arith, t, h))
  | inr t ↦ rw t (future_of-append echo other f calls (ground (arith, t, h)))
]

is_pending-append :
    (echo x : String) (pending : List String)
    → is_pending x (pending ++ echo ∷ []) ≡ is_pending x pending || str_eq x echo
unfolding is_pending
is_pending-append echo x [] = ground arith
is_pending-append echo x (e ∷ pending) = ground (arith, is_pending-append echo x pending)

is_pending-pop :
    (echo x : String) (pending : List String)
    → str_eq x echo ≡ false
    → is_pending x pending ≡ true
    → is_pending x (pop echo pending) ≡ true
unfolding is_pending pop
is_pending-pop echo x [] ne h = h
is_pending-pop echo x (e ∷ pending) ne h = elim (Bool-cases (str_eq echo e)) [
  | inl t ↦
      let other : str_eq x e ≡ false = subst (λ y. str_eq x y ≡ false) ((eq_iff echo e).0 t) ne in
      rw t (is_pending-pop echo x pending ne (ground (arith, h, other)))
  | inr t ↦ rw t (ground (arith, h, ne, is_pending-pop echo x pending ne))
]

not_waiting :
    (result : Future) (o : Option Future)
    → result ≢ waiting
    → map_option (done_by result) o ≢ some waiting
unfolding done_by
not_waiting result none done e = cc
not_waiting result (some waiting) done e = done cc
not_waiting result (some (answered payload)) done e = cc
not_waiting result (some (refused reason)) done e = cc
not_waiting result (some cancelled) done e = cc
not_waiting result (some dropped) done e = cc

-- A call that is settled is no longer one that has to be pending.
settle_call-IsSound :
    (echo : String) (result : Future) (pending : List String) (client : Client)
    → result ≢ waiting
    → Own echo result
    → ((x : String)
        → str_eq x echo ≡ false
        → is_pending x client.pending ≡ true
        → is_pending x pending ≡ true)
    → (client.closed ≡ true → pending ≡ [])
    → IsSound client
    → IsSound (record client { pending = pending; calls = settle_call echo result client.calls })
settle_call-IsSound echo result pending client done own rest emptied h = record {
  registered = λ x w. elim (Bool-cases (str_eq x echo)) [
    | inr ne ↦
        rest x ne (h.registered x (sym (future_of-settle_other echo x result client.calls ne) ∙ w))
    | inl e ↦ absurd (
        not_waiting result (future_of x client.calls) done (
          sym (future_of-settle_same x result client.calls)
          ∙ subst (λ y. future_of x (settle_call y result client.calls) ≡ some waiting)
              (sym ((eq_iff x echo).0 e)) w))
  ];
  own = λ x payload w. elim (settled echo x result (answered payload) client.calls w) [
    | inl before ↦ h.own x payload before
    | inr (e, f, before) ↦
        subst (λ y. Own y (answered payload)) (sym e) (subst (Own echo) (sym f) own)
  ];
  emptied = emptied;
}

pub start_call-IsSound :
    (ws_closed : Bool) (echo : String) (client client' : Client)
    → start_call ws_closed echo client ≡ some client'
    → IsSound client
    → IsSound client'
unfolding start_call
start_call-IsSound ws_closed echo client client' e h = of_test (client.closed || ws_closed) refl e
  where
    started : Client
    started = record client {
      pending = client.pending ++ echo ∷ [];
      calls = client.calls ++ (echo, waiting) ∷ [];
    }

    started-IsSound : client.closed ≡ false → IsSound started
    started-IsSound open_still = record {
      registered = λ x w.
          rw (is_pending-append echo x client.pending)
            (elim (future_of-append echo x waiting client.calls w) [
              | inl before ↦ ground (arith, h.registered x before)
              | inr (same, f) ↦ ground (arith, (eq_iff x echo).1 same)
            ]);
      own = λ x payload w. elim (future_of-append echo x (answered payload) client.calls w) [
        | inl before ↦ h.own x payload before
        | inr (same, f) ↦ absurd cc
      ];
      emptied = λ c. absurd cc;
    }

    of_test :
        (b : Bool)
        → (client.closed || ws_closed) ≡ b
        → (if b then none else some started) ≡ some client'
        → IsSound client'
    of_test true t e' = absurd cc
    of_test false t e' = subst IsSound (ground (arith, e')) (started-IsSound (ground (arith, t)))

pub cancel_call-IsSound :
    (echo : String) (client : Client) → IsSound client → IsSound (cancel_call echo client)
unfolding cancel_call
cancel_call-IsSound echo client h =
    settle_call-IsSound echo cancelled client.pending client (λ e. cc) tt (λ x ne p. p) h.emptied h

pop-nil : (echo : String) (pending : List String) → pending ≡ [] → pop echo pending ≡ []
unfolding pop
pop-nil echo pending e = rw e refl

pub drop_call-IsSound :
    (echo : String) (client : Client) → IsSound client → IsSound (drop_call echo client)
unfolding drop_call
drop_call-IsSound echo client h =
    settle_call-IsSound echo dropped (pop echo client.pending) client (λ e. cc) tt
      (λ x ne p. is_pending-pop echo x client.pending ne p)
      (λ c. pop-nil echo client.pending (h.emptied c)) h

either-IsSound :
    (b : Bool) (x y : Bool × Client) → IsSound x.1 → IsSound y.1 → IsSound (if b then x else y).1
either-IsSound true x y h k = h
either-IsSound false x y h k = k

consume_echo-IsSound :
    (payload : Fields) (v : Json) (client : Client)
    → get "echo" payload ≡ v
    → IsSound client
    → IsSound (consume_echo payload v client).1
unfolding consume_echo
consume_echo-IsSound payload (str echo) client e h =
    either-IsSound (is_pending echo client.pending) _ _
      (settle_call-IsSound echo (answered payload) (pop echo client.pending) client (λ w. cc) e
        (λ x ne p. is_pending-pop echo x client.pending ne p)
        (λ c. pop-nil echo client.pending (h.emptied c)) h)
      h
consume_echo-IsSound payload _ client e h = h

pub consume_action_response-IsSound :
    (payload : Fields) (client : Client)
    → IsSound client
    → IsSound (consume_action_response payload client).1
unfolding consume_action_response
consume_action_response-IsSound payload client h =
    consume_echo-IsSound payload (get "echo" payload) client refl h

settle_calls-IsSound :
    (result : Future) (pending : List String) (calls : List (String × Future))
    → result ≢ waiting
    → ((echo : String) → Own echo result)
    → IsSound (record { pending = pending; calls = calls; closed = false })
    → IsSound (record { pending = []; calls = settle_calls pending result calls; closed = true })
unfolding settle_calls
settle_calls-IsSound result [] calls done own h = record {
  registered = h.registered;
  own = h.own;
  emptied = λ c. refl;
}
settle_calls-IsSound result (echo ∷ pending) calls done own h =
    settle_calls-IsSound result pending (settle_call echo result calls) done own (
      settle_call-IsSound echo result pending
        (record { pending = echo ∷ pending; calls = calls; closed = false }) done (own echo)
        (λ x ne p. unfold is_pending in ground (arith, ne, p)) (λ c. absurd cc) h)

pub close-IsSound :
    (reason : String) (client : Client) → IsSound client → IsSound (close reason client)
unfolding close
close-IsSound reason client h = of_test client.closed refl
  where
    of_test :
        (b : Bool)
        → client.closed ≡ b
        → IsSound (
            if b then client else record {
              pending = [];
              calls = settle_calls client.pending (refused reason) client.calls;
              closed = true;
            })
    of_test true e = h
    of_test false e =
        settle_calls-IsSound (refused reason) client.pending client.calls (λ w. cc) (λ echo. tt)
          (record { registered = h.registered; own = h.own; emptied = λ c. absurd cc })
