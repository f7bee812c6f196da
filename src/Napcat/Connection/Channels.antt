-- ===== src/Napcat/Connection/Channels.antt =====
-- The action client that the service uses: the one of the newest connection. A client is known by its
-- place in the list of all that were made.
use data_assistant.Base.{
  sym, Bool-cases, ap, if◌then◌else◌, refl, none, arith, zero, ◌⊎◌, ◌==◌, true, ◌≢◌, false, suc,
  ◌≡◌, get_elem?, ◌++◌, Bool, String, List, ℕ, Option, length, some, inl, inr, ◌∷◌, [],
}
use data_assistant.Napcat.Connection.{refused, settle_calls, Client, close, new_client}

-- `_action_client` is `current`.
pub record Channels : Type 0 where
  pub clients : List Client
  pub current : Option ℕ

unfoldable pub close_at : ℕ → String → List Client → List Client
unfolding close
close_at i reason [] = []
close_at zero reason (client ∷ clients) = close reason client ∷ clients
close_at (suc i) reason (client ∷ clients) = client ∷ close_at i reason clients

unfoldable pub is_client : ℕ → Option ℕ → Bool
is_client i none = false
is_client i (some j) = i == j

-- The old client is closed, unless it is the new one.
unfoldable pub replace_client : Option ℕ → Option ℕ → List Client → List Client
unfolding close_at is_client
replace_client none client clients = clients
replace_client (some old) client clients =
    if is_client old client
    then clients
    else close_at old "NapCat action channel replaced by newer connection" clients

unfoldable pub set_action_client : Option ℕ → Channels → Channels
unfolding replace_client
set_action_client client s = record {
  clients = replace_client s.current client s.clients;
  current = client;
}

-- What the handler of a connection does before its loop, and after it.
unfoldable pub connect : Channels → Channels
unfolding set_action_client new_client
connect s =
    set_action_client (some (length s.clients))
      (record s { clients = s.clients ++ new_client ∷ [] })

unfoldable pub disconnect : ℕ → Channels → Channels
unfolding set_action_client close_at is_client
disconnect i s =
    let closed_channels = record s {
      clients = close_at i "NapCat action channel disconnected" s.clients;
    } in
    if is_client i s.current then set_action_client none closed_channels else closed_channels

pub data Change : Type 0 where
  connection : Change
  disconnection : ℕ → Change

unfoldable pub change : Change → Channels → Channels
unfolding connect disconnect
change connection s = connect s
change (disconnection i) s = disconnect i s

unfoldable pub change_all : List Change → Channels → Channels
unfolding change
change_all [] s = s
change_all (event ∷ events) s = change_all events (change event s)

-- A client that is open is the current one.
abbrev pub IsSingle : Channels → Type 0
IsSingle s =
    (i : ℕ) (client : Client)
    → get_elem? s.clients i ≡ some client
    → client.closed ≡ false
    → s.current ≡ some i

close-closed : (reason : String) (client : Client) → (close reason client).closed ≡ true
unfolding close
close-closed reason client = of_test client.closed refl
  where
    of_test :
        (b : Bool)
        → client.closed ≡ b
        → (if b then client else record {
          pending = [];
          calls = settle_calls client.pending (refused reason) client.calls;
          closed = true;
        }).closed
          ≡ true
    of_test true e = e
    of_test false e = refl

-- A client that is open after one was closed is another, and was open.
close_at-open :
    (i j : ℕ) (reason : String) (clients : List Client) (client : Client)
    → get_elem? (close_at i reason clients) j ≡ some client
    → client.closed ≡ false
    → (get_elem? clients j ≡ some client) × (i ≢ j)
unfolding close_at
close_at-open i j reason [] client h open_still = absurd cc
close_at-open zero zero reason (c ∷ clients) client h open_still =
    absurd (ground (arith, close-closed reason c, h))
close_at-open zero (suc j) reason (c ∷ clients) client h open_still = (h, λ e. omega arith)
close_at-open (suc i) zero reason (c ∷ clients) client h open_still = (h, λ e. omega arith)
close_at-open (suc i) (suc j) reason (c ∷ clients) client h open_still =
    let rest = close_at-open i j reason clients client h open_still in
    (rest.0, λ e. rest.1 (omega arith))

get_elem?-append :
    (clients : List Client) (new client : Client) (j : ℕ)
    → get_elem? (clients ++ new ∷ []) j ≡ some client
    → (get_elem? clients j ≡ some client) ⊎ (j ≡ length clients)
get_elem?-append [] new client zero h = inr refl
get_elem?-append [] new client (suc j) h = absurd cc
get_elem?-append (c ∷ clients) new client zero h = inl h
get_elem?-append (c ∷ clients) new client (suc j) h =
    elim (get_elem?-append clients new client j h) [ inl e ↦ inl e | inr e ↦ inr (omega arith) ]

-- After the connection, only the new client, which is the last, is open.
connect-last :
    (current : Option ℕ) (clients : List Client) (j : ℕ) (client : Client)
    → IsSingle (record { clients = clients; current = current })
    → get_elem? (replace_client current (some (length clients)) (clients ++ new_client ∷ [])) j
      ≡ some client
    → client.closed ≡ false
    → j ≡ length clients
unfolding replace_client is_client
connect-last none clients j client h e open_still =
    elim (get_elem?-append clients new_client client j e) [
      | inl before ↦ absurd (ground (arith, h j client before open_still))
      | inr at_end ↦ at_end
    ]
connect-last (some old) clients j client h e open_still =
    elim (Bool-cases (old == length clients)) [
      | inl same ↦ elim (get_elem?-append clients new_client client j (ground (arith, e, same))) [
        | inl before ↦ ground (arith, h j client before open_still, same)
        | inr at_end ↦ at_end
      ]
      | inr other ↦
          let was =
            close_at-open old j "NapCat action channel replaced by newer connection"
              (clients ++ new_client ∷ []) client (ground (arith, e, other)) open_still in
          elim (get_elem?-append clients new_client client j was.0) [
            | inl before ↦ absurd (was.1 (ground (arith, h j client before open_still)))
            | inr at_end ↦ at_end
          ]
    ]

connect-IsSingle : (s : Channels) → IsSingle s → IsSingle (connect s)
unfolding connect set_action_client
connect-IsSingle s h j client e open_still =
    ap some (sym (connect-last s.current s.clients j client h e open_still))

replace_none-open :
    (current : Option ℕ) (clients : List Client) (j : ℕ) (client : Client)
    → get_elem? (replace_client current none clients) j ≡ some client
    → client.closed ≡ false
    → get_elem? clients j ≡ some client
unfolding replace_client is_client
replace_none-open none clients j client e open_still = e
replace_none-open (some old) clients j client e open_still =
    (close_at-open old j "NapCat action channel replaced by newer connection" clients client e
      open_still).0

is_client-same :
    (i j : ℕ) (current : Option ℕ) → is_client i current ≡ true → current ≡ some j → i ≡ j
unfolding is_client
is_client-same i j none t e = absurd cc
is_client-same i j (some k) t e = ground (arith, t, e)

disconnect-IsSingle : (i : ℕ) (s : Channels) → IsSingle s → IsSingle (disconnect i s)
unfolding disconnect
disconnect-IsSingle i s h = of_test (is_client i s.current) refl
  where
    rest : Channels
    rest = record s { clients = close_at i "NapCat action channel disconnected" s.clients }

    rest-IsSingle : IsSingle rest
    rest-IsSingle j client e open_still =
        h j client
          (close_at-open i j "NapCat action channel disconnected" s.clients client e open_still).0
          open_still

    of_test :
        (b : Bool)
        → is_client i s.current ≡ b
        → IsSingle (if b then set_action_client none rest else rest)
    of_test true t j client e open_still =
        let before = replace_none-open rest.current rest.clients j client e open_still in
        let was =
          close_at-open i j "NapCat action channel disconnected" s.clients client before
            open_still in
        absurd (was.1 (is_client-same i j s.current t (h j client was.0 open_still)))
    of_test false t j client e open_still = rest-IsSingle j client e open_still

changes-IsSingle :
    (events : List Change) (s : Channels) → IsSingle s → IsSingle (change_all events s)
unfolding change_all change
changes-IsSingle [] s h = h
changes-IsSingle (connection ∷ events) s h =
    changes-IsSingle events (connect s) (connect-IsSingle s h)
changes-IsSingle (disconnection i ∷ events) s h =
    changes-IsSingle events (disconnect i s) (disconnect-IsSingle i s h)

unfoldable pub no_channels : Channels
no_channels = record { clients = []; current = none }

-- After connections are made and lost in any order, from none on, a client that is open is the one that the
-- service uses: all others are closed.
pub change_all-IsSingle : (events : List Change) → IsSingle (change_all events no_channels)
unfolding no_channels
change_all-IsSingle events =
    changes-IsSingle events no_channels (λ i client e open_still. absurd cc)
