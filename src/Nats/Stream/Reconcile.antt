-- ===== src/Nats/Stream/Reconcile.antt =====
-- What the set-up asks for, and that it asks for it once.
use data_assistant.Nats.Stream.Covers.{
  Covers-append-left, Covers-missing, Covers-refl, nil-missing, missing-nil, Covers,
}
use data_assistant.Base.Json.{pos, ℤ}
use data_assistant.Nats.Stream.{
  ensure_stream, is_nil, max_age_of, StreamSettings, needs_update, eq_limit, eq_age, reconciled,
  missing_subjects, leave_stream, update_stream, add_stream, Request, StreamConfig,
}
use data_assistant.Base.{
  ◌<◌, ◌≢◌, Bool, if◌then◌else◌, false, none, ℕ, inr, inl, refl, Bool-cases, [], arith, ◌∷◌, ◌++◌,
  some, true, ◌≡◌, List, String, Option,
}

-- The configuration that a request asks for; with no request, the one that the server reported.
abbrev pub asked_for : Option StreamConfig → Request → Option StreamConfig
asked_for c (add_stream name new) = some new
asked_for c (update_stream new) = some new
asked_for c leave_stream = c

Covers-reconciled :
    (settings : StreamSettings) (c : StreamConfig)
    → Covers (reconciled settings c).subjects settings.stream_subjects
unfolding reconciled is_nil
Covers-reconciled settings c =
    of_missing (missing_subjects c.subjects settings.stream_subjects) refl
  where
    of_missing :
        (missing : List String)
        → missing_subjects c.subjects settings.stream_subjects ≡ missing
        → Covers
            (if is_nil missing then c.subjects else c.subjects ++ missing)
            settings.stream_subjects
    of_missing [] e = nil-missing c.subjects settings.stream_subjects e
    of_missing (s ∷ missing) e =
        rw (← e) (Covers-missing c.subjects _ settings.stream_subjects (Covers-refl _))

kept-reconciled :
    (settings : StreamSettings) (c : StreamConfig)
    → Covers (reconciled settings c).subjects c.subjects
unfolding reconciled is_nil
kept-reconciled settings c = of_missing (missing_subjects c.subjects settings.stream_subjects)
  where
    of_missing :
        (missing : List String)
        → Covers (if is_nil missing then c.subjects else c.subjects ++ missing) c.subjects
    of_missing [] = Covers-refl c.subjects
    of_missing (s ∷ missing) = Covers-append-left c.subjects _ c.subjects (Covers-refl c.subjects)

eq_age_refl : (a : Option ℕ) → eq_age a a ≡ true
unfolding eq_age
eq_age_refl none = refl
eq_age_refl (some n) = ground arith

eq_age-set : (a b : Option ℕ) → eq_age (if eq_age a b then a else b) b ≡ true
eq_age-set a b = elim (Bool-cases (eq_age a b)) [
  | inl e ↦ rw (e, e) refl
  | inr e ↦ rw e (eq_age_refl b)
]

eq_limit_refl : (n : ℤ) → eq_limit (some n) n ≡ true
unfolding eq_limit
eq_limit_refl n = ground arith

eq_limit-set : (a : Option ℤ) (n : ℤ) → eq_limit (if eq_limit a n then a else some n) n ≡ true
eq_limit-set a n = elim (Bool-cases (eq_limit a n)) [
  | inl e ↦ rw (e, e) refl
  | inr e ↦ rw e (eq_limit_refl n)
]

-- A configuration with the settings' subjects and limits.
pub record Fits (settings : StreamSettings) (c : StreamConfig) : Type 0 where
  pub subjects : Covers c.subjects settings.stream_subjects
  pub max_age : eq_age c.max_age (max_age_of settings) ≡ true
  pub max_bytes : eq_limit c.max_bytes settings.stream_max_bytes ≡ true
  pub max_msgs : eq_limit c.max_msgs settings.stream_max_msgs ≡ true

reconciled-Fits :
    (settings : StreamSettings) (c : StreamConfig) → Fits settings (reconciled settings c)
reconciled-Fits settings c = record {
  subjects = Covers-reconciled settings c;
  max_age = unfold reconciled in eq_age-set c.max_age (max_age_of settings);
  max_bytes = unfold reconciled in eq_limit-set c.max_bytes settings.stream_max_bytes;
  max_msgs = unfold reconciled in eq_limit-set c.max_msgs settings.stream_max_msgs;
}

Fits-needs_update :
    (settings : StreamSettings) (c : StreamConfig)
    → Fits settings c
    → needs_update settings c ≡ false
unfolding needs_update is_nil
Fits-needs_update settings c h =
    rw
      (
        missing-nil c.subjects settings.stream_subjects h.subjects,
        h.max_age,
        h.max_bytes,
        h.max_msgs,
      )
      refl

needs_update-Fits :
    (settings : StreamSettings) (c : StreamConfig)
    → needs_update settings c ≡ false
    → Fits settings c
unfolding needs_update is_nil
needs_update-Fits settings c h = record {
  subjects =
      nil-missing c.subjects settings.stream_subjects
        (of_nil (missing_subjects c.subjects settings.stream_subjects) (ground (arith, h)));
  max_age = ground (arith, h);
  max_bytes = ground (arith, h);
  max_msgs = ground (arith, h);
}
  where
    of_nil : (xs : List String) → is_nil xs ≡ true → xs ≡ []
    of_nil [] h = refl
    of_nil (x ∷ xs) h = cc

-- What is asked of the stream.
abbrev pub IsReady : StreamSettings → Option StreamConfig → Option StreamConfig → Type 0
IsReady settings before none = ⊥
IsReady settings none (some c) = Fits settings c
IsReady settings (some b) (some c) = Fits settings c × Covers c.subjects b.subjects

-- The configuration that the set-up asks for, or finds and leaves, has every subject and limit of the
-- settings, and it keeps each subject that the stream had.
pub ensure_stream-IsReady :
    (settings : StreamSettings) (before : Option StreamConfig)
    → IsReady settings before (asked_for before (ensure_stream settings before))
unfolding ensure_stream
ensure_stream-IsReady settings none = record {
  subjects = Covers-refl settings.stream_subjects;
  max_age = eq_age_refl (max_age_of settings);
  max_bytes = eq_limit_refl settings.stream_max_bytes;
  max_msgs = eq_limit_refl settings.stream_max_msgs;
}
ensure_stream-IsReady settings (some c) = of_test (needs_update settings c) refl
  where
    of_test :
        (b : Bool)
        → needs_update settings c ≡ b
        → IsReady settings
            (some c)
            (asked_for (some c) (if b then update_stream (reconciled settings c) else leave_stream))
    of_test true e = (reconciled-Fits settings c, kept-reconciled settings c)
    of_test false e = (needs_update-Fits settings c e, Covers-refl c.subjects)

-- What a server reports of a configuration that it was asked for: its subjects, and its limits that are
-- set. A limit that is not set may be reported in any form, such as an age of 0.
pub record Reports (server : StreamConfig → StreamConfig) : Type 0 where
  pub subjects : (c : StreamConfig) → (server c).subjects ≡ c.subjects
  pub max_age :
      (c : StreamConfig) (n : ℕ)
      → 0 < n
      → eq_age c.max_age (some n) ≡ true
      → eq_age (server c).max_age (some n) ≡ true
  pub max_bytes :
      (c : StreamConfig) (n : ℤ)
      → n ≢ pos 0
      → eq_limit c.max_bytes n ≡ true
      → eq_limit (server c).max_bytes n ≡ true
  pub max_msgs :
      (c : StreamConfig) (n : ℤ)
      → n ≢ pos 0
      → eq_limit c.max_msgs n ≡ true
      → eq_limit (server c).max_msgs n ≡ true

-- What the server reports after a request.
abbrev pub reported :
    (StreamConfig → StreamConfig) → Option StreamConfig → Request → Option StreamConfig
reported server before (add_stream name new) = some (server new)
reported server before (update_stream new) = some (server new)
reported server before leave_stream = before

module _ (server : StreamConfig → StreamConfig) (law : Reports server) (settings : StreamSettings)
    (age : 0 < settings.stream_max_age) (bytes : settings.stream_max_bytes ≢ pos 0)
    (msgs : settings.stream_max_msgs ≢ pos 0) where
  max_age_lem : max_age_of settings ≡ some settings.stream_max_age
  unfolding max_age_of
  max_age_lem = ground (arith, age)

  server-Fits : (c : StreamConfig) → Fits settings c → Fits settings (server c)
  server-Fits c h = record {
    subjects = rw (law.subjects c) h.subjects;
    max_age =
        rw max_age_lem (law.max_age c settings.stream_max_age age (rw max_age_lem at h.max_age));
    max_bytes = law.max_bytes c settings.stream_max_bytes bytes h.max_bytes;
    max_msgs = law.max_msgs c settings.stream_max_msgs msgs h.max_msgs;
  }

  left : (c : StreamConfig) → Fits settings c → ensure_stream settings (some c) ≡ leave_stream
  unfolding ensure_stream
  left c h = rw (Fits-needs_update settings c h) refl

  -- The set-up that follows another, of either service with the same settings, asks for nothing. The
  -- greatest age of the settings is set, and the other limits are not 0. The server reports the
  -- subjects and the limits that it was asked for.
  pub ensure_stream_twice :
      (before : Option StreamConfig)
      → ensure_stream settings (reported server before (ensure_stream settings before))
        ≡ leave_stream
  ensure_stream_twice none =
      unfold ensure_stream in left _ (server-Fits _ (ensure_stream-IsReady settings none))
  ensure_stream_twice (some c) = elim (Bool-cases (needs_update settings c)) [
    | inl e ↦ rw (updates e) (left _ (server-Fits _ (reconciled-Fits settings c)))
    | inr e ↦ rw (left c (needs_update-Fits settings c e)) (left c (needs_update-Fits settings c e))
  ]
    where
      updates :
          needs_update settings c ≡ true
          → ensure_stream settings (some c) ≡ update_stream (reconciled settings c)
      updates e = unfold ensure_stream in rw e refl
