-- ===== src/Config.antt =====
-- The readers of environment variables that the four config.py files share word for word, and the texts
-- that both services read for the message bus.
pub mod Logger
pub mod Processor
pub mod Connections
pub mod Limits
pub mod Drained
use data_assistant.Base.Json.{ltb_ℤ, ℤ}
use Prim.Native.Char.{code, Char}
use data_assistant.Base.Text.{converted, is_empty, Converted, strip, Python}
use data_assistant.Base.{
  ◌||◌, ◌==◌, str_eq, true, [], false, ◌∷◌, none, Option, Bool, if◌then◌else◌, List, String, some,
}

-- Floats, of which only these operations are used: `float` of a text, a literal of the program, `max`.
pub record Floats : Type 1 where
  pub F : Type 0
  pub float_of_text : String → Option F
  pub literal : String → F
  pub max_of : F → F → F

abbrev pub Env : Type 0
Env = String → Option String

-- `max` of two integers.
unfoldable pub max_ℤ : ℤ → ℤ → ℤ
max_ℤ a b = if ltb_ℤ a b then b else a

unfoldable pub is_one_of : String → List String → Bool
is_one_of s [] = false
is_one_of s (t ∷ ts) = str_eq s t || is_one_of s ts

-- `a or default`
unfoldable pub or_default_text : String → String → String
or_default_text default s = if is_empty s then default else s

put_first : Char → List String → List String
put_first c [] = String.◌∷◌ c String.[] ∷ []
put_first c (s ∷ ss) = String.◌∷◌ c s ∷ ss

-- `.split(",")`
unfoldable pub split_commas : String → List String
unfolding put_first
split_commas String.[] = "" ∷ []
split_commas (String.◌∷◌ c s) =
    let rest = split_commas s in if code c == b',' then "" ∷ rest else put_first c rest

-- `tuple(v.strip() for v in … if v.strip())`
unfoldable pub strip_parts : List String → List String
unfolding strip
strip_parts [] = []
strip_parts (v ∷ vs) =
    let rest = strip_parts vs in if is_empty (strip v) then rest else strip v ∷ rest

-- `a or b`, of tuples.
unfoldable pub or_tuple : List String → List String → List String
or_tuple [] default = default
or_tuple (s ∷ ss) default = s ∷ ss

-- `.rstrip("/")`
put_unless_slash : Char → String → String
put_unless_slash c String.[] = if code c == b'/' then String.[] else String.◌∷◌ c String.[]
put_unless_slash c (String.◌∷◌ d s) = String.◌∷◌ c (String.◌∷◌ d s)

unfoldable pub rstrip_slashes : String → String
unfolding put_unless_slash
rstrip_slashes String.[] = String.[]
rstrip_slashes (String.◌∷◌ c s) = put_unless_slash c (rstrip_slashes s)

unfoldable pub non_empty : String → Option String
non_empty s = if is_empty s then none else some s

module _ (py : Python) (env : Env) where
  -- `os.getenv(name, default)`
  unfoldable pub getenv : String → String → String
  getenv name default = elim (env name) [ none ↦ default | some s ↦ s ]

  -- `os.getenv(name, default).strip() or default`
  unfoldable pub env_text : String → String → String
  unfolding getenv or_default_text strip
  env_text name default = or_default_text default (strip (getenv name default))

  bool_of : String → Option Bool
  unfolding is_one_of strip
  bool_of raw =
      let normalized = py.lower (strip raw) in
      if is_one_of normalized ("1" ∷ "true" ∷ "yes" ∷ "on" ∷ [])
      then some true
      else if is_one_of normalized ("0" ∷ "false" ∷ "no" ∷ "off" ∷ [])
      then some false
      else none

  unfoldable pub env_optional_bool : String → Option Bool
  unfolding bool_of
  env_optional_bool name = elim (env name) [ none ↦ none | some raw ↦ bool_of raw ]

  unfoldable pub env_bool : String → Bool → Bool
  unfolding bool_of
  env_bool name default = elim (env name) [
    | none ↦ default
    | some raw ↦ elim (bool_of raw) [ none ↦ default | some b ↦ b ]
  ]

  at_least : ℤ → ℤ → Converted → ℤ
  unfolding max_ℤ
  at_least minimum default (converted n) = max_ℤ minimum n
  at_least minimum default _ = default

  int_from : ℤ → ℤ → Option String → ℤ
  unfolding at_least
  int_from minimum default none = default
  int_from minimum default (some raw) = at_least minimum default (py.int_of_text raw)

  unfoldable pub env_int : String → ℤ → ℤ → ℤ
  unfolding int_from
  env_int name default minimum = int_from minimum default (env name)

  some_at_least : ℤ → Converted → Option ℤ
  unfolding max_ℤ
  some_at_least minimum (converted n) = some (max_ℤ minimum n)
  some_at_least minimum _ = none

  optional_int_from : ℤ → Option String → Option ℤ
  unfolding some_at_least strip
  optional_int_from minimum none = none
  optional_int_from minimum (some raw) =
      if is_empty (strip raw) then none else some_at_least minimum (py.int_of_text raw)

  unfoldable pub env_optional_int : String → ℤ → Option ℤ
  unfolding optional_int_from
  env_optional_int name minimum = optional_int_from minimum (env name)

  unfoldable pub nats_servers : List String
  unfolding split_commas strip_parts or_tuple getenv
  nats_servers =
      or_tuple
        (strip_parts (split_commas (getenv "CHAT_IMAGE_NATS_SERVERS" "nats://127.0.0.1:4222")))
        ("nats://127.0.0.1:4222" ∷ [])

  unfoldable pub nats_subject : String
  unfolding env_text
  nats_subject = env_text "CHAT_IMAGE_NATS_SUBJECT" "chat.image.tagger.task"

  with_subject : String → List String → List String
  unfolding is_one_of
  with_subject subject subjects =
      if is_one_of subject subjects then subjects else subject ∷ subjects

  unfoldable pub stream_subjects : List String
  unfolding with_subject nats_subject or_tuple strip_parts split_commas getenv
  stream_subjects = with_subject nats_subject (
      or_tuple (strip_parts (split_commas (getenv "CHAT_IMAGE_NATS_STREAM_SUBJECTS" "")))
        (nats_subject ∷ []))

  module _ (fl : Floats) where
    unfoldable pub env_float : String → String → String → fl.F
    env_float name default minimum = elim (env name) [
      | none ↦ fl.literal default
      | some raw ↦ elim (fl.float_of_text raw) [
        | none ↦ fl.literal default
        | some x ↦ fl.max_of (fl.literal minimum) x
      ]
    ]

    unfoldable pub env_optional_float : String → String → Option fl.F
    unfolding strip
    env_optional_float name minimum = elim (env name) [
      | none ↦ none
      | some raw ↦ if is_empty (strip raw) then none else elim (fl.float_of_text raw) [
        | none ↦ none
        | some x ↦ some (fl.max_of (fl.literal minimum) x)
      ]
    ]
