-- ===== src/Contract/RoundTrip.antt =====
-- What the processor reads from a task that the logger wrote.
use data_assistant.Base.{
  inr, inl, Bool-cases, ◌≡◌, refl, String, false, true, Option, none, some, arith, if◌then◌else◌,
}
use data_assistant.Base.Json.{get, ℤ, pos, ltb_ℤ, get?, put, obj, IsDistinct, IsDistinctFields}
use data_assistant.Base.Result.{ok}
use data_assistant.Base.Text.{Python, strip, is_empty}
use data_assistant.Contract.{
  check_image_path, check_dict, check_str, check_text, check_image_id, check_version, as_integer,
  max_ℤ, Integer, Codec, IsLawful, value, whole, flag, to_json, task_version, TaskV2, task_payload,
  encode_task, is_v1_payload, decode_v2_payload, decode_task,
}

-- A task that `decode_v2_payload` accepts as it stands, once it is in JSON form.
pub record IsV2 (t : TaskV2) : Type 0 where
  pub version : ltb_ℤ t.version task_version ≡ false
  pub image_id : ltb_ℤ (pos 0) (value t.image_id) ≡ true
  pub sha256 : is_empty t.sha256 ≡ false
  pub stripped : strip t.sha256 ≡ t.sha256
  pub context : IsDistinctFields t.context

-- An empty path is dropped, and any other is stripped.
abbrev pub sent_path : Option String → Option String
sent_path none = none
sent_path (some p) = if is_empty p then none else some (strip p)

to_json-IsDistinct : (n : Integer) → IsDistinct (to_json n)
unfolding to_json
to_json-IsDistinct (whole n) = tt
to_json-IsDistinct (flag b) = tt

pub IsDistinct-task_payload :
    (t : TaskV2) → IsDistinctFields t.context → IsDistinct (obj (task_payload t))
unfolding task_payload put get?
IsDistinct-task_payload t h = of_path t.image_path
  where
    of_path :
        (path : Option String) → IsDistinct (obj (task_payload (record t { image_path = path })))
    of_path none = (
      refl,
      tt,
      (refl, to_json-IsDistinct t.image_id, (refl, tt, (refl, tt, (refl, tt, (refl, h, tt))))),
    )
    of_path (some p) = elim (Bool-cases (is_empty p)) [
      | inl e ↦ rw e (
        refl,
        tt,
        (refl, to_json-IsDistinct t.image_id, (refl, tt, (refl, tt, (refl, tt, (refl, h, tt))))),
      )
      | inr e ↦ rw e (
        refl,
        tt,
        (
          refl,
          to_json-IsDistinct t.image_id,
          (refl, tt, (refl, tt, (refl, tt, (refl, h, (refl, tt, tt))))),
        ),
      )
    ]

max_ℤ-version : (n : ℤ) → ltb_ℤ n task_version ≡ false → max_ℤ task_version n ≡ n
unfolding max_ℤ
max_ℤ-version n h = ground arith

as_integer-to_json : (n : Integer) → as_integer (to_json n) ≡ some n
unfolding as_integer to_json
as_integer-to_json (whole n) = refl
as_integer-to_json (flag b) = refl

decode_v2-task_payload :
    (t : TaskV2)
    → IsV2 t
    → decode_v2_payload (task_payload t) ≡ ok (record t { image_path = sent_path t.image_path })
unfolding decode_v2_payload task_payload put get? get as_integer value check_version check_image_id
    check_text check_str check_dict check_image_path
decode_v2-task_payload t h = ground (arith, max_ℤ-version t.version, as_integer-to_json t.image_id)

is_v1-task_payload : (t : TaskV2) → is_v1_payload (task_payload t) ≡ false
unfolding is_v1_payload task_payload put
is_v1-task_payload t = ground arith

-- A task is read as it was sent: only an empty path is dropped, and any other is stripped.
pub decode-encode :
    (py : Python) (c : Codec)
    → IsLawful c
    → (t : TaskV2) → IsV2 t
    → decode_task py c (encode_task c t) ≡ ok (record t { image_path = sent_path t.image_path })
unfolding decode_task encode_task
decode-encode py c L t h =
    rw (L.loads-dumps _ (IsDistinct-task_payload t h.context), is_v1-task_payload t)
      (decode_v2-task_payload t h)
