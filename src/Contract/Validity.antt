-- ===== src/Contract/Validity.antt =====
-- What holds of every task that the decoder returns.
use data_assistant.Base.{refl}
use mathlib.Core.Option.{none}
use data_assistant.Base.Result.{Ensures-skip, Ensures-bind, Ensures-ok, Ensures}
use data_assistant.Base.Text.{strip_idem}
use data_assistant.Base.{inr, inl, Option, Bool-cases, arith, ◌⊎◌}
use data_assistant.Contract.{
  bad_original_url, bad_source_url, check_str, check_dict, empty_image_path, is_v1_payload, obj,
  empty_sha256, decode_json, get, decode_payload, str, strip, true, is_empty, some, Integer, false,
  pos, ok, String, coerce_positive_int, Python, Json, DecodeError, ◌≡◌, ltb_ℤ, Fields, Codec, value,
  task_version, TaskV2, decode_v1_payload, decode_v2_payload, decode_task, check_version,
  check_image_id, check_text, check_image_path,
}

-- A current message: at least version 2, and a stripped hash that is not empty.
pub record IsCurrent (t : TaskV2) : Type 0 where
  pub version : ltb_ℤ t.version task_version ≡ false
  pub sha256 : is_empty t.sha256 ≡ false
  pub stripped : strip t.sha256 ≡ t.sha256

-- A message of the first format: it has a stripped path that is not empty.
pub record IsLegacy (t : TaskV2) : Type 0 where
  pub version : t.version ≡ pos 1
  pub path : (p : String) × (t.image_path ≡ some p) × (is_empty p ≡ false) × (strip p ≡ p)

pub record IsDecoded (t : TaskV2) : Type 0 where
  pub image_id : ltb_ℤ (pos 0) (value t.image_id) ≡ true
  pub format : IsLegacy t ⊎ IsCurrent t

abbrev IsStripped : String → Type 0
IsStripped s = (is_empty s ≡ false) × (strip s ≡ s)

check_text-IsStripped : (e : DecodeError) (v : Json) → Ensures IsStripped (check_text e v)
unfolding check_text
check_text-IsStripped e (str u) = elim (Bool-cases (is_empty (strip u))) [
  | inl blank ↦ rw blank tt
  | inr full ↦ rw full (full, strip_idem u)
]
check_text-IsStripped e _ = tt

abbrev IsPositive : Integer → Type 0
IsPositive n = ltb_ℤ (pos 0) (value n) ≡ true

check_image_id-IsPositive : (v : Json) → Ensures IsPositive (check_image_id v)
unfolding check_image_id
check_image_id-IsPositive v = ground arith

check_version-ok : (v : Json) → Ensures (λ n. ltb_ℤ n task_version ≡ false) (check_version v)
unfolding check_version
check_version-ok v = ground arith

coerce_positive_int-ok :
    (py : Python) (v : Json) → Ensures (λ n. ltb_ℤ (pos 0) n ≡ true) (coerce_positive_int py v)
unfolding coerce_positive_int
coerce_positive_int-ok py v = ground arith

decode_v2-IsDecoded : (d : Fields) → Ensures IsDecoded (decode_v2_payload d)
unfolding decode_v2_payload
decode_v2-IsDecoded d =
    Ensures-bind _ IsDecoded (check_version (get "version" d)) _ (check_version-ok _) λ v iv.
      Ensures-bind _ IsDecoded (check_image_id (get "image_id" d)) _ (check_image_id-IsPositive _)
        λ n ii.
          Ensures-bind _ IsDecoded (check_text empty_sha256 (get "sha256" d)) _
            (check_text-IsStripped _ _)
            λ s it. Ensures-skip IsDecoded (check_str bad_source_url (get "source_url" d)) _ λ u.
              Ensures-skip IsDecoded (check_str bad_original_url (get "original_url" d)) _ λ o.
                Ensures-skip IsDecoded (check_dict (get "context" d)) _ λ c.
                  Ensures-skip IsDecoded (check_image_path (get "image_path" d)) _ λ p. record {
                    image_id = ii;
                    format = inr (record { version = iv; sha256 = it.0; stripped = it.1 });
                  }

decode_v1-IsDecoded : (py : Python) (d : Fields) → Ensures IsDecoded (decode_v1_payload py d)
unfolding decode_v1_payload value
decode_v1-IsDecoded py d =
    Ensures-bind _ IsDecoded (check_text empty_image_path (get "image_path" d)) _
      (check_text-IsStripped _ _)
      λ p ip. Ensures-skip IsDecoded (check_dict (get "context" d)) _ λ c.
        Ensures-bind _ IsDecoded (coerce_positive_int py (get "image_id" c)) _
          (coerce_positive_int-ok py _)
          λ n ii. record {
            image_id = ii;
            format = inl (record { version = refl; path = (p, refl, ip.0, ip.1) });
          }

decode_payload-IsDecoded : (py : Python) (d : Fields) → Ensures IsDecoded (decode_payload py d)
decode_payload-IsDecoded py d = elim (Bool-cases (is_v1_payload d)) [
  | inl e ↦ unfold decode_payload in rw e (decode_v1-IsDecoded py d)
  | inr e ↦ unfold decode_payload in rw e (decode_v2-IsDecoded d)
]

decode_json-IsDecoded : (py : Python) (v : Option Json) → Ensures IsDecoded (decode_json py v)
unfolding decode_json
decode_json-IsDecoded py none = tt
decode_json-IsDecoded py (some (obj d)) = decode_payload-IsDecoded py d
decode_json-IsDecoded py (some _) = tt

-- Every task that the decoder returns has a positive image id. Either it is of version 1 and has a
-- stripped path that is not empty, or its version is at least 2 and its hash is stripped and not
-- empty.
pub decode_task-IsDecoded :
    (py : Python) (c : Codec) (raw : c.Bytes) {t : TaskV2}
    → decode_task py c raw ≡ ok t
    → IsDecoded t
unfolding decode_task
decode_task-IsDecoded py c raw h = Ensures-ok IsDecoded _ (decode_json-IsDecoded py (c.loads raw)) h
