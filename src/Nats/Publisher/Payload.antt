-- ===== src/Nats/Publisher/Payload.antt =====
-- From the logger to the processor: the payload that the publisher builds, as the worker reads it.
use data_assistant.Base.Result.{ok}
use data_assistant.Contract.RoundTrip.{decode-encode, IsDistinct-task_payload, IsV2}
use data_assistant.Nats.Publisher.{or_source, new_task, build_tagger_task_payload}
use data_assistant.Base.Json.{pos, obj, Json, Fields}
use data_assistant.Contract.{
  task_payload, decode_task, TaskV2, IsLawful, encode_task, Integer, Codec,
}
use data_assistant.Base.Text.{is_empty, Python}
use mathlib.Core.Path.{subst}
use mathlib.Core.Option.{some-injective}
use data_assistant.Base.{refl, none, inr, ◌⊎◌, inl, false, ap, ◌∙◌, sym, some, ◌≡◌, Option, String}

module _ (py : Python) (c : Codec) (image_id : Integer) (sha256 source_url : String)
    (original_url : Option String) (context : Fields) where
  abbrev task : TaskV2
  task = new_task image_id sha256 source_url original_url context

  built :
      IsLawful c
      → IsV2 task
      → build_tagger_task_payload c image_id sha256 source_url original_url context
        ≡ some (obj (task_payload task))
  unfolding build_tagger_task_payload encode_task
  built L h = L.loads-dumps _ (IsDistinct-task_payload task h.context)

  of_task : IsLawful c → IsV2 task → decode_task py c (c.dumps (obj (task_payload task))) ≡ ok task
  unfolding encode_task new_task
  of_task L h = decode-encode py c L task h

  -- The task with every field spelled out.
  abbrev pub sent_task : String → TaskV2
  sent_task original = record {
    version = pos 2;
    image_id = image_id;
    sha256 = sha256;
    source_url = source_url;
    original_url = original;
    context = context;
    image_path = none;
  }

  -- The original URL, if one is given that is not empty, and else the source URL.
  abbrev pub IsOriginal : String → Type 0
  IsOriginal original =
      ((original_url ≡ some original) × (is_empty original ≡ false))
      ⊎ (((original_url ≡ none) ⊎ (original_url ≡ some "")) × (original ≡ source_url))

  or_source_lem :
      (o : Option String) (original : String)
      → original_url ≡ o
      → IsOriginal original
      → or_source o source_url ≡ original
  unfolding or_source is_empty
  or_source_lem none original e (inl (g, h)) = absurd cc
  or_source_lem none original e (inr (g, h)) = sym h
  or_source_lem (some u) original e (inl (g, h)) =
      let same : u ≡ original = some-injective u original (sym e ∙ g) in rw (same, h) refl
  or_source_lem (some u) original e (inr (inl g, h)) = absurd cc
  or_source_lem (some u) original e (inr (inr g, h)) =
      let same : u ≡ "" = some-injective u "" (sym e ∙ g) in rw same (sym h)

  task_lem : (original : String) → IsOriginal original → task ≡ sent_task original
  unfolding new_task
  task_lem original h =
      ap (λ u. record task { original_url = u }) (or_source_lem original_url original refl h)

  -- What the publisher builds for an image and sends, the worker reads as the task of version 2 with
  -- the id, the hash, the source URL and the context that were given, no path, and as original URL the
  -- one given, or the source URL if none is given or an empty one. The id is positive, the hash is
  -- stripped and not empty, no key of the context is repeated, and the codec gives back what it
  -- wrote.
  pub decode-build :
      (original : String)
      → IsOriginal original
      → IsLawful c
      → IsV2 (sent_task original)
      → {payload : Json}
      → build_tagger_task_payload c image_id sha256 source_url original_url context ≡ some payload
      → decode_task py c (c.dumps payload) ≡ ok (sent_task original)
  decode-build original o L h e =
      let same : task ≡ sent_task original = task_lem original o in
      let v2 : IsV2 task = subst IsV2 (sym same) h in
      subst (λ v. decode_task py c (c.dumps v) ≡ ok (sent_task original))
        (some-injective _ _ (sym (built L v2) ∙ e))
        (subst (λ t. decode_task py c (c.dumps (obj (task_payload task))) ≡ ok t) same
          (of_task L v2))
