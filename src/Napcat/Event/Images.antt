-- ===== src/Napcat/Event/Images.antt =====
-- The images of an event against the segments of its message.
use data_assistant.Base.Result.{
  ◌>>=◌, Ensures-ok, ok, Ensures-bind, Ensures-weaken, Ensures-skip, Ensures,
}
use data_assistant.Base.Text.{Python}
use data_assistant.Napcat.Event.{
  optional_int, or_none, decoded, data_of, image_of, extract_images_from_segments, ImageSegment,
  image_segment,
}
use data_assistant.Base.Json.{nil, get, obj, cons, Fields, Json, Items, elements}
use mathlib.Core.Path.{subst}
use data_assistant.Base.{
  none, sym, ◌∙◌, ap, ◌-◌, [], arith, some, get_elem?, ◌≡◌, suc, ◌∷◌, ◌≤◌, Option, String, List, ℕ,
  refl,
}

-- The image was made from an element of the list, whose first index is `n`: the one at its own
-- index.
pub record IsAt (n : ℕ) (vs : Items) (image : ImageSegment) : Type 0 where
  pub from : n ≤ image.seq
  pub here : get_elem? (elements vs) (image.seq - n) ≡ some (obj image.raw_segment)
  pub typed : image_segment (obj image.raw_segment) ≡ some image.raw_segment

-- Each image stands at its index, and the indices rise.
abbrev pub AreAt : ℕ → Items → List ImageSegment → Type 0
AreAt n vs [] = Unit
AreAt n vs (image ∷ images) = IsAt n vs image × AreAt n vs images

abbrev pub Rises : ℕ → List ImageSegment → Type 0
Rises n [] = Unit
Rises n (image ∷ images) = (n ≤ image.seq) × Rises (suc image.seq) images

IsAt-cons :
    (n : ℕ) (v : Json) (vs : Items) (image : ImageSegment)
    → IsAt (suc n) vs image
    → IsAt n (cons v vs) image
unfolding elements
IsAt-cons n v vs image h = record {
  from = omega (arith, h.from);
  here = rw (shift) h.here;
  typed = h.typed;
}
  where
    shift : image.seq - n ≡ suc (image.seq - suc n)
    shift = omega (arith, h.from)

AreAt-cons :
    (n : ℕ) (v : Json) (vs : Items) (images : List ImageSegment)
    → AreAt (suc n) vs images
    → AreAt n (cons v vs) images
AreAt-cons n v vs [] h = tt
AreAt-cons n v vs (image ∷ images) h = (IsAt-cons n v vs image h.0, AreAt-cons n v vs images h.1)

Rises-weaken : (n : ℕ) (images : List ImageSegment) → Rises (suc n) images → Rises n images
Rises-weaken n [] h = tt
Rises-weaken n (image ∷ images) h = (omega (arith, h.0), h.1)

obj-injective : (d seg : Fields) → image_segment (obj d) ≡ some seg → d ≡ seg
unfolding image_segment
obj-injective d seg h = ground arith

image_segment-eq-some :
    (v : Json) (seg : Fields)
    → image_segment v ≡ some seg
    → (v ≡ obj seg) × (image_segment (obj seg) ≡ some seg)
image_segment-eq-some (obj d) seg h =
    subst (λ s. (obj d ≡ obj s) × (image_segment (obj s) ≡ some s)) (obj-injective d seg h)
      (refl, h ∙ ap some (sym (obj-injective d seg h)))
image_segment-eq-some _ seg h = absurd (unfold image_segment in cc)

IsAt-made :
    (n : ℕ) (v : Json) (vs : Items) (seg : Fields) (image : ImageSegment)
    → image_segment v ≡ some seg
    → (image.seq ≡ n) × (image.raw_segment ≡ seg)
    → IsAt n (cons v vs) image
unfolding elements
IsAt-made n v vs seg image h i = record {
  from = omega (arith, i.0);
  here = rw at_zero (ap some ((image_segment-eq-some v seg h).0 ∙ ap obj (sym i.1)));
  typed = rw i.1 (image_segment-eq-some v seg h).1;
}
  where
    at_zero : image.seq - n ≡ 0
    at_zero = omega (arith, i.0)

module _ (py : Python) (cq_urls : String → List String) (unescape_other : Json → Option Json) where
  image_of-Ensures :
      (seq : ℕ) (seg : Fields)
      → Ensures
          (λ image. (image.seq ≡ seq) × (image.raw_segment ≡ seg))
          (image_of py cq_urls unescape_other seq seg)
  unfolding image_of
  image_of-Ensures seq seg = Ensures-skip _ (data_of py (get "data" seg)) _ λ d.
      Ensures-skip _ (decoded py cq_urls unescape_other (or_none py (get "url" d))) _
        λ u. Ensures-skip _ (optional_int py (get "file_size" d)) _ λ n. (refl, refl)

  abbrev Made : ℕ → Items → List ImageSegment → Type 0
  Made n vs images = AreAt n vs images × Rises n images

  of_segment-Ensures :
      (n : ℕ) (v : Json) (vs : Items) (s : Option Fields)
      → image_segment v ≡ s
      → Ensures
          (Made (suc n) vs)
          (extract_images_from_segments py cq_urls unescape_other (suc n) vs)
      → Ensures (Made n (cons v vs)) (elim s [
        | none ↦ extract_images_from_segments py cq_urls unescape_other (suc n) vs
        | some seg ↦ image_of py cq_urls unescape_other n seg >>= λ image.
            extract_images_from_segments py cq_urls unescape_other (suc n) vs >>= λ images.
            ok (image ∷ images)
      ])
  of_segment-Ensures n v vs none e rest =
      Ensures-weaken (extract_images_from_segments py cq_urls unescape_other (suc n) vs)
        (λ images h. (AreAt-cons n v vs images h.0, Rises-weaken n images h.1)) rest
  of_segment-Ensures n v vs (some seg) e rest =
      Ensures-bind _ (Made n (cons v vs)) (image_of py cq_urls unescape_other n seg) _
        (image_of-Ensures n seg)
        λ image i.
          Ensures-bind _ (Made n (cons v vs))
            (extract_images_from_segments py cq_urls unescape_other (suc n) vs) _ rest
            λ images h. (
              (IsAt-made n v vs seg image e i, AreAt-cons n v vs images h.0),
              (omega (arith, i.0), rw i.0 h.1),
            )

  extract-Ensures :
      (n : ℕ) (vs : Items)
      → Ensures (Made n vs) (extract_images_from_segments py cq_urls unescape_other n vs)
  unfolding extract_images_from_segments
  extract-Ensures n nil = (tt, tt)
  extract-Ensures n (cons v vs) =
      of_segment-Ensures n v vs (image_segment v) refl (extract-Ensures (suc n) vs)

  -- Each image that the segments of a message give was made from the segment at its own index, which
  -- is a dictionary of type `image`, and the indices rise: no segment gives two images.
  pub extract_images_from_segments-AreAt :
      (vs : Items) {images : List ImageSegment}
      → extract_images_from_segments py cq_urls unescape_other 0 vs ≡ ok images
      → AreAt 0 vs images × Rises 0 images
  extract_images_from_segments-AreAt vs h =
      Ensures-ok (λ images. AreAt 0 vs images × Rises 0 images)
        (extract_images_from_segments py cq_urls unescape_other 0 vs) (extract-Ensures 0 vs) h
