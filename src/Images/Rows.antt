-- ===== src/Images/Rows.antt =====
-- At most one row has an id, and at most one saved row has a hash.
use data_assistant.Base.Json.{Json}
use data_assistant.Images.{
  new_image, Saved, has_pair, Transfer, ImageColumns, set_saved, set_duplicate, set_unsaved,
  set_trace, update_image_download_duplicate, update_image_refresh_trace, insert_image,
  update_image_download_success, update_image_download_failure, has_saved, saved_hash, is_hash,
  ImageRow, Images, update_image,
}
use data_assistant.Base.{
  ap, eq_iff, str_eq, inr, inl, Bool-cases, refl, ◌+◌, arith, ◌==◌, [], ◌∷◌, false, ◌≡◌, ◌++◌, ◌≤◌,
  true, List, String, Bool, ℕ,
}

abbrev pub one_if : Bool → ℕ
one_if true = 1
one_if false = 0

abbrev pub ids : ℕ → List ImageRow → ℕ
ids id [] = 0
ids id (row ∷ rows) = one_if (row.id == id) + ids id rows

abbrev pub hashes : String → List ImageRow → ℕ
hashes sha [] = 0
hashes sha (row ∷ rows) = one_if (is_hash sha (saved_hash row)) + hashes sha rows

-- Ids are unique and below the sequence, and no two saved rows have the same hash.
pub record IsDeduplicated (t : Images) : Type 0 where
  pub unique : (id : ℕ) → ids id t.rows ≤ 1
  pub fresh : (id : ℕ) → t.next_id ≤ id → ids id t.rows ≡ 0
  pub once : (sha : String) → hashes sha t.rows ≤ 1

pub ids-append :
    (id : ℕ) (rows : List ImageRow) (row : ImageRow)
    → ids id (rows ++ row ∷ []) ≡ ids id rows + one_if (row.id == id)
ids-append id [] row = omega arith
ids-append id (other ∷ rows) row = omega (arith, ids-append id rows row)

hashes-append :
    (sha : String) (rows : List ImageRow) (row : ImageRow)
    → hashes sha (rows ++ row ∷ []) ≡ hashes sha rows + one_if (is_hash sha (saved_hash row))
hashes-append sha [] row = omega arith
hashes-append sha (other ∷ rows) row = omega (arith, hashes-append sha rows row)

pub ids-update_image :
    (id j : ℕ) (f : ImageRow → ImageRow) (rows : List ImageRow)
    → ((row : ImageRow) → (f row).id ≡ row.id)
    → ids j (update_image id f rows) ≡ ids j rows
unfolding update_image
ids-update_image id j f [] keep = refl
ids-update_image id j f (row ∷ rows) keep =
    ground (arith, keep row, ids-update_image id j f rows keep)

update_image-absent :
    (id : ℕ) (f : ImageRow → ImageRow) (rows : List ImageRow)
    → ids id rows ≡ 0
    → update_image id f rows ≡ rows
unfolding update_image
update_image-absent id f [] u = refl
update_image-absent id f (row ∷ rows) u = ground (arith, update_image-absent id f rows)

-- What the update of one row may add.
hashes-update_image :
    (id n : ℕ) (sha : String) (f : ImageRow → ImageRow) (rows : List ImageRow)
    → ((row : ImageRow)
        → one_if (is_hash sha (saved_hash (f row))) ≤ one_if (is_hash sha (saved_hash row)) + n)
    → ids id rows ≤ 1
    → hashes sha (update_image id f rows) ≤ hashes sha rows + n
unfolding update_image
hashes-update_image id n sha f [] add u = omega arith
hashes-update_image id n sha f (row ∷ rows) add u = elim (Bool-cases (row.id == id)) [
  | inl e ↦ rw e (only (ground (arith, e, u)))
  | inr e ↦ rw e (omega (arith, hashes-update_image id n sha f rows add (ground (arith, u, e))))
]
  where
    only :
        ids id rows ≡ 0
        → one_if (is_hash sha (saved_hash (f row))) + hashes sha (update_image id f rows)
          ≤ one_if (is_hash sha (saved_hash row)) + hashes sha rows + n
    only u' = rw (update_image-absent id f rows u') (omega (arith, add row))

hashes-has_saved :
    (sha : String) (rows : List ImageRow) → has_saved sha rows ≡ false → hashes sha rows ≡ 0
unfolding has_saved
hashes-has_saved sha [] h = refl
hashes-has_saved sha (row ∷ rows) h = ground (arith, h, hashes-has_saved sha rows)

update-IsDeduplicated :
    (id : ℕ) (f : ImageRow → ImageRow) (t : Images)
    → ((row : ImageRow) → (f row).id ≡ row.id)
    → ((sha : String) → hashes sha (update_image id f t.rows) ≤ 1)
    → IsDeduplicated t
    → IsDeduplicated (record t { rows = update_image id f t.rows })
update-IsDeduplicated id f t keep once v = record {
  unique = λ j. omega (arith, ids-update_image id j f t.rows keep, v.unique j);
  fresh = λ j h. omega (arith, ids-update_image id j f t.rows keep, v.fresh j h);
  once = once;
}

pub insert_image-IsDeduplicated :
    (columns : ImageColumns) (t : Images)
    → IsDeduplicated t
    → IsDeduplicated (insert_image columns t).1
unfolding insert_image
insert_image-IsDeduplicated columns t v =
    elim (Bool-cases (has_pair columns.event_id columns.seq t.rows)) [
      | inl e ↦
          rw e (record { unique = v.unique; fresh = λ j h. v.fresh j (omega arith); once = v.once })
      | inr e ↦ rw e (record {
        unique = λ j.
            let row = new_image t.next_id columns in
            unfold new_image in ground (arith, ids-append j t.rows row, v.unique j, v.fresh j);
        fresh = λ j h.
            unfold new_image in
            ground (arith, ids-append j t.rows (new_image t.next_id columns), v.fresh j);
        once = λ sha.
            unfold new_image saved_hash is_hash in
            omega (arith, hashes-append sha t.rows (new_image t.next_id columns), v.once sha);
      })
    ]

-- An update that marks no row as saved keeps the hashes apart.
unsaving-IsDeduplicated :
    (id : ℕ) (f : ImageRow → ImageRow) (t : Images)
    → ((row : ImageRow) → (f row).id ≡ row.id)
    → ((sha : String) (row : ImageRow)
        → one_if (is_hash sha (saved_hash (f row))) ≤ one_if (is_hash sha (saved_hash row)))
    → IsDeduplicated t
    → IsDeduplicated (record t { rows = update_image id f t.rows })
unsaving-IsDeduplicated id f t keep less v =
    update-IsDeduplicated id f t keep
      (λ sha. omega (
        arith,
        v.once sha,
        hashes-update_image id 0 sha f t.rows (λ row. omega (arith, less sha row)) (v.unique id),
      ))
      v

pub trace-IsDeduplicated :
    (id count : ℕ) (trace : Json) (t : Images)
    → IsDeduplicated t
    → IsDeduplicated (update_image_refresh_trace id count trace t)
unfolding update_image_refresh_trace set_trace saved_hash
trace-IsDeduplicated id count trace t v =
    unsaving-IsDeduplicated id (set_trace count trace) t (λ row. refl) (λ sha row. omega arith) v

pub failure-IsDeduplicated :
    (id : ℕ) (error : String) (attempt : ℕ) (transfer : Transfer) (t : Images)
    → IsDeduplicated t
    → IsDeduplicated (update_image_download_failure id error attempt transfer t)
unfolding update_image_download_failure set_unsaved saved_hash is_hash
failure-IsDeduplicated id error attempt transfer t v =
    unsaving-IsDeduplicated id (set_unsaved error attempt transfer) t (λ row. refl)
      (λ sha row. omega arith) v

pub duplicate-IsDeduplicated :
    (now id : ℕ) (sha : String) (attempt : ℕ) (transfer : Transfer) (t : Images)
    → IsDeduplicated t
    → IsDeduplicated (update_image_download_duplicate now id sha attempt transfer t)
unfolding update_image_download_duplicate set_duplicate saved_hash is_hash
duplicate-IsDeduplicated now id sha attempt transfer t v =
    unsaving-IsDeduplicated id (set_duplicate now sha attempt transfer) t (λ row. refl)
      (λ sha row. omega arith) v

-- A row may be marked as saved if no saved row has its hash.
pub success-IsDeduplicated :
    (now id : ℕ) (result : Saved) (attempt : ℕ) (transfer : Transfer) (t : Images)
    → has_saved result.hash_sha256 t.rows ≡ false
    → IsDeduplicated t
    → IsDeduplicated (update_image_download_success now id result attempt transfer t)
unfolding update_image_download_success set_saved saved_hash is_hash
success-IsDeduplicated now id result attempt transfer t absent v =
    update-IsDeduplicated id (set_saved now result attempt transfer) t (λ row. refl) once v
  where
    once :
        (sha : String)
        → hashes sha (update_image id (set_saved now result attempt transfer) t.rows) ≤ 1
    once sha = elim (Bool-cases (str_eq sha result.hash_sha256)) [
      | inl e ↦
          let same : sha ≡ result.hash_sha256 = (eq_iff sha result.hash_sha256).0 e in
          omega (
            arith,
            hashes-update_image id 1 sha (set_saved now result attempt transfer) t.rows
                (λ row. rw e (omega arith)) (v.unique id),
            hashes-has_saved result.hash_sha256 t.rows absent,
            ap (λ s. hashes s t.rows) same,
          )
      | inr e ↦ omega (
        arith,
        hashes-update_image id 0 sha (set_saved now result attempt transfer) t.rows
            (λ row. rw e (omega arith)) (v.unique id),
        v.once sha,
      )
    ]
