-- ===== src/Tagger/Queue/Paths.antt =====
-- No two items of a queue have the same path.
use data_assistant.Base.Json.{Fields}
use data_assistant.Base.{
  none, eq_iff, zero, refl, arith, [], ap, some, ◌||◌, suc, false, ◌≡◌, take, Option, ◌∷◌, drop,
  ◌++◌, ℕ, String, List,
}
use data_assistant.Tagger.Queue.{has_path, path_of, any_path, is_queued, not_queued}

-- An item whose path is no text counts as different from all others.
abbrev pub NodupPaths : List Fields → Type 0
NodupPaths [] = Unit
NodupPaths (item ∷ items) = (is_queued items (path_of item) ≡ false) × NodupPaths items

any_path-append :
    (p : String) (xs ys : List Fields) → any_path p (xs ++ ys) ≡ (any_path p xs || any_path p ys)
unfolding any_path
any_path-append p [] ys = refl
any_path-append p (x ∷ xs) ys = rw (any_path-append p xs ys) (ground arith)

-- A part of a queue has no path that the queue lacks.
pub is_queued-drop :
    (n : ℕ) (xs : List Fields) (o : Option String)
    → is_queued xs o ≡ false
    → is_queued (drop n xs) o ≡ false
unfolding is_queued any_path
is_queued-drop zero xs o h = h
is_queued-drop (suc n) [] o h = h
is_queued-drop (suc n) (x ∷ xs) none h = refl
is_queued-drop (suc n) (x ∷ xs) (some p) h = is_queued-drop n xs (some p) (ground arith)

-- None of the first items is queued among the others, so all of them are restored.
pub not_queued-drop-take :
    (n : ℕ) (xs : List Fields) → NodupPaths xs → not_queued (drop n xs) (take n xs) ≡ take n xs
unfolding not_queued
not_queued-drop-take zero xs h = refl
not_queued-drop-take (suc n) [] h = refl
not_queued-drop-take (suc n) (x ∷ xs) h =
    rw (is_queued-drop n xs (path_of x) h.0) (ap (λ l. x ∷ l) (not_queued-drop-take n xs h.1))

-- A new path at the end keeps the paths apart.
pub NodupPaths-append :
    (xs : List Fields) (item : Fields) (p : String)
    → NodupPaths xs
    → path_of item ≡ some p
    → any_path p xs ≡ false
    → NodupPaths (xs ++ item ∷ [])
unfolding any_path is_queued
NodupPaths-append [] item p h e fresh = (rw e refl, tt)
NodupPaths-append (x ∷ xs) item p h e fresh =
    (still_fresh (path_of x) refl, NodupPaths-append xs item p h.1 e (ground arith))
  where
    still_fresh : (o : Option String) → path_of x ≡ o → is_queued (xs ++ item ∷ []) o ≡ false
    still_fresh none f = refl
    still_fresh (some q) f =
        let apart : any_path q xs ≡ false = rw f at h.0 in
        let fresh' : (has_path p (some q) || any_path p xs) ≡ false = rw f at fresh in
        rw (any_path-append q xs (item ∷ []), e, apart) (ground (arith, eq_iff p q, eq_iff q p))
