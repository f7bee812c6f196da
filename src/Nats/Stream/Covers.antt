-- ===== src/Nats/Stream/Covers.antt =====
-- Lists of subjects: one covers another if it has every subject of it.
use text.Mathlib.TextPositions.{eq_refl}
use data_assistant.Nats.Stream.{elem, missing_subjects}
use data_assistant.Base.{inr, inl, refl, Bool-cases, true, [], ◌≡◌, arith, ◌++◌, List, String, ◌∷◌}

pub elem-append-left :
    (s : String) (xs ys : List String) → elem s xs ≡ true → elem s (xs ++ ys) ≡ true
unfolding elem
elem-append-left s [] ys h = cc
elem-append-left s (x ∷ xs) ys h = ground (arith, elem-append-left s xs ys)

pub elem-append-right :
    (s : String) (xs ys : List String) → elem s ys ≡ true → elem s (xs ++ ys) ≡ true
unfolding elem
elem-append-right s [] ys h = h
elem-append-right s (x ∷ xs) ys h = ground (arith, elem-append-right s xs ys)

-- Every subject of the second list is in the first.
abbrev pub Covers : List String → List String → Type 0
Covers zs [] = Unit
Covers zs (s ∷ ss) = (elem s zs ≡ true) × Covers zs ss

pub Covers-cons : (z : String) (zs ss : List String) → Covers zs ss → Covers (z ∷ zs) ss
Covers-cons z zs [] h = tt
Covers-cons z zs (s ∷ ss) h = (unfold elem in ground (arith, h.0), Covers-cons z zs ss h.1)

pub Covers-refl : (ss : List String) → Covers ss ss
Covers-refl [] = tt
Covers-refl (s ∷ ss) = (unfold elem in rw (eq_refl s) refl, Covers-cons s ss ss (Covers-refl ss))

pub Covers-append-left : (xs ys ss : List String) → Covers xs ss → Covers (xs ++ ys) ss
Covers-append-left xs ys [] h = tt
Covers-append-left xs ys (s ∷ ss) h =
    (elem-append-left s xs ys h.0, Covers-append-left xs ys ss h.1)

pub missing-nil : (zs ss : List String) → Covers zs ss → missing_subjects zs ss ≡ []
unfolding missing_subjects
missing-nil zs [] h = refl
missing-nil zs (s ∷ ss) h = rw (h.0) (missing-nil zs ss h.1)

pub nil-missing : (zs ss : List String) → missing_subjects zs ss ≡ [] → Covers zs ss
unfolding missing_subjects
nil-missing zs [] h = tt
nil-missing zs (s ∷ ss) h = elim (Bool-cases (elem s zs)) [
  | inl e ↦ (e, nil-missing zs ss (rw e at h))
  | inr e ↦ absurd (of_cons (rw e at h))
]
  where
    of_cons : (s ∷ missing_subjects zs ss) ≡ [] → ⊥
    of_cons h = cc

-- What is missing is enough, whatever stands before and after it.
pub Covers-missing :
    (xs zs ss : List String) → Covers zs (missing_subjects xs ss) → Covers (xs ++ zs) ss
unfolding missing_subjects
Covers-missing xs zs [] h = tt
Covers-missing xs zs (s ∷ ss) h = elim (Bool-cases (elem s xs)) [
  | inl e ↦ (elem-append-left s xs zs e, Covers-missing xs zs ss (rw e at h))
  | inr e ↦ (
    elem-append-right s xs zs (of_missing (rw e at h)).0,
    Covers-missing xs zs ss (of_missing (rw e at h)).1,
  )
]
  where
    of_missing :
        Covers zs (s ∷ missing_subjects xs ss)
        → (elem s zs ≡ true) × Covers zs (missing_subjects xs ss)
    of_missing h = h
