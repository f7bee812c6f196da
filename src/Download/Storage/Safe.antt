-- ===== src/Download/Storage/Safe.antt =====
-- What a safe file name is made of.
use data_assistant.Base.{if◌then◌else◌, refl, inr, ◌≡◌, inl, true, Bool, false, Bool-cases, String}
use data_assistant.Download.Storage.{
  code, is_safe, is_trimmed, Char, or_text, squash, trim_start, put_unless, trim_end, safe_filename,
}

abbrev pub AllSafe : String → Type 0
AllSafe String.[] = Unit
AllSafe (String.◌∷◌ c s) = (is_safe (code c) ≡ true) × AllSafe s

-- Not empty, of safe characters, and the first is neither a dot nor an underscore.
abbrev pub IsSafeName : String → Type 0
IsSafeName String.[] = ⊥
IsSafeName (String.◌∷◌ c s) = (is_trimmed (code c) ≡ false) × (is_safe (code c) ≡ true) × AllSafe s

-- A text that is empty or a safe name.
abbrev IsSafeOrEmpty : String → Type 0
IsSafeOrEmpty String.[] = Unit
IsSafeOrEmpty (String.◌∷◌ c s) = IsSafeName (String.◌∷◌ c s)

squash-AllSafe : (replaced : Bool) (s : String) → AllSafe (squash replaced s)
unfolding squash
squash-AllSafe replaced String.[] = tt
squash-AllSafe replaced (String.◌∷◌ c s) = elim (Bool-cases (is_safe (code c))) [
  | inl e ↦ rw e (e, squash-AllSafe false s)
  | inr e ↦ rw e (of_flag replaced (squash-AllSafe true s))
]
  where
    of_flag :
        (b : Bool)
        → AllSafe (squash true s)
        → AllSafe (if b then squash true s else String.◌∷◌ "_" (squash true s))
    of_flag true h = h
    of_flag false h = (unfold is_safe in refl, h)

trim_start-safe : (s : String) → AllSafe s → IsSafeOrEmpty (trim_start s)
unfolding trim_start
trim_start-safe String.[] h = tt
trim_start-safe (String.◌∷◌ c s) h = elim (Bool-cases (is_trimmed (code c))) [
  | inl e ↦ rw e (trim_start-safe s h.1)
  | inr e ↦ rw e (e, h.0, h.1)
]

put_unless-AllSafe :
    (c : Char) (s : String) → is_safe (code c) ≡ true → AllSafe s → AllSafe (put_unless c s)
unfolding put_unless
put_unless-AllSafe c String.[] e h = elim (Bool-cases (is_trimmed (code c))) [
  | inl t ↦ rw t tt
  | inr t ↦ rw t (e, tt)
]
put_unless-AllSafe c (String.◌∷◌ d s) e h = (e, h)

trim_end-AllSafe : (s : String) → AllSafe s → AllSafe (trim_end s)
unfolding trim_end
trim_end-AllSafe String.[] h = tt
trim_end-AllSafe (String.◌∷◌ c s) h = put_unless-AllSafe c (trim_end s) h.0 (trim_end-AllSafe s h.1)

-- A first character that stays is the first of the result.
put_unless-safe :
    (c : Char) (s : String)
    → is_trimmed (code c) ≡ false
    → is_safe (code c) ≡ true
    → AllSafe s
    → IsSafeOrEmpty (put_unless c s)
unfolding put_unless
put_unless-safe c String.[] t e h = rw t (t, e, tt)
put_unless-safe c (String.◌∷◌ d s) t e h = (t, e, h)

trim_end-safe : (s : String) → IsSafeOrEmpty s → IsSafeOrEmpty (trim_end s)
unfolding trim_end
trim_end-safe String.[] h = tt
trim_end-safe (String.◌∷◌ c s) h = put_unless-safe c (trim_end s) h.0 h.1 (trim_end-AllSafe s h.2)

or_text-safe :
    (s default : String) → IsSafeOrEmpty s → IsSafeName default → IsSafeName (or_text s default)
unfolding or_text
or_text-safe String.[] default h d = d
or_text-safe (String.◌∷◌ c s) default h d = h

default_name : IsSafeName "image.bin"
unfolding is_trimmed is_safe
default_name = (refl, refl, (refl, (refl, (refl, (refl, (refl, (refl, (refl, (refl, tt)))))))))

-- The safe form of any name is not empty and has only letters, digits, dots, underscores and
-- dashes, so no separator of paths; and it begins with no dot or underscore.
pub safe_filename-IsSafeName : (name : String) → IsSafeName (safe_filename name)
unfolding safe_filename
safe_filename-IsSafeName name =
    or_text-safe (trim_end (trim_start (squash false name))) "image.bin"
      (trim_end-safe _ (trim_start-safe _ (squash-AllSafe false name))) default_name
