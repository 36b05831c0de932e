-- ===== src/TypeInfer/Map.antt =====
-- The `HashMap<String, _>` of src/typeinfer.rs, as a list with one entry for each key.
use fly_lang.Prelude.{
  Bool, true, false, bytes_eq, if◌then◌else◌, Bytes, List, [], ◌∷◌, Option, none, some, ◌≡◌, ap,
  ◌∙◌, inl, inr, refl, Bool-cases, bytes_eq_iff,
}

abbrev pub Map {ℓ} : Type ℓ → Type ℓ
Map A = List (Bytes × A)

module _ {ℓ} {A : Type ℓ} where
  unfoldable pub get : Map A → Bytes → Option A
  get [] name = none
  get ((k, v) ∷ m) name = if bytes_eq k name then some v else get m name

  -- The value of a name that has an entry is written over.
  unfoldable pub insert : Bytes → A → Map A → Map A
  insert name x [] = (name, x) ∷ []
  insert name x ((k, v) ∷ m) =
      let rest = insert name x m in if bytes_eq k name then (k, x) ∷ m else (k, v) ∷ rest

  abbrev pub get_or : A → Option A → A
  get_or x none = x
  get_or x (some v) = v

  abbrev pub is_some : Option A → Bool
  is_some none = false
  is_some (some x) = true

bytes_eq_refl : (a : Bytes) → bytes_eq a a ≡ true
bytes_eq_refl a = (bytes_eq_iff a a).1 refl

swap :
    (k name other : Bytes)
    → bytes_eq k name ≡ true
    → bytes_eq name other ≡ false
    → bytes_eq k other ≡ false
swap k name other e h = ap (λ (a : Bytes). bytes_eq a other) ((bytes_eq_iff k name).0 e) ∙ h

module _ {ℓ} {A : Type ℓ} where
  -- The entry that was written is found.
  pub get-insert : (name : Bytes) (x : A) (m : Map A) → get (insert name x m) name ≡ some x
  unfolding get insert
  get-insert name x [] = simp (bytes_eq_refl name)
  get-insert name x ((k, v) ∷ m) = elim (Bool-cases (bytes_eq k name)) [
    | inl h ↦ simp h
    | inr h ↦ simp (h, get-insert name x m)
  ]

  -- An entry of another name is left as it is.
  pub get-insert_other :
      (name other : Bytes) (x : A) (m : Map A)
      → bytes_eq name other ≡ false
      → get (insert name x m) other ≡ get m other
  unfolding get insert
  get-insert_other name other x [] h = simp h
  get-insert_other name other x ((k, v) ∷ m) h = elim (Bool-cases (bytes_eq k name)) [
    | inl e ↦ simp (e, swap k name other e h)
    | inr e ↦ simp (e, get-insert_other name other x m h)
  ]
