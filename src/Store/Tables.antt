-- ===== src/Store/Tables.antt =====
-- Tables as lists of rows, with the statements that the stores of internal/postgres use.
use probehive.Base.{
  Bool, true, false, ◌||◌, Option, none, some, List, [], ◌∷◌, if◌then◌else◌, ◌≡◌, ◌⊎◌, inl, inr,
  refl, arith, Bool-cases,
}

module _ {A : Type 0} where
  -- `EXISTS (SELECT 1 … WHERE p)`, and whether a statement affects a row.
  abbrev pub any : (A → Bool) → List A → Bool
  any p [] = false
  any p (x ∷ xs) = p x || any p xs

  abbrev pub find_where : (A → Bool) → List A → Option A
  find_where p [] = none
  find_where p (x ∷ xs) = if p x then some x else find_where p xs

  -- `UPDATE … SET … WHERE p`.
  abbrev pub update_where : (A → Bool) → (A → A) → List A → List A
  update_where p f [] = []
  update_where p f (x ∷ xs) = (if p x then f x else x) ∷ update_where p f xs

  -- `DELETE … WHERE p`.
  abbrev pub delete_where : (A → Bool) → List A → List A
  delete_where p [] = []
  delete_where p (x ∷ xs) = if p x then delete_where p xs else x ∷ delete_where p xs

  abbrev pub Holds : A → List A → Type 0
  Holds x [] = ⊥
  Holds x (y ∷ ys) = (x ≡ y) ⊎ Holds x ys

  pub any-Holds :
      (p : A → Bool) (xs : List A) → any p xs ≡ true → (x : A) × (Holds x xs × (p x ≡ true))
  any-Holds p [] e = cc
  any-Holds p (x ∷ xs) e = elim (Bool-cases (p x)) [
    | inl t ↦ (x, (inl refl, t))
    | inr f ↦ let rest = any-Holds p xs (ground arith) in (rest.0, (inr rest.1.0, rest.1.1))
  ]
