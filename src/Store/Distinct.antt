-- ===== src/Store/Distinct.antt =====
-- Rows that a unique index keeps apart, and what the statements do to them.
use probehive.Base.{
  ap, Bool, true, false, none, some, List, [], ◌∷◌, ◌≡◌, inl, inr, refl, sym, ◌∙◌, arith,
  Bool-cases,
}
use probehive.Store.Tables.{any, find_where, update_where, delete_where, Holds}

module _ {A : Type 0} where
  abbrev pub Absent : (A → A → Bool) → A → List A → Type 0
  Absent r x [] = Unit {0}
  Absent r x (y ∷ ys) = (r x y ≡ false) × Absent r x ys

  -- No two rows of the table meet under the index.
  abbrev pub Apart : (A → A → Bool) → List A → Type 0
  Apart r [] = Unit {0}
  Apart r (x ∷ xs) = Absent r x xs × Apart r xs

  pub any-Absent : (r : A → A → Bool) (x : A) (xs : List A) → any (r x) xs ≡ false → Absent r x xs
  any-Absent r x [] e = tt
  any-Absent r x (y ∷ ys) e = (ground arith, any-Absent r x ys (ground arith))

  pub find-any : (p : A → Bool) (xs : List A) → find_where p xs ≡ none → any p xs ≡ false
  find-any p [] e = refl
  find-any p (x ∷ xs) e = ground (arith, find-any p xs)

  pub find-any-some :
      (p : A → Bool) (xs : List A) (x : A) → find_where p xs ≡ some x → any p xs ≡ true
  find-any-some p [] x e = cc
  find-any-some p (y ∷ ys) x e = elim (Bool-cases (p y)) [
    | inl t ↦ rw t refl
    | inr f ↦ rw f (find-any-some p ys x (rw f at e))
  ]

  pub Holds-any : (p : A → Bool) (x : A) (xs : List A) → Holds x xs → p x ≡ true → any p xs ≡ true
  Holds-any p x [] h e = absurd h
  Holds-any p x (y ∷ ys) (inl s) e = rw (ap p (sym s) ∙ e) refl
  Holds-any p x (y ∷ ys) (inr h) e = elim (Bool-cases (p y)) [
    | inl t ↦ rw t refl
    | inr f ↦ rw f (Holds-any p x ys h e)
  ]

  pub find_holds :
      (p : A → Bool) (xs : List A) (x : A) → find_where p xs ≡ some x → Holds x xs × (p x ≡ true)
  find_holds p [] x e = cc
  find_holds p (y ∷ ys) x e = elim (Bool-cases (p y)) [
    | inl t ↦ let same : x ≡ y = ground arith in (inl same, rw same t)
    | inr f ↦ let rest = find_holds p ys x (ground arith) in (inr rest.0, rest.1)
  ]

  pub Holds-Absent :
      (r : A → A → Bool) (x y : A) (xs : List A) → Absent r x xs → Holds y xs → r x y ≡ false
  Holds-Absent r x y [] a h = absurd h
  Holds-Absent r x y (z ∷ zs) a (inl e) = rw e a.0
  Holds-Absent r x y (z ∷ zs) a (inr h) = Holds-Absent r x y zs a.1 h

  -- A symmetric index lets two rows meet only if they are one.
  pub Apart_unique :
      (r : A → A → Bool) (x y : A) (xs : List A)
      → ((a b : A) → r a b ≡ r b a)
      → Apart r xs
      → Holds x xs
      → Holds y xs
      → r x y ≡ true
      → x ≡ y
  Apart_unique r x y [] symm a h k e = absurd h
  Apart_unique r x y (z ∷ zs) symm a (inl p) (inl q) e = p ∙ sym q
  Apart_unique r x y (z ∷ zs) symm a (inl p) (inr k) e =
      let f = Holds-Absent r z y zs a.0 k in absurd (ground (arith, rw p at e))
  Apart_unique r x y (z ∷ zs) symm a (inr h) (inl q) e =
      let f = Holds-Absent r z x zs a.0 h in absurd (ground (arith, symm z x, rw q at e))
  Apart_unique r x y (z ∷ zs) symm a (inr h) (inr k) e = Apart_unique r x y zs symm a.1 h k e

  pub Absent-update :
      (r : A → A → Bool) (p : A → Bool) (f : A → A) (x : A) (xs : List A)
      → ((a b : A) → r a (f b) ≡ r a b)
      → Absent r x xs
      → Absent r x (update_where p f xs)
  Absent-update r p f x [] keeps a = tt
  Absent-update r p f x (y ∷ ys) keeps a =
      (ground (arith, keeps x y), Absent-update r p f x ys keeps a.1)

  Absent-same :
      (r : A → A → Bool) (x y : A) (xs : List A)
      → ((b : A) → r x b ≡ r y b)
      → Absent r y xs
      → Absent r x xs
  Absent-same r x y [] same a = tt
  Absent-same r x y (z ∷ zs) same a = (same z ∙ a.0, Absent-same r x y zs same a.1)

  pub Apart-update :
      (r : A → A → Bool) (p : A → Bool) (f : A → A) (xs : List A)
      → ((a b : A) → r a (f b) ≡ r a b)
      → ((a b : A) → r (f a) b ≡ r a b)
      → Apart r xs
      → Apart r (update_where p f xs)
  Apart-update r p f [] right left a = tt
  Apart-update r p f (x ∷ xs) right left a =
      let rest = Absent-update r p f x xs right a.0 in
      (
        elim (Bool-cases (p x)) [
          | inl t ↦ rw t (Absent-same r (f x) x (update_where p f xs) (left x) rest)
          | inr n ↦ rw n rest
        ],
        Apart-update r p f xs right left a.1,
      )

  pub Absent-delete :
      (r : A → A → Bool) (p : A → Bool) (x : A) (xs : List A)
      → Absent r x xs
      → Absent r x (delete_where p xs)
  Absent-delete r p x [] a = tt
  Absent-delete r p x (y ∷ ys) a = ground (arith, Absent-delete r p x ys a.1)

  pub Apart-delete :
      (r : A → A → Bool) (p : A → Bool) (xs : List A) → Apart r xs → Apart r (delete_where p xs)
  Apart-delete r p [] a = tt
  Apart-delete r p (x ∷ xs) a = ground (arith, Apart-delete r p xs a.1, Absent-delete r p x xs a.0)

  pub Holds-update :
      (p : A → Bool) (f : A → A) (x : A) (xs : List A)
      → p x ≡ false
      → Holds x xs
      → Holds x (update_where p f xs)
  Holds-update p f x [] n h = absurd h
  Holds-update p f x (y ∷ ys) n (inl e) = inl (rw (sym e, n) refl)
  Holds-update p f x (y ∷ ys) n (inr h) = inr (Holds-update p f x ys n h)

  pub Holds-updated :
      (p : A → Bool) (f : A → A) (x : A) (xs : List A)
      → p x ≡ true
      → Holds x xs
      → Holds (f x) (update_where p f xs)
  Holds-updated p f x [] t h = absurd h
  Holds-updated p f x (y ∷ ys) t (inl e) = inl (rw (sym e, t) refl)
  Holds-updated p f x (y ∷ ys) t (inr h) = inr (Holds-updated p f x ys t h)

  pub Holds-delete :
      (p : A → Bool) (x : A) (xs : List A) → p x ≡ false → Holds x xs → Holds x (delete_where p xs)
  Holds-delete p x [] n h = absurd h
  Holds-delete p x (y ∷ ys) n (inl e) = rw (sym e, n) (inl refl)
  Holds-delete p x (y ∷ ys) n (inr h) = elim (Bool-cases (p y)) [
    | inl t ↦ rw t (Holds-delete p x ys n h)
    | inr f ↦ rw f (inr (Holds-delete p x ys n h))
  ]

  Absent-narrow :
      (r : A → A → Bool) (p : A → Bool) (f : A → A) (x : A) (xs : List A)
      → ((b : A) → Holds b xs → p b ≡ true → r x b ≡ false → r x (f b) ≡ false)
      → Absent r x xs
      → Absent r x (update_where p f xs)
  Absent-narrow r p f x [] keeps a = tt
  Absent-narrow r p f x (y ∷ ys) keeps a = (
    elim (Bool-cases (p y)) [ inl t ↦ rw t (keeps y (inl refl) t a.0) | inr n ↦ rw n a.0 ],
    Absent-narrow r p f x ys (λ b h. keeps b (inr h)) a.1,
  )

  Absent-moved :
      (r : A → A → Bool) (x y : A) (xs : List A)
      → ((b : A) → r y b ≡ false → r x b ≡ false)
      → Absent r y xs
      → Absent r x xs
  Absent-moved r x y [] moves a = tt
  Absent-moved r x y (z ∷ zs) moves a = (moves z a.0, Absent-moved r x y zs moves a.1)

  -- An update whose rows meet no more rows than before.
  pub Apart-narrow :
      (r : A → A → Bool) (p : A → Bool) (f : A → A) (xs : List A)
      → ((a b : A) → Holds b xs → p b ≡ true → r a b ≡ false → r a (f b) ≡ false)
      → ((a b : A) → Holds a xs → p a ≡ true → r a b ≡ false → r (f a) b ≡ false)
      → Apart r xs
      → Apart r (update_where p f xs)
  Apart-narrow r p f [] right left a = tt
  Apart-narrow r p f (x ∷ xs) right left a =
      let rest = Absent-narrow r p f x xs (λ b h. right x b (inr h)) a.0 in
      (
        elim (Bool-cases (p x)) [
          | inl t ↦
              rw t (Absent-moved r (f x) x (update_where p f xs) (λ b. left x b (inl refl) t) rest)
          | inr n ↦ rw n rest
        ],
        Apart-narrow r p f xs (λ b c h. right b c (inr h)) (λ b c h. left b c (inr h)) a.1,
      )
