-- ===== src/Config/Read/Given.antt =====
-- A field that is read from the value of its key or has its default.
use weighing_data_sync.Prelude.{◌≡◌, refl, subst, Option, none, some, Text}
use weighing_data_sync.Anyhow.{Error, Result, ok, err, ◌>>=◌, ok_injective}
use weighing_data_sync.Config.Read.{Source, or_default, required}

-- The field of a key: from its value if it is there, else the default if there is one.
pub data Given {V A : Type 0} (Reads : V → A → Type 0) : Option A → Option V → A → Type 0 where
  present : {default : Option A} {v : V} {a : A} → Reads v a → Given Reads default (some v) a
  absent : {a : A} → Given Reads (some a) none a

-- What a result describes, if it is one.
abbrev pub Describes : {A : Type 0} → (A → Type 0) → Result Error A → Type 0
Describes P (err e) = Unit
Describes P (ok a) = P a

pub then_-Describes :
    {A B : Type 0} (P : B → Type 0) (r : Result Error A) (next : A → Result Error B)
    → ((a : A) → r ≡ ok a → Describes P (next a))
    → Describes P (r >>= next)
then_-Describes P (err e) next h = tt
then_-Describes P (ok a) next h = h a refl

module _ {V : Type 0} (s : Source V) where
  -- The value converts to that.
  abbrev pub Converts : {A : Type 0} → (V → Result Error A) → V → A → Type 0
  Converts convert v a = convert v ≡ ok a

  pub or_default-Given :
      {A : Type 0} {Reads : V → A → Type 0} (convert : V → Result Error A) (default : A)
      (o : Option V) (a : A)
      → ((v : V) (b : A) → convert v ≡ ok b → Reads v b)
      → or_default s convert default o ≡ ok a
      → Given Reads (some default) o a
  or_default-Given convert default none a reads h =
      subst (Given _ (some default) none) (ok_injective _ _ _ refl h) absent
  or_default-Given convert default (some v) a reads h = present (reads v a h)

  pub required-Given :
      {A : Type 0} {Reads : V → A → Type 0} (convert : V → Result Error A) (key : Text)
      (o : Option V) (a : A)
      → ((v : V) (b : A) → convert v ≡ ok b → Reads v b)
      → required s convert key o ≡ ok a
      → Given Reads none o a
  required-Given convert key none a reads h = absurd cc
  required-Given convert key (some v) a reads h = present (reads v a h)

  pub Given-or_default :
      {A : Type 0} {Reads : V → A → Type 0} (convert : V → Result Error A) (default : A)
      (o : Option V) (a : A)
      → ((v : V) (b : A) → Reads v b → convert v ≡ ok b)
      → Given Reads (some default) o a
      → or_default s convert default o ≡ ok a
  Given-or_default convert default o a reads (present {v} h) = reads v a h
  Given-or_default convert default o a reads absent = refl

  pub Given-required :
      {A : Type 0} {Reads : V → A → Type 0} (convert : V → Result Error A) (key : Text)
      (o : Option V) (a : A)
      → ((v : V) (b : A) → Reads v b → convert v ≡ ok b)
      → Given Reads none o a
      → required s convert key o ≡ ok a
  Given-required convert key o a reads (present {v} h) = reads v a h

  -- The same for a value that is only converted.
  pub default-Given :
      {A : Type 0} (convert : V → Result Error A) (default : A) (o : Option V) (a : A)
      → or_default s convert default o ≡ ok a
      → Given (Converts convert) (some default) o a
  default-Given convert default o a = or_default-Given convert default o a (λ v b h. h)

  pub Given-default :
      {A : Type 0} (convert : V → Result Error A) (default : A) (o : Option V) (a : A)
      → Given (Converts convert) (some default) o a
      → or_default s convert default o ≡ ok a
  Given-default convert default o a = Given-or_default convert default o a (λ v b h. h)

  pub Describes-reads :
      {A : Type 0} (Reads : V → A → Type 0) (read : V → Result Error A)
      → ((v : V) → Describes (Reads v) (read v))
      → (v : V) (a : A) → read v ≡ ok a
      → Reads v a
  Describes-reads Reads read described v a h = subst (Describes (Reads v)) h (described v)
