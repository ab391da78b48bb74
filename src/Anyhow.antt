-- ===== src/Anyhow.antt =====
-- `anyhow::Result` as the program uses it: an error is a message under the contexts that were
-- attached to it, and its `Display` shows the outermost one only.
use weighing_data_sync.Prelude.{
  Text, Bool, true, false, Option, none, some, ◌≡◌, refl, sym, ◌∙◌, ◌⊎◌, inl, inr,
}

pub data Error : Type 0 where
  msg : Text → Error
  context : Text → Error → Error

-- `error.to_string()`.
pub to_string : Error → Text
to_string (msg t) = t
to_string (context t e) = t

-- A fallible call with an error type of its own.
pub data Result {ℓ κ} (E : Type ℓ) (A : Type κ) : Type (ℓ ⊔ κ) where
  ok : A → Result E A
  err : E → Result E A

-- `?` hands an error on.
infixl 5 ◌>>=◌ ◌>>◌
abbrev pub ◌>>=◌ {ℓ κ μ} :
    {E : Type ℓ} {A : Type κ} {B : Type μ} → Result E A → (A → Result E B) → Result E B
err x >>= next = err x
ok v >>= next = next v

-- The same where the value is of no interest.
abbrev pub ◌>>◌ {ℓ κ} : {E : Type ℓ} {B : Type κ} → Result E (Unit {0}) → Result E B → Result E B
err x >> next = err x
ok v >> next = next

-- `bail!` unless the test holds.
abbrev pub ensure : Bool → Text → Result Error (Unit {0})
ensure true t = ok tt
ensure false t = err (msg t)

-- `.context(…)` on a result and on an option.
abbrev pub with_context {ℓ} : {A : Type ℓ} → Text → Result Error A → Result Error A
with_context t (ok a) = ok a
with_context t (err e) = err (context t e)

abbrev pub ok_or {ℓ} : {A : Type ℓ} → Text → Option A → Result Error A
ok_or t (some a) = ok a
ok_or t none = err (msg t)

abbrev pub is_ok {ℓ κ} : {E : Type ℓ} {A : Type κ} → Result E A → Bool
is_ok (ok a) = true
is_ok (err e) = false

-- `map_err` of an error under a context.
abbrev pub map_context {ℓ κ} :
    {F : Type ℓ} {A : Type κ} → (Error → F) → Text → Result Error A → Result F A
map_context wrap t (ok a) = ok a
map_context wrap t (err e) = err (wrap (context t e))

pub Result-cases {ℓ κ} :
    {E : Type ℓ} {A : Type κ} (r : Result E A) → ((a : A) × (r ≡ ok a)) ⊎ ((e : E) × (r ≡ err e))
Result-cases (ok a) = inl (a, refl)
Result-cases (err e) = inr (e, refl)

-- The steps of a chain that ends well.
pub chain_ok {ℓ κ μ} :
    {E : Type ℓ} {A : Type κ} {B : Type μ} (step : Result E A) (next : A → Result E B) (last : B)
    → (step >>= next) ≡ ok last
    → (first : A) × (step ≡ ok first) × (next first ≡ ok last)
chain_ok (err x) next last done = cc
chain_ok (ok first) next last done = (first, refl, done)

pub map_context-eq-ok {ℓ κ} :
    {F : Type ℓ} {A : Type κ} (wrap : Error → F) (t : Text) (r : Result Error A) {a : A}
    → map_context wrap t r ≡ ok a
    → r ≡ ok a
map_context-eq-ok wrap t (ok a) h = cc
map_context-eq-ok wrap t (err e) h = cc

pub with_context-eq-ok {ℓ} :
    {A : Type ℓ} (t : Text) (r : Result Error A) {a : A} → with_context t r ≡ ok a → r ≡ ok a
with_context-eq-ok t (ok a) h = cc
with_context-eq-ok t (err e) h = cc

pub ensure-eq-ok : (b : Bool) (t : Text) {u : Unit {0}} → ensure b t ≡ ok u → b ≡ true
ensure-eq-ok true t h = refl
ensure-eq-ok false t h = cc

pub ok_injective {ℓ κ} :
    {E : Type ℓ} {A : Type κ} (r : Result E A) (a b : A) → r ≡ ok a → r ≡ ok b → a ≡ b
ok_injective r a b h k = let both = sym h ∙ k in cc
