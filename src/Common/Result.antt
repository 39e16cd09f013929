-- ===== src/Common/Result.antt =====
-- Go's `(value, error)` pairs, and methods over a state of type `S`: the writes that happened before
-- an error stay, so the state comes back with either outcome.
use tolo_observation.Common.{if◌then◌else◌, Option, none, some, ◌≡◌, refl, Bool, ◌⊎◌, inl, inr}
use Prim.Native.String.{String}
use tolo_observation.Errors.{Error, wrapped}

pub data Result {ℓ} (A : Type ℓ) : Type ℓ where
  ok : A → Result A
  err : Error → Result A

abbrev pub Action : Type 0 → Type 0 → Type 0
Action S A = S → Result A × S

infixl 5 ◌>>=◌ ◌>>◌
abbrev pub ◌>>=◌ : {S A B : Type 0} → Action S A → (A → Action S B) → Action S B
◌>>=◌ m f s = let (r, s') = m s in elim r [ ok a ↦ f a s' | err e ↦ (err e, s') ]

abbrev pub ◌>>◌ : {S A B : Type 0} → Action S A → Action S B → Action S B
m >> k = m >>= λ _. k

abbrev pub pure : {S A : Type 0} → A → Action S A
pure a s = (ok a, s)

abbrev pub raise : {S A : Type 0} → Error → Action S A
raise e s = (err e, s)

-- `if condition { return err }`.
abbrev pub raise_if : {S : Type 0} → Bool → Error → Action S (Unit {0})
raise_if c e s = (if c then err e else ok tt, s)

-- A function that reads and writes no state.
abbrev pub lift : {S A : Type 0} → Result A → Action S A
lift r s = (r, s)

-- `fmt.Errorf("…: %w", err)` around an error that is returned.
abbrev pub wrap_result : {A : Type 0} → String → Result A → Result A
wrap_result context (ok a) = ok a
wrap_result context (err e) = err (wrapped context e)

abbrev pub wrap_err : {S A : Type 0} → String → Action S A → Action S A
wrap_err context m s = let (r, s') = m s in (wrap_result context r, s')

-- Inversion of a successful chain, where its parts stay shut.
bind_ok_at :
    {S A B : Type 0} (p : Result A × S) (f : A → Action S B) (b : B)
    → (elim p.0 as (λ _. Result B × S) [ ok a ↦ f a p.1 | err e ↦ (err e, p.1) ]).0 ≡ ok b
    → (a : A) × (p.0 ≡ ok a) × ((f a p.1).0 ≡ ok b)
bind_ok_at (ok a, s) f b h = (a, refl, h)
bind_ok_at (err e, s) f b h = cc

pub bind_ok :
    {S A B : Type 0} (m : Action S A) (f : A → Action S B) (s : S) (b : B)
    → ((m >>= f) s).0 ≡ ok b
    → (a : A) × ((m s).0 ≡ ok a) × ((f a (m s).1).0 ≡ ok b)
bind_ok m f s b h = bind_ok_at (m s) f b h

pub wrap_result_ok :
    {A : Type 0} (context : String) (r : Result A) (a : A) → wrap_result context r ≡ ok a → r ≡ ok a
wrap_result_ok context (ok b) a h = h
wrap_result_ok context (err e) a h = cc

-- `value, ok := …; if !ok { return e }`.
abbrev pub or_err : {A : Type 0} → Option A → Error → Result A
or_err none e = err e
or_err (some a) e = ok a

pub Result-cases :
    {A : Type 0} (r : Result A) → ((a : A) × (r ≡ ok a)) ⊎ ((e : Error) × (r ≡ err e))
Result-cases (ok a) = inl (a, refl)
Result-cases (err e) = inr (e, refl)
