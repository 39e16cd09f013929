-- ===== src/Common/Keeps.antt =====
-- Invariants of actions, one rule for each way to build an action, and what an action ensures of its
-- answer and the state that it leaves.
use tolo_observation.Common.Result.{Action, Result, ok, err, ◌>>=◌, wrap_err, pure, lift}
use Prim.Native.String.{String}
use tolo_observation.Errors.{Error}

-- `m` keeps `P`, whether it answers or fails.
pub record Keeps {S A : Type 0} (P : S → Type 0) (m : Action S A) : Type 0 where
  pub at : (s : S) → P s → P (m s).1

module _ {S A : Type 0} {P : S → Type 0} where
  pub Keeps-pure : (a : A) → Keeps P (pure a)
  Keeps-pure a = record { at = λ s h. h }

  pub Keeps-lift : (r : Result A) → Keeps P (lift r)
  Keeps-lift r = record { at = λ s h. h }

  pub Keeps-wrap : (context : String) (m : Action S A) → Keeps P m → Keeps P (wrap_err context m)
  Keeps-wrap context m k = record { at = k.at }

module _ {S A B : Type 0} {P : S → Type 0} where
  Keeps-after :
      (p : Result A × S) (f : A → Action S B)
      → P p.1
      → ((a : A) → Keeps P (f a))
      → P (elim p.0 as (λ _. Result B × S) [ ok a ↦ f a p.1 | err e ↦ (err e, p.1) ]).1
  Keeps-after (ok a, s) f h k = (k a).at s h
  Keeps-after (err e, s) f h k = h

  pub Keeps-bind :
      (m : Action S A) (f : A → Action S B)
      → Keeps P m
      → ((a : A) → Keeps P (f a))
      → Keeps P (m >>= f)
  Keeps-bind m f km kf = record { at = λ s h. Keeps-after (m s) f (km.at s h) kf }

pub ruleset keeps_rules = (Keeps-pure, Keeps-lift, Keeps-wrap, Keeps-bind)

-- From a state with `P`, the answer and the state afterwards have `Q`.
pub record Ensures {S A : Type 0} (P : S → Type 0) (Q : Result A × S → Type 0) (m : Action S A)
    : Type 0 where
  pub from : (s : S) → P s → Q (m s)

module _ {S A B : Type 0} (R : Result A × S → Type 0) {Q : Result B × S → Type 0} where
  Ensures-after :
      (p : Result A × S) (f : A → Action S B)
      → R p
      → ((e : Error) (s : S) → R (err e, s) → Q (err e, s))
      → ((a : A) → Ensures (λ s. R (ok a, s)) Q (f a))
      → Q (elim p.0 as (λ _. Result B × S) [ ok a ↦ f a p.1 | err e ↦ (err e, p.1) ])
  Ensures-after (ok a, s) f h fails k = (k a).from s h
  Ensures-after (err e, s) f h fails k = fails e s h

  pub Ensures-bind :
      {P : S → Type 0} (m : Action S A) (f : A → Action S B)
      → Ensures P R m
      → ((e : Error) (s : S) → R (err e, s) → Q (err e, s))
      → ((a : A) → Ensures (λ s. R (ok a, s)) Q (f a))
      → Ensures P Q (m >>= f)
  Ensures-bind m f em fails ef = record {
    from = λ s h. Ensures-after (m s) f (em.from s h) fails ef;
  }

-- A step that keeps `P`, and fails as it must.
pub Ensures-keeps :
    {S A B : Type 0} {P : S → Type 0} {Q : Result B × S → Type 0} (m : Action S A)
    (f : A → Action S B)
    → Keeps P m
    → ((e : Error) (s : S) → P s → Q (err e, s))
    → ((a : A) → Ensures P Q (f a))
    → Ensures P Q (m >>= f)
Ensures-keeps {P = P} m f k fails ef =
    Ensures-bind (λ p. P p.1) m f (record { from = k.at }) fails ef
