-- ===== src/Common/Keeps.antt =====
-- Methods that keep a predicate on the state, with a rule for each form of a method.
use mathlib.Core.Bool.{Bool}
use mathlib.Core.Option.{Option}
use exam_sage.Common.Tests.{if◌then◌else◌, if_both}
use exam_sage.Common.Outcome.{
  Error, Method, ◌>>=◌, pure, raise, gets, ensure, or_raise, transaction, bind-then,
  transaction-keeps, ensure_same, or_raise_same,
}

pub record Keeps {S A : Type 0} (P : S → Type 0) (m : Method S A) : Type 0 where
  pub at : (s : S) → P s → P (m s).1

module _ {S A B : Type 0} {P : S → Type 0} where
  pub Keeps-bind :
      (m : Method S A) (f : A → Method S B)
      → Keeps P m
      → ((a : A) → Keeps P (f a))
      → Keeps P (m >>= f)
  Keeps-bind m f k l = record {
    at = λ s h. bind-then P P m f s (k.at s h) (λ _ h. h) (λ a t h. (l a).at t h);
  }

module _ {S : Type 0} {P : S → Type 0} where
  pub Keeps-ensure : (b : Bool) (e : Error) → Keeps P (ensure b e)
  Keeps-ensure b e = record { at = λ s h. rw (ensure_same b e s) h }

module _ {S A : Type 0} {P : S → Type 0} where
  pub Keeps-pure : (a : A) → Keeps P (pure a)
  Keeps-pure a = record { at = λ s h. h }

  pub Keeps-raise : (e : Error) → Keeps {A = A} P (raise e)
  Keeps-raise e = record { at = λ s h. h }

  pub Keeps-gets : (f : S → A) → Keeps P (gets f)
  Keeps-gets f = record { at = λ s h. h }

  pub Keeps-or_raise : (e : Error) (o : Option A) → Keeps P (or_raise e o)
  Keeps-or_raise e o = record { at = λ s h. rw (or_raise_same e o s) h }

  pub Keeps-transaction : (m : Method S A) → Keeps P m → Keeps P (transaction m)
  Keeps-transaction m k = record { at = λ s h. transaction-keeps P m s h (k.at s h) }

  pub Keeps-if :
      (b : Bool) (m n : Method S A) → Keeps P m → Keeps P n → Keeps P (if b then m else n)
  Keeps-if b m n k l = if_both (Keeps P) b m n (λ _. k) (λ _. l)

pub ruleset keeps_rules = (
  Keeps-bind, Keeps-ensure, Keeps-pure, Keeps-raise, Keeps-gets, Keeps-or_raise, Keeps-transaction,
  Keeps-if,
)
