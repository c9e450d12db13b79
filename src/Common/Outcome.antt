-- ===== src/Common/Outcome.antt =====
-- Python's exceptions as values, and methods that mutate an object and may raise: the state is kept
-- beside the error, since what was written before a raise stays written.
use mathlib.Core.Path.{◌≡◌, refl, sym, ap, ◌∙◌, subst}
use mathlib.Core.Bool.{Bool, true, false}
use mathlib.Core.Option.{Option, none, some}

-- The exception classes that the modelled code raises or lets through.
pub data Error : Type 0 where
  key_error value_error index_error runtime_error integrity_error timeout_error not_found stale
        active_operation invalid_approval authority_revoked authorization_error :
      Error

pub data Result {ℓ} (A : Type ℓ) : Type ℓ where
  ok : A → Result A
  err : Error → Result A

abbrev pub is_ok {ℓ} : {A : Type ℓ} → Result A → Bool
is_ok (ok a) = true
is_ok (err e) = false

abbrev pub Method {ℓ} : Type ℓ → Type ℓ → Type ℓ
Method S A = S → Result A × S

module _ {ℓ} {S A B : Type ℓ} where
  abbrev resume : Result A → (A → Method S B) → Method S B
  resume (ok a) f s = f a s
  resume (err e) f s = (err e, s)

  infixl 5 ◌>>=◌ ◌>>◌
  abbrev pub ◌>>=◌ : Method S A → (A → Method S B) → Method S B
  ◌>>=◌ m f s = let (r, s') = m s in resume r f s'

  abbrev pub ◌>>◌ : Method S A → Method S B → Method S B
  m >> n = m >>= λ _. n

-- A first step that leaves the state alone: what holds if it raises and if it goes on holds after both.
pub after_check :
    {S A B : Type 0} (P : S → Type 0) (m : Method S A) (f : A → Method S B) (s : S)
    → (m s).1 ≡ s
    → P s
    → ((a : A) → (m s).0 ≡ ok a → P (f a s).1)
    → P ((m >>= f) s).1
after_check {A} P m f s same h k = go (m s).0 refl
  where
    go : (r : Result A) → (m s).0 ≡ r → P (resume r f (m s).1).1
    go (ok a) e = rw same (k a e)
    go (err x) e = rw same h

-- The same for a statement about the result and the state.
pub after_step :
    {S A B : Type 0} (P : Result B × S → Type 0) (m : Method S A) (f : A → Method S B) (s : S)
    → (m s).1 ≡ s
    → ((e : Error) → (m s).0 ≡ err e → P (err e, s))
    → ((a : A) → (m s).0 ≡ ok a → P (f a s))
    → P ((m >>= f) s)
after_step {A} P m f s same h k = go (m s).0 refl
  where
    go : (r : Result A) → (m s).0 ≡ r → P (resume r f (m s).1)
    go (ok a) e = rw same (k a e)
    go (err x) e = rw same (h x e)

module _ {ℓ} {S A : Type ℓ} where
  abbrev pub pure : A → Method S A
  pure a s = (ok a, s)

  abbrev pub raise : Error → Method S A
  raise e s = (err e, s)

  abbrev pub gets : (S → A) → Method S A
  gets f s = (ok (f s), s)

abbrev pub modify : {S : Type 0} → (S → S) → Method S Unit
modify f s = (ok tt, f s)

-- `if not test: raise error`
abbrev pub ensure : {S : Type 0} → Bool → Error → Method S Unit
ensure true e = pure tt
ensure false e = raise e

pub ensure_same : {S : Type 0} (b : Bool) (e : Error) (s : S) → (ensure b e s).1 ≡ s
ensure_same true e s = refl
ensure_same false e s = refl

pub ensure_passed :
    {S : Type 0} (b : Bool) (e : Error) (s : S) {u : Unit} → (ensure b e s).0 ≡ ok u → b ≡ true
ensure_passed true e s h = refl
ensure_passed false e s h = absurd (cc)

-- _transaction of the stores: commit, or roll back on an exception.
abbrev settle {ℓ} : {S A : Type ℓ} → S → Result A × S → Result A × S
settle before (ok a, db) = (ok a, db)
settle before (err e, db) = (err e, before)

abbrev pub transaction : {S A : Type 0} → Method S A → Method S A
transaction m db = settle db (m db)

-- A read of a row that has to be there.
abbrev pub or_raise : {S A : Type 0} → Error → Option A → Method S A
or_raise e none = raise e
or_raise e (some a) = pure a

-- What holds of the state before a transaction and after its body holds after the transaction.
pub transaction-keeps :
    {S A : Type 0} (P : S → Type 0) (m : Method S A) (s : S)
    → P s
    → P (m s).1
    → P (transaction m s).1
transaction-keeps {A} P m s h k = go (m s).0 refl
  where
    go : (r : Result A) → (m s).0 ≡ r → P (transaction m s).1
    go (ok a) e = rw e k
    go (err x) e = rw e h

-- A first step after which P holds: what is to hold at the end follows from P if it raises, and from
-- P by the second step if it goes on.
pub bind-then :
    {S A B : Type 0} (P Q : S → Type 0) (m : Method S A) (f : A → Method S B) (s : S)
    → P (m s).1
    → ((t : S) → P t → Q t)
    → ((a : A) (t : S) → P t → Q (f a t).1)
    → Q ((m >>= f) s).1
bind-then {A} P Q m f s h same k = go (m s).0 refl
  where
    go : (r : Result A) → (m s).0 ≡ r → Q ((m >>= f) s).1
    go (ok a) e = rw e (k a (m s).1 h)
    go (err x) e = rw e (same (m s).1 h)

module _ {S A : Type 0} where
  pub or_raise_same : (e : Error) (o : Option A) (s : S) → (or_raise e o s).1 ≡ s
  or_raise_same e none s = refl
  or_raise_same e (some a) s = refl

  pub or_raise_passed :
      (e : Error) (o : Option A) (s : S) {a : A} → (or_raise e o s).0 ≡ ok a → o ≡ some a
  or_raise_passed e none s h = absurd (cc)
  or_raise_passed e (some a) s h = ap value h
    where
      value : Result A → Option A
      value (ok x) = some x
      value (err x) = none

-- What holds of the state and the value after a call that does not raise.
abbrev pub OnOk : {S A : Type 0} → (A → S → Type 0) → Result A × S → Type 0
OnOk {A} Q r = (a : A) → r.0 ≡ ok a → Q a r.1

pub ok-injective : {A : Type 0} {a b : A} → ok a ≡ ok b → a ≡ b
ok-injective {A} {a} h = ap value h
  where
    value : Result A → A
    value (ok x) = x
    value (err x) = a

pub OnOk-bind :
    {S A B : Type 0} (Q : B → S → Type 0) (m : Method S A) (f : A → Method S B) (s : S)
    → ((a : A) → (m s).0 ≡ ok a → OnOk Q (f a (m s).1))
    → OnOk Q ((m >>= f) s)
OnOk-bind {A} Q m f s k = go (m s).0 refl
  where
    go : (r : Result A) → (m s).0 ≡ r → OnOk Q (resume r f (m s).1)
    go (ok a) e = k a e
    go (err x) e = λ b h. absurd (cc)

-- A first step that leaves the state alone
pub OnOk-check :
    {S A B : Type 0} (Q : B → S → Type 0) (m : Method S A) (f : A → Method S B) (s : S)
    → (m s).1 ≡ s
    → ((a : A) → (m s).0 ≡ ok a → OnOk Q (f a s))
    → OnOk Q ((m >>= f) s)
OnOk-check Q m f s same k =
    OnOk-bind Q m f s (λ a e. subst (λ t. OnOk Q (f a t)) (sym same) (k a e))

pub OnOk-transaction :
    {S A : Type 0} (Q : A → S → Type 0) (m : Method S A) (s : S)
    → OnOk Q (m s)
    → OnOk Q (transaction m s)
OnOk-transaction {A} Q m s k = go (m s).0 refl
  where
    go : (r : Result A) → (m s).0 ≡ r → OnOk Q (settle s (m s))
    go (ok a) e = rw e (λ b h. k b (e ∙ h))
    go (err x) e = rw e (λ b h. absurd (cc))

pub is_ok-transaction :
    {S A : Type 0} (m : Method S A) (s : S) → is_ok (transaction m s).0 ≡ is_ok (m s).0
is_ok-transaction {A} m s = go (m s).0 refl
  where
    go : (r : Result A) → (m s).0 ≡ r → is_ok (transaction m s).0 ≡ is_ok (m s).0
    go (ok a) e = rw e refl
    go (err x) e = rw e refl
