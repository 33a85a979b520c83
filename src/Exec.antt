-- ===== src/Exec.antt =====
-- Methods that change what their pointers reach and return `(A, error)`. What was written before
-- an error stays written, so the state comes back with every outcome. A nil dereference or an
-- index out of range is `panic`; `timeout` is a loop cut off by the model's fuel.
pub mod Rules
use pvpool.Prelude.{ℕ, Option, none, some}

pub data Outcome (E A : Type 0) : Type 0 where
  ok : A → Outcome E A
  err : E → Outcome E A
  panic : Outcome E A
  timeout : Outcome E A

-- A call that gives a value or an error.
abbrev pub Returns : {E A : Type 0} → Outcome E A → Type 0
Returns (ok a) = Unit {0}
Returns (err e) = Unit {0}
Returns panic = ⊥
Returns timeout = ⊥

abbrev pub Exec : Type 0 → Type 0 → Type 0 → Type 0
Exec E S A = S → Outcome E A × S

module _ {E S : Type 0} where
  abbrev pub pure : {A : Type 0} → A → Exec E S A
  pure a s = (ok a, s)

  abbrev pub raise : {A : Type 0} → E → Exec E S A
  raise e s = (err e, s)

  -- The model's fuel has run out.
  abbrev pub cut_off : {A : Type 0} → Exec E S A
  cut_off s = (timeout, s)

  abbrev pub gets : {A : Type 0} → (S → A) → Exec E S A
  gets f s = (ok (f s), s)

  abbrev pub modify : (S → S) → Exec E S (Unit {0})
  modify f s = (ok tt, f s)

  -- `*p`, for a pointer that may be nil, or an element that may be out of range.
  abbrev pub deref : {A : Type 0} → Option A → Exec E S A
  deref none s = (panic, s)
  deref (some a) s = (ok a, s)

  -- The rest of the body, run with the outcome so far.
  abbrev pub continue : {A B : Type 0} → Outcome E A → (A → Exec E S B) → Exec E S B
  continue (ok a) f s = f a s
  continue (err e) f s = (err e, s)
  continue panic f s = (panic, s)
  continue timeout f s = (timeout, s)

  infixl 10 ◌>>=◌ ◌>>◌
  -- `a, err := m(); if err != nil { return err }`, and the rest.
  abbrev pub ◌>>=◌ : {A B : Type 0} → Exec E S A → (A → Exec E S B) → Exec E S B
  ◌>>=◌ m f s = let (r, s') = m s in continue r f s'

  abbrev pub ◌>>◌ : {A B : Type 0} → Exec E S A → Exec E S B → Exec E S B
  ◌>>◌ m n s = let (r, s') = m s in continue r (λ _. n) s'

  abbrev pub handle : {A : Type 0} → Outcome E A → (E → Exec E S A) → Exec E S A
  handle (ok a) h s = (ok a, s)
  handle (err e) h s = h e s
  handle panic h s = (panic, s)
  handle timeout h s = (timeout, s)

  -- `if err := m(); err != nil { … }`: the handler sees the error and goes on from its state.
  abbrev pub catch : {A : Type 0} → Exec E S A → (E → Exec E S A) → Exec E S A
  catch m h s = let (r, s') = m s in handle r h s'

-- A method of a part of the state, such as `ps.Pool.Load` inside a method of `ps`.
abbrev pub on : {E W S T A : Type 0} → (S → T) → (T → S → S) → Exec E (W × T) A → Exec E (W × S) A
on get put m (w, s) = let (r, t) = m (w, get s) in (r, (t.0, put t.1 s))
