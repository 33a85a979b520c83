-- ===== src/Reconcile/Reply.antt =====
-- What a Reconcile returns, and how its deferred status update bears on it.
use pvpool.Prelude.{Bool, Option, none, some}
use pvpool.Exec.{Outcome, ok, err, panic, timeout}

-- reconcile.Result and error.
pub record Reply (E : Type 0) : Type 0 where
  pub requeue : Bool
  pub error : Option E

-- `return reconcile.Result{Requeue: requeue}, err`
abbrev pub answer : {E : Type 0} → Bool → Option E → Outcome E (Reply E)
answer requeue e = ok (record { requeue = requeue; error = e })

-- `r, err = …, m()`: the error of a call is the reply's.
abbrev pub reply_of : {E A : Type 0} → Bool → Outcome E A → Outcome E (Reply E)
reply_of requeue (ok a) = answer requeue none
reply_of requeue (err e) = answer requeue (some e)
reply_of requeue panic = panic
reply_of requeue timeout = timeout

-- The error that the first call left, or else the status update's.
abbrev pub first_error : {E : Type 0} → Option E → Outcome E (Unit {0}) → Option E
first_error (some e) res = some e
first_error none (err e) = some e
first_error none _ = none

-- The deferred status update: its error counts if there was none before. A panic goes on once it
-- has run.
abbrev pub after_status :
    {E : Type 0} → Outcome E (Reply E) → Outcome E (Unit {0}) → Outcome E (Reply E)
after_status (ok r) panic = panic
after_status (ok r) timeout = timeout
after_status (ok r) res = ok (record r { error = first_error r.error res })
after_status res _ = res
