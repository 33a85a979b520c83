-- ===== src/Exec/Rules.antt =====
-- How outcomes of composed methods come about: one rule for each way to compose them.
use pvpool.Prelude.{◌≡◌, refl, sym, ap, Option, none, some}
use pvpool.Exec.{
  Outcome, ok, err, panic, timeout, Exec, Returns, continue, handle, catch, deref, ◌>>=◌,
}

-- What a run's outcome and state are, from the run's equation, and the run's equation from that of
-- its outcome.
pub outcome-run :
    {E S A : Type 0} {d : Outcome E A × S} {r : Outcome E A} {s : S} → d ≡ (r, s) → d.0 ≡ r
outcome-run e = ap (λ q. q.0) e

pub state-run :
    {E S A : Type 0} {d : Outcome E A × S} {r : Outcome E A} {s : S} → d ≡ (r, s) → s ≡ d.1
state-run e = ap (λ q. q.1) (sym e)

pub part-run :
    {E W T A : Type 0} {d : Outcome E A × (W × T)} {r : Outcome E A} {s : W × T}
    → d ≡ (r, s)
    → s.1 ≡ d.1.1
part-run e = ap (λ q. q.1.1) (sym e)

pub with_outcome : {E S A : Type 0} (d : Outcome E A × S) {r : Outcome E A} → d.0 ≡ r → d ≡ (r, d.1)
with_outcome d e = ap (λ r. (r, d.1)) e

-- Inversion of a successful bind, for proofs where the parts stay shut.
pub >>=-eq-ok :
    {E S A B : Type 0} (m : Exec E S A) (f : A → Exec E S B) (s : S) {b : B} {t : S}
    → (m >>= f) s ≡ (ok b, t)
    → (a : A) × (s' : S) × (m s ≡ (ok a, s')) × (f a s' ≡ (ok b, t))
>>=-eq-ok {E} {S} {A} {B} m f s {b} {t} h = go (m s) refl h
  where
    go :
        (r : Outcome E A × S)
        → m s ≡ r
        → continue r.0 f r.1 ≡ (ok b, t)
        → (a : A) × (s' : S) × (m s ≡ (ok a, s')) × (f a s' ≡ (ok b, t))
    go (ok a, s') e k = (a, s', e, k)
    go (err x, s') e k = absurd (cc)
    go (panic, s') e k = absurd (cc)
    go (timeout, s') e k = absurd (cc)

-- A property of a bind's result, from the outcomes of its first part.
pub bind_cases {ℓ} :
    {E S A B : Type 0} (P : Outcome E B × S → Type ℓ) (m : Exec E S A) (f : A → Exec E S B) (s : S)
    → ((a : A) (s' : S) → m s ≡ (ok a, s') → P (f a s'))
    → ((e : E) (s' : S) → m s ≡ (err e, s') → P (err e, s'))
    → ((s' : S) → m s ≡ (panic, s') → P (panic, s'))
    → ((s' : S) → m s ≡ (timeout, s') → P (timeout, s'))
    → P ((m >>= f) s)
bind_cases {E = E} {S = S} {A = A} P m f s hok herr hpanic htime = go (m s) refl
  where
    go : (r : Outcome E A × S) → m s ≡ r → P (continue r.0 f r.1)
    go (ok a, s') e = hok a s' e
    go (err x, s') e = herr x s' e
    go (panic, s') e = hpanic s' e
    go (timeout, s') e = htime s' e

-- A composed method returns if its parts do.
pub Returns-bind :
    {E S A B : Type 0} (m : Exec E S A) (f : A → Exec E S B) (s : S)
    → Returns (m s).0
    → ((a : A) (s' : S) → m s ≡ (ok a, s') → Returns (f a s').0)
    → Returns ((m >>= f) s).0
Returns-bind {E} {S} {A} m f s first rest =
    bind_cases (λ q. Returns q.0) m f s rest (λ _ _ _. tt) (λ s' e. rw (outcome e) at first)
      (λ s' e. rw (outcome e) at first)
  where
    outcome : {r : Outcome E A} {s' : S} → m s ≡ (r, s') → (m s).0 ≡ r
    outcome e = ap (λ (q : Outcome E A × S). q.0) e

-- A property of the state is kept by a composed method if its parts keep it, whatever the outcome.
pub Keeps-continue {ℓ} :
    {E S A B : Type 0} (P : S → Type ℓ) (r : Outcome E A) (f : A → Exec E S B) (s : S)
    → P s
    → ((a : A) → P (f a s).1)
    → P (continue r f s).1
Keeps-continue P (ok a) f s h rest = rest a
Keeps-continue P (err e) f s h rest = h
Keeps-continue P panic f s h rest = h
Keeps-continue P timeout f s h rest = h

pub Keeps-bind {ℓ} :
    {E S A B : Type 0} (P : S → Type ℓ) (m : Exec E S A) (f : A → Exec E S B) (s : S)
    → P (m s).1
    → ((a : A) (t : S) → P t → P (f a t).1)
    → P ((m >>= f) s).1
Keeps-bind P m f s first rest = Keeps-continue P (m s).0 f (m s).1 first (λ a. rest a (m s).1 first)

pub Keeps-catch {ℓ} :
    {E S A : Type 0} (P : S → Type ℓ) (m : Exec E S A) (f : E → Exec E S A) (s : S)
    → P (m s).1
    → ((e : E) (t : S) → P t → P (f e t).1)
    → P (catch m f s).1
Keeps-catch {E} {S} {A} P m f s first rest = go (m s).0
  where
    go : (r : Outcome E A) → P (handle r f (m s).1).1
    go (ok a) = first
    go (err e) = rest e (m s).1 first
    go panic = first
    go timeout = first

pub deref-eq-ok :
    {E S A : Type 0} (o : Option A) (s : S) {a : A} {t : S}
    → deref {E = E} o s ≡ (ok a, t)
    → o ≡ some a
deref-eq-ok none s h = absurd (cc)
deref-eq-ok (some b) s h = cc

pub Returns-continue :
    {E S A B : Type 0} (r : Outcome E A) (f : A → Exec E S B) (s : S)
    → Returns r
    → ((a : A) → r ≡ ok a → Returns (f a s).0)
    → Returns (continue r f s).0
Returns-continue (ok a) f s h rest = rest a refl
Returns-continue (err e) f s h rest = tt
Returns-continue panic f s h rest = absurd h
Returns-continue timeout f s h rest = absurd h

-- What holds of a run's result and state if it succeeds, and what of the state if it does not.
abbrev pub Gives {ℓ} : {E S A : Type 0} → (A → S → Type ℓ) → (S → Type ℓ) → Outcome E A × S → Type ℓ
Gives Q P (ok a, s) = Q a s
Gives Q P (err e, s) = P s
Gives Q P (panic, s) = P s
Gives Q P (timeout, s) = P s

pub Gives-bind {ℓ} :
    {E S A B : Type 0} (Q : A → S → Type ℓ) (R : B → S → Type ℓ) (P : S → Type ℓ) (m : Exec E S A)
    (f : A → Exec E S B) (s : S)
    → Gives Q P (m s)
    → ((a : A) (t : S) → Q a t → Gives R P (f a t))
    → Gives R P ((m >>= f) s)
Gives-bind {E} {S} {A} {B} Q R P m f s first rest = go (m s) first
  where
    go : (d : Outcome E A × S) → Gives Q P d → Gives R P (continue d.0 f d.1)
    go (ok a, t) h = rest a t h
    go (err e, t) h = h
    go (panic, t) h = h
    go (timeout, t) h = h

-- What holds of the state whatever the outcome holds in both cases.
pub Gives-always {ℓ} :
    {E S A : Type 0} (P : S → Type ℓ) (d : Outcome E A × S) → P d.1 → Gives (λ _. P) P d
Gives-always P (ok a, s) h = h
Gives-always P (err e, s) h = h
Gives-always P (panic, s) h = h
Gives-always P (timeout, s) h = h

-- A property of the state is kept by a composed method if what the first part gives lets the rest
-- keep it.
pub Keeps-bind_value {ℓ} :
    {E S A B : Type 0} (Q : A → S → Type ℓ) (P : S → Type ℓ) (m : Exec E S A) (f : A → Exec E S B)
    (s : S)
    → Gives Q P (m s)
    → ((a : A) (t : S) → Q a t → P (f a t).1)
    → P ((m >>= f) s).1
Keeps-bind_value {E} {S} {A} Q P m f s first rest = go (m s) first
  where
    go : (d : Outcome E A × S) → Gives Q P d → P (continue d.0 f d.1).1
    go (ok a, t) h = rest a t h
    go (err e, t) h = h
    go (panic, t) h = h
    go (timeout, t) h = h

pub Gives-imp {ℓ} :
    {E S A : Type 0} (Q Q' : A → S → Type ℓ) (P P' : S → Type ℓ) (d : Outcome E A × S)
    → ((a : A) (s : S) → Q a s → Q' a s)
    → ((s : S) → P s → P' s)
    → Gives Q P d
    → Gives Q' P' d
Gives-imp Q Q' P P' (ok a, s) value state h = value a s h
Gives-imp Q Q' P P' (err e, s) value state h = state s h
Gives-imp Q Q' P P' (panic, s) value state h = state s h
Gives-imp Q Q' P P' (timeout, s) value state h = state s h

-- Two facts on the same run.
pub Gives-both {ℓ} :
    {E S A : Type 0} (Q R : A → S → Type ℓ) (P P' : S → Type ℓ) (d : Outcome E A × S)
    → Gives Q P d
    → Gives R P' d
    → Gives (λ a s. Q a s × R a s) P d
Gives-both Q R P P' (ok a, s) h g = (h, g)
Gives-both Q R P P' (err e, s) h g = h
Gives-both Q R P P' (panic, s) h g = h
Gives-both Q R P P' (timeout, s) h g = h

-- What holds of every state holds of the one that a run ends in.
pub Gives-all {ℓ} :
    {E S A : Type 0} (Q : A → S → Type ℓ) (P : S → Type ℓ) (d : Outcome E A × S)
    → ((a : A) (s : S) → Q a s)
    → ((s : S) → P s)
    → Gives Q P d
Gives-all Q P (ok a, s) h g = h a s
Gives-all Q P (err e, s) h g = g s
Gives-all Q P (panic, s) h g = g s
Gives-all Q P (timeout, s) h g = g s
