-- ===== src/Tests/Servers.antt =====
-- A webhook server with a table of handlers, and what it lets through.
use pvpool.Prelude.{
  ◌≡◌, refl, subst, String, Option, none, some, List, [], ◌∷◌, eq_refl, All, lookup,
}
use pvpool.Exec.{Outcome, ok, err, panic, timeout}
use pvpool.Api.Resources.{Checkout}
use pvpool.Webhook.Validators.{Rejection, checkout, checkout_update}
use pvpool.Webhook.Access.{
  Request, Response, Operation, create, update, delete, connect, allowed, errored, forbidden,
  denied, handle, review_of,
}
use pvpool.Webhook.Server.{Validator, Handler, Server, checkout_handler, add_checkout_validator}
use pvpool.Webhook.Serving.{Allows, ServerLaws, IsVetted, add_checkout_validator-IsVetted}
use pvpool.Validation.Rules.{validate_checkout_update}
use pvpool.Tests.Webhooks.{gate, schema, request, user}

abbrev answer : Option Rejection → Response String
answer none = allowed
answer (some r) = denied r

-- The object and the old object are checkouts as they are.
abbrev checkout_answer : Validator Checkout → Operation → Request Checkout → Response String
checkout_answer v create req = answer (v.validate_create req.object)
checkout_answer v update req = answer (v.validate_update req.object (checkout req.old_object))
checkout_answer v delete req = answer (v.validate_delete req.old_object)
checkout_answer v connect req = allowed

-- The next handler is called if the one before it allowed the request.
abbrev and_then : Outcome String (Response String) × Unit {0} → Handler gate → Handler gate
and_then (ok allowed, w) h req _ = h req w
and_then d h req _ = d

abbrev in_turn : List (Handler gate) → Handler gate
in_turn [] req w = (ok allowed, w)
in_turn (h ∷ hs) req w = and_then (h req w) (in_turn hs) req w

-- The manager is its table of handlers, the newest first.
abbrev pub server : Server gate
server = record {
  Manager = List (String × Handler gate);
  register = λ path h mgr. (ok tt, (path, h) ∷ mgr);
  add_healthz_check = λ _ _ mgr. (ok tt, mgr);
  add_readyz_check = λ _ _ mgr. (ok tt, mgr);
  pool_webhook_for = λ _ _ w. (ok allowed, w);
  checkout_webhook_for = λ v req w. (ok (checkout_answer v req.operation req), w);
  multi_validating_handler = in_turn;
}

abbrev serving : List (String × Handler gate) → String → Option (Handler gate)
serving mgr path = lookup path mgr

and_then-Allows :
    (h : Handler gate) (hs : List (Handler gate)) (req : Request Checkout)
    → (Allows gate (in_turn hs) req → All (λ f. Allows gate f req) hs)
    → (d : Outcome String (Response String) × Unit {0}) (v w : Unit {0}) → h req tt ≡ d
    → and_then d (in_turn hs) req v ≡ (ok allowed, w)
    → All (λ f. Allows gate f req) (h ∷ hs)
and_then-Allows h hs req rest (ok allowed, u) v w e r = (
  record { before = tt; after = u; is_allowed = e },
  rest (record { before = u; after = w; is_allowed = r }),
)
and_then-Allows h hs req rest (ok (errored c x), u) v w e r = absurd (cc)
and_then-Allows h hs req rest (ok (denied x), u) v w e r = absurd (cc)
and_then-Allows h hs req rest (ok (forbidden x n y), u) v w e r = absurd (cc)
and_then-Allows h hs req rest (err x, u) v w e r = absurd (cc)
and_then-Allows h hs req rest (panic, u) v w e r = absurd (cc)
and_then-Allows h hs req rest (timeout, u) v w e r = absurd (cc)

in_turn-Allows :
    (hs : List (Handler gate)) (req : Request Checkout)
    → Allows gate (in_turn hs) req
    → All (λ h. Allows gate h req) hs
in_turn-Allows [] req a = tt
in_turn-Allows (h ∷ hs) req a =
    and_then-Allows h hs req (in_turn-Allows hs req) (h req tt) a.before a.after refl a.is_allowed

answer-eq-allowed : (o : Option Rejection) → answer o ≡ allowed → o ≡ none
answer-eq-allowed none h = refl
answer-eq-allowed (some r) h = absurd (cc)

ok-eq :
    {A B : Type 0} {a a' : A} {b b' : B}
    → ◌≡◌ {A = Outcome String A × B} (ok a, b) (ok a', b')
    → a ≡ a'
ok-eq e = cc

server-ServerLaws : ServerLaws gate server serving
server-ServerLaws = record {
  serving-register = λ path h mgr mgr' e.
      subst
        (λ (d : Outcome String (Unit {0}) × List (String × Handler gate)).
          serving d.1 path ≡ some h)
        e (rw (eq_refl path) refl);
  serving-add_healthz_check = λ _ _ _ _. refl;
  serving-add_readyz_check = λ _ _ _ _. refl;
  multi_validating_handler-Allows = in_turn-Allows;
  checkout_webhook_for-Allows = λ v req a op. (
    req.object,
    req.old_object,
    refl,
    refl,
    answer-eq-allowed (v.validate_update req.object (checkout req.old_object))
        (ok-eq (rw op at a.is_allowed)),
  );
}

abbrev change : Request Checkout
change = record { operation = update; object = request; old_object = request; user = user }

add_checkout_validator-IsVetted_example : IsVetted schema gate server change
add_checkout_validator-IsVetted_example =
    add_checkout_validator-IsVetted schema gate server serving server-ServerLaws []
      (add_checkout_validator schema gate server []).1 (checkout_handler schema gate server) change
      (unfold add_checkout_validator in refl) (unfold add_checkout_validator in refl) refl
      (record {
        before = tt;
        after = tt;
        is_allowed = unfold checkout_update validate_checkout_update handle review_of in refl;
      })
