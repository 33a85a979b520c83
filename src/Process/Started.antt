-- ===== src/Process/Started.antt =====
-- What a run of a manager (pkg/runtime/main.go) has done when it ends without an error.
use pvpool.Prelude.{ℕ, suc, ◌≡◌, refl, subst, ap, ◌∙◌, List, [], ◌∷◌}
use pvpool.Exec.{Outcome, ok, err, panic, timeout, Exec, raise, handle, catch, ◌>>◌}
use pvpool.Exec.Rules.{>>=-eq-ok}
use pvpool.Process.Config.{Config}
use pvpool.Process.Runtime.{
  Options, Host, Transform, set_up_logs, scheme_or_new, complete_options, apply_transforms,
  run_manager, serve,
}

-- A handler that raises again lets no error through.
catch-raise-eq-ok :
    {E S A : Type 0} (m : Exec E S A) (f : E → E) (s : S) {a : A} {t : S}
    → catch m (λ e. raise (f e)) s ≡ (ok a, t)
    → m s ≡ (ok a, t)
catch-raise-eq-ok {E} {S} {A} m f s {a} {t} h = go (m s) refl h
  where
    go :
        (d : Outcome E A × S)
        → m s ≡ d
        → handle d.0 (λ e. raise (f e)) d.1 ≡ (ok a, t)
        → m s ≡ (ok a, t)
    go (ok b, u) e k = e ∙ k
    go (err x, u) e k = absurd (cc)
    go (panic, u) e k = absurd (cc)
    go (timeout, u) e k = absurd (cc)

module _ {World Error Manager : Type 0} (h : Host World Error Manager) where
  -- Transforms that succeeded, one after the other.
  pub data Applied : List (Transform h) → World × Manager → World × Manager → Type 0 where
    done : {s : World × Manager} → Applied [] s s
    then_applied :
        (t : Transform h) (ts : List (Transform h)) {s s1 s2 : World × Manager}
        → t s ≡ (ok tt, s1)
        → Applied ts s1 s2
        → Applied (t ∷ ts) s s2

  -- How the manager was made, changed and started.
  pub record IsStarted (cfg : Config) (opts : Options h.Scheme) (ts : List (Transform h))
      (w w' : World) : Type 0 where
    pub scheme : h.Scheme
    pub v : World
    pub before : World × Manager
    pub after : World × Manager
    pub ended : Manager
    pub is_made : h.new_manager (complete_options h cfg scheme opts) v ≡ (ok before.1, before.0)
    pub is_applied : Applied ts before after
    pub is_started : h.start_manager cfg.name after ≡ (ok tt, (w', ended))

  apply_transforms-Applied :
      (i : ℕ) (ts : List (Transform h)) (s s' : World × Manager)
      → apply_transforms h i ts s ≡ (ok tt, s')
      → Applied ts s s'
  unfolding apply_transforms
  apply_transforms-Applied i [] s s' e =
      subst (Applied [] s) (ap (λ (d : Outcome Error (Unit {0}) × (World × Manager)). d.1) e) done
  apply_transforms-Applied i (t ∷ ts) s s' e =
      let (_, s1, e1, e2) = >>=-eq-ok (catch t (λ x. raise (h.wrap_at _ i x))) _ s e in
      then_applied t ts (catch-raise-eq-ok t (h.wrap_at _ i) s e1)
        (apply_transforms-Applied (suc i) ts s1 s' e2)

  run_manager-eq-ok :
      (cfg : Config) (ts : List (Transform h)) (m : Manager) (w w' : World)
      → run_manager h cfg ts m w ≡ (ok tt, w')
      → (after : World × Manager) × (ended : Manager) × Applied ts (w, m) after
        × (h.start_manager cfg.name after ≡ (ok tt, (w', ended)))
  run_manager-eq-ok cfg ts m w w' e =
      let ended = ((apply_transforms h 0 ts >> h.start_manager cfg.name) (w, m)).1.1 in
      let (_, after, e1, e2) =
        >>=-eq-ok (apply_transforms h 0 ts) (λ _. h.start_manager cfg.name) (w, m)
          (ap (λ (d : Outcome Error (Unit {0}) × World). (d.0, (d.1, ended))) e) in
      (after, ended, apply_transforms-Applied 0 ts (w, m) after e1, e2)

  -- A run that ends without an error has made a manager with the completed options, applied every
  -- transform to it in order, each one with success, and only then started it.
  pub serve-IsStarted :
      (cfg : Config) (opts : Options h.Scheme) (ts : List (Transform h)) (w w' : World)
      → serve h cfg opts ts w ≡ (ok tt, w')
      → IsStarted cfg opts ts w w'
  unfolding serve
  serve-IsStarted cfg opts ts w w' e =
      let (scheme, w1, _, e1) = >>=-eq-ok (scheme_or_new h opts.scheme) _ (set_up_logs h cfg w) e in
      let (m, w2, e2, e3) =
        >>=-eq-ok
          (catch (h.new_manager (complete_options h cfg scheme opts))
            (λ x. raise (h.wrap "failed to create manager: %w" x)))
          _ w1 e1 in
      let (after, ended, applied, started) = run_manager-eq-ok cfg ts m w2 w' e3 in
      record {
        scheme = scheme;
        v = w1;
        before = (w2, m);
        after = after;
        ended = ended;
        is_made =
            catch-raise-eq-ok (h.new_manager (complete_options h cfg scheme opts))
              (h.wrap "failed to create manager: %w") w1 e2;
        is_applied = applied;
        is_started = started;
      }
