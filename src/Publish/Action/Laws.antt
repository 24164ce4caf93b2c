-- ===== src/Publish/Action/Laws.antt =====
-- Inversion of actions that return, and actions that run no command.
use tailscale_koolshare.Common.{ℕ, String, List, ◌≡◌, refl, ◌∙◌, ap, length, ◌≤◌, ◌+◌, arith}
use tailscale_koolshare.Common.Outcome.{Exception, Result, ok, raise}
use tailscale_koolshare.Publish.Action.{
  Event, World, Action, ◌>>=◌, pure, fail, lift, continue, commands, api, fetch, sleep,
}

module _ {A B : Type 0} where
  continue-eq-ok :
      (r : Result A) (f : A → Action B) (h : List Event) {b : B} {h' : List Event}
      → continue r f h ≡ (ok b, h')
      → (a : A) × (r ≡ ok a) × (f a h ≡ (ok b, h'))
  continue-eq-ok (ok a) f h e = (a, refl, e)
  continue-eq-ok (raise x) f h e = cc (ap (λ p. p.0) e)

  -- An action that returns has returned at its first step too.
  pub bind-eq-ok :
      (m : Action A) (f : A → Action B) (h : List Event) {b : B} {h' : List Event}
      → (m >>= f) h ≡ (ok b, h')
      → (a : A) × (m h ≡ (ok a, (m h).1)) × (f a (m h).1 ≡ (ok b, h'))
  bind-eq-ok m f h e =
      let (a, returned, rest) = continue-eq-ok (m h).0 f (m h).1 e in
      (a, ap (λ r. (r, (m h).1)) returned, rest)

-- A raised error is no result.
pub raised {ℓ} :
    {A : Type 0} {P : Type ℓ} {x : Exception} {a : A} {h h' : List Event}
    → ◌≡◌ {A = Result A × List Event} (raise x, h) (ok a, h')
    → P
raised e = cc (ap (λ p. p.0) e)

-- An action that runs no `gh` command, whether it returns or raises.
pub record Silent {A : Type 0} (m : Action A) : Type 0 where
  pub at : (h : List Event) → commands (m h).1 ≡ commands h

module _ {A : Type 0} where
  pub Silent-lift : (r : Result A) → Silent (lift r)
  Silent-lift r = record { at = λ h. refl }

  pub Silent-pure : (a : A) → Silent (pure a)
  Silent-pure a = record { at = λ h. refl }

  pub Silent-fail : (e : Exception) → Silent (fail {A = A} e)
  Silent-fail e = record { at = λ h. refl }

module _ {A B : Type 0} where
  continue-commands :
      (r : Result A) (f : A → Action B) (h : List Event)
      → ((a : A) → Silent (f a))
      → commands (continue r f h).1 ≡ commands h
  continue-commands (ok a) f h quiet = (quiet a).at h
  continue-commands (raise e) f h quiet = refl

  pub Silent-bind :
      (m : Action A) (f : A → Action B) → Silent m → ((a : A) → Silent (f a)) → Silent (m >>= f)
  Silent-bind m f s quiet = record { at = λ h. continue-commands (m h).0 f (m h).1 quiet ∙ s.at h }

-- An action that adds at most `n` events.
pub record Within {A : Type 0} (n : ℕ) (m : Action A) : Type 0 where
  pub at : (h : List Event) → length (m h).1 ≤ length h + n

module _ {A : Type 0} where
  pub Within-lift : (r : Result A) → Within 0 (lift r)
  Within-lift r = record { at = λ h. omega arith }

module _ {A B : Type 0} where
  continue-length :
      (n : ℕ) (r : Result A) (f : A → Action B) (h : List Event)
      → ((a : A) → Within n (f a))
      → length (continue r f h).1 ≤ length h + n
  continue-length n (ok a) f h b = (b a).at h
  continue-length n (raise e) f h b = omega arith

  pub Within-bind :
      (k n : ℕ) (m : Action A) (f : A → Action B)
      → Within k m
      → ((a : A) → Within n (f a))
      → Within (k + n) (m >>= f)
  Within-bind k n m f s b = record {
    at = λ h. omega (arith, continue-length n (m h).0 f (m h).1 b, s.at h);
  }

module _ (w : World) where
  pub Silent-api : (url : String) → Silent (api w url)
  unfolding api commands
  Silent-api url = record { at = λ h. refl }

  pub Silent-fetch : (url : String) → Silent (fetch w url)
  unfolding fetch commands
  Silent-fetch url = record { at = λ h. refl }

  pub Silent-sleep : (n : ℕ) → Silent (sleep w n)
  unfolding sleep commands
  Silent-sleep n = record { at = λ h. refl }

pub ruleset silent_rules =
    (Silent-pure, Silent-lift, Silent-fail, Silent-api, Silent-fetch, Silent-sleep, Silent-bind)
