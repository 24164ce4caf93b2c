-- ===== src/Publish/Action/Avoids.antt =====
-- Actions that do not run a given command.
use tailscale_koolshare.Common.{String, List, ◌≢◌, inl, inr, In, subst}
use tailscale_koolshare.Common.Outcome.{Exception, Result, ok, raise}
use tailscale_koolshare.Publish.Action.{
  Event, World, Action, ◌>>=◌, pure, fail, lift, continue, commands, write_text, gh, downloaded,
}
use tailscale_koolshare.Publish.Action.Laws.{Silent}

-- A run of the action adds no run of the command.
pub record Avoids {A : Type 0} (args : List String) (m : Action A) : Type 0 where
  pub at : (h : List Event) → In args (commands (m h).1) → In args (commands h)

module _ (args : List String) where
  module _ {A : Type 0} where
    pub Avoids-Silent : (m : Action A) → Silent m → Avoids args m
    Avoids-Silent m s = record { at = λ h i. subst (In args) (s.at h) i }

    pub Avoids-lift : (r : Result A) → Avoids args (lift r)
    Avoids-lift r = record { at = λ h i. i }

    pub Avoids-pure : (a : A) → Avoids args (pure a)
    Avoids-pure a = record { at = λ h i. i }

    pub Avoids-fail : (e : Exception) → Avoids args (fail {A = A} e)
    Avoids-fail e = record { at = λ h i. i }

  module _ {A B : Type 0} where
    continue-Avoids :
        (r : Result A) (f : A → Action B) (h : List Event)
        → ((a : A) → Avoids args (f a))
        → In args (commands (continue r f h).1)
        → In args (commands h)
    continue-Avoids (ok a) f h k i = (k a).at h i
    continue-Avoids (raise e) f h k i = i

    pub Avoids-bind :
        (m : Action A) (f : A → Action B)
        → Avoids args m
        → ((a : A) → Avoids args (f a))
        → Avoids args (m >>= f)
    Avoids-bind m f s k = record { at = λ h i. s.at h (continue-Avoids (m h).0 f (m h).1 k i) }

  pub Avoids-write_text : (name text : String) → Avoids args (write_text name text)
  unfolding write_text commands
  Avoids-write_text name text = record { at = λ h i. i }

  module _ (w : World) where
    pub Avoids-gh : (other : List String) → args ≢ other → Avoids args (gh w other)
    unfolding gh commands
    Avoids-gh other differ = record {
      at = λ h i. elim i [ inl same ↦ absurd (differ same) | inr later ↦ later ];
    }

    pub Avoids-downloaded : (name : String) → Avoids args (downloaded w name)
    unfolding downloaded
    Avoids-downloaded name = record { at = λ h i. i }
