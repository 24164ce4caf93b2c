-- ===== src/Publish/Remote/Readback.antt =====
-- What a successful reading of the published archives means, and how often it is tried.
use mathlib.Core.List.{flatten}
use tailscale_koolshare.Common.{
  ℕ, zero, suc, ◌+◌, ◌*◌, ◌≤◌, String, Bool, false, not, ◌||◌, List, ◌∷◌, ◌≡◌, refl, ap, ◌∙◌, arith,
  Bool-cases, inl, inr, eqb, length,
}
use tailscale_koolshare.Common.Outcome.{http_error, Result, ok, raise}
use tailscale_koolshare.Python.Json.{Json, text_item}
use tailscale_koolshare.Publish.Action.{
  Bytes, Event, slept, World, Action, lift, fetch, sleep, commands,
}
use tailscale_koolshare.Publish.Action.Laws.{
  bind-eq-ok, raised, Within, Within-lift, Within-bind, Silent, silent_rules, Silent-bind,
}
use tailscale_koolshare.Publish.Descriptor.{Descriptors, check_body}
use tailscale_koolshare.Publish.Descriptor.Body.{IsSigned, check_body-IsSigned}
use tailscale_koolshare.Publish.Remote.{
  is_transient, read_asset, after_attempt, readback_asset, readback_assets,
}

first-false : (a b : Bool) → (a || b) ≡ false → a ≡ false
first-false a b h = ground arith

module _ (w : World) where
  -- GitHub served the archive at its signed URL, with the signed size and digest.
  pub record WasRead (desc : Json) : Type 0 where
    pub url : String
    pub has_url : text_item "url" desc ≡ ok url
    pub before : List Event
    pub chunks : List Bytes
    pub served : w.fetch before url ≡ ok chunks
    pub signed : IsSigned w desc (flatten chunks)

  read_asset-WasRead :
      (desc : Json) (h : List Event) {h' : List Event}
      → read_asset w desc h ≡ (ok tt, h')
      → WasRead desc
  unfolding read_asset fetch
  read_asset-WasRead desc h e =
      let (url, has_url, rest) = bind-eq-ok (lift (text_item "url" desc)) _ h e in
      let (chunks, served, checked) = bind-eq-ok (fetch w url) _ _ rest in
      record {
        url = url;
        has_url = ap (λ p. p.0) has_url;
        before = h;
        chunks = chunks;
        served = ap (λ p. p.0) served;
        signed = check_body-IsSigned w desc chunks (ap (λ p. p.0) checked);
      }

  after_attempt-WasRead :
      (left : ℕ) (again : Action (Unit {0})) (desc : Json) (r : Result (Unit {0})) (h : List Event)
      {h' : List Event}
      → (r ≡ ok tt → WasRead desc)
      → (eqb left 0 ≡ false
          → (k : List Event) (k' : List Event) → again k ≡ (ok tt, k')
          → WasRead desc)
      → after_attempt w left again r h ≡ (ok tt, h')
      → WasRead desc
  unfolding after_attempt sleep
  after_attempt-WasRead left again desc (ok a) h now later e = now refl
  after_attempt-WasRead left again desc (raise (http_error code)) h now later e =
      elim (Bool-cases (eqb left 0 || not (is_transient code))) [
        | inl last ↦ raised (rw last at e)
        | inr more ↦ later (first-false _ _ more) (slept 2 ∷ h) _ (rw more at e)
      ]
  after_attempt-WasRead left again desc (raise x) h now later e = raised e

  readback_asset-WasRead :
      (n : ℕ) (desc : Json) (h : List Event) {h' : List Event}
      → readback_asset w (suc n) desc h ≡ (ok tt, h')
      → WasRead desc
  unfolding readback_asset
  readback_asset-WasRead zero desc h e =
      after_attempt-WasRead 0 (readback_asset w 0 desc) desc (read_asset w desc h).0
        (read_asset w desc h).1
        (λ r. read_asset-WasRead desc h (ap (λ x. (x, (read_asset w desc h).1)) r)) (λ z. cc) e
  readback_asset-WasRead (suc n) desc h e =
      after_attempt-WasRead (suc n) (readback_asset w (suc n) desc) desc (read_asset w desc h).0
        (read_asset w desc h).1
        (λ r. read_asset-WasRead desc h (ap (λ x. (x, (read_asset w desc h).1)) r))
        (λ _ k k' e'. readback_asset-WasRead n desc k e') e

  -- When readback_assets returns, GitHub has served for each architecture, at the signed URL, a
  -- body with the signed size and digest.
  pub readback_assets-WasRead :
      (ds : Descriptors) (h : List Event) {h' : List Event}
      → readback_assets w ds h ≡ (ok tt, h')
      → WasRead ds.arm × WasRead ds.arm64
  unfolding readback_assets
  readback_assets-WasRead ds h e =
      let (a, first, rest) = bind-eq-ok (readback_asset w 3 ds.arm) _ h e in
      (readback_asset-WasRead 2 ds.arm h first, readback_asset-WasRead 2 ds.arm64 _ rest)

  read_asset-Within : (desc : Json) → Within 1 (read_asset w desc)
  unfolding read_asset fetch
  read_asset-Within desc =
      Within-bind 0 1 (lift (text_item "url" desc)) _ (Within-lift (text_item "url" desc)) λ url.
        Within-bind 1 0 (fetch w url) _ (record { at = λ h. omega arith })
          λ chunks. Within-lift (check_body w desc chunks)

  after_attempt-length :
      (left n : ℕ) (again : Action (Unit {0})) (r : Result (Unit {0})) (h : List Event)
      → Within n again
      → length (after_attempt w left again r h).1 ≤ length h + 1 + n
  unfolding after_attempt sleep
  after_attempt-length left n again (ok a) h b = omega arith
  after_attempt-length left n again (raise (http_error code)) h b =
      elim (Bool-cases (eqb left 0 || not (is_transient code))) [
        | inl last ↦ rw last (omega arith)
        | inr more ↦ rw more (omega (arith, b.at (slept 2 ∷ h)))
      ]
  after_attempt-length left n again (raise x) h b = omega arith

  last_attempt-length :
      (again : Action (Unit {0})) (r : Result (Unit {0})) (h : List Event)
      → length (after_attempt w 0 again r h).1 ≤ length h
  unfolding after_attempt
  last_attempt-length again (ok a) h = omega arith
  last_attempt-length again (raise (http_error code)) h = omega arith
  last_attempt-length again (raise x) h = omega arith

  -- The request of each attempt, and a pause between two of them.
  readback_asset-Within : (n : ℕ) (desc : Json) → Within (2 * n + 1) (readback_asset w (suc n) desc)
  unfolding readback_asset
  readback_asset-Within zero desc = record {
    at = λ h. omega (
      arith,
      last_attempt-length (readback_asset w 0 desc) (read_asset w desc h).0 (read_asset w desc h).1,
      (read_asset-Within desc).at h,
    );
  }
  readback_asset-Within (suc n) desc = record {
    at = λ h. omega (
      arith,
      after_attempt-length (suc n) (2 * n + 1) (readback_asset w (suc n) desc)
          (read_asset w desc h).0 (read_asset w desc h).1 (readback_asset-Within n desc),
      (read_asset-Within desc).at h,
    );
  }

  -- Readback_assets ends after at most ten requests and pauses, whatever GitHub answers.
  pub readback_assets-Within : (ds : Descriptors) → Within 10 (readback_assets w ds)
  unfolding readback_assets
  readback_assets-Within ds =
      Within-bind 5 5 (readback_asset w 3 ds.arm) _ (readback_asset-Within 2 ds.arm)
        λ _. readback_asset-Within 2 ds.arm64

  pub Silent-read_asset : (desc : Json) → Silent (read_asset w desc)
  unfolding read_asset
  Silent-read_asset desc = search silent_rules

  after_attempt-commands :
      (left : ℕ) (again : Action (Unit {0})) (r : Result (Unit {0})) (h : List Event)
      → Silent again
      → commands (after_attempt w left again r h).1 ≡ commands h
  unfolding after_attempt sleep commands
  after_attempt-commands left again (ok a) h s = refl
  after_attempt-commands left again (raise (http_error code)) h s =
      elim (Bool-cases (eqb left 0 || not (is_transient code))) [
        | inl last ↦ rw last refl
        | inr more ↦ rw more (s.at (slept 2 ∷ h))
      ]
  after_attempt-commands left again (raise x) h s = refl

  Silent-readback_asset : (n : ℕ) (desc : Json) → Silent (readback_asset w n desc)
  unfolding readback_asset
  Silent-readback_asset zero desc = record { at = λ h. refl }
  Silent-readback_asset (suc n) desc = record {
    at = λ h.
        after_attempt-commands n (readback_asset w n desc) (read_asset w desc h).0
          (read_asset w desc h).1 (Silent-readback_asset n desc)
        ∙ (Silent-read_asset desc).at h;
  }

  pub Silent-readback_assets : (ds : Descriptors) → Silent (readback_assets w ds)
  unfolding readback_assets
  Silent-readback_assets ds =
      Silent-bind (readback_asset w 3 ds.arm) _ (Silent-readback_asset 3 ds.arm)
        λ _. Silent-readback_asset 3 ds.arm64
