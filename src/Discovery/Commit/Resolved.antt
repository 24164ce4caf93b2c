-- ===== src/Discovery/Commit/Resolved.antt =====
-- The commit that `source_commit` returns, and how many requests it takes.
use tailscale_koolshare.Common.{
  ℕ, zero, suc, ◌+◌, String, Bool, true, false, List, ◌≡◌, ap, ◌∙◌, arith, Bool-cases, inl, inr,
}
use tailscale_koolshare.Common.Outcome.{ok}
use tailscale_koolshare.Python.Interpreter.{Interpreter}
use tailscale_koolshare.Python.Json.{Json, str, item, text_item, json_eq}
use tailscale_koolshare.Python.Json.Laws.{At, json_eq-str, text_item-eq-ok}
use tailscale_koolshare.Publish.Action.{Event, World, Action, lift, api}
use tailscale_koolshare.Publish.Action.Laws.{bind-eq-ok, raised, Within, Within-lift, Within-bind}
use tailscale_koolshare.CoreLock.Identity.{check_stable}
use tailscale_koolshare.CoreLock.Identity.Commit.{IsCommitOf, commit_of_sound}
use tailscale_koolshare.CoreLock.Identity.Stable.{IsStable, check_stable_sound}
use tailscale_koolshare.Discovery.Commit.{
  ref_url, tag_url, tagged_object, follow_commit, resolve_object, source_commit,
}

module _ (w : World) where
  -- GitHub's answer for the tag that is the first object names the second one.
  pub record IsTagOf (object next : Json) : Type 0 where
    pub sha : String
    pub answer : Json
    pub k : List Event
    pub is_tag : At "type" object (str "tag")
    pub at_sha : At "sha" object (str sha)
    pub answered : w.api k (tag_url sha) ≡ ok answer
    pub at_object : At "object" answer next

  -- The first object stands for the commit with a name, by way of annotated tags.
  pub data LeadsTo (sha : String) : Json → Type 0 where
    commit : {object : Json} → IsCommitOf object sha → LeadsTo sha object
    tag : {object next : Json} → IsTagOf object next → LeadsTo sha next → LeadsTo sha object

  -- GitHub's answer for the tag of a version is a reference to an object that leads to the commit.
  pub record IsVersionCommit (version sha : String) : Type 0 where
    pub k : List Event
    pub ref : Json
    pub object : Json
    pub answered : w.api k (ref_url version) ≡ ok ref
    pub at_object : At "object" ref object
    pub leads : LeadsTo sha object

  tagged_object-IsTagOf :
      (object : Json) (h : List Event) {next : Json} {h' : List Event}
      → At "type" object (str "tag")
      → tagged_object w object h ≡ (ok next, h')
      → IsTagOf object next
  unfolding tagged_object api
  tagged_object-IsTagOf object h is_tag e =
      let (sha, at_sha, e₁) = bind-eq-ok (lift (text_item "sha" object)) _ h e in
      let (answer, answered, e₂) = bind-eq-ok (api w (tag_url sha)) _ _ e₁ in
      record {
        sha = sha;
        answer = answer;
        k = h;
        is_tag = is_tag;
        at_sha = text_item-eq-ok "sha" object (ap (λ q. q.0) at_sha);
        answered = ap (λ q. q.0) answered;
        at_object = ap (λ q. q.0) e₂;
      }

  follow_commit_sound :
      (type object : Json) (again : Json → Action String) (h : List Event) {sha : String}
      {h' : List Event}
      → At "type" object type
      → ((next : Json) (k k' : List Event) → again next k ≡ (ok sha, k') → LeadsTo sha next)
      → follow_commit w (json_eq type (str "commit")) (json_eq type (str "tag")) again object h
        ≡ (ok sha, h')
      → LeadsTo sha object
  unfolding follow_commit
  follow_commit_sound type object again h at_type later e =
      elim (Bool-cases (json_eq type (str "commit"))) [
        | inl is_commit ↦
            let (at_sha, is_sha) = commit_of_sound object (ap (λ q. q.0) (rw is_commit at e)) in
            commit (record {
              at_type = at_type ∙ ap ok (json_eq-str type "commit" is_commit);
              at_sha = at_sha;
              is_sha = is_sha;
            })
        | inr other ↦ elim (Bool-cases (json_eq type (str "tag"))) [
          | inl is_tag ↦
              let (next, found, rest) =
                bind-eq-ok (tagged_object w object) again h (rw (other, is_tag) at e) in
              tag
                (tagged_object-IsTagOf object h (at_type ∙ ap ok (json_eq-str type "tag" is_tag))
                  found)
                (later next _ _ rest)
          | inr neither ↦ raised (rw (other, neither) at e)
        ]
      ]

  resolve_object_sound :
      (n : ℕ) (object : Json) (h : List Event) {sha : String} {h' : List Event}
      → resolve_object w n object h ≡ (ok sha, h')
      → LeadsTo sha object
  unfolding resolve_object
  resolve_object_sound zero object h e = raised e
  resolve_object_sound (suc n) object h e =
      let (type, at_type, rest) = bind-eq-ok (lift (item "type" object)) _ h e in
      follow_commit_sound type object (resolve_object w n) _ (ap (λ q. q.0) at_type)
        (λ next k k' e'. resolve_object_sound n next k e') rest

  tagged_object-Within : (object : Json) → Within 1 (tagged_object w object)
  unfolding tagged_object api
  tagged_object-Within object =
      Within-bind 0 1 (lift (text_item "sha" object)) _ (Within-lift (text_item "sha" object))
        λ sha.
          Within-bind 1 0 (api w _) _ (record { at = λ h. omega arith })
            λ answer. Within-lift (item "object" answer)

  follow_commit-Within :
      (n : ℕ) (is_commit is_tag : Bool) (again : Json → Action String) (object : Json)
      → ((next : Json) → Within n (again next))
      → Within (1 + n) (follow_commit w is_commit is_tag again object)
  unfolding follow_commit
  follow_commit-Within n true is_tag again object b = record { at = λ h. omega arith }
  follow_commit-Within n false true again object b =
      Within-bind 1 n (tagged_object w object) again (tagged_object-Within object) b
  follow_commit-Within n false false again object b = record { at = λ h. omega arith }

  first_round :
      (n : ℕ) (object : Json)
      → ((next : Json) → Within n (resolve_object w n next))
      → Within (0 + (1 + n)) (resolve_object w (suc n) object)
  unfolding resolve_object
  first_round n object b =
      Within-bind 0 (1 + n) (lift (item "type" object)) _ (Within-lift (item "type" object))
        λ type. follow_commit-Within n _ _ (resolve_object w n) object b

  resolve_object-Within : (n : ℕ) (object : Json) → Within n (resolve_object w n object)
  unfolding resolve_object
  resolve_object-Within zero object = record { at = λ h. omega arith }
  resolve_object-Within (suc n) object = record {
    at = λ h. omega (arith, (first_round n object (resolve_object-Within n)).at h);
  }

  module _ ⦃py : Interpreter⦄ where
    -- What is returned is the name of the commit that the tag of the version leads to, and the
    -- version is stable.
    pub source_commit-IsVersionCommit :
        (version : String) (h : List Event) {sha : String} {h' : List Event}
        → source_commit w version h ≡ (ok sha, h')
        → IsStable version × IsVersionCommit version sha
    unfolding source_commit api
    source_commit-IsVersionCommit version h e =
        let (_, stable, e₁) = bind-eq-ok (lift (check_stable _ version)) _ h e in
        let (ref, answered, e₂) = bind-eq-ok (api w (ref_url version)) _ _ e₁ in
        let (object, at_object, e₃) = bind-eq-ok (lift (item "object" ref)) _ _ e₂ in
        (
          check_stable_sound _ version (ap (λ q. q.0) stable),
          record {
            k = h;
            ref = ref;
            object = object;
            answered = ap (λ q. q.0) answered;
            at_object = ap (λ q. q.0) at_object;
            leads = resolve_object_sound 4 object _ e₃;
          },
        )

    -- Source_commit ends after at most five requests, however the tags refer to each other.
    pub source_commit-Within : (version : String) → Within 5 (source_commit w version)
    unfolding source_commit api
    source_commit-Within version =
        Within-bind 0 5 (lift (check_stable _ version)) _ (Within-lift (check_stable _ version))
          λ _.
            Within-bind 1 4 (api w (ref_url version)) _ (record { at = λ h. omega arith })
              λ ref.
                Within-bind 0 4 (lift (item "object" ref)) _ (Within-lift (item "object" ref))
                  (resolve_object-Within 4)
