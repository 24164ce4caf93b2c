-- ===== src/Build/Verified.antt =====
-- What `download` leaves at the destination.
use mathlib.Core.List.{flatten}
use tailscale_koolshare.Common.{
  ℕ, String, Bool, true, false, List, Option, none, some, ◌≡◌, refl, inl, inr, Option-cases,
}
use tailscale_koolshare.Common.Outcome.{Result, ok, raise}
use tailscale_koolshare.Build.Download.{
  Files, Response, is_expected, is_cached, replace, receive, digest_of, request_into, fetch_unless,
  download,
}

module _ (sha256 : List ℕ → String) where
  -- A digest was returned, that of the destination, which passes; or an error was raised, and the
  -- destination is what it was.
  pub record IsDigest (expected : Option String) (after : Files) (digest : String) : Type 0 where
    pub body : List ℕ
    pub at_dest : after.dest ≡ some body
    pub measured : digest ≡ sha256 body
    pub passes : is_expected sha256 expected body ≡ true

  abbrev pub IsSafe : Option String → Files → Result String × Files → Type 0
  IsSafe expected before (ok digest, after) = IsDigest expected after digest
  IsSafe expected before (raise e, after) = after.dest ≡ before.dest

  replace-IsSafe :
      (expected : Option String) (passes : Bool) (body : List ℕ) (files : Files)
      → is_expected sha256 expected body ≡ passes
      → IsSafe expected files (replace sha256 passes body files)
  unfolding replace
  replace-IsSafe expected true body files e = record {
    body = body;
    at_dest = refl;
    measured = refl;
    passes = e;
  }
  replace-IsSafe expected false body files e = refl

  receive-IsSafe :
      (expected : Option String) (response : Response) (files : Files)
      → IsSafe expected files (receive sha256 expected response files)
  unfolding receive
  receive-IsSafe expected response files = elim (Option-cases response.failure) [
    | inl complete ↦ rw complete (replace-IsSafe expected _ (flatten response.chunks) files refl)
    | inr (e, cut) ↦ rw cut refl
  ]

  cached-IsSafe :
      (expected : Option String) (dest : Option (List ℕ)) (files : Files)
      → files.dest ≡ dest
      → is_cached sha256 expected dest ≡ true
      → IsSafe expected files (digest_of sha256 dest, files)
  unfolding is_cached digest_of
  cached-IsSafe expected none files at cached = cc
  cached-IsSafe expected (some body) files at cached = record {
    body = body;
    at_dest = at;
    measured = refl;
    passes = cached;
  }

  request_into-IsSafe :
      (expected : Option String) (answer : Result Response) (files : Files)
      → IsSafe expected files (request_into sha256 expected answer files)
  unfolding request_into
  request_into-IsSafe expected (raise e) files = refl
  request_into-IsSafe expected (ok response) files = receive-IsSafe expected response files

  fetch_unless-IsSafe :
      (cached : Bool) (expected : Option String) (answer : Result Response) (files : Files)
      → is_cached sha256 expected files.dest ≡ cached
      → IsSafe expected files (fetch_unless sha256 cached expected answer files)
  unfolding fetch_unless
  fetch_unless-IsSafe true expected answer files e = cached-IsSafe expected files.dest files refl e
  fetch_unless-IsSafe false expected answer files e = request_into-IsSafe expected answer files

  -- When download returns a digest, it is that of the file at the destination, and equals the
  -- expected one where one is given, whether that file was there or was fetched; when it raises,
  -- the destination is what it was before.
  pub download-IsSafe :
      (expected : Option String) (answer : Result Response) (files : Files)
      → IsSafe expected files (download sha256 expected answer files)
  unfolding download
  download-IsSafe expected answer files = fetch_unless-IsSafe _ expected answer files refl
