-- ===== src/Build/Download.antt =====
-- `download` of tools/build_core.py, on the two files that it writes.
use mathlib.Core.List.{flatten}
use tailscale_koolshare.Common.{ℕ, String, Bool, true, false, ◌||◌, List, Option, none, some, ◌==◌}
use tailscale_koolshare.Common.Outcome.{Exception, value_error, os_error, Result, ok, raise}

-- The destination and its `.partial` file, by their contents.
pub record Files : Type 0 where
  pub dest : Option (List ℕ)
  pub partial : Option (List ℕ)

-- The chunks of a response, and the failure that cuts it short, where there is one.
pub record Response : Type 0 where
  pub chunks : List (List ℕ)
  pub failure : Option Exception

module _ (sha256 : List ℕ → String) where
  -- `not expected or sha256(path) == expected`; an empty text counts as none.
  unfoldable pub is_expected : Option String → List ℕ → Bool
  is_expected none body = true
  is_expected (some expected) body = expected == "" || sha256 body == expected

  -- The destination is there, and passes.
  unfoldable pub is_cached : Option String → Option (List ℕ) → Bool
  is_cached expected none = false
  is_cached expected (some body) = is_expected expected body

  -- After the partial file has been written, by whether its digest passes.
  unfoldable pub replace : Bool → List ℕ → Files → Result String × Files
  replace true body files = (ok (sha256 body), record { dest = some body; partial = none })
  replace false body files =
      (raise (value_error "checksum mismatch"), record { dest = files.dest; partial = none })

  -- The loop that writes the chunks, then the check of the digest.
  unfoldable pub receive : Option String → Response → Files → Result String × Files
  receive expected response files = elim response.failure [
    | some e ↦ (raise e, record { dest = files.dest; partial = some (flatten response.chunks) })
    | none ↦
        replace (is_expected expected (flatten response.chunks)) (flatten response.chunks) files
  ]

  -- The digest of a file; one that is not there is an error.
  unfoldable pub digest_of : Option (List ℕ) → Result String
  digest_of none = raise os_error
  digest_of (some body) = ok (sha256 body)

  -- A request that fails leaves the files as they are.
  unfoldable pub request_into : Option String → Result Response → Files → Result String × Files
  request_into expected (raise e) files = (raise e, files)
  request_into expected (ok response) files = receive expected response files

  -- By whether the destination is there and passes.
  unfoldable pub fetch_unless :
      Bool → Option String → Result Response → Files → Result String × Files
  fetch_unless true expected answer files = (digest_of files.dest, files)
  fetch_unless false expected answer files = request_into expected answer files

  unfoldable pub download : Option String → Result Response → Files → Result String × Files
  download expected answer files =
      fetch_unless (is_cached expected files.dest) expected answer files
