-- ===== src/Build/Tests.antt =====
-- A download that replaces a damaged file.
use mathlib.Core.List.{flatten}
use tailscale_koolshare.Common.{
  ℕ, String, List, [], ◌∷◌, none, some, ◌≡◌, refl, length, eqb, if◌then◌else◌,
}
use tailscale_koolshare.Common.Outcome.{ok}
use tailscale_koolshare.Build.Download.{
  Files, Response, is_expected, is_cached, replace, receive, digest_of, request_into, fetch_unless,
  download,
}
use tailscale_koolshare.Build.Verified.{IsSafe, download-IsSafe}

abbrev digest : List ℕ → String
digest bytes = if eqb (length bytes) 3 then "good" else "bad"

abbrev damaged : Files
damaged = record { dest = some (9 ∷ []); partial = none }

abbrev response : Response
response = record { chunks = (1 ∷ 2 ∷ []) ∷ (3 ∷ []) ∷ []; failure = none }

opened : Unit {0}
unfolding flatten is_expected is_cached replace receive digest_of request_into fetch_unless download
opened = tt

download_test :
    download digest (some "good") (ok response) damaged
    ≡ (ok "good", record { dest = some (1 ∷ 2 ∷ 3 ∷ []); partial = none })
unfolding opened
download_test = refl

download_example :
    IsSafe digest (some "good") damaged (download digest (some "good") (ok response) damaged)
download_example = download-IsSafe digest (some "good") (ok response) damaged
