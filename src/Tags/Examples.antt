-- ===== src/Tags/Examples.antt =====
-- internal/ghcr/client.go: the list of a package with three versions and two channels, and the theorem
-- at it.
use vtafarm_api.Base.{List, [], ◌∷◌, map, any, select, none, some, ◌≡◌, refl, if◌then◌else◌}
use vtafarm_api.Keys.Base58.{codes}
use vtafarm_api.Keys.DidKey.{same_bytes}
use vtafarm_api.Tags.Semver.{Text, parse_semver, sort_semver_desc}
use vtafarm_api.Tags.Listing.{Registry, ImageTag, list_tags}

parsed : parse_semver (codes "v1.12.3-1bc81a1") ≡ 1 ∷ 12 ∷ 3 ∷ []
unfolding parse_semver codes
parsed = refl

descending :
    sort_semver_desc (codes "0.5.1" ∷ codes "edge" ∷ codes "0.10.0" ∷ [])
    ≡ codes "0.10.0" ∷ codes "0.5.1" ∷ codes "edge" ∷ []
unfolding sort_semver_desc codes
descending = refl

-- A manifest for each tag; the digest of a version is its tag, and `latest` is version 1.0.0.
abbrev registry : Registry
registry = record {
  fetch_manifest = λ t. some (t, record { config_digest = t; manifests = [] });
  fetch_created = λ t. some (if same_bytes t (codes "1.1.0") then 20 else 10);
  manifest_digest = λ t. if same_bytes t (codes "latest") then some (codes "1.0.0") else none;
  format_time = λ n. n ∷ [];
}

abbrev tags : List Text
tags = codes "latest" ∷ codes "0.9.0" ∷ codes "1.0.0" ∷ codes "nightly" ∷ codes "1.1.0" ∷ []

abbrev base : Text
base = codes "ghcr.io/o/p"

latest_first :
    map (λ (r : ImageTag). r.tag) (list_tags registry tags base)
    ≡ codes "1.0.0" ∷ codes "1.1.0" ∷ codes "0.9.0" ∷ []
unfolding list_tags codes any select
latest_first = refl
