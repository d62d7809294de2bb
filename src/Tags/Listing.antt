-- ===== src/Tags/Listing.antt =====
-- internal/ghcr/client.go: ListTags, from the tags that the registry names. What the registry answers
-- about a tag, its manifest and the creation time in its configuration, is an argument; an answer
-- that fails leaves the field empty, a time of 0 is the zero time.
use vtafarm_api.Base.{
  ℕ, Bool, true, false, not, ◌&&◌, ◌||◌, List, [], ◌∷◌, ◌++◌, map, Option, none, some, ltb, ◌==◌,
  any, select, if◌then◌else◌,
}
use vtafarm_api.Keys.Base58.{codes}
use vtafarm_api.Keys.DidKey.{same_bytes}
use vtafarm_api.Tags.Sorting.{sort_stable, by_rank}
use vtafarm_api.Tags.Semver.{Text, sort_semver_desc}

-- registryManifest: the digest of its configuration, empty for an index, and the platform manifests
-- of an index, each with the name of its system where it has a platform.
pub record Manifest : Type 0 where
  pub config_digest : Text
  pub manifests : List (Text × Option Text)

-- The answers of the registry: the digest and manifest of a tag or digest, and the creation time in
-- the configuration at a digest; the text of a time.
pub record Registry : Type 0 where
  pub fetch_manifest : Text → Option (Text × Manifest)
  pub fetch_created : Text → Option ℕ
  pub manifest_digest : Text → Option Text
  pub format_time : ℕ → Text

-- tagInfo
pub record TagInfo : Type 0 where
  pub tag : Text
  pub digest : Text
  pub created : ℕ

-- ImageTag without Default, which the caller sets.
pub record ImageTag : Type 0 where
  pub tag : Text
  pub image : Text
  pub latest : Bool
  pub nightly : Bool
  pub main : Bool
  pub created : Text

abbrev pub is_empty_text : Text → Bool
is_empty_text [] = true
is_empty_text (c ∷ s) = false

abbrev pub is_unknown : Option Text → Bool
is_unknown none = false
is_unknown (some os) = same_bytes os (codes "unknown")

-- The first manifest of an index that is no attestation.
unfoldable pub first_platform : List (Text × Option Text) → Option Text
first_platform [] = none
first_platform ((digest, os) ∷ ms) =
    let rest = first_platform ms in if is_unknown os then rest else some digest

module _ (registry : Registry) where
  -- The manifest that has the configuration: of an index, the one of its first platform.
  unfoldable pub image_manifest : Manifest → Option Manifest
  unfolding first_platform
  image_manifest m = elim (is_empty_text m.config_digest) [
    | false ↦ some m
    | true ↦ elim (first_platform m.manifests) [
      | none ↦ some m
      | some digest ↦ elim (registry.fetch_manifest digest) [
        | none ↦ none
        | some answer ↦ some answer.1
      ]
    ]
  ]

  unfoldable pub created_of : Option Manifest → ℕ
  created_of none = 0
  created_of (some m) =
      if is_empty_text m.config_digest
      then 0
      else elim (registry.fetch_created m.config_digest) [ none ↦ 0 | some at ↦ at ]

  -- resolveTag
  unfoldable pub resolve_tag : Text → TagInfo
  unfolding image_manifest created_of
  resolve_tag tag = elim (registry.fetch_manifest tag) [
    | none ↦ record { tag = tag; digest = []; created = 0 }
    | some answer ↦ record {
      tag = tag;
      digest = answer.0;
      created = created_of (image_manifest answer.1);
    }
  ]

  -- The digest of a channel's tag, where the registry names the tag.
  unfoldable pub channel_digest : List Text → Text → Text
  channel_digest tags channel =
      if any (λ t. same_bytes t channel) tags
      then elim (registry.manifest_digest channel) [ none ↦ [] | some digest ↦ digest ]
      else []

-- A value for each of the channels latest, nightly and main.
pub record Channels (A : Type 0) : Type 0 where
  pub for_latest : A
  pub for_nightly : A
  pub for_main : A

abbrev pub none_flagged : Channels Bool
none_flagged = record { for_latest = false; for_nightly = false; for_main = false }

-- A row is flagged if it is the first with the channel's digest.
abbrev pub is_hit : Text → Bool → TagInfo → Bool
is_hit digest flagged info =
    not (is_empty_text digest) && not flagged && same_bytes info.digest digest

-- The channels that are flagged after a row.
abbrev pub flagged_after : Channels Text → Channels Bool → TagInfo → Channels Bool
flagged_after digests flagged info = record {
  for_latest = flagged.for_latest || is_hit digests.for_latest flagged.for_latest info;
  for_nightly = flagged.for_nightly || is_hit digests.for_nightly flagged.for_nightly info;
  for_main = flagged.for_main || is_hit digests.for_main flagged.for_main info;
}

module _ (registry : Registry) (base : Text) (digests : Channels Text) where
  -- The loop over the rows, with the channels that are flagged.
  unfoldable pub flag_rows : Channels Bool → List TagInfo → List ImageTag
  flag_rows flagged [] = []
  flag_rows flagged (info ∷ infos) =
      record {
        tag = info.tag;
        image = base ++ b':' ∷ info.tag;
        latest = is_hit digests.for_latest flagged.for_latest info;
        nightly = is_hit digests.for_nightly flagged.for_nightly info;
        main = is_hit digests.for_main flagged.for_main info;
        created = if info.created == 0 then [] else registry.format_time info.created;
      }
      ∷ flag_rows (flagged_after digests flagged info) infos

-- channelRank
unfoldable pub channel_rank : ImageTag → ℕ
channel_rank t = if t.latest then 0 else if t.nightly then 1 else if t.main then 2 else 3

-- orderChannelsFirst
unfoldable pub order_channels_first : List ImageTag → List ImageTag
unfolding channel_rank sort_stable
order_channels_first tags = sort_stable (by_rank channel_rank) tags

abbrev pub is_channel : Text → Bool
is_channel t =
    same_bytes t (codes "latest") || same_bytes t (codes "nightly") || same_bytes t (codes "main")

abbrev pub is_created_after : TagInfo → TagInfo → Bool
is_created_after a b = ltb b.created a.created

-- The tags that are no channels.
abbrev pub versions : List Text → List Text
versions tags = select (λ t. not (is_channel t)) tags

module _ (registry : Registry) (tags : List Text) where
  -- The versions, newest first.
  unfoldable pub newest_first : List TagInfo
  unfolding sort_semver_desc sort_stable resolve_tag
  newest_first =
      sort_stable is_created_after (map (resolve_tag registry) (sort_semver_desc (versions tags)))

  abbrev pub channel_digests : Channels Text
  channel_digests = record {
    for_latest = channel_digest registry tags (codes "latest");
    for_nightly = channel_digest registry tags (codes "nightly");
    for_main = channel_digest registry tags (codes "main");
  }

  -- ListTags, where the registry lists the tags, for the image's path without a tag.
  unfoldable pub list_tags : Text → List ImageTag
  unfolding newest_first flag_rows order_channels_first channel_digest
  list_tags base =
      order_channels_first (flag_rows registry base channel_digests none_flagged newest_first)
