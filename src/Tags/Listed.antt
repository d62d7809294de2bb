-- ===== src/Tags/Listed.antt =====
-- internal/ghcr/client.go: the list has every version once, the rows of the channels first, and one
-- row for each channel that has one.
use vtafarm_api.Base.{
  ℕ, Bool, false, not, ◌&&◌, List, [], ◌∷◌, map, ◌==◌, any, count, select, if◌then◌else◌, ◌≡◌,
}
use vtafarm_api.Keys.DidKey.{same_bytes}
use vtafarm_api.Tags.Sorting.{by_rank, IsSorted}
use vtafarm_api.Tags.Semver.{Text}
use vtafarm_api.Tags.Listing.{
  Registry, TagInfo, ImageTag, Channels, none_flagged, is_empty_text, flag_rows, channel_rank,
  is_created_after, versions, newest_first, channel_digests,
}

-- How many rows the digest of a channel flags: the first one that has it.
abbrev pub flags : Text → Bool → List TagInfo → ℕ
flags digest flagged infos =
    if not (is_empty_text digest)
      && not flagged
      && any (λ (info : TagInfo). same_bytes info.digest digest) infos
    then 1
    else 0

-- The tags of the first row with the digest: one, or none.
unfoldable pub first_with : Text → List TagInfo → List Text
first_with digest [] = []
first_with digest (info ∷ infos) =
    let rest = first_with digest infos in
    if not (is_empty_text digest) && same_bytes info.digest digest then info.tag ∷ [] else rest

module _ (registry : Registry) (base : Text) (digests : Channels Text) where
  abbrev rows : Channels Bool → List TagInfo → List ImageTag
  rows flagged infos = flag_rows registry base digests flagged infos

-- What the list says: its order, that it has each version once, how many rows each channel flags,
-- which one the channel latest flags, and that the others are in the order of their creation.
pub record IsListing (registry : Registry) (tags : List Text) (base : Text) (list : List ImageTag)
    : Type 0 where
  pub channels_first : IsSorted (by_rank channel_rank) list
  pub newest : IsSorted is_created_after (newest_first registry tags)
  pub others_in_order :
      select (λ (r : ImageTag). channel_rank r == 3) list
      ≡ select
          (λ (r : ImageTag). channel_rank r == 3)
          (flag_rows registry base
            (channel_digests registry tags)
            none_flagged
            (newest_first registry tags))
  pub same_tags :
      (t : Text)
      → count (λ (r : ImageTag). same_bytes r.tag t) list
        ≡ count (λ v. same_bytes v t) (versions tags)
  pub one_latest :
      count (λ (r : ImageTag). r.latest) list
      ≡ flags (channel_digests registry tags).for_latest false (newest_first registry tags)
  pub one_nightly :
      count (λ (r : ImageTag). r.nightly) list
      ≡ flags (channel_digests registry tags).for_nightly false (newest_first registry tags)
  pub one_main :
      count (λ (r : ImageTag). r.main) list
      ≡ flags (channel_digests registry tags).for_main false (newest_first registry tags)
  pub newest_latest :
      map (λ (r : ImageTag). r.tag) (select (λ (r : ImageTag). r.latest) list)
      ≡ first_with (channel_digests registry tags).for_latest (newest_first registry tags)
