-- ===== src/Cmd/Update/Spans.antt =====
-- The releases that an update from one channel to the other spans (cmd/update.go).
use vibepit.Prelude.{
  ◌≡◌, refl, ap, sym, ◌∙◌, subst, true, false, not, ◌&&◌, ◌||◌, Option, some, List, [], Text, ok,
}
use vibepit.Selfupdate.Version.{Semver, is_before, is_after}
use vibepit.Selfupdate.Releases.{
  ReleaseEntry, ChannelIndex, releases_between, filter_range, seen, add_releases, combine_releases,
  releases_of, other_channel, Client, fetch_channel_index,
}
use vibepit.Selfupdate.Releases.Listed.{
  IsDistinct, IsNewestFirst, within, add_releases-IsDistinct, seen-add_releases, seen-filter_range,
  filter_range-IsDistinct, seen-sort_newest, sort_newest-IsDistinct, sort_newest-IsNewestFirst,
}
use vibepit.Cmd.Update.{widened, enumeration_index}

-- A list of the releases of two indexes from one version, which is left out, to another.
pub record Spans (semver : Semver) (current target : Text) (a b listed : List ReleaseEntry)
    : Type 0 where
  pub newest_first : IsNewestFirst semver listed
  pub once : IsDistinct listed
  pub exact :
      (v : Text)
      → seen v listed
        ≡ ((seen v a || seen v b) && (is_before semver current v && not (is_after semver v target)))

seen-combine_releases :
    (v : Text) (a b : Option ChannelIndex)
    → seen v (combine_releases a b) ≡ (seen v (releases_of a) || seen v (releases_of b))
unfolding seen
seen-combine_releases v a b =
    seen-add_releases v (add_releases [] (releases_of a)) (releases_of b)
    ∙ ap (λ s. s || seen v (releases_of b)) (seen-add_releases v [] (releases_of a))

module _ (semver : Semver)
    (asym : (a b : Text) → is_after semver a b ≡ true → is_after semver b a ≡ false) where
  combined-Spans :
      (current target : Text) (a b : Option ChannelIndex) (whole : ChannelIndex)
      → whole.releases ≡ combine_releases a b
      → Spans semver current target
          (releases_of a)
          (releases_of b)
          (releases_between semver whole current target)
  combined-Spans current target a b whole e =
      let d : IsDistinct whole.releases = subst IsDistinct (sym e) (
        add_releases-IsDistinct (add_releases [] (releases_of a)) (releases_of b)
          (add_releases-IsDistinct [] (releases_of a) tt)) in
      let range = filter_range semver current target whole.releases in
      record {
        newest_first = sort_newest-IsNewestFirst semver asym range;
        once =
            sort_newest-IsDistinct semver range
              (filter_range-IsDistinct semver current target whole.releases d);
        exact = λ v.
            seen-sort_newest semver v range
            ∙ seen-filter_range semver current target v whole.releases
            ∙ ap (λ s. s && within semver current target v)
                (ap (seen v) e ∙ seen-combine_releases v a b);
      }

  -- When the index of the other channel is fetched, and no two versions are each after the other, an
  -- update across the channels lists exactly the versions of either index that are after the current
  -- one and not after the target, each once and none before one that is after it.
  pub enumeration_index-Spans :
      (client : Client) (idx other : ChannelIndex) (channel current target : Text)
      → fetch_channel_index client (other_channel channel) ≡ ok (some other)
      → (whole : ChannelIndex) × (enumeration_index client idx channel true ≡ some whole)
        × Spans semver current target idx.releases other.releases
            (releases_between semver whole current target)
  unfolding enumeration_index
  enumeration_index-Spans client idx other channel current target e =
      let whole : ChannelIndex = record {
        latest = idx.latest;
        releases = combine_releases (some idx) (some other);
      } in
      (whole, ap (widened idx) e, combined-Spans current target (some idx) (some other) whole refl)
