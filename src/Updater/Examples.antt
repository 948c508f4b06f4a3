-- ===== src/Updater/Examples.antt =====
-- The updater on concrete inputs.
use p2pt_server.GoText.{strip_prefix?, trim_left, trim_right, trim_space}
use p2pt_server.GoText.Cut.{trim_prefix}
use p2pt_server.Prelude.{true, false, none, some, [], ◌∷◌, ◌≡◌, refl}
use p2pt_server.Updater.{
  GithubRelease, clean_version, is_newer_version, get_binary_asset_name, find_asset, check_once,
}

-- Versions are compared as texts: 1.10.0 comes before 1.9.0.
versions :
    (is_newer_version "v1.2.0" "1.3.0\n" ≡ true)
    × (is_newer_version "1.9.0" "v1.10.0" ≡ false)
    × (is_newer_version "1.10.0" "v1.9.0" ≡ true)
unfolding is_newer_version clean_version trim_prefix strip_prefix? trim_space trim_left trim_right
versions = (refl, refl, refl)

abbrev release : GithubRelease
release = record {
  tag_name = "v1.4.0";
  assets =
      record { name = "p2pt-server-linux-amd64"; browser_download_url = "https://a/amd64" }
      ∷ record { name = "p2pt-server-linux-armhf"; browser_download_url = "https://a/armhf" }
      ∷ [];
}

checks :
    (check_once "linux" "arm" "1.3.9" (some release) ≡ some "https://a/armhf")
    × (check_once "windows" "amd64" "1.3.9" (some release) ≡ none)
    × (check_once "linux" "amd64" "1.4.0" (some release) ≡ none)
unfolding check_once is_newer_version get_binary_asset_name find_asset clean_version trim_prefix
    strip_prefix? trim_space trim_left trim_right
checks = (refl, refl, refl)
