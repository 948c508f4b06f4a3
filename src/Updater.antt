-- ===== src/Updater.antt =====
-- updater.go: when the server replaces its own program. What GitHub answers, and whether a download is
-- put in place, are arguments. The platform is the one that the program was built for.
pub mod Settled
mod Examples
use Prim.Native.Nat.{Ordering}
use Prim.Native.String.{◌++◌, compare}
use p2pt_server.GoText.{trim_space}
use p2pt_server.GoText.Cut.{trim_prefix}
use p2pt_server.Prelude.{
  String, Bool, true, false, not, ◌&&◌, Option, none, some, List, [], ◌∷◌, ◌==◌, if◌then◌else◌,
}

pub record GithubAsset : Type 0 where
  pub name : String
  pub browser_download_url : String

-- The fields of a release that the program reads.
pub record GithubRelease : Type 0 where
  pub tag_name : String
  pub assets : List GithubAsset

abbrev pub is_lt : Ordering → Bool
is_lt Ordering.lt = true
is_lt Ordering.eq = false
is_lt Ordering.gt = false

-- Go's `<` of texts; their bytes in UTF-8 are ordered as their characters are
abbrev pub less : String → String → Bool
less s t = is_lt (compare s t)

unfoldable pub clean_version : String → String
unfolding trim_prefix trim_space
clean_version s = trim_prefix "v" (trim_space s)

unfoldable pub is_newer_version : String → String → Bool
unfolding clean_version
is_newer_version current latest =
    not (clean_version latest == "")
    && not (clean_version latest == clean_version current)
    && less (clean_version current) (clean_version latest)

unfoldable pub get_binary_asset_name : String → String → String
get_binary_asset_name os arch =
    if os == "linux" && arch == "arm"
    then "p2pt-server-linux-armhf"
    else if os == "windows"
    then "p2pt-server-" ++ os ++ "-" ++ arch ++ ".exe"
    else "p2pt-server-" ++ os ++ "-" ++ arch

-- What stands between a download and the replaced program: each step succeeds or fails.
pub record Download : Type 0 where
  pub answered : Bool
  pub ok : Bool
  pub opened : Bool
  pub written : Bool
  pub renamed : Bool

-- Whether DownloadAndApplyUpdate replaces the program.
unfoldable pub download_and_apply_update : Download → Bool
download_and_apply_update d = d.answered && d.ok && d.opened && d.written && d.renamed

-- The first asset of a name.
unfoldable pub find_asset : String → List GithubAsset → Option GithubAsset
find_asset name [] = none
find_asset name (a ∷ l) = if a.name == name then some a else find_asset name l

-- The address from which checkOnce downloads, if it does.
unfoldable pub check_once : String → String → String → Option GithubRelease → Option String
unfolding is_newer_version get_binary_asset_name find_asset
check_once os arch current none = none
check_once os arch current (some release) =
    if is_newer_version current (release.tag_name)
    then (elim (find_asset (get_binary_asset_name os arch) (release.assets)) [
      | none ↦ none
      | some a ↦ some (a.browser_download_url)
    ])
    else none
