-- ===== src/GoToSocial/Users.antt =====
-- GetLocalUsers: the accounts for the dashboard, from the text that the command `sqlite3` prints, a line for
-- each, with the columns separated by `|`. The number that `fmt.Sscanf` finds, 0 for none, is an argument.
use p2pt_server.GoText.{ℤ, split, trim_space}
use p2pt_server.GoText.Cut.{contains, size, take}
use p2pt_server.Prelude.{
  String, Bool, false, not, Option, none, some, List, [], ◌∷◌, ◌==◌, leb, if◌then◌else◌,
}

pub record GoToSocialUser : Type 0 where
  pub username : String
  pub display_name : String
  pub statuses : ℤ
  pub created_at : String
  pub profile_url : String
  pub has_token : Bool
  pub is_admin : Bool

abbrev has_token_column : List String → Bool
has_token_column [] = false
has_token_column (token ∷ rest) = not (trim_space token == "")

-- The account of a line with at least five columns.
unfoldable pub parse_columns : (String → ℤ) → List String → Option GoToSocialUser
unfolding contains size take trim_space
parse_columns scan (username ∷ display ∷ statuses ∷ created ∷ url ∷ rest) =
    if contains "." username
    then none
    else some (record {
      username = username;
      display_name = display;
      statuses = scan statuses;
      created_at = if leb 10 (size created) then take 10 created else created;
      profile_url = url;
      has_token = has_token_column rest;
      is_admin = username == "pingo";
    })
parse_columns scan _ = none

abbrev collect : Option GoToSocialUser → List GoToSocialUser → List GoToSocialUser
collect none users = users
collect (some u) users = u ∷ users

unfoldable pub parse_lines : (String → ℤ) → List String → List GoToSocialUser
unfolding parse_columns split trim_space
parse_lines scan [] = []
parse_lines scan (l ∷ ls) =
    let rest = parse_lines scan ls in
    if trim_space l == ""
    then rest
    else collect (parse_columns scan (split "|" (trim_space l))) rest

-- `none` for no database, or a command that fails
unfoldable pub get_local_users : (String → ℤ) → Option String → List GoToSocialUser
unfolding parse_lines split trim_space
get_local_users scan none = []
get_local_users scan (some out) = parse_lines scan (split "\n" (trim_space out))
