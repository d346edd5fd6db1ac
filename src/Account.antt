-- ===== src/Account.antt =====
-- src/account.rs, over the path operations of `std::path` that the source uses.
mod Paths
pub mod Components
pub mod Laws
unfoldable pub use Paths.{is_absolute, join}
pub use Paths.{join_injective}
use agent_runner_codex.Prelude.{
  String, Bool, true, false, ◌||◌, Option, none, some, List, [], ◌∷◌, ◌==◌, ◌⋯◌, if◌then◌else◌,
  or_else, keep_if,
}
use agent_runner_codex.Json.{lookup}
use agent_runner_codex.Envelope.{
  HostContext, Result, ok, err, ◌>>=◌, ok_or, invalid_request, invalid_settings, empty_object,
}

abbrev pub accounts : List String
accounts = "codex" ∷ "codex2" ∷ "codex3" ∷ "codex4" ∷ "codex5" ∷ []

unfoldable pub directory : String → Option String
directory settings_id =
    if settings_id == "codex" || settings_id == "codex1"
    then some ".codex"
    else if settings_id == "codex2"
        || settings_id == "codex3"
        || settings_id == "codex4"
        || settings_id == "codex5"
    then some ("." ⋯ settings_id)
    else none

-- `home_var` is `std::env::var("HOME").ok()`
module _ (home_var : Option String) where
  unfoldable pub user_home : HostContext → Result String
  user_home host =
      ok_or (keep_if is_absolute (or_else (lookup "HOME" host.env) home_var))
        (invalid_request "" "missing_home" "HOME must be an absolute path")

  unfoldable pub home : HostContext → String → Result String
  unfolding directory user_home
  home host settings_id = do
    name ←
        ok_or (directory settings_id) (
          invalid_settings "" "unknown_account" "Select codex or codex2 through codex5"
            empty_object)
    user ← user_home host
    ok (join user name)
