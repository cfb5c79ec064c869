-- ===== src/Gate/Github.antt =====
-- membrane-gate/src/github.rs: the checks that a tool request passes before GitHub is called.
pub mod Exact
pub mod Execute
use the_membrane.Prelude.{
  ℕ, String, ◌==◌, Bool, true, false, ◌&&◌, ◌||◌, not, Option, none, some, is_some, some_and, List,
  [], ◌∷◌, contains, Result, ok, err, ◌>>=◌, ◌>>◌, deny_if, format, if◌then◌else◌, eqb, trim,
  all_chars, is_ascii_alphanumeric,
}

pub data GitHubConnectorError : Type 0 where
  token_missing : GitHubConnectorError
  repo_denied unsupported_tool invalid_args : String → GitHubConnectorError
  api : ℕ → String → GitHubConnectorError
  http : String → GitHubConnectorError

pub record GitHubConnectorConfig : Type 0 where
  pub repo_allowlist : List String
  pub api_base : String
  pub token : Option String

pub record ToolInvokeRequest : Type 0 where
  pub tool : String
  pub operation_id : Option String
  pub model : String
  pub owner : String
  pub repo : String
  pub issue_number : Option ℕ
  pub pull_number : Option ℕ
  pub body : Option String
  pub commit_title : Option String

abbrev pub tool_github_comment : String
tool_github_comment = "github.comment"

abbrev pub tool_github_merge : String
tool_github_merge = "github.merge"

abbrev pub tool_github_issue_read : String
tool_github_issue_read = "github.issue.read"

unfoldable pub is_github_tool : String → Bool
is_github_tool tool =
    tool == tool_github_comment || tool == tool_github_merge || tool == tool_github_issue_read

abbrev pub full_name : ToolInvokeRequest → String
full_name req = format (req.owner ∷ "/" ∷ req.repo ∷ [])

unfoldable pub repo_allowed : GitHubConnectorConfig → String → String → Bool
repo_allowed config owner repo = contains config.repo_allowlist (format (owner ∷ "/" ∷ repo ∷ []))

unfoldable pub has_token : GitHubConnectorConfig → Bool
has_token config = some_and config.token (λ t. not (t == ""))

-- The characters of an owner or a repository; `b"-_."` are the three others.
abbrev pub is_name_char : ℕ → Bool
is_name_char c = is_ascii_alphanumeric c || eqb c b'-' || eqb c b'_' || eqb c b'.'

abbrev pub is_dots : String → Bool
is_dots name = name == "." || name == ".."

unfoldable pub is_repo_name : ToolInvokeRequest → Bool
is_repo_name req =
    not (req.owner == "")
    && not (req.repo == "")
    && all_chars is_name_char req.owner
    && all_chars is_name_char req.repo
    && not (is_dots req.owner)
    && not (is_dots req.repo)

abbrev pub has_number : ToolInvokeRequest → Bool
has_number req = is_some req.issue_number || is_some req.pull_number

unfoldable pub check_comment : ToolInvokeRequest → Result GitHubConnectorError (Unit {0})
check_comment req = do
  deny_if (not (has_number req))
      (invalid_args "issue_number or pull_number required for github.comment")
  deny_if (not (some_and req.body (λ b. not (trim b == ""))))
      (invalid_args "body required for github.comment")

unfoldable pub check_merge : ToolInvokeRequest → Result GitHubConnectorError (Unit {0})
check_merge req =
    deny_if (not (is_some req.pull_number)) (invalid_args "pull_number required for github.merge")

unfoldable pub check_issue_read : ToolInvokeRequest → Result GitHubConnectorError (Unit {0})
check_issue_read req =
    deny_if (not (has_number req))
      (invalid_args "issue_number or pull_number required for github.issue.read")

-- The `match` on the tool, in the order of its arms.
unfoldable pub check_args : ToolInvokeRequest → Result GitHubConnectorError (Unit {0})
unfolding check_comment check_merge check_issue_read
check_args req =
    if req.tool == tool_github_comment
    then check_comment req
    else if req.tool == tool_github_merge
    then check_merge req
    else if req.tool == tool_github_issue_read
    then check_issue_read req
    else ok tt

unfoldable pub authorize_repo_and_args :
    GitHubConnectorConfig → ToolInvokeRequest → Result GitHubConnectorError (Unit {0})
unfolding is_github_tool is_repo_name repo_allowed check_args
authorize_repo_and_args config req = do
  deny_if (not (is_github_tool req.tool)) (unsupported_tool req.tool)
  deny_if (not (is_repo_name req)) (invalid_args "owner and repo are required")
  deny_if (not (repo_allowed config req.owner req.repo)) (repo_denied (full_name req))
  check_args req

unfoldable pub preflight :
    GitHubConnectorConfig → ToolInvokeRequest → Result GitHubConnectorError (Unit {0})
unfolding authorize_repo_and_args has_token
preflight config req = do
  authorize_repo_and_args config req
  deny_if (is_github_tool req.tool && not (has_token config)) token_missing
