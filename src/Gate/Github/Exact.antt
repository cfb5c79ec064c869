-- ===== src/Gate/Github/Exact.antt =====
-- What a request has once it has passed the checks before any call of GitHub.
use the_membrane.Prelude.{
  ◌∙◌, refl, Result, ok, ◌>>◌, ◌==◌, Bool, true, ◌&&◌, not, some_and, is_some, is_ok, arith, ◌≡◌,
  trim, deny_if, if◌then◌else◌,
}
use the_membrane.Gate.Github.{
  GitHubConnectorError, check_comment, check_merge, check_issue_read, GitHubConnectorConfig,
  ToolInvokeRequest, tool_github_comment, tool_github_merge, tool_github_issue_read, is_github_tool,
  repo_allowed, has_token, is_repo_name, has_number, check_args, authorize_repo_and_args, preflight,
}

abbrev pub comment_complete : ToolInvokeRequest → Bool
comment_complete req = has_number req && some_and req.body (λ b. not (trim b == ""))

abbrev pub args_complete : ToolInvokeRequest → Bool
args_complete req =
    if req.tool == tool_github_comment
    then comment_complete req
    else if req.tool == tool_github_merge
    then is_some req.pull_number
    else if req.tool == tool_github_issue_read
    then has_number req
    else true

check_comment_exact : (req : ToolInvokeRequest) → is_ok (check_comment req) ≡ comment_complete req
unfolding check_comment
check_comment_exact req = ground arith

check_merge_exact : (req : ToolInvokeRequest) → is_ok (check_merge req) ≡ is_some req.pull_number
unfolding check_merge
check_merge_exact req = ground arith

check_issue_read_exact : (req : ToolInvokeRequest) → is_ok (check_issue_read req) ≡ has_number req
unfolding check_issue_read
check_issue_read_exact req = ground arith

choice :
    (a b c : Bool) (r s t : Result GitHubConnectorError (Unit {0}))
    → is_ok (if a then r else if b then s else if c then t else ok tt)
      ≡ (if a then is_ok r else if b then is_ok s else if c then is_ok t else true)
choice a b c r s t = ground arith

check_args_exact : (req : ToolInvokeRequest) → is_ok (check_args req) ≡ args_complete req
unfolding check_args
check_args_exact req =
    choice (req.tool == tool_github_comment) (req.tool == tool_github_merge)
      (req.tool == tool_github_issue_read) (check_comment req) (check_merge req)
      (check_issue_read req)
    ∙ rw (check_comment_exact req, check_merge_exact req, check_issue_read_exact req) refl

passes :
    (a b c d e : Bool) (r : Result GitHubConnectorError (Unit {0})) (w y z u : GitHubConnectorError)
    → is_ok r ≡ d
    → is_ok (
        (deny_if (not a) w >> (deny_if (not b) y >> (deny_if (not c) z >> r)))
        >> deny_if (a && not e) u)
      ≡ (a && b && c && d && e)
passes a b c d e r w y z u h = ground arith

-- A request passes before GitHub is called exactly if its tool is one of the three, its owner and
-- repository are plain names, the repository is on the list, the arguments that the tool needs are
-- there, and there is a token.
pub preflight_exact :
    (config : GitHubConnectorConfig) (req : ToolInvokeRequest)
    → is_ok (preflight config req) ≡ (
        is_github_tool req.tool
        && is_repo_name req
        && repo_allowed config req.owner req.repo
        && args_complete req
        && has_token config)
unfolding preflight authorize_repo_and_args
preflight_exact config req =
    passes (is_github_tool req.tool) (is_repo_name req) (repo_allowed config req.owner req.repo)
      (args_complete req) (has_token config) (check_args req) _ _ _ _ (check_args_exact req)
