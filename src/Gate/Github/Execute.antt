-- ===== src/Gate/Github/Execute.antt =====
-- The calls of GitHub: `execute`, `post_comment`, `merge_pull`, `read_issue`, `observe` and
-- `redact_tokenish` of membrane-gate/src/github.rs. The HTTP client and the reading of JSON are
-- arguments; a call that panics gives none.
pub mod Panics
use the_membrane.Prelude.{
  ℕ, ◌+◌, ◌*◌, String, ◌==◌, Bool, true, false, ◌&&◌, ◌||◌, not, Option, none, some, unwrap_or,
  is_some, List, [], ◌∷◌, length, ltb, leb, Result, ok, err, map_err, format, decimal, len,
  slice_to, replace, utf8_bytes, trim_end_matches, if◌then◌else◌,
}
use the_membrane.Core.Value.{
  Value, null, bool, number, string, array, object, Items, nil, cons, Fields, end, field, get,
  as_str, and_then, opt_string,
}
use the_membrane.Core.External.{External}
use the_membrane.Gate.Github.{
  GitHubConnectorError, GitHubConnectorConfig, ToolInvokeRequest, token_missing, unsupported_tool,
  api, http, tool_github_comment, tool_github_merge, tool_github_issue_read, preflight,
}

pub record ToolReceiptContext : Type 0 where
  pub tool : String
  pub model : String
  pub owner : String
  pub repo : String
  pub simulation : Bool
  pub issue_number : Option ℕ
  pub pull_number : Option ℕ
  pub body_sha256 : Option String
  pub result : Option Value

-- One call of GitHub; its headers, but for the token, are always the same.
pub record HttpCall : Type 0 where
  pub method : String
  pub url : String
  pub token : String
  pub body : Option Value

-- The client gives the status and the text of the answer; `from_str` reads JSON.
pub record Web : Type 0 where
  pub call : HttpCall → Result String (ℕ × String)
  pub from_str : String → Result String Value

-- `number.or(other)`
abbrev pub either_number : Option ℕ → Option ℕ → Option ℕ
either_number (some n) _ = some n
either_number none m = m

-- `unwrap()`, which panics at none, and what is done after it
abbrev pub unwrap {ℓ κ} : {A : Type ℓ} {B : Type κ} → Option A → (A → Option B) → Option B
unwrap none f = none
unwrap (some a) f = f a

-- `parsed.get(..)` in `json!`
abbrev pub opt_value : Option Value → Value
opt_value none = null
opt_value (some v) = v

unfoldable pub redact_tokenish : String → Option String
redact_tokenish s = elim (if ltb 240 (len s) then slice_to 240 s else some s) [
  | none ↦ none
  | some trimmed ↦ some (replace (replace trimmed "ghp_" "[redacted]") "github_pat_" "[redacted]")
]

unfoldable pub repo_url : GitHubConnectorConfig → ToolInvokeRequest → String → String
repo_url config req suffix = format (
    trim_end_matches b'/' config.api_base
    ∷ "/repos/"
    ∷ req.owner
    ∷ "/"
    ∷ req.repo
    ∷ "/"
    ∷ suffix
    ∷ [])

abbrev pub is_success : ℕ → Bool
is_success status = leb 200 status && ltb status 300

abbrev pub title_payload : Option String → Fields
title_payload none = end
title_payload (some title) = field "commit_title" (string title) end

abbrev pub receipt_context :
    ToolInvokeRequest → Option ℕ → Option ℕ → Option String → Fields → ToolReceiptContext
receipt_context req issue pull body_sha256 result = record {
  tool = req.tool;
  model = req.model;
  owner = req.owner;
  repo = req.repo;
  simulation = false;
  issue_number = issue;
  pull_number = pull;
  body_sha256 = body_sha256;
  result = some (object result);
}

module _ (x : External) (web : Web) (config : GitHubConnectorConfig) where
  unfoldable pub body_sha256_hex : String → String
  body_sha256_hex body = x.hex_encode (x.sha256 (utf8_bytes body))

  -- `from_str(&text).unwrap_or(json!({}))`
  unfoldable pub parsed : String → Value
  parsed text = elim (web.from_str text) [ ok v ↦ v | err e ↦ object end ]

  -- The answer of GitHub, handed on when its status is one of success.
  unfoldable pub read_answer :
      (Value → ToolReceiptContext)
      → Result String (ℕ × String)
      → Option (Result GitHubConnectorError ToolReceiptContext)
  read_answer done (err e) = some (err (http e))
  read_answer done (ok (status, text)) =
      if not (is_success status)
      then elim (redact_tokenish text) [
        | none ↦ none
        | some message ↦ some (err (api status message))
      ]
      else some (ok (done (parsed text)))

  abbrev pub fetch :
      (Value → ToolReceiptContext)
      → HttpCall
      → Option (Result GitHubConnectorError ToolReceiptContext)
  fetch done call = read_answer done (web.call call)

  unfoldable pub post_comment :
      String → ToolInvokeRequest → Option (Result GitHubConnectorError ToolReceiptContext)
  post_comment token req = unwrap (either_number req.issue_number req.pull_number) (λ n.
      let body = unwrap_or req.body "" in
      fetch
        (λ v. receipt_context req (some n) req.pull_number (some (body_sha256_hex body)) (
          field "comment_id" (opt_value (get v "id"))
            (field "html_url" (opt_value (get v "html_url")) end)))
        (record {
          method = "POST";
          url = repo_url config req (format ("issues/" ∷ decimal n ∷ "/comments" ∷ []));
          token = token;
          body = some (object (field "body" (string body) end));
        }))

  unfoldable pub merge_pull :
      String → ToolInvokeRequest → Option (Result GitHubConnectorError ToolReceiptContext)
  merge_pull token req = unwrap req.pull_number (λ n.
      fetch
        (λ v.
          receipt_context req none (some n) none (
            field "merged" (opt_value (get v "merged"))
              (field "sha" (opt_value (get v "sha")) end)))
        (record {
          method = "PUT";
          url = repo_url config req (format ("pulls/" ∷ decimal n ∷ "/merge" ∷ []));
          token = token;
          body = some (object (title_payload req.commit_title));
        }))

  unfoldable pub read_issue :
      String → ToolInvokeRequest → Option (Result GitHubConnectorError ToolReceiptContext)
  read_issue token req = unwrap (either_number req.issue_number req.pull_number) (λ n.
      fetch
        (λ v. receipt_context req (some n) req.pull_number none (
          field "html_url" (opt_value (get v "html_url")) (
            field "number" (opt_value (get v "number")) (
              field "state" (opt_value (get v "state")) (
                field "title_sha256"
                  (string (body_sha256_hex (unwrap_or (and_then (get v "title") as_str) "")))
                  end)))))
        (record {
          method = "GET";
          url = repo_url config req (format ("issues/" ∷ decimal n ∷ []));
          token = token;
          body = none;
        }))

  -- The `match` on the tool.
  unfoldable pub call_tool :
      String → ToolInvokeRequest → Option (Result GitHubConnectorError ToolReceiptContext)
  call_tool token req =
      if req.tool == tool_github_comment
      then post_comment token req
      else if req.tool == tool_github_merge
      then merge_pull token req
      else if req.tool == tool_github_issue_read
      then read_issue token req
      else some (err (unsupported_tool req.tool))

  unfoldable pub execute_with :
      ToolInvokeRequest
      → Result GitHubConnectorError (Unit {0})
      → Option (Result GitHubConnectorError ToolReceiptContext)
  execute_with req (err e) = some (err e)
  execute_with req (ok tt) = elim config.token [
    | none ↦ some (err token_missing)
    | some token ↦ call_tool token req
  ]

  unfoldable pub execute :
      ToolInvokeRequest → Option (Result GitHubConnectorError ToolReceiptContext)
  execute req = execute_with req (preflight config req)
