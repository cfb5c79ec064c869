-- ===== src/Gate/Github/Execute/Panics.antt =====
-- When a call of GitHub panics.
use the_membrane.Prelude.{
  ℕ, String, ◌==◌, true, false, Option, none, some, is_some, Result, ok, err, is_ok, ltb, len,
  slice_to, ◌≡◌, refl, arith, Bool-cases, Option-cases, inl, inr,
}
use the_membrane.Core.External.{External}
use the_membrane.Core.Value.{Value}
use the_membrane.Gate.Github.{
  GitHubConnectorError, GitHubConnectorConfig, ToolInvokeRequest, preflight, tool_github_comment,
  tool_github_merge, tool_github_issue_read,
}
use the_membrane.Gate.Github.Exact.{preflight_exact, args_complete}
use the_membrane.Gate.Github.Execute.{
  Web, HttpCall, ToolReceiptContext, either_number, redact_tokenish, is_success, read_answer,
  unwrap, fetch, post_comment, merge_pull, read_issue, call_tool, execute_with, execute,
}

-- GitHub refused a call with a text that is longer than 240 bytes, and byte 240 is inside one of its
-- characters.
pub CutInside : Web → Type 0
CutInside web =
    (call : HttpCall) × (status : ℕ) × (text : String) × (web.call call ≡ ok (status, text))
    × (is_success status ≡ false)
    × (ltb 240 (len text) ≡ true)
    × (slice_to 240 text ≡ none)

module _ (x : External) (web : Web) (config : GitHubConnectorConfig) where
  read_answer-none :
      (done : Value → ToolReceiptContext) (answer : Result String (ℕ × String))
      → read_answer x web config done answer ≡ none
      → (status : ℕ) × (text : String) × (answer ≡ ok (status, text))
        × (is_success status ≡ false)
        × (ltb 240 (len text) ≡ true)
        × (slice_to 240 text ≡ none)
  unfolding read_answer redact_tokenish
  read_answer-none done (err e) h = cc
  read_answer-none done (ok (status, text)) h =
      (status, text, refl, ground arith, ground arith, ground arith)

  unwrap-none :
      {B : Type 0} (o : Option ℕ) (f : ℕ → Option B)
      → is_some o ≡ true
      → unwrap o f ≡ none
      → (n : ℕ) × (f n ≡ none)
  unwrap-none none f there h = cc
  unwrap-none (some n) f there h = (n, h)

  fetch-none :
      (done : Value → ToolReceiptContext) (call : HttpCall)
      → fetch x web config done call ≡ none
      → CutInside web
  unfolding CutInside
  fetch-none done call h =
      let (status, text, answered, refused, long, inside) =
        read_answer-none done (web.call call) h in
      (call, status, text, answered, refused, long, inside)

  post_comment-none :
      (token : String) (req : ToolInvokeRequest)
      → is_some (either_number req.issue_number req.pull_number) ≡ true
      → post_comment x web config token req ≡ none
      → CutInside web
  unfolding post_comment
  post_comment-none token req there h =
      let (n, refused) = unwrap-none (either_number req.issue_number req.pull_number) _ there h in
      fetch-none _ _ refused

  merge_pull-none :
      (token : String) (req : ToolInvokeRequest)
      → is_some req.pull_number ≡ true
      → merge_pull x web config token req ≡ none
      → CutInside web
  unfolding merge_pull
  merge_pull-none token req there h =
      let (n, refused) = unwrap-none req.pull_number _ there h in fetch-none _ _ refused

  read_issue-none :
      (token : String) (req : ToolInvokeRequest)
      → is_some (either_number req.issue_number req.pull_number) ≡ true
      → read_issue x web config token req ≡ none
      → CutInside web
  unfolding read_issue
  read_issue-none token req there h =
      let (n, refused) = unwrap-none (either_number req.issue_number req.pull_number) _ there h in
      fetch-none _ _ refused

  call_tool-none :
      (token : String) (req : ToolInvokeRequest)
      → args_complete req ≡ true
      → call_tool x web config token req ≡ none
      → CutInside web
  unfolding call_tool
  call_tool-none token req complete h = elim (Bool-cases (req.tool == tool_github_comment)) [
    | inl comment ↦ post_comment-none token req (ground arith) (ground arith)
    | inr others ↦ elim (Bool-cases (req.tool == tool_github_merge)) [
      | inl merge ↦ merge_pull-none token req (ground arith) (ground arith)
      | inr rest ↦ elim (Bool-cases (req.tool == tool_github_issue_read)) [
        | inl read ↦ read_issue-none token req (ground arith) (ground arith)
        | inr other ↦ ground arith
      ]
    ]
  ]

  execute_with-none :
      (req : ToolInvokeRequest) (passed : Result GitHubConnectorError (Unit {0}))
      → (is_ok passed ≡ true → args_complete req ≡ true)
      → execute_with x web config req passed ≡ none
      → CutInside web
  unfolding execute_with
  execute_with-none req (err e) complete h = cc
  execute_with-none req (ok tt) complete h = elim (Option-cases config.token) [
    | inl missing ↦ ground arith
    | inr (token, known) ↦ call_tool-none token req (complete refl) (ground arith)
  ]

  -- A call of GitHub panics only where GitHub refused it with a text of more than 240 bytes whose
  -- byte 240 is inside a character: no `unwrap` of a number that is missing is ever reached.
  pub execute-none : (req : ToolInvokeRequest) → execute x web config req ≡ none → CutInside web
  unfolding execute
  execute-none req h =
      execute_with-none req (preflight config req)
        (λ passed. ground (arith, preflight_exact config req)) h
