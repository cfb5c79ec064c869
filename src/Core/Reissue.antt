-- ===== src/Core/Reissue.antt =====
-- `reissue` of membrane-core/src/iac.rs: the unsigned successor of a credential.
pub mod Exact
use Prim.Native.Char.{code}
use Prim.Native.String.{len}
use text.Mathlib.Text.{find?}
use the_membrane.Prelude.{
  ℕ, ◌*◌, ℤ, pos, ltb_ℤ, wrapping_add, decimal_ℤ, String, ◌==◌, Bool, true, false, ◌&&◌, ◌||◌, not,
  Option, none, some, is_none, unwrap_or, List, [], ◌∷◌, ◌++◌, all, contains, leb, eqb, Result, ok,
  err, ◌>>=◌, ◌>>◌, deny_if, map_err, if◌then◌else◌, all_chars, is_ascii_alphanumeric, take_chars,
  to_ascii_lowercase, eq_ignore_ascii_case,
}
use the_membrane.Core.Iac.{IntentAuthorizationCredential}
use the_membrane.Core.External.{External}
use the_membrane.Core.Signature.{verify_signature, display}

abbrev pub max_reissue_ttl_secs : ℤ
max_reissue_ttl_secs = pos (7 * 24 * 3600)

pub data ReissueError : Type 0 where
  previous_not_operator_signed : String → ReissueError
  bad_ttl : ReissueError
  unsafe_identifier : String → ReissueError
  caller_mismatch : ReissueError
  caller_required : ReissueError

pub record ReissueRequest : Type 0 where
  pub now : ℤ
  pub ttl_secs : ℤ
  pub parent_cp_hash : String
  pub caller_pubkey : Option String
  pub add_models : List String
  pub add_tools : List String
  pub add_channels : List String

pub record ReissueChange : Type 0 where
  pub name : String
  pub from : String
  pub to : String

unfoldable pub plain_char : ℕ → Bool
plain_char c =
    is_ascii_alphanumeric c || eqb c b'.' || eqb c b'_' || eqb c b'-' || eqb c b':' || eqb c b'/'

unfoldable pub plain_identifier : String → Bool
unfolding plain_char
plain_identifier v =
    not (v == "") && leb (len v) 128 && all_chars plain_char v && is_none (find? v "..")

-- The loop over the requested additions.
unfoldable pub check_identifiers : List String → Result ReissueError (Unit {0})
check_identifiers [] = ok tt
check_identifiers (v ∷ vs) =
    let rest = check_identifiers vs in
    if not (plain_identifier v) then err (unsafe_identifier (take_chars 40 v)) else rest

unfoldable pub bound_caller : Option String → Option String → Result ReissueError String
bound_caller (some old) (some new) =
    if not (eq_ignore_ascii_case old new) then err caller_mismatch else ok old
bound_caller (some old) none = ok old
bound_caller none (some new) = ok (to_ascii_lowercase new)
bound_caller none none = err caller_required

-- The closure `add`: one list of the successor, with the changes noted so far.
unfoldable pub add :
    String → List String → List String → List ReissueChange → List String × List ReissueChange
add name list [] changes = (list, changes)
add name list (v ∷ extra) changes =
    let added =
      add name (list ++ v ∷ []) extra
        (changes ++ record { name = name; from = "(absent)"; to = v } ∷ []) in
    let same = add name list extra changes in if contains list v then same else added

abbrev pub one_if : Bool → ReissueChange → List ReissueChange
one_if true change = change ∷ []
one_if false change = []

-- The changes of the fields that are not lists.
unfoldable pub field_changes :
    IntentAuthorizationCredential → String → ℤ → String → List ReissueChange
field_changes c caller valid_until parent =
    one_if (is_none c.caller_pubkey)
      (record { name = "caller_pubkey"; from = "(none)"; to = caller })
    ++ record { name = "valid_until"; from = decimal_ℤ c.valid_until; to = decimal_ℤ valid_until }
      ∷ one_if (not (c.parent_cp_hash == parent))
          (record { name = "parent_cp_hash"; from = c.parent_cp_hash; to = parent })

module _ (x : External) where
  unfoldable pub reissue :
      IntentAuthorizationCredential
      → String
      → ReissueRequest
      → Result ReissueError (IntentAuthorizationCredential × List ReissueChange)
  reissue c operator_pubkey_hex req = do
    map_err (λ e. previous_not_operator_signed (display e))
        (verify_signature x c operator_pubkey_hex)
    deny_if (ltb_ℤ req.ttl_secs (pos 1) || ltb_ℤ max_reissue_ttl_secs req.ttl_secs) bad_ttl
    check_identifiers (req.add_models ++ (req.add_tools ++ req.add_channels))
    caller ← bound_caller c.caller_pubkey req.caller_pubkey
    let valid_until = wrapping_add req.now req.ttl_secs
    let changes = field_changes c caller valid_until req.parent_cp_hash
    let models = add "model_allowlist" c.model_allowlist req.add_models changes
    let tools = add "tool_allowlist" c.tool_allowlist req.add_tools models.1
    let channels = add "permitted_channels" c.permitted_channels req.add_channels tools.1
    ok (
      record c {
        signature = none;
        caller_pubkey = some caller;
        valid_until = valid_until;
        parent_cp_hash = req.parent_cp_hash;
        model_allowlist = models.0;
        tool_allowlist = tools.0;
        permitted_channels = channels.0;
      },
      channels.1,
    )
