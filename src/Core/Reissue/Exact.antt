-- ===== src/Core/Reissue/Exact.antt =====
-- What a re-issue is, and when it is refused.
use the_membrane.Prelude.{
  pos, wrapping_add, String, ◌≡◌, refl, Bool, true, false, ◌&&◌, ◌||◌, Option, none, some,
  Bool-cases, inl, inr, eq_iff, List, [], ◌∷◌, ◌++◌, map, all, contains, contains-append, ok, is_ok,
  arith, if◌then◌else◌, leb_ℤ, eq_ignore_ascii_case,
}
use mathlib.Core.List.{append_assoc, append-nil}
use the_membrane.Core.Iac.{
  model_allowed, tool_allowed, permits_channel, IntentAuthorizationCredential,
}
use the_membrane.Core.External.{External}
use the_membrane.Core.Signature.{verify_signature}
use the_membrane.Core.Reissue.{
  ReissueRequest, ReissueChange, reissue, add, field_changes, bound_caller, check_identifiers,
  plain_identifier, max_reissue_ttl_secs,
}

-- The requested entries that a list does not hold yet, each once.
abbrev pub fresh : List String → List String → List String
fresh list [] = []
fresh list (v ∷ extra) =
    let added = v ∷ fresh (list ++ v ∷ []) extra in
    let same = fresh list extra in if contains list v then same else added

abbrev pub absent : String → String → ReissueChange
absent name v = record { name = name; from = "(absent)"; to = v }

add_lem :
    (name : String) (list extra : List String) (changes : List ReissueChange)
    → add name list extra changes
      ≡ (list ++ fresh list extra, changes ++ map (absent name) (fresh list extra))
unfolding add
add_lem name list [] changes = simp append-nil
add_lem name list (v ∷ extra) changes = elim (Bool-cases (contains list v)) [
  | inl old ↦ rw old (add_lem name list extra changes)
  | inr new ↦
      rw new
        (simp append_assoc at (add_lem name (list ++ v ∷ []) extra (changes ++ absent name v ∷ [])))
]

contains-fresh :
    (list extra : List String) (s : String)
    → contains (list ++ fresh list extra) s ≡ (contains list s || contains extra s)
contains-fresh list [] s = rw append-nil (ground arith)
contains-fresh list (v ∷ extra) s = elim (Bool-cases (contains list v)) [
  | inl old ↦ rw old (ground (arith, contains-fresh list extra s, eq_iff v s))
  | inr new ↦ rw new (
      rw (← append_assoc list (v ∷ []) (fresh (list ++ v ∷ []) extra))
        (ground (arith, contains-fresh (list ++ v ∷ []) extra s, contains-append list (v ∷ []) s)))
]

check_identifiers-all : (vs : List String) → is_ok (check_identifiers vs) ≡ all plain_identifier vs
unfolding check_identifiers
check_identifiers-all [] = refl
check_identifiers-all (v ∷ vs) = ground (arith, check_identifiers-all vs)

module _ (c : IntentAuthorizationCredential) (caller : String) (req : ReissueRequest) where
  -- The credential that a re-issue is meant to give.
  abbrev pub successor : IntentAuthorizationCredential
  successor = record c {
    signature = none;
    caller_pubkey = some caller;
    valid_until = wrapping_add req.now req.ttl_secs;
    parent_cp_hash = req.parent_cp_hash;
    model_allowlist = c.model_allowlist ++ fresh c.model_allowlist req.add_models;
    tool_allowlist = c.tool_allowlist ++ fresh c.tool_allowlist req.add_tools;
    permitted_channels = c.permitted_channels ++ fresh c.permitted_channels req.add_channels;
  }

  abbrev pub successor_changes : List ReissueChange
  successor_changes =
      ((field_changes c caller (wrapping_add req.now req.ttl_secs) req.parent_cp_hash
          ++ map (absent "model_allowlist") (fresh c.model_allowlist req.add_models))
        ++ map (absent "tool_allowlist") (fresh c.tool_allowlist req.add_tools))
      ++ map (absent "permitted_channels") (fresh c.permitted_channels req.add_channels)

abbrev pub additions : ReissueRequest → List String
additions req = req.add_models ++ (req.add_tools ++ req.add_channels)

abbrev pub caller_agrees : Option String → Option String → Bool
caller_agrees (some old) (some new) = eq_ignore_ascii_case old new
caller_agrees none none = false
caller_agrees _ _ = true

module _ (x : External) (c : IntentAuthorizationCredential) (operator : String)
    (req : ReissueRequest) where
  -- A credential is re-issued exactly if the operator signed the old one, the lifetime lies between
  -- a second and a week, every addition is a plain identifier, and a caller is known and the same.
  pub reissue_accepts : is_ok (reissue x c operator req) ≡ (
      is_ok (verify_signature x c operator)
      && (leb_ℤ (pos 1) req.ttl_secs && leb_ℤ req.ttl_secs max_reissue_ttl_secs)
      && all plain_identifier (additions req)
      && caller_agrees c.caller_pubkey req.caller_pubkey)
  unfolding reissue bound_caller
  reissue_accepts = ground (arith, check_identifiers-all (additions req))

  -- What it gives then is the old credential with the new lifetime, parent and caller and with the
  -- entries asked for that were not there, unsigned, and the changes are those, each listed once.
  pub reissue_lem :
      (caller : String)
      → bound_caller c.caller_pubkey req.caller_pubkey ≡ ok caller
      → is_ok (reissue x c operator req) ≡ true
      → reissue x c operator req ≡ ok (successor c caller req, successor_changes c caller req)
  unfolding reissue
  reissue_lem caller bound accepted =
      let changes = field_changes c caller (wrapping_add req.now req.ttl_secs) req.parent_cp_hash in
      let models = add_lem "model_allowlist" c.model_allowlist req.add_models changes in
      let changes' =
        changes ++ map (absent "model_allowlist") (fresh c.model_allowlist req.add_models) in
      let tools = add_lem "tool_allowlist" c.tool_allowlist req.add_tools changes' in
      let changes'' =
        changes' ++ map (absent "tool_allowlist") (fresh c.tool_allowlist req.add_tools) in
      let channels = add_lem "permitted_channels" c.permitted_channels req.add_channels changes'' in
      ground (arith, models, tools, channels)

  -- Nothing is lost and nothing is gained but the additions asked for: a re-issued credential allows
  -- a model, tool or channel exactly if the old one did or the request adds it.
  pub reissue_allows :
      (caller entry : String)
      → bound_caller c.caller_pubkey req.caller_pubkey ≡ ok caller
      → is_ok (reissue x c operator req) ≡ true
      → let next = successor c caller req in
        (reissue x c operator req ≡ ok (next, successor_changes c caller req))
        × (model_allowed next entry ≡ (model_allowed c entry || contains req.add_models entry))
        × (tool_allowed next entry ≡ (tool_allowed c entry || contains req.add_tools entry))
        × (permits_channel next entry
            ≡ (permits_channel c entry || contains req.add_channels entry))
        × (next.forbidden_exports ≡ c.forbidden_exports)
        × (next.scope_id ≡ c.scope_id)
        × (next.context_merkle_bound ≡ c.context_merkle_bound)
  unfolding model_allowed tool_allowed permits_channel
  reissue_allows caller entry bound accepted = (
    reissue_lem caller bound accepted,
    contains-fresh c.model_allowlist req.add_models entry,
    contains-fresh c.tool_allowlist req.add_tools entry,
    contains-fresh c.permitted_channels req.add_channels entry,
    refl,
    refl,
    refl,
  )
