-- ===== src/Core/Session/Anchor.antt =====
-- The anchor check and the parent hash of the next receipt.
use the_membrane.Prelude.{String, ◌≡◌, ◌==◌, eq_iff, Bool, true, ◌||◌, not, ok, is_ok, arith}
use the_membrane.Core.Hash.{genesis_cp_hash}
use the_membrane.Core.Session.{SessionChainState, validate_iac_anchor, next_parent_cp_hash}

module _ (c : SessionChainState) (parent : String) where
  -- The anchor of a credential is accepted exactly when the scope is not new, or when the
  -- credential names the current head of the chain.
  pub validate_iac_anchor_exact :
      (new_scope : Bool)
      → is_ok (validate_iac_anchor c parent new_scope) ≡ (not new_scope || parent == c.last_cp_hash)
  unfolding validate_iac_anchor
  validate_iac_anchor_exact new_scope = ground (
    arith,
    eq_iff parent genesis_cp_hash,
    eq_iff c.last_cp_hash genesis_cp_hash,
    eq_iff parent c.last_cp_hash,
  )

  -- A new scope that passes the anchor check extends the chain at its head.
  pub next_parent_cp_hash_anchored :
      validate_iac_anchor c parent true ≡ ok tt → next_parent_cp_hash c parent ≡ c.last_cp_hash
  unfolding validate_iac_anchor next_parent_cp_hash
  next_parent_cp_hash_anchored h = ground (
    arith,
    eq_iff parent genesis_cp_hash,
    eq_iff c.last_cp_hash genesis_cp_hash,
    eq_iff parent c.last_cp_hash,
  )
