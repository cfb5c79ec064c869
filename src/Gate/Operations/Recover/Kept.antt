-- ===== src/Gate/Operations/Recover/Kept.antt =====
-- What a recovery keeps of the journal: every cut-off scope, every owner, and the chain of hashes.
use the_membrane.Prelude.{
  String, ◌==◌, Bool, true, false, ◌||◌, not, Option, List, [], ◌∷◌, any, ok, deny_if, map_err,
  >>=-eq-ok, >>-eq-ok, contains_key, lookup-insert, arith, ◌≡◌, eq_iff,
}
use the_membrane.Core.Event.{MembraneEvent, MembranePayload, router, generic}
use the_membrane.Core.External.{External}
use the_membrane.Core.Hash.{cp_hash_hex}
use the_membrane.Core.Session.{begin_scope, record_cp, mark_degraded, is_scope_degraded}
use the_membrane.Core.Signature.{verify_membrane_event_signature}
use the_membrane.Gate.Error.{bus}
use the_membrane.Gate.Operations.{
  Record, intent, outcome, review, publishing, publication_aborted, checkpoint, sever, failure,
}
use the_membrane.Gate.Operations.Recover.{
  Recovery, fresh, claim_scope, recover_record, recover_records,
}

abbrev pub severs_scope : String → Record → Bool
severs_scope scope (sever s reason at) = s == scope
severs_scope scope _ = false

abbrev pub checkpoints : List Record → List MembraneEvent
checkpoints [] = []
checkpoints (checkpoint token caller event id ∷ rs) = event ∷ checkpoints rs
checkpoints (_ ∷ rs) = checkpoints rs

module _ (x : External) where
  -- Each event names the hash of the one before it, the first one `prev`; `last` is the hash of the
  -- last one, `prev` where there is none.
  pub IsLinked : String → List MembraneEvent → String → Type 0
  IsLinked prev [] last = prev ≡ last
  IsLinked prev (event ∷ rest) last =
      (event.prev_cp_hash ≡ prev)
      × ((hash : String) × (cp_hash_hex x event ≡ ok hash) × IsLinked hash rest last)

  module _ (operator : String) where
    claim_scope-kept :
        (scope : String) (r : Recovery) (caller prev : String) (payload : MembranePayload)
        {next : Recovery}
        → claim_scope r caller prev payload ≡ ok next
        → (next.chain.degraded_scopes ≡ r.chain.degraded_scopes)
          × (next.chain.last_cp_hash ≡ r.chain.last_cp_hash)
    unfolding claim_scope begin_scope
    claim_scope-kept scope r caller prev (generic value) h = (ground arith, ground arith)
    claim_scope-kept scope r caller prev (router p) h = (ground arith, ground arith)

    recover_record-severed :
        (scope : String) (r : Recovery) (q : Record) {next : Recovery}
        → recover_record x operator r q ≡ ok next
        → (severs_scope scope q || contains_key scope r.chain.degraded_scopes) ≡ true
        → contains_key scope next.chain.degraded_scopes ≡ true
    unfolding recover_record record_cp mark_degraded
    recover_record-severed scope r (sever s reason at) h k =
        ground (arith, eq_iff s scope, lookup-insert s scope (reason, at) r.chain.degraded_scopes)
    recover_record-severed scope r (checkpoint token caller event id) h k =
        let (verified, h1) =
          >>-eq-ok (map_err bus (verify_membrane_event_signature x event operator)) _ h in
        let (linked, h2) =
          >>-eq-ok
            (deny_if (not (event.prev_cp_hash == r.chain.last_cp_hash))
              (failure "checkpoint chain discontinuity"))
            _ h1 in
        let (claimed, c, h3) =
          >>=-eq-ok (claim_scope r caller event.prev_cp_hash event.payload) _ h2 in
        let kept = (claim_scope-kept scope r caller event.prev_cp_hash event.payload c).0 in
        ground arith
    recover_record-severed scope r (intent _ _ _ _) h k = ground arith
    recover_record-severed scope r (outcome _ _) h k = ground arith
    recover_record-severed scope r (review _ _) h k = ground arith
    recover_record-severed scope r (publishing _) h k = ground arith
    recover_record-severed scope r (publication_aborted _) h k = ground arith

    recover_records-severed :
        (scope : String) (r : Recovery) (rs : List Record) {next : Recovery}
        → recover_records x operator r rs ≡ ok next
        → (any (severs_scope scope) rs || contains_key scope r.chain.degraded_scopes) ≡ true
        → contains_key scope next.chain.degraded_scopes ≡ true
    unfolding recover_records
    recover_records-severed scope r [] h k = ground arith
    recover_records-severed scope r (q ∷ rs) h k =
        let (middle, step, h1) = >>=-eq-ok (recover_record x operator r q) _ h in
        recover_records-severed scope middle rs h1
          (ground (arith, recover_record-severed scope r q step))

    -- A scope that the journal cuts off anywhere is degraded in the recovered state, whatever was
    -- recorded before or after it.
    pub recover-is_scope_degraded :
        (scope : String) (rs : List Record) {next : Recovery}
        → recover_records x operator fresh rs ≡ ok next
        → any (severs_scope scope) rs ≡ true
        → is_scope_degraded next.chain scope ≡ true
    unfolding is_scope_degraded
    recover-is_scope_degraded scope rs h k =
        ground (arith, recover_records-severed scope fresh rs h)

    recover_record-checkpoint :
        (r : Recovery) (token caller : String) (event : MembraneEvent) (id : Option String)
        {next : Recovery}
        → recover_record x operator r (checkpoint token caller event id) ≡ ok next
        → (event.prev_cp_hash ≡ r.chain.last_cp_hash)
          × (cp_hash_hex x event ≡ ok next.chain.last_cp_hash)
          × (verify_membrane_event_signature x event operator ≡ ok tt)
    unfolding recover_record record_cp
    recover_record-checkpoint r token caller event id {next} h =
        let (verified, h1) =
          >>-eq-ok (map_err bus (verify_membrane_event_signature x event operator)) _ h in
        let (linked, h2) =
          >>-eq-ok
            (deny_if (not (event.prev_cp_hash == r.chain.last_cp_hash))
              (failure "checkpoint chain discontinuity"))
            _ h1 in
        let (claimed, c, h3) =
          >>=-eq-ok (claim_scope r caller event.prev_cp_hash event.payload) _ h2 in
        let (hash, hashed, h4) = >>=-eq-ok (map_err bus (cp_hash_hex x event)) _ h3 in
        (ground (arith, eq_iff event.prev_cp_hash r.chain.last_cp_hash), ground arith, ground arith)

    -- The checkpoints that a recovery accepts form one chain from the recovery's last hash to the
    -- new one: each names the hash of the one before it.
    pub recover_records-IsLinked :
        (r : Recovery) (rs : List Record) {next : Recovery}
        → recover_records x operator r rs ≡ ok next
        → IsLinked r.chain.last_cp_hash (checkpoints rs) next.chain.last_cp_hash
    unfolding recover_records IsLinked recover_record mark_degraded
    recover_records-IsLinked r [] h = ground arith
    recover_records-IsLinked r (checkpoint token caller event id ∷ rs) h =
        let (middle, step, h1) =
          >>=-eq-ok (recover_record x operator r (checkpoint token caller event id)) _ h in
        let (linked, hashed, verified) = recover_record-checkpoint r token caller event id step in
        (linked, (middle.chain.last_cp_hash, hashed, recover_records-IsLinked middle rs h1))
    recover_records-IsLinked r (sever s reason at ∷ rs) h = recover_records-IsLinked _ rs h
    recover_records-IsLinked r (intent _ _ _ _ ∷ rs) h = recover_records-IsLinked r rs h
    recover_records-IsLinked r (outcome _ _ ∷ rs) h = recover_records-IsLinked r rs h
    recover_records-IsLinked r (review _ _ ∷ rs) h = recover_records-IsLinked r rs h
    recover_records-IsLinked r (publishing _ ∷ rs) h = recover_records-IsLinked _ rs h
    recover_records-IsLinked r (publication_aborted _ ∷ rs) h = recover_records-IsLinked _ rs h
