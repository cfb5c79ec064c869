-- ===== src/Gate/Operations/Reserve/Once.antt =====
-- An operation is reserved once, whatever is appended in between.
use the_membrane.Prelude.{
  String, true, false, some, List, [], ◌∷◌, ◌||◌, any, any-append, Result, ok, err, is_ok, ok_or,
  >>=-eq-ok, Result-cases, inl, inr, arith, ◌≡◌, refl, sym, ap, eq_iff,
}
use the_membrane.Core.External.{External}
use the_membrane.Gate.Error.{GateError}
use the_membrane.Gate.Github.{ToolInvokeRequest}
use the_membrane.Gate.Operations.{
  Record, intent, Codec, frame_of, Journal, Io, failure, operation_key, records, append,
}
use the_membrane.Gate.Operations.Append.{append-Found, append-unread, Found, Extended, IsRead}
use the_membrane.Gate.Operations.Reserve.{
  IntentLaws, is_intent, valid_id, reserve_key, commit_intent, reserve_in_scope,
}

module _ (x : External) (codec : Codec) where
  -- Every reading of the journal that succeeds finds the intent.
  abbrev IsReserved : String → Journal → Type 0
  IsReserved key j =
      (reading : Io) (rs : List Record)
      → records x codec reading j ≡ ok rs
      → any (is_intent key) rs ≡ true

  -- The journal after the appends, each with what the file system answered.
  unfoldable pub appends : Journal → List (Io × Record) → Journal
  appends j [] = j
  appends j ((io, r) ∷ rest) = appends (append x codec io j r).1 rest

  module _ (laws : IntentLaws codec) where
    Extended-intent :
        (key : String) (r : Record) (rs qs : List Record)
        → Extended x codec rs r qs
        → any (is_intent key) qs ≡ (any (is_intent key) rs || is_intent key r)
    unfolding Extended IsRead
    Extended-intent key r rs qs
          (q, (sequence, previous, sum, line, read, printed, is_read, same), grown) =
        let kept =
          laws.is_intent-read key (frame_of r sequence previous sum) read line printed is_read in
        ground (arith, any-append (is_intent key) rs (q ∷ []))

    Found-intent :
        (key : String) (r : Record) (rs qs : List Record) (answer : Result GateError (Unit {0}))
        → Found x codec rs r qs answer
        → any (is_intent key) rs ≡ true
        → any (is_intent key) qs ≡ true
    unfolding Found
    Found-intent key r rs qs answer (inl same, whole) before = ground arith
    Found-intent key r rs qs answer (inr more, whole) before =
        ground (arith, Extended-intent key r rs qs more)

    written_whole :
        (r : Record) (rs qs : List Record) (answer : Result GateError (Unit {0}))
        → Found x codec rs r qs answer
        → answer ≡ ok tt
        → Extended x codec rs r qs
    unfolding Found
    written_whole r rs qs answer (found, whole) appended = whole appended

    append-IsReserved :
        (key : String) (io : Io) (j : Journal) (r : Record)
        → IsReserved key j
        → IsReserved key (append x codec io j r).1
    append-IsReserved key io j r reserved reading qs q =
        elim (Result-cases (records x codec io j)) [
          | inl (e, failed) ↦
              let same = append-unread x codec io j r failed in
              reserved reading qs (rw (sym same) q)
          | inr (rs, read) ↦
              let before = reserved io rs read in
              Found-intent key r rs qs _ (append-Found x codec io reading j r read q) before
        ]

    appends-IsReserved :
        (key : String) (j : Journal) (later : List (Io × Record))
        → IsReserved key j
        → IsReserved key (appends j later)
    unfolding appends
    appends-IsReserved key j [] reserved = reserved
    appends-IsReserved key j ((io, r) ∷ rest) reserved =
        appends-IsReserved key (append x codec io j r).1 rest
          (append-IsReserved key io j r reserved)

    reserve_key-read :
        (io : Io) (j : Journal) (caller : String) (req : ToolInvokeRequest) {key : String}
        → reserve_key x codec io j caller req ≡ ok key
        → (id : String) × (rs : List Record) × (valid_id req.operation_id ≡ some id)
          × (operation_key x codec caller id ≡ ok key)
          × (records x codec io j ≡ ok rs)
          × (any (is_intent key) rs ≡ false)
    unfolding reserve_key
    reserve_key-read io j caller req {key} h =
        let (id, valid, h1) =
          >>=-eq-ok
            (ok_or (valid_id req.operation_id)
              (failure "mutating tools require operation_id (1-128 bytes)"))
            _ h in
        let (k, keyed, h2) = >>=-eq-ok (operation_key x codec caller id) _ h1 in
        let (rs, read, h3) = >>=-eq-ok (records x codec io j) _ h2 in
        (id, rs, ground arith, ground arith, read, ground arith)

    commit_intent-refused :
        (io : Io) (j : Journal) (caller scope : String) (req : ToolInvokeRequest)
        (checked : Result GateError String) {e : GateError}
        → checked ≡ err e
        → is_ok (commit_intent x codec io j caller scope req checked).0 ≡ false
    unfolding commit_intent
    commit_intent-refused io j caller scope req (err e) h = refl
    commit_intent-refused io j caller scope req (ok k) h = cc

    commit_intent-IsReserved :
        (io : Io) (j : Journal) (caller scope : String) (req : ToolInvokeRequest)
        (checked : Result GateError String) {key : String}
        → reserve_key x codec io j caller req ≡ checked
        → (commit_intent x codec io j caller scope req checked).0 ≡ ok key
        → (checked ≡ ok key)
          × IsReserved key (commit_intent x codec io j caller scope req checked).1
    unfolding commit_intent
    commit_intent-IsReserved io j caller scope req (err e) c h = cc
    commit_intent-IsReserved io j caller scope req (ok k) {key} c h =
        let r = intent k caller scope req in
        let appended : (append x codec io j r).0 ≡ ok tt = ground arith in
        let same : k ≡ key = ground arith in
        let (id, rs, valid, keyed, read, new) = reserve_key-read io j caller req c in
        (
          ap ok same,
          λ reading qs q.
              let found = append-Found x codec io reading j r read q in
              let more = Extended-intent key r rs qs (written_whole r rs qs _ found appended) in
              ground (arith, more, eq_iff k key),
        )

    -- A caller reserves an operation id once. After a reservation that succeeded, and whatever was
    -- appended since then with or without failures of the file system, a reservation of the same id
    -- by the same caller, for whatever request and scope, is refused.
    pub reserve_in_scope-once :
        (io : Io) (j : Journal) (caller scope : String) (req : ToolInvokeRequest)
        (later : List (Io × Record)) (again : Io) (other_scope : String) (other : ToolInvokeRequest)
        {key : String}
        → (reserve_in_scope x codec io j caller scope req).0 ≡ ok key
        → other.operation_id ≡ req.operation_id
        → is_ok
            (reserve_in_scope x codec again
              (appends (reserve_in_scope x codec io j caller scope req).1 later)
              caller
              other_scope
              other).0
          ≡ false
    unfolding reserve_in_scope
    reserve_in_scope-once io j caller scope req later again other_scope other {key} h same =
        let (reserved, holds) =
          commit_intent-IsReserved io j caller scope req (reserve_key x codec io j caller req) refl
            h in
        let j1 = appends (reserve_in_scope x codec io j caller scope req).1 later in
        elim (Result-cases (reserve_key x codec again j1 caller other)) [
          | inl (e, refused) ↦ commit_intent-refused again j1 caller other_scope other _ refused
          | inr (k, taken) ↦
              let (id, rs, valid, keyed, read, new) = reserve_key-read io j caller req reserved in
              let (id1, rs1, valid1, keyed1, read1, new1) =
                reserve_key-read again j1 caller other taken in
              let found =
                appends-IsReserved key (reserve_in_scope x codec io j caller scope req).1 later
                  holds again rs1 read1 in
              let same_id : id1 ≡ id = ground arith in
              let same_key : k ≡ key = ground arith in ground arith
        ]
