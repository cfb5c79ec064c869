-- ===== src/Gate/Identity/Caller/Replay.antt =====
-- A proof is taken once, whatever is asked in between, while the clock does not go back.
use the_membrane.Prelude.{
  ℤ, leb_ℤ, ◌≤ℤ◌, String, Bool, true, false, some, [], ◌∷◌, length, List, ◌≤◌, Result, sym, ap, ok,
  err, is_ok, Map, retain, lookup, lookup-insert, lookup-retain, length-retain, length-insert,
  saturating_sub, saturating_sub_mono, eq_iff, arith, ◌≡◌, to_ascii_lowercase,
}
use the_membrane.Core.External.{External}
use the_membrane.Core.Caller.{CallerProof}
use the_membrane.Gate.Error.{GateError}
use the_membrane.Gate.Registry.{Gate}
use the_membrane.Gate.Identity.Caller.{
  Call, take_proof, authenticate_caller, conclude, check_proof, serve, replay_window,
  replay_capacity, is_stale, replay_key,
}

-- While the proof is not too old the cache holds its key.
abbrev Spent : String → ℤ → Map ℤ → ℤ → Type 0
Spent key issued replay now =
    leb_ℤ (saturating_sub now issued) replay_window ≡ true → lookup key replay ≡ some issued

abbrev keeps : ℤ → ℤ → Bool
keeps now issued = leb_ℤ (saturating_sub now issued) replay_window

lookup-kept :
    (key : String) (issued : ℤ) (replay : Map ℤ) (before now : ℤ)
    → Spent key issued replay before
    → before ≤ℤ now
    → keeps now issued ≡ true
    → lookup key (retain (keeps now) replay) ≡ some issued
lookup-kept key issued replay before now spent later fresh =
    lookup-retain (keeps now) key replay
      (spent (ground (arith, saturating_sub_mono now before issued issued))) fresh

take_proof-Spent :
    (key : String) (issued : ℤ) (replay : Map ℤ) (before : ℤ) (identity : String)
    (proof : CallerProof) (now : ℤ)
    → Spent key issued replay before
    → before ≤ℤ now
    → Spent key issued (take_proof replay identity proof now).1 now
unfolding take_proof
take_proof-Spent key issued replay before identity proof now spent later fresh =
    let kept = lookup-kept key issued replay before now spent later fresh in
    ground (
      arith,
      eq_iff (replay_key identity proof) key,
      lookup-insert (replay_key identity proof) key proof.timestamp (retain (keeps now) replay),
    )

take_proof-taken :
    (replay : Map ℤ) (identity : String) (proof : CallerProof) (now : ℤ) {who : String}
    → (take_proof replay identity proof now).0 ≡ ok who
    → (who ≡ identity)
      × (lookup (replay_key identity proof) (take_proof replay identity proof now).1
          ≡ some proof.timestamp)
unfolding take_proof
take_proof-taken replay identity proof now {who} h = ground (
  arith,
  eq_iff (replay_key identity proof) (replay_key identity proof),
  lookup-insert (replay_key identity proof) (replay_key identity proof) proof.timestamp
      (retain (keeps now) replay),
)

take_proof-refused :
    (issued : ℤ) (replay : Map ℤ) (before : ℤ) (identity : String) (proof : CallerProof) (now : ℤ)
    → Spent (replay_key identity proof) issued replay before
    → before ≤ℤ now
    → proof.timestamp ≤ℤ issued
    → is_stale proof now ≡ false
    → is_ok (take_proof replay identity proof now).0 ≡ false
unfolding take_proof is_stale
take_proof-refused issued replay before identity proof now spent later older h =
    let fresh : keeps now issued ≡ true =
      ground (arith, saturating_sub_mono now now proof.timestamp issued) in
    let kept = lookup-kept (replay_key identity proof) issued replay before now spent later fresh in
    ground arith

take_proof-length :
    (replay : Map ℤ) (identity : String) (proof : CallerProof) (now : ℤ)
    → length replay ≤ replay_capacity
    → length (take_proof replay identity proof now).1 ≤ replay_capacity
unfolding take_proof
take_proof-length replay identity proof now h = ground (
  arith,
  length-retain (keeps now) replay,
  length-insert (replay_key identity proof) proof.timestamp (retain (keeps now) replay),
)

conclude-length :
    (gate : Gate) (call : Call) (shown : Result GateError String)
    → length gate.replay ≤ replay_capacity
    → length (conclude gate call shown).1.replay ≤ replay_capacity
unfolding conclude
conclude-length gate call (err e) h = h
conclude-length gate call (ok identity) h =
    take_proof-length gate.replay identity call.proof call.now h

conclude-Spent :
    (key : String) (issued : ℤ) (gate : Gate) (before : ℤ) (call : Call)
    (shown : Result GateError String)
    → Spent key issued gate.replay before
    → before ≤ℤ call.now
    → Spent key issued (conclude gate call shown).1.replay call.now
unfolding conclude
conclude-Spent key issued gate before call (err e) spent later =
    λ fresh. spent (ground (arith, saturating_sub_mono call.now before issued issued))
conclude-Spent key issued gate before call (ok identity) spent later =
    take_proof-Spent key issued gate.replay before identity call.proof call.now spent later

conclude-taken :
    (gate : Gate) (call : Call) (shown : Result GateError String) {identity : String}
    → (conclude gate call shown).0 ≡ ok identity
    → (shown ≡ ok identity)
      × (lookup (replay_key identity call.proof) (conclude gate call shown).1.replay
          ≡ some call.proof.timestamp)
unfolding conclude
conclude-taken gate call (err e) taken = cc
conclude-taken gate call (ok shown) {identity} taken =
    let (same, stored) = take_proof-taken gate.replay shown call.proof call.now taken in
    (ap ok (sym same), rw same stored)

conclude-refused :
    (issued : ℤ) (gate : Gate) (before : ℤ) (call : Call) (shown : Result GateError String)
    {identity : String}
    → Spent (replay_key identity call.proof) issued gate.replay before
    → before ≤ℤ call.now
    → call.proof.timestamp ≤ℤ issued
    → is_stale call.proof call.now ≡ false
    → ¬ ((conclude gate call shown).0 ≡ ok identity)
unfolding conclude
conclude-refused issued gate before call (err e) spent later older fresh taken = cc
conclude-refused issued gate before call (ok who) spent later older fresh taken =
    let same = (take_proof-taken gate.replay who call.proof call.now taken).0 in
    let refused =
      take_proof-refused issued gate.replay before who call.proof call.now (rw (sym same) spent)
        later older fresh in
    ground arith

-- The calls come at times that do not go back from the given one.
unfoldable pub InOrder : ℤ → List Call → Type 0
InOrder before [] = Unit {0}
InOrder before (call ∷ rest) = (before ≤ℤ call.now) × InOrder call.now rest

abbrev pub last_time : ℤ → List Call → ℤ
last_time before [] = before
last_time before (call ∷ rest) = last_time call.now rest

module _ (x : External) where
  -- However many calls are served, the cache holds at most 10 000 proofs.
  pub serve-length :
      (gate : Gate) (calls : List Call)
      → length gate.replay ≤ replay_capacity
      → length (serve x gate calls).replay ≤ replay_capacity
  unfolding serve authenticate_caller
  serve-length gate [] h = h
  serve-length gate (call ∷ rest) h =
      serve-length (authenticate_caller x gate call).1 rest
        (conclude-length gate call (check_proof x gate call) h)

  serve-Spent :
      (key : String) (issued : ℤ) (gate : Gate) (before : ℤ) (calls : List Call)
      → Spent key issued gate.replay before
      → InOrder before calls
      → Spent key issued (serve x gate calls).replay (last_time before calls)
  unfolding serve InOrder authenticate_caller
  serve-Spent key issued gate before [] spent order = spent
  serve-Spent key issued gate before (call ∷ rest) spent order =
      serve-Spent key issued (authenticate_caller x gate call).1 call.now rest
        (conclude-Spent key issued gate before call (check_proof x gate call) spent order.0) order.1

  check_proof-fresh :
      (gate : Gate) (call : Call) {identity : String}
      → check_proof x gate call ≡ ok identity
      → is_stale call.proof call.now ≡ false
  unfolding check_proof
  check_proof-fresh gate call h = ground arith

  authenticate_caller-refused :
      (issued : ℤ) (gate : Gate) (before : ℤ) (call : Call) {identity : String}
      → Spent (replay_key identity call.proof) issued gate.replay before
      → before ≤ℤ call.now
      → call.proof.timestamp ≤ℤ issued
      → ¬ ((authenticate_caller x gate call).0 ≡ ok identity)
  unfolding authenticate_caller
  authenticate_caller-refused issued gate before call {identity} spent later older taken =
      let checked = (conclude-taken gate call (check_proof x gate call) taken).0 in
      conclude-refused issued gate before call (check_proof x gate call) spent later older
        (check_proof-fresh gate call checked) taken

  -- A proof is taken once. After a call that was accepted, and whatever calls were served since
  -- then, no call with the same nonce, in whatever case of its letters, and a timestamp that is not
  -- later is accepted for the same identity, as long as the clock does not go back from one call
  -- to the next.
  pub authenticate_caller-once :
      (gate : Gate) (first : Call) (between : List Call) (again : Call) {identity : String}
      → (authenticate_caller x gate first).0 ≡ ok identity
      → InOrder first.now between
      → last_time first.now between ≤ℤ again.now
      → to_ascii_lowercase again.proof.nonce ≡ to_ascii_lowercase first.proof.nonce
      → again.proof.timestamp ≤ℤ first.proof.timestamp
      → ¬ (
          (authenticate_caller x (serve x (authenticate_caller x gate first).1 between) again).0
          ≡ ok identity)
  unfolding authenticate_caller replay_key
  authenticate_caller-once gate first between again {identity} taken order later same older =
      let key = replay_key identity first.proof in
      let stored = (conclude-taken gate first (check_proof x gate first) taken).1 in
      let gate1 = (authenticate_caller x gate first).1 in
      let spent =
        serve-Spent key first.proof.timestamp gate1 first.now between (λ fresh. stored) order in
      authenticate_caller-refused first.proof.timestamp (serve x gate1 between)
        (last_time first.now between) again (rw same spent) later older
