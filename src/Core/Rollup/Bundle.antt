-- ===== src/Core/Rollup/Bundle.antt =====
-- A bundle that was built passes the bundle check.
use mathlib.Core.Path.{subst}
use the_membrane.Prelude.{
  ℕ, zero, suc, ℤ, ◌≤ℤ◌, String, ◌≡◌, refl, Bool, true, false, Option, none, some, List, [], ◌∷◌,
  ◌++◌, All, length, Result, ok, err, ◌>>=◌, map_err, >>=-eq-ok, arith, if◌then◌else◌, select,
  unwrap_or, all_chars,
}
use the_membrane.Core.Event.{MembraneEvent}
use the_membrane.Core.External.{External, Bytes}
use the_membrane.Core.Hash.{digest, canonical_bytes, cp_hash_hex, is_cp_event, genesis_cp_hash}
use the_membrane.Core.Merkle.{
  Domain, bus_event, cp_hash, prefix, prefixed_hash, parent_hash, place, sort, next_level, climb,
  compute_root, from_prefixed_leaves, root_hex,
}
use the_membrane.Core.Rollup.{
  RollupBundle, event_leaves, bus_root_from_events, cp_chain_root_from_events, last, hash_of_last,
  filter_events_in_period, build_rollup_bundle, is_hash_text, validate_rollup_bundle,
}

-- SHA-256 gives 32 bytes, and `hex::encode` gives two hexadecimal digits for a byte.
abbrev pub HexDigests : External → Type 0
HexDigests x = (bytes : Bytes) → is_hash_text (x.hex_encode (x.sha256 bytes)) ≡ true

zeros_hash : is_hash_text genesis_cp_hash ≡ true
unfolding is_hash_text all_chars
zeros_hash = refl

module _ (x : External) (hex : HexDigests x) where
  abbrev IsDigest : Bytes → Type 0
  IsDigest h = is_hash_text (x.hex_encode h) ≡ true

  place-digests :
      (h : Bytes) (l : List Bytes) → IsDigest h → All IsDigest l → All IsDigest (place h l)
  unfolding place
  place-digests h [] d a = (d, tt)
  place-digests h (k ∷ l) d a = ground (arith, place-digests h l d)

  sort-digests : (l : List Bytes) → All IsDigest l → All IsDigest (sort l)
  unfolding sort
  sort-digests [] a = tt
  sort-digests (h ∷ l) a = place-digests h (sort l) a.0 (sort-digests l a.1)

  parent_hash-IsDigest : (a b : Bytes) → IsDigest (parent_hash x a b)
  unfolding parent_hash
  parent_hash-IsDigest a b = ground (arith, hex (a ++ b), hex (b ++ a))

  next_level-digests : (l : List Bytes) → All IsDigest (next_level x l)
  unfolding next_level
  next_level-digests [] = tt
  next_level-digests (a ∷ []) = (parent_hash-IsDigest a a, tt)
  next_level-digests (a ∷ b ∷ l) = (parent_hash-IsDigest a b, next_level-digests l)

  abbrev OptDigest : Option Bytes → Type 0
  OptDigest none = Unit
  OptDigest (some h) = IsDigest h

  climb-digest : (fuel : ℕ) (l : List Bytes) → All IsDigest l → OptDigest (climb x fuel l)
  unfolding climb
  climb-digest fuel [] a = tt
  climb-digest fuel (h ∷ []) a = a.0
  climb-digest zero (h ∷ k ∷ l) a = tt
  climb-digest (suc fuel) (h ∷ k ∷ l) a =
      climb-digest fuel (next_level x (h ∷ k ∷ l)) (next_level-digests (h ∷ k ∷ l))

  abbrev Digests : Result String (List Bytes) → Type 0
  Digests (ok l) = All IsDigest l
  Digests (err e) = Unit

  kept-Digests :
      (domain : Domain) (d : Result String Bytes) (rest : Result String (List Bytes))
      → Digests rest
      → Digests (do bytes ← d; leaves ← rest; ok (prefixed_hash x domain bytes ∷ leaves))
  unfolding prefixed_hash
  kept-Digests domain (ok bytes) (ok leaves) a = (hex (prefix domain ∷ bytes), a)
  kept-Digests domain (ok bytes) (err e) a = tt
  kept-Digests domain (err e) rest a = tt

  if-Digests :
      (b : Bool) (m n : Result String (List Bytes))
      → Digests m
      → Digests n
      → Digests (if b then m else n)
  if-Digests true m n p q = p
  if-Digests false m n p q = q

  event_leaves-Digests :
      (keep : MembraneEvent → Bool) (domain : Domain) (context : String → String)
      (events : List MembraneEvent)
      → Digests (event_leaves x keep domain context events)
  unfolding event_leaves
  event_leaves-Digests keep domain context [] = tt
  event_leaves-Digests keep domain context (event ∷ events) =
      let rest = event_leaves-Digests keep domain context events in
      if-Digests (keep event) _ (event_leaves x keep domain context events)
        (kept-Digests domain (map_err context (digest x event)) _ rest) rest

  abbrev OptHash : Option String → Type 0
  OptHash none = Unit
  OptHash (some s) = is_hash_text s ≡ true

  encoded-hash :
      (leaves : List Bytes) (root : Option Bytes)
      → OptDigest root
      → OptHash (root_hex x (record { leaves = leaves; root = root }))
  unfolding root_hex
  encoded-hash leaves none d = tt
  encoded-hash leaves (some h) d = d

  abbrev RootHash : Result String (Option String) → Type 0
  RootHash (ok root) = OptHash root
  RootHash (err e) = Unit

  root-hash :
      (m : Result String (List Bytes))
      → Digests m
      → RootHash (do leaves ← m; ok (root_hex x (from_prefixed_leaves x leaves)))
  unfolding from_prefixed_leaves
  root-hash (ok l) a =
      encoded-hash (sort l) (compute_root x (sort l))
        (unfold compute_root in climb-digest (length (sort l)) (sort l) (sort-digests l a))
  root-hash (err e) a = tt

  bus_root-hash : (events : List MembraneEvent) → RootHash (bus_root_from_events x events)
  unfolding bus_root_from_events
  bus_root-hash events = root-hash _ (event_leaves-Digests (λ _. true) bus_event (λ e. e) events)

  cp_chain_root-hash : (events : List MembraneEvent) → RootHash (cp_chain_root_from_events x events)
  unfolding cp_chain_root_from_events
  cp_chain_root-hash events =
      root-hash _ (
        event_leaves-Digests (λ e. is_cp_event e.event_type) cp_hash (λ _. "cp event digest")
          events)

  abbrev TextHash : Result String String → Type 0
  TextHash (ok s) = is_hash_text s ≡ true
  TextHash (err e) = Unit

  text-hash :
      (m : Result String Bytes)
      → TextHash (
          map_err
            (λ _. "cp event digest")
            (do bytes ← (do b ← m; ok (x.sha256 b)); ok (x.hex_encode bytes)))
  text-hash (ok bytes) = hex bytes
  text-hash (err e) = tt

  hash_of_last-hash : (e : Option MembraneEvent) → TextHash (hash_of_last x e)
  unfolding cp_hash_hex digest
  hash_of_last-hash none = zeros_hash
  hash_of_last-hash (some e) = text-hash (canonical_bytes x e)

  root_or_zeros :
      (m : Result String (Option String)) {root : Option String}
      → RootHash m
      → m ≡ ok root
      → is_hash_text (unwrap_or root genesis_cp_hash) ≡ true
  root_or_zeros (ok none) {root} h e = let same : root ≡ none = cc in rw same zeros_hash
  root_or_zeros (ok (some s)) {root} h e = let same : root ≡ some s = cc in rw same h
  root_or_zeros (err e) h e' = cc

  -- Whatever the events, a bundle built for a subject whose key is 64 hexadecimal digits, over a
  -- period that does not end before it starts, passes the check.
  pub validate_rollup_bundle-build :
      (events : List MembraneEvent) (subject : String) (start end : ℤ) {bundle : RollupBundle}
      → is_hash_text subject ≡ true
      → start ≤ℤ end
      → build_rollup_bundle x events subject start end ≡ ok bundle
      → validate_rollup_bundle bundle ≡ ok tt
  unfolding validate_rollup_bundle build_rollup_bundle
  validate_rollup_bundle-build events subject start end key order h =
      let period = filter_events_in_period events start end in
      let newest = last (select (λ e. is_cp_event e.event_type) period) in
      let (chain, e₁, h₁) = >>=-eq-ok (cp_chain_root_from_events x period) _ h in
      let (bus, e₂, h₂) = >>=-eq-ok (bus_root_from_events x period) _ h₁ in
      let (head, e₃, h₃) = >>=-eq-ok (hash_of_last x newest) _ h₂ in
      let whole_chain = root_or_zeros _ (cp_chain_root-hash period) e₁ in
      let whole_bus = root_or_zeros _ (bus_root-hash period) e₂ in
      let whole_head : is_hash_text head ≡ true = subst TextHash e₃ (hash_of_last-hash newest) in
      ground (arith, whole_chain, whole_bus, whole_head)
