-- ===== src/Core/Rollup.antt =====
-- membrane-core/src/bus.rs and rollup.rs: the roots over the events of a period, and the bundle.
pub mod Roots
pub mod Bundle
use the_membrane.Prelude.{
  ℕ, ℤ, leb_ℤ, ltb_ℤ, String, Bool, true, false, ◌&&◌, ◌||◌, not, Option, none, some, List, [], ◌∷◌,
  map, select, all, unwrap_or, eqb, Result, ok, err, ◌>>=◌, ◌>>◌, deny_if, map_err, format,
  all_chars, is_ascii_hexdigit, if◌then◌else◌,
}
use Prim.Native.String.{len}
use the_membrane.Core.Event.{MembraneEvent}
use the_membrane.Core.External.{External, Bytes}
use the_membrane.Core.Hash.{digest, cp_hash_hex, is_cp_event, genesis_cp_hash}
use the_membrane.Core.Merkle.{
  Domain, bus_event, cp_hash, prefixed_hash, from_prefixed_leaves, root_hex,
}

pub record RollupBundle : Type 0 where
  pub version : String
  pub subject_pubkey : String
  pub period_start : ℤ
  pub period_end : ℤ
  pub cp_chain_root : String
  pub last_bus_root : String
  pub last_cp_hash : String

abbrev pub bundle_version : String
bundle_version = "0.9.14"

unfoldable pub filter_events_in_period : List MembraneEvent → ℤ → ℤ → List MembraneEvent
filter_events_in_period events period_start period_end =
    select (λ e. leb_ℤ period_start e.timestamp && leb_ℤ e.timestamp period_end) events

abbrev pub last : List MembraneEvent → Option MembraneEvent
last [] = none
last (e ∷ []) = some e
last (e ∷ d ∷ rest) = last (d ∷ rest)

module _ (x : External) where
  -- The loop of both root functions: the kept events' digests, prefixed; `context` is what the
  -- caller makes of an error.
  unfoldable pub event_leaves :
      (MembraneEvent → Bool)
      → Domain
      → (String → String)
      → List MembraneEvent
      → Result String (List Bytes)
  event_leaves keep domain context [] = ok []
  event_leaves keep domain context (event ∷ events) =
      let rest = event_leaves keep domain context events in
      let kept = (do
        bytes ← map_err context (digest x event)
        leaves ← rest
        ok (prefixed_hash x domain bytes ∷ leaves)) in
      if keep event then kept else rest

  unfoldable pub bus_root_from_events : List MembraneEvent → Result String (Option String)
  bus_root_from_events events = do
    leaves ← event_leaves (λ _. true) bus_event (λ e. e) events
    ok (root_hex x (from_prefixed_leaves x leaves))

  unfoldable pub bus_root_from_digests : List Bytes → Option String
  bus_root_from_digests digests =
      root_hex x (from_prefixed_leaves x (map (prefixed_hash x bus_event) digests))

  unfoldable pub cp_chain_root_from_events : List MembraneEvent → Result String (Option String)
  cp_chain_root_from_events events = do
    leaves ← event_leaves (λ e. is_cp_event e.event_type) cp_hash (λ _. "cp event digest") events
    ok (root_hex x (from_prefixed_leaves x leaves))

  -- `.map(cp_hash_hex).transpose()?.unwrap_or_else(|| "0".repeat(64))`
  abbrev pub hash_of_last : Option MembraneEvent → Result String String
  hash_of_last none = ok genesis_cp_hash
  hash_of_last (some e) = map_err (λ _. "cp event digest") (cp_hash_hex x e)

  unfoldable pub build_rollup_bundle :
      List MembraneEvent → String → ℤ → ℤ → Result String RollupBundle
  unfolding filter_events_in_period
  build_rollup_bundle events subject_pubkey period_start period_end =
      let period_events = filter_events_in_period events period_start period_end in
      let cp_events = select (λ e. is_cp_event e.event_type) period_events in
      do
        cp_chain_root ← cp_chain_root_from_events period_events
        last_bus_root ← bus_root_from_events period_events
        last_cp_hash ← hash_of_last (last cp_events)
        ok (record {
          version = bundle_version;
          subject_pubkey = subject_pubkey;
          period_start = period_start;
          period_end = period_end;
          cp_chain_root = unwrap_or cp_chain_root genesis_cp_hash;
          last_bus_root = unwrap_or last_bus_root genesis_cp_hash;
          last_cp_hash = last_cp_hash;
        })

-- 64 hexadecimal digits
unfoldable pub is_hash_text : String → Bool
is_hash_text s = eqb (len s) 64 && all_chars is_ascii_hexdigit s

unfoldable pub check_fields : List String → Result String (Unit {0})
unfolding is_hash_text
check_fields [] = ok tt
check_fields (s ∷ rest) =
    let others = check_fields rest in
    if not (is_hash_text s)
    then err (format ("rollup field must be 64 hex chars: " ∷ s ∷ []))
    else others

unfoldable pub validate_rollup_bundle : RollupBundle → Result String (Unit {0})
unfolding check_fields
validate_rollup_bundle b = do
  check_fields (b.cp_chain_root ∷ b.last_bus_root ∷ b.last_cp_hash ∷ b.subject_pubkey ∷ [])
  deny_if (ltb_ℤ b.period_end b.period_start) "period_end before period_start"
