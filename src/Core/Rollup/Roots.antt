-- ===== src/Core/Rollup/Roots.antt =====
-- The roots of the bus forget the order of the events.
use mathlib.Core.Path.{subst}
use mathlib.Core.Logic.{∥∥₁_elim}
use mathlib.Core.List.{Perm, Permᴰ, append_assoc, perm_append_comm}
use mathlib.Core.List.Perm
use text.Mathlib.TextEquality.{IsScalar-prop}
use the_membrane.Prelude.{
  String, ◌≡◌, refl, sym, Bool, true, Option, List, [], ◌∷◌, ◌++◌, Result, ok, err, ◌>>=◌, map_err,
  >>=-eq-ok, arith, if◌then◌else◌,
}
use the_membrane.Core.Event.{MembraneEvent}
use the_membrane.Core.External.{External, Bytes}
use the_membrane.Core.Hash.{digest, is_cp_event}
use the_membrane.Core.Merkle.{
  bus_event, cp_hash, Domain, prefixed_hash, from_prefixed_leaves, root_hex,
}
use the_membrane.Core.Merkle.Order.{from_prefixed_leaves-perm}
use the_membrane.Core.Rollup.{event_leaves, bus_root_from_events, cp_chain_root_from_events}

abbrev Leaves : Type 0
Leaves = Result String (List Bytes)

infixr 6 ◌⊕◌
abbrev ◌⊕◌ : Leaves → Leaves → Leaves
a ⊕ b = do u ← a; v ← b; ok (u ++ v)

-- `b` gives the leaves that `a` gives, in some order.
abbrev Follows : Leaves → Leaves → Type 0
Follows a b = (l : List Bytes) → a ≡ ok l → (m : List Bytes) × (b ≡ ok m) × Perm l m

perm_eq : {l m n : List Bytes} → ◌≡◌ {A = Leaves} (ok l) (ok m) → Perm l n → Perm m n
perm_eq {n = n} e p = subst (λ k. Perm k n) (cc) p

Follows-cons : (a r s : Leaves) → Follows r s → Follows (a ⊕ r) (a ⊕ s)
Follows-cons (ok u) (ok v) s f l h =
    let (w, e, p) = f v refl in (u ++ w, rw e, perm_eq h (Perm.append_left u p))
Follows-cons (ok u) (err e) s f l h = cc
Follows-cons (err e) r s f l h = cc

Follows-trans : {a b c : Leaves} → Follows a b → Follows b c → Follows a c
Follows-trans f g l h = let (m, e, r) = f l h in let (n, e', r') = g m e in (n, e', Perm.trans r r')

root_set : IsSet (Result String (Option String))
root_set = hlevel IsScalar-prop

swapped : (u v w : List Bytes) → Perm (u ++ (v ++ w)) (v ++ (u ++ w))
swapped u v w =
    rw (← append_assoc u v w)
      (rw (← append_assoc v u w) (Perm.append_right w (perm_append_comm u v)))

Follows-swap : (a b r : Leaves) → Follows (a ⊕ (b ⊕ r)) (b ⊕ (a ⊕ r))
Follows-swap (ok u) (ok v) (ok w) l h = (v ++ (u ++ w), refl, perm_eq h (swapped u v w))
Follows-swap (ok u) (ok v) (err e) l h = cc
Follows-swap (ok u) (err e) r l h = cc
Follows-swap (err e) b r l h = cc

module _ (x : External) (keep : MembraneEvent → Bool) (domain : Domain)
    (context : String → String) where
  abbrev leaves : List MembraneEvent → Leaves
  leaves = event_leaves x keep domain context

  abbrev one : MembraneEvent → Leaves
  one event =
      if keep event
      then (do bytes ← map_err context (digest x event); ok (prefixed_hash x domain bytes ∷ []))
      else ok []

  leaves-cons :
      (event : MembraneEvent) (events : List MembraneEvent)
      → leaves (event ∷ events) ≡ one event ⊕ leaves events
  unfolding event_leaves
  leaves-cons event events = ground arith

  leaves-Permᴰ : {es fs : List MembraneEvent} → Permᴰ es fs → Follows (leaves es) (leaves fs)
  leaves-Permᴰ Permᴰ.nil = λ l h. (l, h, Perm.refl l)
  leaves-Permᴰ (Permᴰ.cons {a = a} {b = b} {l₁ = es} {l₂ = fs} e p) =
      subst (λ c. Follows (leaves (a ∷ es)) (leaves (c ∷ fs))) e
        (rw (leaves-cons a es)
          (rw (leaves-cons a fs) (Follows-cons (one a) (leaves es) (leaves fs) (leaves-Permᴰ p))))
  leaves-Permᴰ (Permᴰ.swap {a = a} {b = b} {b' = b'} {l = es} e f) =
      subst (λ u. Follows (leaves (a ∷ b ∷ es)) (leaves (u ∷ b' ∷ es))) f
        (subst (λ v. Follows (leaves (a ∷ b ∷ es)) (leaves (b ∷ v ∷ es))) e
          (rw (leaves-cons a (b ∷ es)) (
            rw (leaves-cons b es) (
              rw (leaves-cons b (a ∷ es))
                (rw (leaves-cons a es) (Follows-swap (one a) (one b) (leaves es)))))))
  leaves-Permᴰ (Permᴰ.trans p q) = Follows-trans (leaves-Permᴰ p) (leaves-Permᴰ q)

  -- The root of the leaves of some events.
  abbrev root_of : List MembraneEvent → Result String (Option String)
  root_of events = do ls ← leaves events; ok (root_hex x (from_prefixed_leaves x ls))

  root_of-perm :
      {es fs : List MembraneEvent} {root : Option String}
      → Perm es fs
      → root_of es ≡ ok root
      → root_of fs ≡ ok root
  root_of-perm {es} {fs} {root} p h = ∥∥₁_elim p (root_set _ _) λ d.
      let (l, e, found) = >>=-eq-ok (leaves es) _ h in
      let (m, e', q) = leaves-Permᴰ d l e in rw e' (rw (sym (from_prefixed_leaves-perm x q)) found)

-- Events in another order have the same roots.
module _ (x : External) {es fs : List MembraneEvent} (p : Perm es fs) {root : Option String} where
  -- The root of the bus stays the same when its events come in another order.
  pub bus_root_from_events-perm :
      bus_root_from_events x es ≡ ok root → bus_root_from_events x fs ≡ ok root
  unfolding bus_root_from_events
  bus_root_from_events-perm = root_of-perm x (λ _. true) bus_event (λ e. e) p

  -- So does the root of the chain proofs.
  pub cp_chain_root_from_events-perm :
      cp_chain_root_from_events x es ≡ ok root → cp_chain_root_from_events x fs ≡ ok root
  unfolding cp_chain_root_from_events
  cp_chain_root_from_events-perm =
      root_of-perm x (λ e. is_cp_event e.event_type) cp_hash (λ _. "cp event digest") p
