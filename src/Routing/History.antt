-- ===== src/Routing/History.antt =====
-- What a routing table answers, told from the registrations that made it.
use mathlib.Core.List.{append_assoc, append-nil}
use rust_pipeline.Base.{
  Text, text_eq, text_eq_iff, contains, Bool, true, false, Bool-cases, ◌⊎◌, inl, inr, Option, none,
  some, List, [], ◌∷◌, ◌++◌, if◌then◌else◌, ◌≡◌, refl, sym, ap, ◌∙◌, arith,
}
use rust_pipeline.Base.HashMap
use rust_pipeline.Base.HashMap.{HashMap, get-insert, get-empty}
use rust_pipeline.Base.Result.{ok, err}
use rust_pipeline.Base.Split.{Free}
use rust_pipeline.Error.{PipelineResult, no_route, peer_violation}
use rust_pipeline.Thread.{dot}
use rust_pipeline.Routing.{
  ListenerEntry, RoutingTable, Registration, new, or_default, route_key_of, entry_of, collect_set,
  register, wanted_key, resolve, enforce_peers,
}

-- The entries under a key; none and the empty list answer alike.
abbrev pub entries_at : RoutingTable → Text → List ListenerEntry
entries_at table key = or_default (HashMap.get table.routes key)

-- The last registration of a name.
abbrev pub last_named : Text → List Registration → Option Registration
last_named name [] = none
last_named name (r ∷ rs) =
    let later = last_named name rs in
    elim later [ some q ↦ some q | none ↦ (if text_eq r.name name then some r else none) ]

-- The peer rule: a sender nobody registered, and one that is no agent, may write to everybody; an
-- agent may write to its declared peers only.
abbrev pub may_send : Option Registration → Text → Bool
may_send none to = true
may_send (some r) to = if r.is_agent then contains r.peers to else true

abbrev pub declared_peers : Option Registration → List Text
declared_peers none = []
declared_peers (some r) = r.peers

-- No text occurs twice.
abbrev pub Distinct : List Text → Type 0
Distinct [] = Unit
Distinct (t ∷ ts) = (contains ts t ≡ false) × Distinct ts

-- The texts of a list, each of them once.
abbrev pub IsSetOf : List Text → List Text → Type 0
IsSetOf set ts = ((t : Text) → contains set t ≡ contains ts t) × Distinct set

contains-same : (ts : List Text) (s t : Text) → text_eq s t ≡ true → contains ts s ≡ contains ts t
contains-same ts s t e = ap (contains ts) ((text_eq_iff s t).0 e)

contains-collect_set : (ts : List Text) (t : Text) → contains (collect_set ts) t ≡ contains ts t
unfolding collect_set contains
contains-collect_set [] t = refl
contains-collect_set (s ∷ ts) t =
    ground (arith, contains-collect_set ts t, contains-same (collect_set ts) s t)

collect_set-Distinct : (ts : List Text) → Distinct (collect_set ts)
unfolding collect_set
collect_set-Distinct [] = tt
collect_set-Distinct (t ∷ ts) = elim (Bool-cases (contains (collect_set ts) t)) [
  | inl known ↦ rw known (collect_set-Distinct ts)
  | inr fresh ↦ rw fresh (fresh, collect_set-Distinct ts)
]

not-Free-dot : (a b : Text) → ¬ Free b'.' (dot a b)
not-Free-dot [] b h = h.0 refl
not-Free-dot (c ∷ a) b h = not-Free-dot a b h.1

abbrev pub found : Text → List ListenerEntry → PipelineResult (List ListenerEntry)
found key [] = err (no_route key)
found key (e ∷ es) = ok (e ∷ es)

module _ (lower : Text → Text) where
  -- What is entered under a name, after the last registration of that name.
  abbrev named : Option ListenerEntry → Option Registration → Option ListenerEntry
  named before none = before
  named before (some r) = some (entry_of lower r)

  unfoldable pub build : RoutingTable → List Registration → RoutingTable
  build table [] = table
  build table (r ∷ rs) = build (register lower table r) rs

  -- The registrations under a key, in their order.
  abbrev pub matching : Text → List Registration → List ListenerEntry
  matching key [] = []
  matching key (r ∷ rs) =
      let rest = matching key rs in
      if text_eq (route_key_of lower r.name r.payload_tag) key
      then entry_of lower r ∷ rest
      else rest

  entries_at-register :
      (table : RoutingTable) (r : Registration) (key : Text)
      → entries_at (register lower table r) key ≡ (
          if text_eq (route_key_of lower r.name r.payload_tag) key
          then entries_at table key ++ (entry_of lower r ∷ [])
          else entries_at table key)
  unfolding register
  entries_at-register table r key =
      simp get-insert (ground (arith, text_eq_iff (route_key_of lower r.name r.payload_tag) key))

  entries_at-build :
      (table : RoutingTable) (rs : List Registration) (key : Text)
      → entries_at (build table rs) key ≡ entries_at table key ++ matching key rs
  unfolding build
  entries_at-build table [] key = sym (append-nil (entries_at table key))
  entries_at-build table (r ∷ rs) key =
      entries_at-build (register lower table r) rs key
      ∙ ap (λ (l : List ListenerEntry). l ++ matching key rs) (entries_at-register table r key)
      ∙ ground
          (arith, append_assoc (entries_at table key) (entry_of lower r ∷ []) (matching key rs))

  resolve-entries_at :
      (table : RoutingTable) (to : Option Text) (tag : Text)
      → resolve lower table to tag
        ≡ found (wanted_key lower to tag) (entries_at table (wanted_key lower to tag))
  unfolding resolve
  resolve-entries_at table to tag = ground arith

  by_name-build :
      (table : RoutingTable) (rs : List Registration) (name : Text)
      → HashMap.get (build table rs).by_name name
        ≡ named (HashMap.get table.by_name name) (last_named name rs)
  unfolding build register
  by_name-build table [] name = refl
  by_name-build table (r ∷ rs) name =
      by_name-build (register lower table r) rs name
      ∙ ap (λ (o : Option ListenerEntry). named o (last_named name rs))
          (get-insert table.by_name r.name name (entry_of lower r))
      ∙ ground arith

  -- `resolve` returns the listeners registered under the wanted key, all of them and in the order of
  -- their registrations, and `NoRoute` with that key if there are none.
  pub resolve-build :
      (rs : List Registration) (to : Option Text) (tag : Text)
      → resolve lower (build new rs) to tag
        ≡ found (wanted_key lower to tag) (matching (wanted_key lower to tag) rs)
  unfolding new
  resolve-build rs to tag =
      let key = wanted_key lower to tag in
      resolve-entries_at (build new rs) to tag
      ∙ ap (found key) (entries_at-build new rs key)
      ∙ ground (arith, get-empty {V = List ListenerEntry} key)

  enforced :
      (from to : Text) (table : RoutingTable) (last : Option Registration)
      → HashMap.get table.by_name from ≡ named none last
      → ((may_send last to ≡ true) × (enforce_peers table from to ≡ ok tt))
        ⊎ ((may_send last to ≡ false)
            × ((allowed : List Text) × (enforce_peers table from to
                  ≡ err (peer_violation from to allowed))
                × IsSetOf allowed (declared_peers last)))
  unfolding enforce_peers
  enforced from to table none e = inl (refl, rw (enforce_peers, e) refl)
  enforced from to table (some r) e = elim (Bool-cases r.is_agent) [
    | inr free ↦ inl (rw free refl, rw (enforce_peers, e, free) refl)
    | inl agent ↦ elim (Bool-cases (contains r.peers to)) [
      | inl listed ↦ inl (
        rw agent listed,
        rw (enforce_peers, e, agent, contains-collect_set r.peers to, listed) refl,
      )
      | inr absent ↦ inr (
        rw agent absent,
        (
          collect_set r.peers,
          rw (enforce_peers, e, agent, contains-collect_set r.peers to, absent) refl,
          (contains-collect_set r.peers, collect_set-Distinct r.peers),
        ),
      )
    ]
  ]

  -- `enforce_peers` lets a message pass exactly if the last registration of the sender may send to
  -- the receiver. Otherwise it reports sender, receiver and the declared peers, each of them once,
  -- and no other names.
  pub enforce_peers-build :
      (rs : List Registration) (from to : Text)
      → ((may_send (last_named from rs) to ≡ true) × (enforce_peers (build new rs) from to ≡ ok tt))
        ⊎ ((may_send (last_named from rs) to ≡ false)
            × ((allowed : List Text) × (enforce_peers (build new rs) from to
                  ≡ err (peer_violation from to allowed))
                × IsSetOf allowed (declared_peers (last_named from rs))))
  unfolding enforce_peers new
  enforce_peers-build rs from to =
      enforced from to (build new rs) (last_named from rs)
        (by_name-build new rs from ∙ ap (λ o. named o (last_named from rs)) (get-empty from))

  matching-Free : (key : Text) (rs : List Registration) → Free b'.' key → matching key rs ≡ []
  matching-Free key [] free = refl
  matching-Free key (r ∷ rs) free = ground (
    arith,
    matching-Free key rs free,
    text_eq_iff (route_key_of lower r.name r.payload_tag) key,
    not-Free-dot (lower r.name) (lower r.payload_tag),
  )

  -- With no destination the key is the tag alone. If no dot stands in the lowered tag, such a
  -- message has no route, whatever has been registered.
  pub resolve_broadcast :
      (rs : List Registration) (tag : Text)
      → Free b'.' (lower tag)
      → resolve lower (build new rs) none tag ≡ err (no_route (lower tag))
  resolve_broadcast rs tag free =
      resolve-build rs none tag ∙ ap (found (lower tag)) (matching-Free (lower tag) rs free)
