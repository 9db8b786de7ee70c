-- ===== src/Monitor/Links.antt =====
-- The graph of circuits and pumps that `applyPumpAssociations` builds.
use pentameter.Prelude.{
  String, Bool, List, [], ◌∷◌, ◌++◌, ◌≡◌, ◌≢◌, ◌==◌, ◌&&◌, ◌||◌, any, arith, eq_iff,
}
use pentameter.Prelude.Map.{Map, lookup, lookup_or, lookup_or-insert}
use pentameter.IntelliCenter.Types.{ObjectData}
use pentameter.IntelliCenter.Parse.{param}
use pentameter.Monitor.State.{PoolMonitor}
use pentameter.Monitor.Pumps.{member, add_link, add_links, apply_pump_associations}

-- Some object links the circuit to the pump.
abbrev pub is_link : String → String → ObjectData → Bool
is_link circuit pump o = (param "CIRCUIT" o.params == circuit) && (param "PARENT" o.params == pump)

member-append :
    (x y : String) (xs : List String) → member x (xs ++ y ∷ []) ≡ (member x xs || (y == x))
unfolding member
member-append x y [] = ground arith
member-append x y (z ∷ xs) = ground (arith, member-append x y xs)

module _ (circuit pump : String) (named : circuit ≢ "") (pumped : pump ≢ "") where
  member-add_link :
      (o : ObjectData) (assoc : Map (List String))
      → member pump (lookup_or [] circuit (add_link o assoc))
        ≡ (member pump (lookup_or [] circuit assoc) || is_link circuit pump o)
  unfolding add_link
  member-add_link o assoc =
      let c = param "CIRCUIT" o.params in
      let p = param "PARENT" o.params in
      ground (
        arith,
        eq_iff c "",
        eq_iff p "",
        eq_iff c circuit,
        eq_iff p pump,
        lookup_or-insert [] c circuit (lookup_or [] c assoc ++ p ∷ []) assoc,
        member-append pump p (lookup_or [] c assoc),
      )

  member-add_links :
      (objs : List ObjectData) (assoc : Map (List String))
      → member pump (lookup_or [] circuit (add_links objs assoc))
        ≡ (member pump (lookup_or [] circuit assoc) || any (is_link circuit pump) objs)
  unfolding add_links
  member-add_links [] assoc = ground arith
  member-add_links (o ∷ objs) assoc =
      ground (arith, member-add_links objs (add_link o assoc), member-add_link o assoc)

  -- For ids that are not empty, a pump stands among the pumps of a circuit exactly if some object
  -- links the two.
  pub apply_pump_associations-link :
      {F : Type 0} (objs : List ObjectData) (m : PoolMonitor F)
      → member pump (lookup_or [] circuit (apply_pump_associations objs m).circuit_to_pumps)
        ≡ any (is_link circuit pump) objs
  unfolding apply_pump_associations member lookup_or lookup
  apply_pump_associations-link objs m = member-add_links objs []
