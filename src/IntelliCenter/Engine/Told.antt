-- ===== src/IntelliCenter/Engine/Told.antt =====
-- What a push and a refresh tell: `handlePush` and `RefreshBody` of engine.go, over the runs of
-- updates that they are.
use pentameter.Prelude.{
  ℕ, ◌<◌, String, true, Option, none, some, List, [], ◌∷◌, ◌++◌, ◌≡◌, ◌≢◌, refl, ap, ◌∙◌, arith,
  eq_iff, length, get_elem?, All, inl, inr, Option-cases,
}
use pentameter.Prelude.Map.{Map, lookup, insert, lookup-insert}
use pentameter.Prelude.Float.{Floats}
use pentameter.IntelliCenter.Types.{Kind, body, ObjectData}
use pentameter.IntelliCenter.Parse.{param, body_from}
use pentameter.IntelliCenter.Json.{Fields}
use pentameter.IntelliCenter.Engine.{
  Engine, Change, body_change, merged, absorb, apply, apply_and_emit, reparse, emit,
  engine_sub_buffer,
}
use pentameter.IntelliCenter.Engine.Scan.{refresh_from}
use pentameter.IntelliCenter.Engine.Push.{apply_pushed, handle_push, extract_push_objects}
use pentameter.IntelliCenter.Engine.Replay.{Update, apply_updates, get_elem?-offer_all}

-- The update of an object, if it has a kind, before the others.
abbrev pub update_of : Option Kind → ObjectData → List Update → List Update
update_of none o us = us
update_of (some k) o us = (k, o.obj_name, o.params) ∷ us

-- The updates of the objects that have a kind.
abbrev pub known : Map Kind → List ObjectData → List Update
known kinds [] = []
known kinds (o ∷ objs) = update_of (lookup o.obj_name kinds) o (known kinds objs)

-- Two tables of kinds that give the same kind for every id give the same updates.
known-cong :
    (kinds kinds' : Map Kind) (objs : List ObjectData)
    → ((id : String) → lookup id kinds ≡ lookup id kinds')
    → known kinds objs ≡ known kinds' objs
known-cong kinds kinds' [] same = refl
known-cong kinds kinds' (o ∷ objs) same =
    ground (arith, same o.obj_name, known-cong kinds kinds' objs same)

lookup-insert_known :
    (id j : String) (k : Kind) (kinds : Map Kind)
    → lookup id kinds ≡ some k
    → lookup j (insert id k kinds) ≡ lookup j kinds
lookup-insert_known id j k kinds h = ground (arith, lookup-insert id j k kinds, eq_iff id j)

-- The objects of a response that a refresh of a body passes over.
abbrev pub PassedOver : String → ObjectData → Type 0
PassedOver id o = o.obj_name ≡ id → param "SNAME" o.params ≡ ""

module _ {F : Type 0} ⦃fl : Floats F⦄ where
  kind-apply_and_emit :
      (k : Kind) (id : String) (p : Map String) (e : Engine F)
      → (apply_and_emit k id p e).kind ≡ insert id k e.kind
  unfolding apply_and_emit apply absorb emit
  kind-apply_and_emit k id p e = ground arith

  apply_pushed_updates :
      (objs : List ObjectData) (e : Engine F)
      → apply_pushed objs e ≡ apply_updates (known e.kind objs) e
  unfolding apply_pushed apply_updates
  apply_pushed_updates [] e = refl
  apply_pushed_updates (o ∷ objs) e = elim (Option-cases (lookup o.obj_name e.kind)) [
    | inl nothing ↦ rw nothing (apply_pushed_updates objs e)
    | inr (k, found) ↦
        let e' = apply_and_emit k o.obj_name o.params e in
        let same : known e'.kind objs ≡ known e.kind objs = known-cong e'.kind e.kind objs (λ id.
          ap (lookup id) (kind-apply_and_emit k o.obj_name o.params e)
          ∙ lookup-insert_known o.obj_name id k e.kind found) in
        rw found (apply_pushed_updates objs e' ∙ ap (λ us. apply_updates us e') same)
  ]

  -- A push is the run of the updates of exactly those of its objects that have a kind already, in
  -- the order of the message; the others change nothing.
  pub handle_push_updates :
      (msg : Fields) (e : Engine F)
      → handle_push msg e ≡ apply_updates (known e.kind (extract_push_objects msg)) e
  unfolding handle_push
  handle_push_updates msg e = apply_pushed_updates (extract_push_objects msg) e

  refresh_from-finds :
      (id : String) (before after : List ObjectData) (o : ObjectData) (e : Engine F)
      → All (PassedOver id) before
      → o.obj_name ≡ id
      → param "SNAME" o.params ≢ ""
      → refresh_from id (before ++ o ∷ after) e ≡ apply body id o.params true e
  unfolding refresh_from
  refresh_from-finds id [] after o e h here is_named =
      ground (arith, eq_iff o.obj_name id, eq_iff (param "SNAME" o.params) "")
  refresh_from-finds id (x ∷ before) after o e h here is_named = ground (
    arith,
    eq_iff x.obj_name id,
    eq_iff (param "SNAME" x.params) "",
    h.0,
    refresh_from-finds id before after o e h.1 here is_named,
  )

  -- If the controller's answer has the body with a name, every subscriber with room is told the body
  -- as it is now, even if it did not change.
  pub refresh_from_tells :
      (id : String) (before after : List ObjectData) (o : ObjectData) (e : Engine F) (i : ℕ)
      (queue : List (Change F))
      → All (PassedOver id) before
      → o.obj_name ≡ id
      → param "SNAME" o.params ≢ ""
      → get_elem? e.subs i ≡ some queue
      → length queue < engine_sub_buffer
      → get_elem? (refresh_from id (before ++ o ∷ after) e).subs i
        ≡ some (queue ++ body_change (body_from id (merged id o.params e)) ∷ [])
  unfolding apply absorb emit reparse
  refresh_from_tells id before after o e i queue h here is_named at room =
      rw (refresh_from-finds id before after o e h here is_named) (
        ground (
          arith,
          get_elem?-offer_all (body_change (body_from id (merged id o.params e))) e.subs i queue at
              room,
        ))
