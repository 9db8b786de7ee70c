-- ===== src/IntelliCenter/Engine/Updates.antt =====
-- Scans, pushes and forced refreshes are runs of updates, so they keep what an update keeps.
use pentameter.Prelude.{
  String, Bool, true, false, Option, none, some, List, [], ◌∷◌, ◌++◌, ◌≡◌, refl, sym, ap, ◌∙◌, ◌==◌,
  ◌||◌, ◌&&◌, not, inl, inr, Bool-cases, if◌then◌else◌,
}
use pentameter.Prelude.Map.{Map, lookup}
use pentameter.Prelude.Float.{Floats}
use pentameter.IntelliCenter.Types.{Kind, ObjectData, kind_name, body, sensor, pmpcirc}
use pentameter.IntelliCenter.Parse.{param, pmp_circ_keys, body_keys}
use pentameter.IntelliCenter.Json.{Fields, Items}
use pentameter.IntelliCenter.Result.{Result, ok, err}
use pentameter.IntelliCenter.Client.{Client, query, do_raw}
use pentameter.IntelliCenter.Engine.{Engine, apply_and_emit}
use pentameter.IntelliCenter.Engine.Mirror.{IsValid, apply-IsValid}
use pentameter.IntelliCenter.Engine.Replay.{Update, apply_updates}
use pentameter.IntelliCenter.Engine.Scan.{
  ScanGroup, scan_groups, air_sensor_objnam, query_sensor, apply_named, scan_each, apply_sensor,
  scan_sensor, scan, apply_links, linked, scan_pump_circuits, refresh_from, refreshed, refresh_body,
}
use pentameter.IntelliCenter.Engine.Push.{
  apply_known, apply_pushed, handle_push, extract_push_objects,
}
use pentameter.IntelliCenter.Engine.Config.{
  with_answer, configured, load_config, configuration_request,
}

module _ {F : Type 0} ⦃fl : Floats F⦄ where
  -- One engine is another after a run of updates.
  abbrev pub Runs : Engine F → Engine F → Type 0
  Runs e e' = (us : List Update) × (e' ≡ apply_updates us e)

  apply_updates-append :
      (us vs : List Update) (e : Engine F)
      → apply_updates (us ++ vs) e ≡ apply_updates vs (apply_updates us e)
  unfolding apply_updates
  apply_updates-append [] vs e = refl
  apply_updates-append ((k, id, p) ∷ us) vs e = apply_updates-append us vs (apply_and_emit k id p e)

  Runs-refl : (e : Engine F) → Runs e e
  unfolding apply_updates
  Runs-refl e = ([], refl)

  Runs-apply :
      (k : Kind) (id : String) (p : Map String) (e : Engine F) → Runs e (apply_and_emit k id p e)
  unfolding apply_updates
  Runs-apply k id p e = ((k, id, p) ∷ [], refl)

  Runs-trans : (e e' e'' : Engine F) → Runs e e' → Runs e' e'' → Runs e e''
  Runs-trans e e' e'' (us, first) (vs, then') =
      (us ++ vs, then' ∙ ap (apply_updates vs) first ∙ sym (apply_updates-append us vs e))

  Runs-if :
      (b : Bool) (k : Kind) (id : String) (p : Map String) (e : Engine F)
      → Runs e (if b then e else apply_and_emit k id p e)
  Runs-if true k id p e = Runs-refl e
  Runs-if false k id p e = Runs-apply k id p e

  apply_named-Runs :
      (k : Kind) (objs : List ObjectData) (e : Engine F) → Runs e (apply_named k objs e)
  unfolding apply_named
  apply_named-Runs k [] e = Runs-refl e
  apply_named-Runs k (o ∷ objs) e =
      let e' = if param "SNAME" o.params == "" then e else apply_and_emit k o.obj_name o.params e in
      Runs-trans e e' _ (Runs-if (param "SNAME" o.params == "") k o.obj_name o.params e)
        (apply_named-Runs k objs e')

  scan_each-Runs :
      (groups : List ScanGroup) (c : Client) (e : Engine F) → Runs e (scan_each groups c e).2
  unfolding scan_each
  scan_each-Runs [] c e = Runs-refl e
  scan_each-Runs (g ∷ groups) c e =
      let c' = (query (kind_name g.kind) g.cond g.keys c).1 in
      elim (query (kind_name g.kind) g.cond g.keys c).0
        as (λ (r : Result (List ObjectData)).
          Runs e
            (elim r as (λ _. Result (Unit {0}) × Client × Engine F) [
              | err failure ↦ (err failure, c', e)
              | ok objs ↦ scan_each groups c' (apply_named g.kind objs e)
            ]).2) [
              | err failure ↦ Runs-refl e
              | ok objs ↦
                  Runs-trans e (apply_named g.kind objs e) _ (apply_named-Runs g.kind objs e)
                    (scan_each-Runs groups c' (apply_named g.kind objs e))
            ]

  apply_sensor-Runs : (found : Option (Map String)) (e : Engine F) → Runs e (apply_sensor found e)
  unfolding apply_sensor
  apply_sensor-Runs none e = Runs-refl e
  apply_sensor-Runs (some p) e = Runs-apply sensor air_sensor_objnam p e

  scan_sensor-Runs :
      (r : Result (Unit {0})) (c : Client) (e : Engine F) → Runs e (scan_sensor (r, c, e)).2
  unfolding scan_sensor
  scan_sensor-Runs (err failure) c e = Runs-refl e
  scan_sensor-Runs (ok _) c e = apply_sensor-Runs (query_sensor air_sensor_objnam c).0 e

  -- A scan, whether it fails or not, is a run of updates.
  pub scan-Runs : (c : Client) (e : Engine F) → Runs e (scan c e).2
  unfolding scan
  scan-Runs c e =
      let (r, c', e') = scan_each scan_groups c e in
      Runs-trans e e' _ (scan_each-Runs scan_groups c e) (scan_sensor-Runs r c' e')

  apply_links-Runs : (objs : List ObjectData) (e : Engine F) → Runs e (apply_links objs e)
  unfolding apply_links
  apply_links-Runs [] e = Runs-refl e
  apply_links-Runs (o ∷ objs) e =
      let unlinked = (param "CIRCUIT" o.params == "") || (param "PARENT" o.params == "") in
      let e' = if unlinked then e else apply_and_emit pmpcirc o.obj_name o.params e in
      Runs-trans e e' _ (Runs-if unlinked pmpcirc o.obj_name o.params e) (apply_links-Runs objs e')

  linked-Runs :
      (r : Result (List ObjectData)) (c : Client) (e : Engine F) → Runs e (linked (r, c) e).1
  unfolding linked
  linked-Runs (ok objs) c e = apply_links-Runs objs e
  linked-Runs (err failure) c e = Runs-refl e

  scan_pump_circuits-Runs : (c : Client) (e : Engine F) → Runs e (scan_pump_circuits c e).1
  unfolding scan_pump_circuits
  scan_pump_circuits-Runs c e =
      let (r, c') = query (kind_name pmpcirc) "OBJTYP=PMPCIRC" pmp_circ_keys c in linked-Runs r c' e

  apply_known-Runs : (k : Option Kind) (o : ObjectData) (e : Engine F) → Runs e (apply_known k o e)
  unfolding apply_known
  apply_known-Runs none o e = Runs-refl e
  apply_known-Runs (some k) o e = Runs-apply k o.obj_name o.params e

  apply_pushed-Runs : (objs : List ObjectData) (e : Engine F) → Runs e (apply_pushed objs e)
  unfolding apply_pushed
  apply_pushed-Runs [] e = Runs-refl e
  apply_pushed-Runs (o ∷ objs) e =
      let e' = apply_known (lookup o.obj_name e.kind) o e in
      Runs-trans e e' _ (apply_known-Runs (lookup o.obj_name e.kind) o e)
        (apply_pushed-Runs objs e')

  -- A push message is a run of updates.
  pub handle_push-Runs : (msg : Fields) (e : Engine F) → Runs e (handle_push msg e)
  unfolding handle_push
  handle_push-Runs msg e = apply_pushed-Runs (extract_push_objects msg) e

  apply_updates-IsValid :
      (us : List Update) (e : Engine F) → IsValid e → IsValid (apply_updates us e)
  unfolding apply_updates apply_and_emit
  apply_updates-IsValid [] e h = h
  apply_updates-IsValid ((k, id, p) ∷ us) e h =
      apply_updates-IsValid us (apply_and_emit k id p e) (apply-IsValid k id p false e h)

  Runs-IsValid : (e e' : Engine F) → Runs e e' → IsValid e → IsValid e'
  Runs-IsValid e e' (us, made) h = rw made (apply_updates-IsValid us e h)

  pub scan-IsValid : (c : Client) (e : Engine F) → IsValid e → IsValid (scan c e).2
  scan-IsValid c e = Runs-IsValid e (scan c e).2 (scan-Runs c e)

  pub scan_pump_circuits-IsValid :
      (c : Client) (e : Engine F) → IsValid e → IsValid (scan_pump_circuits c e).1
  scan_pump_circuits-IsValid c e =
      Runs-IsValid e (scan_pump_circuits c e).1 (scan_pump_circuits-Runs c e)

  pub handle_push-IsValid : (msg : Fields) (e : Engine F) → IsValid e → IsValid (handle_push msg e)
  handle_push-IsValid msg e = Runs-IsValid e (handle_push msg e) (handle_push-Runs msg e)

  refresh_from-IsValid :
      (id : String) (objs : List ObjectData) (e : Engine F)
      → IsValid e
      → IsValid (refresh_from id objs e)
  unfolding refresh_from
  refresh_from-IsValid id [] e h = h
  refresh_from-IsValid id (o ∷ objs) e h =
      elim (Bool-cases ((o.obj_name == id) && not (param "SNAME" o.params == ""))) [
        | inl found ↦ rw found (apply-IsValid body id o.params true e h)
        | inr other ↦ rw other (refresh_from-IsValid id objs e h)
      ]

  refreshed-IsValid :
      (id : String) (r : Result (List ObjectData)) (c : Client) (e : Engine F)
      → IsValid e
      → IsValid (refreshed id (r, c) e).2
  unfolding refreshed
  refreshed-IsValid id (ok objs) c e h = refresh_from-IsValid id objs e h
  refreshed-IsValid id (err failure) c e h = h

  pub refresh_body-IsValid :
      (id : String) (c : Client) (e : Engine F) → IsValid e → IsValid (refresh_body id c e).2
  unfolding refresh_body
  refresh_body-IsValid id c e h =
      let (r, c') = query (kind_name body) "OBJTYP=BODY" body_keys c in
      refreshed-IsValid id r c' e h

  with_answer-IsValid : (a : Option Items) (e : Engine F) → IsValid e → IsValid (with_answer a e)
  unfolding with_answer
  with_answer-IsValid none e h = h
  with_answer-IsValid (some items) e h = record { mirrored = h.mirrored; bounded = h.bounded }

  configured-IsValid :
      (r : Result Fields) (c : Client) (e : Engine F) → IsValid e → IsValid (configured (r, c) e).1
  unfolding configured
  configured-IsValid (ok resp) c e h = with_answer-IsValid _ e h
  configured-IsValid (err failure) c e h = h

  pub load_config-IsValid : (c : Client) (e : Engine F) → IsValid e → IsValid (load_config c e).1
  unfolding load_config
  load_config-IsValid c e h =
      let (r, c') = do_raw configuration_request c in configured-IsValid r c' e h
