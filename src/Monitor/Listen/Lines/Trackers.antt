-- ===== src/Monitor/Listen/Lines/Trackers.antt =====
-- Each tracker of main.go adds to the log what it counts.
use pentameter.Prelude.{
  ℕ, String, Bool, true, false, Option, none, some, List, [], ◌∷◌, ◌==◌, ◌||◌, ◌≡◌, ap, refl, arith,
  if_elim,
}
use pentameter.Prelude.Int.{ℤ, eqb_ℤ}
use pentameter.Prelude.Map.{Map, lookup}
use pentameter.Prelude.Float.{Floats}
use pentameter.IntelliCenter.Types.{ObjectData}
use pentameter.Prelude.Text.{has_prefix}
use pentameter.IntelliCenter.Parse.{param}
use pentameter.Monitor.Watch.{
  state_of, Watch, Line, parse_failed, feature_skipped, EquipmentState, CircGrpState, report,
  report_circ_grp, report_changes, build_circ_grp_changes, water_temp, air_temp, pump_rpm,
  circuit_state, feature_state, thermal_state, raw, GroupChange, track_water_temp, track_air_temp,
  track_pump_rpm, track_circuit, track_thermal, track_feature,
}
use pentameter.Monitor.Watch.Notices.{note_parse_error, log_skipped_feature}
use pentameter.Monitor.Watch.Groups.{
  track_circ_grp, tracked_type, report_unknown, unknown_of, track_unknown_equipment, tracking_value,
}
use pentameter.Monitor.Listen.Lines.{
  Counts, Neutral, Adds, Adds-refl, noting-Adds, track-Adds, note_once-Adds,
}

report_changes-Counts :
    (F : Type 0) (group circuit : String) (cs : List GroupChange)
    → Counts {F = F} (report_changes group circuit cs)
report_changes-Counts F group circuit [] = (refl, refl)
report_changes-Counts F group circuit (c ∷ cs) = (refl, refl)

-- The report on a member of a group counts its changes.
report_circ_grp-Counts :
    (F : Type 0) (done : Bool) (group circuit : String) (prev : Option CircGrpState)
    (new : CircGrpState)
    → Counts {F = F} (report_circ_grp done group circuit prev new)
unfolding report_circ_grp
report_circ_grp-Counts F true group circuit none new = (refl, refl)
report_circ_grp-Counts F false group circuit none new = (refl, refl)
report_circ_grp-Counts F done group circuit (some prev) new =
    report_changes-Counts F group circuit (build_circ_grp_changes prev new)

-- No line on an unknown equipment counts.
report_unknown-Neutral :
    (F : Type 0) (obj : ObjectData) (done : Bool) (prev : Option String) (value : String)
    → Neutral {F = F} (report_unknown obj done prev value)
unfolding report_unknown report
report_unknown-Neutral F obj true none value = (refl, refl)
report_unknown-Neutral F obj false none value = (refl, refl)
report_unknown-Neutral F obj done (some prev) value =
    if_elim (λ (r : List (Line F) × ℕ). Neutral r.0) (prev == value) (refl, refl) (refl, refl)

module _ {F : Type 0} ⦃fl : Floats F⦄ where
  pub track_water_temp-Adds :
      (name : String) (temp : F) (obj : ObjectData) (w : Watch F)
      → Adds w (track_water_temp name temp obj w)
  unfolding track_water_temp
  track_water_temp-Adds name temp obj w =
      track-Adds (water_temp name) (λ u v. refl) fl.eq (raw obj ∷ []) (refl, refl) _ _ temp w

  pub track_air_temp-Adds :
      (temp : F) (obj : ObjectData) (w : Watch F) → Adds w (track_air_temp temp obj w)
  unfolding track_air_temp
  track_air_temp-Adds temp obj w =
      track-Adds air_temp (λ u v. refl) fl.eq (raw obj ∷ []) (refl, refl) _ _ temp w

  pub track_pump_rpm-Adds :
      (name : String) (rpm : F) (obj : ObjectData) (w : Watch F)
      → Adds w (track_pump_rpm name rpm obj w)
  unfolding track_pump_rpm
  track_pump_rpm-Adds name rpm obj w =
      track-Adds (pump_rpm name) (λ u v. refl) fl.eq (raw obj ∷ []) (refl, refl) _ _ rpm w

  pub track_circuit-Adds :
      (name status : String) (obj : ObjectData) (w : Watch F)
      → Adds w (track_circuit name status obj w)
  unfolding track_circuit
  track_circuit-Adds name status obj w =
      track-Adds (circuit_state name) (λ u v. refl) (λ a b. a == b) (raw obj ∷ []) (refl, refl) _ _
        status w

  pub track_thermal-Adds :
      (name : String) (status : ℤ) (obj : ObjectData) (w : Watch F)
      → Adds w (track_thermal name status obj w)
  unfolding track_thermal
  track_thermal-Adds name status obj w =
      track-Adds (thermal_state name) (λ u v. refl) eqb_ℤ (raw obj ∷ []) (refl, refl) _ _ status w

  pub track_feature-Adds :
      (name status : String) (w : Watch F) → Adds w (track_feature name status w)
  unfolding track_feature
  track_feature-Adds name status w =
      track-Adds (feature_state name) (λ u v. refl) (λ a b. a == b) [] (refl, refl) _ _ status w

  pub note_parse_error-Adds : (name : String) (w : Watch F) → Adds w (note_parse_error name w)
  unfolding note_parse_error
  note_parse_error-Adds name w = note_once-Adds _ _ (λ s. refl) (parse_failed name) (refl, refl) w

  pub log_skipped_feature-Adds :
      (name id : String) (w : Watch F) → Adds w (log_skipped_feature name id w)
  unfolding log_skipped_feature
  log_skipped_feature-Adds name id w =
      note_once-Adds _ _ (λ s. refl) (feature_skipped name) (refl, refl) w

  pub track_circ_grp-Adds :
      (names : Map String) (obj : ObjectData) (w : Watch F) → Adds w (track_circ_grp names obj w)
  unfolding track_circ_grp
  track_circ_grp-Adds names obj w =
      noting-Adds _ _
        (λ s done. report_circ_grp-Counts F done _ _ (lookup obj.obj_name s.circ_grps) _) w

  pub track_unknown_equipment-Adds :
      (obj : ObjectData) (w : Watch F) → Adds w (track_unknown_equipment obj w)
  unfolding track_unknown_equipment Adds
  track_unknown_equipment-Adds obj w =
      if_elim (Adds w) w.listen_mode (unknown_of-Adds w.previous_state refl) (Adds-refl w)
    where
      unknown_of-Adds :
          (o : Option (EquipmentState F)) → w.previous_state ≡ o → Adds w (unknown_of o obj w)
      unknown_of-Adds none at = Adds-refl w
      unknown_of-Adds (some s) at =
          let seen = lookup obj.obj_name s.unknown_equip in
          let value =
            tracking_value (param "OBJTYP" obj.params) (param "SUBTYP" obj.params)
              (param "STATUS" obj.params) in
          let lines = report_unknown {F = F} obj w.initial_poll_done seen value in
          let neutral = report_unknown-Neutral F obj w.initial_poll_done seen value in
          if_elim (Adds w)
            (tracked_type (param "OBJTYP" obj.params)
              || (has_prefix obj.obj_name "_" || has_prefix obj.obj_name "X"))
            (Adds-refl w)
            (
              lines,
              refl,
              omega (arith, neutral.0, ap (λ o. (state_of o).poll_change_count) at),
              neutral.1,
              refl,
              refl,
            )
