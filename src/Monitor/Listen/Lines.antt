-- ===== src/Monitor/Listen/Lines.antt =====
-- What a step of the monitor adds to the log of listen mode, and to the count of changes: the code
-- is the functions named `track…` of main.go and what calls them.
pub mod Trackers
pub mod Steps
pub mod Refresh
pub mod Poll
use pentameter.Prelude.{
  ℕ, ◌+◌, String, Bool, true, false, Option, none, some, List, [], ◌∷◌, ◌++◌, ◌≡◌, refl, arith,
  if◌then◌else◌, ap, ◌∙◌, sym, if_elim,
}
use mathlib.Core.List.{append_assoc, append-nil}
use pentameter.Prelude.Map.{Map}
use pentameter.Prelude.Float.{Floats}
use pentameter.IntelliCenter.Types.{ObjectData}
use pentameter.Monitor.Watch.Notices.{once, note_once}
use pentameter.Monitor.Watch.{
  Watch, EquipmentState, Reading, unknown_state, Line, changed, circ_grp_changed, no_changes,
  detected, report, noted, listening, noting, track, logged, state_of,
}

module _ {F : Type 0} where
  -- How a line counts: a change counts, but for those of unknown equipment.
  abbrev pub change : Line F → ℕ
  change (changed (unknown_state name id kind value) r) = 0
  change (changed r s) = 1
  change (circ_grp_changed group circuit cs) = 1
  change _ = 0

  abbrev pub changes : List (Line F) → ℕ
  changes [] = 0
  changes (l ∷ ls) = change l + changes ls

  pub changes-append : (ks ls : List (Line F)) → changes (ks ++ ls) ≡ changes ks + changes ls
  changes-append [] ls = omega arith
  changes-append (k ∷ ks) ls = omega (arith, changes-append ks ls)

  -- How often a line says that there are no changes.
  abbrev pub silence : Line F → ℕ
  silence no_changes = 1
  silence _ = 0

  abbrev pub silences : List (Line F) → ℕ
  silences [] = 0
  silences (l ∷ ls) = silence l + silences ls

  pub silences-append : (ks ls : List (Line F)) → silences (ks ++ ls) ≡ silences ks + silences ls
  silences-append [] ls = omega arith
  silences-append (k ∷ ks) ls = omega (arith, silences-append ks ls)

  -- A report whose lines hold as many changes as it counts, and do not say that there are none.
  abbrev pub Counts : List (Line F) × ℕ → Type 0
  Counts r = (changes r.0 ≡ r.1) × (silences r.0 ≡ 0)

  -- Lines that say nothing of changes.
  abbrev pub Neutral : List (Line F) → Type 0
  Neutral ls = (changes ls ≡ 0) × (silences ls ≡ 0)

module _ {F : Type 0} ⦃fl : Floats F⦄ where
  abbrev pub count : Watch F → ℕ
  count w = (state_of w.previous_state).poll_change_count

  -- The lines that are new are written behind the others, the changes among them are counted, none
  -- says that there are no changes, and the mode and the flag of the first poll stay.
  unfoldable pub Adds : Watch F → Watch F → Type 0
  Adds w w' =
      (ls : List (Line F)) × (w'.lines ≡ w.lines ++ ls)
      × (count w' ≡ count w + changes ls)
      × (silences ls ≡ 0)
      × (w'.listen_mode ≡ w.listen_mode)
      × (w'.initial_poll_done ≡ w.initial_poll_done)

  pub Adds-refl : (w : Watch F) → Adds w w
  unfolding Adds
  Adds-refl w = ([], sym (append-nil w.lines), omega arith, refl, refl, refl)

  pub Adds-trans : (u v w : Watch F) → Adds u v → Adds v w → Adds u w
  unfolding Adds
  Adds-trans u v w (ks, hl, hc, hs, hm, hd) (ls, kl, kc, ks', km, kd) = (
    ks ++ ls,
    kl ∙ (ap (λ l. l ++ ls) hl ∙ append_assoc u.lines ks ls),
    omega (arith, changes-append ks ls, hc, kc),
    omega (arith, silences-append ks ls, hs, ks'),
    km ∙ hm,
    kd ∙ hd,
  )

  pub logged-Adds : (l : Line F) → Neutral (l ∷ []) → (w : Watch F) → Adds w (logged l w)
  unfolding Adds logged
  logged-Adds l (quiet, no_silence) w = (l ∷ [], refl, omega (arith, quiet), no_silence, refl, refl)

  pub noted-Adds :
      (store : EquipmentState F → EquipmentState F) (r : List (Line F) × ℕ)
      → Counts r
      → (w : Watch F) → Adds w (noted store r (state_of w.previous_state) w)
  unfolding Adds
  noted-Adds store (ls, n) (same, no_silence) w =
      (ls, refl, omega (arith, same), no_silence, refl, refl)

  pub noting-Adds :
      (reported : EquipmentState F → Bool → List (Line F) × ℕ)
      (store : EquipmentState F → EquipmentState F)
      → ((s : EquipmentState F) (done : Bool) → Counts (reported s done))
      → (w : Watch F) → Adds w (noting reported store w)
  unfolding noting
  noting-Adds reported store same w =
      let s = state_of w.previous_state in
      if_elim (Adds w) w.listen_mode
        (noted-Adds store (reported s w.initial_poll_done) (same s w.initial_poll_done) w)
        (Adds-refl w)

  -- A report counts its changes, if the reading is one that counts.
  pub report-Counts :
      {V : Type 0} (reading : V → Reading F)
      → ((u v : V) → change (changed (reading u) (reading v)) ≡ 1)
      → (done : Bool) (same : V → V → Bool) (behind : List (Line F)) → Neutral behind
      → (prev : Option V) (v : V) → Counts (report reading done same behind prev v)
  unfolding report
  report-Counts reading counts true same behind quiet none v = (refl, refl)
  report-Counts reading counts false same behind (quiet, no_silence) none v =
      (omega (arith, quiet), omega (arith, no_silence))
  report-Counts reading counts done same behind (quiet, no_silence) (some prev) v =
      if_elim (λ (r : List (Line F) × ℕ). Counts r) (same prev v) (refl, refl)
        (omega (arith, quiet, counts prev v), omega (arith, no_silence))

  pub track-Adds :
      {V : Type 0} (reading : V → Reading F)
      → ((u v : V) → change (changed (reading u) (reading v)) ≡ 1)
      → (same : V → V → Bool) (behind : List (Line F)) → Neutral behind
      → (prev : EquipmentState F → Option V) (store : EquipmentState F → EquipmentState F) (v : V)
        (w : Watch F)
      → Adds w (track reading same behind prev store v w)
  unfolding track
  track-Adds reading counts same behind quiet prev store v =
      noting-Adds (λ s done. report reading done same behind (prev s) v) store
        (λ s done. report-Counts reading counts done same behind quiet (prev s) v)

  pub note_once-Adds :
      (seen : EquipmentState F → Bool) (mark : EquipmentState F → EquipmentState F)
      → ((s : EquipmentState F) → (mark s).poll_change_count ≡ s.poll_change_count)
      → (l : Line F) → Neutral (l ∷ [])
      → (w : Watch F) → Adds w (note_once seen mark l w)
  unfolding note_once Adds
  note_once-Adds seen mark keeps l (quiet, no_silence) w =
      if_elim (Adds w) w.listen_mode (once-Adds w.previous_state refl) (Adds-refl w)
    where
      once-Adds :
          (o : Option (EquipmentState F)) → w.previous_state ≡ o → Adds w (once seen mark l o w)
      once-Adds none at = Adds-refl w
      once-Adds (some s) at = if_elim (Adds w) (seen s) (Adds-refl w) (
        l ∷ [],
        refl,
        omega (arith, quiet, keeps s, ap (λ o. (state_of o).poll_change_count) at),
        no_silence,
        refl,
        refl,
      )
