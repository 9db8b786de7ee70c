-- ===== src/Homebridge/Commands.antt =====
-- The commands of the shim, from standard input to the controller: `hbReadStdin` and `hbApplySets` of
-- homebridge.go. The lines are those that the scanner yields; encoding/json decodes them.
use pentameter.Prelude.{
  String, Bool, false, Option, none, some, List, [], ◌∷◌, ◌==◌, ◌≡◌, refl, ap, ◌∙◌, if_elim,
  if◌then◌else◌,
}
use pentameter.Prelude.Map.{lookup}
use pentameter.Prelude.Float.{Floats}
use pentameter.IntelliCenter.Types.{Body}
use pentameter.IntelliCenter.Result.{Result}
use pentameter.IntelliCenter.Client.{Client}
use pentameter.IntelliCenter.Engine.{Engine}
use pentameter.IntelliCenter.Engine.Mirror.{IsValid}
use pentameter.IntelliCenter.Engine.Reach.{Reach, Reach-IsValid, next, refreshed}
use pentameter.Homebridge.Thermostat.{
  Command, write_field, write_heat, write_cool, write_source, verify_body, verify_if,
  apply_thermostat, apply_set,
}

-- How `hbReadStdin` ends: with the program, if the shim is gone, or because it is cancelled.
pub data StdinEnd : Type 0 where
  exits returns : StdinEnd

module _ {F : Type 0} (unmarshal : String → Option (Command F)) where
  abbrev queued :
      Option (Command F) → Bool → List (Command F) × StdinEnd → List (Command F) × StdinEnd
  queued none taken rest = rest
  queued (some cmd) taken rest = if taken then (cmd ∷ rest.0, rest.1) else ([], returns)

  -- `hbReadStdin`: the commands it queues, and how it ends. Beside each line stands whether the queue
  -- takes its command before the context is cancelled; the first flag is that of `ctx.Err` when the
  -- input has ended. Empty lines and lines that do not decode are skipped.
  unfoldable pub hb_read_stdin : Bool → List (String × Bool) → List (Command F) × StdinEnd
  hb_read_stdin canceled [] = ([], if canceled then returns else exits)
  hb_read_stdin canceled ((line, taken) ∷ lines) =
      let rest = hb_read_stdin canceled lines in
      if line == "" then rest else queued (unmarshal line) taken rest

-- Without a request client.
write_field-offline :
    (want cur : String) (call : Client → Result (Unit {0}) × Client) (s : Bool × Option Client)
    → s.1 ≡ none
    → (write_field want cur call s).1 ≡ none
unfolding write_field
write_field-offline want cur call (attempted, none) h =
    if_elim (λ (s : Bool × Option Client). s.1 ≡ none) (want == cur) refl refl
write_field-offline want cur call (attempted, some c) h = cc

module _ {F : Type 0} ⦃fl : Floats F⦄ where
  -- `hbApplySets`
  unfoldable pub hb_apply_sets :
      List (Command F) → Engine F → Option Client → Engine F × Option Client
  unfolding apply_set
  hb_apply_sets [] e c = (e, c)
  hb_apply_sets (cmd ∷ cmds) e c = let (e', c') = apply_set cmd e c in hb_apply_sets cmds e' c'

  verify_body-Reach :
      (id : String) (e : Engine F) (c : Option Client) → Reach e → Reach (verify_body id e c).0
  unfolding verify_body
  verify_body-Reach id e none h = h
  verify_body-Reach id e (some c) h = next h (refreshed id c)

  verify_if-Reach :
      (id : String) (e : Engine F) (s : Bool × Option Client) → Reach e → Reach (verify_if id e s).0
  unfolding verify_if
  verify_if-Reach id e (attempted, c) h =
      if_elim (λ (s : Engine F × Option Client). Reach s.0) attempted (verify_body-Reach id e c h) h

  thermostat_at-Reach :
      (body : Option (Body F)) (cmd : Command F) (e : Engine F) (c : Option Client)
      → lookup cmd.id e.snap.bodies ≡ body
      → Reach e
      → Reach (apply_thermostat cmd e c).0
  unfolding apply_thermostat
  thermostat_at-Reach none cmd e c at h = rw (at, apply_thermostat) h
  thermostat_at-Reach (some body) cmd e c at h =
      rw (at, apply_thermostat) (verify_if-Reach cmd.id e _ h)

  apply_thermostat-Reach :
      (cmd : Command F) (e : Engine F) (c : Option Client)
      → Reach e
      → Reach (apply_thermostat cmd e c).0
  apply_thermostat-Reach cmd e c h =
      thermostat_at-Reach (lookup cmd.id e.snap.bodies) cmd e c refl h

  apply_set-Reach :
      (cmd : Command F) (e : Engine F) (c : Option Client) → Reach e → Reach (apply_set cmd e c).0
  unfolding apply_set
  apply_set-Reach cmd e c h =
      if_elim (λ (s : Engine F × Option Client). Reach s.0) (cmd.t == "set") h
        (if_elim (λ (s : Engine F × Option Client). Reach s.0) (cmd.t == "tset")
          (apply_thermostat-Reach cmd e c h) h)

  hb_apply_sets-Reach :
      (cmds : List (Command F)) (e : Engine F) (c : Option Client)
      → Reach e
      → Reach (hb_apply_sets cmds e c).0
  unfolding hb_apply_sets
  hb_apply_sets-Reach [] e c h = h
  hb_apply_sets-Reach (cmd ∷ cmds) e c h =
      hb_apply_sets-Reach cmds (apply_set cmd e c).0 (apply_set cmd e c).1
        (apply_set-Reach cmd e c h)

  write_heat-offline :
      (id : String) (wanted : Option F) (body : Body F) (s : Bool × Option Client)
      → s.1 ≡ none
      → (write_heat id wanted body s).1 ≡ none
  unfolding write_heat
  write_heat-offline id none body s h = h
  write_heat-offline id (some x) body s h = write_field-offline _ _ _ s h

  write_cool-offline :
      (id : String) (wanted : Option F) (body : Body F) (s : Bool × Option Client)
      → s.1 ≡ none
      → (write_cool id wanted body s).1 ≡ none
  unfolding write_cool
  write_cool-offline id none body s h = h
  write_cool-offline id (some x) body s h = write_field-offline _ _ _ s h

  write_source-offline :
      (id : String) (wanted : Option String) (body : Body F) (s : Bool × Option Client)
      → s.1 ≡ none
      → (write_source id wanted body s).1 ≡ none
  unfolding write_source
  write_source-offline id none body s h = h
  write_source-offline id (some x) body s h = write_field-offline _ _ _ s h

  verify_if-offline :
      (id : String) (e : Engine F) (s : Bool × Option Client)
      → s.1 ≡ none
      → verify_if id e s ≡ (e, none)
  unfolding verify_if verify_body
  verify_if-offline id e (attempted, none) h =
      if_elim (λ (s : Engine F × Option Client). s ≡ (e, none)) attempted refl refl
  verify_if-offline id e (attempted, some c) h = cc

  thermostat_at-offline :
      (found : Option (Body F)) (cmd : Command F) (e : Engine F)
      → lookup cmd.id e.snap.bodies ≡ found
      → apply_thermostat cmd e none ≡ (e, none)
  unfolding apply_thermostat
  thermostat_at-offline none cmd e at = rw (at, apply_thermostat) refl
  thermostat_at-offline (some body) cmd e at =
      rw (at, apply_thermostat)
        (verify_if-offline cmd.id e _ (
          write_source-offline cmd.id _ body _ (
            write_cool-offline cmd.id cmd.cool_c body _
              (write_heat-offline cmd.id cmd.heat_c body (false, none) refl))))

  apply_set-offline : (cmd : Command F) (e : Engine F) → apply_set cmd e none ≡ (e, none)
  unfolding apply_set
  apply_set-offline cmd e =
      if_elim (λ (s : Engine F × Option Client). s ≡ (e, none)) (cmd.t == "set") refl
        (if_elim (λ (s : Engine F × Option Client). s ≡ (e, none)) (cmd.t == "tset")
          (thermostat_at-offline (lookup cmd.id e.snap.bodies) cmd e refl) refl)

  hb_apply_sets-offline :
      (cmds : List (Command F)) (e : Engine F) → hb_apply_sets cmds e none ≡ (e, none)
  unfolding hb_apply_sets
  hb_apply_sets-offline [] e = refl
  hb_apply_sets-offline (cmd ∷ cmds) e =
      ap (λ (s : Engine F × Option Client). hb_apply_sets cmds s.0 s.1) (apply_set-offline cmd e)
      ∙ hb_apply_sets-offline cmds e

  -- Whatever lines the shim sends, whenever the program is cancelled and over whatever the controller answers: the commands among them take
  -- an engine that was reached from a new one to an engine whose snapshot and queues are valid; and
  -- while there is no request client they change nothing.
  pub hb_read_stdin-IsValid :
      (unmarshal : String → Option (Command F)) (canceled : Bool) (lines : List (String × Bool))
      (e : Engine F) (c : Option Client)
      → Reach e
      → IsValid (hb_apply_sets (hb_read_stdin unmarshal canceled lines).0 e c).0
        × (hb_apply_sets (hb_read_stdin unmarshal canceled lines).0 e none ≡ (e, none))
  hb_read_stdin-IsValid unmarshal canceled lines e c h =
      let cmds = (hb_read_stdin unmarshal canceled lines).0 in
      (Reach-IsValid (hb_apply_sets-Reach cmds e c h), hb_apply_sets-offline cmds e)
