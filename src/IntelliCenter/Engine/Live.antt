-- ===== src/IntelliCenter/Engine/Live.antt =====
-- The loops of engine.go over the steps of Reach: what a session does to the engine is a sequence of
-- the steps.
use pentameter.Prelude.{inl, inr}
use pentameter.Prelude.Float.{Floats}
use pentameter.IntelliCenter.Result.{Result-cases}
use pentameter.IntelliCenter.Client.{Client}
use pentameter.IntelliCenter.Engine.{Engine}
use pentameter.IntelliCenter.Engine.Scan.{scan}
use pentameter.IntelliCenter.Engine.Config.{load_config}
use pentameter.IntelliCenter.Engine.Session.{poll_once, load_static, start_session}
use pentameter.IntelliCenter.Engine.Reach.{Reach, next, scanned, linked, configured}

module _ {F : Type 0} ⦃fl : Floats F⦄ where
  pub poll_once-Reach : (s : Client × Engine F) → Reach s.1 → Reach (poll_once s).1.1
  unfolding poll_once
  poll_once-Reach (c, e) h = next h (scanned c)

  pub load_static-Reach : (s : Client × Engine F) → Reach s.1 → Reach (load_static s).1
  unfolding load_static
  load_static-Reach (c, e) h = next (next h (configured c)) (linked (load_config c e).0)

  pub start_session-Reach : (s : Client × Engine F) → Reach s.1 → Reach (start_session s).1.1
  unfolding start_session
  start_session-Reach (c, e) h =
      let (result, c', e') = scan c e in
      elim (Result-cases result) [
        | inl (a, good) ↦ rw (good, start_session) (load_static-Reach (c', e') (next h (scanned c)))
        | inr (failure, bad) ↦ rw (bad, start_session) (next h (scanned c))
      ]
