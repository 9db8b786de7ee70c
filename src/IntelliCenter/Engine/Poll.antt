-- ===== src/IntelliCenter/Engine/Poll.antt =====
-- When the poll loop gives a session up.
use pentameter.Prelude.{ℕ, zero, suc, ◌+◌, ◌≤◌, ◌<◌, ◌≡◌, ap, ◌∙◌, leb, inl, inr, Bool-cases, arith}
use native.Mathlib.Numerals.{add-one}
use pentameter.IntelliCenter.Result.{Error, Result, err, poll, Result-cases}
use pentameter.IntelliCenter.Engine.Session.{poll_loop}

module _ {S : Type 0} (attempt : S → Result (Unit {0}) × S) (refresh : S → S) where
  -- The state was reached by so many attempts in a row that all failed.
  abbrev pub Failed : ℕ → S → Type 0
  Failed zero s = Unit
  Failed (suc n) s = (r : S) × (e : Error) × (attempt r ≡ (err e, s)) × Failed n r

  -- So many attempts in a row fail from the state on, and lead to a state with a last error.
  abbrev pub Fails : ℕ → S → Error → S → Type 0
  Fails zero s e t = ⊥
  Fails (suc zero) s e t = attempt s ≡ (err e, t)
  Fails (suc (suc n)) s e t = (d : Error) × (r : S) × (attempt s ≡ (err d, r)) × Fails (suc n) r e t

  -- The third failure in a row.
  third_failure :
      (n : ℕ) (s : S) (d : Error) (t : S) {e : Error} {u : S}
      → attempt s ≡ (err d, t)
      → n < 3
      → 3 ≤ n + 1
      → Failed n s
      → ◌≡◌ {A = Result (Unit {0}) × S} (err (poll d), t) (err e, u)
      → (r : S) × (d : Error) × (attempt r ≡ (err d, u)) × Failed 2 r × (e ≡ poll d)
  third_failure zero s d t here few enough before h = absurd (omega arith)
  third_failure (suc zero) s d t here few enough before h = absurd (omega arith)
  third_failure (suc (suc zero)) s d t here few enough before h = (s, d, cc, before, cc)
  third_failure (suc (suc (suc n))) s d t here few enough before h = absurd (omega arith)

  gives_up :
      (ticks since failures : ℕ) (s : S) {e : Error} {t : S}
      → failures < 3
      → Failed failures s
      → poll_loop attempt refresh ticks since failures s ≡ (err e, t)
      → (r : S) × (d : Error) × (attempt r ≡ (err d, t)) × Failed 2 r × (e ≡ poll d)
  unfolding poll_loop
  gives_up zero since failures s few before h = cc
  gives_up (suc ticks) since failures s {e} {t} few before h = elim (Result-cases (attempt s).0) [
    | inl (a, good) ↦ elim (Bool-cases (leb 60 (since + 1))) [
      | inl reload ↦
          gives_up ticks 0 0 (refresh (attempt s).1) (omega arith) tt
            (rw reload at (rw (good, poll_loop) at h))
      | inr plain ↦
          gives_up ticks (since + 1) 0 (attempt s).1 (omega arith) tt
            (rw plain at (rw (good, poll_loop) at h))
    ]
    | inr (d, bad) ↦
        let here : attempt s ≡ (err d, (attempt s).1) = ap (λ r. (r, (attempt s).1)) bad in
        elim (Bool-cases (leb 3 (failures + 1))) [
          | inl third ↦
              third_failure failures s d (attempt s).1 here few (ground arith) before
                (rw third at (rw (bad, poll_loop) at h))
          | inr more ↦
              gives_up ticks since (suc failures) (attempt s).1 (ground arith) (s, d, here, before)
                (rw add-one at (rw more at (rw (bad, poll_loop) at h)))
        ]
  ]

  -- The loop, begun afresh, returns an error only from three polls in a row that failed; it then
  -- carries the error of the last of them, and stops in the state that this one left.
  pub poll_loop-err :
      (ticks : ℕ) (s : S) {e : Error} {t : S}
      → poll_loop attempt refresh ticks 0 0 s ≡ (err e, t)
      → (r : S) × (d : Error) × (attempt r ≡ (err d, t)) × Failed 2 r × (e ≡ poll d)
  poll_loop-err ticks s h = gives_up ticks 0 0 s (omega arith) tt h

  poll_loop-last :
      (ticks since : ℕ) (s : S) {e : Error} {t : S}
      → attempt s ≡ (err e, t)
      → poll_loop attempt refresh (suc ticks) since 2 s ≡ (err (poll e), t)
  unfolding poll_loop
  poll_loop-last ticks since s h = ground arith

  -- A failure that is not the third in a row is one more.
  poll_loop-fail :
      (ticks since failures : ℕ) (s : S) (d : Error) (t : S)
      → attempt s ≡ (err d, t)
      → failures + 1 < 3
      → poll_loop attempt refresh (suc ticks) since failures s
        ≡ poll_loop attempt refresh ticks since (failures + 1) t
  unfolding poll_loop
  poll_loop-fail ticks since failures s d t h few = ground arith

  -- If no failure is counted yet, three polls in a row that fail end the loop with the error of the
  -- third, in the state that it left, however many ticks are left.
  pub poll_loop-Fails :
      (ticks since : ℕ) (s : S) {e : Error} {t : S}
      → Fails 3 s e t
      → poll_loop attempt refresh (suc (suc (suc ticks))) since 0 s ≡ (err (poll e), t)
  poll_loop-Fails ticks since s (d₁, s₁, first, (d₂, s₂, second, third)) =
      poll_loop-fail _ since 0 s d₁ s₁ first (omega arith)
      ∙ poll_loop-fail _ since 1 s₁ d₂ s₂ second (omega arith)
      ∙ poll_loop-last ticks since s₂ third
