-- ===== src/IntelliCenter/Client/Retry.antt =====
-- `ConnectWithRetry` and `backoffDelay` of intellicenter/client.go, over the outcomes of its dials.
-- The delay is a float in the source; powers of two of a whole second are exact there.
use pentameter.Prelude.{
  ℕ, zero, suc, ◌+◌, ◌-◌, ◌*◌, ◌^◌, ◌≤◌, ◌≡◌, refl, List, [], ◌∷◌, ◌++◌, ap, replicate, ltb,
  if◌then◌else◌, arith,
}
use native.Mathlib.Nat.{suc-add}
use native.Mathlib.Numerals.{add-one}
use pentameter.IntelliCenter.Result.{Result, ok, err, canceled, connect_failed}

-- What a round meets: the context is cancelled in its wait, or the dial goes one way or the other.
pub data Dial : Type 0 where
  cancel_wait dial_fails dial_connects : Dial

pub record Retry : Type 0 where
  pub retry_max : ℕ
  pub retry_base_delay : ℕ
  pub retry_max_delay : ℕ

-- `New`: five retries, from one second to thirty.
abbrev pub default_retry : Retry
default_retry = record {
  retry_max = 5;
  retry_base_delay = 1_000_000_000;
  retry_max_delay = 30_000_000_000;
}

unfoldable pub backoff_delay : Retry → ℕ → ℕ
backoff_delay r attempt =
    let d : ℕ = r.retry_base_delay * 2 ^ (attempt - 1) in
    if ltb r.retry_max_delay d then r.retry_max_delay else d

-- The waits of a call, and its result.
abbrev pub Waited : Type 0
Waited = List ℕ × Result (Unit {0})

abbrev after_wait : ℕ → Waited → Waited
after_wait d (waits, result) = (d ∷ waits, result)

-- One dial; a failure goes on.
dial : Dial → Waited → Waited
dial dial_connects more = ([], ok tt)
dial dial_fails more = more
dial cancel_wait more = ([], err canceled)

-- The first dial, which does not wait; a cancelled context fails it.
first_dial : Dial → Waited → Waited
first_dial dial_connects more = ([], ok tt)
first_dial dial_fails more = more
first_dial cancel_wait more = more

-- The rounds from an attempt on. The first attempt does not wait. Where the outcomes run out the
-- call has not returned; that is `canceled` here, for the context is what can still end it.
attempts : Retry → ℕ → ℕ → List Dial → Waited
unfolding dial first_dial backoff_delay
attempts r attempt zero dials = ([], err connect_failed)
attempts r attempt (suc left) [] = ([], err canceled)
attempts r zero (suc left) (d ∷ dials) = let more = attempts r 1 left dials in first_dial d more
attempts r (suc n) (suc left) (d ∷ dials) =
    let more = attempts r (suc (suc n)) left dials in
    after_wait (backoff_delay r (suc n)) (dial d more)

unfoldable pub connect_with_retry : Retry → List Dial → Waited
unfolding attempts
connect_with_retry r dials = attempts r 0 (r.retry_max + 1) dials

-- The waits before the attempts from one on.
abbrev pub waits_from : Retry → ℕ → ℕ → List ℕ
waits_from r attempt zero = []
waits_from r attempt (suc n) = backoff_delay r attempt ∷ waits_from r (suc attempt) n

module _ (r : Retry) where
  attempts-connect :
      (k n m : ℕ) (dials : List Dial)
      → attempts r (suc k) (suc n + m) (replicate n dial_fails ++ dial_connects ∷ dials)
        ≡ (waits_from r (suc k) (suc n), ok tt)
  unfolding attempts
  attempts-connect k zero m dials = rw (suc-add zero m) refl
  attempts-connect k (suc n) m dials =
      rw (suc-add (suc n) m)
        (ap (after_wait (backoff_delay r (suc k))) (attempts-connect (suc k) n m dials))

  attempts-fail :
      (k n : ℕ)
      → attempts r (suc k) n (replicate n dial_fails) ≡ (waits_from r (suc k) n, err connect_failed)
  unfolding attempts
  attempts-fail k zero = refl
  attempts-fail k (suc n) = ap (after_wait (backoff_delay r (suc k))) (attempts-fail (suc k) n)

  -- If the first `n` dials fail and the next one connects, with `n` at most the number of retries,
  -- the call succeeds after exactly the first `n` backoff delays.
  pub connect_with_retry-connects :
      (n : ℕ) (dials : List Dial)
      → n ≤ r.retry_max
      → connect_with_retry r (replicate n dial_fails ++ dial_connects ∷ dials)
        ≡ (waits_from r 1 n, ok tt)
  unfolding connect_with_retry
  connect_with_retry-connects zero dials few = rw add-one refl
  connect_with_retry-connects (suc n) dials few =
      let spare : ℕ = r.retry_max - suc n in
      let enough : r.retry_max + 1 ≡ suc (suc n + spare) = omega arith in
      rw enough (attempts-connect 0 n spare dials)

  -- If every dial fails, the call fails after the first attempt and all the retries.
  pub connect_with_retry-fails :
      connect_with_retry r (replicate (r.retry_max + 1) dial_fails)
      ≡ (waits_from r 1 r.retry_max, err connect_failed)
  unfolding connect_with_retry
  connect_with_retry-fails = rw add-one (attempts-fail 0 r.retry_max)

  -- No wait is longer than the maximum.
  pub backoff_delay-le-max : (attempt : ℕ) → backoff_delay r attempt ≤ r.retry_max_delay
  unfolding backoff_delay
  backoff_delay-le-max attempt = ground arith
