-- ===== src/Discovery/Rounds.antt =====
-- The loop of discovery.go that asks for the controller until it answers:
-- `collectHostnameResponseWithRetry`. A round is one pass of the loop, given by the readings of the
-- clock in nanoseconds and by how its input and output go.
use pentameter.Prelude.{
  ℕ, ◌+◌, ◌-◌, ◌*◌, ◌≤◌, ◌<◌, String, Bool, true, Option, none, some, List, [], ◌∷◌, ltb, leb, ◌≡◌,
  inl, inr, refl, arith, All, if◌then◌else◌, if_elim, Bool-cases,
}
use pentameter.Discovery.{Answer, malformed, absent, found}

pub record Round : Type 0 where
  -- at the test of the loop, at `time.Since`, and behind the query
  pub checked : ℕ
  pub asked : ℕ
  pub sent : ℕ
  pub send_ok : Bool
  -- of `readAndProcessResponse`; an error is `malformed`
  pub response : Answer

abbrev pub discovery_timeout : ℕ
discovery_timeout = 60000000000

abbrev pub retry_interval : ℕ
retry_interval = 2000000000

-- The address, an error of a query, the error at the deadline, or rounds that are still to come.
pub data Outcome : Type 0 where
  discovered : String → Outcome
  query_failed timed_out waiting : Outcome

-- Whether a query is due; the first one is at once.
abbrev pub is_due : Option ℕ → ℕ → Bool
is_due none now = true
is_due (some last) now = leb retry_interval (now - last)

-- What a round makes of its response, with the count of queries.
abbrev pub after_response : Answer → ℕ → Outcome × ℕ → Outcome × ℕ
after_response (found ip) count rest = (discovered ip, count)
after_response malformed count rest = rest
after_response absent count rest = rest

-- The loop, with the time of the last query and the count of the queries sent.
unfoldable pub collect : ℕ → Option ℕ → ℕ → List Round → Outcome × ℕ
collect deadline last count [] = (waiting, count)
collect deadline last count (r ∷ rounds) =
    let due = is_due last r.asked in
    let count' : ℕ = if due then count + 1 else count in
    let rest = collect deadline (if due then some r.sent else last) count' rounds in
    if ltb r.checked deadline
    then (if due
        then (if r.send_ok then after_response r.response count' rest else (query_failed, count'))
        else after_response r.response count' rest)
    else (timed_out, count)

-- `collectHostnameResponseWithRetry`, from the reading of the clock at its start
unfoldable pub collect_hostname_response_with_retry : ℕ → List Round → Outcome × ℕ
unfolding collect
collect_hostname_response_with_retry start = collect (start + discovery_timeout) none 0

-- The clock does not run backwards.
abbrev pub IsOrdered : ℕ → List Round → Type 0
IsOrdered now [] = Unit {0}
IsOrdered now (r ∷ rounds) =
    (now ≤ r.checked) × (r.checked ≤ r.asked) × (r.asked ≤ r.sent) × IsOrdered r.sent rounds

-- The queries so far are spaced: from the start to the last of them there are as many intervals as
-- there were queries before it.
abbrev IsSpaced : ℕ → ℕ → Option ℕ → ℕ → Type 0
IsSpaced start now none count = count ≡ 0
IsSpaced start now (some last) count =
    (start + retry_interval * count ≤ last + retry_interval) × (last ≤ now)

-- The next query is spaced as well, and it is one of the first 31.
IsSpaced-next :
    (start now checked asked sent : ℕ) (last : Option ℕ) (count : ℕ)
    → IsSpaced start now last count
    → start ≤ now
    → now ≤ checked
    → checked ≤ asked
    → asked ≤ sent
    → checked < start + discovery_timeout
    → is_due last asked ≡ true
    → IsSpaced start sent (some sent) (count + 1) × (count + 1 ≤ 31)
IsSpaced-next start now checked asked sent none count spaced h1 h2 h3 h4 early due =
    ((omega (arith, spaced), omega arith), omega (arith, spaced))
IsSpaced-next start now checked asked sent (some last) count (spaced, past) h1 h2 h3 h4 early due =
    let apart : retry_interval ≤ asked - last = ground (arith, due) in
    ((omega arith, omega arith), omega arith)

IsSpaced-later :
    (start now later : ℕ) (last : Option ℕ) (count : ℕ)
    → now ≤ later
    → IsSpaced start now last count
    → IsSpaced start later last count
IsSpaced-later start now later none count h spaced = spaced
IsSpaced-later start now later (some last) count h (spaced, past) = (spaced, omega arith)

after_response-le :
    (a : Answer) (count : ℕ) (rest : Outcome × ℕ)
    → count ≤ 31
    → rest.1 ≤ 31
    → (after_response a count rest).1 ≤ 31
after_response-le malformed count rest h k = k
after_response-le absent count rest h k = k
after_response-le (found ip) count rest h k = h

collect-le :
    (rounds : List Round) (start now : ℕ) (last : Option ℕ) (count : ℕ)
    → start ≤ now
    → count ≤ 31
    → IsSpaced start now last count
    → IsOrdered now rounds
    → (collect (start + discovery_timeout) last count rounds).1 ≤ 31
unfolding collect
collect-le [] start now last count after few spaced ordered = few
collect-le (r ∷ rounds) start now last count after few spaced (h1, h2, h3, ordered) =
    elim (Bool-cases (ltb r.checked (start + discovery_timeout))) [
      | inr late ↦ rw (late, collect) few
      | inl early ↦ elim (Bool-cases (is_due last r.asked)) [
        | inl due ↦
            let (next, more) =
              IsSpaced-next start now r.checked r.asked r.sent last count spaced after h1 h2 h3
                (ground (arith, early)) due in
            rw (early, due, collect)
              (if_elim (λ (o : Outcome × ℕ). o.1 ≤ 31) r.send_ok
                (after_response-le r.response (count + 1) _ more (
                  collect-le rounds start r.sent (some r.sent) (count + 1) (omega arith) more next
                    ordered))
                more)
        | inr early_yet ↦
            rw (early, early_yet, collect)
              (after_response-le r.response count _ few (
                collect-le rounds start r.sent last count (omega arith) few
                  (IsSpaced-later start now r.sent last count (omega arith) spaced) ordered))
      ]
    ]

after_response-waiting :
    (a : Answer) (count : ℕ) (rest : Outcome × ℕ)
    → (after_response a count rest).0 ≡ waiting
    → rest.0 ≡ waiting
after_response-waiting malformed count rest h = h
after_response-waiting absent count rest h = h
after_response-waiting (found ip) count rest h = cc

collect-waiting :
    (rounds : List Round) (deadline : ℕ) (last : Option ℕ) (count : ℕ)
    → (collect deadline last count rounds).0 ≡ waiting
    → All (λ r. r.checked < deadline) rounds
unfolding collect
collect-waiting [] deadline last count h = tt
collect-waiting (r ∷ rounds) deadline last count h = elim (Bool-cases (ltb r.checked deadline)) [
  | inr late ↦ cc (rw (late, collect) at h)
  | inl early ↦ (
    ground (arith, early),
    elim (Bool-cases (is_due last r.asked)) [
      | inl due ↦ elim (Bool-cases r.send_ok) [
        | inl sends ↦
            collect-waiting rounds deadline (some r.sent) (count + 1) (
              after_response-waiting r.response (count + 1) _
                (rw (early, due, sends, collect) at h))
        | inr fails ↦ cc (rw (early, due, fails, collect) at h)
      ]
      | inr early_yet ↦
          collect-waiting rounds deadline last count
            (after_response-waiting r.response count _ (rw (early, early_yet, collect) at h))
    ],
  )
]

-- If the clock does not run backwards, the search sends at most 31 queries, however many rounds it
-- goes through; and it is over as soon as the loop is reached 60 seconds after its start.
pub collect_hostname_response_with_retry-bounds :
    (start : ℕ) (rounds : List Round)
    → IsOrdered start rounds
    → ((collect_hostname_response_with_retry start rounds).1 ≤ 31)
      × ((collect_hostname_response_with_retry start rounds).0 ≡ waiting
          → All (λ r. r.checked < start + discovery_timeout) rounds)
unfolding collect_hostname_response_with_retry
collect_hostname_response_with_retry-bounds start rounds ordered = (
  collect-le rounds start start none 0 (omega arith) (omega arith) refl ordered,
  collect-waiting rounds (start + discovery_timeout) none 0,
)
