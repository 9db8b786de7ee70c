-- ===== src/Discovery/Search/Found.antt =====
-- What the search of discovery.go returns.
use pentameter.Prelude.{
  ℕ, ◌+◌, ◌<◌, String, Bool, true, false, Option, none, some, List, [], ◌∷◌, ◌++◌, map, ◌≡◌, refl,
  ap, arith, inl, inr, ◌⊎◌, ltb, Bool-cases, Option-cases, ◌∙◌, sym,
}
use pentameter.IntelliCenter.Result.{ok}
use pentameter.Discovery.{
  Resource, Answer, malformed, absent, found, process_response, IsFirst, process_response-IsFirst,
}
use pentameter.Discovery.Interfaces.{Interface, get_best_multicast_interface}
use pentameter.Discovery.Rounds.{
  Outcome, discovered, query_failed, timed_out, waiting, discovery_timeout, is_due, after_response,
  collect, collect_hostname_response_with_retry,
}
use pentameter.Discovery.Search.{
  HostnameQuery, Read, no_deadline, no_read, bytes_read, Pass, searched, read_and_process_response,
  round_of, discover_intelli_center, search_result,
}

searched-ok : (o : Outcome) (ip : String) → search_result (searched o) ≡ ok ip → o ≡ discovered ip
unfolding search_result
searched-ok (discovered other) ip h = cc
searched-ok query_failed ip h = cc
searched-ok timed_out ip h = cc
searched-ok waiting ip h = cc

after_response-discovered :
    (a : Answer) (count : ℕ) (rest : Outcome × ℕ) (ip : String)
    → (after_response a count rest).0 ≡ discovered ip
    → (a ≡ found ip) ⊎ (rest.0 ≡ discovered ip)
after_response-discovered malformed count rest ip h = inr h
after_response-discovered absent count rest ip h = inr h
after_response-discovered (found other) count rest ip h = inl cc

module _ {Bytes : Type 0} (pack : HostnameQuery → Option Bytes)
    (unpack : Bytes → Option (List Resource)) where
  -- A pass before the deadline read a message that gives the address, by its first answer that gives
  -- any.
  abbrev pub Finds : ℕ → String → Pass Bytes → Type 0
  Finds deadline ip p =
      (p.checked < deadline)
      × ((b : Bytes) × (answers : List Resource) × (p.read ≡ bytes_read b)
          × (unpack b ≡ some answers)
          × IsFirst ip answers)

  abbrev pub FoundAmong : ℕ → String → List (Pass Bytes) → Type 0
  FoundAmong deadline ip passes =
      (before : List (Pass Bytes)) × (p : Pass Bytes) × (after : List (Pass Bytes)) × (passes
        ≡ before ++ p ∷ after)
      × Finds deadline ip p

  read-finds :
      (r : Read Bytes) (ip : String)
      → read_and_process_response pack unpack r ≡ found ip
      → (b : Bytes) × (answers : List Resource) × (r ≡ bytes_read b)
        × (unpack b ≡ some answers)
        × IsFirst ip answers
  unfolding read_and_process_response process_response
  read-finds no_deadline ip h = cc
  read-finds no_read ip h = cc
  read-finds (bytes_read b) ip h = elim (Option-cases (unpack b)) [
    | inl none_there ↦ cc (rw (none_there, process_response) at h)
    | inr (answers, unpacked) ↦ (
      b,
      answers,
      refl,
      unpacked,
      (process_response-IsFirst answers ip).0 (ap process_response (sym unpacked) ∙ h),
    )
  ]

  here-FoundAmong :
      (deadline : ℕ) (ip : String) (p : Pass Bytes) (passes : List (Pass Bytes))
      → p.checked < deadline
      → read_and_process_response pack unpack p.read ≡ found ip
      → FoundAmong deadline ip (p ∷ passes)
  here-FoundAmong deadline ip p passes early answer =
      ([], p, passes, refl, (early, read-finds p.read ip answer))

  later-FoundAmong :
      (deadline : ℕ) (ip : String) (p : Pass Bytes) (passes : List (Pass Bytes))
      → FoundAmong deadline ip passes
      → FoundAmong deadline ip (p ∷ passes)
  later-FoundAmong deadline ip p passes (before, q, after, whole, finds) =
      (p ∷ before, q, after, ap (λ l. p ∷ l) whole, finds)

  collect-FoundAmong :
      (passes : List (Pass Bytes)) (deadline : ℕ) (last : Option ℕ) (count : ℕ) (ip : String)
      → (collect deadline last count (map (round_of pack unpack) passes)).0 ≡ discovered ip
      → FoundAmong deadline ip passes
  unfolding collect round_of
  collect-FoundAmong [] deadline last count ip h = cc
  collect-FoundAmong (p ∷ passes) deadline last count ip h =
      let r = round_of pack unpack p in
      elim (Bool-cases (ltb p.checked deadline)) [
        | inr late ↦ cc (rw (late, collect) at h)
        | inl early ↦ elim (Bool-cases (is_due last p.asked)) [
          | inl due ↦ elim (Bool-cases r.send_ok) [
            | inr fails ↦ cc (rw (early, due, fails, collect) at h)
            | inl sends ↦
                elim (after_response-discovered r.response (count + 1) _ ip
                  (rw (early, due, sends, collect) at h)) [
                    | inl answer ↦
                        here-FoundAmong deadline ip p passes (ground (arith, early)) answer
                    | inr rest ↦
                        later-FoundAmong deadline ip p passes
                          (collect-FoundAmong passes deadline (some p.sent) (count + 1) ip rest)
                  ]
          ]
          | inr not_yet ↦
              elim (after_response-discovered r.response count _ ip
                (rw (early, not_yet, collect) at h)) [
                  | inl answer ↦ here-FoundAmong deadline ip p passes (ground (arith, early)) answer
                  | inr rest ↦
                      later-FoundAmong deadline ip p passes
                        (collect-FoundAmong passes deadline last count ip rest)
                ]
        ]
      ]

  -- If the whole search returns an address, then the socket listened on the best interface, and a
  -- pass that began within 60 seconds of the start read a message that unpacks to answers of which
  -- one gives that address and no earlier one gives any.
  pub discover_intelli_center-FoundAmong :
      (resolves : Bool) (interfaces : Option (List Interface)) (listens : Option Interface → Bool)
      (start : ℕ) (passes : List (Pass Bytes)) (ip : String)
      → search_result (discover_intelli_center pack unpack resolves interfaces listens start passes)
        ≡ ok ip
      → (listens (get_best_multicast_interface interfaces) ≡ true)
        × FoundAmong (start + discovery_timeout) ip passes
  unfolding discover_intelli_center search_result collect_hostname_response_with_retry
  discover_intelli_center-FoundAmong true interfaces listens start passes ip h =
      elim (Bool-cases (listens (get_best_multicast_interface interfaces))) [
        | inr deaf ↦ cc (rw (deaf, discover_intelli_center) at h)
        | inl hears ↦ (
          hears,
          collect-FoundAmong passes (start + discovery_timeout) none 0 ip
              (searched-ok _ ip (rw (hears, discover_intelli_center) at h)),
        )
      ]
  discover_intelli_center-FoundAmong false interfaces listens start passes ip h = cc
