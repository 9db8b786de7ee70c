-- ===== src/Discovery.antt =====
-- The answers that discovery.go accepts: `checkAnswerForPentair` and `processResponse`. The package
-- dnsmessage unpacks a message; here it is given unpacked.
pub mod Interfaces
pub mod Rounds
pub mod Search
use pentameter.Prelude.{
  String, Bool, true, Option, none, some, List, [], ◌∷◌, ◌++◌, ◌≡◌, refl, arith, All, if◌then◌else◌,
  ◌↔◌, ap, ◌∙◌, inl, inr, Option-cases,
}
use pentameter.Prelude.Text.{to_lower, contains}

-- One answer: its type, its name, and the text of the address if its body is one of type A.
pub record Resource : Type 0 where
  pub is_type_a : Bool
  pub name : String
  pub address : Option String

-- What `processResponse` returns: an error, no address, or one.
pub data Answer : Type 0 where
  malformed absent : Answer
  found : String → Answer

-- `checkAnswerForPentair`
unfoldable pub check_answer_for_pentair : Resource → Option String
check_answer_for_pentair answer =
    if answer.is_type_a
    then (if contains (to_lower answer.name) "pentair" then answer.address else none)
    else none

-- The loop of `processResponse`.
unfoldable pub first_answer : List Resource → Answer
unfolding check_answer_for_pentair
first_answer [] = absent
first_answer (a ∷ answers) =
    let rest = first_answer answers in
    elim (check_answer_for_pentair a) [ none ↦ rest | some ip ↦ found ip ]

-- `processResponse`, over the message if it unpacks.
unfoldable pub process_response : Option (List Resource) → Answer
unfolding first_answer
process_response none = malformed
process_response (some answers) = first_answer answers

-- The answer gives the address: it is an address record of a name that contains `pentair` in any
-- case of its letters.
abbrev pub Gives : String → Resource → Type 0
Gives ip a =
    (a.is_type_a ≡ true) × (contains (to_lower a.name) "pentair" ≡ true) × (a.address ≡ some ip)

-- The answer is the first of a message that gives an address.
abbrev pub IsFirst : String → List Resource → Type 0
IsFirst ip answers =
    (before : List Resource) × (a : Resource) × (after : List Resource) × (answers
      ≡ before ++ a ∷ after)
    × Gives ip a
    × All (λ (b : Resource). (other : String) → Gives other b → ⊥) before

check-Gives : (ip : String) (a : Resource) → Gives ip a → check_answer_for_pentair a ≡ some ip
unfolding check_answer_for_pentair
check-Gives ip a h = ground arith

Gives-check : (ip : String) (a : Resource) → check_answer_for_pentair a ≡ some ip → Gives ip a
unfolding check_answer_for_pentair
Gives-check ip a h = (ground arith, ground arith, ground arith)

first_answer-finds :
    (ip : String) (before after : List Resource) (a : Resource)
    → Gives ip a
    → All (λ (b : Resource). (other : String) → Gives other b → ⊥) before
    → first_answer (before ++ a ∷ after) ≡ found ip
unfolding first_answer
first_answer-finds ip [] after a h none_before = ground (arith, check-Gives ip a h)
first_answer-finds ip (b ∷ before) after a h none_before =
    elim (Option-cases (check_answer_for_pentair b)) [
      | inl nothing ↦ ground (arith, first_answer-finds ip before after a h none_before.1)
      | inr (other, gives) ↦ absurd (none_before.0 other (Gives-check other b gives))
    ]

first_answer-IsFirst :
    (ip : String) (answers : List Resource) → first_answer answers ≡ found ip → IsFirst ip answers
unfolding first_answer
first_answer-IsFirst ip [] h = cc
first_answer-IsFirst ip (a ∷ answers) h = elim (Option-cases (check_answer_for_pentair a)) [
  | inl nothing ↦
      let (before, b, after, whole, gives, none_before) =
        first_answer-IsFirst ip answers (rw (nothing, first_answer) at h) in
      (
        a ∷ before,
        b,
        after,
        ap (λ rest. a ∷ rest) whole,
        gives,
        ((λ other h'. cc (nothing, check-Gives other a h')), none_before),
      )
  | inr (other, gives) ↦
      let same : other ≡ ip = cc (rw (gives, first_answer) at h) in
      ([], a, answers, refl, Gives-check ip a (gives ∙ ap some same), tt)
]

-- A message that unpacks yields an address exactly if one of its answers gives it and no earlier
-- answer gives any.
pub process_response-IsFirst :
    (answers : List Resource) (ip : String)
    → (process_response (some answers) ≡ found ip) ↔ IsFirst ip answers
unfolding process_response
process_response-IsFirst answers ip = (
  first_answer-IsFirst ip answers,
  λ (before, a, after, whole, gives, none_before).
      rw whole (first_answer-finds ip before after a gives none_before),
)
