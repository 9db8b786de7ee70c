-- ===== src/Advertise/Relevant.antt =====
-- What the responder of advertise.go sends answers what was asked.
use pentameter.Prelude.{
  String, Bool, true, false, Option, none, some, List, [], ◌∷◌, ◌&&◌, ◌≡◌, ◌⊎◌, inl, inr, refl,
  arith, All, All-append, All-weaken, eq_iff, if◌then◌else◌, if_elim, if_elim_then,
}
use pentameter.Prelude.Text.{to_lower, equal_fold}
use pentameter.Advertise.{
  RecordType, type_a, type_ptr, type_srv, type_txt, same_type, Question, Resource, Message,
  MdnsAdvertiser, ServiceType, Packet, unicast_to, multicast, wants_unicast, all_service_types,
  dns_sd_service_name, pentameter_hostname, build_a_response, build_ptr_response,
  build_srv_response, build_txt_response, enum_responses, build_service_enum_responses,
  service_responses, build_responses, send_response, send_responses, answer_question,
  answer_questions, handle_query,
}

-- The record is of the type that the question asks for, and of its name in some case of its letters.
abbrev pub Matches : Question → Resource → Type 0
Matches q r =
    (to_lower r.name ≡ to_lower q.name) × (same_type q.question_type r.resource_type ≡ true)

-- The message is a response whose answers all match the question.
abbrev pub IsRelevant : Question → Message → Type 0
IsRelevant q m = (m.response ≡ true) × All (Matches q) m.answers

tested :
    (q : Question) (name : String) (t : RecordType)
    → (equal_fold q.name name && same_type q.question_type t) ≡ true
    → (to_lower name ≡ to_lower q.name) × (same_type q.question_type t ≡ true)
tested q name t h = (ground (arith, eq_iff (to_lower q.name) (to_lower name), h), ground (arith, h))

enum_responses-IsRelevant :
    (q : Question) (services : List ServiceType)
    → (to_lower dns_sd_service_name ≡ to_lower q.name) × (same_type q.question_type type_ptr ≡ true)
    → All (IsRelevant q) (enum_responses services)
unfolding enum_responses
enum_responses-IsRelevant q [] h = tt
enum_responses-IsRelevant q (svc ∷ services) h =
    ((refl, (h, tt)), enum_responses-IsRelevant q services h)

service_responses-IsRelevant :
    (a : MdnsAdvertiser) (q : Question) (services : List ServiceType)
    → All (IsRelevant q) (service_responses a q services)
unfolding service_responses build_ptr_response build_srv_response build_txt_response
service_responses-IsRelevant a q [] = tt
service_responses-IsRelevant a q (svc ∷ services) =
    let Relevant = All (IsRelevant q) in
    if_elim_then Relevant (equal_fold q.name svc.service && same_type q.question_type type_ptr)
      (λ h. ((refl, (tested q svc.service type_ptr h, tt)), tt))
      (if_elim_then Relevant
        (equal_fold q.name svc.instance_name && same_type q.question_type type_srv)
        (λ h. ((refl, (tested q svc.instance_name type_srv h, tt)), tt))
        (if_elim_then Relevant
          (equal_fold q.name svc.instance_name && same_type q.question_type type_txt)
          (λ h. ((refl, (tested q svc.instance_name type_txt h, tt)), tt))
          (service_responses-IsRelevant a q services)))

pub build_responses-IsRelevant :
    (a : MdnsAdvertiser) (q : Question) → All (IsRelevant q) (build_responses a q)
unfolding build_responses build_a_response build_service_enum_responses
build_responses-IsRelevant a q =
    let Relevant = All (IsRelevant q) in
    if_elim_then Relevant
      (equal_fold q.name pentameter_hostname && same_type q.question_type type_a)
      (λ h. ((refl, ((refl, (tested q pentameter_hostname type_a h).1), tt)), tt))
      (if_elim_then Relevant
        (equal_fold q.name dns_sd_service_name && same_type q.question_type type_ptr)
        (λ h.
          enum_responses-IsRelevant q all_service_types (tested q dns_sd_service_name type_ptr h))
        (service_responses-IsRelevant a q all_service_types))

module _ {P : Type 0} {R : Type 0} (pack : Message → Option P) (remote : R) where
  -- The packet holds a response to the question, and goes where the question wants it.
  unfoldable pub Replies : Question → Packet P R → Type 0
  Replies q s =
      (m : Message) × (p : P) × IsRelevant q m
      × (pack m ≡ some p)
      × (s ≡ (if wants_unicast q.class then unicast_to remote p else multicast p))

  unfoldable pub RepliesToAny : List Question → Packet P R → Type 0
  RepliesToAny [] s = ⊥
  RepliesToAny (q ∷ questions) s = Replies q s ⊎ RepliesToAny questions s

  send_response-sends :
      (unicast : Bool) (p : P)
      → All
          (λ (s : Packet P R). s ≡ (if unicast then unicast_to remote p else multicast p))
          (send_response pack unicast remote (some p))
  send_response-sends true p = (refl, tt)
  send_response-sends false p = (refl, tt)

  send_response-Replies :
      (q : Question) (m : Message)
      → IsRelevant q m
      → (o : Option P) → pack m ≡ o
      → All (Replies q) (send_response pack (wants_unicast q.class) remote o)
  unfolding Replies
  send_response-Replies q m relevant none packed = tt
  send_response-Replies q m relevant (some p) packed =
      All-weaken _ (Replies q) (λ s goes. (m, p, relevant, packed, goes))
        (send_response pack (wants_unicast q.class) remote (some p))
        (send_response-sends (wants_unicast q.class) p)

  send_responses-Replies :
      (q : Question) (responses : List Message)
      → All (IsRelevant q) responses
      → All (Replies q) (send_responses pack (wants_unicast q.class) remote responses)
  unfolding send_responses
  send_responses-Replies q [] h = tt
  send_responses-Replies q (m ∷ responses) (hm, h) =
      All-append (Replies q) (send_response pack (wants_unicast q.class) remote (pack m))
        (send_responses pack (wants_unicast q.class) remote responses)
        (send_response-Replies q m hm (pack m) refl) (send_responses-Replies q responses h)

  answer_questions-Replies :
      (a : MdnsAdvertiser) (questions : List Question)
      → All (RepliesToAny questions) (answer_questions pack a remote questions)
  unfolding answer_questions answer_question RepliesToAny
  answer_questions-Replies a [] = tt
  answer_questions-Replies a (q ∷ questions) =
      All-append (RepliesToAny (q ∷ questions)) (answer_question pack a remote q)
        (answer_questions pack a remote questions)
        (All-weaken (Replies q) (RepliesToAny (q ∷ questions)) (λ s h. inl h)
          (answer_question pack a remote q)
          (send_responses-Replies q (build_responses a q) (build_responses-IsRelevant a q)))
        (All-weaken (RepliesToAny questions) (RepliesToAny (q ∷ questions)) (λ s h. inr h)
          (answer_questions pack a remote questions) (answer_questions-Replies a questions))

  -- Each packet sent for a query is a packed response to one of its questions: its answers are of the
  -- type and the name that the question asks for, in some case of the letters; and it goes to the
  -- querier if that question has the unicast bit, to the multicast group otherwise.
  pub handle_query-Replies :
      (a : MdnsAdvertiser) (query : Message)
      → All (RepliesToAny query.questions) (handle_query pack a remote (some query))
  unfolding handle_query
  handle_query-Replies a query =
      if_elim (All (RepliesToAny query.questions)) query.response tt
        (answer_questions-Replies a query.questions)
