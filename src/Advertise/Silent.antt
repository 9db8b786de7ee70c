-- ===== src/Advertise/Silent.antt =====
-- The responder of advertise.go hears its own multicast packets, for the loopback is on.
use pentameter.Prelude.{
  Bool, true, Option, some, List, [], ◌∷◌, ◌≡◌, inl, inr, refl, ap, ◌∙◌, All, All-weaken,
  if◌then◌else◌, if_elim,
}
use pentameter.Advertise.{
  Question, Message, MdnsAdvertiser, Packet, unicast_to, multicast, wants_unicast, handle_query,
}
use pentameter.Advertise.Relevant.{Replies, RepliesToAny, handle_query-Replies}

-- What was packed unpacks, and is a response if it was one.
abbrev pub KeepsResponse : {P : Type 0} → (Message → Option P) → (P → Option Message) → Type 0
KeepsResponse {P} pack unpack =
    (m : Message) (p : P)
    → pack m ≡ some p
    → (n : Message) × (unpack p ≡ some n) × (n.response ≡ m.response)

module _ {P : Type 0} {R : Type 0} (pack : Message → Option P) (unpack : P → Option Message) where
  abbrev pub payload : Packet P R → P
  payload (unicast_to r p) = p
  payload (multicast p) = p

  payload-goes :
      (unicast : Bool) (r : R) (p : P)
      → payload (if unicast then unicast_to r p else multicast p) ≡ p
  payload-goes unicast r p = if_elim (λ (s : Packet P R). payload s ≡ p) unicast refl refl

  response-ignored :
      (a : MdnsAdvertiser) (r : R) (n : Message)
      → n.response ≡ true
      → handle_query pack a r (some n) ≡ []
  unfolding handle_query
  response-ignored a r n h = rw h refl

  module _ (keeps : KeepsResponse pack unpack) (a b : MdnsAdvertiser) (remote r : R) where
    Replies-ignored :
        (q : Question) (s : Packet P R)
        → Replies pack remote q s
        → handle_query pack b r (unpack (payload s)) ≡ []
    unfolding Replies
    Replies-ignored q s (m, p, (response, answers), packed, goes) =
        let (n, unpacked, same) = keeps m p packed in
        ap (λ (t : Packet P R). handle_query pack b r (unpack (payload t))) goes
        ∙ (ap (λ x. handle_query pack b r (unpack x))
              (payload-goes (wants_unicast q.class) remote p)
            ∙ (ap (handle_query pack b r) unpacked ∙ response-ignored b r n (same ∙ response)))

    RepliesToAny-ignored :
        (questions : List Question) (s : Packet P R)
        → RepliesToAny pack remote questions s
        → handle_query pack b r (unpack (payload s)) ≡ []
    unfolding RepliesToAny
    RepliesToAny-ignored [] s h = absurd h
    RepliesToAny-ignored (q ∷ questions) s (inl h) = Replies-ignored q s h
    RepliesToAny-ignored (q ∷ questions) s (inr h) = RepliesToAny-ignored questions s h

    -- If packing keeps whether a message is a response, then no packet that is sent for a query makes
    -- a responder, this one or another, send anything: there is no loop of answers to answers.
    pub handle_query-ignored :
        (query : Message)
        → All
            (λ (s : Packet P R). handle_query pack b r (unpack (payload s)) ≡ [])
            (handle_query pack a remote (some query))
    handle_query-ignored query =
        All-weaken (RepliesToAny pack remote query.questions)
          (λ (s : Packet P R). handle_query pack b r (unpack (payload s)) ≡ [])
          (RepliesToAny-ignored query.questions) (handle_query pack a remote (some query))
          (handle_query-Replies pack remote a query)
