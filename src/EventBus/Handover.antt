-- ===== src/EventBus/Handover.antt =====
-- pkg/eventbus/retry_dlq.go: what the dead letters and the quarantine are given of a message that
-- was given up.
use nimburion.Base.{
  Bool-cases, true, false, ◌∙◌, codes, ℕ, suc, List, [], ◌∷◌, ◌++◌, is_none, Option, ℤ, ◌≡◌, refl,
  ◌⊎◌, inl, inr, arith,
}
use nimburion.Errors.{Err}
use nimburion.Retry.{Decision, decide, classify}
use nimburion.EventBus.{
  Message, normalize, Call, handles, publishes, quarantines, inc_dlq, inc_dlq_failure, Environment,
}
use nimburion.EventBus.Consume.{
  dlq_message, quarantine_record, is_quarantine, Consumer, count, send_to_dlq, dispose, budget_of,
}

-- How often the handler ran.
abbrev pub tries : List Call → ℕ
tries [] = 0
tries (handles m ∷ calls) = suc (tries calls)
tries (_ ∷ calls) = tries calls

-- What went to a sink: the calls that publish or quarantine.
abbrev pub handed : List Call → List Call
handed [] = []
handed (publishes t d ∷ calls) = publishes t d ∷ handed calls
handed (quarantines q ∷ calls) = quarantines q ∷ handed calls
handed (_ ∷ calls) = handed calls

-- The message went to the dead-letter topic of the consumer, with its own fields in the payload,
-- or to the quarantine, under a key that names it, where there is one.
abbrev pub IsHandedOver : Consumer → Message → Call → Type 0
IsHandedOver c m (publishes t d) =
    (t ≡ c.topic ++ (normalize c.config).dlq_topic_suffix)
    × (d.id ≡ m.id)
    × (d.key ≡ m.key)
    × (d.value.original_topic ≡ c.topic)
    × (d.value.original_id ≡ m.id)
    × (d.value.original_key ≡ m.key)
    × (d.value.original_body ≡ m.value)
    × (d.value.original_header ≡ m.headers)
IsHandedOver c m (quarantines q) =
    (c.has_quarantine ≡ true) × (q.key ≡ c.topic ++ (codes ":" ++ m.id))
IsHandedOver c m _ = ⊥

module _ (env : Environment) (c : Consumer) (m : Message) where
  count-quiet :
      (k : Call) (calls : List Call)
      → (k ≡ inc_dlq) ⊎ (k ≡ inc_dlq_failure)
      → (handed (count env c m k calls).1 ≡ handed calls)
        × (tries (count env c m k calls).1 ≡ tries calls)
  unfolding count
  count-quiet k calls (inl e) = (ground arith, ground arith)
  count-quiet k calls (inr e) = (ground arith, ground arith)

  abbrev pub Handed : List Call → List Call → Type 0
  Handed calls after =
      (sink : Call) × IsHandedOver c m sink
      × (handed after ≡ sink ∷ handed calls)
      × (tries after ≡ tries calls)

  send_to_dlq-Handed :
      (f : Option Err) (n : ℤ) (calls : List Call)
      → Handed calls
          (send_to_dlq env c m (c.topic ++ (normalize c.config).dlq_topic_suffix) f n calls).1
  unfolding send_to_dlq
  send_to_dlq-Handed f n calls =
      let topic = c.topic ++ (normalize c.config).dlq_topic_suffix in
      (
        publishes topic (dlq_message env c m f n calls),
        (refl, refl, refl, refl, refl, refl, refl, refl),
        ground arith,
        ground arith,
      )

  Handed-quiet :
      (calls sent after : List Call)
      → handed after ≡ handed sent
      → tries after ≡ tries sent
      → Handed calls sent
      → Handed calls after
  Handed-quiet calls sent after h t (sink, is, k, u) = (sink, is, h ∙ k, t ∙ u)

  abbrev decision_of : ℤ → Option Err → Decision
  decision_of used last =
      let b = budget_of (normalize c.config) in
      decide (classify last) used b.max_attempts b
        (record { dead_letter_enabled = true; quarantine_enabled = c.has_quarantine })

  quarantine-enabled :
      (used : ℤ) (last : Option Err)
      → is_quarantine (decision_of used last).disposition ≡ true
      → c.has_quarantine ≡ true
  unfolding decide
  quarantine-enabled used last h = ground (arith, h)

  pub dispose-Handed :
      (used : ℤ) (last : Option Err) (calls : List Call)
      → let t = dispose env c m (normalize c.config) used last calls in
        (is_none t.0 ≡ false) × Handed calls t.1
  unfolding dispose
  dispose-Handed used last calls =
      let topic = c.topic ++ (normalize c.config).dlq_topic_suffix in
      let (e, sent) = send_to_dlq env c m topic last used calls in
      let a = count-quiet inc_dlq sent (inl refl) in
      let d = count-quiet inc_dlq_failure sent (inr refl) in
      elim (Bool-cases (is_quarantine (decision_of used last).disposition)) [
        | inl stored ↦
            let q = quarantine_record env c m (decision_of used last) last (env.clock calls) in
            (
              ground (arith, stored),
              (
                quarantines q,
                (quarantine-enabled used last stored, refl),
                ground (arith, stored),
                ground (arith, stored),
              ),
            )
        | inr refused ↦
            let after = dispose env c m (normalize c.config) used last calls in
            (
              ground arith,
              Handed-quiet calls sent after.1 (ground (arith, refused, a.0, d.0))
                  (ground (arith, refused, a.1, d.1)) (send_to_dlq-Handed last used calls),
            )
      ]
