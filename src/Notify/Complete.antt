-- ===== src/Notify/Complete.antt =====
-- The variables that `lifecycleVars` gives are all that `buildEnvelope` asks for
-- (apps/api/src/notifications.js).
use roadwisefleet.Prelude.{
  String, ◌≡◌, ◌≢◌, sym, ap, ◌∙◌, inl, inr, ◌⊎◌, Option, none, some, List, arith, Bool-cases,
  Option-cases,
}
use roadwisefleet.Js.{Value, Fields}
use roadwisefleet.Notify.Events.{
  Event, Channel, Variable, trimmed, event_of, channel_of, event_variables,
}
use roadwisefleet.Notify.Contacts.{is_recipient}
use roadwisefleet.Notify.Envelope.{
  EnvelopeReply, unknown_event, unknown_channel, invalid_recipient, missing_variable, Gathered,
  stopped, gathered, gather, compose, build_envelope,
}
use roadwisefleet.Notify.Vars.{
  Context, var_at, collect, VarsReply, no_such_event, complete, vars_reply, lifecycle_vars,
}
use roadwisefleet.Notify.Refs.{Formats}
use roadwisefleet.Notify.Collected.{
  compose-full, var_at-IsText, missing_of, collect-IsGiven, gather-full,
}

vars_reply-complete :
    (r : Fields × List Variable) (out : Fields) → vars_reply r ≡ complete out → r ≡ (out, List.[])
unfolding vars_reply
vars_reply-complete (o, List.[]) out h = ap (λ z. (z, List.[])) (is_out h)
  where
    is_out : complete o ≡ complete out → o ≡ out
    is_out e = cc e
vars_reply-complete (o, List.◌∷◌ m ms) out h = absurd (ground (arith, h))

lifecycle_vars-known :
    (f : Formats) (ctx : Context) (out : Fields)
    → lifecycle_vars f ctx ≡ complete out
    → (e : Event) × (event_of (trimmed ctx.event) ≡ some e)
      × (collect (var_at f ctx) (event_variables e) ≡ (out, List.[]))
unfolding lifecycle_vars
lifecycle_vars-known f ctx out h = elim (Option-cases (event_of (trimmed ctx.event))) [
  | inl unknown ↦ absurd (ground (arith, h, unknown))
  | inr (e, known) ↦ (
    e,
    known,
    vars_reply-complete (collect (var_at f ctx) (event_variables e)) out
        (sym (ap (reply_of) known) ∙ h),
  )
]
  where
    reply_of : Option Event → VarsReply
    reply_of none = no_such_event
    reply_of (some e) = vars_reply (collect (var_at f ctx) (event_variables e))

compose-known :
    (e : Event) (c : Channel) (r : String) (g : Gathered) → compose e c r g ≢ unknown_event
unfolding compose
compose-known e c r (stopped v) g = ground (arith, g)
compose-known e c r (gathered es List.[]) g = ground (arith, g)
compose-known e c r (gathered es (List.◌∷◌ m ms)) g = ground (arith, g)

-- What is built for an event of the catalogue is what is composed, unless the channel or the contact
-- is refused.
build_envelope-cases :
    (event channel recipient : Value) (vars : Fields) (e : Event) (reply : EnvelopeReply)
    → event_of (trimmed event) ≡ some e
    → build_envelope event channel recipient vars ≡ reply
    → (reply ≡ unknown_channel)
      ⊎ ((reply ≡ invalid_recipient)
          ⊎ ((c : Channel) × (compose e c (trimmed recipient) (gather vars (event_variables e))
                ≡ reply)))
unfolding build_envelope
build_envelope-cases event channel recipient vars e reply known h =
    elim (Option-cases (channel_of channel)) [
      | inl unknown ↦ inl (ground (arith, h, known, unknown))
      | inr (c, found) ↦ elim (Bool-cases (is_recipient c recipient)) [
        | inl usable ↦ inr (inr (c, ground (arith, h, known, found, usable)))
        | inr unusable ↦ inr (inl (ground (arith, h, known, found, unusable)))
      ]
    ]

build_envelope-known :
    (event channel recipient : Value) (vars : Fields) (e : Event)
    → event_of (trimmed event) ≡ some e
    → build_envelope event channel recipient vars ≢ unknown_event
build_envelope-known event channel recipient vars e known h =
    elim (build_envelope-cases event channel recipient vars e unknown_event known h) [
      | inl g ↦ ground (arith, g)
      | inr (inl g) ↦ ground (arith, g)
      | inr (inr (c, g)) ↦ compose-known e c (trimmed recipient) (gather vars (event_variables e)) g
    ]

build_envelope-full :
    (event channel recipient : Value) (vars : Fields) (e : Event) (vs : List Variable)
    → event_of (trimmed event) ≡ some e
    → missing_of (gather vars (event_variables e)) ≡ List.[]
    → build_envelope event channel recipient vars ≢ missing_variable vs
build_envelope-full event channel recipient vars e vs known full h =
    elim (build_envelope-cases event channel recipient vars e (missing_variable vs) known h) [
      | inl g ↦ ground (arith, g)
      | inr (inl g) ↦ ground (arith, g)
      | inr (inr (c, g)) ↦
          compose-full e c (trimmed recipient) (gather vars (event_variables e)) vs full g
    ]

-- If `lifecycleVars` gives the variables of an event, then `buildEnvelope` with them refuses the
-- event neither as unknown nor for a variable that is missing, on any channel and for any contact.
pub build_envelope-lifecycle_vars :
    (f : Formats) (ctx : Context) (out : Fields) (channel recipient : Value) (vs : List Variable)
    → lifecycle_vars f ctx ≡ complete out
    → (build_envelope ctx.event channel recipient out ≢ unknown_event)
      × (build_envelope ctx.event channel recipient out ≢ missing_variable vs)
build_envelope-lifecycle_vars f ctx out channel recipient vs h =
    let (e, known, collected) = lifecycle_vars-known f ctx out h in
    let given =
      collect-IsGiven (var_at f ctx) (var_at-IsText f ctx) (event_variables e) out collected in
    let full = gather-full (var_at f ctx) (var_at-IsText f ctx) out (event_variables e) given in
    (
      build_envelope-known ctx.event channel recipient out e known,
      build_envelope-full ctx.event channel recipient out e vs known full,
    )
