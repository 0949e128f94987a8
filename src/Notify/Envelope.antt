-- ===== src/Notify/Envelope.antt =====
-- The text of one notification: `buildEnvelope` of apps/api/src/notifications.js.
use Prim.Native.String.{[], ◌∷◌, ◌++◌}
use roadwisefleet.Prelude.{String, Bool, not, ◌||◌, none, some, List, map, if◌then◌else◌}
use roadwisefleet.Prelude.Text.{trim}
use roadwisefleet.Js.{Value, text, Fields}
use roadwisefleet.Share.Cuts.{is_empty, holds}
use roadwisefleet.Notify.Events.{
  Event, Channel, Variable, event_name, channel_name, variable_name, trimmed, event_of, channel_of,
  event_variables,
}
use roadwisefleet.Notify.Contacts.{is_recipient}

-- A key and its value.
abbrev pub Entry : Type 0
Entry = String × String

pub data EnvelopeReply : Type 0 where
  unknown_event unknown_channel invalid_recipient : EnvelopeReply
  invalid_variable : Variable → EnvelopeReply
  missing_variable : List Variable → EnvelopeReply
  envelope : String → List String → EnvelopeReply

-- `/[\r\n]/.test(value)`
unfoldable pub has_break : String → Bool
has_break s = holds 13 s || holds 10 s

-- The loop over the variables: the entries pushed and the keys missing, or the variable that stops it.
pub data Gathered : Type 0 where
  stopped : Variable → Gathered
  gathered : List Entry → List Variable → Gathered

unfoldable pub add_missing : Variable → Gathered → Gathered
add_missing v (stopped w) = stopped w
add_missing v (gathered es ms) = gathered es (List.◌∷◌ v ms)

unfoldable pub add_entry : Variable → String → Gathered → Gathered
add_entry v s (stopped w) = stopped w
add_entry v s (gathered es ms) = gathered (List.◌∷◌ (variable_name v, s) es) ms

-- One round, given what the later ones give.
unfoldable pub gather_one : Variable → Value → Gathered → Gathered
gather_one v (text s) rest =
    if is_empty (trim s)
    then add_missing v rest
    else if has_break s
    then stopped v
    else add_entry v (trim s) rest
gather_one v _ rest = add_missing v rest

unfoldable pub gather : Fields → List Variable → Gathered
gather vars List.[] = gathered List.[] List.[]
gather vars (List.◌∷◌ v vs) = gather_one v (vars (variable_name v)) (gather vars vs)

unfoldable pub line : Entry → String
line (k, v) = k ++ ("=" ∷ v)

-- `[l, ...ls].join('\n')`
unfoldable pub join_lines : String → List String → String
join_lines l List.[] = l
join_lines l (List.◌∷◌ m ms) = l ++ ("\n" ∷ join_lines m ms)

abbrev pub head_entries : Event → Channel → String → List Entry → List Entry
head_entries e c recipient es =
    List.◌∷◌ ("event", event_name e)
      (List.◌∷◌ ("channel", channel_name c) (List.◌∷◌ ("recipient", recipient) es))

unfoldable pub render : Event → Channel → String → List Entry → String
render e c recipient es =
    join_lines (line ("event", event_name e)) (
      List.◌∷◌ (line ("channel", channel_name c))
        (List.◌∷◌ (line ("recipient", recipient)) (map line es)))
    ++ ("\n" ∷ [])

unfoldable pub compose : Event → Channel → String → Gathered → EnvelopeReply
compose e c recipient (stopped v) = invalid_variable v
compose e c recipient (gathered es (List.◌∷◌ m ms)) = missing_variable (List.◌∷◌ m ms)
compose e c recipient (gathered es List.[]) =
    envelope (render e c recipient es) (map (λ p. p.0) (head_entries e c recipient es))

-- `buildEnvelope(event, channel, recipient, vars)`
unfoldable pub build_envelope : Value → Value → Value → Fields → EnvelopeReply
build_envelope event channel recipient vars = elim (event_of (trimmed event)) [
  | none ↦ unknown_event
  | some e ↦ elim (channel_of channel) [
    | none ↦ unknown_channel
    | some c ↦
        if not (is_recipient c recipient)
        then invalid_recipient
        else compose e c (trimmed recipient) (gather vars (event_variables e))
  ]
]
