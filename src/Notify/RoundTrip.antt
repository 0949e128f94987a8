-- ===== src/Notify/RoundTrip.antt =====
-- What the transport reads of a notification is what was put in it (apps/api/src/notifications.js,
-- infra/scripts/pilot-notify-deliver.sh).
use roadwisefleet.Prelude.{
  String, ◌≡◌, refl, ap, ◌∙◌, true, false, inl, inr, some, List, map, All, arith, ◌==◌, eq_iff,
  Bool-cases, Option-cases, find-true,
}
use roadwisefleet.Js.{Value, Fields}
use roadwisefleet.Share.Cuts.{is_empty, holds}
use roadwisefleet.Notify.Events.{
  Event, notify_events, Channel, email, whatsapp, sms, Variable, event_name, channel_name,
  variable_name, trimmed, event_of, channel_of, event_variables,
}
use roadwisefleet.Notify.Contacts.{is_recipient}
use roadwisefleet.Notify.Envelope.{
  Entry, envelope, Gathered, stopped, gathered, gather, line, head_entries, render, compose,
  build_envelope,
}
use roadwisefleet.Notify.Reader.{
  entries_of, read_entries, value_after, value_of, drop_nuls, drop_return, entry_in, is_comment,
  as_read,
}
use roadwisefleet.Notify.Lines.{IsLine, IsEntry, line-IsLine, entry_in-line, ended, split-join}
use roadwisefleet.Notify.Contents.{recipient-IsLine}
use roadwisefleet.Notify.Gather.{gather_complete, wanted}

event_name-IsLine : (e : Event) → IsLine (event_name e)
unfolding holds
event_name-IsLine Event.offer_received = (refl, refl)
event_name-IsLine Event.awarded = (refl, refl)
event_name-IsLine Event.driver_assigned = (refl, refl)
event_name-IsLine Event.at_pickup = (refl, refl)
event_name-IsLine Event.in_transit = (refl, refl)
event_name-IsLine Event.delivered = (refl, refl)
event_name-IsLine Event.pod_ready = (refl, refl)
event_name-IsLine Event.invoice_issued = (refl, refl)

channel_name-IsLine : (c : Channel) → IsLine (channel_name c)
unfolding holds
channel_name-IsLine email = (refl, refl)
channel_name-IsLine whatsapp = (refl, refl)
channel_name-IsLine sms = (refl, refl)

blank_line : entries_of (ended List.[]) ≡ List.[]
unfolding entries_of entry_in drop_return drop_nuls is_empty
blank_line = refl

entries_of-some :
    (l : String) (ls : List String) (e : Entry)
    → entry_in (drop_return (drop_nuls l)) ≡ some e
    → entries_of (List.◌∷◌ l ls) ≡ List.◌∷◌ e (entries_of ls)
unfolding entries_of
entries_of-some l ls e h = ground (arith, h)

entries_of-lines :
    (es : List Entry) → All IsEntry es → entries_of (ended (map line es)) ≡ map as_read es
entries_of-lines List.[] h = blank_line
entries_of-lines (List.◌∷◌ e es) h =
    entries_of-some (line e) (ended (map line es)) (as_read e) (entry_in-line e h.0)
    ∙ ap (List.◌∷◌ (as_read e)) (entries_of-lines es h.1)

abbrev rest_entries : Channel → String → List Entry → List Entry
rest_entries c recipient es =
    List.◌∷◌ ("channel", channel_name c) (List.◌∷◌ ("recipient", recipient) es)

event-IsEntry : (e : Event) → IsEntry ("event", event_name e)
unfolding holds is_empty is_comment
event-IsEntry e = (((refl, refl), refl, refl, refl, refl), event_name-IsLine e)

rest-IsEntry :
    (c : Channel) (recipient : String) (es : List Entry)
    → IsLine recipient
    → All IsEntry es
    → All IsEntry (rest_entries c recipient es)
unfolding holds is_empty is_comment
rest-IsEntry c recipient es h hs = (
  (((refl, refl), refl, refl, refl, refl), channel_name-IsLine c),
  ((((refl, refl), refl, refl, refl, refl), h), hs),
)

lines-IsLine : (es : List Entry) → All IsEntry es → All IsLine (map line es)
lines-IsLine List.[] h = tt
lines-IsLine (List.◌∷◌ e es) h = (line-IsLine e h.0, lines-IsLine es h.1)

read_entries-render :
    (e : Event) (c : Channel) (recipient : String) (es : List Entry)
    → IsLine recipient
    → All IsEntry es
    → read_entries (render e c recipient es) ≡ map as_read (head_entries e c recipient es)
unfolding read_entries render
read_entries-render e c recipient es h hs =
    ap (λ z. entries_of (List.◌∷◌ z.0 z.1))
      (split-join (line ("event", event_name e)) (map line (rest_entries c recipient es))
        (line-IsLine ("event", event_name e) (event-IsEntry e))
        (lines-IsLine (rest_entries c recipient es) (rest-IsEntry c recipient es h hs)))
    ∙ entries_of-lines (head_entries e c recipient es)
        (event-IsEntry e, rest-IsEntry c recipient es h hs)

unforged : (v : Variable) → (variable_name v == "recipient") ≡ false
unforged Variable.customer_name = refl
unforged Variable.trip_ref = refl
unforged Variable.pickup = refl
unforged Variable.delivery = refl
unforged Variable.carrier_name = refl
unforged Variable.price = refl
unforged Variable.driver_name = refl
unforged Variable.vehicle = refl
unforged Variable.eta = refl
unforged Variable.link = refl
unforged Variable.invoice_ref = refl
unforged Variable.amount = refl

value_after-other :
    (start key k v : String) (es : List Entry)
    → (k == key) ≡ false
    → value_after start key (List.◌∷◌ (k, v) es) ≡ value_after start key es
unfolding value_after
value_after-other start key k v es h = rw h refl

recipient-kept :
    (vars : Fields) (vs : List Variable) (start : String)
    → value_after start "recipient" (map as_read (wanted vars vs)) ≡ start
unfolding value_after wanted
recipient-kept vars List.[] start = refl
recipient-kept vars (List.◌∷◌ v vs) start =
    value_after-other start "recipient" (variable_name v)
      (drop_nuls (trimmed (vars (variable_name v)))) (map as_read (wanted vars vs)) (unforged v)
    ∙ recipient-kept vars vs start

sent_to :
    (e : Event) (c : Channel) (r : String) (vars : Fields) (vs : List Variable)
    → value_after "" "recipient" (map as_read (head_entries e c r (wanted vars vs))) ≡ drop_nuls r
unfolding value_after
sent_to e c r vars vs = recipient-kept vars vs (drop_nuls r)

event_of-name : (s : String) (e : Event) → event_of s ≡ some e → s ≡ event_name e
unfolding event_of
event_of-name s e h = named (event_name e) s (find-true (λ x. event_name x == s) notify_events e h)
  where
    named : (a b : String) → (a == b) ≡ true → b ≡ a
    named a b same = ground (arith, same, eq_iff a b)

compose-gathered :
    (e : Event) (c : Channel) (r : String) (g : Gathered) (t : String) (keys : List String)
    → compose e c r g ≡ envelope t keys
    → (es : List Entry) × (g ≡ gathered es List.[]) × (t ≡ render e c r es)
unfolding compose
compose-gathered e c r (stopped v) t keys h = absurd (ground (arith, h))
compose-gathered e c r (gathered es List.[]) t keys h = (es, refl, ground (arith, h))
compose-gathered e c r (gathered es (List.◌∷◌ m ms)) t keys h = absurd (ground (arith, h))

-- If an envelope is built, the event and the channel are known, the contact is one of the channel,
-- and what the transport reads of the text is the event, the channel, the trimmed contact and then
-- the variables of the event with their trimmed values, each once and in their order and nothing
-- else, each value without the NULs that the shell drops; no value changes the contact that the
-- transport sends to.
pub read_entries-build_envelope :
    (event channel recipient : Value) (vars : Fields) (t : String) (keys : List String)
    → build_envelope event channel recipient vars ≡ envelope t keys
    → (e : Event) × (c : Channel) × (trimmed event ≡ event_name e)
      × (channel_of channel ≡ some c)
      × (is_recipient c recipient ≡ true)
      × (read_entries t
          ≡ map as_read (head_entries e c (trimmed recipient) (wanted vars (event_variables e))))
      × (value_of t "recipient" ≡ drop_nuls (trimmed recipient))
unfolding build_envelope value_of
read_entries-build_envelope event channel recipient vars t keys h =
    elim (Option-cases (event_of (trimmed event))) [
      | inl unknown ↦ absurd (ground (arith, h, unknown))
      | inr (e, known) ↦ elim (Option-cases (channel_of channel)) [
        | inl unknown ↦ absurd (ground (arith, h, known, unknown))
        | inr (c, found) ↦ elim (Bool-cases (is_recipient c recipient)) [
          | inl usable ↦
              let (es, full, text_is) =
                compose-gathered e c (trimmed recipient) (gather vars (event_variables e)) t keys
                  (ground (arith, h, known, found, usable)) in
              let (same, all) = gather_complete vars (event_variables e) es full in
              let read =
                ap read_entries text_is
                ∙ ap (λ z. read_entries (render e c (trimmed recipient) z)) same
                ∙ read_entries-render e c (trimmed recipient) (wanted vars (event_variables e))
                    (recipient-IsLine c recipient usable) all in
              (
                e,
                c,
                event_of-name (trimmed event) e known,
                found,
                usable,
                read,
                ap (value_after "" "recipient") read
                    ∙ sent_to e c (trimmed recipient) vars (event_variables e),
              )
          | inr unusable ↦ absurd (ground (arith, h, known, found, unusable))
        ]
      ]
    ]
