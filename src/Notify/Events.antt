-- ===== src/Notify/Events.antt =====
-- The events, the channels and the variables of each template (apps/api/src/notifications.js).
use Prim.Native.String.{[]}
use roadwisefleet.Prelude.{String, List, Option, none, ◌==◌, find}
use roadwisefleet.Js.{Value, text}
use roadwisefleet.Prelude.Text.{trim}

pub data Event : Type 0 where
  offer_received awarded driver_assigned at_pickup in_transit delivered pod_ready invoice_issued :
      Event

pub data Channel : Type 0 where
  email whatsapp sms : Channel

-- `NOTIFY_EVENTS` and `NOTIFY_CHANNELS`, in their order
abbrev pub notify_events : List Event
notify_events = List.◌∷◌ offer_received (
    List.◌∷◌ awarded (
      List.◌∷◌ driver_assigned (
        List.◌∷◌ at_pickup (
          List.◌∷◌ in_transit
            (List.◌∷◌ delivered (List.◌∷◌ pod_ready (List.◌∷◌ invoice_issued List.[])))))))

abbrev pub notify_channels : List Channel
notify_channels = List.◌∷◌ email (List.◌∷◌ whatsapp (List.◌∷◌ sms List.[]))

abbrev pub event_name : Event → String
event_name offer_received = "offer_received"
event_name awarded = "awarded"
event_name driver_assigned = "driver_assigned"
event_name at_pickup = "at_pickup"
event_name in_transit = "in_transit"
event_name delivered = "delivered"
event_name pod_ready = "pod_ready"
event_name invoice_issued = "invoice_issued"

abbrev pub channel_name : Channel → String
channel_name email = "email"
channel_name whatsapp = "whatsapp"
channel_name sms = "sms"

-- `typeof value === 'string' ? value.trim() : ''`
unfoldable pub trimmed : Value → String
trimmed (text s) = trim s
trimmed _ = []

-- The event that a name stands for, `none` unless `NOTIFY_EVENTS.includes(name)`.
unfoldable pub event_of : String → Option Event
event_of s = find (λ e. event_name e == s) notify_events

unfoldable pub channel_of : Value → Option Channel
channel_of (text s) = find (λ c. channel_name c == s) notify_channels
channel_of _ = none

-- `EVENT_VARIABLES`
pub data Variable : Type 0 where
  customer_name trip_ref pickup delivery carrier_name price driver_name vehicle eta link : Variable
  invoice_ref amount : Variable

abbrev pub variable_name : Variable → String
variable_name customer_name = "customer_name"
variable_name trip_ref = "trip_ref"
variable_name pickup = "pickup"
variable_name delivery = "delivery"
variable_name carrier_name = "carrier_name"
variable_name price = "price"
variable_name driver_name = "driver_name"
variable_name vehicle = "vehicle"
variable_name eta = "eta"
variable_name link = "link"
variable_name invoice_ref = "invoice_ref"
variable_name amount = "amount"

abbrev pub names_and : List Variable → List Variable
names_and vs = List.◌∷◌ customer_name (List.◌∷◌ trip_ref vs)

unfoldable pub event_variables : Event → List Variable
event_variables offer_received = names_and (List.◌∷◌ pickup (List.◌∷◌ delivery List.[]))
event_variables awarded = names_and (List.◌∷◌ carrier_name (List.◌∷◌ price List.[]))
event_variables driver_assigned = names_and (List.◌∷◌ driver_name (List.◌∷◌ vehicle List.[]))
event_variables at_pickup = names_and (List.◌∷◌ pickup List.[])
event_variables in_transit = names_and (List.◌∷◌ pickup (List.◌∷◌ delivery (List.◌∷◌ eta List.[])))
event_variables delivered = names_and (List.◌∷◌ delivery (List.◌∷◌ link List.[]))
event_variables pod_ready = names_and (List.◌∷◌ link List.[])
event_variables invoice_issued =
    names_and (List.◌∷◌ invoice_ref (List.◌∷◌ amount (List.◌∷◌ link List.[])))
