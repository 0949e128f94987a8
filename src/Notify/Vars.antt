-- ===== src/Notify/Vars.antt =====
-- The variables of an event's template, from what the route has: `lifecycleVars` of
-- apps/api/src/notifications.js.
use roadwisefleet.Prelude.{String, Option, none, some, List, find, ◌==◌, if◌then◌else◌}
use roadwisefleet.Js.{Value, undefined, text, Fields, coalesce}
use roadwisefleet.Share.Cuts.{is_empty}
use roadwisefleet.Docs.Names.{or_other}
use roadwisefleet.Notify.Events.{
  Variable, customer_name, trip_ref, pickup, delivery, carrier_name, price, driver_name, vehicle,
  eta, link, invoice_ref, amount, variable_name, trimmed, event_of, event_variables,
}
use roadwisefleet.Notify.Refs.{Formats, trip_ref_of, invoice_ref_for, format_money, format_eta}

-- An object that the route may give, by its keys.
abbrev pub Given : Type 0
Given = Option Fields

pub record TripGiven : Type 0 where
  pub fields : Fields
  pub order : Given
  pub driver : Given
  pub truck : Given

-- `ctx`
pub record Context : Type 0 where
  pub event : Value
  pub customer : Given
  pub order : Given
  pub load : Given
  pub trip : Option TripGiven
  pub offer : Given
  pub driver : Given
  pub truck : Given
  pub document : Given
  pub invoice : Given
  pub link : Value
  pub ref : Value

-- `o?.key`
abbrev pub key_of : Given → String → Value
key_of none k = undefined
key_of (some f) k = f k

-- `a ?? b`, for objects
abbrev pub given_or : Given → Given → Given
given_or none b = b
given_or (some f) b = some f

abbrev pub of_trip : (TripGiven → Given) → Option TripGiven → Given
of_trip p none = none
of_trip p (some t) = p t

abbrev pub trip_key : Option TripGiven → String → Value
trip_key none k = undefined
trip_key (some t) k = t.fields k

abbrev pub order_of : Context → Given
order_of ctx = given_or ctx.order (of_trip (λ t. t.order) ctx.trip)

abbrev pub driver_of : Context → Given
driver_of ctx = given_or ctx.driver (of_trip (λ t. t.driver) ctx.trip)

abbrev pub truck_of : Context → Given
truck_of ctx = given_or ctx.truck (of_trip (λ t. t.truck) ctx.trip)

unfoldable pub ref_of : Formats → Context → String
ref_of f ctx = or_other (trimmed ctx.ref) (
    trip_ref_of f.upper
      (coalesce (key_of (order_of ctx) "orderId") (
        coalesce (key_of (order_of ctx) "id")
          (coalesce (key_of ctx.load "orderId") (trip_key ctx.trip "orderId"))))
      (trip_key ctx.trip "id") (key_of ctx.load "id"))

-- The entries of the object `vars`.
unfoldable pub var_of : Formats → Context → Variable → String
var_of f ctx customer_name = trimmed (key_of ctx.customer "name")
var_of f ctx trip_ref = ref_of f ctx
var_of f ctx pickup = trimmed (coalesce (key_of (order_of ctx) "origin") (key_of ctx.load "origin"))
var_of f ctx delivery =
    trimmed (coalesce (key_of (order_of ctx) "destination") (key_of ctx.load "destination"))
var_of f ctx carrier_name = trimmed (key_of ctx.offer "carrierName")
var_of f ctx price = format_money f (key_of ctx.offer "priceEur")
var_of f ctx driver_name = trimmed (key_of (driver_of ctx) "name")
var_of f ctx vehicle = trimmed (key_of (truck_of ctx) "plate")
var_of f ctx eta = format_eta f (key_of (order_of ctx) "plannedAt")
var_of f ctx link = trimmed ctx.link
var_of f ctx invoice_ref =
    or_other (trimmed (key_of ctx.invoice "ref"))
      (invoice_ref_for f.upper (key_of ctx.document "id"))
var_of f ctx amount =
    format_money f (coalesce (key_of ctx.invoice "amountEur") (trip_key ctx.trip "rateEur"))

abbrev pub variables : List Variable
variables = List.◌∷◌ customer_name (
    List.◌∷◌ trip_ref (
      List.◌∷◌ pickup (
        List.◌∷◌ delivery (
          List.◌∷◌ carrier_name (
            List.◌∷◌ price (
              List.◌∷◌ driver_name (
                List.◌∷◌ vehicle (
                  List.◌∷◌ eta
                    (List.◌∷◌ link (List.◌∷◌ invoice_ref (List.◌∷◌ amount List.[])))))))))))

-- `vars[key]`
unfoldable pub var_at : Formats → Context → String → String
var_at f ctx key = elim (find (λ v. variable_name v == key) variables) [
  | none ↦ ""
  | some v ↦ var_of f ctx v
]

-- `out[key] = value`
unfoldable pub set_key : String → String → Fields → Fields
set_key key value out k = if k == key then text value else out k

-- One round of the loop: what is given goes into `out`, and what is not into `missing`.
unfoldable pub collect_one : String → Variable → Fields × List Variable → Fields × List Variable
collect_one value v (out, missing) =
    if is_empty value
    then (out, List.◌∷◌ v missing)
    else (set_key (variable_name v) value out, missing)

unfoldable pub collect : (String → String) → List Variable → Fields × List Variable
collect vars List.[] = (λ k. undefined, List.[])
collect vars (List.◌∷◌ v vs) = collect_one (vars (variable_name v)) v (collect vars vs)

pub data VarsReply : Type 0 where
  no_such_event : VarsReply
  lacking : List Variable → VarsReply
  complete : Fields → VarsReply

unfoldable pub vars_reply : Fields × List Variable → VarsReply
vars_reply (out, List.[]) = complete out
vars_reply (out, List.◌∷◌ m ms) = lacking (List.◌∷◌ m ms)

-- `lifecycleVars(ctx)`
unfoldable pub lifecycle_vars : Formats → Context → VarsReply
lifecycle_vars f ctx = elim (event_of (trimmed ctx.event)) [
  | none ↦ no_such_event
  | some e ↦ vars_reply (collect (var_at f ctx) (event_variables e))
]
