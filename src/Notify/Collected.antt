-- ===== src/Notify/Collected.antt =====
-- What `lifecycleVars` collects, as `buildEnvelope` gathers it (apps/api/src/notifications.js).
use mathlib.Core.Path.{subst}
use roadwisefleet.Prelude.{
  String, ◌≡◌, ◌≢◌, refl, sym, ap, ◌∙◌, Bool, true, false, not, inl, inr, ◌⊎◌, Option, none, some,
  List, All, arith, ◌==◌, eq_iff, eq_refl, if◌then◌else◌, Bool-cases, Option-cases,
}
use roadwisefleet.Prelude.Text.{trim}
use roadwisefleet.Js.{text, Fields}
use roadwisefleet.Share.Cuts.{is_empty}
use roadwisefleet.Notify.Events.{Event, Channel, Variable, variable_name}
use roadwisefleet.Notify.Envelope.{
  missing_variable, Gathered, stopped, gathered, has_break, gather, gather_one, add_entry, compose,
}
use roadwisefleet.Notify.Vars.{Context, var_of, var_at, set_key, collect_one, collect}
use roadwisefleet.Notify.Refs.{Formats}
use roadwisefleet.Notify.Blank.{IsText, var_of-IsText}

pub var_at-IsText :
    (f : Formats) (ctx : Context) (v : Variable) → IsText (var_at f ctx (variable_name v))
unfolding var_at var_of roadwisefleet.Prelude.find
var_at-IsText f ctx Variable.customer_name = var_of-IsText f ctx Variable.customer_name
var_at-IsText f ctx Variable.trip_ref = var_of-IsText f ctx Variable.trip_ref
var_at-IsText f ctx Variable.pickup = var_of-IsText f ctx Variable.pickup
var_at-IsText f ctx Variable.delivery = var_of-IsText f ctx Variable.delivery
var_at-IsText f ctx Variable.carrier_name = var_of-IsText f ctx Variable.carrier_name
var_at-IsText f ctx Variable.price = var_of-IsText f ctx Variable.price
var_at-IsText f ctx Variable.driver_name = var_of-IsText f ctx Variable.driver_name
var_at-IsText f ctx Variable.vehicle = var_of-IsText f ctx Variable.vehicle
var_at-IsText f ctx Variable.eta = var_of-IsText f ctx Variable.eta
var_at-IsText f ctx Variable.link = var_of-IsText f ctx Variable.link
var_at-IsText f ctx Variable.invoice_ref = var_of-IsText f ctx Variable.invoice_ref
var_at-IsText f ctx Variable.amount = var_of-IsText f ctx Variable.amount

collect_one_given :
    (value : String) (v : Variable) (r : Fields × List Variable) (out : Fields)
    → collect_one value v r ≡ (out, List.[])
    → (out' : Fields) × (r ≡ (out', List.[]))
      × (set_key (variable_name v) value out' ≡ out)
      × (is_empty value ≡ false)
unfolding collect_one
collect_one_given value v (out', ms) out h = elim (Bool-cases (is_empty value)) [
  | inl blank ↦ absurd (no_item (ap (λ z. z.1) (sym (ap chosen blank) ∙ h)))
  | inr full ↦
      let e = sym (ap chosen full) ∙ h in (out', ap (λ z. (out', z.1)) e, ap (λ z. z.0) e, full)
]
  where
    chosen : Bool → Fields × List Variable
    chosen b = if b then (out', List.◌∷◌ v ms) else (set_key (variable_name v) value out', ms)

    no_item : List.◌∷◌ v ms ≡ List.[] → ⊥
    no_item e = ground (arith, e)

unfoldable pub missing_of : Gathered → List Variable
missing_of (stopped v) = List.[]
missing_of (gathered es ms) = ms

add_entry-missing :
    (v : Variable) (s : String) (g : Gathered) → missing_of (add_entry v s g) ≡ missing_of g
unfolding missing_of add_entry
add_entry-missing v s (stopped w) = refl
add_entry-missing v s (gathered es ms) = refl

stopped_full : (v : Variable) → missing_of (stopped v) ≡ List.[]
unfolding missing_of
stopped_full v = refl

none_missing : missing_of (gathered List.[] List.[]) ≡ List.[]
unfolding missing_of
none_missing = refl

gather_one-full :
    (v : Variable) (s : String) (g : Gathered)
    → is_empty (trim s) ≡ false
    → missing_of g ≡ List.[]
    → missing_of (gather_one v (text s) g) ≡ List.[]
unfolding gather_one
gather_one-full v s g full h = rw full (one_of (has_break s))
  where
    one_of : (b : Bool) → missing_of (if b then stopped v else add_entry v (trim s) g) ≡ List.[]
    one_of true = stopped_full v
    one_of false = add_entry-missing v (trim s) g ∙ h

pub compose-full :
    (e : Event) (c : Channel) (r : String) (g : Gathered) (vs : List Variable)
    → missing_of g ≡ List.[]
    → compose e c r g ≢ missing_variable vs
unfolding compose missing_of
compose-full e c r (stopped v) vs h g = ground (arith, g)
compose-full e c r (gathered es List.[]) vs h g = ground (arith, g)
compose-full e c r (gathered es (List.◌∷◌ m ms)) vs h g = ground (arith, h)

module _ (vars : String → String) (texts : (v : Variable) → IsText (vars (variable_name v))) where
  -- The key holds the variable's value, and one that is not blank.
  unfoldable pub IsGiven : Fields → Variable → Type 0
  IsGiven out v =
      (out (variable_name v) ≡ text (vars (variable_name v)))
      × (is_empty (vars (variable_name v)) ≡ false)

  set_key-IsGiven :
      (out : Fields) (k : String) (v : Variable)
      → IsGiven out v
      → IsGiven (set_key k (vars k) out) v
  unfolding IsGiven set_key
  set_key-IsGiven out k v (h, g) = elim (Bool-cases (variable_name v == k)) [
    | inl same ↦ (rw same (ap (λ z. text (vars z)) (sym (is_same (variable_name v) k same))), g)
    | inr apart ↦ (rw apart h, g)
  ]
    where
      is_same : (a b : String) → (a == b) ≡ true → a ≡ b
      is_same a b e = ground (arith, e, eq_iff a b)

  set_key-All :
      (out : Fields) (k : String) (vs : List Variable)
      → All (IsGiven out) vs
      → All (IsGiven (set_key k (vars k) out)) vs
  set_key-All out k List.[] h = tt
  set_key-All out k (List.◌∷◌ v vs) h = (set_key-IsGiven out k v h.0, set_key-All out k vs h.1)

  fresh-IsGiven :
      (out : Fields) (v : Variable)
      → is_empty (vars (variable_name v)) ≡ false
      → IsGiven (set_key (variable_name v) (vars (variable_name v)) out) v
  unfolding IsGiven set_key
  fresh-IsGiven out v h = (rw (eq_refl (variable_name v)) refl, h)

  pub collect-IsGiven :
      (vs : List Variable) (out : Fields) → collect vars vs ≡ (out, List.[]) → All (IsGiven out) vs
  unfolding collect
  collect-IsGiven List.[] out h = tt
  collect-IsGiven (List.◌∷◌ v vs) out h =
      let (out', rest, is, full) =
        collect_one_given (vars (variable_name v)) v (collect vars vs) out h in
      let all = set_key-All out' (variable_name v) vs (collect-IsGiven vs out' rest) in
      subst (λ o. All (IsGiven o) (List.◌∷◌ v vs)) is (fresh-IsGiven out' v full, all)

  pub gather-full :
      (out : Fields) (vs : List Variable)
      → All (IsGiven out) vs
      → missing_of (gather out vs) ≡ List.[]
  unfolding gather IsGiven
  gather-full out List.[] h = none_missing
  gather-full out (List.◌∷◌ v vs) h = rw (h.0.0) (
      gather_one-full v (vars (variable_name v)) (gather out vs) (texts v ∙ h.0.1)
        (gather-full out vs h.1))
