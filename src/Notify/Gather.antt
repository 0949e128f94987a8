-- ===== src/Notify/Gather.antt =====
-- What the loop over the variables gathers when nothing is missing (apps/api/src/notifications.js).
use roadwisefleet.Prelude.{String, ◌≡◌, refl, ap, ◌∙◌, inl, inr, List, All, arith, Bool-cases}
use roadwisefleet.Prelude.Text.{trim}
use roadwisefleet.Js.{Value, undefined, null, bool, number, text, other, Fields}
use roadwisefleet.Share.Cuts.{is_empty, holds, split}
use roadwisefleet.Notify.Events.{Variable, variable_name, trimmed}
use roadwisefleet.Notify.Envelope.{
  Entry, Gathered, stopped, gathered, has_break, gather, gather_one, add_missing, add_entry,
}
use roadwisefleet.Notify.Reader.{is_comment}
use roadwisefleet.Notify.Lines.{IsLine, IsKey, IsEntry}
use roadwisefleet.Notify.Contents.{trim-IsLine}

variable_name-IsKey : (v : Variable) → IsKey (variable_name v)
unfolding holds is_empty is_comment
variable_name-IsKey Variable.customer_name = ((refl, refl), refl, refl, refl, refl)
variable_name-IsKey Variable.trip_ref = ((refl, refl), refl, refl, refl, refl)
variable_name-IsKey Variable.pickup = ((refl, refl), refl, refl, refl, refl)
variable_name-IsKey Variable.delivery = ((refl, refl), refl, refl, refl, refl)
variable_name-IsKey Variable.carrier_name = ((refl, refl), refl, refl, refl, refl)
variable_name-IsKey Variable.price = ((refl, refl), refl, refl, refl, refl)
variable_name-IsKey Variable.driver_name = ((refl, refl), refl, refl, refl, refl)
variable_name-IsKey Variable.vehicle = ((refl, refl), refl, refl, refl, refl)
variable_name-IsKey Variable.eta = ((refl, refl), refl, refl, refl, refl)
variable_name-IsKey Variable.link = ((refl, refl), refl, refl, refl, refl)
variable_name-IsKey Variable.invoice_ref = ((refl, refl), refl, refl, refl, refl)
variable_name-IsKey Variable.amount = ((refl, refl), refl, refl, refl, refl)

-- What the catalogue asks for, with the values given.
unfoldable pub wanted : Fields → List Variable → List Entry
wanted vars List.[] = List.[]
wanted vars (List.◌∷◌ v vs) =
    List.◌∷◌ (variable_name v, trimmed (vars (variable_name v))) (wanted vars vs)

add_missing-incomplete :
    (v : Variable) (rest : Gathered) (es : List Entry)
    → add_missing v rest ≡ gathered es List.[]
    → ⊥
unfolding add_missing
add_missing-incomplete v (stopped w) es h = ground (arith, h)
add_missing-incomplete v (gathered es' ms) es h = ground (arith, h)

add_entry_complete :
    (v : Variable) (s : String) (rest : Gathered) (es : List Entry)
    → add_entry v s rest ≡ gathered es List.[]
    → (es' : List Entry) × (rest ≡ gathered es' List.[]) × (es ≡ List.◌∷◌ (variable_name v, s) es')
unfolding add_entry
add_entry_complete v s (stopped w) es h = absurd (ground (arith, h))
add_entry_complete v s (gathered es' ms) es h = (es', ground (arith, h), ground (arith, h))

gather_one_complete :
    (v : Variable) (x : Value) (rest : Gathered) (es : List Entry)
    → gather_one v x rest ≡ gathered es List.[]
    → (es' : List Entry) × (rest ≡ gathered es' List.[])
      × (es ≡ List.◌∷◌ (variable_name v, trimmed x) es')
      × IsLine (trimmed x)
unfolding gather_one trimmed
gather_one_complete v (text s) rest es h = elim (Bool-cases (is_empty (trim s))) [
  | inl none_given ↦ absurd (add_missing-incomplete v rest es (ground (arith, h, none_given)))
  | inr given ↦ elim (Bool-cases (has_break s)) [
    | inl broken ↦ absurd (ground (arith, h, given, broken))
    | inr whole ↦
        let (es', e, f) = add_entry_complete v (trim s) rest es (ground (arith, h, given, whole)) in
        (es', e, f, trim-IsLine s whole)
  ]
]
gather_one_complete v undefined rest es h = absurd (add_missing-incomplete v rest es h)
gather_one_complete v null rest es h = absurd (add_missing-incomplete v rest es h)
gather_one_complete v (bool b) rest es h = absurd (add_missing-incomplete v rest es h)
gather_one_complete v (number n) rest es h = absurd (add_missing-incomplete v rest es h)
gather_one_complete v (other s) rest es h = absurd (add_missing-incomplete v rest es h)

pub gather_complete :
    (vars : Fields) (vs : List Variable) (es : List Entry)
    → gather vars vs ≡ gathered es List.[]
    → (es ≡ wanted vars vs) × All IsEntry (wanted vars vs)
unfolding gather wanted
gather_complete vars List.[] es h = (ground (arith, h), tt)
gather_complete vars (List.◌∷◌ v vs) es h =
    let (es', rest, split, fits) =
      gather_one_complete v (vars (variable_name v)) (gather vars vs) es h in
    let (same, all) = gather_complete vars vs es' rest in
    (
      split ∙ ap (List.◌∷◌ (variable_name v, trimmed (vars (variable_name v)))) same,
      ((variable_name-IsKey v, fits), all),
    )
