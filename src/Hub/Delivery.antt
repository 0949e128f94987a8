-- ===== src/Hub/Delivery.antt =====
-- What a published point reaches (apps/api/src/gps-stream.js).
use roadwisefleet.Prelude.{
  ℕ, ◌+◌, ◌≤◌, String, ◌≡◌, refl, sym, ap, ◌∙◌, Bool, false, List, [], ◌∷◌, ◌++◌, eqb, ltb, filter,
  any, arith, Bool-cases, Option-cases, inl, inr, if◌then◌else◌,
}
use roadwisefleet.Hub.Listeners.{
  Entry, get, put, drop_key, has, add, remove, Handle, set_of, subscribe, put_back, unsubscribe,
  Outcome, deliver, publish,
}
use roadwisefleet.Hub.Views.{sees, get-put, get-drop}
use roadwisefleet.Hub.Refinement.{
  Op, open_stream, close_stream, handle_at, Streams, step, run_streams, replay, no_streams,
  empty_board, run_streams_refines,
}

-- How often a listener stands in a list.
unfoldable pub times : ℕ → List ℕ → ℕ
times l [] = 0
times l (k ∷ ks) = (if eqb k l then 1 else 0) + times l ks

times-append :
    (l k : ℕ) (s : List ℕ) → times l (s ++ k ∷ []) ≡ times l s + (if eqb k l then 1 else 0)
unfolding times
times-append l k [] = omega arith
times-append l k (x ∷ s) = omega (arith, times-append l k s)

has-times : (l : ℕ) (s : List ℕ) → has l s ≡ ltb 0 (times l s)
unfolding has any times
has-times l [] = refl
has-times l (x ∷ s) = ground (arith, has-times l s)

times-add : (l k : ℕ) (s : List ℕ) → times l s ≤ 1 → times l (add k s) ≤ 1
unfolding add
times-add l k s h = elim (Bool-cases (has k s)) [
  | inl old ↦ rw old h
  | inr new ↦ rw new (elim (Bool-cases (eqb k l)) [
    | inl same ↦
        let e : k ≡ l = ground arith in
        let none_yet : has l s ≡ false = ap (λ z. has z s) (sym e) ∙ new in
        ground (arith, times-append l k s, has-times l s, none_yet)
    | inr apart ↦ ground (arith, times-append l k s)
  ])
]

times-remove : (l k : ℕ) (s : List ℕ) → times l (remove k s) ≤ times l s
unfolding times remove filter
times-remove l k [] = omega arith
times-remove l k (x ∷ s) = ground (arith, times-remove l k s)

-- No set of the hub holds a listener twice.
abbrev pub Once : List Entry → Type 0
Once es = (t : String) (l : ℕ) → times l (set_of t es) ≤ 1

Once-put :
    (t : String) (s : List ℕ) (es : List Entry)
    → ((l : ℕ) → times l s ≤ 1)
    → Once es
    → Once (put t s es)
Once-put t s es h o u l = ground (arith, get-put t u s es, h l, o u l)

Once-drop : (t : String) (es : List Entry) → Once es → Once (drop_key t es)
unfolding times
Once-drop t es o u l = ground (arith, get-drop t u es, o u l)

Once-subscribe : (t : String) (l : ℕ) (es : List Entry) → Once es → Once (subscribe t l es).1
unfolding subscribe
Once-subscribe t l es o =
    Once-put t (add l (set_of t es)) es (λ k. times-add k l (set_of t es) (o t k)) o

Once-put_back :
    (t : String) (s : List ℕ) (es : List Entry)
    → ((l : ℕ) → times l s ≤ 1)
    → Once es
    → Once (put_back t s es)
unfolding put_back
Once-put_back t [] es h o = Once-drop t es o
Once-put_back t (x ∷ s) es h o = Once-put t (x ∷ s) es h o

Once-unsubscribe : (h : Handle) (es : List Entry) → Once es → Once (unsubscribe h es).1
unfolding unsubscribe
Once-unsubscribe h es o = elim (Bool-cases h.active) [
  | inr off ↦ rw off o
  | inl on ↦ elim (Option-cases (get h.trip_id es)) [
    | inl nobody ↦ rw (on, nobody) o
    | inr (s, found) ↦
        rw (on, found)
          (Once-put_back h.trip_id (remove h.listener s) es
            (λ l. ground (arith, found, times-remove l h.listener s, o h.trip_id l)) o)
  ]
]

step-Once : (s : Streams) (o : Op) → Once s.entries → Once (step s o).entries
unfolding step
step-Once s (open_stream t l) h = Once-subscribe t l s.entries h
step-Once s (close_stream n) h = elim (Option-cases (handle_at n s.handles)) [
  | inl missing ↦ rw (missing, step) h
  | inr (c, found) ↦ rw (found, step) (Once-unsubscribe c s.entries h)
]

run-Once : (s : Streams) (os : List Op) → Once s.entries → Once (run_streams s os).entries
unfolding run_streams
run-Once s [] h = h
run-Once s (o ∷ os) h = run-Once (step s o) os (step-Once s o h)

-- Listeners that write their number down, and of which some throw.
abbrev pub noting : (ℕ → Bool) → ℕ → List ℕ → Outcome (List ℕ)
noting throws l log = record { world = log ++ l ∷ []; threw = throws l }

deliver-times :
    (throws : ℕ → Bool) (l : ℕ) (s log : List ℕ)
    → times l (deliver (noting throws) s log) ≡ times l log + times l s
unfolding deliver times
deliver-times throws l [] log = omega arith
deliver-times throws l (k ∷ s) log =
    deliver-times throws l s (log ++ k ∷ []) ∙ omega (arith, times-append l k log)

Once-none : Once []
unfolding times get
Once-none t l = omega arith

publish-times :
    (throws : ℕ → Bool) (t : String) (l : ℕ) (es : List Entry)
    → times l (publish (noting throws) t es []) ≡ times l (set_of t es)
unfolding publish times
publish-times throws t l es = elim (Option-cases (get t es)) [
  | inl nobody ↦ rw (nobody, times) (omega arith)
  | inr (s, found) ↦ rw (found, times) (deliver-times throws l s [] ∙ omega arith)
]

-- After any calls on the empty hub, a published point is handed exactly once to each listener that
-- is switched on for the trip, and to no other one, whichever of them throw.
pub publish_once :
    (os : List Op) (throws : ℕ → Bool) (t : String) (l : ℕ)
    → times l (publish (noting throws) t (run_streams no_streams os).entries [])
      ≡ (if (replay empty_board os).on t l then 1 else 0)
unfolding sees
publish_once os throws t l =
    let es = (run_streams no_streams os).entries in
    let on = (replay empty_board os).on t l in
    let o : times l (set_of t es) ≤ 1 = run-Once no_streams os Once-none t l in
    let h : has l (set_of t es) ≡ on = (run_streams_refines os).same_on t l in
    let p : times l (publish (noting throws) t es []) ≡ times l (set_of t es) =
      publish-times throws t l es in
    ground (arith, p, has-times l (set_of t es), h, o)
