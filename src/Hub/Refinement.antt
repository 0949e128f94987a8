-- ===== src/Hub/Refinement.antt =====
-- The hub implements a set of subscriptions (apps/api/src/gps-stream.js).
use roadwisefleet.Prelude.{
  ℕ, zero, suc, String, ◌≡◌, refl, sym, ap, ◌∙◌, Bool, true, false, not, ◌&&◌, ◌||◌, Option, none,
  some, List, [], ◌∷◌, ◌++◌, ◌==◌, eqb, any, arith, Option-cases, inl, inr,
}
use roadwisefleet.Hub.Listeners.{Entry, get, has, Handle, subscribe, unsubscribe}
use roadwisefleet.Hub.Views.{sees, sees-subscribe, sees-unsubscribe}

-- What the routes do with the hub: open a stream, and call the closure of the stream with a number.
pub data Op : Type 0 where
  open_stream : String → ℕ → Op
  close_stream : ℕ → Op

-- The closures handed out so far, by their numbers, in the order of the streams.
abbrev pub handle_at : ℕ → List Handle → Option Handle
handle_at n [] = none
handle_at zero (h ∷ hs) = some h
handle_at (suc n) (h ∷ hs) = handle_at n hs

abbrev pub set_handle : ℕ → Handle → List Handle → List Handle
set_handle n h [] = []
set_handle zero h (x ∷ hs) = h ∷ hs
set_handle (suc n) h (x ∷ hs) = x ∷ set_handle n h hs

pub record Streams : Type 0 where
  pub entries : List Entry
  pub handles : List Handle

-- One operation on the hub.
unfoldable pub step : Streams → Op → Streams
step s (open_stream t l) =
    let (h, es) = subscribe t l s.entries in record { entries = es; handles = s.handles ++ h ∷ [] }
step s (close_stream n) = elim (handle_at n s.handles) [
  | none ↦ s
  | some h ↦
      let (h', es) = unsubscribe h s.entries in
      record { entries = es; handles = set_handle n h' s.handles }
]

unfoldable pub run_streams : Streams → List Op → Streams
run_streams s [] = s
run_streams s (o ∷ os) = run_streams (step s o) os

-- The specification: which listener is on, for each trip.
pub record Board : Type 0 where
  pub on : String → ℕ → Bool
  pub handles : List Handle

-- Opening switches a listener on; the first call of a closure switches its listener off.
unfoldable pub play : Board → Op → Board
play b (open_stream t l) = record {
  on = λ u k. b.on u k || (t == u && eqb l k);
  handles = b.handles ++ record { trip_id = t; listener = l; active = true } ∷ [];
}
play b (close_stream n) = elim (handle_at n b.handles) [
  | none ↦ b
  | some h ↦ record {
    on = λ u k. b.on u k && not (h.active && h.trip_id == u && eqb h.listener k);
    handles = set_handle n (record h { active = false }) b.handles;
  }
]

unfoldable pub replay : Board → List Op → Board
replay b [] = b
replay b (o ∷ os) = replay (play b o) os

pub record Shows (s : Streams) (b : Board) : Type 0 where
  pub same_on : (t : String) (l : ℕ) → sees s.entries t l ≡ b.on t l
  pub same_handles : s.handles ≡ b.handles

subscribe_handle :
    (t : String) (l : ℕ) (es : List Entry)
    → (subscribe t l es).0 ≡ record { trip_id = t; listener = l; active = true }
unfolding subscribe
subscribe_handle t l es = refl

unsubscribe_handle :
    (h : Handle) (es : List Entry) → (unsubscribe h es).0 ≡ record h { active = false }
unfolding unsubscribe
unsubscribe_handle h es = ground arith

close_missing :
    (s : Streams) (b : Board) (n : ℕ)
    → handle_at n s.handles ≡ none
    → Shows s b
    → Shows (step s (close_stream n)) (play b (close_stream n))
unfolding step play
close_missing s b n e h =
    let e' : handle_at n b.handles ≡ none = ap (handle_at n) (sym h.same_handles) ∙ e in
    record {
      same_on = λ u k. rw (e, e', step, play) (h.same_on u k);
      same_handles = rw (e, e', step, play) h.same_handles;
    }

close_found :
    (s : Streams) (b : Board) (n : ℕ) (c : Handle)
    → handle_at n s.handles ≡ some c
    → Shows s b
    → Shows (step s (close_stream n)) (play b (close_stream n))
unfolding step play
close_found s b n c e h =
    let e' : handle_at n b.handles ≡ some c = ap (handle_at n) (sym h.same_handles) ∙ e in
    record {
      same_on = λ u k.
          rw (e, e', step, play)
            (sees-unsubscribe c u k s.entries
              ∙ ap (λ z. z && not (c.active && c.trip_id == u && eqb c.listener k))
                  (h.same_on u k));
      same_handles =
          rw (e, e', step, play)
            (ap (λ x. set_handle n x s.handles) (unsubscribe_handle c s.entries)
              ∙ ap (set_handle n (record c { active = false })) h.same_handles);
    }

step-Shows : (s : Streams) (b : Board) (o : Op) → Shows s b → Shows (step s o) (play b o)
unfolding step play
step-Shows s b (open_stream t l) h = record {
  same_on =
      λ u k. sees-subscribe t u l k s.entries ∙ ap (λ z. z || (t == u && eqb l k)) (h.same_on u k);
  same_handles =
      ap (λ x. s.handles ++ x ∷ []) (subscribe_handle t l s.entries)
      ∙ ap (λ hs. hs ++ record { trip_id = t; listener = l; active = true } ∷ []) h.same_handles;
}
step-Shows s b (close_stream n) h = elim (Option-cases (handle_at n s.handles)) [
  | inl missing ↦ close_missing s b n missing h
  | inr (c, found) ↦ close_found s b n c found h
]

run-Shows :
    (s : Streams) (b : Board) (os : List Op) → Shows s b → Shows (run_streams s os) (replay b os)
unfolding run_streams replay
run-Shows s b [] h = h
run-Shows s b (o ∷ os) h = run-Shows (step s o) (play b o) os (step-Shows s b o h)

abbrev pub no_streams : Streams
no_streams = record { entries = []; handles = [] }

abbrev pub empty_board : Board
empty_board = record { on = λ t l. false; handles = [] }

-- From the empty hub, any calls of `subscribe` and of the closures that it returned, in any order,
-- leave the hub with exactly the listeners that the specification has switched on, and with the
-- same closures: opening switches a listener of a trip on, the first call of a closure switches
-- its listener off for its trip, and any further call of it changes nothing.
pub run_streams_refines : (os : List Op) → Shows (run_streams no_streams os) (replay empty_board os)
unfolding sees has any get
run_streams_refines os =
    run-Shows no_streams empty_board os (record { same_on = λ t l. refl; same_handles = refl })
