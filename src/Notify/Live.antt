-- ===== src/Notify/Live.antt =====
-- A notification is queued when nothing stands in its way (apps/api/src/notifications.js).
use roadwisefleet.Prelude.{
  ℕ, ◌+◌, String, ◌≡◌, refl, sym, ap, ◌∙◌, Bool, true, false, not, Option, none, some, List, arith,
  if◌then◌else◌, Option-cases, inl, inr,
}
use roadwisefleet.Js.{Value, undefined, null, bool, number, text, other, Fields}
use roadwisefleet.Prelude.Text.{trim, trim_start, trim_end}
use roadwisefleet.Prelude.Trimmed.{trim-trim}
use roadwisefleet.Share.Cuts.{is_empty}
use roadwisefleet.Notify.Events.{Event, trimmed, event_of}
use roadwisefleet.Notify.Contacts.{channel_enabled}
use roadwisefleet.Notify.Envelope.{envelope, build_envelope}
use roadwisefleet.Notify.Spool.{
  Failure, FileSystem, Attempt, done, after, Builtins, Target, WriteReply, no_spool,
  spool_unavailable, spool_write_failed, written, final_path, tmp_path, attempt, finish, rounds,
  in_dir, write_envelope,
}
use roadwisefleet.Notify.Files.{IsFileSystem}
use roadwisefleet.Notify.Emit.{
  queued, Notice, target_of, emit_written, emit_envelope, emit_known, emit_event,
}

-- A file system whose calls succeed, where a file is new if there is none at its path.
pub record IsWorking {ℓ} {S : Type ℓ} (fs : FileSystem S) (read : S → String → Option String)
    : Type ℓ where
  pub makes_dir : (d : String) (s : S) → (fs.make_dir d s).1 ≡ none
  pub opens_new : (p : String) (s : S) → read s p ≡ none → (fs.open_new p s).1 ≡ none
  pub sets_mode : (p : String) (s : S) → (fs.set_mode p s).1 ≡ none
  pub writes :
      (p body : String) (s : S) (old : String) → read s p ≡ some old → (fs.write p body s).1 ≡ none
  pub closes : (p : String) (s : S) → (fs.close p s).1 ≡ none
  pub renames : (a b : String) (s : S) (c : String) → read s a ≡ some c → (fs.rename a b s).1 ≡ none

after-none {ℓ} :
    {S : Type ℓ} (b : Bool) (r : S × Option Failure) (k : S → Attempt S)
    → r.1 ≡ none
    → after b r k ≡ k r.0
after-none b (s, none) k h = refl
after-none b (s, some e) k h = absurd (ground (arith, h))

pub trimmed-trimmed : (v : Value) → trimmed (text (trimmed v)) ≡ trimmed v
unfolding trimmed trim trim_start trim_end
trimmed-trimmed (text s) = trim-trim s
trimmed-trimmed undefined = refl
trimmed-trimmed null = refl
trimmed-trimmed (bool b) = refl
trimmed-trimmed (number n) = refl
trimmed-trimmed (other s) = refl

envelope-known :
    (event channel recipient : Value) (vars : Fields) (body : String) (keys : List String)
    → build_envelope event channel recipient vars ≡ envelope body keys
    → (e : Event) × (event_of (trimmed event) ≡ some e)
unfolding build_envelope
envelope-known event channel recipient vars body keys h =
    elim (Option-cases (event_of (trimmed event))) [
      | inl unknown ↦ absurd (ground (arith, h, unknown))
      | inr found ↦ found
    ]

-- `text(random) || randomBytes(4).toString('hex')`
abbrev pub first_text : Target → Value → ℕ → String
first_text t random k =
    if not (is_empty (trimmed random)) then trimmed random else t.builtins.fresh k

module _ {ℓ} {S : Type ℓ} (fs : FileSystem S) (read : S → String → Option String)
    (laws : IsFileSystem fs read) (works : IsWorking fs read) where
  attempt-works :
      (tmp final body : String) (s : S)
      → read s tmp ≡ none
      → (s' : S) × (attempt fs tmp final body s ≡ done s')
  unfolding attempt
  attempt-works tmp final body s free =
      let o = works.opens_new tmp s free in
      let s1 = (fs.open_new tmp s).0 in
      let s2 = (fs.set_mode tmp s1).0 in
      let blank = laws.read-set_mode tmp s1 tmp ∙ laws.read-open_new tmp s o in
      let w = works.writes tmp body s2 "" blank in
      let s3 = (fs.write tmp body s2).0 in
      let s4 = (fs.close tmp s3).0 in
      let full = laws.read-close tmp s3 tmp ∙ laws.read-write tmp body s2 "" w blank in
      (
        (fs.rename tmp final s4).0,
        after-none false (fs.open_new tmp s) _ o
            ∙ after-none true (fs.set_mode tmp s1) _ (works.sets_mode tmp s1)
            ∙ after-none true (fs.write tmp body s2) _ w
            ∙ after-none true (fs.close tmp s3) _ (works.closes tmp s3)
            ∙ after-none false (fs.rename tmp final s4) done (works.renames tmp final s4 _ full),
      )

  rounds-works :
      (t : Target) (n : ℕ) (given : Bool) (body rand : String) (k : ℕ) (s : S)
      → read s (tmp_path t rand) ≡ none
      → (rounds fs t (ℕ.suc n) given body rand k s).2 ≡ written (final_path t rand)
  unfolding rounds finish
  rounds-works t n given body rand k s free =
      let (s', e) = attempt-works (tmp_path t rand) (final_path t rand) body s free in
      ap
        (λ a.
          (finish fs t given rand (rounds fs t n given body (t.builtins.fresh k) (k + 1)) k a).2)
        e

  in_dir-works :
      (t : Target) (random : Value) (body : String) (k drawn : ℕ) (made : S × Option Failure)
      → made.1 ≡ none
      → read made.0 (tmp_path t (first_text t random k)) ≡ none
      → (in_dir fs t random body k drawn made).2 ≡ written (final_path t (first_text t random k))
  unfolding in_dir
  in_dir-works t random body k drawn (s, some e) h free = absurd (ground (arith, h))
  in_dir-works t random body k drawn (s, none) h free =
      rounds-works t 2 (not (is_empty (trimmed random))) body (first_text t random k) drawn s free

  write_envelope-works :
      (t : Target) (random : Value) (body : String) (k : ℕ) (s : S)
      → is_empty t.dir ≡ false
      → read s (tmp_path t (first_text t random k)) ≡ none
      → (write_envelope fs t random body k s).2 ≡ written (final_path t (first_text t random k))
  unfolding write_envelope
  write_envelope-works t random body k s full free = rw full (
      in_dir-works t random body k (if is_empty (trimmed random) then k + 1 else k)
        (fs.make_dir t.dir s) (works.makes_dir t.dir s)
        (laws.read-make_dir t.dir s (tmp_path t (first_text t random k)) ∙ free))

  emit_written-queued :
      (n : Notice) (r : S × ℕ × WriteReply) (f : String)
      → r.2 ≡ written f
      → (emit_written fs n r).2 ≡ queued f
  emit_written-queued n (s, k, written g) f h = ground (arith, h)
  emit_written-queued n (s, k, no_spool) f h = absurd (ground (arith, h))
  emit_written-queued n (s, k, spool_unavailable) f h = absurd (ground (arith, h))
  emit_written-queued n (s, k, spool_write_failed) f h = absurd (ground (arith, h))

  -- If the file system works, a directory is given, the channel is switched on, an envelope is built
  -- and the first temporary path is free, then the event is queued, under the name with the random
  -- text that was given or drawn first.
  pub emit_event-queues :
      (b : Builtins) (spool_dir : Value) (n : Notice) (k : ℕ) (s : S) (body : String)
      (keys : List String)
      → is_empty (trimmed spool_dir) ≡ false
      → channel_enabled n.prefs n.channel ≡ true
      → build_envelope (text (trimmed n.event)) n.channel n.recipient n.vars ≡ envelope body keys
      → read s (
          tmp_path
            (target_of b (trimmed spool_dir) n)
            (first_text (target_of b (trimmed spool_dir) n) n.random k))
        ≡ none
      → (emit_event fs b spool_dir n k s).2
        ≡ queued (
            final_path
              (target_of b (trimmed spool_dir) n)
              (first_text (target_of b (trimmed spool_dir) n) n.random k))
  unfolding emit_event emit_known emit_envelope
  emit_event-queues b spool_dir n k s body keys dir on built free =
      let dir_text = trimmed spool_dir in
      let t = target_of b dir_text n in
      let (e, known) =
        envelope-known (text (trimmed n.event)) n.channel n.recipient n.vars body keys built in
      rw (dir, sym (ap event_of (trimmed-trimmed n.event)) ∙ known, on, built)
        (emit_written-queued n (write_envelope fs t n.random body k s)
          (final_path t (first_text t n.random k))
          (write_envelope-works t n.random body k s dir free))
