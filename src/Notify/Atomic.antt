-- ===== src/Notify/Atomic.antt =====
-- What `emitEvent` does to the spool, on every branch (apps/api/src/notifications.js).
use Prim.Native.String.{◌∷◌, ◌++◌}
use roadwisefleet.Prelude.{
  ℕ, ◌+◌, String, ◌≡◌, ◌≢◌, refl, sym, ap, ◌∙◌, inl, inr, Bool, true, false, not, Option, none,
  some, List, arith, ◌==◌, eq_iff, if◌then◌else◌, Bool-cases,
}
use roadwisefleet.Js.{Value, text}
use roadwisefleet.Share.Cuts.{is_empty, holds, holds-append}
use roadwisefleet.Docs.Safe.{begins_not}
use roadwisefleet.Notify.Events.{Event, trimmed, event_of}
use roadwisefleet.Notify.Contacts.{channel_enabled}
use roadwisefleet.Notify.Envelope.{
  EnvelopeReply, unknown_event, unknown_channel, invalid_recipient, invalid_variable,
  missing_variable, envelope, build_envelope,
}
use roadwisefleet.Notify.Reader.{drop_nuls, value_of}
use roadwisefleet.Notify.RoundTrip.{read_entries-build_envelope}
use roadwisefleet.Notify.FileName.{envelope_file_name-slash, envelope_file_name-dot}
use roadwisefleet.Notify.Spool.{
  Failure, FileSystem, Builtins, Target, WriteReply, no_spool, spool_unavailable,
  spool_write_failed, written, file_name, final_path, tmp_path, rounds, in_dir, write_envelope,
}
use roadwisefleet.Notify.Files.{IsFileSystem, IsApart, Ends, Outcome-from, rounds-Outcome}
use roadwisefleet.Notify.Emit.{
  EmitReply, skipped_no_spool, skipped_suppressed, refused, queued, Notice, Emitted, target_of,
  emit_written, emit_envelope, emit_known, emit_event,
}

-- The documented behaviour of `join`, for plain names: different names in a directory have different
-- paths, unless the first is one of dots.
abbrev pub IsJoin : (String → String → String) → Type 0
IsJoin join =
    (d a b : String)
    → begins_not b'.' a ≡ true
    → (holds b'/' a ≡ false) × (is_empty a ≡ false)
    → (holds b'/' b ≡ false) × (is_empty b ≡ false)
    → join d a ≡ join d b
    → a ≡ b

dot_apart : (a b : String) → begins_not b'.' a ≡ true → a ≢ "." ∷ b
unfolding begins_not
dot_apart a b h e = not_dot (ap (begins_not b'.') (sym e) ∙ h)
  where
    not_dot : begins_not b'.' ("." ∷ b) ≡ true → ⊥
    not_dot g = ground (arith, g)

tmp_name-slash : (a : String) → holds b'/' a ≡ false → holds b'/' ("." ∷ (a ++ ".tmp")) ≡ false
unfolding holds
tmp_name-slash a h = ground (arith, h, holds-append b'/' a ".tmp")

-- No temporary file is a final one.
pub final_path-apart :
    (t : Target)
    → IsJoin t.builtins.join
    → holds b'/' t.builtins.iso ≡ false
    → (r r' : String) → final_path t r ≢ tmp_path t r'
unfolding final_path tmp_path file_name is_empty
final_path-apart t joins plain r r' h =
    let dot = envelope_file_name-dot t.event t.ref t.builtins.iso r in
    let slash = envelope_file_name-slash t.event t.ref t.builtins.iso r plain in
    let slash' = envelope_file_name-slash t.event t.ref t.builtins.iso r' plain in
    dot_apart (file_name t r) (file_name t r' ++ ".tmp") dot.0 (
      joins t.dir (file_name t r) ("." ∷ (file_name t r' ++ ".tmp")) dot.0 (slash, dot.1)
        (tmp_name-slash (file_name t r') slash', refl) h)

queued_one :
    (read' : Option String) (old body : Option String) (q f : String)
    → ((q == f) ≡ true → read' ≡ body)
    → ((q == f) ≡ false → read' ≡ old)
    → read' ≡ (if q == f then body else old)
queued_one read' old body q f h g = elim (Bool-cases (q == f)) [
  | inl same ↦ rw same (h same)
  | inr apart ↦ rw apart (g apart)
]

unequal : (q f : String) → (q == f) ≡ false → q ≢ f
unequal q f h e = ground (arith, h, e, eq_iff q f)

equal : (q f : String) → (q == f) ≡ true → q ≡ f
equal q f h = ground (arith, h, eq_iff q f)

module _ {S : Type 0} (fs : FileSystem S) (read : S → String → Option String)
    (laws : IsFileSystem fs read) where
  Ends-if :
      (t : Target) (body : String) (s : S) (b : Bool) (r r' : S × ℕ × WriteReply)
      → Ends fs read laws t body s r
      → Ends fs read laws t body s r'
      → Ends fs read laws t body s (if b then r else r')
  Ends-if t body s true r r' h h' = h
  Ends-if t body s false r r' h h' = h'

  in_dir-Outcome :
      (t : Target) (random : Value) (body : String) (k drawn : ℕ) (s : S)
      (made : S × Option Failure)
      → ((r : String) → IsApart fs read laws t (final_path t r))
      → ((q : String) → read made.0 q ≡ read s q)
      → Ends fs read laws t body s (in_dir fs t random body k drawn made)
  unfolding in_dir
  in_dir-Outcome t random body k drawn s (s', some e) apart kept = λ q a. kept q
  in_dir-Outcome t random body k drawn s (s', none) apart kept =
      let given = not (is_empty (trimmed random)) in
      let rand = if given then trimmed random else t.builtins.fresh k in
      let r = rounds fs t 3 given body rand drawn s' in
      Outcome-from fs read laws t body s s' r.0 r.2 (λ q a. kept q)
        (rounds-Outcome fs read laws t 3 given body rand drawn s' apart)

  write_envelope-Outcome :
      (t : Target) (random : Value) (body : String) (k : ℕ) (s : S)
      → IsJoin t.builtins.join
      → holds b'/' t.builtins.iso ≡ false
      → Ends fs read laws t body s (write_envelope fs t random body k s)
  unfolding write_envelope
  write_envelope-Outcome t random body k s joins plain =
      let drawn = if is_empty (trimmed random) then k + 1 else k in
      Ends-if t body s (is_empty t.dir) (s, k, no_spool)
        (in_dir fs t random body k drawn (fs.make_dir t.dir s)) (λ q a. refl)
        (in_dir-Outcome t random body k drawn s (fs.make_dir t.dir s)
          (λ r r'. final_path-apart t joins plain r r') (laws.read-make_dir t.dir s))

  -- What an answer promises of the file at a path: if a file is queued it is that one alone that
  -- changed, its content is the whole envelope of the event, the channel, the contact and the
  -- variables that were given, and the transport reads that contact, without NULs, on a channel that is switched
  -- on; after a refusal no file changed; nothing at all was done if the event is skipped.
  abbrev pub Effect : Notice → String → S → S → EmitReply → Type 0
  Effect n q s s' skipped_no_spool = s' ≡ s
  Effect n q s s' skipped_suppressed = s' ≡ s
  Effect n q s s' (refused e vs) = read s' q ≡ read s q
  Effect n q s s' (queued f) =
      (body : String) × (keys : List String) × (build_envelope (text (trimmed n.event)) n.channel
          n.recipient n.vars
        ≡ envelope body keys)
      × (read s' f ≡ some body)
      × (read s' q ≡ (if q == f then some body else read s q))
      × (value_of body "recipient" ≡ drop_nuls (trimmed n.recipient))
      × (channel_enabled n.prefs n.channel ≡ true)

  -- The same of what `emitEvent` gives.
  abbrev Effects : Notice → String → S → Emitted S → Type 0
  Effects n q s r = Effect n q s r.0 r.2

  emit_written-Effect :
      (b : Builtins) (dir : String) (n : Notice) (body : String) (keys : List String) (s : S)
      (q : String) (r : S × ℕ × WriteReply)
      → IsApart fs read laws (target_of b dir n) q
      → build_envelope (text (trimmed n.event)) n.channel n.recipient n.vars ≡ envelope body keys
      → value_of body "recipient" ≡ drop_nuls (trimmed n.recipient)
      → channel_enabled n.prefs n.channel ≡ true
      → Ends fs read laws (target_of b dir n) body s r
      → Effects n q s (emit_written fs n r)
  emit_written-Effect b dir n body keys s q (s', k, written f) apart built to on (full, kept) = (
    body,
    keys,
    built,
    full,
    queued_one (read s' q) (read s q) (some body) q f (λ h. ap (read s') (equal q f h) ∙ full)
        (λ h. kept q apart (unequal q f h)),
    to,
    on,
  )
  emit_written-Effect b dir n body keys s q (s', k, no_spool) apart built to on kept = kept q apart
  emit_written-Effect b dir n body keys s q (s', k, spool_unavailable) apart built to on kept =
      kept q apart
  emit_written-Effect b dir n body keys s q (s', k, spool_write_failed) apart built to on kept =
      kept q apart

  emit_envelope-Effect :
      (b : Builtins) (dir : String) (n : Notice) (reply : EnvelopeReply) (k : ℕ) (s : S)
      (q : String)
      → IsJoin b.join
      → holds b'/' b.iso ≡ false
      → IsApart fs read laws (target_of b dir n) q
      → build_envelope (text (trimmed n.event)) n.channel n.recipient n.vars ≡ reply
      → channel_enabled n.prefs n.channel ≡ true
      → Effects n q s (emit_envelope fs b dir n reply k s)
  unfolding emit_envelope
  emit_envelope-Effect b dir n (envelope body keys) k s q joins plain apart built on =
      let (e, c, named, found, usable, entries, to) =
        read_entries-build_envelope (text (trimmed n.event)) n.channel n.recipient n.vars body keys
          built in
      emit_written-Effect b dir n body keys s q
        (write_envelope fs (target_of b dir n) n.random body k s) apart built to on
        (write_envelope-Outcome (target_of b dir n) n.random body k s joins plain)
  emit_envelope-Effect b dir n unknown_event k s q joins plain apart built on = refl
  emit_envelope-Effect b dir n unknown_channel k s q joins plain apart built on = refl
  emit_envelope-Effect b dir n invalid_recipient k s q joins plain apart built on = refl
  emit_envelope-Effect b dir n (invalid_variable v) k s q joins plain apart built on = refl
  emit_envelope-Effect b dir n (missing_variable vs) k s q joins plain apart built on = refl

  Effects-if :
      (n : Notice) (q : String) (s : S) (b : Bool) (r r' : Emitted S)
      → (b ≡ true → Effects n q s r)
      → (b ≡ false → Effects n q s r')
      → Effects n q s (if b then r else r')
  Effects-if n q s true r r' h h' = h refl
  Effects-if n q s false r r' h h' = h' refl

  emit_known-Effect :
      (b : Builtins) (dir : String) (n : Notice) (o : Option Event) (k : ℕ) (s : S) (q : String)
      → IsJoin b.join
      → holds b'/' b.iso ≡ false
      → IsApart fs read laws (target_of b dir n) q
      → Effects n q s (emit_known fs b dir n o k s)
  unfolding emit_known
  emit_known-Effect b dir n none k s q joins plain apart = refl
  emit_known-Effect b dir n (some e) k s q joins plain apart =
      Effects-if n q s (not (channel_enabled n.prefs n.channel)) _ _ (λ off. refl)
        (λ on.
          emit_envelope-Effect b dir n
            (build_envelope (text (trimmed n.event)) n.channel n.recipient n.vars) k s q joins plain
            apart refl (not_false (channel_enabled n.prefs n.channel) on))
    where
      not_false : (b : Bool) → not b ≡ false → b ≡ true
      not_false true h = refl
      not_false false h = sym h

  -- Where a write that does not throw is complete, `join` gives different plain names different paths
  -- and the text of an instant has no slash: whatever calls of the file system fail, and for every
  -- file that is not a temporary one of this event, if the event is queued, then the file that is
  -- named has the whole envelope of the event and its channel, contact and variables, no other file
  -- changed, the transport reads the trimmed contact in it, without NULs, and the channel is
  -- switched on; if the event is refused, no file changed; and if it is skipped, nothing was done.
  pub emit_event-Effect :
      (b : Builtins) (spool_dir : Value) (n : Notice) (k : ℕ) (s : S) (q : String)
      → IsJoin b.join
      → holds b'/' b.iso ≡ false
      → IsApart fs read laws (target_of b (trimmed spool_dir) n) q
      → Effects n q s (emit_event fs b spool_dir n k s)
  unfolding emit_event
  emit_event-Effect b spool_dir n k s q joins plain apart =
      Effects-if n q s (is_empty (trimmed spool_dir)) _ _ (λ h. refl)
        (λ h.
          emit_known-Effect b (trimmed spool_dir) n (event_of (trimmed n.event)) k s q joins plain
            apart)
