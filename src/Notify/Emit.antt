-- ===== src/Notify/Emit.antt =====
-- One event, from the route to the spool: `emitEvent`, `logLine` and `redactRecipient` of
-- apps/api/src/notifications.js.
use Prim.Native.String.{[], ◌∷◌, ◌++◌}
use roadwisefleet.Prelude.{ℕ, String, Bool, not, Option, none, some, List, leb, ◌-◌, if◌then◌else◌}
use roadwisefleet.Js.{Value, text, Fields}
use roadwisefleet.Share.Cuts.{is_empty, cut_first}
use roadwisefleet.Docs.Names.{or_other, first_chars}
use roadwisefleet.Notify.Events.{Event, Variable, trip_ref, variable_name, event_of, trimmed}
use roadwisefleet.Notify.Contacts.{units, channel_enabled}
use roadwisefleet.Notify.Envelope.{
  EnvelopeReply, unknown_event, unknown_channel, invalid_recipient, invalid_variable,
  missing_variable, envelope, build_envelope,
}
use roadwisefleet.Notify.Spool.{
  FileSystem, Builtins, Target, WriteReply, no_spool, spool_unavailable, spool_write_failed,
  written, write_envelope,
}

-- `s.slice(n)`
unfoldable pub drop_chars : ℕ → String → String
drop_chars ℕ.zero s = s
drop_chars (ℕ.suc n) [] = []
drop_chars (ℕ.suc n) (c ∷ s) = drop_chars n s

-- The second part of `value.split('@')`, given what stands behind the first `@`
unfoldable pub second_part : String → String
second_part s = elim (cut_first b'@' s) [ none ↦ s | some (a, b) ↦ a ]

-- `redactRecipient(contact)`, of a text of one unit for each character
unfoldable pub redact_recipient : Value → String
redact_recipient contact =
    let value = trimmed contact in
    if is_empty value then "***" else elim (cut_first b'@' value) [
      | some (local, domain) ↦ first_chars 1 local ++ ("***@" ++ second_part domain)
      | none ↦ if leb 4 (units value) then "***" ++ drop_chars (units value - 4) value else "***"
    ]

-- `logLine({ event, result, recipient })`
unfoldable pub log_line : String → String → Value → String
log_line event result recipient =
    "event="
    ++ (or_other event "unknown"
        ++ (" to=" ++ (redact_recipient recipient ++ (" result=" ++ or_other result "unknown"))))

-- The error of a refused envelope or write, and what is missing.
pub data EmitReply : Type 0 where
  skipped_no_spool skipped_suppressed : EmitReply
  refused : String → List Variable → EmitReply
  queued : String → EmitReply

-- The arguments of `emitEvent` besides the spool's.
pub record Notice : Type 0 where
  pub event : Value
  pub channel : Value
  pub recipient : Value
  pub vars : Fields
  pub prefs : Option Fields
  pub random : Value
  pub has_log : Bool

-- The files, the random texts drawn, the answer and the lines logged.
abbrev pub Emitted {ℓ} : Type ℓ → Type ℓ
Emitted S = S × ℕ × EmitReply × List String

abbrev pub logged : Notice → String → List String
logged n result =
    if n.has_log then List.◌∷◌ (log_line (trimmed n.event) result n.recipient) List.[] else List.[]

abbrev pub refuse {ℓ} : {S : Type ℓ} → Notice → String → List Variable → S → ℕ → Emitted S
refuse n error missing s k = (s, k, refused error missing, logged n ("refused_" ++ error))

-- The arguments `event: name` and `ref: vars.trip_ref` of the write.
abbrev pub target_of : Builtins → String → Notice → Target
target_of b dir n = record {
  dir = dir;
  event = trimmed n.event;
  ref = trimmed (n.vars (variable_name trip_ref));
  builtins = b;
}

module _ {ℓ} {S : Type ℓ} (fs : FileSystem S) where
  abbrev pub emit_written : Notice → S × ℕ × WriteReply → Emitted S
  emit_written n (s, k, written file) = (s, k, queued file, logged n "queued")
  emit_written n (s, k, no_spool) = refuse n "no_spool" List.[] s k
  emit_written n (s, k, spool_unavailable) = refuse n "spool_unavailable" List.[] s k
  emit_written n (s, k, spool_write_failed) = refuse n "spool_write_failed" List.[] s k

  -- What is done with the envelope.
  unfoldable pub emit_envelope : Builtins → String → Notice → EnvelopeReply → ℕ → S → Emitted S
  emit_envelope b dir n (envelope body keys) k s =
      emit_written n (write_envelope fs (target_of b dir n) n.random body k s)
  emit_envelope b dir n unknown_event k s = refuse n "unknown_event" List.[] s k
  emit_envelope b dir n unknown_channel k s = refuse n "unknown_channel" List.[] s k
  emit_envelope b dir n invalid_recipient k s = refuse n "invalid_recipient" List.[] s k
  emit_envelope b dir n (invalid_variable v) k s =
      refuse n "invalid_variable" (List.◌∷◌ v List.[]) s k
  emit_envelope b dir n (missing_variable vs) k s = refuse n "missing_variable" vs s k

  -- What follows the look at the catalogue.
  unfoldable pub emit_known : Builtins → String → Notice → Option Event → ℕ → S → Emitted S
  unfolding emit_envelope
  emit_known b dir n none k s = refuse n "unknown_event" List.[] s k
  emit_known b dir n (some e) k s =
      if not (channel_enabled n.prefs n.channel)
      then (s, k, skipped_suppressed, List.[])
      else emit_envelope b dir n
          (build_envelope (text (trimmed n.event)) n.channel n.recipient n.vars) k s

  -- `emitEvent({ spoolDir, event, channel, recipient, vars, prefs, now, random, log })`, where `k`
  -- random texts were drawn before
  unfoldable pub emit_event : Builtins → Value → Notice → ℕ → S → Emitted S
  unfolding emit_known
  emit_event b spool_dir n k s =
      if is_empty (trimmed spool_dir)
      then (s, k, skipped_no_spool, List.[])
      else emit_known b (trimmed spool_dir) n (event_of (trimmed n.event)) k s
