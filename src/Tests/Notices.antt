-- ===== src/Tests/Notices.antt =====
-- Examples on the notifications.
use Prim.Native.String.{◌∷◌, ◌++◌}
use package.text.Mathlib.TextLemmas.{append_cancel_left, tail-eq_of_cons-eq}
use roadwisefleet.Prelude.{
  String, ◌≡◌, ◌≢◌, refl, true, false, none, some, List, find, map, ◌==◌, if◌then◌else◌,
}
use roadwisefleet.Js.{undefined, text, Fields}
use roadwisefleet.Prelude.Text.{trim, trim_start, trim_end}
use roadwisefleet.Share.Cuts.{is_empty, holds, cut_first}
use roadwisefleet.Docs.Names.{or_other}
use roadwisefleet.Notify.Events.{
  Event, Channel, pod_ready, Variable, event_name, trimmed, channel_of, event_of, event_variables,
}
use roadwisefleet.Notify.Contacts.{
  channel_enabled, preference, default_pref, is_recipient, is_email, has_space, inner_dot,
}
use roadwisefleet.Notify.Envelope.{
  envelope, unknown_event, missing_variable, head_entries, has_break, gather, gather_one, add_entry,
  join_lines, line, render, compose, build_envelope,
}
use roadwisefleet.Notify.Reader.{drop_nuls, as_read, read_entries, value_of}
use roadwisefleet.Notify.Gather.{wanted}
use roadwisefleet.Notify.RoundTrip.{read_entries-build_envelope}
use roadwisefleet.Notify.FileName.{envelope_file_name, envelope_file_name-slash}
use roadwisefleet.Notify.Spool.{Builtins, final_path}
use roadwisefleet.Notify.Emit.{Notice, queued, target_of, emit_event}
use roadwisefleet.Notify.Atomic.{IsJoin, Effect, final_path-apart, emit_event-Effect}
use roadwisefleet.Notify.Memory.{Disk, content, memory, memory-IsFileSystem, memory-IsWorking}
use roadwisefleet.Notify.Live.{first_text, emit_event-queues}
use roadwisefleet.Notify.Refs.{Formats}
use roadwisefleet.Notify.Vars.{
  Context, var_of, var_at, ref_of, set_key, collect_one, collect, complete, vars_reply,
  lifecycle_vars,
}
use roadwisefleet.Notify.Complete.{build_envelope-lifecycle_vars}
use roadwisefleet.Tests.Data.{runtime}

abbrev pod_vars : Fields
pod_vars k =
    if k == "customer_name"
    then text " Ada "
    else if k == "trip_ref"
    then text "RWF-1042"
    else if k == "link"
    then text "https://rwf.example/g/d1"
    else undefined

abbrev pod_text : String
pod_text =
    "event=pod_ready\nchannel=email\nrecipient=ada@example.com\ncustomer_name=Ada\ntrip_ref=RWF-1042\nlink=https://rwf.example/g/d1\n"

pod_keys : List String
pod_keys = List.◌∷◌ "event" (
    List.◌∷◌ "channel" (
      List.◌∷◌ "recipient"
        (List.◌∷◌ "customer_name" (List.◌∷◌ "trip_ref" (List.◌∷◌ "link" List.[])))))

pod_built :
    build_envelope (text "pod_ready") (text "email") (text " ada@example.com") pod_vars
    ≡ envelope pod_text pod_keys
unfolding pod_keys build_envelope event_of find trimmed trim channel_of is_recipient is_empty
    is_email has_space cut_first holds inner_dot compose gather event_variables gather_one add_entry
    has_break join_lines line render trim_end trim_start
pod_built = refl

read_entries-build_envelope_example :
    (e : Event) × (c : Channel) × (trimmed (text "pod_ready") ≡ event_name e)
    × (channel_of (text "email") ≡ some c)
    × (is_recipient c (text " ada@example.com") ≡ true)
    × (read_entries pod_text
        ≡ map as_read (
            head_entries e c
              (trimmed (text " ada@example.com"))
              (wanted pod_vars (event_variables e))))
    × (value_of pod_text "recipient" ≡ drop_nuls (trimmed (text " ada@example.com")))
read_entries-build_envelope_example =
    read_entries-build_envelope (text "pod_ready") (text "email") (text " ada@example.com") pod_vars
      pod_text pod_keys pod_built

envelope_file_name-slash_example :
    holds b'/' (envelope_file_name "pod_ready" "../../etc" "2026-10-25T10:15:00.123Z" "ab/c1")
    ≡ false
unfolding holds
envelope_file_name-slash_example =
    envelope_file_name-slash "pod_ready" "../../etc" "2026-10-25T10:15:00.123Z" "ab/c1" refl

abbrev joined : String → String → String
joined d a = d ++ ("/" ∷ a)

joined-IsJoin : IsJoin joined
joined-IsJoin d a b dot h g e = tail-eq_of_cons-eq (append_cancel_left d ("/" ∷ a) ("/" ∷ b) e)

abbrev builtins : Builtins
builtins = record { join = joined; iso = "2026-10-25T10:15:00.123Z"; fresh = λ k. "0a1b2c3d" }

abbrev notice : Notice
notice = record {
  event = text "pod_ready";
  channel = text "email";
  recipient = text " ada@example.com";
  vars = pod_vars;
  prefs = none;
  random = undefined;
  has_log = true;
}

abbrev empty_disk : Disk
empty_disk q = none

no_slash : holds b'/' builtins.iso ≡ false
unfolding holds
no_slash = refl

-- Another file of the spool.
abbrev other_file : String
other_file = final_path (target_of builtins (trimmed (text " /spool")) notice) "c0ffee"

emit_event-Effect_example :
    Effect memory content memory-IsFileSystem notice other_file empty_disk
      (emit_event memory builtins (text " /spool") notice 0 empty_disk).0
      (emit_event memory builtins (text " /spool") notice 0 empty_disk).2
emit_event-Effect_example =
    emit_event-Effect memory content memory-IsFileSystem builtins (text " /spool") notice 0
      empty_disk other_file joined-IsJoin no_slash
      (λ r.
        final_path-apart (target_of builtins (trimmed (text " /spool")) notice) joined-IsJoin
          no_slash "c0ffee" r)

dir_given : is_empty (trimmed (text " /spool")) ≡ false
unfolding is_empty trimmed trim trim_start trim_end
dir_given = refl

email_on : channel_enabled none (text "email") ≡ true
unfolding channel_enabled preference default_pref channel_of find
email_on = refl

notice_built :
    build_envelope (text (trimmed notice.event)) notice.channel notice.recipient notice.vars
    ≡ envelope pod_text pod_keys
unfolding trimmed trim trim_start trim_end
notice_built = pod_built

emit_event-queues_example :
    (emit_event memory builtins (text " /spool") notice 0 empty_disk).2
    ≡ queued (
        final_path
          (target_of builtins (trimmed (text " /spool")) notice)
          (first_text (target_of builtins (trimmed (text " /spool")) notice) undefined 0))
emit_event-queues_example =
    emit_event-queues memory content memory-IsFileSystem memory-IsWorking builtins (text " /spool")
      notice 0 empty_disk pod_text pod_keys dir_given email_on notice_built refl

abbrev formats : Formats
formats = record {
  runtime = runtime;
  upper = λ s. s;
  decimal = λ s. none;
  to_fixed = λ n. "12.00";
  iso = λ at. "2026-10-27T14:30:00.000Z";
}

-- A context with a reference.
abbrev pod_context : Context
pod_context = record {
  event = text "pod_ready";
  customer = some (λ k. text "Ada");
  order = some (λ k. text "1042");
  load = none;
  trip = none;
  offer = none;
  driver = none;
  truck = none;
  document = none;
  invoice = none;
  link = text "https://rwf.example/g/d1";
  ref = text "RWF-1042";
}

pod_out : Fields
unfolding set_key collect
pod_out = (collect (var_at formats pod_context) (event_variables pod_ready)).0

pod_complete : lifecycle_vars formats pod_context ≡ complete pod_out
unfolding pod_out lifecycle_vars event_of find trimmed trim trim_start trim_end vars_reply collect
    collect_one is_empty var_at var_of ref_of or_other event_variables set_key
pod_complete = refl

build_envelope-lifecycle_vars_example :
    (build_envelope (text "pod_ready") (text "sms") (text "+49301234567") pod_out ≢ unknown_event)
    × (build_envelope (text "pod_ready") (text "sms") (text "+49301234567") pod_out
        ≢ missing_variable (List.◌∷◌ Variable.link List.[]))
build_envelope-lifecycle_vars_example =
    build_envelope-lifecycle_vars formats pod_context pod_out (text "sms") (text "+49301234567")
      (List.◌∷◌ Variable.link List.[]) pod_complete
