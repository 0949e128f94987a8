-- ===== src/Notify/Contacts.antt =====
-- Preferences and contacts: `channelEnabled`, `isRecipient`, `chooseChannel` and `redactRecipient`
-- of apps/api/src/notifications.js, `normalizeNotifyPrefs` of customer/lib/customer-core.js.
use Prim.Native.Char.{code}
use Prim.Native.Nat.{ℕ, suc}
use Prim.Native.String.{[], ◌∷◌}
use roadwisefleet.Prelude.{
  String, Bool, true, false, not, ◌&&◌, ◌||◌, Option, none, some, leb, eqb, if◌then◌else◌,
}
use roadwisefleet.Prelude.Text.{is_space}
use roadwisefleet.Js.{Value, undefined, null, bool, number, text, other, nan, plus, Fields}
use roadwisefleet.Share.Cuts.{is_empty, cut_first, holds}
use roadwisefleet.Notify.Events.{Channel, email, whatsapp, sms, channel_name, trimmed, channel_of}

-- `Boolean(value)`
unfoldable pub is_truthy : Value → Bool
is_truthy undefined = false
is_truthy null = false
is_truthy (bool b) = b
is_truthy (number nan) = false
is_truthy (number (plus n)) = not (eqb n 0)
is_truthy (number n) = true
is_truthy (text s) = not (is_empty s)
is_truthy (other s) = true

unfoldable pub default_pref : Channel → Bool
default_pref email = true
default_pref _ = false

-- `normalizeNotifyPrefs(prefs)[channel]`, where `none` is no object
unfoldable pub preference : Option Fields → Channel → Bool
preference none c = default_pref c
preference (some f) c = elim (f (channel_name c)) [ undefined ↦ default_pref c | v ↦ is_truthy v ]

unfoldable pub channel_enabled : Option Fields → Value → Bool
channel_enabled prefs channel = elim (channel_of channel) [
  | none ↦ false
  | some c ↦ preference prefs c
]

-- Some character of the text is white space.
unfoldable pub has_space : String → Bool
has_space [] = false
has_space (c ∷ s) = is_space (code c) || has_space s

-- There is a dot with something before it and behind it; `seen` is whether something was before.
unfoldable pub inner_dot : Bool → String → Bool
inner_dot seen [] = false
inner_dot seen (c ∷ s) = (seen && eqb (code c) b'.' && not (is_empty s)) || inner_dot true s

-- `EMAIL_RE`: `^[^\s@]+@[^\s@]+\.[^\s@]+$`
unfoldable pub is_email : String → Bool
is_email s = not (has_space s) && elim (cut_first b'@' s) [
  | none ↦ false
  | some (local, domain) ↦ not (is_empty local) && not (holds b'@' domain) && inner_dot false domain
]

unfoldable pub all_digits : String → Bool
all_digits [] = true
all_digits (c ∷ s) = leb b'0' (code c) && leb (code c) b'9' && all_digits s

unfoldable pub units : String → ℕ
units [] = 0
units (c ∷ s) = suc (units s)

-- `E164_RE`: `^\+[1-9]\d{6,14}$`
unfoldable pub is_phone : String → Bool
is_phone (p ∷ (d ∷ s)) =
    eqb (code p) b'+'
    && leb b'1' (code d)
    && leb (code d) b'9'
    && all_digits s
    && leb 6 (units s)
    && leb (units s) 14
is_phone _ = false

-- `isRecipient(channel, recipient)`
unfoldable pub is_recipient : Channel → Value → Bool
is_recipient email v = not (is_empty (trimmed v)) && is_email (trimmed v)
is_recipient whatsapp v = not (is_empty (trimmed v)) && is_phone (trimmed v)
is_recipient sms v = not (is_empty (trimmed v)) && is_phone (trimmed v)

-- `chooseChannel({ prefs, email, whatsapp, sms })`
unfoldable pub choose_channel : Option Fields → (Channel → Value) → Option Channel
choose_channel prefs contact =
    if preference prefs email && is_recipient email (contact email)
    then some email
    else if preference prefs whatsapp && is_recipient whatsapp (contact whatsapp)
    then some whatsapp
    else if preference prefs sms && is_recipient sms (contact sms)
    then some sms
    else none
