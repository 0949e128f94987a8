-- ===== src/Notify/Lines.antt =====
-- Lines that are written and read back (apps/api/src/notifications.js,
-- infra/scripts/pilot-notify-deliver.sh).
use Prim.Native.String.{[], ◌∷◌, ◌++◌}
use package.text.Mathlib.TextLemmas.{nil-append, cons-append, append_assoc}
use roadwisefleet.Prelude.{ℕ, String, ◌≡◌, refl, ap, ◌∙◌, Bool, false, ◌||◌, some, List, All, arith}
use roadwisefleet.Share.Cuts.{
  is_empty, holds, split, split-none, split-append, cut_first-append, holds-append, is_empty-append,
}
use roadwisefleet.Notify.Envelope.{Entry, line, join_lines}
use roadwisefleet.Notify.Reader.{drop_nuls, drop_return, is_comment, entry_in, as_read}

-- A text of one line, without a return.
abbrev pub IsLine : String → Type 0
IsLine s = (holds 10 s ≡ false) × (holds 13 s ≡ false)

-- A key that a line can begin with.
abbrev pub IsKey : String → Type 0
IsKey k =
    IsLine k
    × (holds b'=' k ≡ false)
    × (is_empty k ≡ false)
    × (is_comment k ≡ false)
    × (holds 0 k ≡ false)

abbrev pub IsEntry : Entry → Type 0
IsEntry e = IsKey e.0 × IsLine e.1

or_false : (a b : Bool) → a ≡ false → b ≡ false → (a || b) ≡ false
or_false a b e f = rw (e, f) refl

pub line-IsLine : (e : Entry) → IsEntry e → IsLine (line e)
unfolding line holds
line-IsLine (k, v) h = ground (arith, holds-append 10 k ("=" ∷ v), holds-append 13 k ("=" ∷ v))

drop_return-line : (s : String) → holds 13 s ≡ false → drop_return s ≡ s
unfolding drop_return holds
drop_return-line [] h = refl
drop_return-line (c ∷ s) h = ground (arith, drop_return-line s)

comment-append : (a b : String) → is_empty a ≡ false → is_comment (a ++ b) ≡ is_comment a
unfolding is_empty is_comment
comment-append [] b h = absurd (ground (arith, h))
comment-append (c ∷ a) b h = rw cons-append refl

-- A line is read as the entry that it was written from.
entry_in-plain : (k v : String) → IsKey k → entry_in (k ++ ("=" ∷ v)) ≡ some (k, v)
unfolding entry_in
entry_in-plain k v h =
    rw
      (
        is_empty-append k "=" v,
        comment-append k ("=" ∷ v) h.2 ∙ h.3,
        cut_first-append b'=' "=" k v refl h.1,
        h.2,
      )
      refl

drop_nuls-line :
    (k v : String) → holds 0 k ≡ false → drop_nuls (k ++ ("=" ∷ v)) ≡ k ++ ("=" ∷ drop_nuls v)
unfolding drop_nuls holds
drop_nuls-line [] v h = rw (nil-append, nil-append) refl
drop_nuls-line (c ∷ k) v h = rw (cons-append, cons-append) (ground (arith, drop_nuls-line k v))

holds-drop_nuls : (c : ℕ) (s : String) → holds c s ≡ false → holds c (drop_nuls s) ≡ false
unfolding drop_nuls holds
holds-drop_nuls c [] h = h
holds-drop_nuls c (x ∷ s) h = ground (arith, holds-drop_nuls c s)

pub entry_in-line :
    (e : Entry) → IsEntry e → entry_in (drop_return (drop_nuls (line e))) ≡ some (as_read e)
unfolding line
entry_in-line (k, v) h =
    let read : Entry = (k, drop_nuls v) in
    let fits : IsEntry read = (h.0, (holds-drop_nuls 10 v h.1.0, holds-drop_nuls 13 v h.1.1)) in
    ap (λ z. entry_in (drop_return z)) (drop_nuls-line k v h.0.4)
    ∙ ap entry_in (drop_return-line (line read) (line-IsLine read fits).1)
    ∙ entry_in-plain k (drop_nuls v) h.0

-- The lines, and the empty text behind the last break.
abbrev pub ended : List String → List String
ended List.[] = List.◌∷◌ "" List.[]
ended (List.◌∷◌ l ls) = List.◌∷◌ l (ended ls)

blank : holds 10 [] ≡ false
unfolding holds
blank = refl

pub split-join :
    (l : String) (ls : List String)
    → IsLine l
    → All IsLine ls
    → split 10 (join_lines l ls ++ ("\n" ∷ [])) ≡ (l, ended ls)
unfolding join_lines
split-join l List.[] h hs =
    split-append 10 "\n" l [] refl h.0 ∙ ap (λ z. (l, List.◌∷◌ z.0 z.1)) (split-none 10 [] blank)
split-join l (List.◌∷◌ m ms) h hs =
    rw (append_assoc l ("\n" ∷ join_lines m ms) ("\n" ∷ []), cons-append)
      (split-append 10 "\n" l (join_lines m ms ++ ("\n" ∷ [])) refl h.0
        ∙ ap (λ z. (l, List.◌∷◌ z.0 z.1)) (split-join m ms hs.0 hs.1))
