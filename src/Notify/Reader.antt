-- ===== src/Notify/Reader.antt =====
-- How the transport reads an envelope: `deliver_one` of infra/scripts/pilot-notify-deliver.sh.
use Prim.Native.Char.{code}
use Prim.Native.String.{[], ◌∷◌}
use roadwisefleet.Prelude.{
  String, Bool, false, ◌&&◌, ◌||◌, Option, none, some, List, ◌==◌, eqb, if◌then◌else◌,
}
use roadwisefleet.Share.Cuts.{is_empty, cut_first, split}
use roadwisefleet.Notify.Envelope.{Entry}

-- What `read` keeps of a line: a shell drops NUL.
unfoldable pub drop_nuls : String → String
drop_nuls [] = []
drop_nuls (c ∷ s) = let rest = drop_nuls s in if eqb (code c) 0 then rest else c ∷ rest

-- `${line%$'\r'}`
unfoldable pub drop_return : String → String
drop_return [] = []
drop_return (c ∷ s) = if eqb (code c) 13 && is_empty s then [] else c ∷ drop_return s

-- `"$line" == '#'*`
unfoldable pub is_comment : String → Bool
is_comment [] = false
is_comment (c ∷ s) = eqb (code c) b'#'

-- One round of the loop; an entry of no key is refused by the shell.
unfoldable pub entry_in : String → Option Entry
entry_in l = if is_empty l || is_comment l then none else elim (cut_first b'=' l) [
  | none ↦ some (l, l)
  | some (k, v) ↦ if is_empty k then none else some (k, v)
]

unfoldable pub entries_of : List String → List Entry
entries_of List.[] = List.[]
entries_of (List.◌∷◌ l ls) =
    let rest = entries_of ls in
    elim (entry_in (drop_return (drop_nuls l))) [ none ↦ rest | some e ↦ List.◌∷◌ e rest ]

-- An entry as the shell has it.
abbrev pub as_read : Entry → Entry
as_read (k, v) = (k, drop_nuls v)

-- The assignments to `VARS` that the file leads to, in their order.
unfoldable pub read_entries : String → List Entry
read_entries t = let (l, ls) = split 10 t in entries_of (List.◌∷◌ l ls)

-- `${VARS[key]:-}` after assignments from a start: the last one of the key counts.
unfoldable pub value_after : String → String → List Entry → String
value_after start key List.[] = start
value_after start key (List.◌∷◌ (k, v) es) = value_after (if k == key then v else start) key es

unfoldable pub value_of : String → String → String
value_of t key = value_after "" key (read_entries t)
