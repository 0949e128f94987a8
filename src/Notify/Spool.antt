-- ===== src/Notify/Spool.antt =====
-- The spool of the notifications: `writeEnvelope` and `emitEvent` of apps/api/src/notifications.js,
-- with the file system that they call as a parameter.
use Prim.Native.String.{◌∷◌, ◌++◌}
use roadwisefleet.Prelude.{
  ℕ, zero, suc, ◌+◌, String, Bool, true, false, not, ◌&&◌, Option, none, some, if◌then◌else◌,
}
use roadwisefleet.Js.{Value}
use roadwisefleet.Share.Cuts.{is_empty}
use roadwisefleet.Notify.Events.{trimmed}
use roadwisefleet.Notify.FileName.{envelope_file_name}

-- The error of a call: `EEXIST` or another.
pub data Failure : Type 0 where
  exists refused : Failure

-- What the program calls of `node:fs`; a call gives the files after it and its error, if it throws.
-- Between `open_new` and `close` a file is named by its path.
pub record FileSystem {ℓ} (S : Type ℓ) : Type ℓ where
  pub make_dir : String → S → S × Option Failure
  pub open_new : String → S → S × Option Failure
  pub set_mode : String → S → S × Option Failure
  pub write : String → String → S → S × Option Failure
  pub close : String → S → S × Option Failure
  pub rename : String → String → S → S × Option Failure
  pub unlink : String → S → S × Option Failure

-- What one attempt comes to: the files, and whether the file is open when a call throws.
pub data Attempt {ℓ} (S : Type ℓ) : Type ℓ where
  done : S → Attempt S
  threw : S → Bool → Failure → Attempt S

-- The next call, if the one before has not thrown.
abbrev pub after {ℓ} : {S : Type ℓ} → Bool → S × Option Failure → (S → Attempt S) → Attempt S
after is_open (s, none) k = k s
after is_open (s, some e) k = threw s is_open e

pub data WriteReply : Type 0 where
  no_spool spool_unavailable spool_write_failed : WriteReply
  written : String → WriteReply

-- What else the program calls: `join` of `node:path`, `at.toISOString()`, and the random texts of
-- `randomBytes(4).toString('hex')`.
pub record Builtins : Type 0 where
  pub join : String → String → String
  pub iso : String
  pub fresh : ℕ → String

-- The directory, and the parts of the files' names.
pub record Target : Type 0 where
  pub dir : String
  pub event : String
  pub ref : String
  pub builtins : Builtins

unfoldable pub file_name : Target → String → String
file_name t rand = envelope_file_name t.event t.ref t.builtins.iso rand

unfoldable pub final_path : Target → String → String
unfolding file_name
final_path t rand = t.builtins.join t.dir (file_name t rand)

unfoldable pub tmp_path : Target → String → String
unfolding file_name
tmp_path t rand = t.builtins.join t.dir ("." ∷ (file_name t rand ++ ".tmp"))

unfoldable pub is_exists : Failure → Bool
is_exists exists = true
is_exists refused = false

module _ {ℓ} {S : Type ℓ} (fs : FileSystem S) where
  -- The `try` of one round.
  unfoldable pub attempt : String → String → String → S → Attempt S
  attempt tmp final body s = after false (fs.open_new tmp s) (λ s1.
      after true (fs.set_mode tmp s1) (λ s2.
        after true (fs.write tmp body s2)
          (λ s3. after true (fs.close tmp s3) (λ s4. after false (fs.rename tmp final s4) done))))

  -- Its `catch`, up to the decision: close what is open, and remove the file.
  unfoldable pub clean_up : String → Bool → S → S
  clean_up tmp is_open s =
      let closed = (fs.close tmp s).0 in (fs.unlink tmp (if is_open then closed else s)).0

  -- The answer to a round, or another one with a new random text.
  unfoldable pub finish :
      Target → Bool → String → (S → S × ℕ × WriteReply) → ℕ → Attempt S → S × ℕ × WriteReply
  finish t given rand again k (done s) = (s, k, written (final_path t rand))
  finish t given rand again k (threw s is_open e) =
      let left = clean_up (tmp_path t rand) is_open s in
      if is_exists e && not given then again left else (left, k, spool_write_failed)

  -- The rounds that are left, with the random text of the next one, whether it was given, and how
  -- many were drawn.
  unfoldable pub rounds : Target → ℕ → Bool → String → String → ℕ → S → S × ℕ × WriteReply
  rounds t zero given body rand k s = (s, k, spool_write_failed)
  rounds t (suc n) given body rand k s =
      finish t given rand (rounds t n given body (t.builtins.fresh k) (k + 1)) k
        (attempt (tmp_path t rand) (final_path t rand) body s)

  -- The write once the directory was made, with how many texts are drawn by then.
  unfoldable pub in_dir : Target → Value → String → ℕ → ℕ → S × Option Failure → S × ℕ × WriteReply
  in_dir t random body k drawn (s, some e) = (s, drawn, spool_unavailable)
  in_dir t random body k drawn (s, none) =
      let given = not (is_empty (trimmed random)) in
      rounds t 3 given body (if given then trimmed random else t.builtins.fresh k) drawn s

  -- `writeEnvelope(spoolDir, body, { now, random, event, ref })`; `k` random texts were drawn before
  unfoldable pub write_envelope : Target → Value → String → ℕ → S → S × ℕ × WriteReply
  unfolding in_dir
  write_envelope t random body k s =
      if is_empty t.dir
      then (s, k, no_spool)
      else in_dir t random body k (if is_empty (trimmed random) then k + 1 else k)
          (fs.make_dir t.dir s)
