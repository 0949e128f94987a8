-- ===== src/Notify/Files.antt =====
-- What a write to the spool does to the files, whatever calls of the file system fail
-- (apps/api/src/notifications.js).
use Prim.Native.String.{◌++◌}
use package.text.Mathlib.TextLemmas.{nil-append}
use mathlib.Core.Path.{subst}
use roadwisefleet.Prelude.{
  ℕ, zero, suc, ◌+◌, String, ◌≡◌, ◌≢◌, refl, sym, ap, ◌∙◌, ◌⊎◌, inl, inr, Bool, true, false, not,
  ◌&&◌, Option, none, some, arith, if◌then◌else◌,
}
use roadwisefleet.Notify.Spool.{
  Failure, FileSystem, Attempt, done, threw, after, WriteReply, no_spool, spool_unavailable,
  spool_write_failed, written, Target, final_path, tmp_path, is_exists, attempt, clean_up, finish,
  rounds,
}

-- The documented behaviour of `node:fs`, by the content of the file at a path: a call changes the
-- paths that it names alone; a file opened with `wx` is new and empty; a rename moves the content,
-- and one that fails changes nothing. One law is assumed beyond that: a write that does not throw
-- adds the whole text (`writeSync` gives the number of bytes written, which the code does not read).
pub record IsFileSystem {ℓ} {S : Type ℓ} (fs : FileSystem S) (read : S → String → Option String)
    : Type ℓ where
  pub read-make_dir : (d : String) (s : S) (q : String) → read (fs.make_dir d s).0 q ≡ read s q
  pub read-open_new :
      (p : String) (s : S) → (fs.open_new p s).1 ≡ none → read (fs.open_new p s).0 p ≡ some ""
  pub read-open_new_other :
      (p : String) (s : S) (q : String) → q ≢ p → read (fs.open_new p s).0 q ≡ read s q
  pub read-set_mode : (p : String) (s : S) (q : String) → read (fs.set_mode p s).0 q ≡ read s q
  pub read-write :
      (p body : String) (s : S) (old : String)
      → (fs.write p body s).1 ≡ none
      → read s p ≡ some old
      → read (fs.write p body s).0 p ≡ some (old ++ body)
  pub read-write_other :
      (p body : String) (s : S) (q : String) → q ≢ p → read (fs.write p body s).0 q ≡ read s q
  pub read-close : (p : String) (s : S) (q : String) → read (fs.close p s).0 q ≡ read s q
  pub read-rename :
      (a b : String) (s : S)
      → a ≢ b
      → (fs.rename a b s).1 ≡ none
      → read (fs.rename a b s).0 b ≡ read s a
  pub read-rename_other :
      (a b : String) (s : S) (q : String) → q ≢ a → q ≢ b → read (fs.rename a b s).0 q ≡ read s q
  pub read-rename_failed :
      (a b : String) (s : S) (q : String) (e : Failure)
      → (fs.rename a b s).1 ≡ some e
      → read (fs.rename a b s).0 q ≡ read s q
  pub read-unlink_other :
      (p : String) (s : S) (q : String) → q ≢ p → read (fs.unlink p s).0 q ≡ read s q

after-done {ℓ} :
    {S : Type ℓ} (b : Bool) (r : S × Option Failure) (k : S → Attempt S) (s' : S)
    → after b r k ≡ done s'
    → (r.1 ≡ none) × (k r.0 ≡ done s')
after-done b (s, none) k s' h = (refl, h)
after-done b (s, some e) k s' h = absurd (ground (arith, h))

after-threw {ℓ} :
    {S : Type ℓ} (P : S → Type 0) (b : Bool) (r : S × Option Failure) (k : S → Attempt S) (s' : S)
    (o : Bool) (e : Failure)
    → P r.0
    → (k r.0 ≡ threw s' o e → P s')
    → after b r k ≡ threw s' o e
    → P s'
after-threw P b (s, none) k s' o e first later h = later h
after-threw P b (s, some f) k s' o e first later h = subst P (cc h) first

last-threw {ℓ} :
    {S : Type ℓ} (b : Bool) (r : S × Option Failure) (s' : S) (o : Bool) (e : Failure)
    → after b r done ≡ threw s' o e
    → (r.0 ≡ s') × (r.1 ≡ some e)
last-threw b (s, none) s' o e h = absurd (ground (arith, h))
last-threw b (s, some f) s' o e h = (cc h, cc h)

Attempt-cases {ℓ} :
    {S : Type ℓ} (a : Attempt S)
    → ((s : S) × (a ≡ done s)) ⊎ ((s : S) × (o : Bool) × (e : Failure) × (a ≡ threw s o e))
Attempt-cases (done s) = inl (s, refl)
Attempt-cases (threw s o e) = inr (s, o, e, refl)

module _ {ℓ} {S : Type ℓ} (fs : FileSystem S) (read : S → String → Option String)
    (laws : IsFileSystem fs read) where
  attempt-done :
      (tmp final body : String) (s s' : S)
      → tmp ≢ final
      → attempt fs tmp final body s ≡ done s'
      → (read s' final ≡ some body) × ((q : String) → q ≢ tmp → q ≢ final → read s' q ≡ read s q)
  unfolding attempt
  attempt-done tmp final body s s' apart h =
      let (o, h1) = after-done false (fs.open_new tmp s) _ s' h in
      let s1 = (fs.open_new tmp s).0 in
      let (m, h2) = after-done true (fs.set_mode tmp s1) _ s' h1 in
      let s2 = (fs.set_mode tmp s1).0 in
      let (w, h3) = after-done true (fs.write tmp body s2) _ s' h2 in
      let s3 = (fs.write tmp body s2).0 in
      let (c, h4) = after-done true (fs.close tmp s3) _ s' h3 in
      let s4 = (fs.close tmp s3).0 in
      let (r, h5) = after-done false (fs.rename tmp final s4) done s' h4 in
      let last : (fs.rename tmp final s4).0 ≡ s' = cc h5 in
      let moved : read (fs.rename tmp final s4).0 final ≡ some body =
        laws.read-rename tmp final s4 apart r
        ∙ laws.read-close tmp s3 tmp
        ∙ laws.read-write tmp body s2 "" w
            (laws.read-set_mode tmp s1 tmp ∙ laws.read-open_new tmp s o)
        ∙ ap some (nil-append body) in
      let kept : (q : String) → q ≢ tmp → q ≢ final → read (fs.rename tmp final s4).0 q ≡ read s q =
        λ q a b.
          laws.read-rename_other tmp final s4 q a b
          ∙ laws.read-close tmp s3 q
          ∙ laws.read-write_other tmp body s2 q a
          ∙ laws.read-set_mode tmp s1 q
          ∙ laws.read-open_new_other tmp s q a in
      subst
        (λ z.
          (read z final ≡ some body) × ((q : String) → q ≢ tmp → q ≢ final → read z q ≡ read s q))
        last (moved, kept)

  attempt-threw :
      (tmp final body : String) (s s' : S) (is_open : Bool) (e : Failure)
      → attempt fs tmp final body s ≡ threw s' is_open e
      → (q : String) → q ≢ tmp
      → read s' q ≡ read s q
  unfolding attempt
  attempt-threw tmp final body s s' is_open e h q a =
      let Kept : S → Type 0 = λ z. read z q ≡ read s q in
      let s1 = (fs.open_new tmp s).0 in
      let s2 = (fs.set_mode tmp s1).0 in
      let s3 = (fs.write tmp body s2).0 in
      let s4 = (fs.close tmp s3).0 in
      let k1 : Kept s1 = laws.read-open_new_other tmp s q a in
      let k2 : Kept s2 = laws.read-set_mode tmp s1 q ∙ k1 in
      let k3 : Kept s3 = laws.read-write_other tmp body s2 q a ∙ k2 in
      let k4 : Kept s4 = laws.read-close tmp s3 q ∙ k3 in
      after-threw Kept false (fs.open_new tmp s) _ s' is_open e k1
        (after-threw Kept true (fs.set_mode tmp s1) _ s' is_open e k2 (
          after-threw Kept true (fs.write tmp body s2) _ s' is_open e k3 (
            after-threw Kept true (fs.close tmp s3) _ s' is_open e k4 (λ g.
              let (same, failed) = last-threw false (fs.rename tmp final s4) s' is_open e g in
              subst Kept same (laws.read-rename_failed tmp final s4 q e failed ∙ k4)))))
        h

  clean_up-other :
      (tmp : String) (is_open : Bool) (s : S) (q : String)
      → q ≢ tmp
      → read (clean_up fs tmp is_open s) q ≡ read s q
  unfolding clean_up
  clean_up-other tmp true s q a =
      laws.read-unlink_other tmp (fs.close tmp s).0 q a ∙ laws.read-close tmp s q
  clean_up-other tmp false s q a = laws.read-unlink_other tmp s q a

  module _ (t : Target) where
    -- No round of the write puts its temporary file there.
    abbrev pub IsApart : String → Type 0
    IsApart q = (r : String) → q ≢ tmp_path t r

    -- What a reply promises: the file that it names has the whole body, and no other changed, the
    -- temporary ones aside.
    abbrev pub Outcome : String → S → S → WriteReply → Type 0
    Outcome body s s' (written f) =
        (read s' f ≡ some body) × ((q : String) → IsApart q → q ≢ f → read s' q ≡ read s q)
    Outcome body s s' _ = (q : String) → IsApart q → read s' q ≡ read s q

    pub Outcome-from :
        (body : String) (s0 s s' : S) (r : WriteReply)
        → ((q : String) → IsApart q → read s q ≡ read s0 q)
        → Outcome body s s' r
        → Outcome body s0 s' r
    Outcome-from body s0 s s' (written f) e (full, kept) = (full, λ q a b. kept q a b ∙ e q a)
    Outcome-from body s0 s s' no_spool e kept = λ q a. kept q a ∙ e q a
    Outcome-from body s0 s s' spool_unavailable e kept = λ q a. kept q a ∙ e q a
    Outcome-from body s0 s s' spool_write_failed e kept = λ q a. kept q a ∙ e q a

    abbrev pub Ends : String → S → S × ℕ × WriteReply → Type 0
    Ends body s r = Outcome body s r.0 r.2

    finish-Outcome :
        (given : Bool) (body rand : String) (again : S → S × ℕ × WriteReply) (k : ℕ) (s : S)
        (a : Attempt S)
        → attempt fs (tmp_path t rand) (final_path t rand) body s ≡ a
        → ((r : String) → IsApart (final_path t r))
        → ((z : S) → Ends body z (again z))
        → Ends body s (finish fs t given rand again k a)
    unfolding finish
    finish-Outcome given body rand again k s (done s') e apart later =
        let (full, kept) =
          attempt-done (tmp_path t rand) (final_path t rand) body s s'
            (λ h. apart rand rand (sym h)) e in
        (full, λ q a b. kept q (a rand) b)
    finish-Outcome given body rand again k s (threw s' o f) e apart later =
        let left = clean_up fs (tmp_path t rand) o s' in
        let kept : (q : String) → IsApart q → read left q ≡ read s q = λ q a.
          clean_up-other (tmp_path t rand) o s' q (a rand)
          ∙ attempt-threw (tmp_path t rand) (final_path t rand) body s s' o f e q (a rand) in
        choose (is_exists f && not given) left (again left)
          (Outcome-from body s left (again left).0 (again left).2 kept (later left)) kept
      where
        choose :
            (b : Bool) (left : S) (r : S × ℕ × WriteReply)
            → Ends body s r
            → ((q : String) → IsApart q → read left q ≡ read s q)
            → Ends body s (if b then r else (left, k, spool_write_failed))
        choose true left r ends kept = ends
        choose false left r ends kept = kept

    pub rounds-Outcome :
        (n : ℕ) (given : Bool) (body rand : String) (k : ℕ) (s : S)
        → ((r : String) → IsApart (final_path t r))
        → Ends body s (rounds fs t n given body rand k s)
    unfolding rounds
    rounds-Outcome zero given body rand k s apart = λ q a. refl
    rounds-Outcome (suc n) given body rand k s apart =
        finish-Outcome given body rand (rounds fs t n given body (t.builtins.fresh k) (k + 1)) k s
          (attempt fs (tmp_path t rand) (final_path t rand) body s) refl apart
          (λ z. rounds-Outcome n given body (t.builtins.fresh k) (k + 1) z apart)
