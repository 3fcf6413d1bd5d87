-- ===== src/Updater/Install/Quoted.antt =====
-- The names stay inside the quotes of the command.
use github_codespaces_proxy.Base.{
  ℕ, ◌≡◌, refl, sym, ap, ◌∙◌, Bool, true, false, none, some, ◌||◌, [], ◌∷◌, ◌++◌, arith, ◌==◌,
  if◌then◌else◌, Bytes,
}
use github_codespaces_proxy.Updater.Install.{
  split_self, tmp_dir, contains_shell_meta, shell_command, install_command,
}

-- The part of a shell text outside its single quotes; the flag says whether one is open.
unfoldable pub outside : Bool → Bytes → Bytes
outside quoted [] = []
outside true (c ∷ s) =
    let closed = outside false s in let more = outside true s in if c == 39 then closed else more
outside false (c ∷ s) =
    let opened = outside true s in
    let more = c ∷ outside false s in if c == 39 then opened else more

outside-name :
    (name s : Bytes) → contains_shell_meta name ≡ false → outside true (name ++ s) ≡ outside true s
unfolding outside contains_shell_meta
outside-name [] s h = refl
outside-name (c ∷ name) s h =
    let q : (c == 39) ≡ false = ground arith in rw (outside, q) (outside-name name s (ground arith))

outside-command :
    (tmp base dir : Bytes)
    → contains_shell_meta tmp ≡ false
    → contains_shell_meta base ≡ false
    → contains_shell_meta dir ≡ false
    → outside false (shell_command tmp base dir) ≡ outside false (shell_command [] [] [])
unfolding outside shell_command
outside-command tmp base dir t b d =
    rw
      (
        outside-name tmp _ t,
        outside-name tmp _ t,
        outside-name tmp _ t,
        outside-name base _ b,
        outside-name dir _ d,
      )
      refl

names-if :
    (a b c : Bool) (cmd out : Bytes)
    → (if a || b || c then none else some cmd) ≡ some out
    → (a ≡ false) × (b ≡ false) × (c ≡ false) × (cmd ≡ out)
names-if a b c cmd out h = (ground arith, ground arith, ground arith, ground arith)

-- Whatever the process id and the path of the program, the text of a command that is run is,
-- outside its single quotes, that of the command with empty names: no part of a name gets out of
-- the quotes.
pub install_command-outside :
    (pid : ℕ) (self cmd : Bytes)
    → install_command pid self ≡ some cmd
    → outside false cmd ≡ outside false (shell_command [] [] [])
unfolding install_command
install_command-outside pid self cmd h =
    let n = names-if _ _ _ _ cmd h in
    ap (outside false) (sym n.3)
    ∙ outside-command (tmp_dir pid) (split_self self).1 (split_self self).0 n.0 n.1 n.2
