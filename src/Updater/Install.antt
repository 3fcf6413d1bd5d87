-- ===== src/Updater/Install.antt =====
-- The names, the command and the wait of `applyUpdateLinux`. The download, the files and the child
-- process are parameters.
pub mod Quoted
use github_codespaces_proxy.Base.{
  ℕ, zero, suc, ◌+◌, Bool, true, false, Option, none, some, ◌||◌, List, [], ◌∷◌, ◌++◌, ◌==◌,
  if◌then◌else◌, Bytes, codes, rfind_char, take, drop, to_string,
}

-- Directory and file name of the program; without a slash both are the whole.
unfoldable pub split_self : Bytes → Bytes × Bytes
unfolding rfind_char
split_self self = elim (rfind_char b'/' self) [
  | none ↦ (self, self)
  | some sep ↦ (take sep self, drop (sep + 1) self)
]

unfoldable pub tmp_dir : ℕ → Bytes
unfolding to_string
tmp_dir pid = codes "/tmp/hwp_update_" ++ to_string pid

unfoldable pub is_shell_meta : ℕ → Bool
is_shell_meta c =
    c == 39
    || c == 34
    || c == b';'
    || c == b'|'
    || c == b'&'
    || c == 96
    || c == b'$'
    || c == 92
    || c == b'('
    || c == b')'

unfoldable pub contains_shell_meta : Bytes → Bool
unfolding is_shell_meta
contains_shell_meta [] = false
contains_shell_meta (c ∷ s) = is_shell_meta c || contains_shell_meta s

unfoldable pub joined : List Bytes → Bytes
joined [] = []
joined (piece ∷ pieces) = piece ++ joined pieces

-- The text of the command, for the directory of the download, the name of the program and its
-- directory.
unfoldable pub shell_command : Bytes → Bytes → Bytes → Bytes
unfolding joined
shell_command tmp base dir = joined (
    codes "cd '"
    ∷ tmp
    ∷ codes "' && ar x '"
    ∷ tmp
    ∷ codes
        "/asset.deb' 2>/dev/null; for f in data.tar.*; do tar -xf \"$f\" 2>/dev/null; done; find '"
    ∷ tmp
    ∷ codes "' -type f \\( -name '"
    ∷ base
    ∷ codes "' -o -name 'http-over-wss-server' -o -name 'hwp_core.so*' \\) -exec cp -f {} '"
    ∷ dir
    ∷ codes "/' \\; "
    ∷ [])

-- The command that runs, for names that pass the check.
unfoldable pub install_command : ℕ → Bytes → Option Bytes
install_command pid self =
    let tmp = tmp_dir pid in
    let names = split_self self in
    if contains_shell_meta tmp || contains_shell_meta names.1 || contains_shell_meta names.0
    then none
    else some (shell_command tmp names.1 names.0)

-- What `waitpid` says in a second of the wait, and how the wait ends.
pub data Waited : Type 0 where
  running wait_failed : Waited
  ended : Bool → Waited

pub data Installed : Type 0 where
  restarted extraction_failed wait_lost timed_out : Installed

unfoldable pub wait_child : (ℕ → Waited) → ℕ → ℕ → Installed
wait_child poll zero waited = timed_out
wait_child poll (suc left) waited = elim (poll waited) [
  | running ↦ wait_child poll left (waited + 1)
  | wait_failed ↦ wait_lost
  | ended ok ↦ if ok then restarted else extraction_failed
]

unfoldable pub await_install : (ℕ → Waited) → Installed
await_install poll = wait_child poll 120 0
