-- ===== src/Host/Shell.antt =====
-- kernel/src/host/shell.rs: one line of input to one command. A match on a slice of words is a test
-- of the first word and a match on the others.
pub mod Options
pub mod Print
pub mod OptionsRoundTrip
pub mod RoundTrip
pub mod Examples
use oci_kernel.Prelude.{
  ℕ, Bool, true, false, ◌||◌, if◌then◌else◌, Option, none, some, List, [], ◌∷◌, ◌++◌, Result, ok,
  err,
}
use oci_kernel.Prelude.Text.{Text, text, text_eq, trim, split_whitespace, split_once}
use oci_kernel.Prelude.Words.{join}
use oci_kernel.Container.Spec.{PortMapping, VolumeMount}
use oci_kernel.Host.Shell.Options.{
  ShellError, unknown_command, missing_argument, parse_ports, parse_volumes,
}

pub data ShellCommand : Type 0 where
  ls : Option Text → ShellCommand
  cd : Text → ShellCommand
  pwd : ShellCommand
  cat : Text → ShellCommand
  echo : Text → Option Text → ShellCommand
  touch : Text → ShellCommand
  mkdir : Text → ShellCommand
  rm : Text → ShellCommand
  clear : ShellCommand
  uname : Bool → ShellCommand
  free : ShellCommand
  lsblk : ShellCommand
  df : ShellCommand
  ps : ShellCommand
  container_run : Text → List PortMapping → List VolumeMount → ShellCommand
  container_stop : Text → ShellCommand
  container_logs : Text → Bool → ShellCommand
  container_inspect : Text → ShellCommand
  container_list : ShellCommand
  image_pull : Text → Text → ShellCommand
  image_list : ShellCommand
  image_remove : Text → Text → ShellCommand
  volume_create : Text → ShellCommand
  volume_remove : Text → ShellCommand
  kernel_info : ShellCommand
  help : ShellCommand

abbrev pub Parsed : Type 0
Parsed = Result ShellCommand ShellError

-- No word may follow.
unfoldable pub no_more : ShellCommand → List Text → Parsed
no_more cmd [] = ok cmd
no_more cmd (w ∷ ws) = err unknown_command

-- Exactly one word follows.
unfoldable pub one_more : (Text → ShellCommand) → List Text → Parsed
one_more cmd [] = err unknown_command
one_more cmd (w ∷ []) = ok (cmd w)
one_more cmd (w ∷ v ∷ ws) = err unknown_command

-- Exactly one word follows, and its absence has an error of its own.
unfoldable pub one_or_missing : Text → (Text → ShellCommand) → List Text → Parsed
one_or_missing what cmd [] = err (missing_argument what)
one_or_missing what cmd (w ∷ []) = ok (cmd w)
one_or_missing what cmd (w ∷ v ∷ ws) = err unknown_command

-- At most one word follows.
unfoldable pub one_or_none : ShellCommand → (Text → ShellCommand) → List Text → Parsed
one_or_none alone cmd [] = ok alone
one_or_none alone cmd (w ∷ []) = ok (cmd w)
one_or_none alone cmd (w ∷ v ∷ ws) = err unknown_command

unfoldable pub split_image_tag : Text → Text × Text
split_image_tag name_tag = elim (split_once b':' name_tag) [
  | some (name, tag) ↦ (name, tag)
  | none ↦ (name_tag, text "latest")
]

unfoldable pub pull_of : Text → ShellCommand
unfolding split_image_tag
pull_of name_tag = let (name, tag) = split_image_tag name_tag in image_pull name tag

unfoldable pub remove_of : Text → ShellCommand
unfolding split_image_tag
remove_of name_tag = let (name, tag) = split_image_tag name_tag in image_remove name tag

-- `rest.iter().position(|s| *s == ">")`: the words before it, and those after it.
unfoldable pub redirection : List Text → Option (List Text × List Text)
redirection [] = none
redirection (w ∷ ws) =
    let later = redirection ws in
    if text_eq w (text ">")
    then some ([], ws)
    else elim later [ none ↦ none | some (before, after) ↦ some (w ∷ before, after) ]

unfoldable pub first_word : List Text → Option Text
first_word [] = none
first_word (w ∷ ws) = some w

unfoldable pub parse_echo : List Text → Parsed
unfolding redirection first_word join
parse_echo rest = elim (redirection rest) [
  | none ↦ ok (echo (join (text " ") rest) none)
  | some (before, after) ↦ ok (echo (join (text " ") before) (first_word after))
]

unfoldable pub parse_uname : List Text → Parsed
parse_uname [] = ok (uname false)
parse_uname (flag ∷ []) = if text_eq flag (text "-a") then ok (uname true) else err unknown_command
parse_uname (flag ∷ w ∷ ws) = err unknown_command

unfoldable pub parse_logs : List Text → Parsed
parse_logs [] = err unknown_command
parse_logs (id ∷ []) = ok (container_logs id false)
parse_logs (v ∷ w ∷ []) =
    if text_eq v (text "-f")
    then ok (container_logs w true)
    else if text_eq w (text "-f")
    then ok (container_logs v true)
    else err unknown_command
parse_logs (u ∷ v ∷ w ∷ ws) = err unknown_command

unfoldable pub parse_run : List Text → Parsed
parse_run [] = err (missing_argument (text "image"))
parse_run (image ∷ rest) = elim (parse_ports [] rest) [
  | err e ↦ err e
  | ok ports ↦ elim (parse_volumes [] rest) [
    | err e ↦ err e
    | ok volumes ↦ ok (container_run image ports volumes)
  ]
]

unfoldable pub parse_container : List Text → Parsed
unfolding no_more one_more pull_of parse_logs parse_run
parse_container [] = err unknown_command
parse_container (sub ∷ args) =
    if text_eq sub (text "list") || (text_eq sub (text "ls") || text_eq sub (text "ps"))
    then no_more container_list args
    else if text_eq sub (text "pull")
    then one_more pull_of args
    else if text_eq sub (text "stop")
    then one_more container_stop args
    else if text_eq sub (text "logs")
    then parse_logs args
    else if text_eq sub (text "inspect")
    then one_more container_inspect args
    else if text_eq sub (text "run")
    then parse_run args
    else err unknown_command

unfoldable pub parse_image : List Text → Parsed
unfolding no_more one_more one_or_missing pull_of remove_of
parse_image [] = err unknown_command
parse_image (sub ∷ args) =
    if text_eq sub (text "pull")
    then one_or_missing (text "name:tag") pull_of args
    else if text_eq sub (text "list") || text_eq sub (text "ls")
    then no_more image_list args
    else if text_eq sub (text "rm") || text_eq sub (text "remove")
    then one_more remove_of args
    else err unknown_command

unfoldable pub parse_volume : List Text → Parsed
unfolding one_more
parse_volume [] = err unknown_command
parse_volume (sub ∷ args) =
    if text_eq sub (text "create")
    then one_more volume_create args
    else if text_eq sub (text "rm") || text_eq sub (text "remove")
    then one_more volume_remove args
    else err unknown_command

unfoldable pub parse_kernel : List Text → Parsed
unfolding no_more
parse_kernel [] = err unknown_command
parse_kernel (sub ∷ args) =
    if text_eq sub (text "info") then no_more kernel_info args else err unknown_command

-- The commands with a second word of their own, and the rest.
unfoldable pub parse_groups : Text → List Text → Parsed
unfolding parse_container parse_image parse_volume parse_kernel no_more
parse_groups w args =
    if text_eq w (text "container")
    then parse_container args
    else if text_eq w (text "image")
    then parse_image args
    else if text_eq w (text "volume")
    then parse_volume args
    else if text_eq w (text "kernel")
    then parse_kernel args
    else if text_eq w (text "help") || text_eq w (text "?")
    then no_more help args
    else err unknown_command

unfoldable pub parse_system : Text → List Text → Parsed
unfolding parse_groups parse_uname no_more
parse_system w args =
    if text_eq w (text "clear")
    then no_more clear args
    else if text_eq w (text "uname")
    then parse_uname args
    else if text_eq w (text "free")
    then no_more free args
    else if text_eq w (text "lsblk")
    then no_more lsblk args
    else if text_eq w (text "df")
    then no_more df args
    else if text_eq w (text "ps")
    then no_more ps args
    else parse_groups w args

unfoldable pub parse_words : List Text → Parsed
unfolding parse_system parse_echo no_more one_more one_or_missing one_or_none
parse_words [] = err unknown_command
parse_words (w ∷ args) =
    if text_eq w (text "ls")
    then one_or_none (ls none) (λ path. ls (some path)) args
    else if text_eq w (text "cd")
    then one_or_none (cd (text "/home/root")) cd args
    else if text_eq w (text "pwd")
    then no_more pwd args
    else if text_eq w (text "cat")
    then one_or_missing (text "filename") cat args
    else if text_eq w (text "touch")
    then one_more touch args
    else if text_eq w (text "mkdir")
    then one_more mkdir args
    else if text_eq w (text "rm")
    then one_more rm args
    else if text_eq w (text "echo")
    then parse_echo args
    else parse_system w args

unfoldable pub parse : Text → Parsed
unfolding parse_words
parse input = parse_words (split_whitespace (trim input))
