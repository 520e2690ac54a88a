-- ===== src/Host/Shell/RoundTrip.antt =====
-- A command is read back from the line that is typed for it.
use mathlib.Core.List.{append-nil}
use oci_kernel.Prelude.{
  ◌≡◌, refl, ap, ◌∙◌, arith, true, false, Option, none, some, List, [], ◌∷◌, ◌++◌, ok,
}
use oci_kernel.Prelude.Text.{
  Text, text, text_eq, eq_of_text_eq, is_empty, is_whitespace, split_whitespace,
}
use oci_kernel.Prelude.Words.{
  join, is_solid, is_word, are_words, split_whitespace-trim-join, split_once-lacks,
}
use oci_kernel.Container.Spec.{PortMapping, VolumeMount}
use oci_kernel.Host.Shell.{
  ShellCommand, ls, cd, pwd, cat, echo, touch, mkdir, rm, clear, uname, free, lsblk, df, ps,
  container_run, container_stop, container_logs, container_inspect, container_list, image_pull,
  image_list, image_remove, volume_create, volume_remove, kernel_info, help, no_more, one_more,
  one_or_missing, one_or_none, split_image_tag, pull_of, remove_of, redirection, first_word,
  parse_echo, parse_uname, parse_logs, parse_run, parse_container, parse_image, parse_volume,
  parse_kernel, parse_groups, parse_system, parse_words, parse,
}
use oci_kernel.Host.Shell.Print.{
  port_args, volume_args, tagged, echo_file, words, line, all_port_fits, is_part, are_parts,
  is_file, redirects, is_printable,
}
use oci_kernel.Host.Shell.OptionsRoundTrip.{
  parse_ports-port_args, parse_volumes-port_args, parse_ports-volume_args,
  parse_volumes-volume_args, is_word_colon, are_words-port_args, are_words-volume_args,
}

are_words-append :
    (ws vs : List Text) → are_words ws ≡ true → are_words vs ≡ true → are_words (ws ++ vs) ≡ true
unfolding are_words
are_words-append [] vs h k = k
are_words-append (w ∷ ws) vs h k = ground (arith, are_words-append ws vs)

file_is_word : (file : Option Text) → is_file file ≡ true → are_words (echo_file file) ≡ true
unfolding is_file echo_file are_words is_empty is_solid is_whitespace
file_is_word none h = refl
file_is_word (some file) h = ground arith

is_tagged :
    (name tag : Text) → is_part name ≡ true → is_solid tag ≡ true → is_word (tagged name tag) ≡ true
unfolding tagged is_part
is_tagged name tag h k = ground (arith, is_word_colon name tag)

are_words-words : (cmd : ShellCommand) → is_printable cmd ≡ true → are_words (words cmd) ≡ true
unfolding words are_words is_printable is_empty is_solid is_whitespace
are_words-words (ls none) h = refl
are_words-words (ls (some path)) h = ground arith
are_words-words (cd path) h = ground arith
are_words-words pwd h = refl
are_words-words (cat path) h = ground arith
are_words-words (echo s file) h =
    ground (arith, are_words-append (split_whitespace s) (echo_file file), file_is_word file)
are_words-words (touch path) h = ground arith
are_words-words (mkdir path) h = ground arith
are_words-words (rm path) h = ground arith
are_words-words clear h = refl
are_words-words (uname true) h = refl
are_words-words (uname false) h = refl
are_words-words free h = refl
are_words-words lsblk h = refl
are_words-words df h = refl
are_words-words ps h = refl
are_words-words (container_run image ports volumes) h =
    ground (arith, are_words-port_args ports (volume_args volumes), are_words-volume_args volumes)
are_words-words (container_stop id) h = ground arith
are_words-words (container_logs id true) h = ground arith
are_words-words (container_logs id false) h = ground arith
are_words-words (container_inspect id) h = ground arith
are_words-words container_list h = refl
are_words-words (image_pull name tag) h = ground (arith, is_tagged name tag)
are_words-words image_list h = refl
are_words-words (image_remove name tag) h = ground (arith, is_tagged name tag)
are_words-words (volume_create name) h = ground arith
are_words-words (volume_remove name) h = ground arith
are_words-words kernel_info h = refl
are_words-words help h = refl

redirection-none : (ws : List Text) → redirects ws ≡ false → redirection ws ≡ none
unfolding redirection redirects
redirection-none [] h = refl
redirection-none (w ∷ ws) h = ground (arith, redirection-none ws)

redirection-some :
    (ws : List Text) (file : Text)
    → redirects ws ≡ false
    → redirection (ws ++ (text ">" ∷ file ∷ [])) ≡ some (ws, file ∷ [])
unfolding redirection redirects text_eq
redirection-some [] file h = refl
redirection-some (w ∷ ws) file h = ground (arith, redirection-some ws file)

redirection-echo_file :
    (ws : List Text) (file : Option Text)
    → redirects ws ≡ false
    → parse_echo (ws ++ echo_file file) ≡ ok (echo (join (text " ") ws) file)
unfolding parse_echo echo_file first_word
redirection-echo_file ws none h = ground (arith, redirection-none ws, append-nil ws)
redirection-echo_file ws (some file) h = ground (arith, redirection-some ws file)

split_image_tag-tagged :
    (name tag : Text) → is_part name ≡ true → split_image_tag (tagged name tag) ≡ (name, tag)
unfolding split_image_tag tagged is_part
split_image_tag-tagged name tag h = ground (arith, split_once-lacks b':' name tag)

parse_run-words :
    (image : Text) (ports : List PortMapping) (volumes : List VolumeMount)
    → all_port_fits ports ≡ true
    → are_parts volumes ≡ true
    → parse_run (image ∷ (port_args ports ++ volume_args volumes))
      ≡ ok (container_run image ports volumes)
unfolding parse_run
parse_run-words image ports volumes h k = ground (
  arith,
  parse_ports-port_args [] ports (volume_args volumes),
  parse_ports-volume_args ports volumes,
  parse_volumes-port_args [] ports (volume_args volumes),
  parse_volumes-volume_args [] volumes,
)

parse_words-words :
    (cmd : ShellCommand) → is_printable cmd ≡ true → parse_words (words cmd) ≡ ok cmd
unfolding parse_words words is_printable parse_system parse_groups parse_container parse_image
    parse_volume parse_kernel no_more one_more one_or_missing one_or_none parse_uname parse_logs
    pull_of remove_of text_eq
parse_words-words (ls none) h = refl
parse_words-words (ls (some path)) h = refl
parse_words-words (cd path) h = refl
parse_words-words pwd h = refl
parse_words-words (cat path) h = refl
parse_words-words (echo s file) h = ground (
  arith,
  redirection-echo_file (split_whitespace s) file,
  eq_of_text_eq (join (text " ") (split_whitespace s)) s,
)
parse_words-words (touch path) h = refl
parse_words-words (mkdir path) h = refl
parse_words-words (rm path) h = refl
parse_words-words clear h = refl
parse_words-words (uname true) h = refl
parse_words-words (uname false) h = refl
parse_words-words free h = refl
parse_words-words lsblk h = refl
parse_words-words df h = refl
parse_words-words ps h = refl
parse_words-words (container_run image ports volumes) h =
    ground (arith, parse_run-words image ports volumes)
parse_words-words (container_stop id) h = refl
parse_words-words (container_logs id true) h = refl
parse_words-words (container_logs id false) h = refl
parse_words-words (container_inspect id) h = refl
parse_words-words container_list h = refl
parse_words-words (image_pull name tag) h = ground (arith, split_image_tag-tagged name tag)
parse_words-words image_list h = refl
parse_words-words (image_remove name tag) h = ground (arith, split_image_tag-tagged name tag)
parse_words-words (volume_create name) h = refl
parse_words-words (volume_remove name) h = refl
parse_words-words kernel_info h = refl
parse_words-words help h = refl

-- Every command that can be typed is what the parser makes of its line: options, ports, mounts,
-- tags and the redirection of `echo` included.
pub parse-line : (cmd : ShellCommand) → is_printable cmd ≡ true → parse (line cmd) ≡ ok cmd
unfolding parse line
parse-line cmd h =
    ap parse_words (split_whitespace-trim-join (words cmd) (are_words-words cmd h))
    ∙ parse_words-words cmd h
