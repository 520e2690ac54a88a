-- ===== src/Host/Shell/Print.antt =====
-- A printer of the commands of kernel/src/host/shell.rs: the words that a user types for one.
use oci_kernel.Prelude.{
  ◌^◌, Bool, true, false, not, ◌&&◌, ltb, ◌||◌, Option, none, some, List, [], ◌∷◌, ◌++◌,
}
use oci_kernel.Prelude.Text.{Text, text, text_eq, split_whitespace}
use oci_kernel.Prelude.Decimal.{to_decimal}
use oci_kernel.Prelude.Words.{join, is_solid, is_word, are_words, lacks}
use oci_kernel.Container.Spec.{PortMapping, VolumeMount, AccessMode, read_only, read_write}
use oci_kernel.Host.Shell.{
  ShellCommand, ls, cd, pwd, cat, echo, touch, mkdir, rm, clear, uname, free, lsblk, df, ps,
  container_run, container_stop, container_logs, container_inspect, container_list, image_pull,
  image_list, image_remove, volume_create, volume_remove, kernel_info, help,
}

unfoldable pub port_word : PortMapping → Text
port_word m = to_decimal m.host ++ (b':' ∷ to_decimal m.container)

unfoldable pub port_args : List PortMapping → List Text
port_args [] = []
port_args (m ∷ ms) = text "-p" ∷ port_word m ∷ port_args ms

unfoldable pub mode_suffix : AccessMode → Text
mode_suffix read_only = text ":ro"
mode_suffix read_write = []

unfoldable pub volume_word : VolumeMount → Text
volume_word v = v.source ++ (b':' ∷ (v.target ++ mode_suffix v.access))

unfoldable pub volume_args : List VolumeMount → List Text
volume_args [] = []
volume_args (v ∷ vs) = text "-v" ∷ volume_word v ∷ volume_args vs

unfoldable pub tagged : Text → Text → Text
tagged name tag = name ++ (b':' ∷ tag)

unfoldable pub echo_file : Option Text → List Text
echo_file none = []
echo_file (some file) = text ">" ∷ file ∷ []

-- The words of a command.
unfoldable pub words : ShellCommand → List Text
words (ls none) = text "ls" ∷ []
words (ls (some path)) = text "ls" ∷ path ∷ []
words (cd path) = text "cd" ∷ path ∷ []
words pwd = text "pwd" ∷ []
words (cat path) = text "cat" ∷ path ∷ []
words (echo s file) = text "echo" ∷ (split_whitespace s ++ echo_file file)
words (touch path) = text "touch" ∷ path ∷ []
words (mkdir path) = text "mkdir" ∷ path ∷ []
words (rm path) = text "rm" ∷ path ∷ []
words clear = text "clear" ∷ []
words (uname true) = text "uname" ∷ text "-a" ∷ []
words (uname false) = text "uname" ∷ []
words free = text "free" ∷ []
words lsblk = text "lsblk" ∷ []
words df = text "df" ∷ []
words ps = text "ps" ∷ []
words (container_run image ports volumes) =
    text "container" ∷ text "run" ∷ image ∷ (port_args ports ++ volume_args volumes)
words (container_stop id) = text "container" ∷ text "stop" ∷ id ∷ []
words (container_logs id true) = text "container" ∷ text "logs" ∷ text "-f" ∷ id ∷ []
words (container_logs id false) = text "container" ∷ text "logs" ∷ id ∷ []
words (container_inspect id) = text "container" ∷ text "inspect" ∷ id ∷ []
words container_list = text "container" ∷ text "list" ∷ []
words (image_pull name tag) = text "image" ∷ text "pull" ∷ tagged name tag ∷ []
words image_list = text "image" ∷ text "list" ∷ []
words (image_remove name tag) = text "image" ∷ text "rm" ∷ tagged name tag ∷ []
words (volume_create name) = text "volume" ∷ text "create" ∷ name ∷ []
words (volume_remove name) = text "volume" ∷ text "rm" ∷ name ∷ []
words kernel_info = text "kernel" ∷ text "info" ∷ []
words help = text "help" ∷ []

-- The line that is typed.
unfoldable pub line : ShellCommand → Text
line cmd = join (b' ' ∷ []) (words cmd)

unfoldable pub port_fits : PortMapping → Bool
port_fits m = ltb m.host (2 ^ 16) && ltb m.container (2 ^ 16)

unfoldable pub all_port_fits : List PortMapping → Bool
all_port_fits [] = true
all_port_fits (m ∷ ms) = port_fits m && all_port_fits ms

-- No white space and no colon.
unfoldable pub is_part : Text → Bool
is_part s = is_solid s && lacks b':' s

unfoldable pub are_parts : List VolumeMount → Bool
are_parts [] = true
are_parts (v ∷ vs) = is_part v.source && (is_part v.target && are_parts vs)

unfoldable pub is_file : Option Text → Bool
is_file none = true
is_file (some file) = is_word file

-- One of the words is the sign of a redirection.
unfoldable pub redirects : List Text → Bool
redirects [] = false
redirects (w ∷ ws) = text_eq w (text ">") || redirects ws

-- What can be typed: words where the command wants words, ports of 16 bits, names and paths without
-- a colon where a colon separates. The text of `echo` is words with one space between, none of them `>`.
unfoldable pub is_printable : ShellCommand → Bool
is_printable (ls none) = true
is_printable (ls (some path)) = is_word path
is_printable (cd path) = is_word path
is_printable (cat path) = is_word path
is_printable (echo s file) =
    text_eq (join (b' ' ∷ []) (split_whitespace s)) s
    && (are_words (split_whitespace s) && (not (redirects (split_whitespace s)) && is_file file))
is_printable (touch path) = is_word path
is_printable (mkdir path) = is_word path
is_printable (rm path) = is_word path
is_printable (container_run image ports volumes) =
    is_word image && (all_port_fits ports && are_parts volumes)
is_printable (container_stop id) = is_word id
is_printable (container_logs id follow) = is_word id
is_printable (container_inspect id) = is_word id
is_printable (image_pull name tag) = is_part name && is_solid tag
is_printable (image_remove name tag) = is_part name && is_solid tag
is_printable (volume_create name) = is_word name
is_printable (volume_remove name) = is_word name
is_printable pwd = true
is_printable clear = true
is_printable (uname a) = true
is_printable free = true
is_printable lsblk = true
is_printable df = true
is_printable ps = true
is_printable container_list = true
is_printable image_list = true
is_printable kernel_info = true
is_printable help = true
