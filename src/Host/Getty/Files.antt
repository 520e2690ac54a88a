-- ===== src/Host/Getty/Files.antt =====
-- The file commands of `execute` in kernel/src/host/getty.rs.
use oci_kernel.Prelude.{
  ℕ, if◌then◌else◌, Option, none, some, List, [], ◌∷◌, ◌++◌, length, push, Result, ok, err,
}
use oci_kernel.Prelude.Text.{Text, text, trim_end_matches}
use oci_kernel.Prelude.Utf8.{as_bytes, from_utf8}
use oci_kernel.Prelude.Decimal.{to_decimal}
use oci_kernel.Fs.Overlay
use oci_kernel.Fs.Overlay.{FsError, not_found, permission_denied, already_exists}
use oci_kernel.Host.Getty.State.{Getty, print, println, println_all}
use oci_kernel.Host.Getty.Path.{resolve_path}

unfoldable pub dir_of : Getty → Option Text → Text
unfolding resolve_path
dir_of g (some p) = resolve_path g.cwd p
dir_of g none = g.cwd

unfoldable pub show_entries : Getty → Text → List Text → Getty
unfolding println println_all
show_entries g dir [] =
    if Overlay.is_dir g.root_fs dir
    then g
    else println g (text "ls: " ++ (dir ++ text ": No such file or directory"))
show_entries g dir (e ∷ entries) = println_all g (e ∷ entries)

unfoldable pub ls : Getty → Option Text → Getty
unfolding dir_of show_entries
ls g path = let dir = dir_of g path in show_entries g dir (Overlay.list g.root_fs dir)

unfoldable pub cd : Getty → Text → Getty
unfolding resolve_path println
cd g path =
    let target = resolve_path g.cwd path in
    if Overlay.is_dir g.root_fs target
    then record g { cwd = target }
    else println g (text "cd: " ++ (path ++ text ": No such directory"))

unfoldable pub pwd : Getty → Getty
unfolding println
pwd g = println g g.cwd

unfoldable pub show_text : Getty → List ℕ → Option Text → Getty
unfolding print println
show_text g bytes (some s) = print g s
show_text g bytes none =
    println g (text "<binary file: " ++ (to_decimal (length bytes) ++ text " bytes>"))

unfoldable pub show_file : Getty → Text → Result (List ℕ) FsError → Getty
unfolding show_text println
show_file g path (ok bytes) = show_text g bytes (from_utf8 bytes)
show_file g path (err e) = println g (text "cat: " ++ (path ++ text ": No such file or directory"))

unfoldable pub cat : Getty → Text → Getty
unfolding resolve_path show_file
cat g path = show_file g path (Overlay.read g.root_fs (resolve_path g.cwd path))

-- `fs.write(…)`, the result not used.
unfoldable pub write_file : Getty → Text → List ℕ → Getty
write_file g p bytes = record g { root_fs = (Overlay.write g.root_fs p bytes).1 }

unfoldable pub echo : Getty → Text → Option Text → Getty
unfolding resolve_path write_file println
echo g s none = println g s
echo g s (some dest) = write_file g (resolve_path g.cwd dest) (as_bytes (push s 10))

unfoldable pub touch : Getty → Text → Getty
unfolding resolve_path write_file
touch g path =
    let p = resolve_path g.cwd path in if Overlay.exists g.root_fs p then g else write_file g p []

unfoldable pub keep_path : Text → Text
keep_path p = trim_end_matches b'/' p ++ text "/.keep"

unfoldable pub mkdir : Getty → Text → Getty
unfolding resolve_path write_file keep_path
mkdir g path = write_file g (keep_path (resolve_path g.cwd path)) []

unfoldable pub rm_message : Getty → Text → Result (Unit {0}) FsError → Getty
unfolding println
rm_message g path (ok _) = g
rm_message g path (err permission_denied) =
    println g (text "rm: " ++ (path ++ text ": permission denied (read-only layer)"))
rm_message g path (err not_found) =
    println g (text "rm: " ++ (path ++ text ": No such file or directory"))
rm_message g path (err already_exists) =
    println g (text "rm: " ++ (path ++ text ": No such file or directory"))

unfoldable pub rm : Getty → Text → Getty
unfolding resolve_path rm_message
rm g path =
    let (result, root_fs) = Overlay.remove g.root_fs (resolve_path g.cwd path) in
    rm_message (record g { root_fs = root_fs }) path result
