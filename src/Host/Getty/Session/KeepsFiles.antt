-- ===== src/Host/Getty/Session/KeepsFiles.antt =====
-- The file commands of kernel/src/host/getty.rs keep the getty sound.
use oci_kernel.Prelude.{
  ℕ, ◌≡◌, arith, true, Option, none, some, List, [], ◌∷◌, ◌++◌, Result, ok, err,
}
use oci_kernel.Prelude.Text.{Text, text}
use oci_kernel.Prelude.Utf8.{from_utf8}
use oci_kernel.Fs.Overlay
use oci_kernel.Fs.Overlay.{FsError, not_found, permission_denied, already_exists}
use oci_kernel.Host.Getty.State.{Getty, print, println, println_all}
use oci_kernel.Host.Getty.Path.{resolve_path}
use oci_kernel.Host.Getty.Path.Laws.{resolve_path-IsCanonical}
use oci_kernel.Host.Getty.Files
use oci_kernel.Host.Getty.Files.{show_entries, show_text, show_file, rm_message}
use oci_kernel.Host.Getty.Session.Sound.{is_sound}

pub println-IsSound : (g : Getty) (s : Text) → is_sound g ≡ true → is_sound (println g s) ≡ true
unfolding is_sound println
println-IsSound g s h = h

pub print-IsSound : (g : Getty) (s : Text) → is_sound g ≡ true → is_sound (print g s) ≡ true
unfolding is_sound print
print-IsSound g s h = h

pub println_all-IsSound :
    (g : Getty) (ss : List Text) → is_sound g ≡ true → is_sound (println_all g ss) ≡ true
unfolding println_all
println_all-IsSound g [] h = h
println_all-IsSound g (s ∷ ss) h = println_all-IsSound (println g s) ss (println-IsSound g s h)

-- The file system is not read.
root_fs-IsSound :
    (g : Getty) (m : Overlay.OverlayMount)
    → is_sound g ≡ true
    → is_sound (record g { root_fs = m }) ≡ true
unfolding is_sound
root_fs-IsSound g m h = h

pub next_id-IsSound :
    (g : Getty) (n : ℕ) → is_sound g ≡ true → is_sound (record g { next_id = n }) ≡ true
unfolding is_sound
next_id-IsSound g n h = h

show_entries-IsSound :
    (g : Getty) (dir : Text) (es : List Text)
    → is_sound g ≡ true
    → is_sound (show_entries g dir es) ≡ true
unfolding show_entries
show_entries-IsSound g dir [] h =
    ground (arith, println-IsSound g (text "ls: " ++ (dir ++ text ": No such file or directory")))
show_entries-IsSound g dir (e ∷ es) h = println_all-IsSound g (e ∷ es) h

pub ls-IsSound :
    (g : Getty) (path : Option Text) → is_sound g ≡ true → is_sound (Files.ls g path) ≡ true
unfolding Files.ls
ls-IsSound g path h =
    show_entries-IsSound g (Files.dir_of g path) (Overlay.list g.root_fs (Files.dir_of g path)) h

pub cd-IsSound : (g : Getty) (path : Text) → is_sound g ≡ true → is_sound (Files.cd g path) ≡ true
unfolding Files.cd is_sound println
cd-IsSound g path h = ground (arith, resolve_path-IsCanonical g.cwd path)

show_text-IsSound :
    (g : Getty) (bytes : List ℕ) (t : Option Text)
    → is_sound g ≡ true
    → is_sound (show_text g bytes t) ≡ true
unfolding show_text print println is_sound
show_text-IsSound g bytes none h = h
show_text-IsSound g bytes (some s) h = h

pub show_file-IsSound :
    (g : Getty) (path : Text) (r : Result (List ℕ) FsError)
    → is_sound g ≡ true
    → is_sound (show_file g path r) ≡ true
unfolding show_file
show_file-IsSound g path (ok bytes) h = show_text-IsSound g bytes (from_utf8 bytes) h
show_file-IsSound g path (err e) h = unfold println in unfold is_sound in h

pub echo-IsSound :
    (g : Getty) (s : Text) (file : Option Text)
    → is_sound g ≡ true
    → is_sound (Files.echo g s file) ≡ true
unfolding Files.echo Files.write_file is_sound println
echo-IsSound g s none h = h
echo-IsSound g s (some dest) h = h

pub touch-IsSound :
    (g : Getty) (path : Text) → is_sound g ≡ true → is_sound (Files.touch g path) ≡ true
unfolding Files.touch Files.write_file is_sound
touch-IsSound g path h = ground arith

pub mkdir-IsSound :
    (g : Getty) (path : Text) → is_sound g ≡ true → is_sound (Files.mkdir g path) ≡ true
unfolding Files.mkdir Files.write_file is_sound
mkdir-IsSound g path h = h

rm_message-IsSound :
    (g : Getty) (path : Text) (r : Result (Unit {0}) FsError)
    → is_sound g ≡ true
    → is_sound (rm_message g path r) ≡ true
unfolding rm_message println is_sound
rm_message-IsSound g path (ok u) h = h
rm_message-IsSound g path (err permission_denied) h = h
rm_message-IsSound g path (err not_found) h = h
rm_message-IsSound g path (err already_exists) h = h

pub rm-IsSound : (g : Getty) (path : Text) → is_sound g ≡ true → is_sound (Files.rm g path) ≡ true
unfolding Files.rm
rm-IsSound g path h =
    let r = Overlay.remove g.root_fs (resolve_path g.cwd path) in
    rm_message-IsSound (record g { root_fs = r.1 }) path r.0 (root_fs-IsSound g r.1 h)
