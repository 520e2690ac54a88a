-- ===== src/Host/Getty/State.antt =====
-- What the login shell of kernel/src/host/getty.rs works on: its own field and the statics that it
-- locks (`ROOT_FS` of kernel/src/fs/mod.rs; `STORE`, `IMAGE_STORE`, `VOLUME_STORE` and
-- `PORT_FORWARDS` of kernel/src/container/mod.rs; `NEXT_ID` of kernel/src/container/runtime.rs).
-- `screen` is the text that it has sent to the serial line.
use oci_kernel.Prelude.{ℕ, List, [], ◌∷◌, ◌++◌}
use oci_kernel.Prelude.Text.{Text, text}
use oci_kernel.Fs.Overlay.{OverlayMount}
use oci_kernel.Container.Spec.{ActivePortForward}
use oci_kernel.Container.Store
use oci_kernel.Container.Store.{ContainerStore}

pub record Getty : Type 0 where
  pub cwd : Text
  pub root_fs : OverlayMount
  pub store : ContainerStore
  pub images : List (Text × Text)
  pub volumes : List Text
  pub forwards : List ActivePortForward
  pub next_id : ℕ
  pub screen : Text

-- The statics at the start, with the file system that they are given.
unfoldable pub new : OverlayMount → Getty
new root_fs = record {
  cwd = text "/home/root";
  root_fs = root_fs;
  store = Store.new;
  images = [];
  volumes = [];
  forwards = [];
  next_id = 1;
  screen = [];
}

unfoldable pub print : Getty → Text → Getty
print g s = record g { screen = g.screen ++ s }

unfoldable pub println : Getty → Text → Getty
println g s = record g { screen = g.screen ++ (s ++ (10 ∷ [])) }

unfoldable pub println_all : Getty → List Text → Getty
unfolding println
println_all g [] = g
println_all g (s ∷ ss) = println_all (println g s) ss
