-- ===== src/Fs/MemLayer.antt =====
-- kernel/src/fs/overlayfs.rs: a read-only layer. File data is a list of bytes.
use oci_kernel.Prelude.{ℕ, Bool, Option, List, []}
use oci_kernel.Prelude.Order.{text_key}
use oci_kernel.Prelude.Text.{Text}
use oci_kernel.Prelude.BTreeMap
use oci_kernel.Prelude.BTreeMap.{BTreeMap}

pub record MemLayer : Type 0 where
  pub files : BTreeMap Text (List ℕ)

unfoldable pub new : MemLayer
new = record { files = [] }

unfoldable pub insert : MemLayer → Text → List ℕ → MemLayer
insert l path bytes = record { files = BTreeMap.insert path bytes l.files }

unfoldable pub read : MemLayer → Text → Option (List ℕ)
read l path = BTreeMap.get path l.files

unfoldable pub exists : MemLayer → Text → Bool
exists l path = BTreeMap.contains_key path l.files
