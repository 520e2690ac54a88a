-- ===== src/Fs/UpperLayer.antt =====
-- kernel/src/fs/overlayfs.rs: the writable layer. File data is a list of bytes.
use oci_kernel.Prelude.{ℕ, Bool, Option, List, []}
use oci_kernel.Prelude.Order.{text_key}
use oci_kernel.Prelude.Text.{Text}
use oci_kernel.Prelude.BTreeMap
use oci_kernel.Prelude.BTreeMap.{BTreeMap}

pub record UpperLayer : Type 0 where
  pub files : BTreeMap Text (List ℕ)

unfoldable pub new : UpperLayer
new = record { files = [] }

unfoldable pub read : UpperLayer → Text → Option (List ℕ)
read u path = BTreeMap.get path u.files

unfoldable pub write : UpperLayer → Text → List ℕ → UpperLayer
write u path bytes = record { files = BTreeMap.insert path bytes u.files }

unfoldable pub exists : UpperLayer → Text → Bool
exists u path = BTreeMap.contains_key path u.files
