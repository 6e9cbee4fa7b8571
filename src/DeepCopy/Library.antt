-- ===== src/DeepCopy/Library.antt =====
-- The deep copies of apimachinery that the generated ones call.
use ansible_operator.DeepCopy.Structs.{Machinery}
use ansible_operator.DeepCopy.Memory.{Copy}

pub record Library (M : Machinery) : Type 0 where
  pub copy_object_meta : M.ObjectMeta → Copy M M.ObjectMeta
  pub copy_list_meta : M.ListMeta → Copy M M.ListMeta
  pub copy_condition : M.Condition → Copy M M.Condition
