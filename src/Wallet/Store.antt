-- ===== src/Wallet/Store.antt =====
-- internal/app/vcstore/vcstore.go: the credentials of the wallet, in memory. The lock is left out.
pub mod Refines
use digital_identity_system.Prelude.{ℕ, String, Option, List, [], ◌∷◌}
use digital_identity_system.Dict
use digital_identity_system.Dict.{Dict}
use digital_identity_system.Dict.Entries.{values}

pub record VerifiableCredential : Type 0 where
  pub id : String
  pub format : String
  pub raw : String
  pub issuer : String
  pub subject : String
  pub types : List String
  pub created_at : ℕ

abbrev pub VcStore : Type 0
VcStore = Dict VerifiableCredential

unfoldable pub new_store : VcStore
new_store = []

unfoldable pub save : VerifiableCredential → VcStore → VcStore
save vc m = Dict.put vc.id vc m

unfoldable pub get : String → VcStore → Option VerifiableCredential
get id m = Dict.get id m

-- Go visits the map in an order of its own at each call; this is one such order.
unfoldable pub list : VcStore → List VerifiableCredential
list m = values m

unfoldable pub delete : String → VcStore → VcStore
delete id m = Dict.remove id m

unfoldable pub delete_all : VcStore → VcStore
unfolding new_store
delete_all m = new_store

-- A call that changes the store.
pub data Op : Type 0 where
  saves : VerifiableCredential → Op
  deletes : String → Op
  deletes_all : Op

unfoldable pub apply : Op → VcStore → VcStore
apply (saves vc) m = save vc m
apply (deletes id) m = delete id m
apply deletes_all m = delete_all m

unfoldable pub run : List Op → VcStore → VcStore
unfolding apply
run [] m = m
run (op ∷ ops) m = run ops (apply op m)
