-- ===== src/Wallet/Store/Refines.antt =====
-- internal/app/vcstore/vcstore.go: the store against a function from ids to credentials.
use mathlib.Core.List.{Memᴰ}
use digital_identity_system.Prelude.{
  String, ◌≡◌, refl, sym, subst, ◌↔◌, Option, none, some, List, [], ◌∷◌, ◌==◌, if◌then◌else◌,
}
use digital_identity_system.Dict
use digital_identity_system.Dict.{get-put, get-remove, Each, Each-put, Each-remove}
use digital_identity_system.Dict.Entries.{
  IsMap, put-IsMap, remove-IsMap, Memᴰ_of_get, Memᴰ-values, key_of_value,
}
use digital_identity_system.Wallet.Store.{
  VerifiableCredential, VcStore, new_store, save, get, list, delete, delete_all, Op, saves, deletes,
  deletes_all, apply, run,
}

-- The specification: what each id holds after one more call.
abbrev pub after_op :
    Op → (String → Option VerifiableCredential) → String → Option VerifiableCredential
after_op (saves vc) held id = if vc.id == id then some vc else held id
after_op (deletes own) held id = if own == id then none else held id
after_op deletes_all held id = none

abbrev pub replay :
    List Op → (String → Option VerifiableCredential) → String → Option VerifiableCredential
replay [] held = held
replay (op ∷ ops) held = replay ops (after_op op held)

record IsKeyed (m : VcStore) : Type 0 where
  unique : IsMap m
  own : Each (λ id vc. vc.id ≡ id) m

apply-IsKeyed : (op : Op) (m : VcStore) → IsKeyed m → IsKeyed (apply op m)
unfolding apply save delete delete_all new_store Dict.get
apply-IsKeyed (saves vc) m i = record {
  unique = put-IsMap vc.id vc m i.unique;
  own = Each-put (λ id v. v.id ≡ id) vc.id vc m refl i.own;
}
apply-IsKeyed (deletes id) m i = record {
  unique = remove-IsMap id m i.unique;
  own = Each-remove (λ k v. v.id ≡ k) id m i.own;
}
apply-IsKeyed deletes_all m i = record {
  unique = λ k v h. elim h [ ];
  own = λ k v h. absurd (cc h);
}

get-apply :
    (op : Op) (m : VcStore) (held : String → Option VerifiableCredential)
    → ((id : String) → get id m ≡ held id)
    → (id : String) → get id (apply op m) ≡ after_op op held id
unfolding apply save get delete delete_all new_store Dict.get
get-apply (saves vc) m held same id = simp (get-put, same)
get-apply (deletes own) m held same id = simp (get-remove, same)
get-apply deletes_all m held same id = refl

get-run :
    (ops : List Op) (m : VcStore) (held : String → Option VerifiableCredential)
    → ((id : String) → get id m ≡ held id)
    → (id : String) → get id (run ops m) ≡ replay ops held id
unfolding run
get-run [] m held same id = same id
get-run (op ∷ ops) m held same id =
    get-run ops (apply op m) (after_op op held) (get-apply op m held same) id

run-IsKeyed : (ops : List Op) (m : VcStore) → IsKeyed m → IsKeyed (run ops m)
unfolding run
run-IsKeyed [] m i = i
run-IsKeyed (op ∷ ops) m i = run-IsKeyed ops (apply op m) (apply-IsKeyed op m i)

list_iff :
    (m : VcStore) (vc : VerifiableCredential)
    → IsKeyed m
    → Memᴰ vc (list m) ↔ (get vc.id m ≡ some vc)
unfolding list get
list_iff m vc i = (
  λ listed.
      let (k, there) = key_of_value vc m listed in
      let found = i.unique k vc there in
      subst (λ j. Dict.get j m ≡ some vc) (sym (i.own k vc found)) found,
  λ found. Memᴰ-values vc.id vc m (Memᴰ_of_get vc.id vc m found),
)

-- After any calls that save and delete credentials in a new store, a lookup of an id answers what
-- the same calls do to a function from ids to credentials, and the listing holds a credential
-- exactly if that function gives it for its own id.
pub run_refines :
    (ops : List Op) (id : String) (vc : VerifiableCredential)
    → (get id (run ops new_store) ≡ replay ops (λ _. none) id)
      × (Memᴰ vc (list (run ops new_store)) ↔ (replay ops (λ _. none) vc.id ≡ some vc))
unfolding new_store get Dict.get
run_refines ops id vc =
    let reads = get-run ops new_store (λ _. none) (λ _. refl) in
    let keyed =
      run-IsKeyed ops new_store
        (record { unique = λ k v h. elim h [ ]; own = λ k v h. absurd (cc h) }) in
    (reads id, rw (sym (reads vc.id)) (list_iff (run ops new_store) vc keyed))
