-- ===== src/Wamp/AllowList/Entries.antt =====
-- Adding to the allow list, and taking the node out again.
use stack4things_openstack_i.Base.{
  Bool-cases, List, [], any, arith, eq_iff, false, inl, inr, none, refl, some, true, ◌++◌, ◌∷◌, ◌≡◌,
}
use stack4things_openstack_i.Wamp.AllowList.{
  AllowFile, Node, addin_allowlist, drop_node, is_listed, remove_from_allowlist, same_node,
}

same_node_refl : (n : Node) → same_node n n ≡ true
unfolding same_node
same_node_refl n = ground (arith, eq_iff n.client n.client, eq_iff n.port n.port)

is_listed-append_one : (n : Node) (ns : List Node) → is_listed n (ns ++ n ∷ []) ≡ true
unfolding is_listed any
is_listed-append_one n [] = ground (arith, same_node_refl n)
is_listed-append_one n (m ∷ ns) = ground (arith, is_listed-append_one n ns)

drop_node-append_one :
    (n : Node) (ns : List Node) → is_listed n ns ≡ false → drop_node n (ns ++ n ∷ []) ≡ ns
unfolding is_listed any drop_node
drop_node-append_one n [] new = ground (arith, same_node_refl n)
drop_node-append_one n (m ∷ ns) new = ground (arith, drop_node-append_one n ns)

-- A node that is added to the allow list twice is in it as if it had been added once, also when
-- the file cannot be read.
pub addin_allowlist_twice :
    (n : Node) (f : AllowFile) → addin_allowlist n (addin_allowlist n f) ≡ addin_allowlist n f
unfolding addin_allowlist
addin_allowlist_twice n none = refl
addin_allowlist_twice n (some ns) = elim (Bool-cases (is_listed n ns)) [
  | inl old ↦ ground (arith, old)
  | inr new ↦ ground (arith, new, is_listed-append_one n ns)
]

-- A node that is not in the allow list yet is in it after it is added, and taking it out again
-- gives the list as it was.
pub remove_from_allowlist-addin_allowlist :
    (n : Node) (ns : List Node)
    → is_listed n ns ≡ false
    → (addin_allowlist n (some ns) ≡ some (ns ++ n ∷ []))
      × (remove_from_allowlist n (addin_allowlist n (some ns)) ≡ some ns)
unfolding addin_allowlist remove_from_allowlist
remove_from_allowlist-addin_allowlist n ns new = (
  ground (arith, new),
  ground (arith, new, is_listed-append_one n ns, drop_node-append_one n ns new),
)
