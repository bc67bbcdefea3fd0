-- ===== src/Common/HashRing.antt =====
-- iotronic/common/hash_ring.py: hosts on a ring of partitions. MD5 is a parameter, the number of
-- the digest of a text; `update` adds to the text that is digested. A dict is the association list
-- of its entries, and a set the list of its elements without repetition.
pub mod Sets
pub mod Mapping
pub mod Ending
pub mod Placing
use stack4things_openstack_i.Base.{
  Bool, List, Option, String, [], any, concat, filter, get_elem?, if◌then◌else◌, leb, length, ltb,
  none, some, str_eq, suc, zero, ℕ, ◌++◌, ◌+◌, ◌==◌, ◌^◌, ◌||◌, ◌∷◌,
}

pub record HashRing : Type 0 where
  pub hosts : List String
  pub replicas : ℕ
  pub host_hashes : List (ℕ × String)
  pub partitions : List ℕ

-- host in hosts
unfoldable pub is_in : String → List String → Bool
is_in h hs = any (str_eq h) hs

-- set(hosts)
unfoldable pub set_of : List String → List String
unfolding is_in
set_of [] = []
set_of (h ∷ hs) = let rest = set_of hs in if is_in h hs then rest else h ∷ rest

-- d[k] = v
unfoldable pub put : ℕ → String → List (ℕ × String) → List (ℕ × String)
put k v [] = (k, v) ∷ []
put k v ((j, u) ∷ d) = if j == k then (k, v) ∷ d else (j, u) ∷ put k v d

unfoldable pub lookup : ℕ → List (ℕ × String) → Option String
lookup k [] = none
lookup k ((j, u) ∷ d) = if j == k then some u else lookup k d

-- sorted(d.keys())
unfoldable pub insert_sorted : ℕ → List ℕ → List ℕ
insert_sorted k [] = k ∷ []
insert_sorted k (j ∷ ks) = if leb k j then k ∷ j ∷ ks else j ∷ insert_sorted k ks

unfoldable pub sorted_keys : List (ℕ × String) → List ℕ
unfolding insert_sorted
sorted_keys [] = []
sorted_keys ((k, u) ∷ d) = insert_sorted k (sorted_keys d)

-- bisect.bisect on a sorted list: how many entries stand at or below the number
unfoldable pub bisect : List ℕ → ℕ → ℕ
bisect [] x = 0
bisect (k ∷ ks) x = if leb k x then suc (bisect ks x) else 0

-- partition += 1, and round the end
unfoldable pub next_partition : HashRing → ℕ → ℕ
next_partition ring p = if ltb (p + 1) (length ring.partitions) then p + 1 else 0

-- _get_host: IndexError and KeyError are `none`
unfoldable pub get_host : HashRing → ℕ → Option String
unfolding lookup
get_host ring p = elim (get_elem? ring.partitions p) [
  | none ↦ none
  | some k ↦ lookup k ring.host_hashes
]

-- The outcome of a search: a host found with its partition, a failed lookup, or a loop that is
-- still running when the fuel is gone.
pub data Search : Type 0 where
  found : ℕ → String → Search
  failed : Search
  running : Search

-- while host in hosts or host in ignore_hosts: the next partition
unfoldable pub probe : ℕ → HashRing → List String → List String → ℕ → Search
unfolding get_host is_in next_partition
probe zero ring chosen ignored p = running
probe (suc fuel) ring chosen ignored p =
    let rest = probe fuel ring chosen ignored (next_partition ring p) in
    elim (get_host ring p) [
      | none ↦ failed
      | some h ↦ if is_in h chosen || is_in h ignored then rest else found p h
    ]

pub data Hosts : Type 0 where
  hosts_are : List String → Hosts
  no_host : Hosts
  endless : Hosts

-- for replica in range(0, replicas), with the partition carried along
unfoldable pub collect : ℕ → HashRing → List String → ℕ → List String → Hosts
unfolding probe
collect zero ring ignored p chosen = hosts_are chosen
collect (suc n) ring ignored p chosen =
    let step = probe (length ring.partitions) ring chosen ignored p in
    let rest = λ (q : ℕ) (h : String). collect n ring ignored q (chosen ++ h ∷ []) in
    if length chosen + length ignored == length ring.hosts
    then hosts_are chosen
    else (elim step [ found q h ↦ rest q h | failed ↦ no_host | running ↦ endless ])

module _ (md5 : String → ℕ) where
  -- the partitions of one host: its key is digested again with one more copy each time
  unfoldable pub add_host : ℕ → String → String → List (ℕ × String) → List (ℕ × String)
  unfolding put
  add_host zero host text d = d
  add_host (suc n) host text d =
      add_host n host (concat text host) (put (md5 (concat text host)) host d)

  unfoldable pub add_hosts : ℕ → List String → List (ℕ × String) → List (ℕ × String)
  unfolding add_host
  add_hosts n [] d = d
  add_hosts n (h ∷ hs) d = add_hosts n hs (add_host n h h d)

  -- HashRing(hosts, replicas), with CONF.hash_partition_exponent
  unfoldable pub make_ring : ℕ → List String → ℕ → HashRing
  unfolding set_of add_hosts sorted_keys
  make_ring exponent hosts replicas = record {
    hosts = set_of hosts;
    replicas = if leb replicas (length hosts) then replicas else length hosts;
    host_hashes = add_hosts (2 ^ exponent) hosts [];
    partitions = sorted_keys (add_hosts (2 ^ exponent) hosts []);
  }

  unfoldable pub get_partition : HashRing → String → ℕ
  unfolding bisect
  get_partition ring text =
      if ltb (bisect ring.partitions (md5 text)) (length ring.partitions)
      then bisect ring.partitions (md5 text)
      else 0

  -- ignore_hosts, as a set, without the hosts that are not on the ring
  unfoldable pub relevant : HashRing → List String → List String
  unfolding set_of is_in
  relevant ring ignore_hosts = filter (λ h. is_in h ring.hosts) (set_of ignore_hosts)

  unfoldable pub get_hosts : HashRing → String → List String → Hosts
  unfolding relevant get_partition collect
  get_hosts ring text ignore_hosts =
      collect ring.replicas ring (relevant ring ignore_hosts) (get_partition ring text) []
