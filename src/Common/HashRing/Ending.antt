-- ===== src/Common/HashRing/Ending.antt =====
-- On a balanced ring get_hosts ends, and with enough hosts.
use stack4things_openstack_i.Common.HashRing.{found, hosts_are}
use stack4things_openstack_i.Common.HashRing.Sets.{
  Distinct, Distinct-append, Distinct-append_one, Within, Within-append, is_in-append,
  length-Within, missing,
}
use stack4things_openstack_i.Base.{
  All, Bool, Bool-cases, List, String, [], any, ap, arith, false, filter, if◌then◌else◌, inl, inr,
  leb, length, length-append, refl, some, subst, suc, true, zero, ℕ, ◌++◌, ◌+◌, ◌-◌, ◌<◌, ◌==◌,
  ◌||◌, ◌∷◌, ◌≡◌, ◌≢◌, ◌⊎◌,
}
use stack4things_openstack_i.Common.HashRing.{
  HashRing, collect, get_host, get_hosts, get_partition, is_in, next_partition, probe, relevant,
  set_of,
}
use stack4things_openstack_i.Common.HashRing.Mapping.{Apart, Apart-append, probe_usable}
use stack4things_openstack_i.Db.Query.{all}

-- A ring whose partitions all have a host of the ring, and whose hosts, listed once, all have a
-- partition: no host lost all its partitions to equal hashes.
pub record IsBalanced (ring : HashRing) : Type 0 where
  pub distinct : Distinct ring.hosts
  pub served :
      (p : ℕ)
      → p < length ring.partitions
      → (h : String) × (get_host ring p ≡ some h) × (is_in h ring.hosts ≡ true)
  pub covered :
      All (λ h. (p : ℕ) × (p < length ring.partitions) × (get_host ring p ≡ some h)) ring.hosts

-- the steps from one partition to another, round the ring
abbrev distance : HashRing → ℕ → ℕ → ℕ
distance ring p q = if leb p q then q - p else q + length ring.partitions - p

next_partition_lt :
    (ring : HashRing) (p : ℕ)
    → p < length ring.partitions
    → next_partition ring p < length ring.partitions
unfolding next_partition
next_partition_lt ring p h = ground arith

distance-next_partition :
    (ring : HashRing) (p q : ℕ)
    → p < length ring.partitions
    → q < length ring.partitions
    → p ≢ q
    → suc (distance ring (next_partition ring p) q) ≡ distance ring p q
unfolding next_partition
distance-next_partition ring p q hp hq n = ground arith

module _ (ring : HashRing) (chosen ignored : List String) where
  -- With a usable host at q, the search ends before it has gone round once.
  probe_total :
      (fuel p q : ℕ) (h : String)
      → IsBalanced ring
      → p < length ring.partitions
      → q < length ring.partitions
      → get_host ring q ≡ some h
      → (is_in h chosen || is_in h ignored) ≡ false
      → distance ring p q < fuel
      → (r : ℕ) × (g : String) × (probe fuel ring chosen ignored p ≡ found r g)
        × (r < length ring.partitions)
  unfolding probe
  probe_total zero p q h b hp hq at u lt = absurd (omega arith)
  probe_total (suc fuel) p q h b hp hq at u lt =
      let (g, there, on_ring) = b.served p hp in
      elim (Bool-cases (is_in g chosen || is_in g ignored)) [
        | inr stop ↦ (p, g, ground (arith, there, stop), hp)
        | inl skip ↦
            let apart : p ≢ q = λ e. ground (arith, there, at, skip, u, ap (get_host ring) e) in
            let (r, k, run, hr) =
              probe_total fuel (next_partition ring p) q h b (next_partition_lt ring p hp) hq at u
                (omega (arith, distance-next_partition ring p q hp hq apart)) in
            (r, k, ground (arith, there, skip, run), hr)
      ]

-- the hosts that were asked for are given, or there were no more
abbrev pub IsFilled : HashRing → List String → List String → ℕ → Type 0
IsFilled ring ignored hs most =
    (length hs ≡ most) ⊎ (length hs + length ignored ≡ length ring.hosts)

distance_lt :
    (ring : HashRing) (p q : ℕ)
    → p < length ring.partitions
    → q < length ring.partitions
    → distance ring p q < length ring.partitions
distance_lt ring p q hp hq = ground arith

collect_total :
    (n p : ℕ) (ring : HashRing) (ignored chosen : List String)
    → IsBalanced ring
    → (0 < length ring.partitions → p < length ring.partitions)
    → Distinct ignored
    → Within ignored ring.hosts
    → Distinct chosen
    → Within chosen ring.hosts
    → Apart chosen ignored
    → (hs : List String) × (collect n ring ignored p chosen ≡ hosts_are hs)
      × IsFilled ring ignored hs (length chosen + n)
unfolding collect
collect_total zero p ring ignored chosen b hp di wi dc wc a = (chosen, refl, inl (omega arith))
collect_total (suc n) p ring ignored chosen b hp di wi dc wc a =
    elim (Bool-cases (length chosen + length ignored == length ring.hosts)) [
      | inl full ↦ (chosen, ground (arith, full), inr (ground (arith, full)))
      | inr room ↦
          elim (missing (λ h. (p : ℕ) × (p < length ring.partitions) × (get_host ring p ≡ some h))
            ring.hosts (chosen ++ ignored) b.covered) [
              | inr all ↦ absurd (
                  ground (
                    arith,
                    room,
                    length-append chosen ignored,
                    length-Within ring.hosts (chosen ++ ignored) b.distinct all,
                    length-Within (chosen ++ ignored) ring.hosts
                        (Distinct-append chosen ignored dc di a)
                        (Within-append chosen ignored ring.hosts wc wi),
                  ))
              | inl (h, (q, hq, at), new) ↦
                  let p_lt = hp (omega arith) in
                  let (r, k, run, hr) =
                    probe_total ring chosen ignored (length ring.partitions) p q h b p_lt hq at
                      (ground (arith, new, is_in-append h chosen ignored))
                      (distance_lt ring p q p_lt hq) in
                  let (fresh, usable, there) =
                    probe_usable ring chosen ignored (length ring.partitions) p r k run in
                  let (g, serves, on_ring) = b.served r hr in
                  let (hs, done, filled) =
                    collect_total n r ring ignored (chosen ++ k ∷ []) b (λ _. hr) di wi
                      (Distinct-append_one chosen k dc fresh)
                      (Within-append chosen (k ∷ []) ring.hosts wc
                        (ground (arith, serves, there, on_ring), tt))
                      (Apart-append chosen (k ∷ []) ignored a (usable, tt)) in
                  (
                    hs,
                    ground (arith, room, run, done),
                    subst (IsFilled ring ignored hs) (omega (arith, length-append chosen (k ∷ [])))
                        filled,
                  )
            ]
    ]

is_in-set_of : (g : String) (xs : List String) → is_in g xs ≡ false → is_in g (set_of xs) ≡ false
unfolding set_of is_in any
is_in-set_of g [] n = refl
is_in-set_of g (x ∷ xs) n = ground (arith, is_in-set_of g xs)

set_of-Distinct : (hs : List String) → Distinct (set_of hs)
unfolding set_of
set_of-Distinct [] = tt
set_of-Distinct (h ∷ hs) = elim (Bool-cases (is_in h hs)) [
  | inl again ↦
      let e : set_of hs ≡ set_of (h ∷ hs) = ground (arith, again) in
      subst Distinct e (set_of-Distinct hs)
  | inr new ↦
      let e : h ∷ set_of hs ≡ set_of (h ∷ hs) = ground (arith, new) in
      subst Distinct e ((is_in-set_of h hs new, set_of-Distinct hs))
]

filter-Within : (hs xs : List String) → Within (filter (λ h. is_in h hs) xs) hs
unfolding filter
filter-Within hs [] = tt
filter-Within hs (x ∷ xs) = elim (Bool-cases (is_in x hs)) [
  | inl i ↦
      let e : x ∷ filter (λ h. is_in h hs) xs ≡ filter (λ h. is_in h hs) (x ∷ xs) =
        ground (arith, i) in
      subst (λ l. Within l hs) e ((i, filter-Within hs xs))
  | inr n ↦
      let e : filter (λ h. is_in h hs) xs ≡ filter (λ h. is_in h hs) (x ∷ xs) = ground (arith, n) in
      subst (λ l. Within l hs) e (filter-Within hs xs)
]

is_in-filter :
    (P : String → Bool) (g : String) (ys : List String)
    → is_in g ys ≡ false
    → is_in g (filter P ys) ≡ false
unfolding filter is_in any
is_in-filter P g [] n = refl
is_in-filter P g (y ∷ ys) n = ground (arith, is_in-filter P g ys)

filter-Distinct : (P : String → Bool) (xs : List String) → Distinct xs → Distinct (filter P xs)
unfolding filter
filter-Distinct P [] d = tt
filter-Distinct P (x ∷ xs) d = elim (Bool-cases (P x)) [
  | inl i ↦
      let e : x ∷ filter P xs ≡ filter P (x ∷ xs) = ground (arith, i) in
      subst Distinct e ((is_in-filter P x xs d.0, filter-Distinct P xs d.1))
  | inr n ↦
      let e : filter P xs ≡ filter P (x ∷ xs) = ground (arith, n) in
      subst Distinct e (filter-Distinct P xs d.1)
]

module _ (md5 : String → ℕ) (ring : HashRing) (text : String) (ignore_hosts : List String) where
  -- On a balanced ring get_hosts ends with hosts, for any text and any hosts to ignore: as many as
  -- the replicas of the ring, or all the hosts of the ring that are not to be ignored.
  pub get_hosts_total :
      IsBalanced ring
      → (hs : List String) × (get_hosts md5 ring text ignore_hosts ≡ hosts_are hs)
        × IsFilled ring (relevant md5 ring ignore_hosts) hs ring.replicas
  unfolding get_hosts relevant get_partition
  get_hosts_total b =
      let (hs, done, filled) =
        collect_total ring.replicas (get_partition md5 ring text) ring
          (relevant md5 ring ignore_hosts) [] b (λ some_there. ground arith)
          (filter-Distinct (λ h. is_in h ring.hosts) (set_of ignore_hosts)
            (set_of-Distinct ignore_hosts))
          (filter-Within ring.hosts (set_of ignore_hosts)) tt tt tt in
      (hs, done, subst (IsFilled ring (relevant md5 ring ignore_hosts) hs) (omega arith) filled)
