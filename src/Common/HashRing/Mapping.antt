-- ===== src/Common/HashRing/Mapping.antt =====
-- The hosts that get_hosts gives.
use stack4things_openstack_i.Common.HashRing.{found, failed, running, hosts_are}
use stack4things_openstack_i.Common.HashRing.Sets.{Distinct, Distinct-append_one}
use stack4things_openstack_i.Base.{
  All, Bool-cases, List, Option-cases, String, [], ap, arith, false, inl, inr, length,
  length-append, refl, some, subst, suc, zero, ℕ, ◌++◌, ◌+◌, ◌==◌, ◌||◌, ◌∷◌, ◌≡◌, ◌≤◌,
}
use stack4things_openstack_i.Common.HashRing.{
  HashRing, Search, collect, get_host, get_hosts, get_partition, is_in, next_partition, probe,
  relevant,
}

-- none of the hosts is in the other list
abbrev pub Apart : List String → List String → Type 0
Apart hs xs = All (λ h. is_in h xs ≡ false) hs

pub Apart-append : (xs ys zs : List String) → Apart xs zs → Apart ys zs → Apart (xs ++ ys) zs
Apart-append [] ys zs a b = b
Apart-append (x ∷ xs) ys zs a b = (a.0, Apart-append xs ys zs a.1 b)

module _ (ring : HashRing) (chosen ignored : List String) where
  -- what a search finds may be used
  pub probe_usable :
      (fuel p q : ℕ) (h : String)
      → probe fuel ring chosen ignored p ≡ found q h
      → (is_in h chosen ≡ false) × (is_in h ignored ≡ false) × (get_host ring q ≡ some h)
  unfolding probe
  probe_usable zero p q h e = absurd (cc e)
  probe_usable (suc fuel) p q h e = elim (Option-cases (get_host ring p)) [
    | inl none_there ↦ ground (arith, none_there, e)
    | inr (g, there) ↦ elim (Bool-cases (is_in g chosen || is_in g ignored)) [
      | inl skip ↦ probe_usable fuel (next_partition ring p) q h (ground (arith, there, skip, e))
      | inr stop ↦ (
        ground (arith, there, stop, e),
        ground (arith, there, stop, e),
        ground (arith, there, stop, e),
      )
    ]
  ]

-- The hosts given: different ones, none of them ignored, no more than asked for.
pub record IsMapping (ring : HashRing) (ignored hs : List String) (most : ℕ) : Type 0 where
  pub distinct : Distinct hs
  pub apart : Apart hs ignored
  pub at_most : length hs ≤ most

collect-IsMapping :
    (n p most : ℕ) (ring : HashRing) (ignored chosen hs : List String)
    → Distinct chosen
    → Apart chosen ignored
    → length chosen + n ≤ most
    → collect n ring ignored p chosen ≡ hosts_are hs
    → IsMapping ring ignored hs most
unfolding collect
collect-IsMapping zero p most ring ignored chosen hs d a m e =
    let same : chosen ≡ hs = cc in
    record {
      distinct = subst Distinct same d;
      apart = subst (λ x. Apart x ignored) same a;
      at_most = omega (arith, ap length same);
    }
collect-IsMapping (suc n) p most ring ignored chosen hs d a m e =
    elim (Bool-cases (length chosen + length ignored == length ring.hosts)) [
      | inl full ↦
          let same : chosen ≡ hs = ground (arith, full, e) in
          record {
            distinct = subst Distinct same d;
            apart = subst (λ x. Apart x ignored) same a;
            at_most = omega (arith, ap length same);
          }
      | inr room ↦
          by_search (probe (length ring.partitions) ring chosen ignored p) refl room
            (λ q h. collect-IsMapping n q most ring ignored (chosen ++ h ∷ []) hs)
    ]
  where
    by_search :
        (s : Search)
        → probe (length ring.partitions) ring chosen ignored p ≡ s
        → (length chosen + length ignored == length ring.hosts) ≡ false
        → ((q : ℕ) (h : String)
            → Distinct (chosen ++ h ∷ [])
            → Apart (chosen ++ h ∷ []) ignored
            → length (chosen ++ h ∷ []) + n ≤ most
            → collect n ring ignored q (chosen ++ h ∷ []) ≡ hosts_are hs
            → IsMapping ring ignored hs most)
        → IsMapping ring ignored hs most
    by_search (found q h) s room rec =
        let (new, usable, at) = probe_usable ring chosen ignored (length ring.partitions) p q h s in
        rec q h (Distinct-append_one chosen h d new)
          (Apart-append chosen (h ∷ []) ignored a (usable, tt))
          (omega (arith, length-append chosen (h ∷ []))) (ground (arith, s, room, e))
    by_search failed s room rec = ground (arith, s, room, e)
    by_search running s room rec = ground (arith, s, room, e)

module _ (md5 : String → ℕ) (ring : HashRing) (text : String) (ignore_hosts : List String) where
  -- The hosts that get_hosts gives for a text are different from each other, none of them is to be
  -- ignored, and they are no more than the replicas of the ring.
  pub get_hosts-IsMapping :
      (hs : List String)
      → get_hosts md5 ring text ignore_hosts ≡ hosts_are hs
      → IsMapping ring (relevant md5 ring ignore_hosts) hs ring.replicas
  unfolding get_hosts
  get_hosts-IsMapping hs e =
      collect-IsMapping ring.replicas (get_partition md5 ring text) ring.replicas ring
        (relevant md5 ring ignore_hosts) [] hs tt tt (omega arith) e
