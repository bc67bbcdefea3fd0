-- ===== src/Conductor/Ports/Allocation.antt =====
-- What random_public_port hands out.
use stack4things_openstack_i.Action.{World, drop_draw, ok, pick}
use stack4things_openstack_i.Base.{
  All, List, Option, [], arith, false, filter, get_elem?, length, map, none, not, refl, some, suc,
  true, ℕ, ◌%◌, ◌+◌, ◌-◌, ◌<◌, ◌∷◌, ◌≡◌, ◌≤◌,
}
use stack4things_openstack_i.Conductor.Ports.{
  PortConfig, full_list, is_exposed, random_public_port, range, range_from, refill, remove,
  take_port, unexposed, webservice_ports,
}
use stack4things_openstack_i.Conductor.Ports.Lists.{
  All-filter, All-filter_empty, All-filter_passed, All-remove, Distinct, Distinct-filter,
  Distinct-remove, get_elem?-All, get_elem?-total, has_port, has_port-remove_self,
  range_from-Distinct, range_from_bounds,
}
use stack4things_openstack_i.Db.Engine.{Engine}
use stack4things_openstack_i.Db.Query.{every}
use stack4things_openstack_i.Db.Schema.{Column, Model, Row, Value, truthy}
use stack4things_openstack_i.Objects.{get_all_ports}

module _ (conf : PortConfig) where
  -- a port that the range allows, and that no service is exposed on
  abbrev pub IsFree : List Value → ℕ → Type 0
  IsFree vs n =
      (conf.service_port_min + 1 ≤ n) × (n < conf.service_port_max - 1) × (is_exposed vs n ≡ false)

  -- The list of free ports: each one free, none twice.
  pub record IsPool (vs : List Value) (ports : List ℕ) : Type 0 where
    pub free : All (IsFree vs) ports
    pub distinct : Distinct ports

  All-IsFree :
      (vs : List Value) (xs : List ℕ)
      → All (λ x. (conf.service_port_min + 1 ≤ x) × (x < conf.service_port_max - 1)) xs
      → All (λ x. not (is_exposed vs x) ≡ true) xs
      → All (IsFree vs) xs
  All-IsFree vs [] a b = tt
  All-IsFree vs (x ∷ xs) a b = ((a.0.0, a.0.1, ground arith), All-IsFree vs xs a.1 b.1)

  module _ ⦃E : Engine⦄ where
    full_list_bounds :
        All
          (λ x. (conf.service_port_min + 1 ≤ x) × (x < conf.service_port_max - 1))
          (full_list conf)
    unfolding full_list range
    full_list_bounds =
        widen
          (range_from (conf.service_port_min + 1)
            (conf.service_port_max - 1 - (conf.service_port_min + 1)))
          (range_from_bounds (conf.service_port_min + 1)
            (conf.service_port_max - 1 - (conf.service_port_min + 1)))
      where
        widen :
            (xs : List ℕ)
            → All
                (λ x.
                  (conf.service_port_min + 1 ≤ x)
                  × (x
                      < conf.service_port_min
                        + 1
                        + (conf.service_port_max - 1 - (conf.service_port_min + 1))))
                xs
            → All (λ x. (conf.service_port_min + 1 ≤ x) × (x < conf.service_port_max - 1)) xs
        widen [] a = tt
        widen (x ∷ xs) a = ((a.0.0, omega (arith, a.0.0, a.0.1)), widen xs a.1)

    full_list-Distinct : Distinct (full_list conf)
    unfolding full_list range
    full_list-Distinct = range_from-Distinct _ _

    -- the list made from the database is a pool
    unexposed-IsPool : (vs : List Value) → IsPool vs (unexposed vs (full_list conf))
    unfolding unexposed
    unexposed-IsPool vs = record {
      free =
          All-IsFree vs (filter (λ n. not (is_exposed vs n)) (full_list conf))
            (All-filter _ (λ n. not (is_exposed vs n)) (full_list conf) full_list_bounds)
            (All-filter_passed (λ n. not (is_exposed vs n)) (full_list conf));
      distinct = Distinct-filter (λ n. not (is_exposed vs n)) (full_list conf) full_list-Distinct;
    }

    -- the ports that the database has for exposed services
    abbrev pub exposed_ports : World → List Value
    exposed_ports w =
        map (λ (r : Row). r Column.public_port) (filter every (w.tables Model.exposed_service))

    -- No port is handed out, and then every port of the range is exposed; or a free port is, and
    -- the list that stays is a pool without it.
    abbrev pub Allocated : World → Option ℕ → World → Type 0
    Allocated w none v = All (λ n. is_exposed (exposed_ports w) n ≡ true) (full_list conf)
    Allocated w (some n) v =
        IsFree (exposed_ports w) n
        × (has_port n v.free_ports ≡ false)
        × IsPool (exposed_ports w) v.free_ports

    get_all_ports_lem : (w : World) → get_all_ports w ≡ (ok (exposed_ports w), w)
    unfolding get_all_ports truthy
    get_all_ports_lem w = ground (arith, E.select_lem w.tables Model.exposed_service every)

    -- the choice from a list that is not empty succeeds, with one of its elements
    pick_total :
        (x : ℕ) (xs ds : List ℕ)
        → (n : ℕ) × (i : ℕ) × (pick (x ∷ xs) ds ≡ some n) × (get_elem? (x ∷ xs) i ≡ some n)
    pick_total x xs [] = (x, 0, refl, refl)
    pick_total x xs (d ∷ ds) =
        let (n, e) = get_elem?-total (x ∷ xs) (d % length (x ∷ xs)) (omega arith) in
        (n, d % length (x ∷ xs), e, e)

    take_port_lem :
        (w : World) (vs : List Value) (x : ℕ) (xs : List ℕ)
        → IsPool vs (x ∷ xs)
        → (n : ℕ) × (take_port conf (x ∷ xs) w
            ≡ (ok (some n), record w { draws = drop_draw w.draws; free_ports = remove n (x ∷ xs) }))
          × IsFree vs n
          × (has_port n (remove n (x ∷ xs)) ≡ false)
          × IsPool vs (remove n (x ∷ xs))
    unfolding take_port
    take_port_lem w vs x xs pool =
        let (n, i, p, at) = pick_total x xs w.draws in
        (
          n,
          ground (arith, p),
          get_elem?-All (IsFree vs) (x ∷ xs) i n pool.free at,
          has_port-remove_self n (x ∷ xs) pool.distinct,
          record {
            free = All-remove (IsFree vs) n (x ∷ xs) pool.free;
            distinct = Distinct-remove n (x ∷ xs) pool.distinct;
          },
        )

    All-exposed :
        (vs : List Value) (xs : List ℕ)
        → All (λ x. not (is_exposed vs x) ≡ false) xs
        → All (λ x. is_exposed vs x ≡ true) xs
    All-exposed vs [] a = tt
    All-exposed vs (x ∷ xs) a = (ground arith, All-exposed vs xs a.1)

    none_free :
        (vs : List Value)
        → unexposed vs (full_list conf) ≡ []
        → All (λ x. is_exposed vs x ≡ true) (full_list conf)
    unfolding unexposed
    none_free vs e =
        All-exposed vs (full_list conf)
          (All-filter_empty (λ n. not (is_exposed vs n)) (full_list conf) e)

    -- From a pool (the empty list is one) random_public_port returns, writes no table, and what it
    -- hands out is as `Allocated` says.
    pub random_public_port_fresh :
        (w : World)
        → IsPool (exposed_ports w) w.free_ports
        → (o : Option ℕ) × (v : World) × (random_public_port conf w ≡ (ok o, v))
          × Allocated w o v
          × (v.tables ≡ w.tables)
    unfolding random_public_port refill
    random_public_port_fresh w pool = by_cache w.free_ports refl
      where
        by_refill :
            (ports : List ℕ)
            → unexposed (exposed_ports w) (full_list conf) ≡ ports
            → w.free_ports ≡ []
            → (o : Option ℕ) × (v : World) × (random_public_port conf w ≡ (ok o, v))
              × Allocated w o v
              × (v.tables ≡ w.tables)
        by_refill [] e c = (
          none,
          record w { free_ports = [] },
          ground (arith, get_all_ports_lem w, e, c),
          none_free (exposed_ports w) e,
          refl,
        )
        by_refill (x ∷ xs) e c =
            let (n, run, free, gone, rest) =
              take_port_lem (record w { free_ports = x ∷ xs }) (exposed_ports w) x xs
                (rw e at (unexposed-IsPool (exposed_ports w))) in
            (
              some n,
              record w { draws = drop_draw w.draws; free_ports = remove n (x ∷ xs) },
              ground (arith, get_all_ports_lem w, e, c, run),
              (free, gone, rest),
              refl,
            )

        by_cache :
            (ports : List ℕ)
            → w.free_ports ≡ ports
            → (o : Option ℕ) × (v : World) × (random_public_port conf w ≡ (ok o, v))
              × Allocated w o v
              × (v.tables ≡ w.tables)
        by_cache [] c = by_refill (unexposed (exposed_ports w) (full_list conf)) refl c
        by_cache (x ∷ xs) c =
            let (n, run, free, gone, rest) =
              take_port_lem w (exposed_ports w) x xs (rw c at pool) in
            (
              some n,
              record w { draws = drop_draw w.draws; free_ports = remove n (x ∷ xs) },
              ground (arith, run, c),
              (free, gone, rest),
              refl,
            )

    -- With one port p left in the list, enable_webservice can get p for https and p again for
    -- http: the list is made anew before the first port is exposed, so p is in it. The draw i is
    -- the place of p in the new list.
    pub webservice_ports_same :
        (w : World) (p d i : ℕ) (ds : List ℕ)
        → w.free_ports ≡ suc p ∷ []
        → w.draws ≡ d ∷ i ∷ ds
        → get_elem?
            (unexposed (exposed_ports w) (full_list conf))
            (i % length (unexposed (exposed_ports w) (full_list conf)))
          ≡ some (suc p)
        → (webservice_ports conf w).0 ≡ ok (some (suc p, suc p))
    unfolding webservice_ports
    webservice_ports_same w p d i ds cached draws place =
        by_list (unexposed (exposed_ports w) (full_list conf)) refl
      where
        by_list :
            (ports : List ℕ)
            → unexposed (exposed_ports w) (full_list conf) ≡ ports
            → (webservice_ports conf w).0 ≡ ok (some (suc p, suc p))
        by_list [] e = absurd (cc (rw e at place))
        by_list (x ∷ xs) e =
            let first : random_public_port conf w
                ≡ (ok (some (suc p)), record w { draws = i ∷ ds; free_ports = [] }) =
              ground (arith, cached, draws) in
            let second : (random_public_port conf (record w { draws = i ∷ ds; free_ports = [] })).0
                ≡ ok (some (suc p)) =
              ground (
                arith,
                get_all_ports_lem (record w { draws = i ∷ ds; free_ports = [] }),
                e,
                rw e at place,
              ) in
            ground (arith, first, second)
