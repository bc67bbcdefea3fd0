-- ===== src/Conductor/Ports.antt =====
-- iotronic/conductor/endpoints.py: random_public_port and the module's SERVICE_PORT_LIST. The list
-- made from a set difference is in ascending order here; the choice from it is by the draws.
pub mod Lists
pub mod Allocation
use stack4things_openstack_i.Action.{Action, choice, ok, pure, ◌>>=◌, ◌>>◌}
use stack4things_openstack_i.Base.{
  Bool, List, Option, [], any, filter, if◌then◌else◌, none, not, pos, some, suc, zero, ℕ, ◌+◌, ◌-◌,
  ◌==◌, ◌∷◌,
}
use stack4things_openstack_i.Db.Engine.{Engine}
use stack4things_openstack_i.Db.Schema.{Value, eq_value}
use stack4things_openstack_i.Objects.{get_all_ports}

-- cfg.CONF.conductor.service_port_min and service_port_max
pub record PortConfig : Type 0 where
  pub service_port_min : ℕ
  pub service_port_max : ℕ

-- the defaults that conductor/manager.py registers
abbrev pub default_ports : PortConfig
default_ports = record { service_port_min = 50000; service_port_max = 60000 }

unfoldable pub range_from : ℕ → ℕ → List ℕ
range_from lo zero = []
range_from lo (suc n) = lo ∷ range_from (lo + 1) n

-- range(lo, hi)
unfoldable pub range : ℕ → ℕ → List ℕ
unfolding range_from
range lo hi = range_from lo (hi - lo)

-- the number is among the values
unfoldable pub is_exposed : List Value → ℕ → Bool
is_exposed vs n = any (eq_value (Value.int (pos n))) vs

-- list(set(full_list) - set(exp_list))
unfoldable pub unexposed : List Value → List ℕ → List ℕ
unfolding is_exposed
unexposed vs ns = filter (λ n. not (is_exposed vs n)) ns

-- SERVICE_PORT_LIST.remove(num): the first one
unfoldable pub remove : ℕ → List ℕ → List ℕ
remove n [] = []
remove n (x ∷ xs) = if x == n then xs else x ∷ remove n xs

abbrev pub set_free_ports : List ℕ → Action (Unit {0})
set_free_ports ports w = (ok tt, record w { free_ports = ports })

module _ ⦃E : Engine⦄ (conf : PortConfig) where
  unfoldable pub full_list : List ℕ
  unfolding range
  full_list = range (conf.service_port_min + 1) (conf.service_port_max - 1)

  -- if not SERVICE_PORT_LIST: make it from the ports that no service is exposed on
  unfoldable pub refill : List ℕ → Action (List ℕ)
  unfolding full_list get_all_ports unexposed
  refill [] = do
    exp_list ← get_all_ports
    let free = unexposed exp_list full_list
    set_free_ports free
    pure free
  refill (p ∷ ps) = pure (p ∷ ps)

  -- random.choice, then remove; None when there is no port
  unfoldable pub take_port : List ℕ → Action (Option ℕ)
  unfolding choice remove
  take_port [] = pure none
  take_port (p ∷ ps) = do
    num ← choice (p ∷ ps)
    set_free_ports (remove num (p ∷ ps))
    pure (some num)

  unfoldable pub random_public_port : Action (Option ℕ)
  unfolding refill take_port
  random_public_port w = (do ports ← refill w.free_ports; take_port ports) w

  -- the ports that enable_webservice takes: https_port, then http_port, before either is exposed;
  -- `none` where it returns NotEnoughPortForService
  abbrev both_ports : Option ℕ → Option ℕ → Option (ℕ × ℕ)
  both_ports (some (suc m)) (some (suc n)) = some (suc m, suc n)
  both_ports m n = none

  unfoldable pub webservice_ports : Action (Option (ℕ × ℕ))
  unfolding random_public_port
  webservice_ports = do
    https_port ← random_public_port
    http_port ← random_public_port
    pure (both_ports https_port http_port)
