-- ===== src/Common/Policy.antt =====
-- iotronic/common/policy.py: authorize, over the enforcer of oslo.policy, which is not in the
-- repository, so it is an interface. Target and credentials are the dictionary that the request's
-- context gives, to which a controller adds the owner or the project of the object.
pub mod Rules
pub mod Strangers
use stack4things_openstack_i.Action.{Exception, Result, ok, raised}
use stack4things_openstack_i.Base.{List, String, if◌then◌else◌, none, some, str_eq, ◌∷◌}
use stack4things_openstack_i.Db.Filters.{filter_value}
use stack4things_openstack_i.Db.Schema.{Value}

-- context.to_policy_values(): the roles, in lower case, and the other entries
pub record Credentials : Type 0 where
  pub roles : List String
  pub values : List (String × Value)

-- cdict[key] = value
unfoldable pub set_item : Credentials → String → Value → Credentials
set_item c k v = record c { values = (k, v) ∷ c.values }

-- cdict[key]
unfoldable pub get_item : Credentials → String → Result Value
get_item c k = elim (filter_value k c.values) [ some v ↦ ok v | none ↦ raised Exception.key_error ]

-- What enforcer.authorize(…, do_raise=True) does.
pub data Verdict : Type 0 where
  allowed not_authorized not_registered : Verdict

pub record Enforcer : Type 0 where
  pub authorizes : String → Credentials → Credentials → Verdict
  -- CONF.auth_strategy
  pub auth_strategy : String

module _ ⦃F : Enforcer⦄ where
  abbrev verdict : String → Verdict → Result (Unit {0})
  verdict name Verdict.allowed = ok tt
  verdict name Verdict.not_authorized = raised (Exception.http_forbidden name)
  verdict name Verdict.not_registered = raised Exception.policy_not_registered

  unfoldable pub authorize : String → Credentials → Credentials → Result (Unit {0})
  authorize name target creds =
      if str_eq F.auth_strategy "noauth"
      then ok tt
      else verdict name (F.authorizes name target creds)
