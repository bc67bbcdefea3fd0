-- ===== src/Samples/Policies.antt =====
-- An enforcer that checks the default rules, and the theorem about outsiders at a run on it.
use stack4things_openstack_i.Action.{Exception, raised}
use stack4things_openstack_i.Base.{
  All, Bool, Bool-cases, List, Option, String, [], any, arith, false, if◌then◌else◌, inl, inr, none,
  refl, some, str_eq, suc, sym, zero, ℕ, ◌||◌, ◌∷◌, ◌≡◌,
}
use stack4things_openstack_i.Common.Policy.{Credentials, Enforcer, Verdict, authorize}
use stack4things_openstack_i.Common.Policy.Rules.{Check, RuleDefault, find_rule, list_policies}
use stack4things_openstack_i.Common.Policy.Strangers.{IsDefault, IsOutsider, authorize_outsider}
use stack4things_openstack_i.Db.Filters.{filter_value}
use stack4things_openstack_i.Db.Query.{all}
use stack4things_openstack_i.Db.Schema.{Value}

-- the text of a value under `%`
abbrev shown_text : Value → String
shown_text (Value.str s) = s
shown_text v = ""

abbrev owner_is : String → Credentials → Credentials → Bool
owner_is k t c = elim (filter_value k t.values) [
  | none ↦ false
  | some v ↦ elim (filter_value "user" c.values) [
    | none ↦ false
    | some u ↦ str_eq (shown_text v) (shown_text u)
  ]
]

-- A check with `rule:` followed as often as the fuel lets.
abbrev checks : ℕ → Check → Credentials → Credentials → Bool
checks fuel (Check.role r) t c = any (str_eq r) c.roles
checks zero (Check.rule n) t c = false
checks (suc fuel) (Check.rule n) t c = elim (find_rule n list_policies) [
  | none ↦ false
  | some k ↦ checks fuel k t c
]
checks fuel (Check.user_is k) t c = owner_is k t c
checks fuel Check.is_public_api t c = false
checks fuel (Check.either j k) t c = checks fuel j t c || checks fuel k t c

abbrev verdict_of : Option Check → Credentials → Credentials → Verdict
verdict_of none t c = Verdict.not_registered
verdict_of (some k) t c = if checks 6 k t c then Verdict.allowed else Verdict.not_authorized

abbrev pub keystone_rules : Enforcer
keystone_rules = record {
  authorizes = λ n t c. verdict_of (find_rule n list_policies) t c;
  auth_strategy = "keystone";
}

module _ (t c : Credentials) where
  abbrev Settled : RuleDefault → Type 0
  Settled (RuleDefault.rule_default n k) = checks 6 k t c ≡ checks 5 k t c

  list_policies-Settled : All Settled list_policies
  unfolding list_policies find_rule
  list_policies-Settled = search depth 100 fits 20000

  find_rule-Settled :
      (n : String) (rs : List RuleDefault) (k : Check)
      → All Settled rs
      → find_rule n rs ≡ some k
      → checks 6 k t c ≡ checks 5 k t c
  unfolding find_rule
  find_rule-Settled n [] k all h = cc
  find_rule-Settled n (RuleDefault.rule_default m j ∷ rs) k (p, all) h =
      elim (Bool-cases (str_eq n m)) [
        | inl e ↦ ground (arith, e, h, p)
        | inr e ↦ find_rule-Settled n rs k all (ground (arith, e, h))
      ]

  settled :
      (r : Option Check)
      → ((k : Check) → r ≡ some k → checks 6 k t c ≡ checks 5 k t c)
      → (elim r [ none ↦ false | some k ↦ checks 5 k t c ])
        ≡ (elim r [ none ↦ false | some k ↦ checks 6 k t c ])
  settled none h = refl
  settled (some k) h = sym (h k refl)

  pub checks-rule :
      (n : String)
      → checks 6 (Check.rule n) t c
        ≡ (elim (find_rule n list_policies) [ none ↦ false | some k ↦ checks 6 k t c ])
  checks-rule n =
      settled (find_rule n list_policies)
        λ k e. find_rule-Settled n list_policies k list_policies-Settled e

pub verdict_of_lem :
    (r : Option Check) (t c : Credentials)
    → verdict_of r t c ≡ (elim r [
      | none ↦ Verdict.not_registered
      | some k ↦ if checks 6 k t c then Verdict.allowed else Verdict.not_authorized
    ])
verdict_of_lem none t c = refl
verdict_of_lem (some k) t c = refl

unfoldable pub keystone_default : IsDefault keystone_rules
keystone_default = record {
  holds = checks 6;
  shown = shown_text;
  keystone = refl;
  authorizes_lem = λ n t c. verdict_of_lem (find_rule n list_policies) t c;
  role_lem = λ r t c. refl;
  rule_lem = λ n t c. checks-rule t c n;
  either_lem = λ j k t c. refl;
  user_is_lem = λ k t c. refl;
}

-- a user without a role
abbrev pub stranger_values : Credentials
stranger_values = record { roles = "reader" ∷ []; values = ("user", Value.str "uz") ∷ [] }

-- an administrator of the IoT project
abbrev pub admin_values : Credentials
admin_values = record { roles = "admin_iot_project" ∷ []; values = ("user", Value.str "ua") ∷ [] }

pub stranger-IsOutsider : IsOutsider stranger_values
unfolding any
stranger-IsOutsider = record {
  not_admin = refl;
  not_administrator = refl;
  not_admin_iot_project = refl;
  not_manager_iot_project = refl;
  not_user_iot = refl;
}

authorize_outsider_example :
    (e : Exception) × (authorize ⦃F = keystone_rules⦄ "iot:board:delete" stranger_values
        stranger_values
      ≡ raised e)
unfolding find_rule keystone_default
authorize_outsider_example =
    authorize_outsider keystone_default stranger_values stranger_values stranger-IsOutsider refl
      "iot:board:delete" refl
