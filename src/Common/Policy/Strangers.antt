-- ===== src/Common/Policy/Strangers.antt =====
-- With the default rules, a user who has none of the roles that they name, and does not own the
-- target, is allowed nothing.
use stack4things_openstack_i.Action.{Exception, raised}
use stack4things_openstack_i.Base.{
  All, Bool, Bool-cases, List, Option, Option-cases, String, [], any, ap, arith, false,
  if◌then◌else◌, inl, inr, none, refl, some, str_eq, ◌++◌, ◌||◌, ◌∙◌, ◌∷◌, ◌≡◌,
}
use stack4things_openstack_i.Common.Policy.{Credentials, Enforcer, Verdict, authorize}
use stack4things_openstack_i.Common.Policy.Rules.{
  Check, RuleDefault, board_policies, default_policies, enabledwebservice_policies,
  exposed_service_policies, find_rule, fleet_policies, injection_plugin_policies, list_policies,
  plugin_policies, port_on_board_policies, request_policies, result_policies, service_policies,
  webservice_policies,
}
use stack4things_openstack_i.Db.Filters.{filter_value}
use stack4things_openstack_i.Db.Query.{all}
use stack4things_openstack_i.Db.Schema.{Value}

-- The documented behaviour of oslo.policy where no policy file overrides the defaults: a rule that
-- is not registered is an error, `rule:` refers to a registered rule, and `user:%(k)s` compares the
-- target's entry with the user of the credentials, and fails where the target has no such entry.
pub record IsDefault (F : Enforcer) : Type 1 where
  pub holds : Check → Credentials → Credentials → Bool
  -- the text of a value under `%`
  pub shown : Value → String
  pub keystone : str_eq F.auth_strategy "noauth" ≡ false
  pub authorizes_lem :
      (n : String) (t c : Credentials)
      → F.authorizes n t c ≡ (elim (find_rule n list_policies) [
        | none ↦ Verdict.not_registered
        | some k ↦ if holds k t c then Verdict.allowed else Verdict.not_authorized
      ])
  pub role_lem :
      (r : String) (t c : Credentials) → holds (Check.role r) t c ≡ any (str_eq r) c.roles
  pub rule_lem :
      (n : String) (t c : Credentials)
      → holds (Check.rule n) t c
        ≡ (elim (find_rule n list_policies) [ none ↦ false | some k ↦ holds k t c ])
  pub either_lem :
      (j k : Check) (t c : Credentials)
      → holds (Check.either j k) t c ≡ (holds j t c || holds k t c)
  pub user_is_lem :
      (k : String) (t c : Credentials)
      → holds (Check.user_is k) t c ≡ (elim (filter_value k t.values) [
        | none ↦ false
        | some v ↦ elim (filter_value "user" c.values) [
          | none ↦ false
          | some u ↦ str_eq (shown v) (shown u)
        ]
      ])

-- none of the roles that the rules name
pub record IsOutsider (c : Credentials) : Type 0 where
  pub not_admin : any (str_eq "admin") c.roles ≡ false
  pub not_administrator : any (str_eq "administrator") c.roles ≡ false
  pub not_admin_iot_project : any (str_eq "admin_iot_project") c.roles ≡ false
  pub not_manager_iot_project : any (str_eq "manager_iot_project") c.roles ≡ false
  pub not_user_iot : any (str_eq "user_iot") c.roles ≡ false

-- the rules of the API, without the default ones
abbrev granular_policies : List RuleDefault
granular_policies =
    board_policies ++ plugin_policies ++ injection_plugin_policies ++ service_policies
    ++ exposed_service_policies ++ port_on_board_policies ++ fleet_policies ++ webservice_policies
    ++ enabledwebservice_policies ++ request_policies ++ result_policies

find_rule-append :
    (n : String) (xs ys : List RuleDefault)
    → find_rule n xs ≡ none
    → find_rule n (xs ++ ys) ≡ find_rule n ys
unfolding find_rule
find_rule-append n [] ys h = refl
find_rule-append n (RuleDefault.rule_default m k ∷ xs) ys h = elim (Bool-cases (str_eq n m)) [
  | inl e ↦ ground (arith, e)
  | inr e ↦ rw e (find_rule-append n xs ys (ground (arith, e, h)))
]

-- the target has no owner, or another one
abbrev pub IsForeign : {F : Enforcer} → IsDefault F → Credentials → Credentials → Type 0
IsForeign D t c = D.holds (Check.user_is "owner") t c ≡ false

module _ {F : Enforcer} (D : IsDefault F) (t c : Credentials) (out : IsOutsider c)
    (alien : IsForeign D t c) where
  abbrev Fails : RuleDefault → Type 0
  Fails (RuleDefault.rule_default n k) = D.holds k t c ≡ false

  abbrev named : Option Check → Bool
  named none = false
  named (some k) = D.holds k t c

  rule_false :
      (n : String) (k : Check)
      → find_rule n list_policies ≡ some k
      → D.holds k t c ≡ false
      → D.holds (Check.rule n) t c ≡ false
  rule_false n k e h = D.rule_lem n t c ∙ ap named e ∙ h

  either_false :
      (j k : Check)
      → D.holds j t c ≡ false
      → D.holds k t c ≡ false
      → D.holds (Check.either j k) t c ≡ false
  either_false j k p q = D.either_lem j k t c ∙ rw (p, q)

  is_admin_false : D.holds (Check.rule "is_admin") t c ≡ false
  unfolding find_rule list_policies
  is_admin_false = rule_false _ _ refl (
      rule_false _ _ refl (
        either_false _ _ (D.role_lem _ t c ∙ out.not_admin)
          (D.role_lem _ t c ∙ out.not_administrator)))

  is_admin_iot_project_false : D.holds (Check.rule "is_admin_iot_project") t c ≡ false
  unfolding find_rule list_policies
  is_admin_iot_project_false = rule_false _ _ refl (D.role_lem _ t c ∙ out.not_admin_iot_project)

  is_manager_iot_project_false : D.holds (Check.rule "is_manager_iot_project") t c ≡ false
  unfolding find_rule list_policies
  is_manager_iot_project_false =
      rule_false _ _ refl (D.role_lem _ t c ∙ out.not_manager_iot_project)

  is_iot_member_false : D.holds (Check.rule "is_iot_member") t c ≡ false
  unfolding find_rule list_policies
  is_iot_member_false = rule_false _ _ refl (
      either_false _ _ is_admin_iot_project_false (
        either_false _ _ is_manager_iot_project_false
          (rule_false _ _ refl (D.role_lem _ t c ∙ out.not_user_iot))))

  admin_or_owner_false : D.holds (Check.rule "admin_or_owner") t c ≡ false
  unfolding find_rule list_policies
  admin_or_owner_false =
      rule_false _ _ refl (either_false _ _ is_admin_false (rule_false _ _ refl alien))

  ruleset false_rules = (
    either_false, is_admin_false, is_admin_iot_project_false, is_manager_iot_project_false,
    is_iot_member_false, admin_or_owner_false,
  )

  granular_policies-Fails : All Fails granular_policies
  granular_policies-Fails = search false_rules depth 100 fits 20000

  find_rule-Fails :
      (n : String) (rs : List RuleDefault) (k : Check)
      → All Fails rs
      → find_rule n rs ≡ some k
      → D.holds k t c ≡ false
  unfolding find_rule
  find_rule-Fails n [] k all h = cc
  find_rule-Fails n (RuleDefault.rule_default m j ∷ rs) k (p, all) h =
      elim (Bool-cases (str_eq n m)) [
        | inl e ↦ ground (arith, e, h, p)
        | inr e ↦ find_rule-Fails n rs k all (ground (arith, e, h))
      ]

  -- A user without any of the roles of the default rules, for whom no policy file makes an
  -- exception and who does not own the target, is refused by every rule of the API.
  pub authorize_outsider :
      (n : String)
      → find_rule n default_policies ≡ none
      → (e : Exception) × (authorize ⦃F = F⦄ n t c ≡ raised e)
  unfolding authorize list_policies
  authorize_outsider n fresh =
      let same : find_rule n list_policies ≡ find_rule n granular_policies =
        find_rule-append n default_policies granular_policies fresh in
      elim (Option-cases (find_rule n granular_policies)) [
        | inl e ↦
            (Exception.policy_not_registered, rw (D.keystone, D.authorizes_lem n t c, same, e) refl)
        | inr (k, e) ↦ (
          Exception.http_forbidden n,
          rw
              (
                D.keystone,
                D.authorizes_lem n t c,
                same,
                e,
                find_rule-Fails n granular_policies k granular_policies-Fails e,
              )
              refl,
        )
      ]
