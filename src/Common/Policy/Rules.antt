-- ===== src/Common/Policy/Rules.antt =====
-- iotronic/common/policy.py: the default rules. A check string of oslo.policy is written as the
-- check that it spells: `role:x`, `rule:x`, `user:%(x)s` and `is_public_api:True`, joined by `or`.
use stack4things_openstack_i.Base.{
  List, Option, String, [], if◌then◌else◌, none, some, str_eq, ◌++◌, ◌∷◌,
}

pub data Check : Type 0 where
  role rule user_is : String → Check
  is_public_api : Check
  either : Check → Check → Check

-- policy.RuleDefault(name, check_str)
pub data RuleDefault : Type 0 where
  rule_default : String → Check → RuleDefault

abbrev pub default_policies : List RuleDefault
default_policies =
    rule_default "admin_api" (either (role "admin") (role "administrator"))
    ∷ rule_default "public_api" (Check.is_public_api)
    ∷ rule_default "is_admin" (rule "admin_api")
    ∷ rule_default "is_admin_iot_project" (role "admin_iot_project")
    ∷ rule_default "is_manager_iot_project" (role "manager_iot_project")
    ∷ rule_default "is_user_iot" (role "user_iot")
    ∷ rule_default "is_owner" (user_is "owner")
    ∷ rule_default "admin_or_owner" (either (rule "is_admin") (rule "is_owner"))
    ∷ rule_default "is_iot_member" (
        either (rule "is_admin_iot_project")
          (either (rule "is_manager_iot_project") (rule "is_user_iot")))
    ∷ []

abbrev pub board_policies : List RuleDefault
board_policies =
    rule_default "iot:board:get" (either (rule "is_admin") (rule "is_iot_member"))
    ∷ rule_default "iot:board:create" (rule "is_admin_iot_project")
    ∷ rule_default "iot:board:delete" (
        either (rule "is_admin")
          (either (rule "is_admin_iot_project") (rule "is_manager_iot_project")))
    ∷ rule_default "iot:board:update" (
        either (rule "is_admin")
          (either (rule "is_admin_iot_project") (rule "is_manager_iot_project")))
    ∷ rule_default "iot:board_action:post" (rule "admin_or_owner")
    ∷ []

abbrev pub plugin_policies : List RuleDefault
plugin_policies =
    rule_default "iot:plugin:get" (either (rule "is_admin") (rule "is_iot_member"))
    ∷ rule_default "iot:plugin:create" (rule "is_iot_member")
    ∷ rule_default "iot:plugin:get_one" (rule "admin_or_owner")
    ∷ rule_default "iot:plugin:delete" (rule "admin_or_owner")
    ∷ rule_default "iot:plugin:update" (rule "admin_or_owner")
    ∷ []

abbrev pub injection_plugin_policies : List RuleDefault
injection_plugin_policies =
    rule_default "iot:plugin_on_board:get" (rule "admin_or_owner")
    ∷ rule_default "iot:plugin_remove:delete" (rule "admin_or_owner")
    ∷ rule_default "iot:plugin_action:post" (rule "admin_or_owner")
    ∷ rule_default "iot:plugin_inject:put" (rule "admin_or_owner")
    ∷ []

abbrev pub service_policies : List RuleDefault
service_policies =
    rule_default "iot:service:get" (either (rule "is_admin") (rule "is_iot_member"))
    ∷ rule_default "iot:service:create" (rule "is_iot_member")
    ∷ rule_default "iot:service:get_one" (rule "admin_or_owner")
    ∷ rule_default "iot:service:delete" (rule "admin_or_owner")
    ∷ rule_default "iot:service:update" (rule "admin_or_owner")
    ∷ []

abbrev pub port_on_board_policies : List RuleDefault
port_on_board_policies =
    rule_default "iot:port_on_board:get" (either (rule "is_admin") (rule "is_iot_member"))
    ∷ rule_default "iot:port_on_board:create" (rule "is_iot_member")
    ∷ rule_default "iot:port_on_board:get_one" (rule "admin_or_owner")
    ∷ rule_default "iot:port_on_board:delete" (rule "admin_or_owner")
    ∷ rule_default "iot:port_on_board:update" (rule "admin_or_owner")
    ∷ []

abbrev pub exposed_service_policies : List RuleDefault
exposed_service_policies =
    rule_default "iot:service_on_board:get" (rule "admin_or_owner")
    ∷ rule_default "iot:service_remove:delete" (rule "admin_or_owner")
    ∷ rule_default "iot:service_action:post" (rule "admin_or_owner")
    ∷ rule_default "iot:service_inject:put" (rule "admin_or_owner")
    ∷ []

abbrev pub fleet_policies : List RuleDefault
fleet_policies =
    rule_default "iot:fleet:get" (either (rule "is_admin") (rule "is_iot_member"))
    ∷ rule_default "iot:fleet:create" (rule "is_iot_member")
    ∷ rule_default "iot:fleet:get_one" (rule "admin_or_owner")
    ∷ rule_default "iot:fleet:delete" (rule "admin_or_owner")
    ∷ rule_default "iot:fleet:update" (rule "admin_or_owner")
    ∷ []

abbrev pub webservice_policies : List RuleDefault
webservice_policies =
    rule_default "iot:webservice:get" (either (rule "is_admin") (rule "is_iot_member"))
    ∷ rule_default "iot:webservice:create" (rule "is_iot_member")
    ∷ rule_default "iot:webservice:get_one" (rule "admin_or_owner")
    ∷ rule_default "iot:webservice:delete" (rule "admin_or_owner")
    ∷ rule_default "iot:webservice:update" (rule "admin_or_owner")
    ∷ []

abbrev pub enabledwebservice_policies : List RuleDefault
enabledwebservice_policies =
    rule_default "iot:enabledwebservice:get" (either (rule "is_admin") (rule "is_iot_member"))
    ∷ rule_default "iot:enabledwebservice:get_one" (rule "admin_or_owner")
    ∷ []

abbrev pub request_policies : List RuleDefault
request_policies =
    rule_default "iot:request:get" (either (rule "is_admin") (rule "is_iot_member"))
    ∷ rule_default "iot:request:get_one" (either (rule "is_admin") (rule "is_iot_member"))
    ∷ []

abbrev pub result_policies : List RuleDefault
result_policies =
    rule_default "iot:result:get" (either (rule "is_admin") (rule "is_iot_member"))
    ∷ rule_default "iot:result:get_one" (either (rule "is_admin") (rule "is_iot_member"))
    ∷ []

unfoldable pub list_policies : List RuleDefault
list_policies =
    default_policies ++ board_policies ++ plugin_policies ++ injection_plugin_policies
    ++ service_policies ++ exposed_service_policies ++ port_on_board_policies ++ fleet_policies
    ++ webservice_policies ++ enabledwebservice_policies ++ request_policies ++ result_policies

-- the check registered under a name
unfoldable pub find_rule : String → List RuleDefault → Option Check
find_rule n [] = none
find_rule n (rule_default m k ∷ rs) = if str_eq n m then some k else find_rule n rs
