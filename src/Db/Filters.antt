-- ===== src/Db/Filters.antt =====
-- db/sqlalchemy/api.py: the filters of the listings. A `filters` argument is a dictionary; None
-- and the empty one do the same.
use stack4things_openstack_i.Base.{
  String, Bool, false, ◌||◌, Option, none, some, List, [], ◌∷◌, pos, if◌then◌else◌, str_eq, any,
}
use stack4things_openstack_i.Db.Schema.{Value, Model, Column, Row, Tables, truthy}
use stack4things_openstack_i.Db.Engine.{Engine}
use stack4things_openstack_i.Db.Query.{has, both, every}

abbrev pub Filters : Type 0
Filters = List (String × Value)

-- filters[key], if key in filters
abbrev pub filter_value : String → Filters → Option Value
filter_value k [] = none
filter_value k ((j, v) ∷ fs) = if str_eq k j then some v else filter_value k fs

-- if key in filters: query = query.filter(column == filters[key])
abbrev narrow : String → Column → Filters → (Row → Bool) → Row → Bool
narrow k c fs p = elim (filter_value k fs) [ none ↦ p | some v ↦ both p (has c v) ]

abbrev pub one_value : Value
one_value = Value.int (pos 1)

abbrev zero_value : Value
zero_value = Value.int (pos 0)

unfoldable pub add_boards_filters : Filters → (Row → Bool) → Row → Bool
add_boards_filters fs p =
    narrow "fleet" Column.fleet fs
      (narrow "status" Column.status fs (narrow "project_id" Column.project fs p))

abbrev is_set : String → Filters → Bool
is_set k fs = elim (filter_value k fs) [ none ↦ false | some v ↦ truthy v ]

unfoldable pub add_plugins_filters : Filters → (Row → Bool) → Row → Bool
add_plugins_filters fs p = elim (filter_value "owner" fs) [
  | some v ↦
      if is_set "with_public" fs
      then both p (λ r. has Column.owner v r || has Column.public one_value r)
      else both p (has Column.owner v)
  | none ↦ if is_set "public" fs then both p (has Column.public one_value) else p
]

unfoldable pub add_fleets_filters : Filters → (Row → Bool) → Row → Bool
add_fleets_filters fs p = narrow "project_id" Column.project fs p

unfoldable pub add_requests_filters : Filters → (Row → Bool) → Row → Bool
add_requests_filters fs p = narrow "project_id" Column.project fs p

-- if key in filters: by its truth, column == 1 or column == 0 (swapped for 'no_ragent')
abbrev flag : String → Column → Value → Value → Filters → (Row → Bool) → Row → Bool
flag k c yes_value no_value fs p = elim (filter_value k fs) [
  | none ↦ p
  | some v ↦ if truthy v then both p (has c yes_value) else both p (has c no_value)
]

unfoldable pub add_wampagents_filters : Filters → (Row → Bool) → Row → Bool
add_wampagents_filters fs p =
    flag "no_ragent" Column.ragent zero_value one_value fs
      (flag "online" Column.online one_value zero_value fs p)

-- The method has no return statement: it computes a narrower query and gives back None.
unfoldable pub add_ports_filters : Filters → (Row → Bool) → Option (Row → Bool)
add_ports_filters fs p = none

module _ ⦃E : Engine⦄ where
  -- the project of the board that a row names by board_uuid, by a join with boards
  board_in_project : Tables → Value → Row → Bool
  board_in_project t v r =
      any (both (has Column.uuid (r Column.board_uuid)) (has Column.project v))
        (E.select t Model.board every)

  -- The query is over services, and the test is on Plugin.owner: plugins join with no condition.
  unfoldable pub add_services_filters : Tables → Filters → (Row → Bool) → Row → Bool
  add_services_filters t fs p = elim (filter_value "owner" fs) [
    | none ↦ p
    | some v ↦ both p (λ r. any (has Column.owner v) (E.select t Model.plugin every))
  ]

  unfoldable pub add_enabled_webservices_filters : Tables → Filters → (Row → Bool) → Row → Bool
  unfolding board_in_project
  add_enabled_webservices_filters t fs p = elim (filter_value "project_id" fs) [
    | none ↦ p
    | some v ↦ both p (board_in_project t v)
  ]

  unfoldable pub add_webservices_filters : Tables → Filters → (Row → Bool) → Row → Bool
  unfolding board_in_project
  add_webservices_filters t fs p =
      narrow "board_uuid" Column.board_uuid fs
        (elim (filter_value "project_id" fs) [ none ↦ p | some v ↦ both p (board_in_project t v) ])

  -- a result's request, or the main request of its request, is the one named
  unfoldable pub in_request : Tables → Value → Row → Bool
  in_request t v r =
      any
        (both (has Column.uuid (r Column.request_uuid))
          (λ q. has Column.main_request_uuid v q || has Column.uuid v q))
        (E.select t Model.request every)

  unfoldable pub add_result_filters : Tables → Filters → (Row → Bool) → Row → Bool
  unfolding in_request
  add_result_filters t fs p = elim (filter_value "request_uuid" fs) [
    | none ↦ narrow "result" Column.result fs p
    | some v ↦ both (narrow "result" Column.result fs p) (in_request t v)
  ]
