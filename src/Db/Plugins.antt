-- ===== src/Db/Plugins.antt =====
-- db/sqlalchemy/api.py: plugins, and their injections into boards.
use stack4things_openstack_i.Base.{List}
use stack4things_openstack_i.Db.Schema.{Value, Model, Column, Row, Values}
use stack4things_openstack_i.Db.Engine.{Engine, Page}
use stack4things_openstack_i.Db.Query.{
  has, both, every, one, all, delete_rows, add_identity_filter, paginate_query, create_row,
  do_update, update_row, destroy_row,
}
use stack4things_openstack_i.Db.Filters.{Filters, add_plugins_filters}
use stack4things_openstack_i.Action.{
  Exception, Action, ◌>>=◌, ◌>>◌, pure, lift, or_not_found, transaction,
}

module _ ⦃E : Engine⦄ where
  unfoldable pub get_plugin_by_id : Value → Action Row
  unfolding one
  get_plugin_by_id plugin_id =
      or_not_found (one Model.plugin (has Column.id plugin_id))
        (Exception.plugin_not_found plugin_id)

  unfoldable pub get_plugin_by_uuid : Value → Action Row
  unfolding one
  get_plugin_by_uuid plugin_uuid =
      or_not_found (one Model.plugin (has Column.uuid plugin_uuid))
        (Exception.plugin_not_found plugin_uuid)

  unfoldable pub get_plugin_by_name : Value → Action Row
  unfolding one
  get_plugin_by_name plugin_name =
      or_not_found (one Model.plugin (has Column.name plugin_name))
        (Exception.plugin_not_found plugin_name)

  unfoldable pub destroy_plugin : Value → Action (Unit {0})
  unfolding destroy_row
  destroy_plugin = destroy_row Model.plugin Exception.plugin_not_found

  unfoldable pub do_update_plugin : Value → Values → Action Row
  unfolding do_update
  do_update_plugin = do_update Model.plugin Exception.plugin_not_found

  unfoldable pub update_plugin : Value → Values → Action Row
  unfolding update_row
  update_plugin = update_row Model.plugin Exception.plugin_not_found Exception.plugin_already_exists

  unfoldable pub create_plugin : Values → Action Row
  unfolding create_row
  create_plugin = create_row Model.plugin Exception.plugin_already_exists

  unfoldable pub get_plugin_list : Filters → Page → Action (List Row)
  unfolding paginate_query add_plugins_filters
  get_plugin_list fs page = paginate_query Model.plugin page (add_plugins_filters fs every)

  -- injections
  unfoldable pub get_injection_plugin_by_board_uuid : Value → Action Row
  unfolding one
  get_injection_plugin_by_board_uuid board_uuid =
      or_not_found (one Model.injection_plugin (has Column.board_uuid board_uuid))
        Exception.injection_plugin_not_found

  unfoldable pub create_injection_plugin : Values → Action Row
  unfolding create_row
  create_injection_plugin = create_row Model.injection_plugin Exception.plugin_already_exists

  unfoldable pub update_injection_plugin : Value → Values → Action Row
  unfolding update_row
  update_injection_plugin =
      update_row Model.injection_plugin (λ _. Exception.injection_plugin_not_found)
        Exception.plugin_already_exists

  unfoldable pub get_injection_plugin_by_uuids : Value → Value → Action Row
  unfolding one
  get_injection_plugin_by_uuids board_uuid plugin_uuid =
      or_not_found
        (one Model.injection_plugin
          (both (has Column.board_uuid board_uuid) (has Column.plugin_uuid plugin_uuid)))
        Exception.injection_plugin_not_found

  -- query.delete() raises no NoResultFound, so a missing injection goes unnoticed
  unfoldable pub destroy_injection_plugin : Value → Action (Unit {0})
  unfolding delete_rows
  destroy_injection_plugin injection_plugin_id = transaction do
    p ← lift (add_identity_filter injection_plugin_id)
    or_not_found (delete_rows Model.injection_plugin p) Exception.injection_plugin_not_found
    pure tt

  unfoldable pub get_injection_plugin_list : Value → Action (List Row)
  unfolding all
  get_injection_plugin_list board_uuid =
      all Model.injection_plugin (has Column.board_uuid board_uuid)
