-- ===== src/Db/Updating.antt =====
-- Updates of boards, as a later query sees them, and the listing of ports.
use stack4things_openstack_i.Action.{raised}
use stack4things_openstack_i.Db.Laws.{do_update_missing}
use stack4things_openstack_i.Objects.Laws.{get_board_by_uuid_missing}
use stack4things_openstack_i.Action.{Exception, World, ok}
use stack4things_openstack_i.Base.{[], ap, arith, false, filter, refl, ◌∷◌, ◌≡◌, ℕ}
use stack4things_openstack_i.Db.Boards.{get_board_by_uuid, update_board}
use stack4things_openstack_i.Db.Engine.{Engine, Page, stored}
use stack4things_openstack_i.Db.Filters.{Filters}
use stack4things_openstack_i.Db.Laws.{IsNumber, do_update_stored}
use stack4things_openstack_i.Db.Query.{has, update_row}
use stack4things_openstack_i.Db.Schema.{
  Column, Model, Row, Value, Values, assign, assigns, eq_value, set_column, Tables,
}
use stack4things_openstack_i.Db.Services.{get_port_list}
use stack4things_openstack_i.Objects.Laws.{
  IsUuid, get_board_by_uuid_found, identity-IsUuid, updated, updated_found,
}

-- a column that the values do not name keeps its value
assign_unassigned :
    (c : Column) (vs : Values) (r : Row) → assigns c vs ≡ false → assign vs r c ≡ r c
assign_unassigned c [] r h = refl
assign_unassigned c ((d, v) ∷ vs) r h = ground (arith, assign_unassigned c vs (set_column r d v))

module _ ⦃E : Engine⦄ (w : World) where
  -- An update of a known board that does not name its uuid, and that the database takes, returns the
  -- row with the values written over it, and looking the board up by its uuid gives that row.
  pub get_board_by_uuid-update_board :
      (u : Value) (vs : Values) (b : Row) (n : ℕ) (t : Tables)
      → IsUuid u
      → filter (has Column.uuid u) (w.tables Model.board) ≡ b ∷ []
      → IsNumber (b Column.id)
      → E.update w.tables Model.board (has Column.id (b Column.id)) vs ≡ stored n t
      → assigns Column.uuid vs ≡ false
      → ((update_board u vs w).0 ≡ ok (assign vs b))
        × (get_board_by_uuid u (update_board u vs w).1
            ≡ (ok (assign vs b), (update_board u vs w).1))
  unfolding update_board update_row has
  get_board_by_uuid-update_board u vs b n t i known number taken unnamed =
      let v = record w { tables = updated w.tables Model.board b vs } in
      let run : update_board u vs w ≡ (ok (assign vs b), v) = ground (
        arith,
        unnamed,
        do_update_stored w Model.board Exception.board_not_found u vs b (has Column.uuid u) n t
            (identity-IsUuid u i) known taken,
      ) in
      rw run (
        refl,
        get_board_by_uuid_found v u (assign vs b) (
            updated_found w.tables Model.board b vs (has Column.uuid u)
              (λ q. ap (λ x. eq_value x u) (assign_unassigned Column.uuid vs q unnamed)) number
              known),
      )

  -- A board that is not in the table is neither updated nor found: both raise BoardNotFound, and
  -- nothing changes. The values name no uuid.
  pub update_board_missing :
      (u : Value) (vs : Values)
      → IsUuid u
      → filter (has Column.uuid u) (w.tables Model.board) ≡ []
      → assigns Column.uuid vs ≡ false
      → (update_board u vs w ≡ (raised (Exception.board_not_found u), w))
        × (get_board_by_uuid u w ≡ (raised (Exception.board_not_found u), w))
  unfolding update_board update_row
  update_board_missing u vs i gone unnamed = (
    ground (
      arith,
      unnamed,
      do_update_missing w Model.board Exception.board_not_found u vs (has Column.uuid u)
          (identity-IsUuid u i) gone,
    ),
    get_board_by_uuid_missing w u gone,
  )

  -- The filters of a listing of ports have no effect: the listing is that of all ports.
  pub get_port_list_unfiltered :
      (fs : Filters) (page : Page) → get_port_list fs page w ≡ get_port_list [] page w
  unfolding get_port_list
  get_port_list_unfiltered fs page = refl
