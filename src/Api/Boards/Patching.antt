-- ===== src/Api/Boards/Patching.antt =====
-- The uuid of a board is not patched.
use stack4things_openstack_i.Conductor.RpcApi.Messages.{Message}
use stack4things_openstack_i.Action.{Action, Exception, Result, World, lift, ok, raised, ◌>>=◌}
use stack4things_openstack_i.Api.Boards.{patch_board}
use stack4things_openstack_i.Api.Listing.{Answered, allow, rpc}
use stack4things_openstack_i.Api.Router.Strangers.{
  Any, Refuses, bind-Refuses, known_board-Looks, look-Refuses,
}
use stack4things_openstack_i.Api.Utils.{ApiConf, Context, get_rpc_board, set_all, set_typed}
use stack4things_openstack_i.Base.{
  Bool, List, String, [], ap, false, refl, true, ◌||◌, ◌∙◌, ◌∷◌, ◌≡◌,
}
use stack4things_openstack_i.Common.Policy.{Enforcer, authorize}
use stack4things_openstack_i.Conductor.Boards.{update_board_endpoint}
use stack4things_openstack_i.Conductor.RpcApi.{dispatch, returns}
use stack4things_openstack_i.Db.Boards.{update_board}
use stack4things_openstack_i.Db.Engine.{Engine}
use stack4things_openstack_i.Db.Query.{contains_column, update_row}
use stack4things_openstack_i.Db.Schema.{Column, Row, Value, Values, assigns, same_column}
use stack4things_openstack_i.Objects.{
  Object, changes_of, field_type, from_db_object, obj_get_changes, save_board,
}

or_false : (a : Bool) → a ≡ (a || false)
or_false true = refl
or_false false = refl

or_swap : (a b c : Bool) → ((a || b) || c) ≡ (b || (a || c))
or_swap true true c = refl
or_swap true false c = refl
or_swap false true c = refl
or_swap false false c = refl

or_true : (a : Bool) → (a || true) ≡ true
or_true true = refl
or_true false = refl

assigns-changes_of :
    (c : Column) (cs : List Column) (r : Row) → assigns c (changes_of cs r) ≡ contains_column c cs
unfolding changes_of
assigns-changes_of c [] r = refl
assigns-changes_of c (d ∷ cs) r = ap (λ b. same_column c d || b) (assigns-changes_of c cs r)

changed-set_typed :
    (c d : Column) (o : Object) (r : Result Value)
    → contains_column c (set_typed o d r).changed ≡ contains_column c (d ∷ o.changed)
changed-set_typed c d o (ok v) = refl
changed-set_typed c d o (raised e) = refl

changed-set_all :
    ⦃E : Engine⦄ (c : Column) (o : Object) (vs : Values)
    → contains_column c (set_all o vs).changed ≡ (contains_column c o.changed || assigns c vs)
unfolding set_all
changed-set_all c o [] = or_false _
changed-set_all c o ((d, v) ∷ vs) =
    changed-set_all c (set_typed o d (field_type d v)) vs
    ∙ ap (λ (b : Bool). b || assigns c vs) (changed-set_typed c d o (field_type d v))
    ∙ or_swap (same_column c d) (contains_column c o.changed) (assigns c vs)

module _ ⦃E : Engine⦄ ⦃F : Enforcer⦄ (conf : ApiConf) (ctx : Context) (ident : String)
    (values : Values) (w : World) where
  update_refused :
      (o : Object)
      → assigns Column.uuid values ≡ true
      → Refuses w (rpc conf (Message.update_board (set_all o values)))
  unfolding rpc dispatch returns update_board_endpoint save_board update_board update_row
      obj_get_changes
  update_refused o h =
      let e : assigns Column.uuid (changes_of (set_all o values).changed (set_all o values).row)
          ≡ true =
        assigns-changes_of Column.uuid (set_all o values).changed (set_all o values).row
        ∙ changed-set_all Column.uuid o values
        ∙ ap (λ (b : Bool). contains_column Column.uuid o.changed || b) h
        ∙ or_true _ in
      record { error = Exception.invalid_parameter_value; stops = rw e refl }

  lifted_or :
      (r : Result (Unit {0})) (f : Unit {0} → Action Answered)
      → Refuses w (f tt)
      → Refuses w (lift r >>= f)
  lifted_or (ok tt) f k = k
  lifted_or (raised e) f k = record { error = e; stops = refl }

  -- A PATCH with a uuid among its values raises and changes nothing, whoever sends it and whatever
  -- else it sets.
  pub patch_board_uuid :
      assigns Column.uuid values ≡ true
      → (e : Exception) × (patch_board conf ctx ident values w ≡ (raised e, w))
  unfolding patch_board allow
  patch_board_uuid h =
      let r = lifted_or (authorize "iot:board:update" ctx.policy_values ctx.policy_values) _ (
        look-Refuses Any (get_rpc_board ident) _ (known_board-Looks ident w)
          (λ b _. bind-Refuses _ _ (update_refused (from_db_object b) h))) in
      (r.error, r.stops)
