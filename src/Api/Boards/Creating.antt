-- ===== src/Api/Boards/Creating.antt =====
-- Which boards a POST creates.

use stack4things_openstack_i.Action.{
  Action, Exception, Result, World, continue, lift, ok, pure, raised, ◌>>=◌,
}
use stack4things_openstack_i.Api.Boards.{BoardBody, new_board, post_board}
use stack4things_openstack_i.Api.Listing.{allow, as_object, rpc, show_board}
use stack4things_openstack_i.Api.Utils.{ApiConf, Context, is_valid_name, want, want_name}
use stack4things_openstack_i.Base.{
  Bool, Bool-cases, List, [], arith, false, inl, inr, none, refl, true, ◌&&◌, ◌∷◌, ◌≡◌, ◌⊎◌,
  if◌then◌else◌,
}
use stack4things_openstack_i.Common.Policy.{Enforcer, authorize}
use stack4things_openstack_i.Conductor.Boards.{create_board_endpoint}
use stack4things_openstack_i.Conductor.RpcApi.{Returned, dispatch, returns}
use stack4things_openstack_i.Db.Engine.{Engine}
use stack4things_openstack_i.Db.Schema.{Column, Value, Values, same_column, truthy, value_of}
use stack4things_openstack_i.Objects.{Object, field_values, new_object}

-- Board.location[0]
abbrev pub first : List Values → Values
first [] = []
first (l ∷ ls) = l

module _ ⦃E : Engine⦄ where
  -- a name that is no uuid, a code, and a location
  unfoldable pub is_well_formed : BoardBody → Bool
  is_well_formed body =
      truthy (value_of Column.name body.values)
      && truthy (value_of Column.code body.values)
      && (elim body.location [ [] ↦ false | l ∷ ls ↦ true ])
      && is_valid_name (value_of Column.name body.values)

-- what values give a column: the object of the API gives each once
abbrev pub given : Column → Values → Value
given c [] = Value.null
given c ((d, v) ∷ vs) = if same_column d c then v else given c vs

module _ {B : Type 0} (k : Object → Action B) where
  continue_object :
      (r : Result Object) (w : World)
      → (continue
          (continue r (λ o. pure (Returned.object o)) w).0
          (λ t. lift (as_object t) >>= k)
          (continue r (λ o. pure (Returned.object o)) w).1)
        ≡ continue r k w
  unfolding as_object
  continue_object (ok o) w = refl
  continue_object (raised e) w = refl

List-cases :
    (ls : List Values) → (ls ≡ []) ⊎ ((l : Values) × (rest : List Values) × (ls ≡ l ∷ rest))
List-cases [] = inl refl
List-cases (l ∷ rest) = inr (l, rest, refl)

module _ ⦃E : Engine⦄ ⦃F : Enforcer⦄ (conf : ApiConf) (ctx : Context) (body : BoardBody)
    (w : World) where
  post_board_lem :
      authorize "iot:board:create" ctx.policy_values ctx.policy_values ≡ ok tt
      → (is_well_formed body ≡ true
          → (vs ls : Values) → field_values body.values ≡ ok vs
          → field_values (first body.location) ≡ ok ls
          → post_board conf ctx body w
            ≡ (do
              created ← create_board_endpoint (new_board conf ctx vs) (new_object ls)
              show_board conf none created)
                w)
        × (is_well_formed body ≡ false
            → (e : Exception) × (post_board conf ctx body w ≡ (raised e, w)))
  unfolding post_board is_well_formed allow want want_name rpc dispatch returns as_object
  post_board_lem may = elim (Bool-cases (truthy (value_of Column.name body.values))) [
    | inr t ↦ (
      λ h vs ls p q. absurd (ground (arith, t, h)),
      λ h. (Exception.missing_parameter_value, rw (may, t) refl),
    )
    | inl t ↦ elim (Bool-cases (truthy (value_of Column.code body.values))) [
      | inr u ↦ (
        λ h vs ls p q. absurd (ground (arith, t, u, h)),
        λ h. (Exception.missing_parameter_value, rw (may, t, u) refl),
      )
      | inl u ↦ elim (List-cases body.location) [
        | inl l ↦ (
          λ h vs ls p q. absurd (ground (arith, t, u, l, h)),
          λ h. (Exception.missing_parameter_value, rw (may, t, u, l) refl),
        )
        | inr (l, ls, e) ↦ elim (Bool-cases (is_valid_name (value_of Column.name body.values))) [
          | inr n ↦ (
            λ h vs xs p q. absurd (ground (arith, t, u, e, n, h)),
            λ h. (Exception.client_side_error, rw (may, t, u, e, n) refl),
          )
          | inl n ↦ (
            λ h vs xs p q.
                let q1 : field_values l ≡ ok xs = rw e at q in
                rw (may, t, u, e, n, p, q1)
                  (continue_object (show_board conf none)
                    (create_board_endpoint (new_board conf ctx vs) (new_object xs) w).0
                    (create_board_endpoint (new_board conf ctx vs) (new_object xs) w).1),
            λ h. absurd (ground (arith, t, u, e, n, h)),
          )
        ]
      ]
    ]
  ]

  -- Any body that lacks a name, a code or a location, or whose name is no valid one, is refused: the
  -- request of a user who may create boards raises, and changes nothing.
  pub post_board_refused :
      authorize "iot:board:create" ctx.policy_values ctx.policy_values ≡ ok tt
      → is_well_formed body ≡ false
      → (e : Exception) × (post_board conf ctx body w ≡ (raised e, w))
  post_board_refused may h = (post_board_lem may).1 h
