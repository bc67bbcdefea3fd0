-- ===== src/Api/Router/Sessions.antt =====
-- The requests of the REST API among the calls of the conductor and the WAMP agent: no sequence of
-- them leaves a board with two valid sessions.
use stack4things_openstack_i.Api.Router.Routes.{Request}
use stack4things_openstack_i.Conductor.RpcApi.Messages.{Message}
use stack4things_openstack_i.Action.{World}
use stack4things_openstack_i.Action.Keeps.{Keeps}
use stack4things_openstack_i.Api.Router.{handle}
use stack4things_openstack_i.Api.Router.Serving.{handle-Keeps}
use stack4things_openstack_i.Api.Utils.{ApiConf, Context}
use stack4things_openstack_i.Base.{String, [], filter, length, subst, sym, ◌≡◌, ◌≤◌}
use stack4things_openstack_i.Common.Policy.{Enforcer}
use stack4things_openstack_i.Conductor.Calls.Sessions.{Step-Keeps, none-IsSingle}
use stack4things_openstack_i.Conductor.RpcApi.{dispatch}
use stack4things_openstack_i.Conductor.RpcApi.Steps.{Steps, dispatch-Step}
use stack4things_openstack_i.Db.Engine.{Engine}
use stack4things_openstack_i.Db.Schema.{Model, Value}
use stack4things_openstack_i.Wamp.Sessions.Joining.{valid_of}
use stack4things_openstack_i.Wamp.Sessions.Keeping.{Single}
use stack4things_openstack_i.Wamp.Sessions.Single.{IsSingle}

module _ ⦃E : Engine⦄ ⦃F : Enforcer⦄ (conf : ApiConf) where
  -- what a request of any user, or a call of the conductor or the agent, does to the world
  pub data ApiStep : World → World → Type 0 where
    calls : {w v : World} → Steps conf.conductor w v → ApiStep w v
    serves : {w : World} (ctx : Context) (q : Request) → ApiStep w (handle conf ctx q w).1

  pub data Runs : World → World → Type 0 where
    stays : {w : World} → Runs w w
    goes_on : {w v u : World} → Runs w v → ApiStep v u → Runs w u

  pub dispatch-Keeps : (m : Message) → Keeps Single (dispatch conf.conductor m)
  dispatch-Keeps m = record {
    at = λ w h.
        Step-Keeps conf.conductor.ports conf.conductor.stamp conf.conductor.url conf.conductor.dumps
          (dispatch-Step conf.conductor m w) h;
  }

  ApiStep-Keeps : {w v : World} → ApiStep w v → Single w.tables → Single v.tables
  ApiStep-Keeps (ApiStep.calls s) h = Step-Keeps _ _ _ _ s h
  ApiStep-Keeps (ApiStep.serves ctx q) h = (handle-Keeps conf ctx dispatch-Keeps q).at _ h

  Runs-Keeps : {w v : World} → Runs w v → Single w.tables → Single v.tables
  Runs-Keeps Runs.stays h = h
  Runs-Keeps (Runs.goes_on r s) h = ApiStep-Keeps s (Runs-Keeps r h)

  pub reached-IsSingle :
      (w v : World) → w.tables Model.session ≡ [] → Runs w v → IsSingle (v.tables Model.session)
  reached-IsSingle w v h r = Runs-Keeps r (
      subst IsSingle (sym h) (
        none-IsSingle conf.conductor.ports conf.conductor.stamp conf.conductor.url
          conf.conductor.dumps))

  -- Whatever requests the API serves and whatever calls the conductor and the agent handle, one
  -- after the other, and whether they return or raise: from tables without sessions on, no board
  -- has more than one valid session.
  pub api_valid_sessions_at_most_one :
      (w v : World)
      → w.tables Model.session ≡ []
      → Runs w v
      → (u : String) → length (filter (valid_of (Value.str u)) (v.tables Model.session)) ≤ 1
  api_valid_sessions_at_most_one w v h r u = (reached-IsSingle w v h r).one_valid u
