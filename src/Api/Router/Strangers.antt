-- ===== src/Api/Router/Strangers.antt =====
-- Requests of users without a role and without boards or plugins of their own.
pub mod Refusing
pub mod Anyone
use stack4things_openstack_i.Action.{
  Action, Exception, World, except_module, lift, ok, or_not_found, pure, raise, raised, ◌>>=◌,
}
use stack4things_openstack_i.Api.Utils.{
  get_rpc, get_rpc_board, get_rpc_fleet, get_rpc_plugin, get_rpc_service, get_rpc_webservice, want,
}
use stack4things_openstack_i.Base.{
  All, Bool, Bool-cases, List, String, [], false, filter, if◌then◌else◌, inl, inr, refl, subst, sym,
  true, ◌∷◌, ◌≡◌, ◌⊎◌,
}
use stack4things_openstack_i.Db.Boards.{get_board_by_name, get_board_by_uuid}
use stack4things_openstack_i.Db.Engine.{Engine}
use stack4things_openstack_i.Db.Fleets.{
  get_fleet_by_name, get_fleet_by_uuid, get_webservice_by_uuid,
}
use stack4things_openstack_i.Db.Plugins.{get_plugin_by_name, get_plugin_by_uuid}
use stack4things_openstack_i.Db.Query.{one, the_one}
use stack4things_openstack_i.Db.Schema.{Model, Row, Value, truthy}
use stack4things_openstack_i.Db.Services.{get_service_by_name, get_service_by_uuid}
use stack4things_openstack_i.Objects.{Object, from_db_object, load}

-- `m` raises at `w`, and leaves the world as it was
pub record Refuses {A : Type 0} (w : World) (m : Action A) : Type 0 where
  pub error : Exception
  pub stops : m w ≡ (raised error, w)

-- A lookup raises, or finds a row that has `P`; the world stays.
abbrev pub Looks : (Row → Type 0) → World → Action Object → Type 0
Looks P w m =
    ((e : Exception) × (m w ≡ (raised e, w)))
    ⊎ ((r : Row) × (m w ≡ (ok (from_db_object r), w)) × P r)

module _ {A B : Type 0} {w : World} where
  pub bind-Refuses : (m : Action A) (f : A → Action B) → Refuses w m → Refuses w (m >>= f)
  bind-Refuses m f r = record { error = r.error; stops = rw r.stops refl }

module _ {B : Type 0} {w : World} where
  pub look-Refuses :
      (P : Row → Type 0) (m : Action Object) (f : Object → Action B)
      → Looks P w m
      → ((r : Row) → P r → Refuses w (f (from_db_object r)))
      → Refuses w (m >>= f)
  look-Refuses P m f (inl (e, h)) k = record { error = e; stops = rw h refl }
  look-Refuses P m f (inr (r, h, p)) k = record {
    error = (k r p).error;
    stops = rw h (k r p).stops;
  }

  pub if-Refuses :
      (b : Bool) (e : Exception) (f : Unit {0} → Action B)
      → Refuses w (f tt)
      → Refuses w ((if b then pure tt else raise e) >>= f)
  if-Refuses true e f k = k
  if-Refuses false e f k = record { error = e; stops = refl }

  pub except_module-Refuses : (m : Action B) → Refuses w m → Refuses w (except_module m)
  except_module-Refuses m r = record { error = Exception.type_error; stops = rw r.stops refl }

  pub want-Refuses :
      (v : Value) (f : Unit {0} → Action B) → Refuses w (f tt) → Refuses w (want v >>= f)
  unfolding want
  want-Refuses v f k = if-Refuses (truthy v) Exception.missing_parameter_value f k

module _ (P : Row → Type 0) where
  filter-All : (p : Row → Bool) (rs : List Row) → All P rs → All P (filter p rs)
  unfolding filter
  filter-All p [] h = tt
  filter-All p (r ∷ rs) (h, hs) = elim (Bool-cases (p r)) [
    | inl e ↦ rw e (h, filter-All p rs hs)
    | inr e ↦ rw e (filter-All p rs hs)
  ]

module _ {P : Row → Type 0} where
  one_of-All :
      (rs : List Row) (e : Exception) (w : World)
      → All P rs
      → Looks P w (load (or_not_found (lift (the_one rs)) e))
  unfolding load
  one_of-All [] e w h = inl (e, refl)
  one_of-All (r ∷ []) e w (h, hs) = inr (r, refl, h)
  one_of-All (r ∷ s ∷ rs) e w h = inl (Exception.multiple_results_found, refl)

  module _ ⦃E : Engine⦄ where
    pub one-Looks :
        (m : Model) (p : Row → Bool) (e : Exception) (w : World)
        → All P (w.tables m)
        → Looks P w (load (or_not_found (one m p) e))
    unfolding load one
    one-Looks m p e w h =
        subst (λ (rs : List Row). Looks P w (λ v. load (or_not_found (lift (the_one rs)) e) v))
          (sym (E.select_lem w.tables m p))
          (one_of-All (filter p (w.tables m)) e w (filter-All P p (w.tables m) h))

abbrev pub Any : Row → Type 0
Any r = Unit {0}

rows-Any : (rs : List Row) → All Any rs
rows-Any [] = tt
rows-Any (r ∷ rs) = (tt, rows-Any rs)

module _ ⦃E : Engine⦄ where
  get_rpc-Looks :
      (P : Row → Type 0) (m : Model) (e f : Exception) (p q : Row → Bool) (b : Bool) (w : World)
      → All P (w.tables m)
      → Looks P w (if b then load (or_not_found (one m p) e) else load (or_not_found (one m q) f))
  get_rpc-Looks P m e f p q true w h = one-Looks m p e w h
  get_rpc-Looks P m e f p q false w h = one-Looks m q f w h

  look_or_raise :
      (m : Model) (p : Row → Bool) (e f : Exception) (b : Bool) (w : World)
      → Looks Any w (if b then load (or_not_found (one m p) e) else raise f)
  look_or_raise m p e f true w = one-Looks m p e w (rows-Any _)
  look_or_raise m p e f false w = inl (f, refl)

  pub get_rpc_board-Looks :
      (P : Row → Type 0) (i : String) (w : World)
      → All P (w.tables Model.board)
      → Looks P w (get_rpc_board i)
  unfolding get_rpc_board get_rpc get_board_by_uuid get_board_by_name
  get_rpc_board-Looks P i w h = get_rpc-Looks P Model.board _ _ _ _ (E.is_uuid_like i) w h

  pub get_rpc_plugin-Looks :
      (P : Row → Type 0) (i : String) (w : World)
      → All P (w.tables Model.plugin)
      → Looks P w (get_rpc_plugin i)
  unfolding get_rpc_plugin get_rpc get_plugin_by_uuid get_plugin_by_name
  get_rpc_plugin-Looks P i w h = get_rpc-Looks P Model.plugin _ _ _ _ (E.is_uuid_like i) w h

  pub get_rpc_service-Looks : (i : String) (w : World) → Looks Any w (get_rpc_service i)
  unfolding get_rpc_service get_rpc get_service_by_uuid get_service_by_name
  get_rpc_service-Looks i w =
      get_rpc-Looks Any Model.service _ _ _ _ (E.is_uuid_like i) w (rows-Any _)

  pub get_rpc_fleet-Looks : (i : String) (w : World) → Looks Any w (get_rpc_fleet i)
  unfolding get_rpc_fleet get_rpc get_fleet_by_uuid get_fleet_by_name
  get_rpc_fleet-Looks i w = get_rpc-Looks Any Model.fleet _ _ _ _ (E.is_uuid_like i) w (rows-Any _)

  pub get_rpc_webservice-Looks : (i : String) (w : World) → Looks Any w (get_rpc_webservice i)
  unfolding get_rpc_webservice get_webservice_by_uuid
  get_rpc_webservice-Looks i w = look_or_raise Model.webservice _ _ _ (E.is_uuid_like i) w

  pub known_board-Looks : (i : String) (w : World) → Looks Any w (get_rpc_board i)
  known_board-Looks i w = get_rpc_board-Looks Any i w (rows-Any _)
