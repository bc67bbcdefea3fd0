-- ===== src/Wamp/Sessions/Replacing.antt =====
-- A board that connects or registers: its valid session is marked, and a new one is opened.

use stack4things_openstack_i.Action.{Action, World, ok, pure, ◌>>◌}
use stack4things_openstack_i.Action.Keeps.{Keeps, continue-Keeps, pure-Keeps}
use stack4things_openstack_i.Base.{
  List, String, [], arith, eq_ℤ, filter, refl, subst, sym, ◌∙◌, ◌∷◌, ◌≡◌,
}
use stack4things_openstack_i.Db.Engine.{Engine, stored}
use stack4things_openstack_i.Db.Keeping.{flush-Keeps}
use stack4things_openstack_i.Db.Laws.{IsNumber-IsScalar, filter-rewrite_lost, has_self, one_many}
use stack4things_openstack_i.Db.Query.{flush, has}
use stack4things_openstack_i.Db.Schema.{Column, Model, Row, Tables, Value, eq_value}
use stack4things_openstack_i.Objects.{changes_of, from_db_object}
use stack4things_openstack_i.Objects.Laws.{updated}
use stack4things_openstack_i.Wamp.Sessions.{invalidate_old, open_session}
use stack4things_openstack_i.Wamp.Sessions.Joining.{
  HasKey, invalidate_old_none, invalidate_old_one, session_values, valid_of,
}
use stack4things_openstack_i.Wamp.Sessions.Keeping.{Single}
use stack4things_openstack_i.Wamp.Sessions.Known.{session-HasKey}
use stack4things_openstack_i.Wamp.Sessions.Leaving.{invalid}
use stack4things_openstack_i.Wamp.Sessions.Single.{IsSingle, append-IsSingle, rewrite-IsSingle}

module _ ⦃E : Engine⦄ where
  -- the outcome of marking the valid session of a board
  pub record IsCleared (w : World) (b : Row) : Type 0 where
    pub tables : Tables
    pub runs : invalidate_old (from_db_object b) w ≡ (ok tt, record w { tables = tables })
    pub single : IsSingle (tables Model.session)
    pub free :
        (u : String)
        → b Column.uuid ≡ Value.str u
        → filter (valid_of (Value.str u)) (tables Model.session) ≡ []

  module _ (w : World) (b : Row) (h : IsSingle (w.tables Model.session)) where
    marked_free :
        (r : Row)
        → HasKey w r
        → (u : String) → filter (valid_of (Value.str u)) (w.tables Model.session) ≡ r ∷ []
        → filter (valid_of (Value.str u)) (updated w.tables Model.session r invalid Model.session)
          ≡ []
    unfolding has filter eq_value eq_ℤ
    marked_free r k u f =
        filter-rewrite_lost (valid_of (Value.str u)) (has Column.id (r Column.id)) invalid
          (λ q. ground arith) (w.tables Model.session)
        ∙ rw f (ground (arith, has_self Column.id r (IsNumber-IsScalar (r Column.id) k.0)))

    unsure :
        (r q : Row) (rs : List Row)
        → filter (valid_of (b Column.uuid)) (w.tables Model.session) ≡ r ∷ q ∷ rs
        → invalidate_old (from_db_object b) w ≡ (ok tt, w)
    unfolding invalidate_old
    unsure r q rs f = ground (arith, one_many w Model.session (valid_of (b Column.uuid)) r q rs f)

    cleared :
        (rs : List Row)
        → filter (valid_of (b Column.uuid)) (w.tables Model.session) ≡ rs
        → IsCleared w b
    cleared [] f = record {
      tables = w.tables;
      runs = invalidate_old_none w b f;
      single = h;
      free = λ u e. subst (λ v. filter (valid_of v) (w.tables Model.session) ≡ []) e f;
    }
    cleared (r ∷ []) f = record {
      tables = updated w.tables Model.session r invalid;
      runs = invalidate_old_one w b r f (session-HasKey w h (valid_of (b Column.uuid)) r f);
      single = rewrite-IsSingle (has Column.id (r Column.id)) (w.tables Model.session) h;
      free = λ u e.
          marked_free r (session-HasKey w h (valid_of (b Column.uuid)) r f) u
            (subst (λ v. filter (valid_of v) (w.tables Model.session) ≡ r ∷ []) e f);
    }
    cleared (r ∷ q ∷ rs) f = record {
      tables = w.tables;
      runs = unsure r q rs f;
      single = h;
      free = λ u e.
          let two = subst (λ v. filter (valid_of v) (w.tables Model.session) ≡ r ∷ q ∷ rs) e f in
          absurd (ground (arith, h.one_valid u, two));
    }

    invalidate_old-IsCleared : IsCleared w b
    invalidate_old-IsCleared =
        cleared (filter (valid_of (b Column.uuid)) (w.tables Model.session)) refl

    -- the row that is stored has a key of its own, and is of this board
    stored-IsSingle :
        (c : IsCleared w b) (s : Value) (r : Row) (u : Tables)
        → E.insert c.tables Model.session (session_values b s) ≡ stored r u
        → IsSingle (u Model.session)
    stored-IsSingle c s r u e =
        let facts = E.insert_stored c.tables u Model.session (session_values b s) r e in
        let same : r Column.board_uuid ≡ b Column.uuid = rw facts.0 refl in
        rw facts.1 (
          append-IsSingle (c.tables Model.session) r c.single (rw facts.0 tt) facts.3
            (λ v g. c.free v (sym same ∙ g)))

    open_session-IsSingle :
        (c : IsCleared w b) (s : Value)
        → IsSingle (
            (open_session (from_db_object b) s (record w { tables = c.tables })).1.tables
              Model.session)
    unfolding open_session changes_of
    open_session-IsSingle c s =
        let opened =
          flush (E.insert c.tables Model.session (session_values b s))
            (record w { tables = c.tables }) in
        continue-Keeps Single opened.0 (λ r. pure (from_db_object r)) opened.1
          (λ r. pure-Keeps (from_db_object r))
          (flush-Keeps Model.session IsSingle (E.insert c.tables Model.session (session_values b s))
            (record w { tables = c.tables }) (stored-IsSingle c s) c.single)

  -- Marking the old session, opening the new one, and going on.
  pub replace_session-Keeps :
      {A : Type 0} (b : Row) (s : Value) (f : Action A)
      → Keeps Single f
      → Keeps Single (invalidate_old (from_db_object b) >> (open_session (from_db_object b) s >> f))
  replace_session-Keeps b s f k = record {
    at = λ w h.
        let c = invalidate_old-IsCleared w b h in
        let opened = open_session (from_db_object b) s (record w { tables = c.tables }) in
        rw c.runs (
          continue-Keeps Single opened.0 (λ _. f) opened.1 (λ _. k)
            (open_session-IsSingle w b h c s));
  }
